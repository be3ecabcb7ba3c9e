-- ===== src/Prelude/Exec/Runs.antt =====
-- What every run of an action keeps, one rule for each way to build one, and what a run that succeeds
-- has done.
use native.Mathlib.Omega.{arith}
use mathlib.Core.Path.{◌≡◌, refl, ap}
use mathlib.Core.Bool.{Bool, true, false}
use icloud_linux.Prelude.Exec.{
  need, raise, pure, ignore, some, none, Option, refuse, Result, ok, err, Exec, continue, ◌>>=◌,
}

-- `m` keeps `P`, whether it succeeds or fails.
pub record Keeps {ℓ} {S E A : Type ℓ} (P : S → Type ℓ) (m : Exec S E A) : Type ℓ where
  pub at : (s : S) → P s → P (m s).1

module _ {ℓ} {S E A B : Type ℓ} where
  keeps_continue :
      (P : S → Type ℓ) (f : A → Exec S E B) (x : Result E A × S)
      → P x.1
      → ((a : A) → Keeps P (f a))
      → P (continue f x).1
  keeps_continue P f (ok a, s) h kf = (kf a).at s h
  keeps_continue P f (err e, s) h kf = h

  pub Keeps-bind :
      {P : S → Type ℓ} (m : Exec S E A) (f : A → Exec S E B)
      → Keeps P m
      → ((a : A) → Keeps P (f a))
      → Keeps P (m >>= f)
  unfolding ◌>>=◌
  Keeps-bind {P} m f km kf = record { at = λ s h. keeps_continue P f (m s) (km.at s h) kf }

  continue_ok :
      (f : A → Exec S E B) (x : Result E A × S) {b : B} {s' : S}
      → continue f x ≡ (ok b, s')
      → (a : A) × (s : S) × (x ≡ (ok a, s)) × (f a s ≡ (ok b, s'))
  continue_ok f (ok a, s) h = (a, s, refl, h)
  continue_ok f (err e, s) h = cc

  -- An action that succeeds did so step by step.
  pub bind_ok :
      (m : Exec S E A) (f : A → Exec S E B) (s : S) {b : B} {s' : S}
      → (m >>= f) s ≡ (ok b, s')
      → (a : A) × (t : S) × (m s ≡ (ok a, t)) × (f a t ≡ (ok b, s'))
  unfolding ◌>>=◌
  bind_ok m f s h = continue_ok f (m s) h

module _ {ℓ} {S E : Type ℓ} where
  pub refuse_ok :
      (o : Option E) (s : S) {u : Unit {ℓ}} {s' : S}
      → refuse o s ≡ (ok u, s')
      → (o ≡ none) × (s ≡ s')
  unfolding refuse
  refuse_ok none s h = ground (arith, h)
  refuse_ok (some e) s h = cc

abbrev value_or {ℓ} : {E A : Type ℓ} → A → Result E A → A
value_or a (ok b) = b
value_or a (err e) = a

-- Two successful outcomes that are equal have equal values and states.
pub ok_injective {ℓ} :
    {S E A : Type ℓ} (a b : A) (s s' : S)
    → ◌≡◌ {A = Result E A × S} (ok a, s) (ok b, s')
    → (a ≡ b) × (s ≡ s')
ok_injective a b s s' h = (ap (λ x. value_or a x.0) h, ap (λ x. x.1) h)

abbrev pub is_err {ℓ} : {E A : Type ℓ} → Result E A → Bool
is_err (ok a) = false
is_err (err e) = true

-- `m` keeps `P` where it fails.
pub record KeepsIfErr {ℓ} {S E A : Type ℓ} (P : S → Type ℓ) (m : Exec S E A) : Type ℓ where
  pub at : (s : S) → P s → is_err (m s).0 ≡ true → P (m s).1

module _ {ℓ} {S E A B : Type ℓ} {P : S → Type ℓ} where
  keeps_continue_err :
      (f : A → Exec S E B) (x : Result E A × S)
      → P x.1
      → ((a : A) → KeepsIfErr P (f a))
      → is_err (continue f x).0 ≡ true
      → P (continue f x).1
  keeps_continue_err f (ok a, s) h kf e = (kf a).at s h e
  keeps_continue_err f (err c, s) h kf e = h

  pub KeepsIfErr-bind :
      (m : Exec S E A) (f : A → Exec S E B)
      → Keeps P m
      → ((a : A) → KeepsIfErr P (f a))
      → KeepsIfErr P (m >>= f)
  unfolding ◌>>=◌
  KeepsIfErr-bind m f km kf = record { at = λ s h e. keeps_continue_err f (m s) (km.at s h) kf e }

module _ {ℓ} {S E A : Type ℓ} {P : S → Type ℓ} where
  pub Keeps-KeepsIfErr : (m : Exec S E A) → Keeps P m → KeepsIfErr P m
  Keeps-KeepsIfErr m k = record { at = λ s h e. k.at s h }

  pub Keeps-ok : (a : A) → Keeps P (pure {S = S} {E = E} a)
  unfolding pure
  Keeps-ok a = record { at = λ s h. h }

  pub Keeps-err : (e : E) → Keeps P (raise {S = S} {A = A} e)
  unfolding raise
  Keeps-err e = record { at = λ s h. h }

  pub Keeps-need : (e : E) (o : Option A) → Keeps P (need {S = S} e o)
  unfolding need
  Keeps-need e none = record { at = λ s h. h }
  Keeps-need e (some a) = record { at = λ s h. h }

  pub Keeps-ignore : (m : Exec S E A) → Keeps P m → Keeps P (ignore m)
  unfolding ignore
  Keeps-ignore m k = record { at = λ s h. k.at s h }
