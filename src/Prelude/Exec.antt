-- ===== src/Prelude/Exec.antt =====
-- Code that changes a state and may fail. What was written before a failure stays written, so the
-- state comes back beside the error too.
pub mod Runs
use mathlib.Core.Option.{Option, none, some}

pub data Result {ℓ} (E : Type ℓ) (A : Type ℓ) : Type ℓ where
  ok : A → Result E A
  err : E → Result E A

abbrev pub Exec {ℓ} : Type ℓ → Type ℓ → Type ℓ → Type ℓ
Exec S E A = S → Result E A × S

module _ {ℓ} {S E A : Type ℓ} where
  unfoldable pub pure : A → Exec S E A
  pure a s = (ok a, s)

  unfoldable pub raise : E → Exec S E A
  raise e s = (err e, s)

  unfoldable pub gets : (S → A) → Exec S E A
  gets f s = (ok (f s), s)

  -- `ok_or`, and `?` on a result that changes nothing.
  unfoldable pub need : E → Option A → Exec S E A
  need e none s = (err e, s)
  need e (some a) s = (ok a, s)

module _ {ℓ} {S E : Type ℓ} where
  unfoldable pub modify : (S → S) → Exec S E (Unit {ℓ})
  modify f s = (ok tt, f s)

  -- A change that fails as a whole.
  unfoldable pub replace : E → Option S → Exec S E (Unit {ℓ})
  replace e none s = (err e, s)
  replace e (some s') s = (ok tt, s')

  -- The error that a check found, if any.
  unfoldable pub refuse : Option E → Exec S E (Unit {ℓ})
  refuse none s = (ok tt, s)
  refuse (some e) s = (err e, s)

module _ {ℓ} {S E A B : Type ℓ} where
  abbrev pub continue : (A → Exec S E B) → Result E A × S → Result E B × S
  continue f (ok a, s) = f a s
  continue f (err e, s) = (err e, s)

  infixl 10 ◌>>=◌
  -- Opening this opens the actions above too.
  unfoldable pub ◌>>=◌ : Exec S E A → (A → Exec S E B) → Exec S E B
  unfolding pure raise gets need modify replace refuse
  ◌>>=◌ m f s = continue f (m s)

module _ {ℓ} {S E B : Type ℓ} where
  infixl 10 ◌>>◌
  abbrev pub ◌>>◌ : Exec S E (Unit {ℓ}) → Exec S E B → Exec S E B
  m >> n = m >>= λ _. n

module _ {ℓ} {S E A : Type ℓ} where
  -- `let _ = ..` and `if let Err(_)`: the error is dropped.
  abbrev forget_result : Result E A × S → Result E (Unit {ℓ}) × S
  forget_result (r, s) = (ok tt, s)

  unfoldable pub ignore : Exec S E A → Exec S E (Unit {ℓ})
  ignore m s = forget_result (m s)
