-- ===== src/TwoFactor/Phones.antt =====
-- The phone numbers that `from_boot_json` lists.
use mathlib.Core.Path.{subst}
use icloud_linux.Prelude.{
  Bool, true, false, List, [], ◌∷◌, ◌++◌, any, Option, none, some, ◌≡◌, refl, sym, ap, ◌∙◌, inl,
  inr, Bool-cases, arith,
}
use icloud_linux.State.Sql.{find_where}
use icloud_linux.TwoFactor.{
  Json, TrustedPhone, from_value, has_id, add, add_if, add_list, one_of, several_of,
  add_verifications, verifications, phones_of, from_boot_json, or_some,
}

-- `==` of `serde_json::Value` is equality.
pub record IsEquality {V : Type 0} (json : Json V) : Type 0 where
  pub sound : (a b : V) → json.same a b ≡ true → a ≡ b
  pub reflexive : (a : V) → json.same a a ≡ true

module _ {V : Type 0} (json : Json V) where
  abbrev with_first : Option (TrustedPhone V) → List (TrustedPhone V) → List (TrustedPhone V)
  with_first none phones = phones
  with_first (some phone) phones = phone ∷ phones

  -- The phones that a reply has, in its order.
  abbrev listed_in : List V → List (TrustedPhone V)
  listed_in [] = []
  listed_in (v ∷ vs) = with_first (from_value json v) (listed_in vs)

  abbrev verified_in : List (Option V) → List (TrustedPhone V)
  verified_in [] = []
  verified_in (none ∷ vs) = verified_in vs
  verified_in (some v ∷ vs) =
      with_first (one_of json v) (listed_in (several_of json v) ++ verified_in vs)

  abbrev pub all_phones : V → List (TrustedPhone V)
  all_phones root = verified_in (verifications json root) ++ with_first (one_of json root) []

  abbrev pub AreDistinct : List (TrustedPhone V) → Type 0
  AreDistinct [] = Unit
  AreDistinct (p ∷ ps) = (any (has_id json p.id) ps ≡ false) × AreDistinct ps

  add_all : List (TrustedPhone V) → List (TrustedPhone V) → List (TrustedPhone V)
  add_all [] phones = phones
  add_all (p ∷ ps) phones = add_all ps (add json p phones)

  add_all-append :
      (ps qs phones : List (TrustedPhone V))
      → add_all (ps ++ qs) phones ≡ add_all qs (add_all ps phones)
  unfolding add_all
  add_all-append [] qs phones = refl
  add_all-append (p ∷ ps) qs phones = add_all-append ps qs (add json p phones)

  add_if-with_first :
      (o : Option (TrustedPhone V)) (ps phones : List (TrustedPhone V))
      → add_all (with_first o ps) phones ≡ add_all ps (add_if json o phones)
  unfolding add_all
  add_if-with_first none ps phones = refl
  add_if-with_first (some p) ps phones = refl

  add_list-listed_in :
      (vs : List V) (phones : List (TrustedPhone V))
      → add_list json vs phones ≡ add_all (listed_in vs) phones
  unfolding add_list add_all
  add_list-listed_in [] phones = refl
  add_list-listed_in (v ∷ vs) phones =
      add_list-listed_in vs (add_if json (from_value json v) phones)
      ∙ sym (add_if-with_first (from_value json v) (listed_in vs) phones)

  add_verifications-verified_in :
      (vs : List (Option V)) (phones : List (TrustedPhone V))
      → add_verifications json vs phones ≡ add_all (verified_in vs) phones
  unfolding add_verifications add_all
  add_verifications-verified_in [] phones = refl
  add_verifications-verified_in (none ∷ vs) phones = add_verifications-verified_in vs phones
  add_verifications-verified_in (some v ∷ vs) phones =
      add_verifications-verified_in vs _
      ∙ (ap (add_all (verified_in vs)) (add_list-listed_in (several_of json v) _)
          ∙ (sym (add_all-append (listed_in (several_of json v)) (verified_in vs) _)
              ∙ sym (add_if-with_first (one_of json v) _ phones)))

  phones_of-all_phones : (root : V) → phones_of json root ≡ add_all (all_phones root) []
  unfolding phones_of add_all
  phones_of-all_phones root =
      ap (add_if json (one_of json root))
        (add_verifications-verified_in (verifications json root) [])
      ∙ (sym (add_if-with_first (one_of json root) [] _)
          ∙ sym (add_all-append (verified_in (verifications json root)) _ []))

  find-append :
      (c : TrustedPhone V → Bool) (ps qs : List (TrustedPhone V))
      → find_where c (ps ++ qs) ≡ or_some (find_where c ps) (find_where c qs)
  unfolding find_where
  find-append c [] qs = refl
  find-append c (p ∷ ps) qs = ground (arith, find-append c ps qs)

  any-find :
      (c : TrustedPhone V → Bool) (ps : List (TrustedPhone V))
      → any c ps ≡ true
      → (p : TrustedPhone V) × (find_where c ps ≡ some p)
  unfolding find_where
  any-find c [] h = absurd (cc)
  any-find c (p ∷ ps) h = elim (Bool-cases (c p)) [
    | inl here ↦ (p, rw here refl)
    | inr later ↦ let (q, found) = any-find c ps (rw later at h) in (q, rw later found)
  ]

  any-false :
      (c : TrustedPhone V → Bool) (p : TrustedPhone V) (ps : List (TrustedPhone V))
      → any c (p ∷ ps) ≡ false
      → (c p ≡ false) × (any c ps ≡ false)
  any-false c p ps h = ground (arith, h)

  or_some-some :
      (o o' : Option (TrustedPhone V)) (p : TrustedPhone V) → o ≡ some p → or_some o o' ≡ o
  or_some-some none o' p h = absurd (cc)
  or_some-some (some q) o' p h = refl

  or_some-none : (o : Option (TrustedPhone V)) → or_some o none ≡ o
  or_some-none none = refl
  or_some-none (some p) = refl

module _ {V : Type 0} (json : Json V) (eq : IsEquality json) where
  -- A phone that is skipped would not be found first.
  find-add :
      (i : V) (p : TrustedPhone V) (ps : List (TrustedPhone V))
      → find_where (has_id json i) (add json p ps)
        ≡ or_some (find_where (has_id json i) ps) (find_where (has_id json i) (p ∷ []))
  unfolding add find_where
  find-add i p ps = elim (Bool-cases (any (has_id json p.id) ps)) [
    | inr new ↦ rw new (find-append json (has_id json i) ps (p ∷ []))
    | inl known ↦ rw known (elim (Bool-cases (json.same p.id i)) [
      | inr other ↦ rw other (sym (or_some-none json _))
      | inl same ↦
          let (q, found) =
            any-find json (has_id json i) ps
              (subst (λ j. any (has_id json j) ps ≡ true) (eq.sound p.id i same) known) in
          sym (or_some-some json _ _ q found)
    ])
  ]

  or_some_assoc :
      (a b c : Option (TrustedPhone V)) → or_some (or_some a b) c ≡ or_some a (or_some b c)
  or_some_assoc none b c = refl
  or_some_assoc (some p) b c = refl

  find-add_all :
      (i : V) (ps phones : List (TrustedPhone V))
      → find_where (has_id json i) (add_all json ps phones)
        ≡ or_some (find_where (has_id json i) phones) (find_where (has_id json i) ps)
  unfolding add_all find_where
  find-add_all i [] phones = sym (or_some-none json (find_where (has_id json i) phones))
  find-add_all i (p ∷ ps) phones =
      find-add_all i ps (add json p phones)
      ∙ (ap (λ o. or_some o (find_where (has_id json i) ps)) (find-add i p phones)
          ∙ (or_some_assoc (find_where (has_id json i) phones) (find_where (has_id json i) (p ∷ []))
                (find_where (has_id json i) ps)
              ∙ ap (or_some (find_where (has_id json i) phones))
                  (sym (find-append json (has_id json i) (p ∷ []) ps))))

  same_sym : (a b : V) → json.same a b ≡ false → json.same b a ≡ false
  same_sym a b differ = elim (Bool-cases (json.same b a)) [
    | inr other ↦ other
    | inl same ↦
        absurd (cc (subst (λ x. json.same x b ≡ true) (eq.sound b a same) (eq.reflexive b), differ))
  ]

  any-snoc :
      (c : TrustedPhone V → Bool) (ps : List (TrustedPhone V)) (p : TrustedPhone V)
      → any c ps ≡ false
      → c p ≡ false
      → any c (ps ++ (p ∷ [])) ≡ false
  any-snoc c [] p h h' = rw h' refl
  any-snoc c (q ∷ ps) p h h' = ground (arith, h, h', any-snoc c ps p)

  snoc-AreDistinct :
      (ps : List (TrustedPhone V)) (p : TrustedPhone V)
      → AreDistinct json ps
      → any (has_id json p.id) ps ≡ false
      → AreDistinct json (ps ++ (p ∷ []))
  snoc-AreDistinct [] p d h = (refl, tt)
  snoc-AreDistinct (q ∷ ps) p d h =
      let (here, later) = any-false json (has_id json p.id) q ps h in
      (
        any-snoc (has_id json q.id) ps p d.0 (same_sym q.id p.id here),
        snoc-AreDistinct ps p d.1 later,
      )

  add-AreDistinct :
      (p : TrustedPhone V) (ps : List (TrustedPhone V))
      → AreDistinct json ps
      → AreDistinct json (add json p ps)
  unfolding add
  add-AreDistinct p ps d = elim (Bool-cases (any (has_id json p.id) ps)) [
    | inl known ↦ rw known d
    | inr new ↦ rw new (snoc-AreDistinct ps p d new)
  ]

  add_all-AreDistinct :
      (ps phones : List (TrustedPhone V))
      → AreDistinct json phones
      → AreDistinct json (add_all json ps phones)
  unfolding add_all
  add_all-AreDistinct [] phones d = d
  add_all-AreDistinct (p ∷ ps) phones d =
      add_all-AreDistinct ps (add json p phones) (add-AreDistinct p phones d)

  -- The phones that are offered are those of the reply, each id once, with the details that come first:
  -- for each id, the phone with it that the options list is the first one in the reply, in the order
  -- of its places, and no two that are listed have one id. `==` of values is equality.
  pub from_boot_json-phones :
      (root i : V)
      → (find_where (has_id json i) (from_boot_json json root).phones
          ≡ find_where (has_id json i) (all_phones json root))
        × AreDistinct json (from_boot_json json root).phones
  unfolding from_boot_json find_where
  from_boot_json-phones root i =
      let listed = phones_of-all_phones json root in
      (
        ap (find_where (has_id json i)) listed ∙ find-add_all i (all_phones json root) [],
        subst (AreDistinct json) (sym listed) (add_all-AreDistinct (all_phones json root) [] tt),
      )
