-- ===== src/Status/Log/Fields.antt =====
-- The fields that `sync_event!` writes are read back.
use icloud_linux.Prelude.{
  ++_assoc, ℕ, zero, suc, ◌+◌, ◌≤◌, false, List, [], ◌∷◌, ◌++◌, map, any, All, some, Text, ◌≡◌,
  refl, ap, ◌∙◌, arith, inl, inr, Bool-cases, length, length-append, ◌==◌, nat_eq,
}
use icloud_linux.Path.Str.{starts_with}
use icloud_linux.Status.Log.{
  Value, text, plain, is_whitespace, split_once, quoted, bare, field_value, fields_within,
  parse_fields, escape, shown, shown_fields,
}

-- The text that a value stands for.
abbrev pub raw : Value → Text
raw (text s) = s
raw (plain s) = s

abbrev pub raw_field : Text × Value → Text × Text
raw_field (key, value) = (key, raw value)

-- No space and no equals sign.
pub record IsKey (key : Text) : Type 0 where
  pub no_space : any is_whitespace key ≡ false
  pub no_equals : any (λ c. c == 61) key ≡ false

abbrev pub IsShowable : Value → Type 0
IsShowable (text s) = Unit
IsShowable (plain s) = (any is_whitespace s ≡ false) × (starts_with 39 s ≡ false)

abbrev pub IsField : Text × Value → Type 0
IsField (key, value) = IsKey key × IsShowable value

quoted-escape : (s t : Text) → quoted false (escape s ++ (39 ∷ t)) ≡ (s, t)
unfolding quoted escape nat_eq
quoted-escape [] t = refl
quoted-escape (c ∷ s) t = ground (arith, quoted-escape s t)

-- A bare value ends at a space or at the end.
bare-append : (s t : Text) → any is_whitespace s ≡ false → bare t ≡ ([], t) → bare (s ++ t) ≡ (s, t)
unfolding bare
bare-append [] t h end = end
bare-append (c ∷ s) t h end = elim (Bool-cases (is_whitespace c)) [
  | inl space ↦ absurd (cc)
  | inr other ↦ rw other (rw (bare-append s t (ground (arith, h, other)) end) refl)
]

pub split_once-append :
    (sep : ℕ) (s t : Text)
    → any (λ c. c == sep) s ≡ false
    → split_once sep (s ++ (sep ∷ t)) ≡ some (s, t)
unfolding split_once
split_once-append sep [] t h = ground arith
split_once-append sep (c ∷ s) t h = ground (arith, split_once-append sep s t)

-- What follows a field starts with a space, or nothing does.
bare-shown_fields : (fs : List (Text × Value)) → bare (shown_fields fs) ≡ ([], shown_fields fs)
unfolding bare shown_fields nat_eq
bare-shown_fields [] = refl
bare-shown_fields (f ∷ fs) = refl

field_value-bare :
    (s t : Text)
    → any is_whitespace s ≡ false
    → starts_with 39 s ≡ false
    → bare t ≡ ([], t)
    → starts_with 39 t ≡ false
    → field_value (s ++ t) ≡ (s, t)
unfolding field_value
field_value-bare [] [] h no_quote end t_quote = refl
field_value-bare [] (c ∷ t) h no_quote end t_quote = rw t_quote end
field_value-bare (c ∷ s) t h no_quote end t_quote = rw no_quote (bare-append (c ∷ s) t h end)

starts-shown_fields : (fs : List (Text × Value)) → starts_with 39 (shown_fields fs) ≡ false
unfolding shown_fields nat_eq
starts-shown_fields [] = refl
starts-shown_fields (f ∷ fs) = refl

field_value-shown :
    (v : Value) (fs : List (Text × Value))
    → IsShowable v
    → field_value (shown v ++ shown_fields fs) ≡ (raw v, shown_fields fs)
unfolding field_value quoted nat_eq
field_value-shown (text s) fs h =
    ap (quoted false) (++_assoc (escape s) (39 ∷ []) (shown_fields fs))
    ∙ quoted-escape s (shown_fields fs)
field_value-shown (plain s) fs h =
    field_value-bare s (shown_fields fs) h.0 h.1 (bare-shown_fields fs) (starts-shown_fields fs)

fields_within_step :
    (k c : ℕ) (s key v : Text)
    → is_whitespace c ≡ false
    → split_once 61 (c ∷ s) ≡ some (key, v)
    → any is_whitespace key ≡ false
    → fields_within (suc k) (c ∷ s) ≡ (key, (field_value v).0) ∷ fields_within k (field_value v).1
unfolding fields_within
fields_within_step k c s key v visible cut one_word = rw (visible, cut, one_word) refl

fields_within-key :
    (k : ℕ) (key v : Text)
    → IsKey key
    → fields_within (suc k) (key ++ (61 ∷ v))
      ≡ (key, (field_value v).0) ∷ fields_within k (field_value v).1
unfolding nat_eq
fields_within-key k [] v h =
    fields_within_step k 61 v [] v refl (split_once-append 61 [] v refl) refl
fields_within-key k (c ∷ key) v h =
    fields_within_step k c (key ++ (61 ∷ v)) (c ∷ key) v (ground (arith, h.no_space))
      (split_once-append 61 (c ∷ key) v h.no_equals) h.no_space

-- With two turns for each field, the loop reads all of them.
pub fields_within-shown_fields :
    (k : ℕ) (fs : List (Text × Value))
    → All IsField fs
    → length fs + length fs ≤ k
    → fields_within k (shown_fields fs) ≡ map raw_field fs
unfolding fields_within shown_fields nat_eq
fields_within-shown_fields zero [] h enough = refl
fields_within-shown_fields (suc k) [] h enough = refl
fields_within-shown_fields zero (f ∷ fs) h enough = absurd (omega arith)
fields_within-shown_fields (suc zero) (f ∷ fs) h enough = absurd (omega arith)
fields_within-shown_fields (suc (suc k)) ((key, v) ∷ fs) h enough =
    fields_within-key k key (shown v ++ shown_fields fs) h.0.0
    ∙ (rw (field_value-shown v fs h.0.1)
        (ap (λ l. (key, raw v) ∷ l) (fields_within-shown_fields k fs h.1 (omega arith))))

two_each : (fs : List (Text × Value)) → length fs + length fs ≤ length (shown_fields fs)
unfolding shown_fields
two_each [] = omega arith
two_each ((key, v) ∷ fs) =
    let rest = two_each fs in
    let whole = length-append key (61 ∷ (shown v ++ shown_fields fs)) in
    let tail = length-append (shown v) (shown_fields fs) in omega arith

-- Whatever fields a line is written with, they are read back.
pub parse_fields-shown_fields :
    (fs : List (Text × Value)) → All IsField fs → parse_fields (shown_fields fs) ≡ map raw_field fs
unfolding parse_fields
parse_fields-shown_fields fs h = fields_within-shown_fields _ fs h (two_each fs)
