-- ===== src/Status/Escape.antt =====
-- The escaping of a path can be undone.
use icloud_linux.Prelude.{
  ap, ◌∙◌, ℕ, ◌+◌, ◌-◌, ◌*◌, ◌/◌, ◌%◌, ◌<◌, ◌≡◌, refl, true, false, [], ◌∷◌, arith, All, Bool-cases,
  inl, inr, Text, ltb, ◌==◌, nat_eq, if◌then◌else◌,
}
use icloud_linux.Status.{is_plain, hex, escape_uri_path}

abbrev unhex : ℕ → ℕ
unhex c = if ltb c 58 then c - 48 else c - 55

-- Undoes percent-encoding.
unfoldable pub unescape : Text → Text
unescape [] = []
unescape (c ∷ []) = c ∷ []
unescape (c ∷ d ∷ []) = c ∷ d ∷ []
unescape (c ∷ h ∷ l ∷ s) =
    let short = unescape s in
    let long = unescape (h ∷ l ∷ s) in
    if c == 37 then (16 * unhex h + unhex l) ∷ short else c ∷ long

unhex-hex : (n : ℕ) → n < 16 → unhex (hex n) ≡ n
unhex-hex n l = ground arith

unescape-plain : (c : ℕ) (s : Text) → (c == 37) ≡ false → unescape (c ∷ s) ≡ c ∷ unescape s
unfolding unescape
unescape-plain c [] h = refl
unescape-plain c (h ∷ []) e = refl
unescape-plain c (h ∷ l ∷ s) e = ground arith

plain_not_percent : (b : ℕ) → is_plain b ≡ true → (b == 37) ≡ false
plain_not_percent b h = ground arith

-- Percent-decoding an escaped path gives it back, whatever bytes are in it: different mounts have
-- different bookmarks.
pub unescape-escape_uri_path :
    (path : Text) → All (λ b. b < 256) path → unescape (escape_uri_path path) ≡ path
unfolding escape_uri_path unescape
unescape-escape_uri_path [] h = refl
unescape-escape_uri_path (b ∷ path) h = elim (Bool-cases (is_plain b)) [
  | inl plain ↦ rw plain (
      unescape-plain b (escape_uri_path path) (plain_not_percent b plain)
      ∙ ap (◌∷◌ b) (unescape-escape_uri_path path h.1))
  | inr special ↦ ground (
    arith,
    special,
    unhex-hex (b / 16) (omega (arith, h.0)),
    unhex-hex (b % 16) (omega arith),
    unescape-escape_uri_path path h.1,
  )
]
