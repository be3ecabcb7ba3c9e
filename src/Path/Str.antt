-- ===== src/Path/Str.antt =====
-- The methods of `str` that crates/icloud-core/src/path.rs calls, on bytes.
use icloud_linux.Prelude.{
  ℕ, suc, ◌+◌, Bool, false, List, [], ◌∷◌, ◌++◌, Option, none, some, Text, ◌==◌, nat_eq,
  if◌then◌else◌,
}

-- Puts a byte in front of the first piece.
abbrev pub push_front : ℕ → List Text → List Text
push_front c [] = (c ∷ []) ∷ []
push_front c (p ∷ ps) = (c ∷ p) ∷ ps

-- `split(c)`: never empty.
unfoldable pub split : ℕ → Text → List Text
split sep [] = [] ∷ []
split sep (c ∷ s) = let rest = split sep s in if c == sep then [] ∷ rest else push_front c rest

-- `parts.join("/")`
unfoldable pub join_with : ℕ → List Text → Text
join_with sep [] = []
join_with sep (p ∷ []) = p
join_with sep (p ∷ q ∷ ps) = p ++ (sep ∷ join_with sep (q ∷ ps))

-- `rfind(c)`: the byte index of the last occurrence.
unfoldable pub rfind : ℕ → Text → Option ℕ
rfind sep [] = none
rfind sep (c ∷ s) = elim (rfind sep s) [
  | some i ↦ some (suc i)
  | none ↦ if c == sep then some 0 else none
]

abbrev pub last_piece : List Text → Text
last_piece [] = []
last_piece (p ∷ []) = p
last_piece (p ∷ q ∷ ps) = last_piece (q ∷ ps)

-- `rsplit(c).next()`, which always is `Some`.
unfoldable pub rsplit_next : ℕ → Text → Text
rsplit_next sep s = last_piece (split sep s)

-- `matches(c).count()`
unfoldable pub count : ℕ → Text → ℕ
count sep [] = 0
count sep (c ∷ s) = (if c == sep then 1 else 0) + count sep s

-- `strip_prefix(p)`
unfoldable pub strip_prefix : Text → Text → Option Text
strip_prefix [] s = some s
strip_prefix (c ∷ p) [] = none
strip_prefix (c ∷ p) (d ∷ s) = if c == d then strip_prefix p s else none

-- `starts_with(c)`
abbrev pub starts_with : ℕ → Text → Bool
starts_with c [] = false
starts_with c (d ∷ s) = d == c

-- `trim_start_matches(c)`
unfoldable pub trim_start : ℕ → Text → Text
trim_start c [] = []
trim_start c (d ∷ s) = let rest = trim_start c s in if d == c then rest else d ∷ s
