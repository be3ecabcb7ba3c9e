-- ===== src/Path/Defs.antt =====
-- The operations of `IcPath`, function for function.
use mathlib.Core.List.{drop_last, foldl}
use icloud_linux.Prelude.{
  ℕ, zero, suc, ◌-◌, Bool, false, not, ◌&&◌, ◌||◌, List, [], ◌∷◌, ◌++◌, Option, none, some, Text,
  ◌==◌, nat_eq, text_eq, leb, length, take, drop, contains, is_empty, if◌then◌else◌,
}
use icloud_linux.Path.Str.{
  split, join_with, rfind, rsplit_next, count, strip_prefix, starts_with, trim_start,
}

abbrev pub IcPath : Type 0
IcPath = Text

abbrev pub root : IcPath
root = b'/' ∷ []

abbrev pub dot : Text
dot = b'.' ∷ []

abbrev pub dot_dot : Text
dot_dot = b'.' ∷ b'.' ∷ []

-- The body of the loop in `IcPath::new`; `parts` is a `Vec`, whose end is the end of the list.
abbrev pub push_part : List Text → Text → List Text
push_part parts part =
    if part == [] || part == dot
    then parts
    else if part == dot_dot
    then drop_last parts
    else parts ++ (part ∷ [])

-- `IcPath::new`
unfoldable pub new : Text → IcPath
new raw =
    let parts = foldl push_part [] (split b'/' raw) in
    if is_empty parts then root else b'/' ∷ join_with b'/' parts

unfoldable pub is_root : IcPath → Bool
is_root p = p == root

-- The match on `self.0.rfind('/')`.
abbrev pub cut_at : IcPath → Option ℕ → IcPath
cut_at p none = root
cut_at p (some zero) = root
cut_at p (some (suc i)) = take (suc i) p

unfoldable pub parent : IcPath → IcPath
parent p = cut_at p (rfind b'/' p)

unfoldable pub file_name : IcPath → Option Text
unfolding is_root
file_name p = if is_root p then none else some (rsplit_next b'/' p)

-- A single file name Drive could hold.
unfoldable pub is_valid_name : Text → Bool
is_valid_name name =
    not (is_empty name)
    && not (name == dot)
    && not (name == dot_dot)
    && not (contains b'/' name || contains 0 name)
    && leb (length name) 255

unfoldable pub join : IcPath → Text → Option IcPath
unfolding is_root
join p name =
    if not (is_valid_name name)
    then none
    else some (if is_root p then b'/' ∷ name else p ++ (b'/' ∷ name))

unfoldable pub depth : IcPath → ℕ
unfolding is_root
depth p = if is_root p then 0 else count b'/' p

-- `is_some_and(|rest| rest.starts_with('/'))`
abbrev pub below_slash : Option Text → Bool
below_slash none = false
below_slash (some rest) = starts_with b'/' rest

unfoldable pub is_within : IcPath → IcPath → Bool
unfolding is_root
is_within p prefix = is_root prefix || p == prefix || below_slash (strip_prefix prefix p)

unfoldable pub relative_to : IcPath → IcPath → Option Text
unfolding is_root
relative_to p prefix =
    if not (is_within p prefix)
    then none
    else some
        (if is_root prefix then trim_start b'/' p else trim_start b'/' (drop (length prefix) p))

-- What `rebase` builds of the relative part.
abbrev pub under : IcPath → Text → IcPath
under to rest =
    if is_empty rest then to else if is_root to then b'/' ∷ rest else to ++ (b'/' ∷ rest)

unfoldable pub rebase : IcPath → IcPath → IcPath → Option IcPath
unfolding is_root
rebase p from to = elim (relative_to p from) [ none ↦ none | some rest ↦ some (under to rest) ]

-- `low` of `subtree_bounds`
abbrev pub subtree_low : IcPath → Text
subtree_low p = if is_root p then root else p ++ (b'/' ∷ [])

-- `subtree_bounds`: `high` is `low` with its last byte replaced by `0`, the byte after `/`.
unfoldable pub subtree_bounds : IcPath → Text × Text
unfolding is_root
subtree_bounds p = let low = subtree_low p in (low, take (length low - 1) low ++ (b'0' ∷ []))
