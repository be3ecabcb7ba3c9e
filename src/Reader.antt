-- ===== src/Reader.antt =====
-- crates/icloud-core/src/reader.rs: which kind of program reads. `/proc` is the record `Proc`; a name is a
-- list of characters.
pub mod Strictest
use icloud_linux.Prelude.{
  ℕ, zero, suc, ◌+◌, Bool, true, false, not, ◌&&◌, ◌||◌, List, [], ◌∷◌, ◌++◌, Option, none, some,
  Text, codes, is_empty, is_prefix, leb, ltb, ◌==◌, nat_eq, text_eq, if◌then◌else◌,
}
use icloud_linux.Status.Log.{parse_u64}
use icloud_linux.TwoFactor.{is_some, then_maybe}
use icloud_linux.TwoFactor.Page.{find_text, split_space}
use icloud_linux.Fs.{Reader, person, preview, indexer}

abbrev lower : Text → Text
lower [] = []
lower (c ∷ s) = (if leb 65 c && leb c 90 then c + 32 else c) ∷ lower s

abbrev has_text : Text → Text → Bool
has_text needle s = is_some (find_text needle s)

abbrev kind_of : Text → Option Reader
kind_of name =
    if has_text (codes "thum") name
      || (has_text (codes "-thu") name || has_text (codes "tumbler") name)
    then some preview
    else if is_prefix (codes "tracker") name
        || (is_prefix (codes "localsearch") name || is_prefix (codes "baloo") name)
    then some indexer
    else none

unfoldable pub classify_name : Text → Option Reader
classify_name name = kind_of (lower name)

abbrev pub is_indexer : Reader → Bool
is_indexer person = false
is_indexer preview = false
is_indexer indexer = true

-- The loop of `classify_names`, over what `filter_map` gives.
unfoldable pub strictest : Reader → List Reader → Reader
strictest found [] = found
strictest found (kind ∷ kinds) = if is_indexer kind then indexer else strictest kind kinds

abbrev with_kind : Option Reader → List Reader → List Reader
with_kind none kinds = kinds
with_kind (some kind) kinds = kind ∷ kinds

abbrev pub kinds_of : List Text → List Reader
kinds_of [] = []
kinds_of (name ∷ names) = with_kind (classify_name name) (kinds_of names)

unfoldable pub classify_names : List Text → Reader
classify_names names = strictest person (kinds_of names)

-- The names of a process, and the text of its `stat`.
pub record Proc : Type 0 where
  pub names_of : ℕ → List Text
  pub stat : ℕ → Option Text

-- What is behind the last closing bracket.
abbrev after_bracket : Text → Option Text
after_bracket [] = none
after_bracket (c ∷ s) = elim (after_bracket s) [
  | some rest ↦ some rest
  | none ↦ if c == 41 then some s else none
]

abbrev first_word : List Text → Option Text
first_word [] = none
first_word (w ∷ ws) = if is_empty w then first_word ws else some w

abbrev second_word : List Text → Option Text
second_word [] = none
second_word (w ∷ ws) = if is_empty w then second_word ws else first_word ws

abbrev above_one : ℕ → Option ℕ
above_one n = if ltb 1 n then some n else none

-- A `u32`.
abbrev parse_u32 : Text → Option ℕ
parse_u32 s = then_maybe (parse_u64 s) (λ n. if ltb n 0x1_0000_0000 then some n else none)

abbrev parent_in : Text → Option ℕ
parent_in stat =
    then_maybe (after_bracket stat) (λ rest.
      then_maybe (second_word (split_space rest)) (λ w. then_maybe (parse_u32 w) above_one))

unfoldable pub parent_of : Proc → ℕ → Option ℕ
parent_of proc pid = then_maybe (proc.stat pid) parent_in

abbrev pub ancestor_depth : ℕ
ancestor_depth = 3

-- The names of the ancestors, up to `k` of them.
unfoldable pub ancestor_names : Proc → ℕ → ℕ → List Text
ancestor_names proc zero current = []
ancestor_names proc (suc k) current = elim (parent_of proc current) [
  | none ↦ []
  | some parent ↦ proc.names_of parent ++ ancestor_names proc k parent
]

unfoldable pub reader : Proc → ℕ → Reader
reader proc pid = classify_names (proc.names_of pid ++ ancestor_names proc ancestor_depth pid)
