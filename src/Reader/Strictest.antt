-- ===== src/Reader/Strictest.antt =====
-- An indexer among the names outweighs all else, and a thumbnailer a person.
use icloud_linux.Prelude.{
  ℕ, Bool, true, false, ◌⊎◌, List, [], ◌∷◌, ◌++◌, any, Option, none, some, Text, ◌≡◌, refl, ◌∙◌,
  inl, inr, if◌then◌else◌,
}
use icloud_linux.Fs.{Reader, person, preview, indexer}
use icloud_linux.Reader.{
  classify_name, Proc, is_indexer, strictest, kinds_of, classify_names, ancestor_depth,
  ancestor_names, reader,
}

abbrev is_preview : Reader → Bool
is_preview person = false
is_preview preview = true
is_preview indexer = false

abbrev is_kind : (Reader → Bool) → Option Reader → Bool
is_kind test none = false
is_kind test (some kind) = test kind

-- The kind of a program with the names, told by each of them.
abbrev pub kind_by_names : List Text → Reader
kind_by_names names =
    if any (λ name. is_kind is_indexer (classify_name name)) names
    then indexer
    else if any (λ name. is_kind is_preview (classify_name name)) names
    then preview
    else person

abbrev Kinds : Option Reader → Type 0
Kinds o = (o ≡ none) ⊎ ((o ≡ some preview) ⊎ (o ≡ some indexer))

pick-Kinds : (a b : Bool) → Kinds (if a then some preview else if b then some indexer else none)
pick-Kinds true b = inr (inl refl)
pick-Kinds false true = inr (inr refl)
pick-Kinds false false = inl refl

classify_name-Kinds : (name : Text) → Kinds (classify_name name)
unfolding classify_name
classify_name-Kinds name = pick-Kinds _ _

same_either :
    (a b : Bool)
    → (if a then indexer else if b then preview else preview) ≡ (if a then indexer else preview)
same_either true b = refl
same_either false true = refl
same_either false false = refl

strictest-kinds_of :
    (names : List Text) (found : Reader)
    → strictest found (kinds_of names) ≡ (
        if any (λ name. is_kind is_indexer (classify_name name)) names
        then indexer
        else if any (λ name. is_kind is_preview (classify_name name)) names
        then preview
        else found)
unfolding strictest
strictest-kinds_of [] found = refl
strictest-kinds_of (name ∷ names) found = elim (classify_name-Kinds name) [
  | inl unknown ↦ rw unknown (strictest-kinds_of names found)
  | inr (inl thumbnails) ↦ rw thumbnails (
      strictest-kinds_of names preview
      ∙ same_either (any (λ name. is_kind is_indexer (classify_name name)) names)
          (any (λ name. is_kind is_preview (classify_name name)) names))
  | inr (inr index) ↦ rw index refl
]

-- The reader behind a process is an indexer if one of its names or of those of its nearest ancestors is
-- one of an indexer, else a thumbnailer if one is that of a thumbnailer, else a person.
pub reader-kind_by_names :
    (proc : Proc) (pid : ℕ)
    → reader proc pid ≡ kind_by_names (proc.names_of pid ++ ancestor_names proc ancestor_depth pid)
unfolding reader classify_names
reader-kind_by_names proc pid = strictest-kinds_of _ person
