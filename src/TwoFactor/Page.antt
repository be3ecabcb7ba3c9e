-- ===== src/TwoFactor/Page.antt =====
-- `parse_boot_args`: the boot data in a sign-in page. `from_str` is `serde_json::from_str`.
pub mod Find
pub mod Class
pub mod Scripts
use icloud_linux.Prelude.{
  ℕ, zero, suc, Bool, true, false, not, ◌&&◌, ◌||◌, List, [], ◌∷◌, any, Option, none, some, Text,
  codes, is_empty, is_prefix, length, ◌==◌, nat_eq, text_eq, if◌then◌else◌,
}
use icloud_linux.Prelude.Exec.{Result, ok, err}
use icloud_linux.Path.Str.{strip_prefix}
use icloud_linux.Status.Log.{is_whitespace, split_once}

-- `Error::Protocol` with its two messages.
pub data PageError : Type 0 where
  malformed : PageError
  missing : PageError

abbrev pub push_before : ℕ → Option (Text × Text) → Option (Text × Text)
push_before c none = none
push_before c (some (before, from)) = some (c ∷ before, from)

-- `find` of a text: what is before its first occurrence, and the text from there on.
unfoldable pub find_text : Text → Text → Option (Text × Text)
find_text needle [] = none
find_text needle (c ∷ s) =
    let rest = find_text needle s in
    if is_prefix needle (c ∷ s) then some ([], c ∷ s) else push_before c rest

-- `trim`
abbrev trim_left : Text → Text
trim_left [] = []
trim_left (c ∷ s) = if is_whitespace c then trim_left s else c ∷ s

abbrev pub trim_right : Text → Text
trim_right [] = []
trim_right (c ∷ s) =
    let rest = trim_right s in if is_empty rest && is_whitespace c then [] else c ∷ rest

unfoldable pub trim : Text → Text
trim s = trim_right (trim_left s)

abbrev push_first : ℕ → List Text → List Text
push_first c [] = (c ∷ []) ∷ []
push_first c (w ∷ ws) = (c ∷ w) ∷ ws

-- The pieces between white space; `split_whitespace` leaves out the empty ones.
unfoldable pub split_space : Text → List Text
split_space [] = [] ∷ []
split_space (c ∷ s) =
    let rest = split_space s in if is_whitespace c then [] ∷ rest else push_first c rest

abbrev pub has_word : Text → Text → Bool
has_word wanted s = any (λ w. not (is_empty w) && w == wanted) (split_space s)

abbrev pub word_within : Text → Option (Text × Text) → Bool
word_within wanted none = false
word_within wanted (some (inside, after)) = has_word wanted inside

unfoldable pub in_quotes : Text → Text → Bool
in_quotes wanted [] = false
in_quotes wanted (quote ∷ value) =
    if quote == 34 || quote == 39 then word_within wanted (split_once quote value) else false

abbrev pub class_value : Text → Option (Text × Text) → Bool
class_value wanted none = false
class_value wanted (some (before, from)) = elim (strip_prefix (codes "class=") from) [
  | none ↦ false
  | some value ↦ in_quotes wanted value
]

unfoldable pub has_class : Text → Text → Bool
has_class tag wanted = class_value wanted (find_text (codes "class=") tag)

abbrev pub open_tag : Text
open_tag = codes "<script"

abbrev pub close_tag : Text
close_tag = codes "</script"

abbrev pub boot_args : Text
boot_args = codes "boot_args"

module _ {V : Type 0} (from_str : Text → Option V) where
  abbrev pub as_json : Option V → Result PageError V
  as_json none = err malformed
  as_json (some v) = ok v

  abbrev pub answer : Bool → Text → Result PageError V → Result PageError V
  answer wanted inside more = if wanted then as_json (from_str (trim inside)) else more

  abbrev pub in_script :
      (Text → Result PageError V) → Text → Option (Text × Text) → Result PageError V
  in_script more tag none = err missing
  in_script more tag (some (inside, from)) = answer (has_class tag boot_args) inside (more from)

  abbrev pub in_tag : (Text → Result PageError V) → Option (Text × Text) → Result PageError V
  in_tag more none = err missing
  in_tag more (some (tag, body)) = in_script more tag (find_text close_tag body)

  -- A turn of the loop, at the next script.
  abbrev pub at_script : (Text → Result PageError V) → Option (Text × Text) → Result PageError V
  at_script more none = err missing
  at_script more (some (before, tag_on)) = in_tag more (split_once 62 tag_on)

  -- `k` counts the turns.
  unfoldable pub scan : ℕ → Text → Result PageError V
  scan zero rest = err missing
  scan (suc k) rest = at_script (λ from. scan k from) (find_text open_tag rest)

  unfoldable pub parse_boot_args : Text → Result PageError V
  parse_boot_args html = scan (length html) html
