-- ===== src/Status.antt =====
-- crates/icloud-core/src/status.rs: the label of the mount's line in the bookmarks file of the file
-- manager. The file's text is a parameter.
pub mod Label
pub mod Escape
pub mod Log
pub mod Monitor
mod Tests
use icloud_linux.Prelude.{
  ℕ, ◌+◌, ◌/◌, ◌%◌, Bool, true, false, not, ◌&&◌, ◌||◌, List, [], ◌∷◌, ◌++◌, any, Option, none,
  some, Text, codes, ltb, leb, ◌==◌, nat_eq, text_eq, if◌then◌else◌,
}
use icloud_linux.Path.Str.{strip_prefix, starts_with, push_front}

abbrev pub newline : ℕ
newline = 10

-- `b.is_ascii_alphanumeric() || matches!(b, ..)`
abbrev pub is_plain : ℕ → Bool
is_plain b =
    (leb 48 b && leb b 57)
    || (leb 65 b && leb b 90)
    || (leb 97 b && leb b 122)
    || any (λ c. c == b) (codes "-._~/")

-- `{:X}` of a number below 16.
abbrev pub hex : ℕ → ℕ
hex n = if ltb n 10 then 48 + n else 55 + n

unfoldable pub escape_uri_path : Text → Text
escape_uri_path [] = []
escape_uri_path (b ∷ path) =
    let rest = escape_uri_path path in
    if is_plain b then b ∷ rest else 37 ∷ hex (b / 16) ∷ hex (b % 16) ∷ rest

-- `lines`: a line feed ends a line, with the carriage return before it; a last line without one
-- counts if it is not empty, and keeps its carriage return.
unfoldable pub lines : Text → List Text
lines [] = []
lines (c ∷ s) =
    let rest = lines s in
    if c == newline
    then [] ∷ rest
    else if c == 13 && starts_with newline s
    then rest
    else push_front c rest

-- `line == uri || line.strip_prefix(uri).is_some_and(|rest| rest.starts_with(' '))`
abbrev pub is_ours : Text → Text → Bool
is_ours uri line =
    line == uri || elim (strip_prefix uri line) [ none ↦ false | some rest ↦ starts_with 32 rest ]

abbrev pub wanted : Text → Text → Text
wanted uri suffix = uri ++ (codes " iCloud" ++ suffix)

-- The lines that the loop of `relabel` and what follows it write.
unfoldable pub relabel_lines : Text → Text → Bool → List Text → List Text
relabel_lines uri suffix found [] = if found then [] else wanted uri suffix ∷ []
relabel_lines uri suffix found (line ∷ rest) =
    let after = relabel_lines uri suffix true rest in
    let same = relabel_lines uri suffix found rest in
    if is_ours uri line && not found
    then wanted uri suffix ∷ after
    else if not (is_ours uri line)
    then line ∷ same
    else same

unfoldable pub written : List Text → Text
written [] = []
written (line ∷ rest) = line ++ (newline ∷ written rest)

unfoldable pub relabel : Text → Text → Text → Text
relabel content uri suffix = written (relabel_lines uri suffix false (lines content))
