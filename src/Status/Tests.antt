-- ===== src/Status/Tests.antt =====
-- Small texts, and the theorems at them.
use icloud_linux.Prelude.{◌≡◌, refl, List, [], ◌∷◌, ◌++◌, Text, codes, nat_eq, text_eq}
use icloud_linux.Path.Str.{strip_prefix}
use icloud_linux.Status.{written, lines, relabel_lines, relabel, escape_uri_path}

-- `/a b`
abbrev spaced : Text
spaced = codes "/a b"

spaced_escaped : escape_uri_path spaced ≡ codes "/a%20b"
unfolding escape_uri_path nat_eq
spaced_escaped = refl

abbrev bookmark : Text
bookmark = codes "file:///m"

-- Another bookmark, ours with an old label, one that only starts like ours, and ours again.
abbrev four_lines : List Text
four_lines =
    codes "file:///x" ∷ codes "file:///m iCloud (old)" ∷ codes "file:///m2" ∷ codes "file:///m" ∷ []

relabelled :
    relabel (codes "file:///x" ++ (10 ∷ codes "file:///m old")) bookmark (codes " (up)")
    ≡ codes "file:///x" ++ (10 ∷ codes "file:///m iCloud (up)") ++ (10 ∷ [])
unfolding relabel relabel_lines lines written strip_prefix nat_eq text_eq
relabelled = refl
