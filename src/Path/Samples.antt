-- ===== src/Path/Samples.antt =====
-- Concrete paths for the tests and witnesses of the other modules.
use icloud_linux.Prelude.{Text, codes, refl, nat_eq, text_eq}
use icloud_linux.Path.Str.{split, join_with}
use icloud_linux.Path.Defs.{IcPath, new, is_valid_name}
use icloud_linux.Path.Components.{IsComponent, IsNormal, new-IsNormal}
use icloud_linux.Path.Moves.{is_valid_name-IsComponent}

abbrev pub docs : IcPath
docs = codes "/docs"

abbrev pub note : IcPath
note = codes "/docs/a.txt"

abbrev pub old : IcPath
old = codes "/old"

abbrev pub txt : Text
txt = codes "a.txt"

pub docs-IsNormal : IsNormal docs
unfolding new split join_with nat_eq text_eq
docs-IsNormal = new-IsNormal (codes "/docs")

pub note-IsNormal : IsNormal note
unfolding new split join_with nat_eq text_eq
note-IsNormal = new-IsNormal (codes "/docs/a.txt")

pub old-IsNormal : IsNormal old
unfolding new split join_with nat_eq text_eq
old-IsNormal = new-IsNormal (codes "/old")

pub txt-IsComponent : IsComponent txt
unfolding is_valid_name nat_eq text_eq
txt-IsComponent = is_valid_name-IsComponent txt refl
