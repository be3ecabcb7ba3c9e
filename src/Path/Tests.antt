-- ===== src/Path/Tests.antt =====
-- Runs of the unit tests of path.rs, and the theorems at concrete paths.
use icloud_linux.Prelude.{◌≡◌, is_prefix, refl, true, false, none, some, codes, nat_eq, text_eq}
use icloud_linux.Path.Str.{split, join_with, rfind, strip_prefix, trim_start}
use icloud_linux.Path.{
  new, parent, join, is_valid_name, is_within, relative_to, rebase, subtree_bounds,
}
use icloud_linux.Path.Components.{components, IsNormal}
use icloud_linux.Path.Within.{is_within-components}
use icloud_linux.Path.Rebase.{rebase-rebase}
use icloud_linux.Path.Bounds.{in_subtree, in_subtree-is_within}
use icloud_linux.Path.Samples.{docs, note, old, txt, docs-IsNormal, note-IsNormal, old-IsNormal}

dot_dot_stays : new (codes "/../../etc/passwd") ≡ codes "/etc/passwd"
unfolding new split join_with nat_eq text_eq
dot_dot_stays = refl

parents : parent (codes "/a/b") ≡ codes "/a"
unfolding parent rfind nat_eq
parents = refl

bad_name : join (codes "/docs") (codes "a/b") ≡ none
unfolding join is_valid_name text_eq
bad_name = refl

siblings : is_within (codes "/ab") (codes "/a") ≡ false
unfolding is_within strip_prefix text_eq
siblings = refl

moved : rebase (codes "/a/b/c") (codes "/a") (codes "/z") ≡ some (codes "/z/b/c")
unfolding rebase relative_to is_within strip_prefix trim_start text_eq
moved = refl

bounds : subtree_bounds (codes "/my_docs") ≡ (codes "/my_docs/", codes "/my_docs0")
unfolding subtree_bounds text_eq
bounds = refl

join-docs : join docs txt ≡ some note
unfolding join is_valid_name text_eq nat_eq
join-docs = refl

is_within-components_example : is_within note docs ≡ is_prefix (components docs) (components note)
is_within-components_example = is_within-components note docs note-IsNormal docs-IsNormal

rebased_note : rebase note docs old ≡ some (codes "/old/a.txt")
unfolding rebase relative_to is_within strip_prefix trim_start text_eq nat_eq
rebased_note = refl

rebase-rebase_example :
    IsNormal (codes "/old/a.txt")
    × (is_within note docs ≡ true)
    × (is_within (codes "/old/a.txt") old ≡ true)
    × (rebase (codes "/old/a.txt") old docs ≡ some note)
rebase-rebase_example =
    rebase-rebase note docs old note-IsNormal docs-IsNormal old-IsNormal rebased_note

in_subtree-is_within_example : in_subtree docs note ≡ is_within note docs
in_subtree-is_within_example = in_subtree-is_within docs note note-IsNormal
