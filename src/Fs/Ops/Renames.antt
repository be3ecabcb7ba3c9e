-- ===== src/Fs/Ops/Renames.antt =====
-- `rename` of crates/icloud-core/src/fs.rs.
use icloud_linux.Prelude.{
  Bool, true, false, not, ◌&&◌, ◌||◌, List, [], ◌∷◌, Option, none, some, codes, is_empty, ◌==◌,
  nat_eq, text_eq, if◌then◌else◌,
}
use icloud_linux.Prelude.Exec.{ok, err, Exec, need, refuse, pure, raise, ◌>>=◌, ◌>>◌}
use icloud_linux.Path.{IcPath, is_root, is_within, rebase}
use icloud_linux.Errno.{Errno, noent, isdir, notdir, notempty, inval, busy}
use icloud_linux.Drive.{is_directory}
use icloud_linux.State.Rows.{Entry}
use icloud_linux.State.Queries.{fetch_subtree}
use icloud_linux.State.Queue.{queue_op}
use icloud_linux.State.Trees.{rename_tree}
use icloud_linux.Mirror
use icloud_linux.Fs.{FsCore, check_mutation, check_name}
use icloud_linux.Fs.World.{World, Host, guard, on_disk, on_state, try_state, live, list_if_lazy}
use icloud_linux.Fs.Ops.{may_mutate, require_parent_dir}

abbrev move_error : FsCore → IcPath → Option IcPath → Option Errno
move_error fs item none = some inval
move_error fs item (some target) = check_mutation fs (item ∷ target ∷ [])

-- The first error of the loop over the subtree.
unfoldable pub check_moves : FsCore → IcPath → IcPath → List Entry → Option Errno
check_moves fs from to [] = none
check_moves fs from to (item ∷ items) =
    let rest = check_moves fs from to items in
    elim (move_error fs item.path (rebase item.path from to)) [ none ↦ rest | some e ↦ some e ]

abbrev pub must_be_empty : Host → IcPath → Exec World Errno (Unit {0})
must_be_empty host to = do
  list_if_lazy host to
  occupied ← on_disk (Mirror.list_dir to)
  refuse (if not (is_empty occupied) then some notempty else none)

-- An existing destination must be of the same sort, and a folder empty.
abbrev pub may_replace : Host → IcPath → Bool → Bool → Exec World Errno (Unit {0})
may_replace host to false true = raise isdir
may_replace host to true false = raise notdir
may_replace host to true true = must_be_empty host to
may_replace host to false false = pure tt

abbrev pub clear_destination : Host → IcPath → Entry → Option Entry → Exec World Errno (Unit {0})
clear_destination host to source none = pure tt
clear_destination host to source (some existing) = do
  may_replace host to (is_directory source.kind) (is_directory existing.kind)
  on_disk (Mirror.remove_tree to)

abbrev pub subtree_error : Entry → IcPath → IcPath → World → Option Errno
subtree_error source from to w =
    if is_directory source.kind
    then check_moves w.fs from to (fetch_subtree w.fs.state from)
    else none

-- All after the checks that look at the two paths only.
abbrev pub move_over : Host → IcPath → IcPath → Exec World Errno (Unit {0})
move_over host from to = do
  entry ← live from
  source ← need noent entry
  refuse (if is_directory source.kind && is_within to from then some inval else none)
  require_parent_dir host to
  guard (subtree_error source from to)
  existing ← live to
  clear_destination host to source existing
  on_disk (Mirror.rename host.now from to)
  try_state (λ db. rename_tree db host.markers from to true false)
  on_state (λ db. queue_op db host.now (codes "rename") from (some to))

abbrev pub move_unless_same : Host → IcPath → IcPath → Exec World Errno (Unit {0})
move_unless_same host from to w =
    if from == to
    then (ok tt, w)
    else if is_root from || is_root to
    then (err busy, w)
    else move_over host from to w

unfoldable pub rename : Host → IcPath → IcPath → Exec World Errno (Unit {0})
rename host from to = do
  may_mutate (from ∷ to ∷ [])
  guard (λ w. check_name to)
  move_unless_same host from to
