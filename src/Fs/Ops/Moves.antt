-- ===== src/Fs/Ops/Moves.antt =====
-- A rename keeps the row at a path that is in neither of its own.
use icloud_linux.Prelude.{
  ℕ, Bool, true, false, ◌||◌, ◌≡◌, inl, inr, Option, none, some, codes, ◌==◌, Bool-cases, nat_eq,
  text_eq,
}
use icloud_linux.Prelude.Exec.Runs.{Keeps-ok, Keeps-err, Keeps-need, Keeps, Keeps-bind}
use icloud_linux.Path.{IcPath, is_within, is_root}
use icloud_linux.Path.Components.{IsNormal, IsSlashless}
use icloud_linux.Errno.{noent}
use icloud_linux.State.Rows.{Entry, Row}
use icloud_linux.State.Graves.{has_nul}
use icloud_linux.State.Elsewhere.{IsUntouched-refl}
use icloud_linux.State.Trees.{rename_tree}
use icloud_linux.State.Outside.{rename_tree-IsUntouched}
use icloud_linux.Fs.World.{Host, try_state}
use icloud_linux.Fs.Ops.Renames
use icloud_linux.Fs.Ops.Kept.{IsKept, Keeps-refuse, Keeps-guard, Keeps-live, queue_op-IsUntouched}
use icloud_linux.Fs.Ops.Frame.{
  KeepsRow, Keeps-on_disk, Keeps-on_state, Keeps-try_state, Keeps-list_if_lazy,
  Keeps-require_parent_dir,
}

module _ (q : IcPath) (v : Option Row) (host : Host) (calm : KeepsRow host q v) (from to : IcPath)
    (nf : IsNormal from) (nt : IsNormal to) (nq : IsNormal q) (real : has_nul q ≡ false)
    (marked : (k : ℕ) → IsSlashless (host.markers k)) (out : is_within q from ≡ false)
    (apart : is_within q to ≡ false) where
  Keeps-may_replace : (a b : Bool) → Keeps (IsKept q v) (Renames.may_replace host to a b)
  Keeps-may_replace false true = Keeps-err _
  Keeps-may_replace true false = Keeps-err _
  Keeps-may_replace true true =
      Keeps-bind _ _ (Keeps-list_if_lazy q v host calm to)
        λ u. Keeps-bind _ _ (Keeps-on_disk q v _) λ occupied. Keeps-refuse _
  Keeps-may_replace false false = Keeps-ok tt

  Keeps-clear_destination :
      (e : Entry) (o : Option Entry) → Keeps (IsKept q v) (Renames.clear_destination host to e o)
  Keeps-clear_destination e none = Keeps-ok tt
  Keeps-clear_destination e (some f) =
      Keeps-bind _ _ (Keeps-may_replace _ _) λ u. Keeps-on_disk q v _

  Keeps-rename_tree :
      Keeps (IsKept q v) (try_state (λ db. rename_tree db host.markers from to true false))
  Keeps-rename_tree = Keeps-try_state q v _ (λ db db' n done.
      rename_tree-IsUntouched db host.markers from to q true false n marked nf nt nq real out apart
        done)

  Keeps-move_over : Keeps (IsKept q v) (Renames.move_over host from to)
  Keeps-move_over = Keeps-bind _ _ (Keeps-live from) λ entry.
      Keeps-bind _ _ (Keeps-need noent entry) λ source. Keeps-bind _ _ (Keeps-refuse _) λ u.
        Keeps-bind _ _ (Keeps-require_parent_dir q v host calm to) λ u.
          Keeps-bind _ _ (Keeps-guard _) λ u. Keeps-bind _ _ (Keeps-live to) λ existing.
            Keeps-bind _ _ (Keeps-clear_destination source existing) λ u.
              Keeps-bind _ _ (Keeps-on_disk q v _) λ u. Keeps-bind _ _ Keeps-rename_tree λ u.
                Keeps-on_state q v _ (λ db.
                  queue_op-IsUntouched q db.entries db host.now (codes "rename") from (some to)
                    (IsUntouched-refl q db.entries))

  Keeps-move_unless_same : Keeps (IsKept q v) (Renames.move_unless_same host from to)
  Keeps-move_unless_same = record {
    at = λ w k. elim (Bool-cases (from == to)) [
      | inl same ↦ rw same k
      | inr differ ↦ elim (Bool-cases (is_root from || is_root to)) [
        | inl busy_ ↦ rw (differ, busy_) k
        | inr free ↦ rw (differ, free) (Keeps-move_over.at w k)
      ]
    ];
  }

  pub Keeps-rename : Keeps (IsKept q v) (Renames.rename host from to)
  unfolding Renames.rename
  Keeps-rename =
      Keeps-bind _ _ (Keeps-guard _) λ u. Keeps-bind _ _ (Keeps-guard _) λ u. Keeps-move_unless_same
