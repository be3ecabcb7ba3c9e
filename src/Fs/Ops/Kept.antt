-- ===== src/Fs/Ops/Kept.antt =====
-- The row at a path that an operation is not about stays, whether the operation succeeds or fails.
use mathlib.Core.Path.{subst}
use icloud_linux.Prelude.{
  ℕ, Bool, true, false, List, ◌≡◌, refl, sym, ap, ◌∙◌, inl, inr, arith, Option, none, some, Text,
  codes, ◌==◌, Bool-cases, nat_eq, text_eq, if◌then◌else◌,
}
use icloud_linux.Prelude.Int.{ℤ}
use icloud_linux.Prelude.Exec.{refuse}
use icloud_linux.Prelude.Exec.Runs.{Keeps}
use icloud_linux.Path.{IcPath, is_within}
use icloud_linux.Path.Order.{within_refl}
use icloud_linux.Path.Bounds.{in_subtree, in_subtree-is_within}
use icloud_linux.Path.Components.{IsNormal}
use icloud_linux.Errno.{Errno}
use icloud_linux.Drive.{is_directory}
use icloud_linux.State.Rows.{Entry, Row, local, to_row}
use icloud_linux.State.{Database, at_path}
use icloud_linux.State.Lookup.{row_at}
use icloud_linux.State.Subtree.{AreNormal}
use icloud_linux.State.Writes.{
  upsert_entry, mark_dirty, mark_tombstone, remove_entry, remove_subtree,
}
use icloud_linux.State.Queue.{queue_op}
use icloud_linux.State.Elsewhere.{
  IsUntouched, at_path_away, upsert_row-IsUntouched, update_where-IsUntouched,
  delete_where-IsUntouched,
}
use icloud_linux.Fs.World.{World, Host, guard, live}
use icloud_linux.Fs.Ops.{is_remote}

-- The row at `q` is `v`, and each row has a normal path.
pub record IsKept (q : IcPath) (v : Option Row) (w : World) : Type 0 where
  pub same : row_at q w.fs.state.entries ≡ v
  pub normal : AreNormal w.fs.state.entries

pub entries-queue_op :
    (db : Database) (now : ℤ) (op : Text) (p : IcPath) (target : Option IcPath)
    → (queue_op db now op p target).entries ≡ db.entries
unfolding queue_op
entries-queue_op db now op p target = ground arith

module _ (q : IcPath) where
  pub queue_op-IsUntouched :
      (rows : List Row) (db : Database) (now : ℤ) (op : Text) (p : IcPath) (target : Option IcPath)
      → IsUntouched q rows db.entries
      → IsUntouched q rows (queue_op db now op p target).entries
  queue_op-IsUntouched rows db now op p target h =
      subst (IsUntouched q rows) (sym (entries-queue_op db now op p target)) h

  module _ (p : IcPath) (np : IsNormal p) (nq : IsNormal q) (out : is_within q p ≡ false) where
    pub away : (p == q) ≡ false
    away = elim (text_eq.dec p q) [
      | yes same ↦ absurd (cc (within_refl p, same, out))
      | no other ↦ ground arith
    ]

    pub upsert_entry-IsUntouched :
        (db : Database) (e : Entry)
        → e.path ≡ p
        → IsUntouched q db.entries (upsert_entry db e).entries
    unfolding upsert_entry to_row
    upsert_entry-IsUntouched db e at =
        upsert_row-IsUntouched q (to_row e) db.entries (subst IsNormal (sym at) np)
          (ap (λ x. x == q) at ∙ away)

    pub mark_dirty-IsUntouched :
        (db : Database) (size : Option ℕ) (mtime : Option ℤ) (hydrated : Option Bool)
        (content : Bool)
        → IsUntouched q db.entries (mark_dirty db p size mtime hydrated content).entries
    unfolding mark_dirty
    mark_dirty-IsUntouched db size mtime hydrated content =
        update_where-IsUntouched q (at_path p) (λ r. at_path_away p q r away) _ db.entries
          (λ r. refl)

    mark_tombstone-IsUntouched :
        (db : Database) → IsUntouched q db.entries (mark_tombstone db p).entries
    unfolding mark_tombstone
    mark_tombstone-IsUntouched db =
        update_where-IsUntouched q (at_path p) (λ r. at_path_away p q r away) _ db.entries
          (λ r. refl)

    remove_entry-IsUntouched :
        (db : Database) → IsUntouched q db.entries (remove_entry db p).entries
    unfolding remove_entry
    remove_entry-IsUntouched db =
        delete_where-IsUntouched q (at_path p) (λ r. at_path_away p q r away) db.entries

    not_in_subtree : (r : Row) → in_subtree p r.path ≡ true → (r.path == q) ≡ false
    not_in_subtree r h = elim (text_eq.dec r.path q) [
      | yes same ↦ absurd (cc (in_subtree-is_within p q nq, same, h, out))
      | no other ↦ ground arith
    ]

    remove_subtree-IsUntouched :
        (db : Database) → IsUntouched q db.entries (remove_subtree db p).entries
    unfolding remove_subtree
    remove_subtree-IsUntouched db =
        delete_where-IsUntouched q (λ r. in_subtree p r.path) not_in_subtree db.entries

    pub forget-IsUntouched :
        (host : Host) (e : Entry) (db : Database)
        → IsUntouched q db.entries
            (if is_remote e
              then queue_op (mark_tombstone db p) host.now (codes "delete") p none
              else if is_directory e.kind
              then remove_subtree db p
              else remove_entry db p).entries
    forget-IsUntouched host e db = elim (Bool-cases (is_remote e)) [
      | inl remote ↦ rw remote (
          queue_op-IsUntouched db.entries (mark_tombstone db p) host.now (codes "delete") p none
            (mark_tombstone-IsUntouched db))
      | inr local ↦ elim (Bool-cases (is_directory e.kind)) [
        | inl dir ↦ rw (local, dir) (remove_subtree-IsUntouched db)
        | inr plain ↦ rw (local, plain) (remove_entry-IsUntouched db)
      ]
    ]

module _ {P : World → Type 0} where
  pub Keeps-refuse : (o : Option Errno) → Keeps P (refuse {S = World} o)
  unfolding refuse
  Keeps-refuse none = record { at = λ s h. h }
  Keeps-refuse (some e) = record { at = λ s h. h }

  pub Keeps-guard : (f : World → Option Errno) → Keeps P (guard f)
  unfolding guard
  Keeps-guard f = record { at = λ s h. (Keeps-refuse (f s)).at s h }

  pub Keeps-live : (p : IcPath) → Keeps P (live p)
  unfolding live
  Keeps-live p = record { at = λ s h. h }
