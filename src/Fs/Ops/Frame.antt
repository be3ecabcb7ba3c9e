-- ===== src/Fs/Ops/Frame.antt =====
-- Each operation keeps the row at a path that is not in its own, whatever comes of it.
use icloud_linux.State.Trees.{bury_tombstone}
use icloud_linux.State.Writes.{upsert_entry}
use icloud_linux.Prelude.{
  ℕ, Bool, true, false, ◌&&◌, List, ◌≡◌, refl, ◌∙◌, inl, inr, Option, none, some, Text, codes, ◌==◌,
  Bool-cases, nat_eq, text_eq, arith,
}
use icloud_linux.Prelude.Int.{ℤ}
use icloud_linux.Prelude.Exec.{Exec, raise}
use icloud_linux.Prelude.Exec.Runs.{Keeps-ok, Keeps-need, Keeps, Keeps-bind}
use icloud_linux.Path.{IcPath, is_within, parent}
use icloud_linux.Path.Components.{IsNormal, IsSlashless}
use icloud_linux.Errno.{Errno, noent}
use icloud_linux.Drive.{NodeKind, file, folder, is_directory}
use icloud_linux.State.Rows.{Entry, Row, local}
use icloud_linux.State.{Database}
use icloud_linux.State.Subtree.{AreNormal}
use icloud_linux.State.Graves.{has_nul}
use icloud_linux.State.Elsewhere.{IsUntouched}
use icloud_linux.State.Outside.{bury_tombstone-IsUntouched}
use icloud_linux.Mirror.Files.{Disk, DiskNode}
use icloud_linux.Fs.{Opened, refused, granted, downloads, person, Reader, ensure_content}
use icloud_linux.Fs.World.{
  with_state, or_io, downloaded, settled, World, Host, on_disk, on_state, try_state, list_if_lazy,
  fetch_content,
}
use icloud_linux.Mirror
use icloud_linux.Fs.Ops
use icloud_linux.Fs.Ops.Kept.{
  away, IsKept, Keeps-refuse, Keeps-guard, Keeps-live, forget-IsUntouched, mark_dirty-IsUntouched,
  upsert_entry-IsUntouched, queue_op-IsUntouched,
}

-- No folder is listed on demand, and a download leaves the row at another path.
pub record KeepsRow (host : Host) (q : IcPath) (v : Option Row) : Type 0 where
  pub eager : host.lazy ≡ false
  pub fetching :
      (p : IcPath) (w : World) → (p == q) ≡ false → IsKept q v w → IsKept q v (host.hydrate p w).1

module _ (q : IcPath) (v : Option Row) where
  pub Keeps-on_disk : {A : Type 0} (m : Exec Disk Errno A) → Keeps (IsKept q v) (on_disk m)
  unfolding on_disk
  Keeps-on_disk m = record { at = λ w k. record { same = k.same; normal = k.normal } }

  IsKept-next :
      (w : World) (db : Database)
      → IsKept q v w
      → IsUntouched q w.fs.state.entries db.entries
      → IsKept q v (with_state db w)
  IsKept-next w db k u = record { same = u.same ∙ k.same; normal = u.normal k.normal }

  pub Keeps-on_state :
      (f : Database → Database)
      → ((db : Database) → IsUntouched q db.entries (f db).entries)
      → Keeps (IsKept q v) (on_state f)
  unfolding on_state
  Keeps-on_state f u = record { at = λ w k. IsKept-next w (f w.fs.state) k (u w.fs.state) }

  or_io-IsKept :
      (w : World) (o : Option Database)
      → IsKept q v w
      → ((db : Database)
          → AreNormal w.fs.state.entries
          → o ≡ some db
          → IsUntouched q w.fs.state.entries db.entries)
      → IsKept q v (or_io w o).1
  or_io-IsKept w none k u = k
  or_io-IsKept w (some db) k u = IsKept-next w db k (u db k.normal refl)

  pub Keeps-try_state :
      (f : Database → Option Database)
      → ((db db' : Database)
          → AreNormal db.entries
          → f db ≡ some db'
          → IsUntouched q db.entries db'.entries)
      → Keeps (IsKept q v) (try_state f)
  unfolding try_state
  Keeps-try_state f u = record {
    at = λ w k. or_io-IsKept w (f w.fs.state) k (λ db n e. u w.fs.state db n e);
  }

  module _ (host : Host) (calm : KeepsRow host q v) where
    pub Keeps-list_if_lazy : (p : IcPath) → Keeps (IsKept q v) (list_if_lazy host p)
    unfolding list_if_lazy
    Keeps-list_if_lazy p = record {
      at = λ w k. elim (Bool-cases (w.fs.signed_in && host.lazy)) [
        | inl lists ↦ absurd (ground (arith, lists, calm.eager))
        | inr not_ ↦ rw not_ k
      ];
    }

    downloaded-IsKept : (x : Bool × World) → IsKept q v x.1 → IsKept q v (downloaded x).1
    downloaded-IsKept (true, w) k = k
    downloaded-IsKept (false, w) k = k

    outcome-IsKept :
        (p : IcPath) (w : World) (o : Opened)
        → (p == q) ≡ false
        → IsKept q v w
        → IsKept q v (settled host p w o).1
    outcome-IsKept p w (refused x) away_ k = k
    outcome-IsKept p w granted away_ k = k
    outcome-IsKept p w downloads away_ k =
        downloaded-IsKept (host.hydrate p w) (calm.fetching p w away_ k)

    pub Keeps-fetch_content :
        (p : IcPath) (e : Entry) (who : Reader)
        → (p == q) ≡ false
        → Keeps (IsKept q v) (fetch_content host p e who)
    unfolding fetch_content
    Keeps-fetch_content p e who away_ = record {
      at = λ w k. outcome-IsKept p w (ensure_content w.fs p e who) away_ k;
    }

    pub Keeps-require_parent_dir : (p : IcPath) → Keeps (IsKept q v) (Ops.require_parent_dir host p)
    unfolding Ops.require_parent_dir
    Keeps-require_parent_dir p = Keeps-bind _ _ (Keeps-list_if_lazy (parent p)) λ u. Keeps-guard _

    module _ (p : IcPath) (np : IsNormal p) (nq : IsNormal q) (out : is_within q p ≡ false)
        (real : has_nul q ≡ false) (marked : (k : ℕ) → IsSlashless (host.markers k)) where
      apart : (p == q) ≡ false
      apart = away q p np nq out

      Keeps-bury : Keeps (IsKept q v) (try_state (λ db. bury_tombstone db (host.markers 0) p))
      Keeps-bury = Keeps-try_state _ (λ db db' n done.
          bury_tombstone-IsUntouched db (host.markers 0) p q (marked 0) np real apart done)

      Keeps-note_new :
          (kind : NodeKind) (op : Text) (meta : DiskNode)
          → Keeps (IsKept q v) (Ops.note_new host p kind op meta)
      Keeps-note_new kind op meta = Keeps-on_state _ (λ db.
          queue_op-IsUntouched q db.entries (upsert_entry db (local p kind meta.mtime)) host.now op
            p none
            (upsert_entry-IsUntouched q p np nq out db (local p kind meta.mtime)
              (unfold local in refl)))

      Keeps-make_file : Keeps (IsKept q v) (Ops.make_file host p)
      unfolding Ops.make_file
      Keeps-make_file = Keeps-bind _ _ (Keeps-on_disk _) λ u.
          Keeps-bind _ _ (Keeps-on_disk _)
            λ meta. Keeps-bind _ _ (Keeps-note_new file (codes "create") meta) λ u. Keeps-ok _

      pub Keeps-create : Keeps (IsKept q v) (Ops.create host p)
      unfolding Ops.create
      Keeps-create = Keeps-bind _ _ (Keeps-guard _) λ u. Keeps-bind _ _ (Keeps-guard _) λ u.
          Keeps-bind _ _ (Keeps-require_parent_dir p)
            λ u. Keeps-bind _ _ (Keeps-guard _) λ u. Keeps-bind _ _ Keeps-bury λ u. Keeps-make_file

      pub Keeps-mkdir : Keeps (IsKept q v) (Ops.mkdir host p)
      unfolding Ops.mkdir
      Keeps-mkdir = Keeps-bind _ _ (Keeps-guard _) λ u. Keeps-bind _ _ (Keeps-guard _) λ u.
          Keeps-bind _ _ (Keeps-require_parent_dir p) λ u. Keeps-bind _ _ (Keeps-guard _) λ u.
            Keeps-bind _ _ Keeps-bury λ u. Keeps-bind _ _ (Keeps-on_disk _) λ u.
              Keeps-bind _ _ (Keeps-on_disk _) λ meta. Keeps-note_new folder (codes "mkdir") meta

      Keeps-prepare : (o : Option Entry) → Keeps (IsKept q v) (Ops.prepare host p o)
      unfolding raise
      Keeps-prepare none = Keeps-ok tt
      Keeps-prepare (some e) = record {
        at = λ w k. elim (Bool-cases (is_directory e.kind)) [
          | inl dir ↦ rw dir k
          | inr plain ↦ rw plain ((Keeps-fetch_content p e person apart).at w k)
        ];
      }

      changed-IsUntouched :
          (known : Bool) (meta : DiskNode) (db : Database)
          → IsUntouched q db.entries (Ops.changed host p known meta db).entries
      changed-IsUntouched true meta db = mark_dirty-IsUntouched q p np nq out db _ _ _ _
      changed-IsUntouched false meta db =
          upsert_entry-IsUntouched q p np nq out db _ (unfold local in refl)

      Keeps-record_content_change :
          (known : Bool) → Keeps (IsKept q v) (Ops.record_content_change host p known)
      unfolding Ops.record_content_change
      Keeps-record_content_change known = Keeps-bind _ _ (Keeps-on_disk _) λ meta.
          Keeps-on_state _ (λ db.
            queue_op-IsUntouched q db.entries (Ops.changed host p known meta db) host.now
              (codes "update") p none (changed-IsUntouched known meta db))

      pub Keeps-write :
          (offset : ℕ) (new : List ℕ) → Keeps (IsKept q v) (Ops.write host p offset new)
      unfolding Ops.write
      Keeps-write offset new = Keeps-bind _ _ (Keeps-guard _) λ u.
          Keeps-bind _ _ (Keeps-live p) λ entry. Keeps-bind _ _ (Keeps-prepare entry) λ u.
            Keeps-bind _ _ (Keeps-on_disk _) λ written.
              Keeps-bind _ _ (Keeps-record_content_change (Ops.is_known entry)) λ u. Keeps-ok _

      pub Keeps-truncate : (len : ℕ) → Keeps (IsKept q v) (Ops.truncate host p len)
      unfolding Ops.truncate
      Keeps-truncate len = Keeps-bind _ _ (Keeps-guard _) λ u.
          Keeps-bind _ _ (Keeps-live p) λ entry. Keeps-bind _ _ (Keeps-prepare entry) λ u.
            Keeps-bind _ _ (Keeps-on_disk _)
              λ written. Keeps-record_content_change (Ops.is_known entry)

      Keeps-note_time :
          (mtime : ℤ) (o : Option Entry) → Keeps (IsKept q v) (Ops.note_time p mtime o)
      Keeps-note_time mtime none = Keeps-ok tt
      Keeps-note_time mtime (some e) =
          Keeps-on_state _ (λ db. mark_dirty-IsUntouched q p np nq out db _ _ _ _)

      pub Keeps-set_mtime : (mtime : ℤ) → Keeps (IsKept q v) (Ops.set_mtime p mtime)
      unfolding Ops.set_mtime
      Keeps-set_mtime mtime = Keeps-bind _ _ (Keeps-guard _) λ u.
          Keeps-bind _ _ (Keeps-guard _) λ u.
            Keeps-bind _ _ (Keeps-on_disk _)
              λ u. Keeps-bind _ _ (Keeps-live p) λ entry. Keeps-note_time mtime entry

      Keeps-forget : (e : Entry) → Keeps (IsKept q v) (Ops.forget host p e)
      unfolding Ops.forget
      Keeps-forget e = Keeps-on_state _ (forget-IsUntouched q p np nq out host e)

      Keeps-remove_if_there : Keeps (IsKept q v) (Ops.remove_if_there p)
      Keeps-remove_if_there = record {
        at = λ w k. elim (Bool-cases (Mirror.exists p w.disk)) [
          | inl there ↦ rw there ((Keeps-on_disk (Mirror.remove_file p)).at w k)
          | inr gone ↦ rw gone k
        ];
      }

      pub Keeps-unlink : Keeps (IsKept q v) (Ops.unlink host p)
      unfolding Ops.unlink
      Keeps-unlink = Keeps-bind _ _ (Keeps-guard _) λ u. Keeps-bind _ _ (Keeps-live p) λ entry.
          Keeps-bind _ _ (Keeps-need noent entry) λ e.
            Keeps-bind _ _ (Keeps-refuse _)
              λ u. Keeps-bind _ _ Keeps-remove_if_there λ u. Keeps-forget e

      pub Keeps-rmdir : Keeps (IsKept q v) (Ops.rmdir host p)
      unfolding Ops.rmdir
      Keeps-rmdir = Keeps-bind _ _ (Keeps-guard _) λ u. Keeps-bind _ _ (Keeps-refuse _) λ u.
          Keeps-bind _ _ (Keeps-list_if_lazy p) λ u. Keeps-bind _ _ (Keeps-live p) λ entry.
            Keeps-bind _ _ (Keeps-need noent entry) λ e.
              Keeps-bind _ _ (Keeps-refuse _)
                λ u. Keeps-bind _ _ (Keeps-on_disk _) λ u. Keeps-forget e
