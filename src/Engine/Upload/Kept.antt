-- ===== src/Engine/Upload/Kept.antt =====
-- Steps of an upload that leave an entry dirty.
use icloud_linux.Engine.Upload.{mark_clean, mark_synced_subtree}
use icloud_linux.Prelude.{
  Bool, true, false, Option, none, some, Text, ◌≡◌, ◌∙◌, inl, inr, Bool-cases, ◌==◌, nat_eq,
  text_eq,
}
use icloud_linux.Prelude.Exec.{Result, Exec}
use icloud_linux.Prelude.Exec.Runs.{Keeps, Keeps-bind, Keeps-ok, Keeps-need, KeepsIfErr, is_err}
use icloud_linux.Path.{IcPath, is_root}
use icloud_linux.Drive.{Node}
use icloud_linux.Errno.{Errno}
use icloud_linux.State.{Database}
use icloud_linux.State.Rows.{Entry}
use icloud_linux.State.Dirty.{is_dirty_at, is_dirty_at-mark_clean, is_dirty_at-mark_synced_subtree}
use icloud_linux.Mirror.Files.{Disk}
use icloud_linux.Engine.Site.Kept
use icloud_linux.Engine.Site.{
  Site, Setting, on_cloud, on_mirror, write_state, written, asks, others_act,
}
use icloud_linux.Engine.Upload

-- The entry at the path is there and dirty.
abbrev pub IsDirty : IcPath → Database → Type 0
IsDirty p db = is_dirty_at p db ≡ true

abbrev pub Dirty : {R : Type 0} → IcPath → Site R → Type 0
Dirty p s = is_dirty_at p s.state ≡ true

module _ {R : Type 0} (set : Setting R) (p : IcPath) where
  module _ {A : Type 0} where
    pub Keeps-on_cloud : (m : R → Result Bool A × R) → Keeps (Dirty p) (on_cloud m)
    Keeps-on_cloud m = Kept.Keeps-on_cloud (IsDirty p) m

    pub Keeps-on_mirror : (m : Exec Disk Errno A) → Keeps (Dirty {R = R} p) (on_mirror m)
    Keeps-on_mirror m = Kept.Keeps-on_mirror (IsDirty p) m

    pub Keeps-asks : (f : Database → A) → Keeps (Dirty {R = R} p) (asks f)
    Keeps-asks f = Kept.Keeps-asks (IsDirty p) f

  pub Keeps-write_state :
      (f : Database → Database)
      → ((db : Database) → is_dirty_at p (f db) ≡ is_dirty_at p db)
      → Keeps (Dirty {R = R} p) (write_state f)
  Keeps-write_state f same = Kept.Keeps-write_state (IsDirty p) f (λ db h. same db ∙ h)

  failed-Dirty :
      (f : Database → Database) (s : Site R) (o : Option (Errno × Disk))
      → Dirty p s
      → is_err (written f s o).0 ≡ true
      → Dirty p (written f s o).1
  failed-Dirty f s none h e = absurd (cc (e))
  failed-Dirty f s (some x) h e = h

  -- A write of the database that fails changes nothing.
  pub KeepsIfErr-write_state :
      (f : Database → Database) → KeepsIfErr (Dirty {R = R} p) (write_state f)
  unfolding write_state
  KeepsIfErr-write_state f = record { at = λ s h e. failed-Dirty f _ (s.faults 0) h e }

  module _ (calm : (s : Site R) → Dirty p s → Dirty p (set.meanwhile s)) where
    pub Keeps-others_act : Keeps (Dirty p) (others_act set)
    Keeps-others_act = Kept.Keeps-others_act (IsDirty p) set calm

    Keeps-root_or_ask : (o : Option Node) → Keeps (Dirty p) (Upload.root_or_ask set o)
    Keeps-root_or_ask (some n) = Keeps-ok n
    Keeps-root_or_ask none =
        Keeps-bind _ _ (Keeps-on_cloud set.cloud.root) λ n. record { at = λ s h. h }

    pub Keeps-root_node : Keeps (Dirty p) (Upload.root_node set)
    unfolding Upload.root_node
    Keeps-root_node = record { at = λ s h. (Keeps-root_or_ask s.root).at s h }

    Keeps-remote_node_for_path : (q : IcPath) → Keeps (Dirty p) (Upload.remote_node_for_path set q)
    unfolding Upload.remote_node_for_path
    Keeps-remote_node_for_path q = elim (Bool-cases (is_root q)) [
      | inl top ↦ rw top (Keeps-bind _ _ Keeps-root_node λ n. Keeps-ok (some n))
      | inr below ↦ rw below (Keeps-asks _)
    ]

    pub Keeps-refresh_child_meta :
        (q : IcPath) (name : Text) → Keeps (Dirty p) (Upload.refresh_child_meta set q name)
    unfolding Upload.refresh_child_meta
    Keeps-refresh_child_meta q name = Keeps-bind _ _ (Keeps-remote_node_for_path q) λ found.
        Keeps-bind _ _ (Keeps-need _ found)
          λ folder. Keeps-bind _ _ (Keeps-on_cloud _) λ nodes. Keeps-need _ _

    Keeps-move_if : (a b : IcPath) (n : Node) → Keeps (Dirty p) (Upload.move_if set a b n)
    Keeps-move_if a b n = elim (Bool-cases (a == b)) [
      | inl same ↦ rw same (Keeps-ok n)
      | inr differ ↦ rw differ (
          Keeps-bind _ _ (Keeps-remote_node_for_path b) λ found.
            Keeps-bind _ _ (Keeps-need _ found)
              λ destination. Keeps-bind _ _ (Keeps-on_cloud _) λ u. Keeps-on_cloud _)
    ]

    Keeps-rename_if : (a b : Text) (n : Node) → Keeps (Dirty p) (Upload.rename_if set a b n)
    Keeps-rename_if a b n = elim (Bool-cases (a == b)) [
      | inl same ↦ rw same (Keeps-ok tt)
      | inr differ ↦ rw differ (Keeps-on_cloud _)
    ]

    Keeps-move_from :
        (e : Entry) (o : Option IcPath) (n : Option Node)
        → Keeps (Dirty p) (Upload.move_from set e o n)
    Keeps-move_from e none n = Keeps-ok tt
    Keeps-move_from e (some synced) none = Keeps-ok tt
    Keeps-move_from e (some synced) (some n) =
        Keeps-bind _ _ (Keeps-move_if _ _ n) λ n'. Keeps-rename_if _ _ n'

    pub Keeps-sync_move_or_rename : (e : Entry) → Keeps (Dirty p) (Upload.sync_move_or_rename set e)
    unfolding Upload.sync_move_or_rename
    Keeps-sync_move_or_rename e = Keeps-move_from e _ _

    -- What is done at another path.
    module _ (q : IcPath) (other : (p == q) ≡ false) where
      Keeps-mark_clean :
          (remote : Option Node) (sha : Option Text)
          → Keeps (Dirty {R = R} p) (write_state (λ db. mark_clean db set.now q remote sha))
      Keeps-mark_clean remote sha =
          Keeps-write_state _ (λ db. is_dirty_at-mark_clean db p q other set.now remote sha)

      Keeps-mark_synced_subtree :
          Keeps (Dirty {R = R} p) (write_state (λ db. mark_synced_subtree db set.now q))
      Keeps-mark_synced_subtree =
          Keeps-write_state _ (λ db. is_dirty_at-mark_synced_subtree db p q other set.now)

    Keeps-push_directory :
        (e : Entry) (folder : Node)
        → (p == e.path) ≡ false
        → Keeps (Dirty p) (Upload.push_directory set e folder)
    unfolding Upload.push_directory
    Keeps-push_directory e folder other = elim (Bool-cases (Upload.is_known e)) [
      | inr new ↦ rw new (
          Keeps-bind _ _ (Keeps-on_cloud _) λ u.
            Keeps-bind _ _ (Keeps-refresh_child_meta _ _) λ meta. Keeps-mark_clean e.path other _ _)
      | inl known ↦ elim (Bool-cases (Upload.is_moved e)) [
        | inl moved ↦
            rw (known, moved)
              (Keeps-bind _ _ (Keeps-sync_move_or_rename e) λ u.
                Keeps-bind _ _ (Keeps-refresh_child_meta _ _) λ meta.
                  Keeps-bind _ _ (Keeps-mark_synced_subtree e.path other)
                    λ u. Keeps-mark_clean e.path other _ _)
        | inr stays ↦ rw (known, stays) (Keeps-mark_synced_subtree e.path other)
      ]
    ]

    pub Keeps-push_directory_if :
        (e : Entry) (o : Option Node)
        → (p == e.path) ≡ false
        → Keeps (Dirty p) (Upload.push_directory_if set e o)
    Keeps-push_directory_if e none other = Keeps-ok tt
    Keeps-push_directory_if e (some folder) other = Keeps-push_directory e folder other
