-- ===== src/Engine/Upload/Failures.antt =====
-- The steps of `sync_file` and `sync_directory` that leave an entry dirty where they fail.
use mathlib.Core.Path.{subst}
use icloud_linux.Prelude.{
  ℕ, zero, suc, ◌<◌, Bool, true, false, not, ◌&&◌, Option, none, some, ◌≡◌, refl, sym, ap, inl, inr,
  arith, Bool-cases, Option-cases, ◌==◌, ==_iff, nat_eq, text_eq, ◌∙◌,
}
use icloud_linux.Prelude.Exec.{Exec, pure, ◌>>=◌}
use icloud_linux.Prelude.Exec.Runs.{
  Keeps, Keeps-bind, Keeps-ok, Keeps-err, Keeps-ignore, KeepsIfErr, KeepsIfErr-bind,
  Keeps-KeepsIfErr, is_err,
}
use icloud_linux.Path.{IcPath, is_root, parent, depth}
use icloud_linux.Path.Components.{IsNormal}
use icloud_linux.Path.Steps.{parent-IsNormal, parent-depth}
use icloud_linux.Drive.{Node}
use icloud_linux.State.Rows.{Entry}
use icloud_linux.State.Queries.{get_entry}
use icloud_linux.State.Entries.{path-get_entry}
use icloud_linux.State.Dirty.{is_dirty_at, is_dirty_at-mark_hydrated}
use icloud_linux.Mirror.Files.{DiskNode}
use icloud_linux.Engine.Site.{Site, Setting, Failure, asks}
use icloud_linux.Engine.Download
use icloud_linux.Engine.Download.Kept
use icloud_linux.Engine.Upload
use icloud_linux.Engine.Upload.Kept.{
  IsDirty, Dirty, Keeps-on_cloud, Keeps-on_mirror, Keeps-asks, KeepsIfErr-write_state,
  Keeps-others_act, Keeps-root_node, Keeps-refresh_child_meta, Keeps-sync_move_or_rename,
  Keeps-push_directory_if,
}

-- A folder that iCloud knows under another path: the database is written twice for it.
abbrev pub takes_two_writes : Entry → Bool
takes_two_writes e = Upload.is_known e && Upload.is_moved e

module _ {R : Type 0} (set : Setting R) (p : IcPath)
    (calm : (s : Site R) → Dirty p s → Dirty p (set.meanwhile s)) where
  shallower_other : (q : IcPath) → depth q < depth p → (p == q) ≡ false
  shallower_other q h = elim (Bool-cases (p == q)) [
    | inl same ↦ absurd (omega (arith, h, ap depth ((==_iff p q).0 same)))
    | inr other ↦ other
  ]

  Keeps-fresh_node :
      (sync : Entry → Exec (Site R) Failure (Unit {0})) (dir : IcPath) (e : Entry) (b : Bool)
      → Keeps (Dirty p) (sync e)
      → Keeps (Dirty p) (Upload.fresh_node set sync dir e b)
  Keeps-fresh_node sync dir e true k = Keeps-bind _ _ k λ u. Keeps-asks set p _
  Keeps-fresh_node sync dir e false k = Keeps-ok _

  -- The folder above may be synced first.
  Keeps-ensure_remote_parent :
      (sync : Entry → Exec (Site R) Failure (Unit {0})) (q : IcPath)
      → IsNormal (parent q)
      → (is_root (parent q) ≡ false → (e : Entry) → e.path ≡ parent q → Keeps (Dirty p) (sync e))
      → Keeps (Dirty p) (Upload.ensure_remote_parent set sync q)
  unfolding Upload.ensure_remote_parent ◌>>=◌ asks
  Keeps-ensure_remote_parent sync q n k = record {
    at = λ s h. elim (Bool-cases (is_root (parent q))) [
      | inl top ↦
          rw top ((Keeps-bind _ _ (Keeps-root_node set p calm) λ n'. Keeps-ok (some n')).at s h)
      | inr below ↦ elim (Option-cases (get_entry s.state (parent q))) [
        | inl gone ↦ rw (below, gone) (unfold pure in h)
        | inr (e, found) ↦
            rw (below, found)
              ((Keeps-fresh_node sync (parent q) e e.dirty
                  (k below e (path-get_entry s.state (parent q) n found))).at
                s h)
      ]
    ];
  }

  Keeps-sync_directory :
      (k : ℕ) (e : Entry)
      → IsNormal e.path
      → depth e.path < depth p
      → Keeps (Dirty p) (Upload.sync_directory set k e)
  unfolding Upload.sync_directory
  Keeps-sync_directory zero e n h = Keeps-err _
  Keeps-sync_directory (suc k) e n h =
      Keeps-bind _ _
        (Keeps-ensure_remote_parent (Upload.sync_directory set k) e.path (parent-IsNormal e.path n)
          (λ below e' at.
            let up = parent-depth e.path n below in
            let same : depth e'.path ≡ depth (parent e.path) = ap depth at in
            Keeps-sync_directory k e' (subst IsNormal (sym at) (parent-IsNormal e.path n))
              (omega (arith, up, same, h))))
        λ folder. Keeps-push_directory_if set p calm e folder (shallower_other e.path h)

  Keeps-ensure_local_file : (q : IcPath) → Keeps (Dirty p) (Download.ensure_local_file set q)
  Keeps-ensure_local_file q =
      Download.Kept.Keeps-ensure_local_file set (IsDirty p) q calm
        (λ db sha size mtime h. is_dirty_at-mark_hydrated db p q sha size mtime ∙ h)

  KeepsIfErr-push_directory :
      (e : Entry) (folder : Node)
      → takes_two_writes e ≡ false
      → KeepsIfErr (Dirty p) (Upload.push_directory set e folder)
  unfolding Upload.push_directory
  KeepsIfErr-push_directory e folder one = elim (Bool-cases (Upload.is_known e)) [
    | inr new ↦ rw new (
        KeepsIfErr-bind _ _ (Keeps-on_cloud set p _) λ u.
          KeepsIfErr-bind _ _ (Keeps-refresh_child_meta set p calm _ _)
            λ meta. KeepsIfErr-write_state set p _)
    | inl known ↦ elim (Bool-cases (Upload.is_moved e)) [
      | inl moved ↦ absurd (ground (arith, one, known, moved))
      | inr stays ↦ rw (known, stays) (KeepsIfErr-write_state set p _)
    ]
  ]

  Keeps-require_content : (b : Bool) → Keeps (Dirty p) (Upload.require_content set b)
  Keeps-require_content true = Keeps-ok tt
  Keeps-require_content false = Keeps-err _

  Keeps-need_content : (q : IcPath) (b : Bool) → Keeps (Dirty p) (Upload.need_content set q b)
  unfolding Upload.need_content
  Keeps-need_content q false = Keeps-ok tt
  Keeps-need_content q true =
      Keeps-bind _ _ (Keeps-ensure_local_file q)
        λ u. Keeps-bind _ _ (Keeps-asks set p _) λ hydrated. Keeps-require_content hydrated

  Keeps-move_first : (e : Entry) (b : Bool) → Keeps (Dirty p) (Upload.move_first set e b)
  Keeps-move_first e false = Keeps-ok e
  Keeps-move_first e true =
      Keeps-bind _ _ (Keeps-sync_move_or_rename set p calm e) λ u. Keeps-asks set p _

  Keeps-delete_old : (o : Option Node) → Keeps (Dirty p) (Upload.delete_old set o)
  Keeps-delete_old none = Keeps-ok tt
  Keeps-delete_old (some n) = Keeps-ignore _ (Keeps-on_cloud set p _)

  KeepsIfErr-settle_upload :
      (q : IcPath) (meta : Node) (b : Bool) (after : DiskNode)
      → KeepsIfErr (Dirty p) (Upload.settle_upload set q meta b after)
  KeepsIfErr-settle_upload q meta false after = KeepsIfErr-write_state set p _
  KeepsIfErr-settle_upload q meta true after =
      KeepsIfErr-bind _ _ (Keeps-ignore _ (Keeps-on_mirror set p _))
        λ u. KeepsIfErr-write_state set p _

  KeepsIfErr-push_content :
      (q : IcPath) (folder : Node) (e : Entry) (b : Bool)
      → KeepsIfErr (Dirty p) (Upload.push_content set q folder e b)
  unfolding Upload.upload_content
  KeepsIfErr-push_content q folder e false =
      KeepsIfErr-bind _ _ (Keeps-refresh_child_meta set p calm _ _)
        λ meta. KeepsIfErr-write_state set p _
  KeepsIfErr-push_content q folder e true = KeepsIfErr-bind _ _ (Keeps-on_mirror set p _) λ before.
      KeepsIfErr-bind _ _ (Keeps-delete_old _) λ u.
        KeepsIfErr-bind _ _ (Keeps-on_mirror set p _) λ bytes.
          KeepsIfErr-bind _ _ (Keeps-on_cloud set p _) λ u.
            KeepsIfErr-bind _ _ (Keeps-others_act set p calm) λ u.
              KeepsIfErr-bind _ _ (Keeps-refresh_child_meta set p calm _ _) λ meta.
                KeepsIfErr-bind _ _ (Keeps-on_mirror set p _)
                  λ after. KeepsIfErr-settle_upload q meta _ after

  KeepsIfErr-push_if_there :
      (e : Entry) (folder : Node) (there changed : Bool)
      → KeepsIfErr (Dirty p) (Upload.push_if_there set e folder there changed)
  unfolding Upload.push_present
  KeepsIfErr-push_if_there e folder false changed = KeepsIfErr-write_state set p _
  KeepsIfErr-push_if_there e folder true changed =
      KeepsIfErr-bind _ _ (Keeps-need_content e.path changed) λ u.
        KeepsIfErr-bind _ _ (Keeps-move_first e _)
          λ e'. KeepsIfErr-push_content e.path folder e' changed

  KeepsIfErr-push_file_if :
      (e : Entry) (o : Option Node) → KeepsIfErr (Dirty p) (Upload.push_file_if set e o)
  unfolding Upload.push_file
  KeepsIfErr-push_file_if e none = Keeps-KeepsIfErr _ (Keeps-ok tt)
  KeepsIfErr-push_file_if e (some folder) = record {
    at = λ s h failed. (KeepsIfErr-push_if_there e folder _ _).at s h failed;
  }

  KeepsIfErr-push_directory_if :
      (e : Entry) (o : Option Node)
      → takes_two_writes e ≡ false
      → KeepsIfErr (Dirty p) (Upload.push_directory_if set e o)
  KeepsIfErr-push_directory_if e none one = Keeps-KeepsIfErr _ (Keeps-ok tt)
  KeepsIfErr-push_directory_if e (some folder) one = KeepsIfErr-push_directory e folder one

  Keeps-parent :
      (k : ℕ)
      → IsNormal p
      → Keeps (Dirty p) (Upload.ensure_remote_parent set (Upload.sync_directory set k) p)
  Keeps-parent k n =
      Keeps-ensure_remote_parent (Upload.sync_directory set k) p (parent-IsNormal p n)
        (λ below e' at.
          let up = parent-depth p n below in
          let same : depth e'.path ≡ depth (parent p) = ap depth at in
          Keeps-sync_directory k e' (subst IsNormal (sym at) (parent-IsNormal p n))
            (omega (arith, up, same)))

  KeepsIfErr-sync_file :
      (k : ℕ) (e : Entry)
      → e.path ≡ p
      → IsNormal p
      → KeepsIfErr (Dirty p) (Upload.sync_file set k e)
  unfolding Upload.sync_file
  KeepsIfErr-sync_file k e at n =
      KeepsIfErr-bind _ _
        (subst
          (λ q. Keeps (Dirty p) (Upload.ensure_remote_parent set (Upload.sync_directory set k) q))
          (sym at) (Keeps-parent k n))
        λ folder. KeepsIfErr-push_file_if e folder

  KeepsIfErr-sync_directory :
      (k : ℕ) (e : Entry)
      → e.path ≡ p
      → IsNormal p
      → takes_two_writes e ≡ false
      → KeepsIfErr (Dirty p) (Upload.sync_directory set k e)
  unfolding Upload.sync_directory
  KeepsIfErr-sync_directory zero e at n one = Keeps-KeepsIfErr _ (Keeps-err _)
  KeepsIfErr-sync_directory (suc k) e at n one =
      KeepsIfErr-bind _ _
        (subst
          (λ q. Keeps (Dirty p) (Upload.ensure_remote_parent set (Upload.sync_directory set k) q))
          (sym at) (Keeps-parent k n))
        λ folder. KeepsIfErr-push_directory_if e folder one

not_both : (a b : Bool) → (a ≡ true → b ≡ true) → (a && not b) ≡ false
not_both true b h = rw (h refl) refl
not_both false b h = refl

-- Where `sync_file` fails on an entry that is dirty, on iCloud, on the disk or in a write of the
-- database, there is an entry at its path afterwards and it is dirty, so the next pass finds it. The
-- same holds where `sync_directory` fails, unless the folder is one that iCloud knows under another
-- path, for which it writes to the database twice. The path is normal, and what other threads do during
-- a transfer leaves its entry dirty.
pub sync_file-is_dirty_at :
    {R : Type 0} (set : Setting R) (k : ℕ) (e : Entry) (s : Site R)
    → IsNormal e.path
    → ((t : Site R)
        → is_dirty_at e.path t.state ≡ true
        → is_dirty_at e.path (set.meanwhile t).state ≡ true)
    → is_dirty_at e.path s.state ≡ true
    → ((is_err (Upload.sync_file set k e s).0
          && not (is_dirty_at e.path (Upload.sync_file set k e s).1.state))
        ≡ false)
      × (((not (Upload.is_known e && Upload.is_moved e)
              && is_err (Upload.sync_directory set k e s).0)
            && not (is_dirty_at e.path (Upload.sync_directory set k e s).1.state))
          ≡ false)
sync_file-is_dirty_at set k e s n calm dirty = (
  not_both _ _ ((KeepsIfErr-sync_file set e.path calm k e refl n).at s dirty),
  elim (Bool-cases (takes_two_writes e)) [
    | inl two ↦ rw two refl
    | inr one ↦
        rw one
          (not_both _ _ ((KeepsIfErr-sync_directory set e.path calm k e refl n one).at s dirty))
  ],
)
