-- ===== src/Engine/Download.antt =====
-- `ensure_local_file` of crates/icloud-core/src/engine/download.rs. The path's lock is held and no step of
-- another thread falls between the two looks at the entry.
pub mod Kept
use icloud_linux.Prelude.{
  ℕ, Bool, true, false, not, ◌&&◌, List, Option, none, some, Text, length, ◌==◌, text_eq,
  if◌then◌else◌,
}
use icloud_linux.Prelude.Exec.{Result, ok, err, Exec, pure, ◌>>=◌, ◌>>◌}
use icloud_linux.Path.{IcPath}
use icloud_linux.Policy.{allows}
use icloud_linux.Drive.{NodeKind, Node, file}
use icloud_linux.State.{Database}
use icloud_linux.State.Rows.{Entry, node}
use icloud_linux.State.Queries.{get_entry}
use icloud_linux.State.Queue.{has_pending_content_change}
use icloud_linux.State.Writes.{mark_hydrated}
use icloud_linux.Mirror.Files.{Disk, DiskNode}
use icloud_linux.Mirror
use icloud_linux.Engine.Site.{
  Site, Setting, Failure, on_cloud, on_mirror, write_state, asks, note_failure, others_act,
}

abbrev pub is_file : NodeKind → Bool
is_file file = true
is_file _ = false

abbrev pub needs_work : IcPath → Disk → Option Entry → Bool
needs_work path d none = false
needs_work path d (some e) =
    is_file e.kind && (not e.tombstone && not (e.hydrated && Mirror.exists path d))

-- Two optional texts are the same.
abbrev pub same_text : Option Text → Option Text → Bool
same_text none none = true
same_text (some a) (some b) = a == b
same_text _ _ = false

-- Is the entry that is there now still the one that was asked for?
abbrev still_it : Entry → Option Entry → Bool
still_it e none = false
still_it e (some now) =
    same_text now.remote_drivewsid e.remote_drivewsid
    && (same_text now.remote_etag e.remote_etag && not now.tombstone)

abbrev pub still_wanted : IcPath → Entry → Database → Bool
still_wanted path e db = not (has_pending_content_change db path) && still_it e (get_entry db path)

module _ {R : Type 0} where
  abbrev pub note_local : Setting R → IcPath → DiskNode → Exec (Site R) Failure (Unit {0})
  note_local set path meta = write_state (λ db.
      mark_hydrated db path (some (set.sha256 meta.bytes)) (some (length meta.bytes))
        (some meta.mtime))

  -- The file was created here and never was on iCloud.
  unfoldable pub adopt_local : Setting R → IcPath → Exec (Site R) Failure (Unit {0})
  adopt_local set path = do
    on_mirror (Mirror.create_file set.now path)
    meta ← on_mirror (Mirror.stat path)
    note_local set path meta

  unfoldable pub keep_download :
      Setting R → IcPath → Entry → List ℕ → Exec (Site R) Failure (Unit {0})
  keep_download set path e bytes = do
    on_mirror (Mirror.commit set.now bytes (Mirror.clock_time e.mtime) path)
    meta ← on_mirror (Mirror.stat path)
    note_local set path meta

  abbrev pub keep_if : Setting R → IcPath → Entry → List ℕ → Bool → Exec (Site R) Failure (Unit {0})
  keep_if set path e bytes false = pure tt
  keep_if set path e bytes true = keep_download set path e bytes

  abbrev pub noting : {A : Type 0} → Result Failure A × Site R → Result Failure A × Site R
  noting (ok a, s) = (ok a, s)
  noting (err f, s) = (err f, note_failure f s)

  -- `map_err(|err| { self.note_failure(&err); err })`
  unfoldable pub and_note : {A : Type 0} → Exec (Site R) Failure A → Exec (Site R) Failure A
  and_note m s = noting (m s)

  unfoldable pub fetch : Setting R → IcPath → Entry → Node → Exec (Site R) Failure (Unit {0})
  fetch set path e n = do
    bytes ← and_note (on_cloud (set.cloud.download n))
    others_act set
    wanted ← asks (still_wanted path e)
    keep_if set path e bytes wanted

  abbrev pub fetch_or_adopt :
      Setting R → IcPath → Entry → Option Node → Exec (Site R) Failure (Unit {0})
  fetch_or_adopt set path e none = adopt_local set path
  fetch_or_adopt set path e (some n) = fetch set path e n

  abbrev pub ensure_entry : Setting R → IcPath → Option Entry → Exec (Site R) Failure (Unit {0})
  ensure_entry set path none = pure tt
  ensure_entry set path (some e) = fetch_or_adopt set path e (node e)

  unfoldable pub ensure_local_file : Setting R → IcPath → Exec (Site R) Failure (Unit {0})
  ensure_local_file set path s =
      let entry = get_entry s.state path in
      if not (allows set.policy path)
      then (ok tt, s)
      else if not (needs_work path s.disk entry)
      then (ok tt, s)
      else ensure_entry set path entry s
