-- ===== src/Fs/Ops/Removal.antt =====
-- What is left after `unlink`.
use mathlib.Core.Option.{map as map_option}
use icloud_linux.Prelude.{
  true, false, [], ◌∷◌, ◌≡◌, refl, sym, ap, ◌∙◌, inl, inr, arith, Option, Option-cases, none, some,
  codes, get-remove, ◌==◌, ==_refl, Bool-cases, nat_eq, text_eq, if◌then◌else◌,
}
use icloud_linux.Prelude.Exec.{Result, ok, ◌>>=◌}
use icloud_linux.Prelude.Exec.Runs.{bind_ok}
use icloud_linux.Path.{IcPath}
use icloud_linux.Errno.{Errno}
use icloud_linux.Drive.{is_directory}
use icloud_linux.State.Rows.{Entry, Row, from_row}
use icloud_linux.State.{Database, at_path}
use icloud_linux.State.Lookup.{row_at, path-row_at, row_at-update_where, row_at-delete_where}
use icloud_linux.State.Queries.{get_entry}
use icloud_linux.State.Entries.{row_of-get_entry}
use icloud_linux.State.Sql.{update_where, delete_where}
use icloud_linux.State.Writes.{mark_tombstone, remove_entry}
use icloud_linux.Mirror.Files.{exists_at, lstat, unlink}
use icloud_linux.Mirror
use icloud_linux.Fs.{check_mutation, live_entry, is_remote}
use icloud_linux.Fs.World.{World, Host, guard, on_disk, on_state, live}
use icloud_linux.Fs.Ops
use icloud_linux.Fs.Ops.Creation.{on_disk_ok, get_entry-queue_op}

-- The file is no longer there.
remove_if_there-ok :
    (path : IcPath) (w : World) {u : Unit {0}} {w' : World}
    → Ops.remove_if_there path w ≡ (ok u, w')
    → (lstat path w'.disk ≡ none) × (w'.fs ≡ w.fs)
remove_if_there-ok path w {u} {w'} h = elim (Option-cases (lstat path w.disk)) [
  | inl gone ↦
      let same : w ≡ w' = unfold Mirror.exists in ground (arith, gone, h) in
      (ap (λ (x : World). lstat path x.disk) (sym same) ∙ gone, ap (λ (x : World). x.fs) (sym same))
  | inr (n, found) ↦
      let done : on_disk (Mirror.remove_file path) w ≡ (ok u, w') =
        unfold Mirror.exists in ground (arith, found, h) in
      let (cut, kept) = on_disk_ok (Mirror.remove_file path) w done in
      (
        unfold Mirror.remove_file unlink in ground (arith, found, cut, get-remove path path w.disk),
        kept,
      )
]

-- What is known to iCloud stays as a deletion to be sent.
abbrev pub after_deletion : Entry → Option Entry
after_deletion e = if is_remote e then some (record e { tombstone = true; dirty = true }) else none

get_entry-mark_tombstone :
    (db : Database) (p : IcPath) {e : Entry}
    → get_entry db p ≡ some e
    → get_entry (mark_tombstone db p) p ≡ some (record e { tombstone = true; dirty = true })
unfolding mark_tombstone
get_entry-mark_tombstone db p {e} found =
    let (r, here, reads) = row_of-get_entry db p found in
    let change = λ (x : Row). record x { tombstone = true; dirty = true } in
    let written : row_at p (update_where (at_path p) change db.entries) ≡ some (change r) =
      row_at-update_where p (at_path p) change db.entries (λ _. refl)
      ∙ rw here (ground (arith, path-row_at p db.entries r here)) in
    let row : from_row (change r) ≡ record (from_row r) { tombstone = true; dirty = true } =
      unfold from_row in refl in
    unfold get_entry in
    (ap (map_option from_row) written
      ∙ ap some (row ∙ ap (λ (x : Entry). record x { tombstone = true; dirty = true }) reads))

get_entry-remove_entry : (db : Database) (p : IcPath) → get_entry (remove_entry db p) p ≡ none
unfolding remove_entry get_entry
get_entry-remove_entry db p =
    let gone : row_at p (delete_where (at_path p) db.entries) ≡ none =
      row_at-delete_where p (λ x. x == p) db.entries ∙ ground (arith, ==_refl p) in
    ap (map_option from_row) gone

forget-ok :
    (host : Host) (path : IcPath) (e : Entry) (w : World) {u : Unit {0}} {w' : World}
    → get_entry w.fs.state path ≡ some e
    → is_directory e.kind ≡ false
    → Ops.forget host path e w ≡ (ok u, w')
    → (get_entry w'.fs.state path ≡ after_deletion e) × (w'.disk ≡ w.disk)
unfolding Ops.forget on_state
forget-ok host path e w {u} {w'} found plain h =
    let after = λ (x : World). get_entry x.fs.state path in
    let same = ap (λ (x : Result Errno (Unit {0}) × World). x.1) h in
    (
      elim (Bool-cases (is_remote e)) [
        | inl remote ↦
            sym (ap after same)
            ∙ (rw remote (
                get_entry-queue_op (mark_tombstone w.fs.state path) host.now (codes "delete") path
                  none path
                ∙ get_entry-mark_tombstone w.fs.state path found))
        | inr local ↦
            sym (ap after same) ∙ (rw (local, plain) (get_entry-remove_entry w.fs.state path))
      ],
      ap (λ (x : World). x.disk) (sym same),
    )

live-found :
    (path : IcPath) (w : World) {e f : Entry}
    → get_entry w.fs.state path ≡ some e
    → live_entry w.fs path ≡ some f
    → e ≡ f
unfolding live_entry
live-found path w found h = ground (arith, found, h)

not_live :
    (path : IcPath) (w : World) (e : Entry)
    → get_entry w.fs.state path ≡ after_deletion e
    → live_entry w.fs path ≡ none
unfolding live_entry
not_live path w e h = ground (arith, h)

-- What the guards of `unlink` let through.
unlink-live :
    (host : Host) (path : IcPath) (w : World) {w' : World}
    → Ops.unlink host path w ≡ (ok tt, w')
    → (f : Entry) × (live_entry w.fs path ≡ some f)
      × (is_directory f.kind ≡ false)
      × ((Ops.remove_if_there path >>= λ u. Ops.forget host path f) w ≡ (ok tt, w'))
unfolding Ops.unlink ◌>>=◌ guard live
unlink-live host path w h = elim (Option-cases (check_mutation w.fs (path ∷ []))) [
  | inr (e, closed) ↦ absurd (ground (arith, closed, h))
  | inl free ↦ elim (Option-cases (live_entry w.fs path)) [
    | inl gone ↦ absurd (ground (arith, free, gone, h))
    | inr (f, there) ↦ elim (Bool-cases (is_directory f.kind)) [
      | inl dir ↦ absurd (ground (arith, free, there, dir, h))
      | inr plain ↦
          let same : Ops.unlink host path w
              ≡ (Ops.remove_if_there path >>= λ u. Ops.forget host path f) w =
            rw (free, there, plain) refl in
          (f, there, plain, sym same ∙ h)
    ]
  ]
]

-- After `unlink` has succeeded there is neither a file nor a live entry at the path. If iCloud knows the
-- file, its entry is kept as a deletion to be sent; otherwise there is no entry.
pub unlink-get_entry :
    (host : Host) (path : IcPath) (w : World) {w' : World} {e : Entry}
    → get_entry w.fs.state path ≡ some e
    → Ops.unlink host path w ≡ (ok tt, w')
    → (get_entry w'.fs.state path
        ≡ (if is_remote e then some (record e { tombstone = true; dirty = true }) else none))
      × (live_entry w'.fs path ≡ none)
      × (Mirror.exists path w'.disk ≡ false)
unfolding Ops.unlink
unlink-get_entry host path w {w'} {e} found h =
    let (f, there, plain, rest) = unlink-live host path w h in
    let same : e ≡ f = live-found path w found there in
    let found' : get_entry w.fs.state path ≡ some f = found ∙ ap some same in
    let (u, w1, cut, rest') = bind_ok (Ops.remove_if_there path) _ w rest in
    let (gone, kept) = remove_if_there-ok path w cut in
    let (after, disk) =
      forget-ok host path f w1 (ap (λ x. get_entry x.state path) kept ∙ found') plain rest' in
    (
      after ∙ ap after_deletion (sym same),
      not_live path w' f after,
      unfold Mirror.exists in ap exists_at (ap (lstat path) disk ∙ gone),
    )
