-- ===== src/Fs/Ops/Creation.antt =====
-- What is there after `create`.
use icloud_linux.Fs.Ops.{try_state}
use mathlib.Core.Path.{subst}
use mathlib.Core.Option.{map as map_option, some-injective}
use icloud_linux.Prelude.{
  true, false, [], ◌∷◌, ◌≡◌, refl, sym, ap, ◌∙◌, inl, inr, arith, Option, Option-cases, none, some,
  Text, codes, get-insert, ◌==◌, ==_refl, nat_eq, text_eq,
}
use icloud_linux.Prelude.Int.{ℤ}
use icloud_linux.Prelude.Exec.{ok, Exec, pure, ◌>>=◌}
use icloud_linux.Prelude.Exec.Runs.{ok_injective, bind_ok, refuse_ok}
use icloud_linux.Path.{IcPath, is_root, file_name}
use icloud_linux.Path.Components.{IsNormal}
use icloud_linux.Path.Steps.{parent-IsNormal}
use icloud_linux.Errno.{Errno}
use icloud_linux.Drive.{file}
use icloud_linux.State.Rows.{from_row, Entry, local}
use icloud_linux.State.{Database}
use icloud_linux.State.Queries.{get_entry}
use icloud_linux.State.Queue.{changes_content, queue_op, has_pending_content_change}
use icloud_linux.State.Writes.{upsert_entry}
use icloud_linux.State.Lookup.{row_at}
use icloud_linux.State.Entries.{IsStorable, get_entry-upsert_entry}
use icloud_linux.State.Pending.{has_pending_content_change-queue_op}
use icloud_linux.Mirror.Files.{file_at, open_create, Disk, DiskNode, lstat, new_file, open_create}
use icloud_linux.Mirror
use icloud_linux.Fs.{check_mutation, check_name, check_paths}
use icloud_linux.Fs.World.{World, Host, Attr, with_state, guard, on_disk, on_state, attr_from_meta}
use icloud_linux.Fs.Ops.Kept.{entries-queue_op}
use icloud_linux.Fs.Ops
use icloud_linux.Fs.Ops.Reads

guard_ok :
    (f : World → Option Errno) (w : World) {u : Unit {0}} {w' : World}
    → guard f w ≡ (ok u, w')
    → (f w ≡ none) × (w ≡ w')
unfolding guard
guard_ok f w h = refuse_ok (f w) w h

pub on_disk_ok :
    {A : Type 0} (m : Exec Disk Errno A) (w : World) {a : A} {w' : World}
    → on_disk m w ≡ (ok a, w')
    → (m w.disk ≡ (ok a, w'.disk)) × (w'.fs ≡ w.fs)
unfolding on_disk
on_disk_ok m w h = (ap (λ x. (x.0, x.1.disk)) h, ap (λ x. x.1.fs) (sym h))

open_create-ok :
    (now : ℤ) (path : IcPath) (d : Disk) {n : DiskNode} {d' : Disk}
    → open_create now path d ≡ (ok n, d')
    → (lstat path d' ≡ some n) × (n.dir ≡ false)
unfolding open_create
open_create-ok now path d h = elim (Option-cases (lstat path d)) [
  | inl gone ↦ ground (arith, gone, get-insert path path (new_file now) d)
  | inr (m, found) ↦ ground (arith, found)
]

-- A file is there after `create_file`.
create_file-ok :
    (now : ℤ) (path : IcPath) (d : Disk) {u : Unit {0}} {d' : Disk}
    → Mirror.create_file now path d ≡ (ok u, d')
    → (n : DiskNode) × (lstat path d' ≡ some n) × (n.dir ≡ false)
unfolding Mirror.create_file pure
create_file-ok now path d h =
    let (u, e, parents, h') = bind_ok (Mirror.ensure_parent now path) _ d h in
    let (n, e', opened, h'') = bind_ok (open_create now path) _ e h' in
    let (found, plain) = open_create-ok now path e opened in
    (n, ap (lstat path) (ap (λ x. x.1) (sym h'')) ∙ found, plain)

stat-ok :
    (path : IcPath) (d : Disk) {n : DiskNode} {d' : Disk}
    → Mirror.stat path d ≡ (ok n, d')
    → (lstat path d ≡ some n) × (d ≡ d')
unfolding Mirror.stat
stat-ok path d h = elim (Option-cases (lstat path d)) [
  | inl gone ↦ ground (arith, gone)
  | inr (m, found) ↦ ground (arith, found)
]

local-IsStorable : (p : IcPath) (mtime : ℤ) → IsNormal p → IsStorable (local p file mtime)
unfolding local
local-IsStorable p mtime n = record {
  at = n;
  under = parent-IsNormal p n;
  synced = tt;
  small = omega arith;
}

pub get_entry-queue_op :
    (db : Database) (now : ℤ) (op : Text) (p : IcPath) (target : Option IcPath) (q : IcPath)
    → get_entry (queue_op db now op p target) q ≡ get_entry db q
unfolding get_entry
get_entry-queue_op db now op p target q =
    ap (λ rows. map_option from_row (row_at q rows)) (entries-queue_op db now op p target)

changes_content-create : changes_content (codes "create") ≡ true
unfolding text_eq nat_eq
changes_content-create = refl

create_no_delete : (codes "create" == codes "delete") ≡ false
unfolding text_eq nat_eq
create_no_delete = refl

-- The entry that is noted, and the operation that is queued.
noted :
    (db : Database) (now : ℤ) (p : IcPath) (mtime : ℤ)
    → IsNormal p
    → let db' = queue_op (upsert_entry db (local p file mtime)) now (codes "create") p none in
      (get_entry db' p ≡ some (local p file mtime)) × (has_pending_content_change db' p ≡ true)
noted db now p mtime n =
    let db' = upsert_entry db (local p file mtime) in
    let at : (local p file mtime).path ≡ p = unfold local in refl in
    (
      get_entry-queue_op db' now (codes "create") p none p
          ∙ (get_entry-upsert_entry db (local p file mtime) p (local-IsStorable p mtime n)
              ∙ rw at (ground (arith, ==_refl p))),
      has_pending_content_change-queue_op db' now (codes "create") p none p
          ∙ ground (arith, changes_content-create, create_no_delete, ==_refl p),
    )

reads_back :
    (host : Host) (path : IcPath) (w : World) (e : Entry) (n : DiskNode)
    → is_root path ≡ false
    → Mirror.is_reserved path ≡ false
    → get_entry w.fs.state path ≡ some e
    → e.tombstone ≡ false
    → e.hydrated ≡ true
    → lstat path w.disk ≡ some n
    → Reads.getattr host path w ≡ (ok (attr_from_meta n none), w)
unfolding Reads.getattr Reads.stat_known ◌>>=◌
reads_back host path w e n below open_ known alive here found =
    ground (arith, below, open_, known, alive, here, found)

-- A new local file: its entry, its queued change, the file itself, and what `getattr` returns.
abbrev pub IsCreated : Host → IcPath → Attr → World → Type 0
IsCreated host path attr w =
    (get_entry w.fs.state path ≡ some (local path file attr.mtime))
    × (has_pending_content_change w.fs.state path ≡ true)
    × (file_at (lstat path w.disk) ≡ true)
    × (Reads.getattr host path w ≡ (ok attr, w))

note_new-IsCreated :
    (host : Host) (path : IcPath) (n : DiskNode) (w : World) {attr : Attr} {w' : World}
    → IsNormal path
    → is_root path ≡ false
    → Mirror.is_reserved path ≡ false
    → lstat path w.disk ≡ some n
    → n.dir ≡ false
    → (Ops.note_new host path file (codes "create") n >>= λ u. pure (attr_from_meta n none)) w
      ≡ (ok attr, w')
    → IsCreated host path attr w'
unfolding on_state ◌>>=◌
note_new-IsCreated host path n w {attr} {w'} np below open_ found plain h =
    let db' =
      queue_op (upsert_entry w.fs.state (local path file n.mtime)) host.now (codes "create") path
        none in
    let (entry, queued) = noted w.fs.state host.now path n.mtime np in
    let there : IsCreated host path (attr_from_meta n none) (with_state db' w) = (
      entry,
      queued,
      ground (arith, found, plain),
      reads_back host path (with_state db' w) (local path file n.mtime) n below open_ entry
          (unfold local in refl) (unfold local in refl) found,
    ) in
    let (value, state) = ok_injective (attr_from_meta n none) attr (with_state db' w) w' h in
    subst (λ a. IsCreated host path a w') value
      (subst (IsCreated host path (attr_from_meta n none)) state there)

make_file-IsCreated :
    (host : Host) (path : IcPath) (w : World) {attr : Attr} {w' : World}
    → IsNormal path
    → is_root path ≡ false
    → Mirror.is_reserved path ≡ false
    → Ops.make_file host path w ≡ (ok attr, w')
    → IsCreated host path attr w'
unfolding Ops.make_file
make_file-IsCreated host path w {attr} {w'} np below open_ h =
    let (u6, w6, made, h6) = bind_ok (on_disk (Mirror.create_file host.now path)) _ w h in
    let (n, w7, stat, h7) = bind_ok (on_disk (Mirror.stat path)) _ w6 h6 in
    let (m, found, plain) =
      create_file-ok host.now path w.disk
        (on_disk_ok (Mirror.create_file host.now path) w made).0 in
    let (again, same) = stat-ok path w6.disk (on_disk_ok (Mirror.stat path) w6 stat).0 in
    let is_file : n.dir ≡ false =
      ap (λ (x : DiskNode). x.dir) (some-injective _ _ (sym again ∙ found)) ∙ plain in
    note_new-IsCreated host path n w7 np below open_ (sym (ap (lstat path) same) ∙ again) is_file h7

name_below : (path : IcPath) → check_name path ≡ none → is_root path ≡ false
unfolding check_name file_name
name_below path h = ground (arith, h)

mutation_open :
    (w : World) (path : IcPath)
    → check_mutation w.fs (path ∷ []) ≡ none
    → Mirror.is_reserved path ≡ false
unfolding check_mutation check_paths
mutation_open w path h = ground (arith, h)

-- After `create` has succeeded, the path has the entry of a new local file, a change of its content is
-- queued, the file is there, and `getattr` returns what `create` did. The path is normal.
pub create-getattr :
    (host : Host) (path : IcPath) (w : World) {attr : Attr} {w' : World}
    → IsNormal path
    → Ops.create host path w ≡ (ok attr, w')
    → (get_entry w'.fs.state path ≡ some (local path file attr.mtime))
      × (has_pending_content_change w'.fs.state path ≡ true)
      × (file_at (lstat path w'.disk) ≡ true)
      × (Reads.getattr host path w' ≡ (ok attr, w'))
unfolding Ops.create
create-getattr host path w {attr} {w'} np h =
    let (u1, w1, may, h1) = bind_ok (Ops.may_mutate (path ∷ [])) _ w h in
    let (u2, w2, name, h2) = bind_ok (guard (λ x. check_name path)) _ w1 h1 in
    let (u3, w3, par, h3) = bind_ok (Ops.require_parent_dir host path) _ w2 h2 in
    let (u4, w4, free, h4) = bind_ok (guard _) _ w3 h3 in
    let (u5, w5, buried, h5) = bind_ok (try_state _) _ w4 h4 in
    make_file-IsCreated host path w5 np
      (name_below path (guard_ok (λ x. check_name path) w1 name).0)
      (mutation_open w path (guard_ok (λ x. check_mutation x.fs (path ∷ [])) w may).0) h5
