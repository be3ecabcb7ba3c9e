-- ===== src/Engine/Remote/Tests.antt =====
-- A sweep at an example.
use icloud_linux.Prelude.{
  ℕ, zero, suc, ◌≤◌, ◌++◌, Text, true, refl, arith, ◌≡◌, false, [], none, some, codes, nat_eq,
  text_eq,
}
use icloud_linux.Prelude.Int.{pos}
use icloud_linux.Path.Samples.{txt, note, docs, note-IsNormal}
use icloud_linux.Drive.{file}
use icloud_linux.State.{empty}
use icloud_linux.State.Rows.{Entry, local}
use icloud_linux.State.Queries.{get_entry, list_children}
use icloud_linux.State.Writes.{upsert_entry, upsert_row}
use icloud_linux.Engine.Site.{Site}
use icloud_linux.Engine.Remote.{
  sweep_folder, candidate, conflict_name, is_unused, unique_conflict_path,
}
use icloud_linux.Engine.Remote.Names.{IsExtendable, unique_conflict_path-is_unused}
use icloud_linux.Mirror
use icloud_linux.Path
use icloud_linux.Path.{IcPath, join, parent, file_name, is_root, is_valid_name, root}
use icloud_linux.Path.Str.{rfind, rsplit_next, split}
use icloud_linux.Prelude.Decimal.{digits}
use icloud_linux.Engine.Remote.Sweep.{Drops, is_swept, sweep_folder-get_entry}

-- A file that was on iCloud and has no changes.
abbrev known_note : Entry
known_note = record (local note file (pos 5)) {
  dirty = false;
  remote_drivewsid = some (codes "FILE::1");
}

abbrev site : Site (Unit {0})
site = record {
  state = upsert_entry empty known_note;
  disk = [];
  root = none;
  auth_lost = false;
  stopped = false;
  remote = tt;
  faults = λ k. none;
}

sweep_folder-get_entry_example :
    Drops
      (get_entry site.state note)
      (is_swept [] (list_children site.state docs) note)
      note
      (sweep_folder docs [] site)
sweep_folder-get_entry_example = sweep_folder-get_entry note note-IsNormal docs [] site

abbrev stamp : Text
stamp = codes "20260101120000"

abbrev copy_of_note : ℕ → IcPath
copy_of_note k = docs ++ (codes "/" ++ conflict_name txt stamp k)

copy_joined : (k : ℕ) → k ≤ 2 → candidate stamp note k ≡ some (copy_of_note k)
unfolding join parent file_name is_root is_valid_name nat_eq text_eq rfind rsplit_next split digits
copy_joined zero h = refl
copy_joined (suc zero) h = refl
copy_joined (suc (suc zero)) h = refl
copy_joined (suc (suc (suc k))) h = absurd (omega (arith, h))

note-IsExtendable : IsExtendable 2 stamp note
note-IsExtendable = record { given = copy_of_note; joined = copy_joined }

unique_conflict_path-is_unused_example :
    (j : ℕ) × (j ≤ 2)
    × (unique_conflict_path stamp 2 note site ≡ note-IsExtendable.given j)
    × (is_unused (unique_conflict_path stamp 2 note site) site ≡ true)
unfolding upsert_entry upsert_row
unique_conflict_path-is_unused_example =
    unique_conflict_path-is_unused stamp note site 2 note-IsNormal note-IsExtendable (omega arith)

abbrev grave : ℕ → Text
grave k = codes "ab12"

abbrev first_copy : IcPath
first_copy = copy_of_note 1
