-- ===== src/Hydrate/Tests.antt =====
-- A plan and a run, and the theorems at them.
use icloud_linux.Prelude.{
  ℕ, ◌+◌, ◌≡◌, Bool, false, [], ◌∷◌, map, arith, Option, none, some, codes, Text, leb, ◌==◌, nat_eq,
  text_eq, if◌then◌else◌,
}
use icloud_linux.Prelude.Int.{pos}
use icloud_linux.Path.{IcPath}
use icloud_linux.Path.Samples.{docs, note, old}
use icloud_linux.Policy.{SyncPolicy}
use icloud_linux.Policy
use icloud_linux.Path.Bounds.{text_lt}
use icloud_linux.Drive.{file}
use icloud_linux.State.{Database, empty}
use icloud_linux.State.Rows.{local, to_row}
use icloud_linux.State.Sql.{select_where, order_by}
use icloud_linux.State.Queries.{list_entries}
use icloud_linux.State.Writes.{upsert_entry, upsert_row}
use icloud_linux.Hydrate.{Plan, plan, eligible}
use icloud_linux.Hydrate.Plans.{
  is_pending, is_local, is_excluded, is_present, named, count_where, plan-counts,
}

abbrev two_files : Database
two_files =
    upsert_entry (upsert_entry empty (local note file (pos 5)))
      (record (local old file (pos 5)) { hydrated = false; size = 9 })

abbrev only_docs : SyncPolicy
only_docs = Policy.new (docs ∷ []) []

plan-counts_example :
    ((plan only_docs two_files).pending
      ≡ map named (select_where (is_pending only_docs) (list_entries two_files)))
    × ((plan only_docs two_files).already_local
        ≡ count_where (is_local only_docs) (list_entries two_files))
    × ((plan only_docs two_files).excluded
        ≡ count_where (is_excluded only_docs) (list_entries two_files))
    × (eligible (plan only_docs two_files) + (plan only_docs two_files).excluded
        ≡ count_where is_present (list_entries two_files))
unfolding list_entries upsert_entry text_eq nat_eq order_by upsert_row to_row local text_lt
plan-counts_example = plan-counts only_docs two_files (omega arith)

touch_note : IcPath → Option Text
touch_note p = if p == note then none else some (codes "no such file")

stop_at_two : ℕ → Bool
stop_at_two i = leb 2 i

abbrev three_files : Plan
three_files = record {
  pending = (note, 1) ∷ (old, 2) ∷ (docs, 3) ∷ [];
  already_local = 0;
  excluded = 0;
}
