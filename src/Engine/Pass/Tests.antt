-- ===== src/Engine/Pass/Tests.antt =====
-- A folder, a file in it and a deletion, and the theorem at them.
use icloud_linux.Prelude.{◌≡◌, true, not, ◌&&◌, List, [], ◌∷◌, any}
use icloud_linux.Prelude.Int.{pos}
use icloud_linux.Path.Samples.{docs, note, old, docs-IsNormal, note-IsNormal, old-IsNormal}
use icloud_linux.Drive.{file, folder}
use icloud_linux.State.Rows.{Entry, local}
use icloud_linux.Engine.Pass.{tombstones, regular}
use icloud_linux.Engine.Pass.Order.{IsInnerFirst, IsOuterFirst, sync_order}

abbrev three : List Entry
three =
    record (local note file (pos 1)) { tombstone = true }
    ∷ local docs folder (pos 2)
    ∷ local old file (pos 3)
    ∷ []

sync_order_example :
    IsInnerFirst (tombstones three)
    × IsOuterFirst (regular three)
    × (any (λ e. e.hydrated) (tombstones three) ≡ any (λ e. e.tombstone && e.hydrated) three)
    × (any (λ e. e.hydrated) (regular three) ≡ any (λ e. not e.tombstone && e.hydrated) three)
unfolding local
sync_order_example =
    sync_order three (λ e. e.hydrated) (note-IsNormal, (docs-IsNormal, (old-IsNormal, tt)))
