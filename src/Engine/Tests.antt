-- ===== src/Engine/Tests.antt =====
-- Small runs of the shared state of the engine, and the theorems at them.
use icloud_linux.Prelude.{
  ◌≤◌, ◌≡◌, refl, not, ◌&&◌, Bool, false, [], ◌∷◌, arith, is_empty, none, some, Text, ◌==◌, nat_eq,
  text_eq, if◌then◌else◌,
}
use icloud_linux.Path.{IcPath}
use icloud_linux.Path.Samples.{docs, note}
use icloud_linux.Policy.{unrestricted, allows}
use icloud_linux.Engine.Locks
use icloud_linux.Engine.Locks.{
  Locks, holders, holds, release, try_acquire, acquired, holders_at_most_one,
}
use icloud_linux.Engine.Queue.{DelayQueue, empty_queue, push, turn}
use icloud_linux.Engine.Queue.Order.{IsFair, turn-IsFair}
use icloud_linux.Engine.Warmup.{Warmup, claim}
use icloud_linux.Engine.Warmup.Once
use icloud_linux.Engine.Warmup.Once.{
  Running, begin, in_hand, occurs, waiting, claims, scheduled_once,
}

abbrev one_guard : Locks IcPath
one_guard = record { held = docs ∷ []; guards = (7, docs) ∷ [] }

holders_at_most_one_example :
    (holders docs one_guard.guards ≤ 1)
    × (try_acquire docs one_guard.held
        ≡ (if holders docs one_guard.guards == 1 then none else some (docs ∷ one_guard.held)))
    × ((is_empty one_guard.guards && not (is_empty one_guard.held)) ≡ false)
unfolding try_acquire holds
holders_at_most_one_example =
    holders_at_most_one one_guard docs (
      Locks.next Locks.start (acquired (record { held = []; guards = [] }) 7 docs (docs ∷ []) refl))

no_order : Text → Text → Bool
no_order a b = false

abbrev two_items : DelayQueue Text
two_items = push 10 (push 10 empty_queue docs 60) note 5

turn-IsFair_example : IsFair no_order 20 two_items (turn no_order 20 two_items)
unfolding push
turn-IsFair_example = turn-IsFair no_order 20 two_items (omega arith)

abbrev once_failed : Warmup
once_failed = record begin { scheduled = note ∷ []; attempts = (note, 1) ∷ [] }

abbrev one_claimed : Running
one_claimed = record {
  shared = record begin { scheduled = note ∷ [] };
  claimed = note ∷ [];
  running = [];
}

scheduled_once_example :
    (in_hand note one_claimed ≡ (if holds note one_claimed.shared.scheduled then 1 else 0))
    × (occurs note one_claimed.running ≤ 1)
    × ((holds note one_claimed.shared.scheduled && not (allows unrestricted note)) ≡ false)
unfolding claim allows holds
scheduled_once_example = scheduled_once unrestricted no_order one_claimed note (
    Once.next Once.start (
      claims (record { shared = begin; claimed = []; running = [] }) note
        (record begin { scheduled = note ∷ [] }) refl))
