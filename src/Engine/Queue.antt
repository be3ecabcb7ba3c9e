-- ===== src/Engine/Queue.antt =====
-- `DelayQueue` of crates/icloud-core/src/engine/sync_util.rs. Instants and durations are numbers of
-- one unit; the clock is a parameter. `BinaryHeap` is a list with the removal of the least element.
pub mod Order
use icloud_linux.Prelude.{
  ℕ, ◌+◌, ◌-◌, ◌%◌, ◌^◌, Bool, true, false, ◌&&◌, ◌||◌, List, [], ◌∷◌, ◌++◌, length, Option, none,
  some, ltb, leb, ◌==◌, nat_eq, if◌then◌else◌,
}

-- An element of the heap, without the `Reverse`.
pub record Timed {ℓ} (T : Type ℓ) : Type ℓ where
  pub due : ℕ
  pub seq : ℕ
  pub item : T

pub record DelayQueue {ℓ} (T : Type ℓ) : Type ℓ where
  pub heap : List (Timed T)
  pub closed : Bool
  pub seq : ℕ

-- What one turn of the loop of `pop` comes to: `None` is returned, an item is, or the thread waits,
-- for a push or at most for a duration.
pub data Turn {ℓ} (T : Type ℓ) : Type ℓ where
  over : Turn T
  got : T → DelayQueue T → Turn T
  wait : Turn T
  wait_for : ℕ → Turn T

module _ {ℓ} {T : Type ℓ} (before : T → T → Bool) where
  -- The order of the tuples, with that of the items.
  abbrev pub earlier : Timed T → Timed T → Bool
  earlier a b =
      ltb a.due b.due
      || (a.due == b.due && (ltb a.seq b.seq || (a.seq == b.seq && before a.item b.item)))

  unfoldable pub pop_least : List (Timed T) → Option (Timed T × List (Timed T))
  pop_least [] = none
  pop_least (x ∷ xs) = elim (pop_least xs) [
    | none ↦ some (x, [])
    | some (y, rest) ↦ if earlier y x then some (y, x ∷ rest) else some (x, xs)
  ]

  unfoldable pub turn : ℕ → DelayQueue T → Turn T
  turn now q = if q.closed then over else elim (pop_least q.heap) [
    | none ↦ wait
    | some (first, rest) ↦
        if leb first.due now
        then got first.item (record q { heap = rest })
        else wait_for (first.due - now)
  ]

module _ {ℓ} {T : Type ℓ} where
  abbrev pub empty_queue : DelayQueue T
  empty_queue = record { heap = []; closed = false; seq = 0 }

  unfoldable pub push : ℕ → DelayQueue T → T → ℕ → DelayQueue T
  push now q item delay =
      let seq = (q.seq + 1) % 2 ^ 64 in
      record q {
        seq = seq;
        heap = q.heap ++ (record { due = now + delay; seq = seq; item = item } ∷ []);
      }

  unfoldable pub close : DelayQueue T → DelayQueue T
  close q = record q { closed = true }

  unfoldable pub queued : DelayQueue T → ℕ
  queued q = length q.heap
