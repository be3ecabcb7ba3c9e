-- ===== src/Engine/Warmup/Once.antt =====
-- The background downloads with any number of threads. A call of `schedule_download_after` is two
-- steps, the insertion into `scheduled` with the tests before it and the push, and a worker's turn three: it takes a path off
-- the queue, takes note of the result, and removes the path from `scheduled`. Other steps may come
-- between any two of them. A retry is a call like any other.
use mathlib.Core.Path.{subst}
use mathlib.Core.Option.{some-injective}
use icloud_linux.Engine.Queue.Order.{pop_least-none}
use icloud_linux.Prelude.{
  not, ◌&&◌, ap, ◌∙◌, ◌%◌, ◌^◌, sym, Option-cases, inl, inr, ℕ, ◌+◌, ◌≤◌, ◌≡◌, refl, Bool, true,
  false, List, [], ◌∷◌, ◌++◌, arith, some, ◌==◌, nat_eq, text_eq, if◌then◌else◌,
}
use icloud_linux.Path.{IcPath}
use icloud_linux.Policy.{SyncPolicy, allows}
use icloud_linux.Engine.Locks.{holds, holds-release}
use icloud_linux.Engine.Queue.{pop_least, Timed, DelayQueue, push, turn, got, empty_queue, close}
use icloud_linux.Engine.Warmup.{
  Warmup, Fetched, shut_down, fetched, auth_failed, failed, claim, enqueue, settle, unschedule,
}

-- The state and the paths that threads have in hand: claimed and not yet pushed, or taken off the
-- queue and still scheduled.
pub record Running : Type 0 where
  pub shared : Warmup
  pub claimed : List IcPath
  pub running : List IcPath

abbrev pub begin : Warmup
begin = record {
  scheduled = [];
  downloads = empty_queue;
  attempts = [];
  completed = 0;
  auth_lost = false;
  stopped = false;
}

-- The order of paths is a parameter: items with different numbers are never compared.
pub data Step (policy : SyncPolicy) (before : IcPath → IcPath → Bool)
    : Running → Running → Type 0 where
  claims :
      (r : Running) (path : IcPath) (s : Warmup)
      → claim policy path r.shared ≡ some s
      → Step policy before r (record r { shared = s; claimed = path ∷ r.claimed })
  pushes :
      (s : Warmup) (front : List IcPath) (path : IcPath) (back running : List IcPath)
      (now delay : ℕ)
      → Step policy before
          (record { shared = s; claimed = front ++ (path ∷ back); running = running })
          (record { shared = enqueue now path delay s; claimed = front ++ back; running = running })
  takes :
      (r : Running) (now : ℕ) (path : IcPath) (q : DelayQueue IcPath)
      → turn before now r.shared.downloads ≡ got path q
      → Step policy before r (record {
        shared = record r.shared { downloads = q };
        claimed = r.claimed;
        running = path ∷ r.running;
      })
  settles :
      (r : Running) (path : IcPath) (result : Fetched)
      → Step policy before r (record r { shared = (settle path result r.shared).0 })
  finishes :
      (s : Warmup) (claimed front : List IcPath) (path : IcPath) (back : List IcPath)
      → Step policy before
          (record { shared = s; claimed = claimed; running = front ++ (path ∷ back) })
          (record { shared = unschedule path s; claimed = claimed; running = front ++ back })
  shuts_down : (r : Running) → Step policy before r (record r { shared = shut_down r.shared })

pub data Reachable (policy : SyncPolicy) (before : IcPath → IcPath → Bool) : Running → Type 0 where
  start : Reachable policy before (record { shared = begin; claimed = []; running = [] })
  next :
      {r t : Running}
      → Reachable policy before r
      → Step policy before r t
      → Reachable policy before t

-- How often a path is in a list, and in a heap.
unfoldable pub occurs : IcPath → List IcPath → ℕ
occurs path [] = 0
occurs path (p ∷ ps) = (if p == path then 1 else 0) + occurs path ps

unfoldable pub waiting : IcPath → List (Timed IcPath) → ℕ
waiting path [] = 0
waiting path (x ∷ xs) = (if x.item == path then 1 else 0) + waiting path xs

abbrev pub in_hand : IcPath → Running → ℕ
in_hand path r =
    waiting path r.shared.downloads.heap + occurs path r.claimed + occurs path r.running

-- A scheduled path is in one place, an unscheduled one nowhere.
abbrev IsValid : SyncPolicy → Running → Type 0
IsValid policy r =
    (path : IcPath)
    → (in_hand path r ≡ (if holds path r.shared.scheduled then 1 else 0))
      × (holds path r.shared.scheduled ≡ true → allows policy path ≡ true)

occurs-append :
    (path : IcPath) (xs ys : List IcPath) → occurs path (xs ++ ys) ≡ occurs path xs + occurs path ys
unfolding occurs
occurs-append path [] ys = ground arith
occurs-append path (x ∷ xs) ys = ground (arith, occurs-append path xs ys)

waiting-append :
    (path : IcPath) (xs ys : List (Timed IcPath))
    → waiting path (xs ++ ys) ≡ waiting path xs + waiting path ys
unfolding waiting
waiting-append path [] ys = ground arith
waiting-append path (x ∷ xs) ys = ground (arith, waiting-append path xs ys)

waiting-pop_least :
    (before : IcPath → IcPath → Bool) (path : IcPath) (xs : List (Timed IcPath))
    (first : Timed IcPath) (rest : List (Timed IcPath))
    → pop_least before xs ≡ some (first, rest)
    → waiting path xs ≡ (if first.item == path then 1 else 0) + waiting path rest
unfolding pop_least waiting
waiting-pop_least before path [] first rest e = ground arith
waiting-pop_least before path (x ∷ xs) first rest e = elim (Option-cases (pop_least before xs)) [
  | inl gone ↦
      let nil = pop_least-none before xs gone in
      let same : some (x, []) ≡ some (first, rest) = sym (rw gone refl) ∙ e in
      subst (λ t. waiting path (x ∷ xs) ≡ (if t.0.item == path then 1 else 0) + waiting path t.1)
        (some-injective _ _ same) (ground (arith, ap (waiting path) nil))
  | inr ((y, ys), found) ↦ ground (arith, found, waiting-pop_least before path xs y ys found)
]

got_of_turn :
    (before : IcPath → IcPath → Bool) (now : ℕ) (q q' : DelayQueue IcPath) (path : IcPath)
    → turn before now q ≡ got path q'
    → (first : Timed IcPath) × (pop_least before q.heap ≡ some (first, q'.heap))
      × (first.item ≡ path)
unfolding turn
got_of_turn before now q q' path e = elim (Option-cases (pop_least before q.heap)) [
  | inl gone ↦ absurd (ground (arith, gone))
  | inr ((first, rest), found) ↦ (first, ground arith, ground arith)
]

claimed_of :
    (policy : SyncPolicy) (path : IcPath) (s t : Warmup)
    → claim policy path s ≡ some t
    → (t ≡ record s { scheduled = path ∷ s.scheduled })
      × (holds path s.scheduled ≡ false)
      × (allows policy path ≡ true)
unfolding claim
claimed_of policy path s t e = ground arith

Step-IsValid :
    {policy : SyncPolicy} {before : IcPath → IcPath → Bool} {r t : Running}
    → Step policy before r t
    → IsValid policy r
    → IsValid policy t
unfolding holds occurs waiting
Step-IsValid {policy} (claims r path s e) v p =
    let facts = claimed_of policy path r.shared s e in
    subst
      (λ u.
        (in_hand p (record r { shared = u; claimed = path ∷ r.claimed })
          ≡ (if holds p u.scheduled then 1 else 0))
        × (holds p u.scheduled ≡ true → allows policy p ≡ true))
      (sym facts.0) (ground (arith, v p, facts.1), λ h. ground (arith, (v p).1, facts.2))
Step-IsValid (pushes s front path back running now delay) v p =
    unfold enqueue push in
    (
      ground (
        arith,
        v p,
        occurs-append p front (path ∷ back),
        occurs-append p front back,
        waiting-append p s.downloads.heap
            (record { due = now + delay; seq = (s.downloads.seq + 1) % 2 ^ 64; item = path } ∷ []),
      ),
      (v p).1,
    )
Step-IsValid {before = before} (takes r now path q e) v p =
    let (first, popped, same) = got_of_turn before now r.shared.downloads q path e in
    (
      ground (
        arith,
        v p,
        same,
        waiting-pop_least before p r.shared.downloads.heap first q.heap popped,
      ),
      (v p).1,
    )
Step-IsValid (settles r path fetched) v p = unfold settle in v p
Step-IsValid (settles r path auth_failed) v p = unfold settle in v p
Step-IsValid (settles r path failed) v p = unfold settle in v p
Step-IsValid (finishes s claimed front path back) v p =
    unfold unschedule in
    (
      ground (
        arith,
        v p,
        holds-release path p s.scheduled,
        occurs-append p front (path ∷ back),
        occurs-append p front back,
      ),
      λ h. ground (arith, (v p).1, holds-release path p s.scheduled),
    )
Step-IsValid (shuts_down r) v p = unfold close in v p

Reachable-IsValid :
    {policy : SyncPolicy} {before : IcPath → IcPath → Bool} {r : Running}
    → Reachable policy before r
    → IsValid policy r
unfolding holds occurs waiting
Reachable-IsValid start p = ground arith
Reachable-IsValid (next r st) p = Step-IsValid st (Reachable-IsValid r) p

-- However the threads take turns, a path that is scheduled is in one place, in the queue or in the
-- hand of one thread, and no other is anywhere: no two workers ever download one path at a time.
-- Only what the policy allows is scheduled.
pub scheduled_once :
    (policy : SyncPolicy) (before : IcPath → IcPath → Bool) (r : Running) (path : IcPath)
    → Reachable policy before r
    → (in_hand path r ≡ (if holds path r.shared.scheduled then 1 else 0))
      × (occurs path r.running ≤ 1)
      × ((holds path r.shared.scheduled && not (allows policy path)) ≡ false)
scheduled_once policy before r path h =
    let v = Reachable-IsValid h path in (v.0, ground (arith, v.0), ground (arith, v.1))
