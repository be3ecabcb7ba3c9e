-- ===== src/Engine/Locks.antt =====
-- `KeyedLocks` of crates/icloud-core/src/engine/sync_util.rs, as it is used by any number of threads.
-- Each step holds the mutex around `held` from its start to its end, so steps do not overlap.
use icloud_linux.Prelude.{
  true, is_empty, not, ◌&&◌, nat_eq, ℕ, ◌+◌, ◌≤◌, ◌≡◌, refl, Bool, false, List, [], ◌∷◌, ◌++◌,
  arith, any, Option, none, some, Eq, ◌==◌, if◌then◌else◌,
}

module _ {ℓ} {K : Type ℓ} ⦃e : Eq K⦄ where
  -- `HashSet::contains`, `insert` of an absent key, and `remove`.
  unfoldable pub holds : K → List K → Bool
  holds key held = any (λ k. k == key) held

  unfoldable pub release : K → List K → List K
  release key [] = []
  release key (k ∷ held) = let rest = release key held in if k == key then rest else k ∷ rest

  -- `acquire` once it has the mutex: `none` where it waits on the condition variable.
  unfoldable pub try_acquire : K → List K → Option (List K)
  try_acquire key held = if holds key held then none else some (key ∷ held)

  -- How many of the guards are for a key. A guard is its thread and its key.
  unfoldable pub holders : K → List (ℕ × K) → ℕ
  holders key [] = 0
  holders key ((thread, k) ∷ guards) = (if k == key then 1 else 0) + holders key guards

-- The table and the guards that are alive.
pub record Locks {ℓ} (K : Type ℓ) : Type ℓ where
  pub held : List K
  pub guards : List (ℕ × K)

-- A thread gets a guard, or any one of the guards is dropped.
pub data Step {ℓ} {K : Type ℓ} ⦃e : Eq K⦄ : Locks K → Locks K → Type ℓ where
  acquired :
      (s : Locks K) (thread : ℕ) (key : K) (held' : List K)
      → try_acquire key s.held ≡ some held'
      → Step s (record { held = held'; guards = (thread, key) ∷ s.guards })
  dropped :
      (held : List K) (before : List (ℕ × K)) (thread : ℕ) (key : K) (after : List (ℕ × K))
      → Step
          (record { held = held; guards = before ++ ((thread, key) ∷ after) })
          (record { held = release key held; guards = before ++ after })

pub data Reachable {ℓ} {K : Type ℓ} ⦃e : Eq K⦄ : Locks K → Type ℓ where
  start : Reachable (record { held = []; guards = [] })
  next : {s t : Locks K} → Reachable s → Step s t → Reachable t

module _ {ℓ} {K : Type ℓ} ⦃e : Eq K⦄ where
  -- The table has a key exactly once if a guard for it is alive, and there is no second one.
  abbrev IsValid : Locks K → Type ℓ
  IsValid s = (key : K) → (holders key s.guards ≡ (if holds key s.held then 1 else 0))

  pub holds-release :
      (key k : K) (held : List K)
      → holds k (release key held) ≡ (if key == k then false else holds k held)
  unfolding holds release
  holds-release key k [] = ground arith
  holds-release key k (x ∷ held) = ground (arith, holds-release key k held)

  holders-append :
      (key : K) (before after : List (ℕ × K))
      → holders key (before ++ after) ≡ holders key before + holders key after
  unfolding holders
  holders-append key [] after = ground arith
  holders-append key ((thread, k) ∷ before) after = ground (arith, holders-append key before after)

  Step-IsValid : {s t : Locks K} → Step s t → IsValid s → IsValid t
  unfolding holds try_acquire holders
  Step-IsValid (acquired s thread key held' got) v k = ground (arith, v k, v key)
  Step-IsValid (dropped held before thread key after) v k = ground (
    arith,
    v k,
    v key,
    holds-release key k held,
    holders-append k before ((thread, key) ∷ after),
    holders-append key before ((thread, key) ∷ after),
    holders-append k before after,
  )

  Reachable-IsValid : {s : Locks K} → Reachable s → IsValid s
  unfolding holds holders
  Reachable-IsValid start k = refl
  Reachable-IsValid (next r st) k = Step-IsValid st (Reachable-IsValid r) k

  unheld_empty : (held : List K) → ((k : K) → holds k held ≡ false) → is_empty held ≡ true
  unfolding holds
  unheld_empty [] h = refl
  unheld_empty (k ∷ held) h = ground (arith, h k)

  holders-nil :
      (guards : List (ℕ × K)) (held : List K)
      → ((k : K) → holders k guards ≡ (if holds k held then 1 else 0))
      → (is_empty guards && not (is_empty held)) ≡ false
  unfolding holders
  holders-nil [] held v = rw (unheld_empty held (λ k. ground (arith, v k))) refl
  holders-nil (g ∷ guards) held v = refl

  -- However the threads take turns, at most one guard is alive for a key; `acquire` waits exactly
  -- while there is one; and when no guard is left, the table is empty.
  pub holders_at_most_one :
      (s : Locks K) (key : K)
      → Reachable s
      → (holders key s.guards ≤ 1)
        × (try_acquire key s.held
            ≡ (if holders key s.guards == 1 then none else some (key ∷ s.held)))
        × ((is_empty s.guards && not (is_empty s.held)) ≡ false)
  unfolding try_acquire
  holders_at_most_one s key r =
      let v = Reachable-IsValid r key in
      (ground (arith, v), ground (arith, v), holders-nil s.guards s.held (Reachable-IsValid r))
