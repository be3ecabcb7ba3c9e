-- ===== src/Engine/Retry.antt =====
-- `retry_delay` of crates/icloud-core/src/engine/download.rs.
use mathlib.Core.Path.{subst}
use icloud_linux.Prelude.{
  inr, inl, Bool-cases, ℕ, zero, suc, ◌+◌, ◌-◌, ◌*◌, ◌^◌, ◌≤◌, ◌<◌, ◌≡◌, refl, Bool, true, ◌&&◌,
  arith, leb, ltb, ◌==◌, nat_eq, if◌then◌else◌,
}

abbrev pub min : ℕ → ℕ → ℕ
min a b = if leb a b then a else b

-- `u64::saturating_mul`
abbrev pub saturating_mul : ℕ → ℕ → ℕ
saturating_mul a b = min (a * b) (2 ^ 64 - 1)

-- A duration is its nanoseconds.
abbrev pub from_secs : ℕ → ℕ
from_secs s = s * 1000000000

abbrev pub retry_secs : ℕ → ℕ
retry_secs attempt = min 300 (saturating_mul 5 (2 ^ min (attempt - 1) 16))

unfoldable pub retry_delay : ℕ → ℕ
retry_delay attempt = from_secs (retry_secs attempt)

abbrev below : ℕ → (ℕ → Bool) → Bool
below zero test = true
below (suc n) test = test n && below n test

below_each : (n k : ℕ) (test : ℕ → Bool) → below n test ≡ true → k < n → test k ≡ true
below_each zero k test h l = ground arith
below_each (suc n) k test h l = elim (nat_eq.dec k n) [
  | yes here ↦ rw here (ground arith)
  | no other ↦ below_each n k test (ground arith) (omega arith)
]

abbrev doubles : ℕ → Bool
doubles k = retry_secs (k + 1 + 1) == min 300 (2 * retry_secs (k + 1)) && leb 5 (retry_secs (k + 1))

doubles_small : below 16 doubles ≡ true
unfolding nat_eq
doubles_small = refl

doubles_large : (k : ℕ) → 16 ≤ k → doubles k ≡ true
unfolding nat_eq
doubles_large k l =
    let one : min (k + 1 + 1 - 1) 16 ≡ 16 = ground arith in
    let two : min (k + 1 - 1) 16 ≡ 16 = ground arith in rw (one, two) refl

doubles_each : (k : ℕ) → doubles k ≡ true
doubles_each k = elim (Bool-cases (ltb k 16)) [
  | inl small ↦ below_each 16 k doubles doubles_small (ground arith)
  | inr large ↦ doubles_large k (ground arith)
]

in_nanos :
    (a b : ℕ)
    → a ≡ min 300 (2 * b)
    → 5 ≤ b
    → b ≤ 300
    → (from_secs a ≡ min (from_secs 300) (2 * from_secs b))
      × (from_secs 5 ≤ from_secs b)
      × (from_secs b ≤ from_secs 300)
in_nanos a b e l u = ground arith

at_most_300 : (a : ℕ) → min 300 a ≤ 300
at_most_300 a = ground arith

split_doubles :
    (a b : ℕ) → (a == min 300 (2 * b) && leb 5 b) ≡ true → (a ≡ min 300 (2 * b)) × (5 ≤ b)
split_doubles a b h = ground arith

-- The first retry comes after five seconds and each later one after twice the time of the one before
-- it, but never after more than five minutes; the multiplication never saturates.
pub retry_delay_doubles :
    (attempt : ℕ)
    → 1 ≤ attempt
    → (retry_delay 1 ≡ from_secs 5)
      × (retry_delay (attempt + 1) ≡ min (from_secs 300) (2 * retry_delay attempt))
      × (from_secs 5 ≤ retry_delay attempt)
      × (retry_delay attempt ≤ from_secs 300)
unfolding retry_delay
retry_delay_doubles attempt l =
    let k = attempt - 1 in
    let here : k + 1 ≡ attempt = omega (arith, l) in
    let facts = split_doubles (retry_secs (k + 1 + 1)) (retry_secs (k + 1)) (doubles_each k) in
    let nanos =
      in_nanos (retry_secs (k + 1 + 1)) (retry_secs (k + 1)) facts.0 facts.1
        (at_most_300 (saturating_mul 5 (2 ^ min (k + 1 - 1) 16))) in
    subst
      (λ a.
        (retry_delay 1 ≡ from_secs 5)
        × (retry_delay (a + 1) ≡ min (from_secs 300) (2 * retry_delay a))
        × (from_secs 5 ≤ retry_delay a)
        × (retry_delay a ≤ from_secs 300))
      here (refl, nanos.0, nanos.1, nanos.2)
