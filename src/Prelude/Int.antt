-- ===== src/Prelude/Int.antt =====
-- Signed integers: `negsuc n` is -(n + 1).
use Prim.Native.Nat.{ℕ, ◌+◌, ◌-◌}
use mathlib.Core.Bool.{Bool, true, false}
use icloud_linux.Prelude.Tests.{ltb, if◌then◌else◌}

pub data ℤ : Type 0 where
  pos : ℕ → ℤ
  negsuc : ℕ → ℤ

-- `a < b`
abbrev pub lt_int : ℤ → ℤ → Bool
lt_int (pos a) (pos b) = ltb a b
lt_int (pos a) (negsuc b) = false
lt_int (negsuc a) (pos b) = true
lt_int (negsuc a) (negsuc b) = ltb b a

-- `i64::MAX`
abbrev pub i64_max : ℕ
i64_max = 0x7fff_ffff_ffff_ffff

-- `i64::try_from(n).unwrap_or(i64::MAX)` of a `u64`.
abbrev pub clamp_i64 : ℕ → ℤ
clamp_i64 n = if ltb i64_max n then pos i64_max else pos n

-- `u64::try_from(i).unwrap_or(0)` of an `i64`.
abbrev pub to_u64 : ℤ → ℕ
to_u64 (pos n) = n
to_u64 (negsuc n) = 0

-- `a.saturating_sub(b)` on `i64` for `b` at least 0.
abbrev pub saturating_sub : ℤ → ℕ → ℤ
saturating_sub (pos a) b = if ltb a b then negsuc (b - a - 1) else pos (a - b)
saturating_sub (negsuc a) b = if ltb i64_max (a + b) then negsuc i64_max else negsuc (a + b)

-- `a.saturating_sub(b)` on `i64`.
abbrev pub saturating_diff : ℤ → ℤ → ℤ
saturating_diff a (pos b) = saturating_sub a b
saturating_diff (pos a) (negsuc b) = clamp_i64 (a + b + 1)
saturating_diff (negsuc a) (negsuc b) = if ltb b a then negsuc (a - b - 1) else pos (b - a)
