-- ===== src/Prelude/Decimal.antt =====
-- Numbers in decimal, as `to_string` writes and `parse` reads them.
use native.Mathlib.Nat.{pow-suc}
use Prim.Native.Nat.{ℕ, zero, suc, ◌+◌, ◌*◌, ◌-◌, ◌/◌, ◌%◌, ◌^◌, ◌<◌}
use mathlib.Core.Path.{◌≡◌, refl, sym, ap, ◌∙◌}
use mathlib.Core.List.{[], ◌∷◌, ◌++◌}
use mathlib.Core.Logic.{inl, inr}
use native.Mathlib.Omega.{arith}
use icloud_linux.Prelude.Tests.{ltb, if◌then◌else◌, Bool-cases}
use icloud_linux.Prelude.Strings.{Text}

-- A number with at most `k` digits.
unfoldable pub digits : ℕ → ℕ → Text
digits zero n = []
digits (suc k) n =
    let rest = digits k (n / 10) in if ltb n 10 then (48 + n) ∷ [] else rest ++ ((48 + n % 10) ∷ [])

abbrev pub add_digit : ℕ → ℕ → ℕ
add_digit n c = n * 10 + (c - 48)

unfoldable pub value_of : ℕ → Text → ℕ
value_of n [] = n
value_of n (c ∷ s) = value_of (add_digit n c) s

value_of-append :
    (n : ℕ) (s : Text) (c : ℕ) → value_of n (s ++ (c ∷ [])) ≡ add_digit (value_of n s) c
unfolding value_of
value_of-append n [] c = refl
value_of-append n (d ∷ s) c = value_of-append (add_digit n d) s c

pub value_of-digits : (k n : ℕ) → n < 10 ^ k → value_of 0 (digits k n) ≡ n
unfolding value_of digits
value_of-digits zero n h = omega (arith, h)
value_of-digits (suc k) n h = elim (Bool-cases (ltb n 10)) [
  | inl small ↦ rw small (omega arith)
  | inr large ↦
      rw
        (
          large,
          value_of-append 0 (digits k (n / 10)) (48 + n % 10),
          value_of-digits k (n / 10) (omega (arith, h)),
        )
        (omega arith)
]

lt_pow : (n : ℕ) → n < 10 ^ n
lt_pow zero = omega arith
lt_pow (suc n) = rw (pow-suc 10 n) (omega (arith, lt_pow n))

-- Different numbers are written differently.
pub digits_injective : (m n : ℕ) → digits m m ≡ digits n n → m ≡ n
digits_injective m n h =
    sym (value_of-digits m m (lt_pow m)) ∙ (ap (value_of 0) h ∙ value_of-digits n n (lt_pow n))
