-- ===== src/Srp/Powers.antt =====
-- Powers and remainders.
use Prim.Native.Nat.{zero, suc}
use native.Mathlib.Nat.{
  mul-one, add-mul-mod_self_left, div-add-mod, mul_assoc, mul_comm, mul_left_comm, add-mul, pow-suc,
  add-suc, mul-suc,
}
use native.Mathlib.Numerals.{unary_clauses}
use icloud_linux.Prelude.{ℕ, ◌+◌, ◌*◌, ◌/◌, ◌%◌, ◌^◌, ◌≡◌, refl, sym, ap, ◌∙◌, arith}

pub pow-add : (a m k : ℕ) → a ^ (m + k) ≡ a ^ m * a ^ k
pow-add a m zero = simp unary_clauses (sym (mul-one (a ^ m)))
pow-add a m (suc k) =
    rw (add-suc m k, pow-suc a (m + k), pow-suc a k, pow-add a m k) (mul_assoc (a ^ m) (a ^ k) a)

pub pow-mul : (a m k : ℕ) → (a ^ m) ^ k ≡ a ^ (m * k)
pow-mul a m zero = simp unary_clauses refl
pow-mul a m (suc k) = rw (pow-suc (a ^ m) k, mul-suc m k, pow-mul a m k) (sym (pow-add a (m * k) m))

swap : (a b c d : ℕ) → (a * b) * (c * d) ≡ (a * c) * (b * d)
swap a b c d =
    mul_assoc a b (c * d) ∙ (ap (λ x. a * x) (mul_left_comm b c d) ∙ sym (mul_assoc a c (b * d)))

pub mul-pow : (a b k : ℕ) → (a * b) ^ k ≡ a ^ k * b ^ k
mul-pow a b zero = simp unary_clauses refl
mul-pow a b (suc k) =
    rw (pow-suc (a * b) k, pow-suc a k, pow-suc b k, mul-pow a b k) (swap (a ^ k) (b ^ k) a b)

pub mod-mul-mod : (a b n : ℕ) → (a % n * b) % n ≡ (a * b) % n
mod-mul-mod a b n = sym (add-mul-mod_self_left (a % n * b) n (a / n * b)) ∙ ap (λ x. x % n) whole
  where
    whole : a % n * b + n * (a / n * b) ≡ a * b
    whole =
        ap (λ x. a % n * b + x) (sym (mul_assoc n (a / n) b))
        ∙ (sym (add-mul (a % n) (n * (a / n)) b) ∙ ap (λ x. x * b) (omega (arith, div-add-mod a n)))

pub mul-mod-mod : (a b n : ℕ) → (a * (b % n)) % n ≡ (a * b) % n
mul-mod-mod a b n =
    ap (λ x. x % n) (mul_comm a (b % n)) ∙ (mod-mul-mod b a n ∙ ap (λ x. x % n) (mul_comm b a))

pub mod-pow-mod : (a k n : ℕ) → (a % n) ^ k % n ≡ a ^ k % n
mod-pow-mod a zero n = simp unary_clauses refl
mod-pow-mod a (suc k) n =
    rw (pow-suc (a % n) k, pow-suc a k)
      (mul-mod-mod ((a % n) ^ k) a n
        ∙ (sym (mod-mul-mod ((a % n) ^ k) a n)
            ∙ (ap (λ x. (x * a) % n) (mod-pow-mod a k n) ∙ mod-mul-mod (a ^ k) a n)))
