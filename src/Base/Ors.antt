-- ===== src/Base/Ors.antt =====
-- The bits of `x | y`, one at a time.
use Prim.Native.Nat.{
  ℕ, zero, suc, ◌+◌, ◌*◌, ◌/◌, ◌%◌, ◌^◌, ◌≤◌, ◌<◌, max, bit_or, digits, bit_or-bitwise,
}
use mathlib.Core.Path.{◌≡◌, refl, sym, ap, ◌∙◌}
use memtoy.Base.Tests.{◌==◌, if◌then◌else◌}
use native.Mathlib.Nat.{
  two-pow-succ, pow-succ', div-div-eq-div-mul, div-add-mod, mul-add, mul_assoc, mul_comm,
}
use native.Mathlib.Omega.{arith}

-- The recursion that the native operation stands for does not depend on its bound.
low_or_high : ℕ → ℕ → ℕ → ℕ
low_or_high bound a b = digits (λ c. c) max bound a b

any_bound : (m n a b : ℕ) → a ≤ m → a ≤ n → low_or_high m a b ≡ low_or_high n a b
unfolding low_or_high
any_bound zero zero a b p q = refl
any_bound zero (suc n) zero b p q = refl
any_bound zero (suc n) (suc a) b p q = absurd (omega arith)
any_bound (suc m) zero zero b p q = refl
any_bound (suc m) zero (suc a) b p q = absurd (omega arith)
any_bound (suc m) (suc n) zero b p q = refl
any_bound (suc m) (suc n) (suc a) b p q =
    omega (arith, any_bound m n (suc a / 2) (b / 2) (omega arith) (omega arith))

none_or : (b : ℕ) → bit_or 0 b ≡ b
none_or b = bit_or-bitwise 0 b

-- The lowest bit and the others.
bit_or-halves : (a b : ℕ) → bit_or a b ≡ max (a % 2) (b % 2) + 2 * bit_or (a / 2) (b / 2)
unfolding low_or_high
bit_or-halves zero b = omega (arith, none_or b, none_or (b / 2))
bit_or-halves (suc a) b = omega (
  arith,
  bit_or-bitwise (suc a) b,
  bit_or-bitwise (suc a / 2) (b / 2),
  any_bound a (suc a / 2) (suc a / 2) (b / 2) (omega arith) (omega arith),
)

-- The bit at a place.
abbrev pub bit : ℕ → ℕ → ℕ
bit n a = a / 2 ^ n % 2

bit-suc : (n a : ℕ) → bit (suc n) a ≡ bit n (a / 2)
bit-suc n a =
    ap (λ q. q % 2) (sym (div-div-eq-div-mul a 2 (2 ^ n) ∙ ap (λ p. a / p) (sym (pow-succ' 2 n))))

pub bit-or : (n a b : ℕ) → bit n (bit_or a b) ≡ max (bit n a) (bit n b)
bit-or zero a b = omega (arith, bit_or-halves a b)
bit-or (suc n) a b =
    let half : bit_or a b / 2 ≡ bit_or (a / 2) (b / 2) = omega (arith, bit_or-halves a b) in
    rw (bit-suc, half) (rw (bit-suc n a, bit-suc n b) (bit-or n (a / 2) (b / 2)))

pub bit-zero : (n : ℕ) → bit n 0 ≡ 0
bit-zero zero = refl
bit-zero (suc n) = bit-suc n 0 ∙ bit-zero n

-- A power of two has one bit.
pub bit-pow : (n m : ℕ) → bit n (2 ^ m) ≡ (if n == m then 1 else 0)
bit-pow zero zero = refl
bit-pow zero (suc m) =
    let even : 2 ^ suc m / 1 % 2 ≡ 0 = omega (arith, two-pow-succ m) in ground (arith, even)
bit-pow (suc n) zero = ground (arith, bit-suc n 1 ∙ bit-zero n)
bit-pow (suc n) (suc m) =
    let half : 2 ^ suc m / 2 ≡ 2 ^ m = omega (arith, two-pow-succ m) in
    ground (arith, bit-suc n (2 ^ suc m) ∙ ap (bit n) half ∙ bit-pow n m)

-- The digits below a place, from those of the word above a lower place.
pub mod-split : (p b : ℕ) → 0 < p → b % (p * 2 ^ 32) ≡ b / p % 2 ^ 32 * p + b % p
mod-split p b pos =
    let e1 = div-add-mod b p in
    let e2 = div-add-mod (b / p) (2 ^ 32) in
    let e3 = div-add-mod b (p * 2 ^ 32) in
    let e4 = div-div-eq-div-mul b p (2 ^ 32) in
    let e5 : p * (b / p) ≡ p * (2 ^ 32 * (b / p / 2 ^ 32)) + p * (b / p % 2 ^ 32) =
      ap (λ q. p * q) (sym e2) ∙ mul-add p (2 ^ 32 * (b / p / 2 ^ 32)) (b / p % 2 ^ 32) in
    let e6 : p * 2 ^ 32 * (b / p / 2 ^ 32) ≡ p * (2 ^ 32 * (b / p / 2 ^ 32)) =
      mul_assoc p (2 ^ 32) (b / p / 2 ^ 32) in
    let e7 = ap (λ q. p * 2 ^ 32 * q) e4 in
    let e8 = mul_comm p (b / p % 2 ^ 32) in omega (arith, e1, e3, e5, e6, e7, e8)
