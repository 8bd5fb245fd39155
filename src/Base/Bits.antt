-- ===== src/Base/Bits.antt =====
-- `x & ~(2^k - 1)` at every width: the bits above the lowest k.
use Prim.Native.Nat.{
  ℕ, zero, suc, ◌+◌, ◌-◌, ◌*◌, ◌/◌, ◌%◌, ◌^◌, ◌≤◌, ◌<◌, min, bit_and, digits, bit_and-bitwise,
}
use mathlib.Core.Path.{◌≡◌, refl, sym, ap, ◌∙◌}
use native.Mathlib.Nat.{two-pow-succ, pow-succ', one-le-pow, div-div-eq-div-mul, div-lt_iff_lt-mul}
use native.Mathlib.Omega.{arith}

-- The recursion that the native operation stands for does not depend on its bound.
low_and_high : ℕ → ℕ → ℕ → ℕ
low_and_high bound a b = digits (λ c. zero) min bound a b

any_bound : (m n a b : ℕ) → a ≤ m → a ≤ n → low_and_high m a b ≡ low_and_high n a b
unfolding low_and_high
any_bound zero zero a b p q = refl
any_bound zero (suc n) zero b p q = refl
any_bound zero (suc n) (suc a) b p q = absurd (omega arith)
any_bound (suc m) zero zero b p q = refl
any_bound (suc m) zero (suc a) b p q = absurd (omega arith)
any_bound (suc m) (suc n) zero b p q = refl
any_bound (suc m) (suc n) (suc a) b p q =
    omega (arith, any_bound m n (suc a / 2) (b / 2) (omega arith) (omega arith))

none_and : (b : ℕ) → bit_and 0 b ≡ 0
none_and b = bit_and-bitwise 0 b

-- The lowest bit and the others.
pub bit_and-halves : (a b : ℕ) → bit_and a b ≡ min (a % 2) (b % 2) + 2 * bit_and (a / 2) (b / 2)
unfolding low_and_high
bit_and-halves zero b = omega (arith, none_and b, none_and (b / 2))
bit_and-halves (suc a) b = omega (
  arith,
  bit_and-bitwise (suc a) b,
  bit_and-bitwise (suc a / 2) (b / 2),
  any_bound a (suc a / 2) (suc a / 2) (b / 2) (omega arith) (omega arith),
)

-- `w` ones, and the same followed by `k` zeros
abbrev ones : ℕ → ℕ
ones zero = 0
ones (suc w) = 1 + 2 * ones w

abbrev shifted : ℕ → ℕ → ℕ
shifted w zero = ones w
shifted w (suc k) = 2 * shifted w k

and_ones : (w a : ℕ) → a < 2 ^ w → bit_and a (ones w) ≡ a
and_ones zero a h = let z : a ≡ 0 = omega arith in rw z
and_ones (suc w) a h =
    let half : (1 + 2 * ones w) / 2 ≡ ones w = omega arith in
    let rest : bit_and (a / 2) (ones w) ≡ a / 2 =
      and_ones w (a / 2) (omega (arith, two-pow-succ w)) in
    rw bit_and-halves (rw half (rw rest (omega arith)))

and_shifted : (w k a : ℕ) → a / 2 ^ k < 2 ^ w → bit_and a (shifted w k) ≡ a / 2 ^ k * 2 ^ k
and_shifted w zero a h =
    let e : a / 1 * 1 ≡ a = omega arith in rw e (and_ones w a (omega (arith, e, h)))
and_shifted w (suc k) a h =
    let half : 2 * shifted w k / 2 ≡ shifted w k = omega arith in
    let up : a / 2 / 2 ^ k ≡ a / 2 ^ suc k =
      div-div-eq-div-mul a 2 (2 ^ k) ∙ ap (λ p. a / p) (sym (pow-succ' 2 k)) in
    let rest : bit_and (a / 2) (shifted w k) ≡ a / 2 ^ suc k * 2 ^ k =
      and_shifted w k (a / 2) (rw up h) ∙ ap (λ q. q * 2 ^ k) up in
    rw bit_and-halves (rw half (rw (rest, pow-succ') (omega arith)))

ones-eq : (w : ℕ) → ones w + 1 ≡ 2 ^ w
ones-eq zero = refl
ones-eq (suc w) = omega (arith, ones-eq w, two-pow-succ w)

pub pow-add : (k w : ℕ) → 2 ^ (k + w) ≡ 2 ^ w * 2 ^ k
pow-add zero w = let e : 0 + w ≡ w = omega arith in rw e (omega arith)
pow-add (suc k) w =
    let e : suc k + w ≡ suc (k + w) = omega arith in
    rw (e, pow-succ', pow-succ') (omega (arith, ap (λ (t : ℕ). 2 * t) (pow-add k w)))

-- The mask of the bits from `k` on, below `k + w`.
shifted-eq : (w k : ℕ) → shifted w k + 2 ^ k ≡ 2 ^ (k + w)
shifted-eq w zero = let e : 0 + w ≡ w = omega arith in rw e (ones-eq w)
shifted-eq w (suc k) =
    let e : suc k + w ≡ suc (k + w) = omega arith in
    rw e (omega (arith, two-pow-succ k, two-pow-succ (k + w), shifted-eq w k))

-- `a & (2^(k + w) - 2^k)` clears the lowest k bits of a number of k + w bits.
pub bit_and-high :
    (w k a : ℕ) → a < 2 ^ (k + w) → bit_and a (2 ^ (k + w) - 2 ^ k) ≡ a / 2 ^ k * 2 ^ k
bit_and-high w k a h =
    let m : 2 ^ (k + w) - 2 ^ k ≡ shifted w k = omega (arith, shifted-eq w k) in
    let pos : 0 < 2 ^ k = one-le-pow k 2 (omega arith) in
    rw m (
      and_shifted w k a
        ((div-lt_iff_lt-mul {k = 2 ^ k} {x = a} {y = 2 ^ w} pos).1 (rw (← pow-add) h)))
