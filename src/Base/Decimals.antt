-- ===== src/Base/Decimals.antt =====
-- Numbers written in decimal, and `strtoul` on them.
use Prim.Native.Nat.{ℕ, zero, suc, ◌+◌, ◌-◌, ◌*◌, ◌/◌, ◌%◌, ◌≤◌, ◌<◌}
use mathlib.Core.Path.{◌≡◌, refl, sym, ap, ◌∙◌}
use mathlib.Core.Bool.{Bool, true, false, not, ◌&&◌, ◌||◌}
use mathlib.Core.List.{[], ◌∷◌, ◌++◌}
use native.Mathlib.Omega.{arith}
use memtoy.Base.Tests.{ltb, ◌==◌, if◌then◌else◌, Bool-cases}
use memtoy.Base.Texts.{Text, first, is_digit, is_empty, skip}
use mathlib.Core.Option.{some}
use memtoy.Base.Numbers.{
  word, digit_value, is_space, start_digits, read_digits, read_number, strtoul,
}
use mathlib.Core.Logic.{inl, inr}

-- The digits of a number of fewer than `k` digits, the highest first.
abbrev digits_of : ℕ → ℕ → Text
digits_of zero n = []
digits_of (suc k) n = if ltb n 10 then (48 + n) ∷ [] else digits_of k (n / 10) ++ (48 + n % 10) ∷ []

unfoldable pub decimal : ℕ → Text
decimal n = digits_of (suc n) n

abbrev pub all_digits : Text → Bool
all_digits [] = true
all_digits (c ∷ s) = is_digit c && all_digits s

abbrev value_of : ℕ → Text → ℕ
value_of acc [] = acc
value_of acc (c ∷ s) = value_of (acc * 10 + (c - 48)) s

value_of-append : (acc : ℕ) (s t : Text) → value_of acc (s ++ t) ≡ value_of (value_of acc s) t
value_of-append acc [] t = refl
value_of-append acc (c ∷ s) t = value_of-append (acc * 10 + (c - 48)) s t

all_digits-append :
    (s t : Text) → all_digits s ≡ true → all_digits t ≡ true → all_digits (s ++ t) ≡ true
all_digits-append [] t h k = k
all_digits-append (c ∷ s) t h k = ground (arith, all_digits-append s t)

all_digits-digits_of : (k n : ℕ) → all_digits (digits_of k n) ≡ true
all_digits-digits_of zero n = refl
all_digits-digits_of (suc k) n = elim (Bool-cases (ltb n 10)) [
  | inl e ↦ ground arith
  | inr e ↦
      let last : all_digits ((48 + n % 10) ∷ []) ≡ true = ground arith in
      ground (
        arith,
        all_digits-append (digits_of k (n / 10)) ((48 + n % 10) ∷ [])
            (all_digits-digits_of k (n / 10)) last,
      )
]

value_of-digits_of : (k n : ℕ) → n < k → value_of 0 (digits_of k n) ≡ n
value_of-digits_of zero n h = absurd (omega arith)
value_of-digits_of (suc k) n h = elim (Bool-cases (ltb n 10)) [
  | inl e ↦ ground arith
  | inr e ↦
      let ten : 10 ≤ n = ground arith in
      let rest = value_of-digits_of k (n / 10) (omega arith) in
      let split = value_of-append 0 (digits_of k (n / 10)) ((48 + n % 10) ∷ []) in
      let eq : digits_of (suc k) n ≡ digits_of k (n / 10) ++ (48 + n % 10) ∷ [] = ground arith in
      ap (value_of 0) eq ∙ split ∙ omega (arith, rest)
]

read_digits-all :
    (acc : ℕ) (s rest : Text)
    → all_digits s ≡ true
    → ltb (digit_value (first rest)) 10 ≡ false
    → read_digits 10 acc (s ++ rest) ≡ (value_of acc s, rest)
unfolding read_digits digit_value
read_digits-all acc [] [] h m = refl
read_digits-all acc [] (c ∷ rest) h m = ground arith
read_digits-all acc (c ∷ s) rest h m = ground (arith, read_digits-all (acc * 10 + (c - 48)) s rest)

-- The base is ten, or is left open and no zero stands in front.
abbrev reads_ten : ℕ → ℕ → Bool
reads_ten base c = (base == 10) || ((base == 0) && not (c == b'0'))

start_digits-ten :
    (base c : ℕ) (u : Text) → reads_ten base c ≡ true → start_digits base (c ∷ u) ≡ (10, c ∷ u)
unfolding start_digits
start_digits-ten base c u b = elim (Bool-cases (base == 10)) [
  | inl e ↦ (let ten : base ≡ 10 = ground arith in rw ten refl)
  | inr e ↦
      let zero_base : base ≡ 0 = ground arith in
      let other : (c == b'0') ≡ false = ground arith in rw zero_base (rw other refl)
]

read_number-digits :
    (base c : ℕ) (s rest : Text)
    → reads_ten base c ≡ true
    → all_digits (c ∷ s) ≡ true
    → ltb (digit_value (first rest)) 10 ≡ false
    → read_number base (c ∷ (s ++ rest)) ≡ some (false, value_of 0 (c ∷ s), rest)
unfolding read_number skip start_digits digit_value
read_number-digits base c s rest b h m =
    let t = c ∷ (s ++ rest) in
    let digit : is_digit c ≡ true = ground arith in
    let e1 : skip is_space t ≡ t = ground arith in
    let e2 : (c == b'-') ≡ false = ground arith in
    let e3 : (c == b'+') ≡ false = ground arith in
    let e4 : ltb (digit_value c) 10 ≡ true = ground arith in
    let e5 = read_digits-all 0 (c ∷ s) rest h m in
    let e6 : start_digits base t ≡ (10, t) = start_digits-ten base c (s ++ rest) b in ground arith

-- A text of digits is read up to what follows it.
strtoul-digits :
    (base c : ℕ) (s rest : Text)
    → reads_ten base c ≡ true
    → all_digits (c ∷ s) ≡ true
    → value_of 0 (c ∷ s) < word
    → ltb (digit_value (first rest)) 10 ≡ false
    → strtoul base (c ∷ (s ++ rest)) ≡ (value_of 0 (c ∷ s), rest)
unfolding strtoul
strtoul-digits base c s rest b h lt m =
    let e = read_number-digits base c s rest b h m in rw (e, strtoul) (ground arith)

-- The first digit, which is no zero unless the number is.
digits_of-front :
    (k n : ℕ)
    → n ≤ k
    → (c : ℕ) × (s : Text) × (digits_of (suc k) n ≡ c ∷ s) × ((c == b'0') ≡ (n == 0))
digits_of-front zero n h = let z : n ≡ 0 = omega arith in (48, [], rw z refl, ground arith)
digits_of-front (suc k) n h = elim (Bool-cases (ltb n 10)) [
  | inl e ↦ (48 + n, [], ground arith, ground arith)
  | inr e ↦
      let (c, s, q, z) = digits_of-front k (n / 10) (omega arith) in
      let eq : digits_of (suc (suc k)) n ≡ digits_of (suc k) (n / 10) ++ (48 + n % 10) ∷ [] =
        ground arith in
      (c, s ++ (48 + n % 10) ∷ [], eq ∙ ap (λ t. t ++ (48 + n % 10) ∷ []) q, ground (arith, z))
]

-- A number in decimal is read back, up to what follows it, also where the base is left open and the
-- number is not zero; it starts with a digit.
pub strtoul-decimal :
    (base n : ℕ) (rest : Text)
    → ((base == 10) || ((base == 0) && not (n == 0))) ≡ true
    → n < word
    → ltb (digit_value (first rest)) 10 ≡ false
    → (strtoul base (decimal n ++ rest) ≡ (n, rest))
      × (is_digit (first (decimal n ++ rest)) ≡ true)
      × (is_empty (decimal n ++ rest) ≡ false)
unfolding decimal
strtoul-decimal base n rest b h m =
    let (c, s, e, z) = digits_of-front n n (omega arith) in
    let value : value_of 0 (c ∷ s) ≡ n =
      ap (value_of 0) (sym e) ∙ value_of-digits_of (suc n) n (omega arith) in
    let digits : all_digits (c ∷ s) ≡ true =
      ap all_digits (sym e) ∙ all_digits-digits_of (suc n) n in
    let small : value_of 0 (c ∷ s) < word = rw value h in
    let ten : reads_ten base c ≡ true = rw z b in
    let read = strtoul-digits base c s rest ten digits small m in
    let text : digits_of (suc n) n ++ rest ≡ c ∷ (s ++ rest) = ap (λ t. t ++ rest) e in
    (
      ap (strtoul base) text ∙ read ∙ ap (λ v. (v, rest)) value,
      ap (λ t. is_digit (first t)) text ∙ ground arith,
      ap is_empty text,
    )

-- Nothing more to read is no digit.
pub end_value : ltb (digit_value 0) 10 ≡ false
unfolding digit_value
end_value = refl

pub all_digits-decimal : (n : ℕ) → all_digits (decimal n) ≡ true
unfolding decimal
all_digits-decimal n = all_digits-digits_of (suc n) n

-- A comma is no digit.
pub comma_value : ltb (digit_value b',') 10 ≡ false
unfolding digit_value
comma_value = refl
