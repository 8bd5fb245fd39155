-- ===== src/Base/Numbers.antt =====
-- `strtoul` of the C library over a 64-bit `unsigned long`.
use Prim.Native.Nat.{ℕ, ◌+◌, ◌-◌, ◌*◌, ◌^◌, ◌%◌, min}
use mathlib.Core.Bool.{Bool, ◌&&◌, ◌||◌}
use mathlib.Core.List.{[], ◌∷◌}
use mathlib.Core.Option.{Option, none, some}
use memtoy.Base.Tests.{ltb, leb, ◌==◌, if◌then◌else◌}
use memtoy.Base.Texts.{Text, first, next, is_digit, skip, tolower}

abbrev pub word : ℕ
word = 2 ^ 64

-- The value of a digit, or 99 for a byte that is none.
unfoldable pub digit_value : ℕ → ℕ
unfolding tolower
digit_value c =
    if is_digit c
    then c - 48
    else if leb 97 (tolower c) && leb (tolower c) 122
    then tolower c - 87
    else 99

abbrev pub is_space : ℕ → Bool
is_space c = (c == 32) || (leb 9 c && leb c 13)

-- The digits of the base from the front, folded into a number, and the rest of the text.
unfoldable pub read_digits : ℕ → ℕ → Text → ℕ × Text
unfolding digit_value
read_digits base n [] = (n, [])
read_digits base n (c ∷ s) =
    let rest = read_digits base (n * base + digit_value c) s in
    if ltb (digit_value c) base then rest else (n, c ∷ s)

-- Base 16 skips one `0x` if a hex digit follows.
abbrev has_hex_prefix : Text → Bool
has_hex_prefix s =
    (first s == b'0')
    && (tolower (first (next s)) == b'x')
    && ltb (digit_value (first (next (next s)))) 16

-- The base that `strtoul` settles on and the digits that it reads.
unfoldable pub start_digits : ℕ → Text → ℕ × Text
unfolding digit_value
start_digits base s =
    if ((base == 0) || (base == 16)) && has_hex_prefix s
    then (16, next (next s))
    else if base == 0
    then ((if first s == b'0' then 8 else 10), s)
    else (base, s)

-- A value above the largest one is cut down to it; a minus sign negates what was read.
abbrev convert : Bool → ℕ → ℕ
convert minus n = let m = min n (word - 1) in if minus && ltb n word then (word - m) % word else m

-- The common part of `strtoul` and `strtol`: the sign, the value without bound, and the rest, or
-- `none` if there is no digit.
unfoldable pub read_number : ℕ → Text → Option (Bool × ℕ × Text)
unfolding read_digits skip
read_number base s =
    let t = skip is_space s in
    let minus = first t == b'-' in
    let u = if minus || (first t == b'+') then next t else t in
    let (b, digits) = start_digits base u in
    let (n, end) = read_digits b 0 digits in
    if ltb (digit_value (first digits)) b then some (minus, n, end) else none

-- `strtoul(s, &end, base)`: the value and the text at `end`, which is `s` if there is no digit.
unfoldable pub strtoul : ℕ → Text → ℕ × Text
unfolding read_number
strtoul base s = elim (read_number base s) [
  | none ↦ (0, s)
  | some (minus, n, end) ↦ (convert minus n, end)
]

-- `strtol(s, NULL, base)` as a 64-bit pattern, cut down to the range of a `long`.
unfoldable pub strtol : ℕ → Text → ℕ
unfolding read_number
strtol base s = elim (read_number base s) [
  | none ↦ 0
  | some (minus, n, end) ↦ if minus then (word - min n (2 ^ 63)) % word else min n (2 ^ 63 - 1)
]
