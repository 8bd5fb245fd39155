-- ===== src/Args/Laws/Scaled.antt =====
-- Sizes with scale letters.
use memtoy.Base.{
  ℕ, ◌*◌, ◌%◌, ◌<◌, ◌≡◌, true, false, not, ◌&&◌, ◌||◌, some, [], ◌∷◌, ◌++◌, tolower, ltb, word,
  ◌==◌, arith,
}
use memtoy.Base.Numbers.{digit_value}
use memtoy.Base.Decimals.{decimal, strtoul-decimal, end_value}
use memtoy.Args.Sizes.{scale, size_kmgp}

scale-letter :
    (pagesize ch : ℕ) {f : ℕ}
    → scale pagesize (tolower ch) ≡ some f
    → ltb (digit_value ch) 10 ≡ false
unfolding scale digit_value tolower
scale-letter pagesize ch h = ground arith

-- A positive number below 2^64 in decimal is read as itself, and with a letter behind it that stands
-- for a factor, in either case, as the product modulo 2^64.
pub size_kmgp-decimal :
    (pagesize n ch : ℕ) {f : ℕ}
    → 0 < n
    → n < word
    → scale pagesize (tolower ch) ≡ some f
    → (size_kmgp pagesize (decimal n ++ []) ≡ n)
      × (size_kmgp pagesize (decimal n ++ ch ∷ []) ≡ n * f % word)
unfolding size_kmgp
size_kmgp-decimal pagesize n ch pos h e =
    let open_base : ((0 == 10) || ((0 == 0) && not (n == 0))) ≡ true = ground arith in
    let plain = (strtoul-decimal 0 n [] open_base h end_value).0 in
    let scaled = (strtoul-decimal 0 n (ch ∷ []) open_base h (scale-letter pagesize ch e)).0 in
    (ground arith, ground arith)
