-- ===== src/Args/Laws/Lists.antt =====
-- Lists of nodes as a user writes them.
use memtoy.Base.{
  ℕ, zero, suc, ◌^◌, ◌≤◌, ◌<◌, ◌≡◌, refl, ◌∙◌, Bool, true, false, ◌&&◌, some, List, [], ◌∷◌, ◌++◌,
  Text, first, is_empty, is_digit, strtoul, length, leb, arith,
}
use memtoy.Base.Lists.{length-append}
use memtoy.Base.Decimals.{decimal, strtoul-decimal, end_value, comma_value}
use memtoy.Args.Masks.{ids, as_int, nodemask_loop, get_nodemask}

-- The numbers in decimal, with commas between them.
abbrev pub comma_list : ℕ → List ℕ → Text
comma_list n [] = decimal n ++ []
comma_list n (m ∷ l) = decimal n ++ b',' ∷ comma_list m l

-- The numbers in front of the others, the last one first.
abbrev pub onto : List ℕ → List ℕ → List ℕ
onto seen [] = seen
onto seen (n ∷ l) = onto (n ∷ seen) l

abbrev pub all_within : ℕ → List ℕ → Bool
all_within top [] = true
all_within top (n ∷ l) = leb n top && all_within top l

as_int-small : (n : ℕ) → n < 2 ^ 31 → as_int n ≡ some n
as_int-small n h = ground arith

length-comma_list : (n : ℕ) (l : List ℕ) → length l ≤ length (comma_list n l)
length-comma_list n [] = omega arith
length-comma_list n (m ∷ l) =
    omega (arith, length-append (decimal n) (b',' ∷ comma_list m l), length-comma_list m l)

-- A text that starts with a number.
module _ (args : Text) (n : ℕ) (digit : is_digit (first args) ≡ true)
    (front : is_empty args ≡ false) where
  nodemask_loop-last :
      (k top : ℕ) (seen : List ℕ)
      → strtoul 10 args ≡ (n, [])
      → n ≤ top
      → top < 2 ^ 31
      → nodemask_loop (suc k) (some top) seen args ≡ ids (n ∷ seen)
  unfolding nodemask_loop
  nodemask_loop-last k top seen e h t = let int = as_int-small n (omega arith) in ground arith

  nodemask_loop-comma :
      (k top : ℕ) (seen : List ℕ) (rest : Text)
      → strtoul 10 args ≡ (n, b',' ∷ rest)
      → n ≤ top
      → top < 2 ^ 31
      → nodemask_loop (suc k) (some top) seen args ≡ nodemask_loop k (some top) (n ∷ seen) rest
  unfolding nodemask_loop
  nodemask_loop-comma k top seen rest e h t = let int = as_int-small n (omega arith) in ground arith

nodemask_loop-list :
    (k top : ℕ) (seen : List ℕ) (n : ℕ) (l : List ℕ)
    → top < 2 ^ 31
    → length l < k
    → all_within top (n ∷ l) ≡ true
    → nodemask_loop k (some top) seen (comma_list n l) ≡ ids (onto (n ∷ seen) l)
nodemask_loop-list zero top seen n l ht hk h = absurd (omega arith)
nodemask_loop-list (suc k) top seen n [] ht hk h =
    let small : n ≤ top = ground arith in
    let (read, digit, front) = strtoul-decimal 10 n [] refl (omega arith) end_value in
    nodemask_loop-last (decimal n ++ []) n digit front k top seen read small ht
nodemask_loop-list (suc k) top seen n (m ∷ l) ht hk h =
    let rest = b',' ∷ comma_list m l in
    let small : n ≤ top = ground arith in
    let (read, digit, front) = strtoul-decimal 10 n rest refl (omega arith) comma_value in
    let others : all_within top (m ∷ l) ≡ true = ground arith in
    let ih = nodemask_loop-list k top (n ∷ seen) m l ht (omega arith) others in
    nodemask_loop-comma (decimal n ++ rest) n digit front k top seen (comma_list m l) read small ht
    ∙ ih

-- A list of nodes in decimal with commas between them, none above the highest node and that below
-- 2^31, is read as these nodes, the last one first.
pub get_nodemask-comma_list :
    (top n : ℕ) (l : List ℕ)
    → top < 2 ^ 31
    → all_within top (n ∷ l) ≡ true
    → get_nodemask (some top) (comma_list n l) ≡ ids (onto [] (n ∷ l))
unfolding get_nodemask
get_nodemask-comma_list top n l ht h =
    nodemask_loop-list (suc (length (comma_list n l))) top [] n l ht
      (omega (arith, length-comma_list n l)) h
