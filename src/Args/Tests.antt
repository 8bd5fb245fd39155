-- ===== src/Args/Tests.antt =====
-- The theorems on the parsers of arguments at concrete texts.
use memtoy.Base.{◌∷◌, ◌++◌, ◌*◌, ◌^◌, ◌%◌, word, tolower, refl, ◌≡◌, true, some, [], arith}
use memtoy.Base.Decimals.{decimal}
use memtoy.Args.Sizes.{scale, size_kmgp}
use memtoy.Args.Laws.Scaled.{size_kmgp-decimal}
use memtoy.Args.Masks.{ids, get_nodemask}
use memtoy.Args.Laws.Lists.{comma_list, onto, all_within, get_nodemask-comma_list}

three_within : all_within 7 (0 ∷ 2 ∷ 5 ∷ []) ≡ true
three_within = ground arith

get_nodemask-comma_list_example :
    get_nodemask (some 7) (comma_list 0 (2 ∷ 5 ∷ [])) ≡ ids (onto [] (0 ∷ 2 ∷ 5 ∷ []))
get_nodemask-comma_list_example =
    get_nodemask-comma_list 7 0 (2 ∷ 5 ∷ []) (omega arith) three_within

mega : scale 4096 (tolower b'M') ≡ some (2 ^ 20)
unfolding scale tolower
mega = refl

size_kmgp-decimal_example :
    (size_kmgp 4096 (decimal 64 ++ []) ≡ 64)
    × (size_kmgp 4096 (decimal 64 ++ b'M' ∷ []) ≡ 64 * 2 ^ 20 % word)
size_kmgp-decimal_example = size_kmgp-decimal 4096 64 b'M' (omega arith) (omega arith) mega
