-- ===== src/Args/Laws/Flags.antt =====
-- The rounds of the loop over the flags of `mbind`.
use memtoy.Base.{
  ℕ, zero, suc, ◌≤◌, ◌≡◌, refl, Bool, none, [], ◌∷◌, Text, text, take_until, drop_until, strncmp_eq,
  length, arith, if◌then◌else◌,
}
use memtoy.Args.Policy.{mbind_reject, all_flags, get_mbind_flags, mpol_mf_move, mpol_mf_move_all}

pub length-drop_until : (p : ℕ → Bool) (s : Text) → length (drop_until p s) ≤ length s
unfolding drop_until
length-drop_until p [] = omega arith
length-drop_until p (c ∷ s) = ground (arith, length-drop_until p s)

all_flags-rounds :
    (r q flags : ℕ) (args : Text)
    → length args ≤ r
    → length args ≤ q
    → all_flags r flags args ≡ all_flags q flags args
unfolding all_flags
all_flags-rounds zero zero flags [] h k = refl
all_flags-rounds zero (suc q) flags [] h k = refl
all_flags-rounds (suc r) zero flags [] h k = refl
all_flags-rounds (suc r) (suc q) flags [] h k = refl
all_flags-rounds zero q flags (b ∷ args) h k = absurd (omega arith)
all_flags-rounds (suc r) zero flags (b ∷ args) h k = absurd (omega arith)
all_flags-rounds (suc r) (suc q) flags (b ∷ args) h k =
    let le = length-drop_until mbind_reject args in
    let eq =
      all_flags-rounds r q mpol_mf_move_all (drop_until mbind_reject args) (omega arith)
        (omega arith) in
    ground (arith, eq)

-- `get_mbind_flags` refuses what is no abbreviation of "move", and else gives the result of its loop
-- with any number of rounds from the length of the text on.
pub get_mbind_flags-rounds :
    (r : ℕ) (args : Text)
    → length args ≤ r
    → get_mbind_flags args ≡ (
        if strncmp_eq args (text "move") (length (take_until mbind_reject args))
        then all_flags r mpol_mf_move (drop_until mbind_reject args)
        else none)
unfolding get_mbind_flags
get_mbind_flags-rounds r args h =
    let rest = drop_until mbind_reject args in
    let le = length-drop_until mbind_reject args in
    ground (arith, all_flags-rounds (length rest) r mpol_mf_move rest (omega arith) (omega arith))
