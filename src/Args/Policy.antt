-- ===== src/Args/Policy.antt =====
-- The policy table, `get_mbind_policy` and `get_mbind_flags` of commands.c.
use memtoy.Base.{
  ℕ, zero, suc, Bool, ◌||◌, Option, none, some, List, [], ◌∷◌, Text, text, first, next, is_empty,
  take_until, drop_until, strncmp_eq, length, ◌==◌, if◌then◌else◌,
}

abbrev pub mpol_default : ℕ
mpol_default = 0

abbrev pub mpol_preferred : ℕ
mpol_preferred = 1

abbrev pub mpol_bind : ℕ
mpol_bind = 2

abbrev pub mpol_interleave : ℕ
mpol_interleave = 3

abbrev pub mpol_noop : ℕ
mpol_noop = 4

abbrev pub mpol_mf_move : ℕ
mpol_mf_move = 2

abbrev pub mpol_mf_move_all : ℕ
mpol_mf_move_all = 4

abbrev pub policies : List (Text × ℕ)
policies =
    (text "default", mpol_default)
    ∷ (text "preferred", mpol_preferred)
    ∷ (text "bind", mpol_bind)
    ∷ (text "interleaved", mpol_interleave)
    ∷ (text "noop", mpol_noop)
    ∷ []

-- `mbind_reject`
abbrev pub mbind_reject : ℕ → Bool
mbind_reject c = (c == 32) || (c == b'+') || (c == 9)

-- The first policy whose name agrees with the first `plen` bytes of the argument.
unfoldable pub find_policy : Text → ℕ → List (Text × ℕ) → Option ℕ
find_policy pol plen [] = none
find_policy pol plen ((name, flag) ∷ r) =
    let rest = find_policy pol plen r in if strncmp_eq pol name plen then some flag else rest

-- The policy, and the value of `*nextarg` where it is assigned. On an error the result is
-- `CMD_ERROR`, which is 1.
unfoldable pub get_mbind_policy : Text → ℕ × Option Text
get_mbind_policy args = elim (find_policy args (length (take_until mbind_reject args)) policies) [
  | none ↦ (1, none)
  | some flag ↦ (flag, some (drop_until mbind_reject args))
]

-- The loop over `+all`; each round takes a byte at least, so a round for each byte is enough.
unfoldable pub all_flags : ℕ → ℕ → Text → Option (ℕ × Text)
all_flags zero flags args = some (flags, args)
all_flags (suc rounds) flags args =
    let arg = next args in
    let rest = all_flags rounds mpol_mf_move_all (drop_until mbind_reject arg) in
    if first args == b'+'
    then (if is_empty arg || (first arg == 32)
        then none
        else if strncmp_eq arg (text "all") (length (take_until mbind_reject arg))
        then rest
        else none)
    else some (flags, args)

-- `none` stands for -1.
unfoldable pub get_mbind_flags : Text → Option (ℕ × Text)
get_mbind_flags args =
    let rest = drop_until mbind_reject args in
    if strncmp_eq args (text "move") (length (take_until mbind_reject args))
    then all_flags (length rest) mpol_mf_move rest
    else none
