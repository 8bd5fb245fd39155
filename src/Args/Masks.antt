-- ===== src/Args/Masks.antt =====
-- `get_cpuset_from_mask`, `get_cpuset_from_ids`, `get_nodemask`, `get_arg_nodemask` and
-- `get_current_nodeid_list` of commands.c. A set of nodes or cpus is the list of its numbers.
use memtoy.Base.{
  ℕ, zero, suc, ◌/◌, ◌%◌, ◌^◌, Bool, true, false, not, ◌&&◌, ◌||◌, Option, none, some, List, [],
  ◌∷◌, Text, first, next, is_empty, is_digit, tolower, strtoul, length, ltb, leb, ◌==◌,
  if◌then◌else◌,
}
use memtoy.Args.Policy.{mpol_default, mpol_preferred, mpol_interleave, mpol_noop}

-- The list of numbers of a set, a refused list, or a write outside the array of bits.
pub data Ids : Type 0 where
  ids : List ℕ → Ids
  refused : Ids
  wild : Ids

-- An `unsigned long` stored in an `int`: its value, or `none` where that is negative.
abbrev pub as_int : ℕ → Option ℕ
as_int v = let w = v % 2 ^ 32 in if ltb w (2 ^ 31) then some w else none

-- `node > max_node`, where `none` stands for a highest node of -1
abbrev pub exceeds : Option ℕ → ℕ → Bool
exceeds none n = true
exceeds (some m) n = ltb m n

-- The loop of `get_nodemask` for a number of rounds: each takes a byte at least. `seen` holds the
-- nodes set so far, the latest first.
unfoldable pub nodemask_loop : ℕ → Option ℕ → List ℕ → Text → Ids
nodemask_loop zero max_node seen args = refused
nodemask_loop (suc rounds) max_node seen args =
    let (number, end) = strtoul 10 args in
    let node : ℕ = elim (as_int number) [ none ↦ 0 | some n ↦ n ] in
    let rest = nodemask_loop rounds max_node (node ∷ seen) (next end) in
    if is_empty args || not (is_digit (first args)) then refused else elim (as_int number) [
      | none ↦ wild
      | some n ↦
          if exceeds max_node n
          then refused
          else if is_empty end
          then ids (n ∷ seen)
          else if first end == b','
          then rest
          else refused
    ]

unfoldable pub get_nodemask : Option ℕ → Text → Ids
get_nodemask max_node args = nodemask_loop (suc (length args)) max_node [] args

-- `none` is the null mask.
pub data ArgMask : Type 0 where
  mask : List ℕ → ArgMask
  null_mask : ArgMask
  bad_mask : ArgMask
  wild_mask : ArgMask

unfoldable pub get_arg_nodemask : Option ℕ → Text → ℕ → ArgMask
get_arg_nodemask max_node args policy =
    if (policy == mpol_default) || (policy == mpol_noop)
    then null_mask
    else if is_empty args
    then bad_mask
    else if not (first args == b'*')
    then (elim (get_nodemask max_node args) [
      | ids l ↦ mask l
      | refused ↦ bad_mask
      | wild ↦ wild_mask
    ])
    else if not (is_empty (next args))
    then bad_mask
    else if (policy == mpol_interleave) || (policy == mpol_preferred)
    then null_mask
    else bad_mask

-- The loop of `get_cpuset_from_ids`. `CPU_SET` ignores a number that no set can hold.
unfoldable pub cpu_ids_loop : ℕ → ℕ → List ℕ → Text → Option (List ℕ)
cpu_ids_loop zero max_cpu seen args = none
cpu_ids_loop (suc rounds) max_cpu seen args =
    let (number, end) = strtoul 10 args in
    let seen' : List ℕ = elim (as_int number) [ none ↦ seen | some n ↦ n ∷ seen ] in
    let too_big : Bool = elim (as_int number) [ none ↦ false | some n ↦ ltb max_cpu n ] in
    let rest = cpu_ids_loop rounds max_cpu seen' (next end) in
    if is_empty args || not (is_digit (first args)) || too_big
    then none
    else if is_empty end
    then some seen'
    else if first end == b','
    then rest
    else none

unfoldable pub get_cpuset_from_ids : ℕ → Text → Option (List ℕ)
get_cpuset_from_ids max_cpu args = cpu_ids_loop (suc (length args)) max_cpu [] args

abbrev pub is_zero : ℕ → Bool
is_zero n = n == 0

abbrev pub is_nil : List ℕ → Bool
is_nil [] = true
is_nil (x ∷ l) = false

-- `NCPUWORDS`
abbrev pub ncpuwords : ℕ
ncpuwords = 32

-- The chunks read by `get_cpuset_from_mask`, the latest first, which is the order of the words.
unfoldable pub chunk_loop : ℕ → List ℕ → Text → Option (List ℕ)
chunk_loop zero chunks args = none
chunk_loop (suc rounds) chunks args =
    let (number, end) = strtoul 16 args in
    let bits = number % 2 ^ 32 in
    let chunks' = if is_zero bits && is_nil chunks then chunks else bits ∷ chunks in
    let rest = chunk_loop rounds chunks' (next end) in
    if is_empty args
    then some chunks
    else if not (first args == b'0') && not (tolower (first (next args)) == b'x')
    then none
    else if leb ncpuwords (length chunks)
    then none
    else if is_empty end
    then some chunks'
    else if first end == b','
    then rest
    else none

unfoldable pub get_cpuset_from_mask : Text → Option (List ℕ)
get_cpuset_from_mask args = chunk_loop (suc (length args)) [] args

-- `nodemask_isset` on a mask of bits
abbrev pub isset : ℕ → ℕ → Bool
isset bits node = bits / 2 ^ node % 2 == 1

-- The nodes of the mask from `node` on, for as many as are left.
unfoldable pub nodeids_from : ℕ → ℕ → ℕ → List ℕ
nodeids_from zero node bits = []
nodeids_from (suc k) node bits =
    let rest = nodeids_from k (suc node) bits in if isset bits node then node ∷ rest else rest

-- The ids of the nodes from 0 to the highest that the mask allows.
unfoldable pub get_current_nodeid_list : ℕ → ℕ → List ℕ
get_current_nodeid_list max_node bits = nodeids_from (suc max_node) 0 bits
