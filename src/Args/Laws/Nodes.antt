-- ===== src/Args/Laws/Nodes.antt =====
-- The numbers in the sets of nodes and cpus that the parsers give back.
use memtoy.Base.{
  ℕ, zero, suc, ◌+◌, ◌%◌, ◌^◌, ◌≡◌, refl, Bool, true, false, ◌&&◌, ◌||◌, ◌==◌, Option, none, some,
  List, [], ◌∷◌, Text, next, strtoul, length, ltb, leb, arith, Option-cases, Bool-cases, inl, inr,
}
use memtoy.Args.Masks.{
  Ids, ids, refused, wild, nodemask_loop, get_nodemask, cpu_ids_loop, get_cpuset_from_ids,
  ncpuwords, chunk_loop, get_cpuset_from_mask, exceeds, isset, nodeids_from,
  get_current_nodeid_list, as_int,
}

-- Every number is at most the bound; no number is, where there is no bound.
abbrev pub all_within : Option ℕ → List ℕ → Bool
all_within bound [] = true
all_within none (n ∷ l) = false
all_within (some m) (n ∷ l) = leb n m && all_within (some m) l

abbrev pub ids_within : Option ℕ → Ids → Bool
ids_within bound (ids l) = all_within bound l
ids_within bound refused = true
ids_within bound wild = true

within-more :
    (bound : Option ℕ) (n : ℕ) (seen : List ℕ)
    → exceeds bound n ≡ false
    → all_within bound seen ≡ true
    → all_within bound (n ∷ seen) ≡ true
within-more none n seen x h = cc
within-more (some m) n seen x h = ground arith

nodemask_loop-within :
    (rounds : ℕ) (bound : Option ℕ) (seen : List ℕ) (args : Text)
    → all_within bound seen ≡ true
    → ids_within bound (nodemask_loop rounds bound seen args) ≡ true
unfolding nodemask_loop
nodemask_loop-within zero bound seen args h = refl
nodemask_loop-within (suc rounds) bound seen args h =
    let (number, end) = strtoul 10 args in
    elim (Option-cases (as_int number)) [
      | inl e ↦ ground arith
      | inr (n, e) ↦ elim (Bool-cases (exceeds bound n)) [
        | inl x ↦ ground arith
        | inr x ↦
            let more : all_within bound (n ∷ seen) ≡ true = within-more bound n seen x h in
            ground (arith, nodemask_loop-within rounds bound (n ∷ seen) (next end) more)
      ]
    ]

-- A list that `get_nodemask` accepts has no node above the highest one; it accepts no list where there
-- is no node.
pub get_nodemask-within :
    (bound : Option ℕ) (args : Text) → ids_within bound (get_nodemask bound args) ≡ true
unfolding get_nodemask
get_nodemask-within bound args = nodemask_loop-within (suc (length args)) bound [] args refl

abbrev pub cpus_within : ℕ → Option (List ℕ) → Bool
cpus_within bound none = true
cpus_within bound (some l) = all_within (some bound) l

cpu_ids_loop-within :
    (rounds bound : ℕ) (seen : List ℕ) (args : Text)
    → all_within (some bound) seen ≡ true
    → cpus_within bound (cpu_ids_loop rounds bound seen args) ≡ true
unfolding cpu_ids_loop
cpu_ids_loop-within zero bound seen args h = refl
cpu_ids_loop-within (suc rounds) bound seen args h =
    let (number, end) = strtoul 10 args in
    elim (Option-cases (as_int number)) [
      | inl e ↦ ground (arith, cpu_ids_loop-within rounds bound seen (next end) h)
      | inr (n, e) ↦ elim (Bool-cases (ltb bound n)) [
        | inl x ↦ ground arith
        | inr x ↦
            let more : all_within (some bound) (n ∷ seen) ≡ true = ground arith in
            ground (arith, cpu_ids_loop-within rounds bound (n ∷ seen) (next end) more)
      ]
    ]

-- A list that `get_cpuset_from_ids` accepts has no cpu above the highest one.
pub get_cpuset_from_ids-within :
    (bound : ℕ) (args : Text) → cpus_within bound (get_cpuset_from_ids bound args) ≡ true
unfolding get_cpuset_from_ids
get_cpuset_from_ids-within bound args = cpu_ids_loop-within (suc (length args)) bound [] args refl

abbrev pub words_fit : Option (List ℕ) → Bool
words_fit none = true
words_fit (some l) = leb (length l) ncpuwords

chunk_loop-fits :
    (rounds : ℕ) (chunks : List ℕ) (args : Text)
    → leb (length chunks) ncpuwords ≡ true
    → words_fit (chunk_loop rounds chunks args) ≡ true
unfolding chunk_loop
chunk_loop-fits zero chunks args h = refl
chunk_loop-fits (suc rounds) chunks args h =
    let (number, end) = strtoul 16 args in
    let bits = number % 2 ^ 32 in
    elim (Bool-cases (leb ncpuwords (length chunks))) [
      | inl x ↦ ground arith
      | inr x ↦
          let more : leb (length (bits ∷ chunks)) ncpuwords ≡ true = ground arith in
          ground (
            arith,
            chunk_loop-fits rounds chunks (next end) h,
            chunk_loop-fits rounds (bits ∷ chunks) (next end) more,
          )
    ]

-- `get_cpuset_from_mask` accepts at most `NCPUWORDS` words.
pub get_cpuset_from_mask-fits : (args : Text) → words_fit (get_cpuset_from_mask args) ≡ true
unfolding get_cpuset_from_mask
get_cpuset_from_mask-fits args = chunk_loop-fits (suc (length args)) [] args refl

abbrev pub member : ℕ → List ℕ → Bool
member n [] = false
member n (m ∷ l) = (n == m) || member n l

same :
    (k node bits : ℕ)
    → member node (nodeids_from k (suc node) bits)
      ≡ (leb (suc node) node && ltb node (suc node + k) && isset bits node)
    → member node (nodeids_from (suc k) node bits)
      ≡ (leb node node && ltb node (node + suc k) && isset bits node)
unfolding nodeids_from
same k node bits h = elim (Bool-cases (isset bits node)) [
  | inl e ↦ ground arith
  | inr e ↦ ground arith
]

nodeids_from-member :
    (k node bits n : ℕ)
    → member n (nodeids_from k node bits) ≡ (leb node n && ltb n (node + k) && isset bits n)
unfolding nodeids_from
nodeids_from-member zero node bits n = ground arith
nodeids_from-member (suc k) node bits n =
    let ih = nodeids_from-member k (suc node) bits n in
    elim (Bool-cases (n == node)) [
      | inl e ↦
          (let at : n ≡ node = ground arith in
            rw at (same k node bits (nodeids_from-member k (suc node) bits node)))
      | inr e ↦ ground (arith, ih)
    ]

-- The ids in use are exactly the nodes up to the highest that the mask allows.
pub get_current_nodeid_list-member :
    (max_node bits n : ℕ)
    → member n (get_current_nodeid_list max_node bits) ≡ (leb n max_node && isset bits n)
unfolding get_current_nodeid_list
get_current_nodeid_list-member max_node bits n =
    ground (arith, nodeids_from-member (suc max_node) 0 bits n)
