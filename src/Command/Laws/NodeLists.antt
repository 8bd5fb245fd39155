-- ===== src/Command/Laws/NodeLists.antt =====
-- The counts, lists and masks of nodes and cpus.
use memtoy.Base.{
  sym, ℕ, zero, suc, ◌+◌, ◌*◌, ◌^◌, ◌/◌, ◌%◌, ◌≤◌, ◌<◌, ◌≡◌, refl, ap, ◌∙◌, Bool, true, false, ◌&&◌,
  some, List, [], ◌∷◌, length, ltb, ◌==◌, arith, Option-cases, Bool-cases, inl, inr,
}
use memtoy.Base.Ors.{bit-or, bit-pow, bit-zero, mod-split}
use memtoy.Base.Bits.{pow-add}
use memtoy.Context.{Outcome, Kernel, Call, value, Context, tell, crashed, out_of_bounds}
use native.Mathlib.Nat.{one-le-pow, add-mul, mul_assoc, mul_comm, mod-eq_of_lt}
use memtoy.Args.Masks.{isset, nodeids_from, get_current_nodeid_list}
use memtoy.Args.Laws.Nodes.{member}
use memtoy.Command.Common.{numa_supported}
use memtoy.Command.Nodes.{
  mask_of, count_nodes, top_node, allowed, refresh_mems_allowed, node_sizes, numa_info,
  get_current_nodemask,
}
use memtoy.Command.Policies.{shown_words}

-- The mask allows all nodes from `node` on, for as many as are left.
abbrev pub all_set : ℕ → ℕ → ℕ → Bool
all_set zero node bits = true
all_set (suc k) node bits = isset bits node && all_set k (suc node) bits

-- A write outside an array.
abbrev pub overflows : Outcome → Bool
overflows (crashed out_of_bounds) = true
overflows other = false

count_nodes-length : (k node bits : ℕ) → count_nodes k node bits ≡ length (nodeids_from k node bits)
unfolding count_nodes nodeids_from
count_nodes-length zero node bits = refl
count_nodes-length (suc k) node bits = ground (arith, count_nodes-length k (suc node) bits)

length-nodeids_from : (k node bits : ℕ) → length (nodeids_from k node bits) ≤ k
unfolding nodeids_from
length-nodeids_from zero node bits = omega arith
length-nodeids_from (suc k) node bits = ground (arith, length-nodeids_from k (suc node) bits)

nodeids_from-full :
    (k node bits : ℕ) → (length (nodeids_from k node bits) == k) ≡ all_set k node bits
unfolding nodeids_from
nodeids_from-full zero node bits = refl
nodeids_from-full (suc k) node bits =
    ground (arith, nodeids_from-full k (suc node) bits, length-nodeids_from k (suc node) bits)

module _ (kernel : Kernel) where
  -- Where the mask of nodes can be read, the number of nodes that `migrate` counts in it is the length
  -- of the list that `numa` makes of it.
  pub get_current_nodemask-count :
      (c : Context) {n bits : ℕ} {d : Context}
      → get_current_nodemask kernel c ≡ some (n, bits, d)
      → n ≡ length (get_current_nodeid_list (top_node c) bits)
  unfolding get_current_nodemask get_current_nodeid_list
  get_current_nodemask-count c {n} {bits} h = elim (Option-cases (refresh_mems_allowed kernel c)) [
    | inl e ↦ ground arith
    | inr (c2, e) ↦ ground (arith, count_nodes-length (suc (top_node c)) 0 bits)
  ]

  node_sizes-returns : (l : List ℕ) (c : Context) → overflows (node_sizes kernel l c).0 ≡ false
  unfolding node_sizes
  node_sizes-returns [] c = refl
  node_sizes-returns (n ∷ l) c =
      ground (arith, node_sizes-returns l (tell (Call.numa_node_size n) c))

  -- With NUMA support, where memory is left and the mask of nodes can be read: `numa` writes behind
  -- its array of node ids if every node up to the highest is allowed, and only then.
  pub numa_info-overflow :
      (c c2 : Context) {v : ℕ}
      → numa_supported c ≡ true
      → kernel c.trace Call.calloc ≡ value v
      → refresh_mems_allowed kernel (tell Call.calloc c) ≡ some c2
      → overflows (numa_info kernel c).0 ≡ all_set (suc (top_node c)) 0 (allowed c2)
  unfolding numa_info get_current_nodeid_list
  numa_info-overflow c c2 hn hv hr =
      let m = top_node c in
      let bits = allowed c2 in
      let nodes = nodeids_from (suc m) 0 bits in
      let same = nodeids_from-full (suc m) 0 bits in
      let bound = length-nodeids_from (suc m) 0 bits in
      elim (Bool-cases (all_set (suc m) 0 bits)) [
        | inl full ↦
            let much : ltb m (length nodes) ≡ true = ground arith in
            rw (hn, hr, hv, much, numa_info) (sym full)
        | inr part ↦
            let few : ltb m (length nodes) ≡ false = ground arith in
            rw (hn, hr, hv, few, numa_info) (node_sizes-returns nodes c2 ∙ sym part)
      ]

-- The mask that `migrate` and `mems` make of a list of nodes, and `cpus` of a list of cpus, has the
-- numbers of the list and no others.
pub isset-mask_of : (n : ℕ) (l : List ℕ) → isset (mask_of l) n ≡ member n l
unfolding mask_of
isset-mask_of n [] = ground (arith, bit-zero n)
isset-mask_of n (m ∷ l) =
    ground (arith, isset-mask_of n l, bit-or n (2 ^ m) (mask_of l), bit-pow n m)

-- The number that words with the highest first stand for.
abbrev pub read_words : ℕ → List ℕ → ℕ
read_words acc [] = acc
read_words acc (w ∷ l) = read_words (acc * 2 ^ 32 + w) l

word_at : ℕ → ℕ → ℕ
word_at k bits = bits / 2 ^ (32 * k) % 2 ^ 32

pow-words : (k : ℕ) → 2 ^ (32 * suc k) ≡ 2 ^ (32 * k) * 2 ^ 32
pow-words k =
    let e : 32 * suc k ≡ 32 + 32 * k = omega arith in ap (λ n. 2 ^ n) e ∙ pow-add 32 (32 * k)

-- One more word in front of the others.
one_word :
    (k acc bits : ℕ)
    → (acc * 2 ^ 32 + word_at k bits) * 2 ^ (32 * k) + bits % 2 ^ (32 * k)
      ≡ acc * 2 ^ (32 * suc k) + bits % 2 ^ (32 * suc k)
unfolding word_at
one_word k acc bits =
    let p = 2 ^ (32 * k) in
    let w = word_at k bits in
    let split : bits % (p * 2 ^ 32) ≡ w * p + bits % p =
      mod-split p bits (one-le-pow (32 * k) 2 (omega arith)) in
    let e1 = add-mul (acc * 2 ^ 32) w p in
    let e2 = mul_assoc acc (2 ^ 32) p in
    let e3 : acc * (2 ^ 32 * p) ≡ acc * (p * 2 ^ 32) = ap (λ x. acc * x) (mul_comm (2 ^ 32) p) in
    rw (pow-words k) (omega (arith, split, e1, e2, e3))

shown_words-any :
    (k acc bits : ℕ)
    → read_words acc (shown_words k true bits) ≡ acc * 2 ^ (32 * k) + bits % 2 ^ (32 * k)
unfolding shown_words word_at
shown_words-any zero acc bits = omega arith
shown_words-any (suc k) acc bits =
    let w = word_at k bits in
    let eq : shown_words (suc k) true bits ≡ w ∷ shown_words k true bits = ground arith in
    ap (read_words acc) eq ∙ shown_words-any k (acc * 2 ^ 32 + w) bits ∙ one_word k acc bits

shown_words-none : (k bits : ℕ) → read_words 0 (shown_words k false bits) ≡ bits % 2 ^ (32 * k)
unfolding shown_words word_at
shown_words-none zero bits = omega arith
shown_words-none (suc k) bits =
    let w = word_at k bits in
    let p = 2 ^ (32 * k) in
    let step = one_word k 0 bits in
    elim (Bool-cases (w == 0)) [
      | inl e ↦
          let eq : shown_words (suc k) false bits ≡ shown_words k false bits = ground arith in
          let z : w ≡ 0 = ground arith in
          let none_here : (0 * 2 ^ 32 + w) * p ≡ 0 =
            ap (λ x. (0 * 2 ^ 32 + x) * p) z ∙ omega arith in
          ap (read_words 0) eq ∙ shown_words-none k bits ∙ omega (arith, none_here, step)
      | inr e ↦
          let eq : shown_words (suc k) false bits ≡ w ∷ shown_words k true bits = ground arith in
          ap (read_words 0) eq ∙ shown_words-any k (0 * 2 ^ 32 + w) bits ∙ omega (arith, step)
    ]

-- The words that `cpus` prints, read as one number with the highest word first, are the mask, where it
-- fits into the `cpu_set_t`; the leading zero words that are left out change nothing.
pub shown_words-roundtrip :
    (k bits : ℕ) → bits < 2 ^ (32 * k) → read_words 0 (shown_words k false bits) ≡ bits
shown_words-roundtrip k bits h = shown_words-none k bits ∙ mod-eq_of_lt h
