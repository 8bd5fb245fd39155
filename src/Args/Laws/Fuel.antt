-- ===== src/Args/Laws/Fuel.antt =====
-- The rounds of the loops that parse sets of nodes and cpus.
use memtoy.Base.{
  ℕ, zero, suc, ◌+◌, ◌*◌, ◌≤◌, ◌<◌, ◌≡◌, refl, Bool, false, Option, none, some, List, [], ◌∷◌, Text,
  first, next, is_empty, strtoul, skip, length, ◌==◌, ◌||◌, ◌&&◌, ◌%◌, ◌^◌, arith, if◌then◌else◌,
  Option-cases, Bool-cases, inl, inr,
}
use memtoy.Base.Numbers.{digit_value, is_space, start_digits, read_digits, read_number}
use memtoy.Args.Masks.{
  nodemask_loop, get_nodemask, cpu_ids_loop, get_cpuset_from_ids, as_int, is_zero, is_nil,
  chunk_loop, get_cpuset_from_mask,
}

pub length-skip : (p : ℕ → Bool) (s : Text) → length (skip p s) ≤ length s
unfolding skip
length-skip p [] = omega arith
length-skip p (c ∷ s) = ground (arith, length-skip p s)

length-read_digits : (base n : ℕ) (s : Text) → length (read_digits base n s).1 ≤ length s
unfolding read_digits
length-read_digits base n [] = omega arith
length-read_digits base n (c ∷ s) =
    ground (arith, length-read_digits base (n * base + digit_value c) s)

length-next : (s : Text) → length (next s) ≤ length s
length-next [] = omega arith
length-next (c ∷ s) = omega arith

shorter : (s : Text) → is_empty s ≡ false → length (next s) < length s
shorter [] h = cc
shorter (c ∷ s) h = omega arith

length-start_digits : (base : ℕ) (s : Text) → length (start_digits base s).1 ≤ length s
unfolding start_digits
length-start_digits base s = ground (arith, length-next s, length-next (next s))

length-read_number :
    (base : ℕ) (s : Text) (r : Bool × ℕ × Text)
    → read_number base s ≡ some r
    → length r.2 ≤ length s
unfolding read_number
length-read_number base s (m, n, end) h =
    let t = skip is_space s in
    let minus = first t == b'-' in
    let u = if minus || (first t == b'+') then next t else t in
    let d = start_digits base u in
    let at : (read_digits d.0 0 d.1).1 ≡ end = ground arith in
    ground (
      arith,
      length-skip is_space s,
      length-next t,
      length-start_digits base u,
      length-read_digits d.0 0 d.1,
    )

length-strtoul : (base : ℕ) (s : Text) → length (strtoul base s).1 ≤ length s
unfolding strtoul
length-strtoul base s = elim (Option-cases (read_number base s)) [
  | inl e ↦ ground arith
  | inr (r, e) ↦ ground (arith, length-read_number base s r e)
]

length-next_nonempty :
    (base : ℕ) (args : Text) (rounds : ℕ)
    → is_empty (strtoul base args).1 ≡ false
    → length args < suc rounds
    → length (next (strtoul base args).1) < rounds
length-next_nonempty base args rounds e h =
    omega (arith, length-strtoul base args, shorter (strtoul base args).1 e)

nodemask_loop-rounds :
    (r q : ℕ) (bound : Option ℕ) (seen : List ℕ) (args : Text)
    → length args < r
    → length args < q
    → nodemask_loop r bound seen args ≡ nodemask_loop q bound seen args
unfolding nodemask_loop
nodemask_loop-rounds zero q bound seen args h k = absurd (omega arith)
nodemask_loop-rounds (suc r) zero bound seen args h k = absurd (omega arith)
nodemask_loop-rounds (suc r) (suc q) bound seen args h k =
    let (number, end) = strtoul 10 args in
    elim (Bool-cases (is_empty end)) [
      | inl e ↦ ground arith
      | inr e ↦
          let node : ℕ = elim (as_int number) [ none ↦ 0 | some n ↦ n ] in
          let eq =
            nodemask_loop-rounds r q bound (node ∷ seen) (next end)
              (length-next_nonempty 10 args r e h) (length-next_nonempty 10 args q e k) in
          ground (arith, eq)
    ]

-- More rounds than `get_nodemask` is given change nothing.
pub get_nodemask-rounds :
    (r : ℕ) (bound : Option ℕ) (args : Text)
    → length args < r
    → nodemask_loop r bound [] args ≡ get_nodemask bound args
unfolding get_nodemask
get_nodemask-rounds r bound args h =
    nodemask_loop-rounds r (suc (length args)) bound [] args h (omega arith)

cpu_ids_loop-rounds :
    (r q bound : ℕ) (seen : List ℕ) (args : Text)
    → length args < r
    → length args < q
    → cpu_ids_loop r bound seen args ≡ cpu_ids_loop q bound seen args
unfolding cpu_ids_loop
cpu_ids_loop-rounds zero q bound seen args h k = absurd (omega arith)
cpu_ids_loop-rounds (suc r) zero bound seen args h k = absurd (omega arith)
cpu_ids_loop-rounds (suc r) (suc q) bound seen args h k =
    let (number, end) = strtoul 10 args in
    elim (Bool-cases (is_empty end)) [
      | inl e ↦ ground arith
      | inr e ↦
          let seen' : List ℕ = elim (as_int number) [ none ↦ seen | some n ↦ n ∷ seen ] in
          let eq =
            cpu_ids_loop-rounds r q bound seen' (next end) (length-next_nonempty 10 args r e h)
              (length-next_nonempty 10 args q e k) in
          rw eq refl
    ]

-- More rounds than `get_cpuset_from_ids` is given change nothing.
pub get_cpuset_from_ids-rounds :
    (r bound : ℕ) (args : Text)
    → length args < r
    → cpu_ids_loop r bound [] args ≡ get_cpuset_from_ids bound args
unfolding get_cpuset_from_ids
get_cpuset_from_ids-rounds r bound args h =
    cpu_ids_loop-rounds r (suc (length args)) bound [] args h (omega arith)

chunk_loop-rounds :
    (r q : ℕ) (chunks : List ℕ) (args : Text)
    → length args < r
    → length args < q
    → chunk_loop r chunks args ≡ chunk_loop q chunks args
unfolding chunk_loop
chunk_loop-rounds zero q chunks args h k = absurd (omega arith)
chunk_loop-rounds (suc r) zero chunks args h k = absurd (omega arith)
chunk_loop-rounds (suc r) (suc q) chunks args h k =
    let (number, end) = strtoul 16 args in
    elim (Bool-cases (is_empty end)) [
      | inl e ↦ ground arith
      | inr e ↦
          let bits = number % 2 ^ 32 in
          let chunks' = if is_zero bits && is_nil chunks then chunks else bits ∷ chunks in
          let eq =
            chunk_loop-rounds r q chunks' (next end) (length-next_nonempty 16 args r e h)
              (length-next_nonempty 16 args q e k) in
          rw eq refl
    ]

-- More rounds than `get_cpuset_from_mask` is given change nothing.
pub get_cpuset_from_mask-rounds :
    (r : ℕ) (args : Text) → length args < r → chunk_loop r [] args ≡ get_cpuset_from_mask args
unfolding get_cpuset_from_mask
get_cpuset_from_mask-rounds r args h =
    chunk_loop-rounds r (suc (length args)) [] args h (omega arith)
