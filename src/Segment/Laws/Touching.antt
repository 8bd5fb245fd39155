-- ===== src/Segment/Laws/Touching.antt =====
-- The loop of `touch_memory`: the pages it accesses, and whether it ends.
use memtoy.Base.{
  ℕ, zero, suc, ◌+◌, ◌*◌, ◌/◌, ◌%◌, ◌<◌, ◌≤◌, ◌≡◌, ◌∙◌, refl, Bool, true, false, none, some, List,
  ◌∷◌, word, ltb, arith,
}
use memtoy.Context.{Kernel, Call, Context, value}
use memtoy.Segment.Touch.{finished, unfinished, access_call, touch_one, touch_loop, touch_memory}

-- The history after accesses to `n` longs from `pp` on, `stride` bytes apart.
abbrev pub visited : Bool → ℕ → ℕ → ℕ → List Call → List Call
visited writes zero pp stride trace = trace
visited writes (suc n) pp stride trace =
    visited writes n (pp + stride) stride (access_call writes pp ∷ trace)

module _ (kernel : Kernel) (writes : Bool)
    (quiet : (trace : List Call) (pp : ℕ) → kernel trace (access_call writes pp) ≡ value 0) where
  touch_one-quiet :
      (pp : ℕ) (c : Context)
      → c.siginfo ≡ none
      → touch_one kernel writes pp c
        ≡ (some (record c { sigjmp = false; trace = access_call writes pp ∷ c.trace }), unfinished)
  unfolding touch_one
  touch_one-quiet pp c h = ground (arith, quiet c.trace pp)

  touch_loop-lem :
      (m rounds pp memend stride : ℕ) (c : Context)
      → c.siginfo ≡ none
      → pp + m * stride < memend
      → memend ≤ pp + suc m * stride
      → pp + suc m * stride < word
      → suc m < rounds
      → touch_loop kernel rounds writes pp memend stride c
        ≡ finished (record c { sigjmp = false; trace = visited writes (suc m) pp stride c.trace })
  unfolding touch_loop
  touch_loop-lem zero (suc zero) pp memend stride c h lo hi w r = absurd (omega arith)
  touch_loop-lem m zero pp memend stride c h lo hi w r = absurd (omega arith)
  touch_loop-lem zero (suc (suc rounds)) pp memend stride c h lo hi w r =
      let c1 = record c { sigjmp = false; trace = access_call writes pp ∷ c.trace } in
      let out = touch_loop kernel (suc (suc rounds)) writes pp memend stride c in
      let one = touch_one-quiet pp c h in
      let at : (pp + stride) % word ≡ pp + stride = omega arith in
      let done : ltb ((pp + stride) % word) memend ≡ false = ground arith in
      let more : ltb pp memend ≡ true = ground arith in
      let eq : out ≡ touch_loop kernel (suc rounds) writes (pp + stride) memend stride c1 =
        ground arith in
      eq ∙ ground arith
  touch_loop-lem (suc m) (suc rounds) pp memend stride c h lo hi w r =
      let c1 = record c { sigjmp = false; trace = access_call writes pp ∷ c.trace } in
      let out = touch_loop kernel (suc rounds) writes pp memend stride c in
      let one = touch_one-quiet pp c h in
      let more : ltb pp memend ≡ true = ground arith in
      let at : (pp + stride) % word ≡ pp + stride = omega arith in
      let eq : out ≡ touch_loop kernel rounds writes (pp + stride) memend stride c1 =
        ground arith in
      eq
      ∙ touch_loop-lem m rounds (pp + stride) memend stride c1 h (omega arith) (omega arith)
          (omega arith) (omega arith)

  -- Every access succeeds and no signal is pending; the page size is a positive number of longs and
  -- the addresses do not wrap. Then touching from `memp` on ends within the rounds, and accesses the
  -- first long of each of the `m + 1` pages that the whole longs of the range reach into, in order
  -- and once.
  pub touch_memory-visited :
      (m rounds q memp memlen : ℕ) (c : Context)
      → c.siginfo ≡ none
      → m * (q * 8) < memlen / 8 * 8
      → memlen / 8 * 8 ≤ suc m * (q * 8)
      → memp + suc m * (q * 8) < word
      → suc m < rounds
      → touch_memory kernel rounds writes memp memlen (q * 8) c
        ≡ finished
            (record c { sigjmp = false; trace = visited writes (suc m) memp (q * 8) c.trace })
  unfolding touch_memory
  touch_memory-visited m rounds q memp memlen c h lo hi w r =
      let stride : q * 8 / 8 * 8 ≡ q * 8 = omega arith in
      let memend : (memp + memlen / 8 * 8) % word ≡ memp + memlen / 8 * 8 = omega arith in
      rw (stride, memend)
        (touch_loop-lem m rounds memp (memp + memlen / 8 * 8) (q * 8) c h (omega arith)
          (omega arith) w r)

  endless-lem :
      (rounds pp memend : ℕ) (c : Context)
      → c.siginfo ≡ none
      → pp < memend
      → memend < word
      → touch_loop kernel rounds writes pp memend 0 c ≡ unfinished
  unfolding touch_loop
  endless-lem zero pp memend c h lt w = refl
  endless-lem (suc rounds) pp memend c h lt w =
      let c1 = record c { sigjmp = false; trace = access_call writes pp ∷ c.trace } in
      let one = touch_one-quiet pp c h in
      let out = touch_loop kernel (suc rounds) writes pp memend 0 c in
      let at : (pp + 0) % word ≡ pp = omega arith in
      let more : ltb pp memend ≡ true = ground arith in
      let eq : out ≡ touch_loop kernel rounds writes pp memend 0 c1 = ground arith in
      eq ∙ endless-lem rounds pp memend c1 h lt w

  -- Every access succeeds and no signal is pending; the page size is below 8, the range has at least
  -- 8 bytes and the addresses do not wrap. Then touching does not end in any number of rounds.
  pub touch_memory-endless :
      (rounds memp memlen pagesize : ℕ) (c : Context)
      → c.siginfo ≡ none
      → pagesize < 8
      → 8 ≤ memlen
      → memp + memlen < word
      → touch_memory kernel rounds writes memp memlen pagesize c ≡ unfinished
  unfolding touch_memory
  touch_memory-endless rounds memp memlen pagesize c h small le w =
      let stride : pagesize / 8 * 8 ≡ 0 = omega arith in
      let memend : (memp + memlen / 8 * 8) % word ≡ memp + memlen / 8 * 8 = omega arith in
      rw (stride, memend)
        (endless-lem rounds memp (memp + memlen / 8 * 8) c h (omega arith) (omega arith))
