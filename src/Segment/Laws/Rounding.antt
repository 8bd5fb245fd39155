-- ===== src/Segment/Laws/Rounding.antt =====
-- The rounding to page sizes, and the range that an operation works on.
use memtoy.Base.{
  ◌⊎◌, ℕ, ◌+◌, ◌-◌, ◌*◌, ◌/◌, ◌%◌, ◌^◌, ◌≤◌, ◌<◌, ◌≡◌, refl, ap, ◌∙◌, none, some, arith, bit_and,
  word, leb, Bool-cases, inl, inr,
}
use memtoy.Base.Bits.{bit_and-high}
use native.Mathlib.Nat.{one-le-pow, pow-le-pow_right, div-mul-le_self, lt-div-mul-add, mul-mod_left}
use memtoy.Context.{Segment, Range}
use memtoy.Segment.Round.{page_mask, complement, round_up, round_down, clip_length, clip}

module _ (k : ℕ) (small : k < 64) where
  page_pos : 0 < 2 ^ k
  page_pos = one-le-pow k 2 (omega arith)

  page-le : 2 ^ k ≤ 2 ^ 63
  page-le = pow-le-pow_right (let h : 0 < 2 = omega arith in h) {i = k} {j = 63} (omega arith)

  mask-eq : complement (page_mask (2 ^ k)) ≡ word - 2 ^ k
  mask-eq = omega (arith, page_pos, page-le)

  clear_low : (x : ℕ) → x < word → bit_and x (word - 2 ^ k) ≡ x / 2 ^ k * 2 ^ k
  clear_low x h =
      let e : k + (64 - k) ≡ 64 = omega arith in
      let t : bit_and x (2 ^ (k + (64 - k)) - 2 ^ k) ≡ x / 2 ^ k * 2 ^ k =
        bit_and-high (64 - k) k x (rw e h) in
      rw e at t

  -- For a page size that is a power of two, rounding down gives the last multiple up to the size.
  pub round_down-eq : (x : ℕ) → x < word → round_down x (2 ^ k) ≡ x / 2 ^ k * 2 ^ k
  unfolding round_down
  round_down-eq x h = ap (bit_and x) mask-eq ∙ clear_low x h

  pub round_up-eq :
      (x : ℕ) → x + 2 ^ k ≤ word → round_up x (2 ^ k) ≡ (x + (2 ^ k - 1)) / 2 ^ k * 2 ^ k
  unfolding round_up
  round_up-eq x h =
      let m : page_mask (2 ^ k) ≡ 2 ^ k - 1 = omega (arith, page_pos, page-le) in
      let s : (x + page_mask (2 ^ k)) % word ≡ x + (2 ^ k - 1) = omega (arith, m, page_pos) in
      ap (bit_and ((x + page_mask (2 ^ k)) % word)) mask-eq
      ∙ rw s (clear_low (x + (2 ^ k - 1)) (omega (arith, page_pos)))

  -- For a page size that is a power of two and a size that leaves a page of room below 2^64: rounding
  -- up and rounding down both give multiples of the page size less than a page away, from above and
  -- from below.
  pub round_bounds :
      (x : ℕ)
      → x + 2 ^ k ≤ word
      → (x ≤ round_up x (2 ^ k))
        × (round_up x (2 ^ k) < x + 2 ^ k)
        × (round_up x (2 ^ k) % 2 ^ k ≡ 0)
        × (round_down x (2 ^ k) ≤ x)
        × (x < round_down x (2 ^ k) + 2 ^ k)
        × (round_down x (2 ^ k) % 2 ^ k ≡ 0)
  round_bounds x h =
      let p = 2 ^ k in
      let u = x + (p - 1) in
      let eu = round_up-eq x h in
      let ed = round_down-eq x (omega (arith, page_pos)) in
      let au = lt-div-mul-add {a = u} {b = p} page_pos in
      let ad = lt-div-mul-add {a = x} {b = p} page_pos in
      (
        omega (arith, eu, au, page_pos),
        omega (arith, eu, div-mul-le_self u p, page_pos),
        rw eu (mul-mod_left (u / p) p),
        omega (arith, ed, div-mul-le_self x p),
        omega (arith, ed, ad),
        rw ed (mul-mod_left (x / p) p),
      )

  round_down-le : (x : ℕ) → x < word → round_down x (2 ^ k) ≤ x
  round_down-le x h = rw (round_down-eq x h) (div-mul-le_self x (2 ^ k))

-- Whatever the page size, a length is cut down to what the segment has left, and is not 0.
pub clip_length_bounds :
    (length pagesize maxlength : ℕ)
    → 0 < maxlength
    → (0 < clip_length length pagesize maxlength)
      × (clip_length length pagesize maxlength ≤ maxlength)
unfolding clip_length
clip_length_bounds length pagesize maxlength h = ground arith

-- The range that an operation works on lies in the segment and is not empty, and there is none
-- exactly if the offset, rounded down, is past the end.
pub clip_within :
    (r : Range) (s : Segment)
    → ((clip r s ≡ none) × (s.seg_length ≤ round_down r.offset s.seg_pagesize))
      ⊎ ((offset length : ℕ) × (clip r s ≡ some (offset, length))
          × (offset ≡ round_down r.offset s.seg_pagesize)
          × (0 < length)
          × (offset + length ≤ s.seg_length))
unfolding clip
clip_within r s =
    let offset = round_down r.offset s.seg_pagesize in
    let b = clip_length_bounds r.length s.seg_pagesize (s.seg_length - offset) in
    elim (Bool-cases (leb s.seg_length offset)) [
      | inl e ↦ inl (rw e, ground arith)
      | inr e ↦
          let lt : offset < s.seg_length = ground arith in
          let (pos, le) = b (omega arith) in
          inr (
            offset,
            clip_length r.length s.seg_pagesize (s.seg_length - offset),
            rw e,
            refl,
            pos,
            omega arith,
          )
    ]
