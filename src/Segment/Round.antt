-- ===== src/Segment/Round.antt =====
-- `round_up_to_segment_pagesize`, `round_down_to_segment_pagesize` of segment.c, and the
-- part of `segment_touch`, `segment_mbind`, `segment_location` and `segment_lock_unlock` that cuts
-- a range down to the segment.
use memtoy.Base.{
  ℕ, ◌+◌, ◌-◌, ◌%◌, ◌||◌, Option, none, some, bit_and, word, ltb, leb, ◌==◌, if◌then◌else◌,
}
use memtoy.Context.{Segment, Range}

-- `seg_pagesize - 1` as a `size_t`
abbrev pub page_mask : ℕ → ℕ
page_mask pagesize = (pagesize + word - 1) % word

-- `~mask`
abbrev pub complement : ℕ → ℕ
complement mask = word - 1 - mask

unfoldable pub round_up : ℕ → ℕ → ℕ
round_up size pagesize =
    bit_and ((size + page_mask pagesize) % word) (complement (page_mask pagesize))

unfoldable pub round_down : ℕ → ℕ → ℕ
round_down size pagesize = bit_and size (complement (page_mask pagesize))

-- The length to work on: the rest of the segment, if the range gives none or a longer one.
unfoldable pub clip_length : ℕ → ℕ → ℕ → ℕ
unfolding round_up
clip_length length pagesize maxlength =
    let rounded = if length == 0 then length else round_up length pagesize in
    if (rounded == 0) || ltb maxlength rounded then maxlength else rounded

-- Offset and length, or `none` for an offset past the end of the segment.
unfoldable pub clip : Range → Segment → Option (ℕ × ℕ)
unfolding round_down clip_length
clip r s =
    let offset = round_down r.offset s.seg_pagesize in
    if leb s.seg_length offset
    then none
    else some (offset, clip_length r.length s.seg_pagesize (s.seg_length - offset))
