-- ===== src/Segment/Map.antt =====
-- `map_anon_segment`, `file_size`, `map_file_segment`, `map_shm_segment` and `segment_map` of
-- segment.c.
use memtoy.Base.{
  ℕ, ◌+◌, ◌-◌, ◌%◌, Bool, true, false, Option, none, some, Text, bit_or, word, ltb, ◌==◌, not,
  if◌then◌else◌,
}
use memtoy.Context.{
  segt_none, segt_anon, segt_file, segt_shm, Segment, Range, Kernel, failed, value, Call, Context,
  sys, segment_at, put_segment, map_private, map_fixed, map_anonymous, map_failed, bogus_size,
}
use memtoy.Segment.Round.{round_up, round_down}
use memtoy.Segment.Slots.{segment_get}

-- The page size, and length and offset aligned to it.
abbrev pub aligned : ℕ → Segment → Segment
aligned pagesize s = record s {
  seg_pagesize = pagesize;
  seg_length = round_up s.seg_length pagesize;
  seg_offset = round_down s.seg_offset pagesize;
}

-- `if (!flags) flags = MAP_PRIVATE;`
abbrev pub or_private : ℕ → ℕ
or_private flags = if flags == 0 then map_private else flags

module _ (kernel : Kernel) where
  unfoldable pub map_anon_segment : ℕ → Context → Bool × Context
  map_anon_segment p c =
      let s = aligned c.pagesize (segment_at c p) in
      let flags = or_private s.seg_flags in
      let flags' = if s.seg_offset == 0 then flags else bit_or flags map_fixed in
      let (reply, c') =
        sys kernel
          (Call.mmap s.seg_offset s.seg_length s.seg_prot (bit_or flags' map_anonymous) (some 0) 0)
          c in
      elim reply [
        | failed e ↦ (false, put_segment p s c')
        | value addr ↦ (true, put_segment p (record s { seg_start = addr }) c')
      ]

  unfoldable pub file_size : Option ℕ → Context → ℕ × Context
  file_size fd c =
      let (reply, c') = sys kernel (Call.fstat fd) c in
      (elim reply [ failed e ↦ bogus_size | value size ↦ size ], c')

  -- The part behind the fetch of the file's size.
  unfoldable pub map_file_range : ℕ → Segment → ℕ → Context → Bool × Context
  map_file_range p s size c =
      let offset = round_down s.seg_offset s.seg_pagesize in
      let length =
        if s.seg_length == 0
        then (round_up size s.seg_pagesize + word - offset) % word
        else round_up s.seg_length s.seg_pagesize in
      let s' = record s { seg_offset = offset; seg_length = length } in
      let (reply, c') =
        sys kernel (Call.mmap 0 length s.seg_prot (or_private s.seg_flags) s.seg_fd offset) c in
      if ltb size offset
      then (false, put_segment p (record s { seg_offset = offset }) c)
      else elim reply [
        | failed e ↦ (false, put_segment p s' c')
        | value addr ↦ (true, put_segment p (record s' { seg_start = addr }) c')
      ]

  unfoldable pub map_file_segment : ℕ → Context → Bool × Context
  map_file_segment p c =
      let s = aligned c.pagesize (segment_at c p) in
      elim (s.seg_fd) [
        | none ↦ (false, put_segment p s c)
        | some fd ↦ let (size, c') = file_size (some fd) c in map_file_range p s size c'
      ]

  -- `shmat` reports a failure by the address that stands for "not mapped".
  unfoldable pub map_shm_segment : ℕ → Context → Bool × Context
  map_shm_segment p c =
      let s = segment_at c p in
      let (reply, c') = sys kernel (Call.shmat s.seg_shmid) c in
      let addr : ℕ = elim reply [ failed e ↦ map_failed | value a ↦ a ] in
      (not (addr == map_failed), put_segment p (record s { seg_start = addr }) c')

  -- The switch of `segment_map` over the segment type.
  unfoldable pub map_by_type : ℕ → Option Range → ℕ → Context → Bool × Context
  map_by_type p range flags c =
      let s = segment_at c p in
      let s' = record s { seg_flags = if flags == 0 then s.seg_flags else flags } in
      elim (s.seg_type) [
        | segt_anon ↦ map_anon_segment p (put_segment p s' c)
        | segt_file ↦ elim range [
          | none ↦ map_file_segment p (put_segment p s' c)
          | some r ↦
              map_file_segment p
                (put_segment p (record s' { seg_offset = r.offset; seg_length = r.length }) c)
        ]
        | segt_shm ↦ map_shm_segment p c
        | segt_none ↦ (false, c)
      ]

  unfoldable pub segment_map : Text → Option Range → ℕ → Context → Bool × Context
  segment_map name range flags c =
      let (found, c') = segment_get kernel name c in
      elim found [
        | none ↦ (false, c')
        | some p ↦
            if (segment_at c' p).seg_start == map_failed
            then map_by_type p range flags c'
            else (true, c')
      ]
