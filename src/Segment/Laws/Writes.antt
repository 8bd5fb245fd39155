-- ===== src/Segment/Laws/Writes.antt =====
-- What the three ways to map a segment write to its slot.
use memtoy.Base.{
  ℕ, ◌<◌, ◌+◌, ◌-◌, ◌%◌, ◌≡◌, refl, sym, ap, ◌∙◌, false, Option, some, word, length,
  get_or-set_self, set, set-set, set-get_or, ltb, ◌==◌, bit_or, arith, Option-cases, Bool-cases,
  ◌⊎◌, inl, inr, if◌then◌else◌,
}
use memtoy.Context.{
  SegType, segt_none, segt_anon, segt_file, segt_shm, Segment, blank, Range, Kernel, Call, Context,
  failed, value, Reply-cases, segment_at, put_segment, map_failed,
}
use memtoy.Segment.Round.{round_up, round_down}
use memtoy.Segment.Map.{
  aligned, or_private, map_anon_segment, file_size, map_file_range, map_file_segment,
  map_shm_segment, map_by_type,
}
use memtoy.Segment.Valid.Updates.{IsValid, IsValid-same}
use memtoy.Segment.Valid.Free.{put_segment-IsValid}

-- At most the one slot has changed, and it keeps its name, type and number.
abbrev pub Written : ℕ → Context → Context → Type 0
Written p c c' =
    (s : Segment) × (c'.seglist ≡ set c.seglist p s)
    × (s.seg_name ≡ (segment_at c p).seg_name)
    × (s.seg_type ≡ (segment_at c p).seg_type)
    × (s.seg_slot ≡ (segment_at c p).seg_slot)
    × (c'.seg_avail ≡ c.seg_avail)

pub Written-IsValid :
    (p : ℕ) (c c' : Context) → p < length c.seglist → IsValid c → Written p c c' → IsValid c'
Written-IsValid p c c' lt v (s, a, en, et, es, w) =
    IsValid-same (put_segment p s c) c' a w (put_segment-IsValid p s c en et es lt v)

Written-put :
    (p : ℕ) (s : Segment) (c c' : Context)
    → p < length c.seglist
    → s.seg_name ≡ (segment_at c p).seg_name
    → s.seg_type ≡ (segment_at c p).seg_type
    → s.seg_slot ≡ (segment_at c p).seg_slot
    → Written p (put_segment p s c) c'
    → Written p c c'
Written-put p s c c' lt en et es (t, a, n, y, o, w) =
    let at : segment_at (put_segment p s c) p ≡ s = get_or-set_self c.seglist p s (blank p) lt in
    (
      t,
      a ∙ set-set c.seglist p s t,
      n ∙ ap (λ x. x.seg_name) at ∙ en,
      y ∙ ap (λ x. x.seg_type) at ∙ et,
      o ∙ ap (λ x. x.seg_slot) at ∙ es,
      w,
    )

SegType-cases :
    (t : SegType) → (t ≡ segt_none) ⊎ ((t ≡ segt_anon) ⊎ ((t ≡ segt_file) ⊎ (t ≡ segt_shm)))
SegType-cases segt_none = inl refl
SegType-cases segt_anon = inr (inl refl)
SegType-cases segt_file = inr (inr (inl refl))
SegType-cases segt_shm = inr (inr (inr refl))

module _ (kernel : Kernel) (p : ℕ) where
  map_anon_segment-Written : (c : Context) → Written p c (map_anon_segment kernel p c).1
  unfolding map_anon_segment
  map_anon_segment-Written c =
      let s = aligned c.pagesize (segment_at c p) in
      let flags = or_private s.seg_flags in
      let flags' = if s.seg_offset == 0 then flags else bit_or flags 0x10 in
      let call = Call.mmap s.seg_offset s.seg_length s.seg_prot (bit_or flags' 0x20) (some 0) 0 in
      elim (Reply-cases (kernel c.trace call)) [
        | inl (e, h) ↦ rw (h, map_anon_segment) (s, refl, refl, refl, refl, refl)
        | inr (a, h) ↦
            rw (h, map_anon_segment) (record s { seg_start = a }, refl, refl, refl, refl, refl)
      ]

  map_file_range-Written :
      (s : Segment) (size : ℕ) (c : Context)
      → s.seg_name ≡ (segment_at c p).seg_name
      → s.seg_type ≡ (segment_at c p).seg_type
      → s.seg_slot ≡ (segment_at c p).seg_slot
      → Written p c (map_file_range kernel p s size c).1
  unfolding map_file_range
  map_file_range-Written s size c en et es =
      let offset = round_down s.seg_offset s.seg_pagesize in
      let length' =
        if s.seg_length == 0
        then (round_up size s.seg_pagesize + word - offset) % word
        else round_up s.seg_length s.seg_pagesize in
      let s' = record s { seg_offset = offset; seg_length = length' } in
      let call = Call.mmap 0 length' s.seg_prot (or_private s.seg_flags) s.seg_fd offset in
      elim (Bool-cases (ltb size offset)) [
        | inl m ↦ rw (m, map_file_range) (record s { seg_offset = offset }, refl, en, et, es, refl)
        | inr m ↦ elim (Reply-cases (kernel c.trace call)) [
          | inl (e, h) ↦ rw (m, map_file_range) (rw h (s', refl, en, et, es, refl))
          | inr (a, h) ↦
              rw (m, map_file_range) (rw h (record s' { seg_start = a }, refl, en, et, es, refl))
        ]
      ]

  map_file_segment-Written : (c : Context) → Written p c (map_file_segment kernel p c).1
  unfolding map_file_segment file_size
  map_file_segment-Written c =
      let s = aligned c.pagesize (segment_at c p) in
      elim (Option-cases s.seg_fd) [
        | inl e ↦ rw (e, map_file_segment) (s, refl, refl, refl, refl, refl)
        | inr (fd, e) ↦
            let q = file_size kernel (some fd) c in
            rw (e, map_file_segment) (map_file_range-Written s q.0 q.1 refl refl refl)
      ]

  map_shm_segment-Written : (c : Context) → Written p c (map_shm_segment kernel p c).1
  unfolding map_shm_segment
  map_shm_segment-Written c =
      let s = segment_at c p in
      let addr : ℕ = elim (kernel c.trace (Call.shmat s.seg_shmid)) [
        | failed e ↦ map_failed
        | value a ↦ a
      ] in
      (record s { seg_start = addr }, refl, refl, refl, refl, refl)

  pub map_by_type-Written :
      (range : Option Range) (flags : ℕ) (c : Context)
      → p < length c.seglist
      → Written p c (map_by_type kernel p range flags c).1
  unfolding map_by_type
  map_by_type-Written range flags c lt =
      let s = segment_at c p in
      let s' = record s { seg_flags = if flags == 0 then s.seg_flags else flags } in
      let t : Range → Segment = λ r. record s' { seg_offset = r.offset; seg_length = r.length } in
      let out = map_by_type kernel p range flags c in
      elim (SegType-cases s.seg_type) [
        | inl e ↦
            let eq : out ≡ (false, c) = ground arith in
            rw eq (s, sym (set-get_or c.seglist p (blank p) lt), refl, refl, refl, refl)
        | inr (inl e) ↦
            let m = map_anon_segment kernel p (put_segment p s' c) in
            let eq : out ≡ m = ground arith in
            rw eq (
              Written-put p s' c m.1 lt refl refl refl
                (map_anon_segment-Written (put_segment p s' c)))
        | inr (inr (inl e)) ↦ elim (Option-cases range) [
          | inl n ↦
              let m = map_file_segment kernel p (put_segment p s' c) in
              let eq : out ≡ m = ground arith in
              rw eq (
                Written-put p s' c m.1 lt refl refl refl
                  (map_file_segment-Written (put_segment p s' c)))
          | inr (r, n) ↦
              let m = map_file_segment kernel p (put_segment p (t r) c) in
              let eq : out ≡ m = ground arith in
              rw eq (
                Written-put p (t r) c m.1 lt refl refl refl
                  (map_file_segment-Written (put_segment p (t r) c)))
        ]
        | inr (inr (inr e)) ↦
            let eq : out ≡ map_shm_segment kernel p c = ground arith in
            rw eq (map_shm_segment-Written c)
      ]
