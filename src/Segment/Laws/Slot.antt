-- ===== src/Segment/Laws/Slot.antt =====
-- What the writes of `segment_register` to its slot come to: a filled slot, or a freed one.
use memtoy.Base.{
  ℕ, ◌<◌, ◌≡◌, refl, sym, ap, bit_and, bit_or, ◌∙◌, Bool, true, false, some, Text, length,
  length-set, get_or-set_self, set, set-set, set-get_or, arith, Option-cases, Bool-cases, inl, inr,
  if◌then◌else◌,
}
use memtoy.Context.{
  SegType, segt_none, segt_anon, segt_file, segt_shm, is_file, Segment, blank, Range, Kernel, Call,
  Context, Reply-cases, shm_hugetlb, segment_at, put_segment, has_flag, segf_maps, tell,
}
use memtoy.Segment.Slots.{free_seg_slot}
use memtoy.Segment.Map.{aligned}
use memtoy.Segment.Register.{
  choose_access, open_with, open_file, get_shm_segment, finish_register, fill_slot, fresh,
  from_maps, basename, cut_path, path_of, is_regular,
}
use memtoy.Segment.Valid.Free.{save}
use memtoy.Segment.Laws.Keeping.{Kept, Kept-put, Kept-same, Kept-free}

-- The slot holds a new segment with the name, type and flags, or, after a failure, it is free.
abbrev pub Filled : ℕ → SegType → Text → ℕ → Context → Bool → Context → Type 0
Filled p type name flags c true c' =
    (s : Segment) × (c'.seglist ≡ set c.seglist p s)
    × (s.seg_name ≡ some name)
    × (s.seg_type ≡ type)
    × (s.seg_slot ≡ (segment_at c p).seg_slot)
    × (s.seg_flags ≡ flags)
    × (c'.seg_avail ≡ c.seg_avail)
Filled p type name flags c false c' =
    (c'.seglist ≡ set c.seglist p (blank (segment_at c p).seg_slot))
    × (c'.seg_avail ≡ save c.seg_avail p)

module _ (kernel : Kernel) (p : ℕ) where
  -- The choice of an access mode only asks.
  choose_access-seglist :
      (path : Text) (prot : ℕ) (c : Context)
      → ((choose_access kernel path prot c).1.seglist ≡ c.seglist)
        × ((choose_access kernel path prot c).1.seg_avail ≡ c.seg_avail)
  unfolding choose_access
  choose_access-seglist path prot c = ground arith

  open_with-Kept :
      (mode prot : ℕ) (c : Context)
      → p < length c.seglist
      → let r = open_with kernel p mode prot c in Kept p c r.0 r.1
  unfolding open_with
  open_with-Kept mode prot c lt =
      let s = record (segment_at c p) { seg_prot = prot } in
      let c1 = put_segment p s c in
      let call = Call.open_file (path_of s) mode in
      elim (Reply-cases (kernel c.trace call)) [
        | inl (e, h) ↦
            rw (h, open_with)
              (Kept-put p s c false (free_seg_slot p (tell call c1)) lt refl refl refl refl
                (Kept-free p (tell call c1)))
        | inr (fd, h) ↦
            rw (h, open_with)
              (
                record s { seg_fd = some fd },
                set-set c.seglist p s (record s { seg_fd = some fd }),
                refl,
                refl,
                refl,
                refl,
                refl,
              )
      ]

  open_file-Kept :
      (c : Context) → p < length c.seglist → let r = open_file kernel p c in Kept p c r.0 r.1
  unfolding open_file
  open_file-Kept c lt =
      let path = path_of (segment_at c p) in
      let c1 = tell (Call.stat path) c in
      let asked = choose_access kernel path (segment_at c p).seg_prot c1 in
      let (same, avail) = choose_access-seglist path (segment_at c p).seg_prot c1 in
      let lt' : p < length asked.1.seglist = rw same lt in
      elim (Reply-cases (kernel c.trace (Call.stat path))) [
        | inl (e, h) ↦ rw (h, open_file) (Kept-free p c1)
        | inr (m, h) ↦ elim (Bool-cases (is_regular m)) [
          | inl y ↦ elim (Option-cases asked.0) [
            | inl n ↦
                rw (h, open_file)
                  (rw (y, n)
                    (Kept-same p asked.1 c false (free_seg_slot p asked.1) same avail
                      (Kept-free p asked.1)))
            | inr (o, w) ↦
                let r = open_with kernel p o.0 o.1 asked.1 in
                rw (h, open_file)
                  (rw (y, w)
                    (Kept-same p asked.1 c r.0 r.1 same avail (open_with-Kept o.0 o.1 asked.1 lt')))
          ]
          | inr y ↦ rw (h, open_file) (rw y (Kept-free p c1))
        ]
      ]

  get_shm_segment-Kept :
      (c : Context) → p < length c.seglist → let r = get_shm_segment kernel p c in Kept p c r.0 r.1
  unfolding get_shm_segment
  get_shm_segment-Kept c lt =
      let flags = bit_or 0o600 (bit_and (segment_at c p).seg_flags shm_hugetlb) in
      let pagesize = if has_flag flags shm_hugetlb then c.huge_pagesize else c.pagesize in
      let s = aligned pagesize (segment_at c p) in
      let c1 = put_segment p s c in
      let call = Call.shmget s.seg_length flags in
      elim (Reply-cases (kernel c.trace call)) [
        | inl (e, h) ↦
            rw (h, get_shm_segment)
              (Kept-put p s c false (free_seg_slot p (tell call c1)) lt refl refl refl refl
                (Kept-free p (tell call c1)))
        | inr (id, h) ↦
            rw (h, get_shm_segment)
              (
                record s { seg_shmid = some id },
                set-set c.seglist p s (record s { seg_shmid = some id }),
                refl,
                refl,
                refl,
                refl,
                refl,
              )
      ]

  finish_register-Kept :
      (type : SegType) (path : Text) (c : Context)
      → p < length c.seglist
      → let r = finish_register kernel p type path c in Kept p c r.0 r.1
  unfolding finish_register
  finish_register-Kept segt_file path c lt =
      let s = record (segment_at c p) { seg_path = some path } in
      let c1 = put_segment p s c in
      let r = open_file kernel p c1 in
      Kept-put p s c r.0 r.1 lt refl refl refl refl
        (open_file-Kept c1 (rw (length-set c.seglist p s) lt))
  finish_register-Kept segt_shm path c lt = get_shm_segment-Kept c lt
  finish_register-Kept segt_anon path c lt =
      (segment_at c p, sym (set-get_or c.seglist p (blank p) lt), refl, refl, refl, refl, refl)
  finish_register-Kept segt_none path c lt =
      (segment_at c p, sym (set-get_or c.seglist p (blank p) lt), refl, refl, refl, refl, refl)

  Filled-Kept :
      (s : Segment) (c : Context) (b : Bool) (c' : Context)
      → p < length c.seglist
      → s.seg_slot ≡ (segment_at c p).seg_slot
      → Kept p (put_segment p s c) b c'
      → (name : Text) → s.seg_name ≡ some name
      → Filled p s.seg_type name s.seg_flags c b c'
  Filled-Kept s c true c' lt es (t, a, n, y, o, f, v) name en =
      let at : segment_at (put_segment p s c) p ≡ s = get_or-set_self c.seglist p s (blank p) lt in
      (
        t,
        a ∙ set-set c.seglist p s t,
        n ∙ ap (λ x. x.seg_name) at ∙ en,
        y ∙ ap (λ x. x.seg_type) at,
        o ∙ ap (λ x. x.seg_slot) at ∙ es,
        f ∙ ap (λ x. x.seg_flags) at,
        v,
      )
  Filled-Kept s c false c' lt es (a, v) name en =
      let at : segment_at (put_segment p s c) p ≡ s = get_or-set_self c.seglist p s (blank p) lt in
      (
        a
            ∙ set-set c.seglist p s (blank (segment_at (put_segment p s c) p).seg_slot)
            ∙ ap (λ n. set c.seglist p (blank n)) (ap (λ x. x.seg_slot) at ∙ es),
        v,
      )

  pub fill_slot-Filled :
      (type : SegType) (name : Text) (r : Range) (flags : ℕ) (c : Context)
      → p < length c.seglist
      → let out = fill_slot kernel p type name r flags c in
        Filled p type (basename name) flags c out.0 out.1
  unfolding fill_slot
  fill_slot-Filled type name r flags c lt =
      let s = fresh type name r flags (segment_at c p) in
      let c1 = put_segment p s c in
      let out = finish_register kernel p type (cut_path name) c1 in
      elim (Bool-cases (has_flag flags segf_maps)) [
        | inl m ↦ elim (Bool-cases (is_file type)) [
          | inl y ↦
              rw (m, fill_slot)
                (from_maps type (cut_path name) r s, refl, rw y, rw y, rw y, rw y, refl)
          | inr y ↦
              rw (m, fill_slot)
                (from_maps type (cut_path name) r s, refl, rw y, rw y, rw y, rw y, refl)
        ]
        | inr m ↦
            rw (m, fill_slot)
              (Filled-Kept s c out.0 out.1 lt refl
                (finish_register-Kept type (cut_path name) c1 (rw (length-set c.seglist p s) lt))
                (basename name) refl)
      ]
