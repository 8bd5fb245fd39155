-- ===== src/Segment/Laws/Others/Tables.antt =====
-- The operations on slots, registration, mapping and ranges: children, answers and the point to
-- jump to.
use memtoy.Base.{
  ℕ, ◌==◌, ◌≡◌, refl, ◌∙◌, Bool, Option, List, Text, arith, if◌then◌else◌, Option-cases, Bool-cases,
  inl, inr,
}
use memtoy.Children.Answers.{outside}
use memtoy.Context.{
  SegType, segt_none, segt_anon, segt_file, segt_shm, Segment, Range, Kernel, Call, Context,
  segment_at, put_segment, has_flag, segf_maps, tell,
}
use memtoy.Segment.Slots.{
  new_segment, get_seg_slot, segment_get, unmap_segment, free_seg_slot, scan,
}
use memtoy.Segment.Map.{
  map_anon_segment, file_size, map_file_range, map_file_segment, map_shm_segment, map_by_type,
  segment_map,
}
use memtoy.Segment.Register.{
  basename, cut_path, fresh, path_of, choose_access, open_with, open_file, get_shm_segment,
  finish_register, fill_slot, segment_register,
}
use memtoy.Segment.Ranges.{
  segment_remove, segment_unmap, segment_mbind, segment_lock_unlock, segment_range,
  segment_mprotect,
}
use memtoy.Segment.Laws.Choice.{Slot-cases}

module _ (kernel : Kernel) where
  pub new_segment-outside : (c : Context) → outside (new_segment kernel c).1 ≡ outside c
  unfolding new_segment
  new_segment-outside c = ground arith

  pub get_seg_slot-outside : (c : Context) → outside (get_seg_slot kernel c).1 ≡ outside c
  unfolding get_seg_slot
  get_seg_slot-outside c = ground (arith, new_segment-outside c)

  pub segment_get-outside :
      (name : Text) (c : Context) → outside (segment_get kernel name c).1 ≡ outside c
  unfolding segment_get
  segment_get-outside name c =
      let a = (scan name 0 c.seglist c.seg_avail).1 in
      ground (arith, new_segment-outside (record c { seg_avail = a }))

pub free_seg_slot-outside : (p : ℕ) (c : Context) → outside (free_seg_slot p c) ≡ outside c
unfolding free_seg_slot
free_seg_slot-outside p c = ground arith

pub unmap_segment-outside : (p : ℕ) (c : Context) → outside (unmap_segment p c) ≡ outside c
unfolding unmap_segment
unmap_segment-outside p c = ground arith

module _ (kernel : Kernel) where
  pub choose_access-outside :
      (path : Text) (prot : ℕ) (c : Context)
      → outside (choose_access kernel path prot c).1 ≡ outside c
  unfolding choose_access
  choose_access-outside path prot c = ground arith

  pub open_with-outside :
      (p mode prot : ℕ) (c : Context) → outside (open_with kernel p mode prot c).1 ≡ outside c
  unfolding open_with free_seg_slot
  open_with-outside p mode prot c = ground arith

  pub open_file-outside : (p : ℕ) (c : Context) → outside (open_file kernel p c).1 ≡ outside c
  unfolding open_file
  open_file-outside p c =
      let s = segment_at c p in
      let path : Text = path_of s in
      let c1 = tell (Call.stat path) c in
      let ca = choose_access kernel path s.seg_prot c1 in
      let same : outside ca.1 ≡ outside c = choose_access-outside path s.seg_prot c1 in
      elim (Option-cases ca.0) [
        | inl e ↦ ground (arith, same, free_seg_slot-outside p ca.1, free_seg_slot-outside p c1)
        | inr ((m, q), e) ↦
            ground (arith, same, open_with-outside p m q ca.1, free_seg_slot-outside p c1)
      ]

  pub get_shm_segment-outside :
      (p : ℕ) (c : Context) → outside (get_shm_segment kernel p c).1 ≡ outside c
  unfolding get_shm_segment free_seg_slot
  get_shm_segment-outside p c = ground arith

  pub finish_register-outside :
      (p : ℕ) (type : SegType) (path : Text) (c : Context)
      → outside (finish_register kernel p type path c).1 ≡ outside c
  unfolding finish_register
  finish_register-outside p segt_none path c = refl
  finish_register-outside p segt_anon path c = refl
  finish_register-outside p segt_file path c = open_file-outside p _
  finish_register-outside p segt_shm path c = get_shm_segment-outside p c

  pub fill_slot-outside :
      (p : ℕ) (type : SegType) (name : Text) (r : Range) (flags : ℕ) (c : Context)
      → outside (fill_slot kernel p type name r flags c).1 ≡ outside c
  unfolding fill_slot
  fill_slot-outside p type name r flags c =
      let s = fresh type name r flags (segment_at c p) in
      let keep = finish_register-outside p type (cut_path name) (put_segment p s c) in
      elim (Bool-cases (has_flag flags segf_maps)) [
        | inl e ↦ ground arith
        | inr e ↦ ground (arith, keep)
      ]

  pub map_anon_segment-outside :
      (p : ℕ) (c : Context) → outside (map_anon_segment kernel p c).1 ≡ outside c
  unfolding map_anon_segment
  map_anon_segment-outside p c = ground arith

  pub map_shm_segment-outside :
      (p : ℕ) (c : Context) → outside (map_shm_segment kernel p c).1 ≡ outside c
  unfolding map_shm_segment
  map_shm_segment-outside p c = ground arith

  pub map_file_range-outside :
      (p : ℕ) (s : Segment) (size : ℕ) (c : Context)
      → outside (map_file_range kernel p s size c).1 ≡ outside c
  unfolding map_file_range
  map_file_range-outside p s size c = ground arith

  pub file_size-outside :
      (fd : Option ℕ) (c : Context) → outside (file_size kernel fd c).1 ≡ outside c
  unfolding file_size
  file_size-outside fd c = ground arith

  pub map_file_segment-outside :
      (p : ℕ) (c : Context) → outside (map_file_segment kernel p c).1 ≡ outside c
  unfolding map_file_segment file_size map_file_range
  map_file_segment-outside p c = ground arith

  pub segment_mbind-outside :
      (name : Text) (r : Range) (policy : ℕ) (mask : Option (List ℕ)) (flags : ℕ) (c : Context)
      → outside (segment_mbind kernel name r policy mask flags c).1 ≡ outside c
  unfolding segment_mbind
  segment_mbind-outside name r policy mask flags c =
      ground (arith, segment_get-outside kernel name c)

  pub segment_lock_unlock-outside :
      (name : Text) (r : Range) (lock shm : Bool) (c : Context)
      → outside (segment_lock_unlock kernel name r lock shm c).1 ≡ outside c
  unfolding segment_lock_unlock
  segment_lock_unlock-outside name r lock shm c = ground (arith, segment_get-outside kernel name c)

  pub segment_range-outside :
      (name : Text) (c : Context) → outside (segment_range kernel name c).1 ≡ outside c
  unfolding segment_range
  segment_range-outside name c = ground (arith, segment_get-outside kernel name c)

  pub segment_mprotect-outside :
      (name : Text) (prot : ℕ) (c : Context)
      → outside (segment_mprotect kernel name prot c).1 ≡ outside c
  unfolding segment_mprotect
  segment_mprotect-outside name prot c = ground (arith, segment_get-outside kernel name c)

  pub segment_register-outside :
      (type : SegType) (name : Text) (r : Range) (flags : ℕ) (c : Context)
      → outside (segment_register kernel type name r flags c).1 ≡ outside c
  unfolding segment_register
  segment_register-outside type name r flags c =
      let g = segment_get kernel (basename name) c in
      let q = get_seg_slot kernel g.1 in
      let e1 = segment_get-outside kernel (basename name) c in
      let e2 = get_seg_slot-outside kernel g.1 in
      let out = segment_register kernel type name r flags c in
      elim (Option-cases g.0) [
        | inr (p, e) ↦ (let eq : out.1 ≡ g.1 = ground arith in rw eq e1)
        | inl e ↦ elim (Slot-cases q.0) [
          | inl (p, h) ↦
              let eq : out.1 ≡ (fill_slot kernel p type name r flags q.1).1 = ground arith in
              rw eq (fill_slot-outside p type name r flags q.1 ∙ e2 ∙ e1)
          | inr other ↦ (let eq : out.1 ≡ q.1 = ground arith in rw eq (e2 ∙ e1))
        ]
      ]

  pub map_by_type-outside :
      (p : ℕ) (range : Option Range) (flags : ℕ) (c : Context)
      → outside (map_by_type kernel p range flags c).1 ≡ outside c
  unfolding map_by_type
  map_by_type-outside p range flags c =
      let s = segment_at c p in
      let s' = record s { seg_flags = if flags == 0 then s.seg_flags else flags } in
      let t : Range → Segment = λ r. record s' { seg_offset = r.offset; seg_length = r.length } in
      elim (Option-cases range) [
        | inl n ↦ ground (
          arith,
          map_anon_segment-outside p (put_segment p s' c),
          map_file_segment-outside p (put_segment p s' c),
          map_shm_segment-outside p c,
        )
        | inr (r, n) ↦ ground (
          arith,
          map_anon_segment-outside p (put_segment p s' c),
          map_file_segment-outside p (put_segment p (t r) c),
          map_shm_segment-outside p c,
        )
      ]

  pub segment_map-outside :
      (name : Text) (range : Option Range) (flags : ℕ) (c : Context)
      → outside (segment_map kernel name range flags c).1 ≡ outside c
  unfolding segment_map
  segment_map-outside name range flags c =
      let g = segment_get kernel name c in
      let e1 = segment_get-outside kernel name c in
      elim (Option-cases g.0) [
        | inl e ↦ ground (arith, e1)
        | inr (p, e) ↦ ground (arith, e1, map_by_type-outside p range flags g.1)
      ]

  pub segment_remove-outside :
      (name : Text) (c : Context) → outside (segment_remove kernel name c).1 ≡ outside c
  unfolding segment_remove
  segment_remove-outside name c =
      let g = segment_get kernel name c in
      let e1 = segment_get-outside kernel name c in
      elim (Option-cases g.0) [
        | inl e ↦ ground (arith, e1)
        | inr (p, e) ↦
            ground (
              arith,
              e1,
              unmap_segment-outside p g.1,
              free_seg_slot-outside p (unmap_segment p g.1),
            )
      ]

  pub segment_unmap-outside :
      (name : Text) (c : Context) → outside (segment_unmap kernel name c).1 ≡ outside c
  unfolding segment_unmap
  segment_unmap-outside name c =
      let g = segment_get kernel name c in
      let e1 = segment_get-outside kernel name c in
      elim (Option-cases g.0) [
        | inl e ↦ ground (arith, e1)
        | inr (p, e) ↦ ground (arith, e1, unmap_segment-outside p g.1)
      ]
