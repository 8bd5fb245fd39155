-- ===== src/Segment/Laws/Removal.antt =====
-- `segment_remove` and `segment_unmap`: what they do to the table, by name.
use mathlib.Core.Option
use memtoy.Base.{
  ℕ, ◌<◌, ◌≡◌, refl, sym, ap, ◌∙◌, Bool, true, false, not, ◌&&◌, Option, none, some, Text, text_eq,
  ◌==◌, length, length-set, get_or, get_or-set_self, set, set-set, set-get_or, arith, Option-cases,
  inl, inr, Bool-cases, if◌then◌else◌,
}
use memtoy.Context.{
  Segment, blank, Kernel, Context, is_used, has_flag, segf_maps, segment_at, map_failed,
}
use memtoy.Segment.Slots.{segment_get, unmap_segment, free_seg_slot}
use memtoy.Segment.Ranges.{segment_remove, segment_unmap}
use memtoy.Segment.Valid.Updates.{IsValid}
use memtoy.Segment.Valid.Lookup.{
  lookup, view, lookup-set_kept, lookup-set_removed, lookup-none, named-eq,
}
use memtoy.Segment.Valid.Get.{
  segment_get-IsValid, view-segment_get, segment_get-found, segment_get-missing,
}
use memtoy.Segment.Valid.Free.{
  free_seg_slot-table, free_seg_slot-IsValid, unmap_segment-IsValid, unmapped,
}

-- The table after a removal: the slot is blank, whether it was mapped or not.
removed-table :
    (p : ℕ) (c : Context)
    → p < length c.seglist
    → (free_seg_slot p (unmap_segment p c)).seglist
      ≡ set c.seglist p (blank (segment_at c p).seg_slot)
unfolding unmap_segment
removed-table p c lt =
    let s = segment_at c p in
    rw free_seg_slot-table (
      ground (
        arith,
        set-set c.seglist p (unmapped s) (blank s.seg_slot),
        get_or-set_self c.seglist p (unmapped s) (blank p) lt,
      ))

length-unmap_segment : (p : ℕ) (c : Context) → length (unmap_segment p c).seglist ≡ length c.seglist
unfolding unmap_segment
length-unmap_segment p c = ground (arith, length-set c.seglist p (unmapped (segment_at c p)))

-- The table after `unmap_segment` on a segment that does not come from the task's maps, by name.
unmapped-table :
    (p : ℕ) (c : Context)
    → p < length c.seglist
    → has_flag (segment_at c p).seg_flags segf_maps ≡ false
    → (unmap_segment p c).seglist ≡ set c.seglist p (unmapped (segment_at c p))
unfolding unmap_segment
unmapped-table p c lt h =
    let s = segment_at c p in
    elim (Bool-cases (s.seg_start == map_failed)) [
      | inl e ↦
          let e' : s.seg_start ≡ map_failed = ground arith in
          let same : unmapped s ≡ s = λ i. record s { seg_start = sym e' i } in
          rw (e, unmap_segment)
            (sym (ap (set c.seglist p) same ∙ set-get_or c.seglist p (blank p) lt))
      | inr e ↦ ground arith
    ]

-- The segment is there and does not come from the task's maps.
abbrev pub is_own : Option Segment → Bool
is_own none = false
is_own (some s) = not (has_flag s.seg_flags segf_maps)

module _ (kernel : Kernel) (name : Text) (c : Context) where
  -- Removing a segment keeps the invariant of the table.
  pub segment_remove-IsValid : IsValid c → IsValid (segment_remove kernel name c).1
  unfolding segment_remove
  segment_remove-IsValid v =
      let c1 = (segment_get kernel name c).1 in
      let v1 : IsValid c1 = segment_get-IsValid kernel name c v in
      elim (Option-cases (segment_get kernel name c).0) [
        | inl e ↦ rw (e, segment_remove) v1
        | inr (p, e) ↦
            let f = segment_get-found kernel name c e in
            let lt : p < length c1.seglist = rw (f.0) (f.1) in
            let lt' : p < length (unmap_segment p c1).seglist = rw length-unmap_segment lt in
            elim (Bool-cases (has_flag (segment_at c1 p).seg_flags segf_maps)) [
              | inl m ↦ rw (e, segment_remove) (rw m v1)
              | inr m ↦
                  rw (e, segment_remove)
                    (rw m (
                      free_seg_slot-IsValid p (unmap_segment p c1) lt'
                        (unmap_segment-IsValid p c1 lt v1)))
            ]
      ]

  -- What a successful search says of the table that it leaves.
  pub found_facts :
      {p : ℕ}
      → (segment_get kernel name c).0 ≡ some p
      → let c1 = (segment_get kernel name c).1 in
        (p < length c1.seglist)
        × ((segment_at c1 p).seg_name ≡ some name)
        × (is_used (segment_at c1 p) ≡ true)
        × (view c name ≡ some (segment_at c1 p))
  found_facts {p} e =
      let c1 = (segment_get kernel name c).1 in
      let (same, lt, u, m, w) = segment_get-found kernel name c e in
      let en = named-eq name (segment_at c p) m in
      let at : segment_at c1 p ≡ segment_at c p = ap (λ l. get_or l p (blank p)) same in
      (rw same lt, rw at en, rw at u, rw at w)

  missing_fact : (segment_get kernel name c).0 ≡ none → view c name ≡ none
  missing_fact e =
      sym (view-segment_get kernel name c name)
      ∙ lookup-none name (segment_get kernel name c).1.seglist (segment_get-missing kernel name c e)

  -- On a valid table, removing by name: it succeeds exactly if the name stands for a segment that does
  -- not come from the task's maps; then the name stands for nothing, and else nothing has changed. No
  -- other name is touched.
  pub view-segment_remove :
      IsValid c
      → ((segment_remove kernel name c).0 ≡ is_own (view c name))
        × ((n : Text)
            → view (segment_remove kernel name c).1 n
              ≡ (if is_own (view c name) && text_eq n name then none else view c n))
  unfolding segment_remove
  view-segment_remove v =
      let c1 = (segment_get kernel name c).1 in
      let v1 : IsValid c1 = segment_get-IsValid kernel name c v in
      let same : (n : Text) → view c1 n ≡ view c n = view-segment_get kernel name c in
      elim (Option-cases (segment_get kernel name c).0) [
        | inl e ↦ (
          rw (e, segment_remove) (rw (missing_fact e)),
          λ n. rw (e, segment_remove) (rw (missing_fact e) (same n)),
        )
        | inr (p, e) ↦
            let (lt, en, u, w) = found_facts e in
            let s = segment_at c1 p in
            elim (Bool-cases (has_flag s.seg_flags segf_maps)) [
              | inl m ↦ (
                rw (e, segment_remove) (rw (w, m)),
                λ n. rw (e, segment_remove) (rw (w, m) (same n)),
              )
              | inr m ↦ (
                rw (e, segment_remove) (rw (w, m)),
                λ n.
                    rw (e, segment_remove)
                      (rw (w, m)
                        (ap (lookup n) (removed-table p c1 lt)
                          ∙ lookup-set_removed n name c1.seglist p (blank s.seg_slot) (blank p) lt
                              en u refl v1.distinct
                          ∙ ap (λ o. if text_eq n name then none else o) (same n))),
              )
            ]
      ]

  -- Unmapping keeps the invariant of the table.
  pub segment_unmap-IsValid : IsValid c → IsValid (segment_unmap kernel name c).1
  unfolding segment_unmap
  segment_unmap-IsValid v =
      let c1 = (segment_get kernel name c).1 in
      let v1 : IsValid c1 = segment_get-IsValid kernel name c v in
      elim (Option-cases (segment_get kernel name c).0) [
        | inl e ↦ rw (e, segment_unmap) v1
        | inr (p, e) ↦
            let (lt, en, u, w) = found_facts e in
            elim (Bool-cases (has_flag (segment_at c1 p).seg_flags segf_maps)) [
              | inl m ↦ rw (e, segment_unmap) (rw m v1)
              | inr m ↦ rw (e, segment_unmap) (rw m (unmap_segment-IsValid p c1 lt v1))
            ]
      ]

  -- On a valid table, unmapping by name: it succeeds exactly if the name stands for a segment that does
  -- not come from the task's maps. Then the name stands for the same segment with no mapping; nothing else
  -- changes, and without success nothing at all.
  pub view-segment_unmap :
      IsValid c
      → ((segment_unmap kernel name c).0 ≡ is_own (view c name))
        × ((n : Text)
            → view (segment_unmap kernel name c).1 n ≡ (
                if is_own (view c name) && text_eq n name
                then Option.map unmapped (view c name)
                else view c n))
  unfolding segment_unmap
  view-segment_unmap v =
      let c1 = (segment_get kernel name c).1 in
      let v1 : IsValid c1 = segment_get-IsValid kernel name c v in
      let same : (n : Text) → view c1 n ≡ view c n = view-segment_get kernel name c in
      elim (Option-cases (segment_get kernel name c).0) [
        | inl e ↦ (
          rw (e, segment_unmap) (rw (missing_fact e)),
          λ n. rw (e, segment_unmap) (rw (missing_fact e) (same n)),
        )
        | inr (p, e) ↦
            let (lt, en, u, w) = found_facts e in
            let s = segment_at c1 p in
            elim (Bool-cases (has_flag s.seg_flags segf_maps)) [
              | inl m ↦ (
                rw (e, segment_unmap) (rw (w, m)),
                λ n. rw (e, segment_unmap) (rw (w, m) (same n)),
              )
              | inr m ↦ (
                rw (e, segment_unmap) (rw (w, m)),
                λ n.
                    rw (e, segment_unmap)
                      (rw (w, m)
                        (ap (lookup n) (unmapped-table p c1 lt m)
                          ∙ lookup-set_kept n name c1.seglist p (unmapped s) (blank p) lt en u en u
                              v1.distinct
                          ∙ ap (λ o. if text_eq n name then some (unmapped s) else o) (same n))),
              )
            ]
      ]
