-- ===== src/Segment/Laws/Mapping.antt =====
-- `segment_map`: the invariant, and what it does to the table, by name.
use memtoy.Base.{
  text_eq, text_eq_refl, ℕ, ◌<◌, ◌≡◌, refl, ap, ◌∙◌, true, false, not, Option, none, some, Text,
  length, ◌==◌, arith, Option-cases, Bool-cases, inl, inr, if◌then◌else◌,
}
use memtoy.Context.{
  SegType, Segment, blank, Range, Kernel, Context, segment_at, map_failed, is_used, is_none,
}
use memtoy.Segment.Slots.{segment_get}
use memtoy.Segment.Map.{map_by_type, segment_map}
use memtoy.Segment.Valid.Updates.{IsValid}
use memtoy.Segment.Valid.Lookup.{lookup, view, lookup-set_kept}
use memtoy.Segment.Valid.Get.{segment_get-IsValid, view-segment_get}
use memtoy.Segment.Laws.Removal.{found_facts}
use memtoy.Segment.Laws.Writes.{Written, Written-IsValid, map_by_type-Written}

-- The type of the segment, if there is one.
abbrev pub type_of : Option Segment → Option SegType
type_of none = none
type_of (some s) = some s.seg_type

-- A write to the slot of a name, seen by names.
Written-view :
    (p : ℕ) (name : Text) (c1 c' c : Context)
    → p < length c1.seglist
    → (segment_at c1 p).seg_name ≡ some name
    → is_used (segment_at c1 p) ≡ true
    → view c name ≡ some (segment_at c1 p)
    → IsValid c1
    → ((n : Text) → view c1 n ≡ view c n)
    → Written p c1 c'
    → (type_of (view c' name) ≡ type_of (view c name))
      × ((n : Text) → text_eq n name ≡ false → view c' n ≡ view c n)
Written-view p name c1 c' c lt en u w v same (s, a, sn, st, ss, av) =
    let at : (n : Text) → view c' n ≡ (if text_eq n name then some s else view c1 n) = λ n.
      ap (lookup n) a
      ∙ lookup-set_kept n name c1.seglist p s (blank p) lt en u (sn ∙ en)
          (ap (λ t. not (is_none t)) st ∙ u) v.distinct in
    (rw (at name) (rw (text_eq_refl name, w, st) refl), λ n d. rw (at n) (rw d (same n)))

-- Mapping keeps the invariant of the table, whatever the outcome.
pub segment_map-IsValid :
    (kernel : Kernel) (name : Text) (range : Option Range) (flags : ℕ) (c : Context)
    → IsValid c
    → IsValid (segment_map kernel name range flags c).1
unfolding segment_map
segment_map-IsValid kernel name range flags c v =
    let g = segment_get kernel name c in
    let v1 : IsValid g.1 = segment_get-IsValid kernel name c v in
    elim (Option-cases g.0) [
      | inl e ↦ rw (e, segment_map) v1
      | inr (p, e) ↦
          let (lt, en, u, w) = found_facts kernel name c e in
          elim (Bool-cases ((segment_at g.1 p).seg_start == map_failed)) [
            | inl m ↦
                rw (e, segment_map)
                  (rw m (
                    Written-IsValid p g.1 (map_by_type kernel p range flags g.1).1 lt v1
                      (map_by_type-Written kernel p range flags g.1 lt)))
            | inr m ↦ rw (e, segment_map) (rw m v1)
          ]
    ]

-- On a valid table, mapping touches no other name, and the name stands for a segment of the same
-- type as before, or for none if it did.
pub view-segment_map :
    (kernel : Kernel) (name : Text) (range : Option Range) (flags : ℕ) (c : Context)
    → IsValid c
    → let c' = (segment_map kernel name range flags c).1 in
      (type_of (view c' name) ≡ type_of (view c name))
      × ((n : Text) → text_eq n name ≡ false → view c' n ≡ view c n)
unfolding segment_map
view-segment_map kernel name range flags c v =
    let g = segment_get kernel name c in
    let v1 : IsValid g.1 = segment_get-IsValid kernel name c v in
    let same : (n : Text) → view g.1 n ≡ view c n = view-segment_get kernel name c in
    let out = segment_map kernel name range flags c in
    elim (Option-cases g.0) [
      | inl e ↦
          (let eq : out ≡ (false, g.1) = ground arith in
            rw eq (ap type_of (same name), λ n d. same n))
      | inr (p, e) ↦
          let (lt, en, u, w) = found_facts kernel name c e in
          elim (Bool-cases ((segment_at g.1 p).seg_start == map_failed)) [
            | inr m ↦
                (let eq : out ≡ (true, g.1) = ground arith in
                  rw eq (ap type_of (same name), λ n d. same n))
            | inl m ↦
                let d = map_by_type kernel p range flags g.1 in
                let eq : out ≡ d = ground arith in
                rw eq (
                  Written-view p name g.1 d.1 c lt en u w v1 same
                    (map_by_type-Written kernel p range flags g.1 lt))
          ]
    ]
