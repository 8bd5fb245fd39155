-- ===== src/Segment/Valid/Get.antt =====
-- `segment_get` finds the segment of a name, keeps the table's view and its invariant, and after a
-- failed search the name is not in the table.
use memtoy.Base.{
  ℕ, suc, ◌+◌, ◌<◌, ◌≡◌, refl, true, false, ◌&&◌, ◌⊎◌, inl, inr, Option, none, some, List, [], ◌∷◌,
  Text, length, length-append, get_or, arith, Option-cases, Bool-cases,
}
use memtoy.Context.{
  Segment, blank, Kernel, Context, is_none, is_used, named, segment_at, max_segments,
}
use memtoy.Segment.Slots.{scan, new_segment, segment_get, append_slot}
use memtoy.Segment.Valid.Updates.{
  has_name, free_at, avail_ok, IsValid, Numbered-append, unique-append_unused, free_at-append,
  free_at-append_end, has_name-append_unused,
}
use memtoy.Segment.Valid.Lookup.{lookup, view, lookup-append_unused}

-- What a search from slot `i` on finds.
pub scan-found :
    (name : Text) (i : ℕ) (l : List Segment) (avail : Option ℕ) (d : Segment) {p : ℕ}
    → (scan name i l avail).0 ≡ some p
    → (k : ℕ) × (p ≡ i + k)
      × (k < length l)
      × ((is_used (get_or l k d) && named name (get_or l k d)) ≡ true)
      × (lookup name l ≡ some (get_or l k d))
unfolding scan lookup
scan-found name i [] avail d {p} h = cc
scan-found name i (s ∷ r) avail d {p} h = elim (Bool-cases (is_none s.seg_type)) [
  | inl e ↦
      let avail' : Option ℕ = elim avail [ none ↦ some i | some q ↦ some q ] in
      let h' : (scan name (suc i) r avail').0 ≡ some p = ground arith in
      (let (k, a, b, u, w) = scan-found name (suc i) r avail' d h' in
        (suc k, omega arith, omega arith, u, ground arith))
  | inr e ↦ elim (Bool-cases (named name s)) [
    | inl m ↦ (0, ground arith, omega arith, ground arith, ground arith)
    | inr m ↦
        let h' : (scan name (suc i) r avail).0 ≡ some p = ground arith in
        (let (k, a, b, u, w) = scan-found name (suc i) r avail d h' in
          (suc k, omega arith, omega arith, u, ground arith))
  ]
]

pub scan-missing :
    (name : Text) (i : ℕ) (l : List Segment) (avail : Option ℕ)
    → (scan name i l avail).0 ≡ none
    → has_name name l ≡ false
unfolding scan
scan-missing name i [] avail h = refl
scan-missing name i (s ∷ r) avail h =
    let avail' : Option ℕ = elim avail [ none ↦ some i | some q ↦ some q ] in
    ground (arith, scan-missing name (suc i) r avail', scan-missing name (suc i) r avail)

-- The saved slot is the old one, or a free one that was passed.
pub scan-saved :
    (name : Text) (i : ℕ) (l : List Segment) (avail : Option ℕ) {q : ℕ}
    → (scan name i l avail).1 ≡ some q
    → (avail ≡ some q) ⊎ ((k : ℕ) × (q ≡ i + k) × (free_at l k ≡ true))
unfolding scan
scan-saved name i [] avail {q} h = inl h
scan-saved name i (s ∷ r) avail {q} h = elim (Bool-cases (is_none s.seg_type)) [
  | inl e ↦
      let avail' : Option ℕ = elim avail [ none ↦ some i | some p ↦ some p ] in
      let h' : (scan name (suc i) r avail').1 ≡ some q = ground arith in
      elim (scan-saved name (suc i) r avail' h') [
        | inl a ↦ elim (Option-cases avail) [
          | inl n ↦ inr (0, ground arith, e)
          | inr (p, m) ↦ inl (ground arith)
        ]
        | inr (k, a, f) ↦ inr (suc k, omega arith, f)
      ]
  | inr e ↦ elim (Bool-cases (named name s)) [
    | inl m ↦ inl (ground arith)
    | inr m ↦
        let h' : (scan name (suc i) r avail).1 ≡ some q = ground arith in
        elim (scan-saved name (suc i) r avail h') [
          | inl a ↦ inl a
          | inr (k, a, f) ↦ inr (suc k, omega arith, f)
        ]
  ]
]

scan-avail_ok :
    (name : Text) (l : List Segment) (avail : Option ℕ)
    → avail_ok avail l ≡ true
    → avail_ok (scan name 0 l avail).1 l ≡ true
scan-avail_ok name l avail h = elim (Option-cases (scan name 0 l avail).1) [
  | inl e ↦ rw e
  | inr (q, e) ↦ elim (scan-saved name 0 l avail e) [
    | inl a ↦ ground arith
    | inr (k, a, f) ↦ rw e (let a' : q ≡ k = omega arith in rw a' f)
  ]
]

pub append_slot-IsValid :
    (c : Context) → IsValid c → length c.seglist < max_segments → IsValid (append_slot c)
append_slot-IsValid c v lt =
    let b : Segment = blank (length c.seglist) in
    record {
      fits = omega (arith, length-append c.seglist (b ∷ []));
      numbered = Numbered-append 0 c.seglist b (omega arith) v.numbered;
      distinct = unique-append_unused c.seglist b refl v.distinct;
      saved_free = elim (Option-cases c.seg_avail) [
        | inl e ↦ rw e
        | inr (q, e) ↦ rw e (free_at-append c.seglist b q (ground (arith, v.saved_free)))
      ];
    }

module _ (kernel : Kernel) (name : Text) (c : Context) where
  -- A search keeps the invariant of the table.
  pub segment_get-IsValid : IsValid c → IsValid (segment_get kernel name c).1
  unfolding segment_get new_segment
  segment_get-IsValid v =
      let l = c.seglist in
      let b : Segment = blank (length l) in
      record {
        fits = ground (arith, v.fits, length-append l (b ∷ []));
        numbered = ground (arith, v.numbered, Numbered-append 0 l b (omega arith) v.numbered);
        distinct = ground (arith, v.distinct, unique-append_unused l b refl v.distinct);
        saved_free =
            ground
              (arith, scan-avail_ok name l c.seg_avail v.saved_free, free_at-append_end l b refl);
      }

  -- A search changes no segment.
  pub view-segment_get : (n : Text) → view (segment_get kernel name c).1 n ≡ view c n
  unfolding segment_get new_segment
  view-segment_get n =
      ground (arith, lookup-append_unused n c.seglist (blank (length c.seglist)) refl)

  pub segment_get-found :
      {p : ℕ}
      → (segment_get kernel name c).0 ≡ some p
      → let c' = (segment_get kernel name c).1 in
        (c'.seglist ≡ c.seglist)
        × (p < length c.seglist)
        × (is_used (segment_at c p) ≡ true)
        × (named name (segment_at c p) ≡ true)
        × (view c name ≡ some (segment_at c p))
  unfolding segment_get new_segment
  segment_get-found {p} h =
      let h' : (scan name 0 c.seglist c.seg_avail).0 ≡ some p = ground arith in
      let (k, a, b, u, w) = scan-found name 0 c.seglist c.seg_avail (blank p) h' in
      let a' : p ≡ k = omega arith in
      (ground arith, omega arith, ground arith, ground arith, ground arith)

  pub segment_get-missing :
      (segment_get kernel name c).0 ≡ none
      → has_name name (segment_get kernel name c).1.seglist ≡ false
  unfolding segment_get new_segment
  segment_get-missing h = ground (
    arith,
    scan-missing name 0 c.seglist c.seg_avail,
    has_name-append_unused name c.seglist (blank (length c.seglist)) refl,
  )
