-- ===== src/Segment/Laws/Choice.antt =====
-- The slot that `get_seg_slot` chooses.
use memtoy.Base.{
  ℕ, suc, ◌+◌, ◌<◌, ◌≡◌, refl, true, none, some, List, [], ◌∷◌, ◌++◌, Text, length, arith,
  Option-cases, Bool-cases, ◌⊎◌, inl, inr,
}
use memtoy.Context.{Segment, blank, Kernel, Call, Context, is_none, max_segments}
use memtoy.Segment.Slots.{
  Slot, slot, full, no_memory, first_free, new_segment, append_slot, get_seg_slot,
}
use memtoy.Segment.Valid.Updates.{
  has_name, free_at, IsValid, has_name-append_unused, free_at-append_end,
}
use memtoy.Segment.Valid.Lookup.{view, lookup-append_unused}
use memtoy.Segment.Valid.Get.{append_slot-IsValid}

first_free-found :
    (i : ℕ) (l : List Segment) {p : ℕ}
    → first_free i l ≡ some p
    → (k : ℕ) × (p ≡ i + k) × (free_at l k ≡ true)
unfolding first_free
first_free-found i [] {p} h = cc
first_free-found i (s ∷ r) {p} h = elim (Bool-cases (is_none s.seg_type)) [
  | inl e ↦ (0, ground arith, e)
  | inr e ↦
      let h' : first_free (suc i) r ≡ some p = ground arith in
      let (k, a, f) = first_free-found (suc i) r h' in (suc k, omega arith, f)
]

-- What a chosen slot is: free, with no slot saved, and the table as it was by name.
pub record Chosen (c : Context) (p : ℕ) (c' : Context) : Type 0 where
  pub is_free : free_at c'.seglist p ≡ true
  pub valid : IsValid c'
  pub unsaved : c'.seg_avail ≡ none
  pub same_view : (n : Text) → view c' n ≡ view c n
  pub same_names : (n : Text) → has_name n c'.seglist ≡ has_name n c.seglist

module _ (kernel : Kernel) (c : Context) (v : IsValid c) where
  pub get_seg_slot-Chosen :
      {p : ℕ} → (get_seg_slot kernel c).0 ≡ slot p → Chosen c p (get_seg_slot kernel c).1
  unfolding get_seg_slot new_segment
  get_seg_slot-Chosen {p} h = elim (Option-cases c.seg_avail) [
    | inl n ↦ elim (Option-cases (first_free 0 c.seglist)) [
      | inl n' ↦
          let b : Segment = blank (length c.seglist) in
          let lt : length c.seglist < max_segments = ground arith in
          let at : p ≡ length c.seglist = ground arith in
          let c' = record c { seglist = c.seglist ++ b ∷ []; trace = Call.calloc ∷ c.trace } in
          let eq : (get_seg_slot kernel c).1 ≡ c' = ground arith in
          let w : IsValid (append_slot c) = append_slot-IsValid c v lt in
          rw eq (record {
            is_free = rw at (free_at-append_end c.seglist b refl);
            valid = record {
              fits = w.fits;
              numbered = w.numbered;
              distinct = w.distinct;
              saved_free = w.saved_free;
            };
            unsaved = n;
            same_view = λ m. lookup-append_unused m c.seglist b refl;
            same_names = λ m. has_name-append_unused m c.seglist b refl;
          })
      | inr (q, e) ↦
          let at : p ≡ q = ground arith in
          let eq : (get_seg_slot kernel c).1 ≡ c = ground arith in
          let (k, b, f) = first_free-found 0 c.seglist e in
          let at' : p ≡ k = omega arith in
          rw eq (record {
            is_free = rw at' f;
            valid = v;
            unsaved = n;
            same_view = λ m. refl;
            same_names = λ m. refl;
          })
    ]
    | inr (q, e) ↦
        let at : p ≡ q = ground arith in
        let eq : (get_seg_slot kernel c).1 ≡ record c { seg_avail = none } = ground arith in
        rw eq (record {
          is_free = ground (arith, v.saved_free);
          valid = record {
            fits = v.fits;
            numbered = v.numbered;
            distinct = v.distinct;
            saved_free = refl;
          };
          unsaved = refl;
          same_view = λ m. refl;
          same_names = λ m. refl;
        })
  ]

pub Slot-cases : (s : Slot) → ((p : ℕ) × (s ≡ slot p)) ⊎ ((s ≡ full) ⊎ (s ≡ no_memory))
Slot-cases (slot p) = inl (p, refl)
Slot-cases full = inr (inl refl)
Slot-cases no_memory = inr (inr refl)

module _ (kernel : Kernel) where
  -- Without a slot `get_seg_slot` changes no segment and keeps the invariant.
  pub get_seg_slot-other :
      (c : Context)
      → ((get_seg_slot kernel c).0 ≡ full) ⊎ ((get_seg_slot kernel c).0 ≡ no_memory)
      → ((get_seg_slot kernel c).1.seglist ≡ c.seglist)
        × ((get_seg_slot kernel c).1.seg_avail ≡ c.seg_avail)
  unfolding get_seg_slot new_segment
  get_seg_slot-other c (inl h) = ground arith
  get_seg_slot-other c (inr h) = ground arith
