-- ===== src/Segment/Laws/Registration.antt =====
-- `segment_register`: what it does to the table, by name.
use memtoy.Base.{
  ℕ, ◌<◌, ◌≡◌, ◌≢◌, refl, sym, ap, ◌∙◌, Bool, true, false, not, none, some, Text, text_eq, length,
  length-set, arith, Option-cases, ◌⊎◌, inl, inr, if◌then◌else◌,
}
use memtoy.Context.{
  SegType, Segment, blank, Range, Kernel, Context, segment_at, has_flag, segf_maps, is_none,
  Outcome, returned,
}
use memtoy.Segment.Slots.{get_seg_slot, segment_get}
use memtoy.Segment.Register.{basename, fill_slot, segment_register}
use memtoy.Segment.Valid.Updates.{
  has_name, free_at, free_at-lt, IsValid, IsValid-same, Numbered-set, slot-at, unique-set_unused,
  unique-set_fresh,
}
use memtoy.Segment.Valid.Lookup.{lookup, view, lookup-set_fresh, lookup-set_blank, lookup-none}
use memtoy.Segment.Valid.Get.{
  segment_get-IsValid, view-segment_get, segment_get-found, segment_get-missing,
}
use memtoy.Segment.Valid.Free.{save-avail_ok}
use memtoy.Segment.Laws.Choice.{get_seg_slot-Chosen, get_seg_slot-other, Slot-cases}
use memtoy.Segment.Laws.Slot.{Filled, fill_slot-Filled}

-- A filled or freed slot leaves a valid table.
Filled-IsValid :
    (p : ℕ) (type : SegType) (name : Text) (flags : ℕ) (c : Context) (b : Bool) (c' : Context)
    → free_at c.seglist p ≡ true
    → c.seg_avail ≡ none
    → has_name name c.seglist ≡ false
    → IsValid c
    → Filled p type name flags c b c'
    → IsValid c'
Filled-IsValid p type name flags c true c' f u h v (s, a, en, et, es, ef, w) =
    let lt : p < length c.seglist = free_at-lt c.seglist p f in
    let at : s.seg_slot ≡ p = es ∙ slot-at 0 c.seglist p (blank p) v.numbered lt ∙ omega arith in
    record {
      fits = rw a (omega (arith, v.fits, length-set c.seglist p s));
      numbered = rw a (Numbered-set 0 c.seglist p s (omega arith) v.numbered);
      distinct = rw a (unique-set_fresh name c.seglist p s en h v.distinct);
      saved_free = rw (w, u);
    }
Filled-IsValid p type name flags c false c' f u h v (a, w) =
    let lt : p < length c.seglist = free_at-lt c.seglist p f in
    let b : Segment = blank (segment_at c p).seg_slot in
    let at : b.seg_slot ≡ p = slot-at 0 c.seglist p (blank p) v.numbered lt ∙ omega arith in
    record {
      fits = rw a (omega (arith, v.fits, length-set c.seglist p b));
      numbered = rw a (Numbered-set 0 c.seglist p b (omega arith) v.numbered);
      distinct = rw a (unique-set_unused c.seglist p b refl v.distinct);
      saved_free = rw (w, a) (save-avail_ok c.seglist c.seg_avail p b refl lt v.saved_free);
    }

-- What a registration under a new name does to the table, by name: after success the name stands for
-- a segment of the given type and flags, else nothing has changed.
abbrev pub Entered : SegType → Text → ℕ → Context → Outcome → Context → Type 0
Entered type name flags c out c' =
    ((out ≡ returned true)
      × (s : Segment) × (s.seg_name ≡ some name)
      × (s.seg_type ≡ type)
      × (s.seg_flags ≡ flags)
      × ((n : Text) → view c' n ≡ (if text_eq n name then some s else view c n)))
    ⊎ ((out ≢ returned true) × ((n : Text) → view c' n ≡ view c n))

Filled-Entered :
    (p : ℕ) (type : SegType) (name : Text) (flags : ℕ) (c : Context) (b : Bool) (c' : Context)
    → is_none type ≡ false
    → free_at c.seglist p ≡ true
    → has_name name c.seglist ≡ false
    → Filled p type name flags c b c'
    → Entered type name flags c (returned b) c'
Filled-Entered p type name flags c true c' t f h (s, a, en, et, es, ef, w) = inl (
  refl,
  s,
  en,
  et,
  ef,
  λ n.
      ap (lookup n) a
      ∙ lookup-set_fresh n name c.seglist p s en (ap (λ y. not (is_none y)) et ∙ ap not t) h f,
)
Filled-Entered p type name flags c false c' t f h (a, w) = inr (
  (λ e. cc),
  λ n. ap (lookup n) a ∙ lookup-set_blank n c.seglist p (blank (segment_at c p).seg_slot) refl f,
)

-- Only a found slot counts as entered.
Entered-base :
    (type : SegType) (name : Text) (flags : ℕ) (c c2 : Context) (out : Outcome) (c' : Context)
    → ((n : Text) → view c2 n ≡ view c n)
    → Entered type name flags c2 out c'
    → Entered type name flags c out c'
Entered-base type name flags c c2 out c' same (inl (o, s, en, et, ef, w)) =
    inl (o, s, en, et, ef, λ n. w n ∙ ap (λ x. if text_eq n name then some s else x) (same n))
Entered-base type name flags c c2 out c' same (inr (o, w)) = inr (o, λ n. w n ∙ same n)

module _ (kernel : Kernel) (type : SegType) (name : Text) (r : Range) (flags : ℕ)
    (c : Context) where
  -- Registering keeps the invariant of the table, whatever the outcome.
  pub segment_register-IsValid :
      IsValid c → is_none type ≡ false → IsValid (segment_register kernel type name r flags c).1
  unfolding segment_register
  segment_register-IsValid v t =
      let g = segment_get kernel (basename name) c in
      let v1 : IsValid g.1 = segment_get-IsValid kernel (basename name) c v in
      let q = get_seg_slot kernel g.1 in
      elim (Option-cases g.0) [
        | inr (p, e) ↦ rw (e, segment_register) v1
        | inl e ↦
            let h : has_name (basename name) g.1.seglist ≡ false =
              segment_get-missing kernel (basename name) c e in
            elim (Slot-cases q.0) [
              | inl (p, e') ↦
                  let k = get_seg_slot-Chosen kernel g.1 v1 e' in
                  let out = fill_slot kernel p type name r flags q.1 in
                  rw (e, segment_register)
                    (rw (e', segment_register)
                      (Filled-IsValid p type (basename name) flags q.1 out.0 out.1 k.is_free
                        k.unsaved (k.same_names (basename name) ∙ h) k.valid
                        (fill_slot-Filled kernel p type name r flags q.1
                          (free_at-lt q.1.seglist p k.is_free))))
              | inr other ↦
                  let (a, b) = get_seg_slot-other kernel g.1 other in
                  let w : IsValid q.1 = IsValid-same g.1 q.1 a b v1 in
                  elim other [
                    | inl o ↦ rw (e, segment_register) (rw (o, segment_register) w)
                    | inr o ↦ rw (e, segment_register) (rw (o, segment_register) w)
                  ]
            ]
      ]

  -- On a valid table, registering a type other than `SEGT_NONE` under a base name that stands for
  -- nothing: after success the name stands for a segment
  -- of the given type and flags, and after a failure for nothing still; no other name is touched.
  pub segment_register-Entered :
      IsValid c
      → is_none type ≡ false
      → view c (basename name) ≡ none
      → let (out, c') = segment_register kernel type name r flags c in
        Entered type (basename name) flags c out c'
  unfolding segment_register
  segment_register-Entered v t absent =
      let base = basename name in
      let g = segment_get kernel base c in
      let v1 : IsValid g.1 = segment_get-IsValid kernel base c v in
      let same : (n : Text) → view g.1 n ≡ view c n = view-segment_get kernel base c in
      let q = get_seg_slot kernel g.1 in
      elim (Option-cases g.0) [
        | inr (p, e) ↦
            let f = segment_get-found kernel base c e in absurd (ground (arith, f.4, absent))
        | inl e ↦
            let h : has_name base g.1.seglist ≡ false = segment_get-missing kernel base c e in
            elim (Slot-cases q.0) [
              | inl (p, e') ↦
                  let k = get_seg_slot-Chosen kernel g.1 v1 e' in
                  let out = fill_slot kernel p type name r flags q.1 in
                  let done : Entered type base flags q.1 (returned out.0) out.1 =
                    Filled-Entered p type base flags q.1 out.0 out.1 t k.is_free
                      (k.same_names base ∙ h)
                      (fill_slot-Filled kernel p type name r flags q.1
                        (free_at-lt q.1.seglist p k.is_free)) in
                  rw (e, segment_register)
                    (rw (e', segment_register)
                      (Entered-base type base flags c q.1 (returned out.0) out.1
                        (λ n. k.same_view n ∙ same n) done))
              | inr other ↦
                  let (a, b) = get_seg_slot-other kernel g.1 other in
                  let w : (n : Text) → view q.1 n ≡ view c n = λ n. ap (lookup n) a ∙ same n in
                  elim other [
                    | inl o ↦
                        rw (e, segment_register) (rw (o, segment_register) (inr ((λ y. cc), w)))
                    | inr o ↦
                        rw (e, segment_register) (rw (o, segment_register) (inr ((λ y. cc), w)))
                  ]
            ]
      ]

  -- On a valid table, registering under a base name that is taken changes no segment; it is a success
  -- exactly for segments of the task's maps.
  pub segment_register-duplicate :
      {s : Segment}
      → IsValid c
      → view c (basename name) ≡ some s
      → ((segment_register kernel type name r flags c).0 ≡ returned (has_flag flags segf_maps))
        × ((n : Text) → view (segment_register kernel type name r flags c).1 n ≡ view c n)
  unfolding segment_register
  segment_register-duplicate v taken =
      let base = basename name in
      let g = segment_get kernel base c in
      elim (Option-cases g.0) [
        | inr (p, e) ↦ (
          rw (e, segment_register),
          λ n. rw (e, segment_register) (view-segment_get kernel base c n),
        )
        | inl e ↦
            let gone : view c base ≡ none =
              sym (view-segment_get kernel base c base)
              ∙ lookup-none base g.1.seglist (segment_get-missing kernel base c e) in
            absurd (ground (arith, gone, taken))
      ]
