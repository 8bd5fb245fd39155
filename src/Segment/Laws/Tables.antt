-- ===== src/Segment/Laws/Tables.antt =====
-- The segment table up to what its names stand for: slots, their order, the saved free slot and
-- the history of calls are forgotten.
use mathlib.Core.Quot
use mathlib.Core.Quot.{Quot, Quot-set}
use memtoy.Base.{
  ℕ, ◌≡◌, refl, sym, ap, ◌∙◌, false, ◌&&◌, none, some, Text, text_eq, text_eq_iff, text_eq_refl,
  arith, inl, inr, Bool-cases, if◌then◌else◌,
}
use memtoy.Context.{SegType, Segment, Range, Kernel, Context, is_none, has_flag, segf_maps}
use memtoy.Segment.Register.{basename, segment_register}
use memtoy.Segment.Ranges.{segment_remove}
use memtoy.Segment.Valid.Updates.{IsValid}
use memtoy.Segment.Valid.Lookup.{view}
use memtoy.Segment.Laws.Removal.{is_own, segment_remove-IsValid, view-segment_remove}
use memtoy.Segment.Laws.Registration.{segment_register-IsValid, segment_register-Entered}
use memtoy.Segment.Laws.Meaning.{View, Same, Put}

abbrev pub Valid : Type 0
Valid = (c : Context) × IsValid c

abbrev pub SameNames : Valid → Valid → Type 0
SameNames a b = Same (view a.0) (view b.0)

abbrev pub Table : Type 0
Table = Quot SameNames

abbrev pub table_of : (c : Context) → IsValid c → Table
table_of c v = Quot.mk (c, v)

-- A view without the segments of one's own under a name.
without : Text → View → View
without name v n = if is_own (v name) && text_eq n name then none else v n

-- A segment of one's own that has been entered under a free name and is taken away again.
without-entered :
    (name : Text) (s : Segment) (v w : View)
    → v name ≡ none
    → has_flag s.seg_flags segf_maps ≡ false
    → Put name (some s) v w
    → Same (without name w) v
unfolding without
without-entered name s v w absent own put n =
    let at = put name in
    let own_at : w name ≡ some s = rw at (rw (text_eq_refl name) refl) in
    let at_n = put n in
    elim (Bool-cases (text_eq n name)) [
      | inl h ↦
          let eq : n ≡ name = (text_eq_iff n name).0 h in
          let gone : v n ≡ none = ap v eq ∙ absent in rw (own_at, own, h) gone
      | inr h ↦ rw (own_at, own, h) (sym (ground (arith, at_n)))
    ]

without-absent : (name : Text) (v w : View) → v name ≡ none → Same v w → Same (without name w) v
unfolding without
without-absent name v w absent same n = let a = same name in let b = same n in ground (arith, a, b)

module _ (kernel : Kernel) where
  removed : Text → Valid → Valid
  removed name a = ((segment_remove kernel name a.0).1, segment_remove-IsValid kernel name a.0 a.1)

  view-removed :
      (name : Text) (a : Valid) (n : Text) → view (removed name a).0 n ≡ without name (view a.0) n
  unfolding removed without
  view-removed name a n = (view-segment_remove kernel name a.0 a.1).1 n

  without-Same : (name : Text) (v w : View) → Same v w → Same (without name v) (without name w)
  unfolding without
  without-Same name v w h n = let a = h name in let b = h n in ground (arith, a, b)

  removed-Same :
      (name : Text) (a b : Valid) → SameNames a b → SameNames (removed name a) (removed name b)
  removed-Same name a b h n =
      view-removed name b n
      ∙ without-Same name (view a.0) (view b.0) h n
      ∙ sym (view-removed name a n)

  -- `segment_remove` on tables, whatever stands in their slots.
  pub drop : Text → Table → Table
  drop name =
      Quot.lift Quot-set (λ a. Quot.mk (removed name a))
        (λ a b h. Quot.sound (removed-Same name a b h))

  -- On a valid table where the base name stands for nothing: registering a type other than `SEGT_NONE`,
  -- without the flag of the task's maps, and removing it again gives a table in which every name stands for
  -- what it did, whether the registration succeeds or not.
  pub register-drop :
      (type : SegType) (name : Text) (r : Range) (flags : ℕ) (c : Context) (v : IsValid c)
      (t : is_none type ≡ false)
      → view c (basename name) ≡ none
      → has_flag flags segf_maps ≡ false
      → let c' = (segment_register kernel type name r flags c).1 in
        drop (basename name) (table_of c' (segment_register-IsValid kernel type name r flags c v t))
        ≡ table_of c v
  unfolding drop
  register-drop type name r flags c v t absent own =
      let c' = (segment_register kernel type name r flags c).1 in
      let v' = segment_register-IsValid kernel type name r flags c v t in
      let gone = view-removed (basename name) (c', v') in
      Quot.sound (λ n. elim (segment_register-Entered kernel type name r flags c v t absent) [
        | inl (o, s, en, et, ef, put) ↦
            without-entered (basename name) s (view c) (view c') absent
              (ap (λ f. has_flag f segf_maps) ef ∙ own) put n
            ∙ sym (gone n)
        | inr (o, same) ↦
            without-absent (basename name) (view c) (view c') absent same n ∙ sym (gone n)
      ])
