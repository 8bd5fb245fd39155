-- ===== src/Segment/Laws/Protection.antt =====
-- `segment_mprotect`: what it does to the table, by name.
use memtoy.Base.{
  ℕ, ◌≡◌, ap, ◌∙◌, Bool, true, false, some, Text, text_eq, arith, Option-cases, inl, inr,
  if◌then◌else◌,
}
use memtoy.Context.{
  Segment, blank, Kernel, Call, Context, Reply-cases, segment_at, put_segment, tell,
}
use memtoy.Segment.Slots.{segment_get}
use memtoy.Segment.Ranges.{segment_mprotect}
use memtoy.Segment.Valid.Updates.{IsValid}
use memtoy.Segment.Valid.Lookup.{view, lookup-set_kept}
use memtoy.Segment.Valid.Get.{segment_get-IsValid, view-segment_get}
use memtoy.Segment.Laws.Removal.{found_facts}

-- The protection of the named segment has been set, or nothing has changed.
abbrev pub Protected : Text → ℕ → Context → Bool → Context → Type 0
Protected name prot c true c' =
    (s : Segment) × (view c name ≡ some s)
    × ((n : Text)
        → view c' n ≡ (if text_eq n name then some (record s { seg_prot = prot }) else view c n))
Protected name prot c false c' = (n : Text) → view c' n ≡ view c n

-- On a valid table: after success the named segment is the same but for its protection, and no other name is
-- touched; after a failure nothing has changed.
pub segment_mprotect-Protected :
    (kernel : Kernel) (name : Text) (prot : ℕ) (c : Context)
    → IsValid c
    → let (done, c') = segment_mprotect kernel name prot c in Protected name prot c done c'
unfolding segment_mprotect
segment_mprotect-Protected kernel name prot c v =
    let g = segment_get kernel name c in
    let v1 : IsValid g.1 = segment_get-IsValid kernel name c v in
    let same : (n : Text) → view g.1 n ≡ view c n = view-segment_get kernel name c in
    let out = segment_mprotect kernel name prot c in
    elim (Option-cases g.0) [
      | inl e ↦ (let eq : out ≡ (false, g.1) = ground arith in rw eq same)
      | inr (p, e) ↦
          let (lt, en, u, w) = found_facts kernel name c e in
          let s = segment_at g.1 p in
          let call = Call.mprotect s.seg_start s.seg_length prot in
          let c2 = tell call g.1 in
          elim (Reply-cases (kernel g.1.trace call)) [
            | inl (err, h) ↦ (let eq : out ≡ (false, c2) = ground arith in rw eq same)
            | inr (ok, h) ↦
                let s' = record s { seg_prot = prot } in
                let eq : out ≡ (true, put_segment p s' c2) = ground arith in
                rw eq (
                  s,
                  w,
                  λ n.
                      lookup-set_kept n name g.1.seglist p s' (blank p) lt en u en u v1.distinct
                      ∙ ap (λ o. if text_eq n name then some s' else o) (same n),
                )
          ]
    ]
