-- ===== src/Segment/Laws/Cleaning.antt =====
-- `segment_cleanup`: the invariant, and what it does to the table, by slot and by name.
use memtoy.Base.{
  ℕ, zero, suc, ◌+◌, ◌<◌, ◌≡◌, refl, sym, ◌∙◌, true, false, Option, none, some, List, [], ◌∷◌, Text,
  length, length-set, get_or, set, get_or-set_self, set-get_or, ltb, ap, arith, Bool-cases, inl,
  inr, if◌then◌else◌, text_eq, text_eq_iff, Option-cases,
}
use memtoy.Context.{
  segt_none, segt_anon, segt_file, segt_shm, Segment, blank, Context, segment_at, is_shm, is_used,
}
use memtoy.Segment.Slots.{free_seg_slot, cleanup_from, segment_cleanup}
use memtoy.Segment.Valid.Updates.{IsValid, unique}
use memtoy.Segment.Valid.Free.{free_seg_slot-table, free_seg_slot-IsValid}
use memtoy.Segment.Valid.Lookup.{lookup, view, lookup-set_kept, lookup-set_removed}

length-free : (p : ℕ) (c : Context) → length (free_seg_slot p c).seglist ≡ length c.seglist
length-free p c = omega (
  arith,
  ap length (free_seg_slot-table p c),
  length-set c.seglist p (blank (segment_at c p).seg_slot),
)

get_or-set_ne :
    (l : List Segment) (i j : ℕ) (s d : Segment) → i < j → get_or (set l j s) i d ≡ get_or l i d
get_or-set_ne [] i j s d h = refl
get_or-set_ne (t ∷ r) i zero s d h = absurd (omega arith)
get_or-set_ne (t ∷ r) zero (suc j) s d h = refl
get_or-set_ne (t ∷ r) (suc i) (suc j) s d h = get_or-set_ne r i j s d (omega arith)

-- The slots in front of `i` hold no shared memory segment.
abbrev NoShm : ℕ → Context → Type 0
NoShm i c = (j : ℕ) → j < i → is_shm (segment_at c j).seg_type ≡ false

NoShm-free :
    (i : ℕ) (c : Context) → i < length c.seglist → NoShm i c → NoShm (suc i) (free_seg_slot i c)
NoShm-free i c lt h j le =
    let b = blank (segment_at c i).seg_slot in
    elim (Bool-cases (ltb j i)) [
      | inl e ↦
          let less : j < i = ground arith in
          rw free_seg_slot-table (rw (get_or-set_ne c.seglist j i b (blank j) less) (h j less))
      | inr e ↦
          let eq : j ≡ i = ground arith in
          rw eq (rw free_seg_slot-table (rw (get_or-set_self c.seglist i b (blank i) lt) refl))
    ]

NoShm-next :
    (i : ℕ) (c : Context) → is_shm (segment_at c i).seg_type ≡ false → NoShm i c → NoShm (suc i) c
NoShm-next i c e h j le = elim (Bool-cases (ltb j i)) [
  | inl l ↦ h j (ground arith)
  | inr l ↦ (let eq : j ≡ i = ground arith in rw eq e)
]

cleanup_from-lem :
    (k i : ℕ) (c : Context)
    → k + i ≡ length c.seglist
    → IsValid c
    → NoShm i c
    → IsValid (cleanup_from k i c) × NoShm (length c.seglist) (cleanup_from k i c)
unfolding cleanup_from
cleanup_from-lem zero i c e v h = (v, λ j lt. h j (omega arith))
cleanup_from-lem (suc k) i c e v h =
    elim ((segment_at c i).seg_type)
        as (λ t.
          (segment_at c i).seg_type ≡ t
          → IsValid (cleanup_from (suc k) i c)
            × NoShm (length c.seglist) (cleanup_from (suc k) i c)) [
              | segt_shm ↦ λ q.
                  let lt : i < length c.seglist = omega arith in
                  let rest =
                    cleanup_from-lem k (suc i) (free_seg_slot i c) (omega (arith, length-free i c))
                      (free_seg_slot-IsValid i c lt v) (NoShm-free i c lt h) in
                  rw (q, cleanup_from) (rest.0, λ j l. rest.1 j (omega (arith, length-free i c)))
              | segt_none ↦ λ q.
                  rw (q, cleanup_from)
                    (cleanup_from-lem k (suc i) c (omega arith) v (NoShm-next i c (ap is_shm q) h))
              | segt_anon ↦ λ q.
                  rw (q, cleanup_from)
                    (cleanup_from-lem k (suc i) c (omega arith) v (NoShm-next i c (ap is_shm q) h))
              | segt_file ↦ λ q.
                  rw (q, cleanup_from)
                    (cleanup_from-lem k (suc i) c (omega arith) v (NoShm-next i c (ap is_shm q) h))
            ]
      refl

length-cleanup_from :
    (k i : ℕ) (c : Context) → length (cleanup_from k i c).seglist ≡ length c.seglist
unfolding cleanup_from
length-cleanup_from zero i c = refl
length-cleanup_from (suc k) i c = ground (
  arith,
  length-cleanup_from k (suc i) c,
  length-cleanup_from k (suc i) (free_seg_slot i c),
  length-free i c,
)

pub length-segment_cleanup : (c : Context) → length (segment_cleanup c).seglist ≡ length c.seglist
unfolding segment_cleanup
length-segment_cleanup c = length-cleanup_from (length c.seglist) 0 c

-- On a valid table, the cleanup at exit keeps the invariant and leaves no shared memory segment in the table.
pub segment_cleanup-IsValid :
    (c : Context)
    → IsValid c
    → IsValid (segment_cleanup c)
      × ((j : ℕ)
          → j < length c.seglist
          → is_shm (segment_at (segment_cleanup c) j).seg_type ≡ false)
unfolding segment_cleanup
segment_cleanup-IsValid c v =
    cleanup_from-lem (length c.seglist) 0 c (omega arith) v (λ j lt. absurd (omega arith))

-- Nothing for a shared memory segment.
abbrev pub drop_shm : Option Segment → Option Segment
drop_shm none = none
drop_shm (some s) = if is_shm s.seg_type then none else some s

-- A table without shared memory segments.
drop_shm-lookup :
    (n : Text) (l : List Segment) (d : ℕ → Segment)
    → ((j : ℕ) → j < length l → is_shm (get_or l j (d j)).seg_type ≡ false)
    → drop_shm (lookup n l) ≡ lookup n l
unfolding lookup
drop_shm-lookup n [] d h = refl
drop_shm-lookup n (s ∷ r) d h =
    let own = h 0 (omega arith) in
    let ih = drop_shm-lookup n r (λ j. d (suc j)) (λ j lt. h (suc j) (omega arith)) in
    ground (arith, own, ih)

-- A used segment of a valid table has a name, and stands for it.
used-named :
    (l : List Segment) (p : ℕ) (d : Segment)
    → p < length l
    → unique l ≡ true
    → is_used (get_or l p d) ≡ true
    → (m : Text) × ((get_or l p d).seg_name ≡ some m)
used-named [] p d lt q u = elim lt [ ]
used-named (s ∷ r) zero d lt q u = elim (Option-cases s.seg_name) [
  | inl e ↦ absurd (ground arith)
  | inr (m, e) ↦ (m, e)
]
used-named (s ∷ r) (suc p) d lt q u = used-named r p d (omega arith) (ground arith) u

lookup-at :
    (m : Text) (l : List Segment) (p : ℕ) (d : Segment)
    → p < length l
    → unique l ≡ true
    → (get_or l p d).seg_name ≡ some m
    → is_used (get_or l p d) ≡ true
    → lookup m l ≡ some (get_or l p d)
lookup-at m l p d lt q e u =
    let kept = lookup-set_kept m m l p (get_or l p d) d lt e u e u q in
    let same = text_eq_iff m m in
    ap (lookup m) (sym (set-get_or l p d lt)) ∙ kept ∙ (ground (arith, same))

-- A shared memory segment that is freed is gone by its name, and no other segment.
view-free_shm :
    (i : ℕ) (c : Context) (n : Text)
    → i < length c.seglist
    → IsValid c
    → is_shm (segment_at c i).seg_type ≡ true
    → drop_shm (view (free_seg_slot i c) n) ≡ drop_shm (view c n)
view-free_shm i c n lt v q =
    let s = segment_at c i in
    let u : is_used s ≡ true = ground arith in
    let (m, e) = used-named c.seglist i (blank i) lt v.distinct u in
    let b = blank s.seg_slot in
    let at = lookup-set_removed n m c.seglist i b (blank i) lt e u refl v.distinct in
    let own = lookup-at m c.seglist i (blank i) lt v.distinct e u in
    rw free_seg_slot-table (
      rw at (elim (Bool-cases (text_eq n m)) [
        | inl h ↦
            let eq : n ≡ m = (text_eq_iff n m).0 h in
            let gone : drop_shm (view c n) ≡ none = rw eq (rw own (rw q refl)) in rw h (sym gone)
        | inr h ↦ rw h refl
      ]))

cleanup_from-view :
    (k i : ℕ) (c : Context) (n : Text)
    → k + i ≡ length c.seglist
    → IsValid c
    → NoShm i c
    → view (cleanup_from k i c) n ≡ drop_shm (view c n)
unfolding cleanup_from
cleanup_from-view zero i c n e v h =
    sym (drop_shm-lookup n c.seglist blank (λ j lt. h j (omega arith)))
cleanup_from-view (suc k) i c n e v h =
    let lt : i < length c.seglist = omega arith in
    elim (Bool-cases (is_shm (segment_at c i).seg_type)) [
      | inl q ↦
          let c1 = free_seg_slot i c in
          let rest =
            cleanup_from-view k (suc i) c1 n (omega (arith, length-free i c))
              (free_seg_slot-IsValid i c lt v) (NoShm-free i c lt h) in
          let out : cleanup_from (suc k) i c ≡ cleanup_from k (suc i) c1 = ground arith in
          rw out (rest ∙ view-free_shm i c n lt v q)
      | inr q ↦
          let out : cleanup_from (suc k) i c ≡ cleanup_from k (suc i) c = ground arith in
          rw out (cleanup_from-view k (suc i) c n (omega arith) v (NoShm-next i c q h))
    ]

-- On a valid table, the cleanup at exit keeps the invariant; afterwards a name that stood for a shared
-- memory segment stands for nothing, and every other name for what it did.
pub view-segment_cleanup :
    (c : Context)
    → IsValid c
    → IsValid (segment_cleanup c) × ((n : Text) → view (segment_cleanup c) n ≡ drop_shm (view c n))
unfolding segment_cleanup
view-segment_cleanup c v = (
  (cleanup_from-lem (length c.seglist) 0 c (omega arith) v (λ j lt. absurd (omega arith))).0,
  λ n. cleanup_from-view (length c.seglist) 0 c n (omega arith) v (λ j lt. absurd (omega arith)),
)
