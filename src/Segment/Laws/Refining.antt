-- ===== src/Segment/Laws/Refining.antt =====
-- The calls of the segment API as operations on the abstract table.
use mathlib.Core.Option
use memtoy.Base.{
  Bool, ℕ, ◌≡◌, ◌⊎◌, refl, ap, ◌∙◌, true, false, ◌&&◌, Option, none, Text, text_eq, text_eq_iff,
  arith, inl, inr, Bool-cases, Option-cases, if◌then◌else◌,
}
use memtoy.Context.{SegType, Segment, Range, Kernel, Context, is_none}
use memtoy.Segment.Slots.{segment_get}
use memtoy.Segment.Register.{basename, segment_register}
use memtoy.Segment.Map.{segment_map}
use memtoy.Segment.Ranges.{
  segment_remove, segment_unmap, segment_mprotect, segment_mbind, segment_lock_unlock,
  segment_range,
}
use memtoy.Segment.Touch.{segment_touch}
use memtoy.Segment.Show.{segment_show, segment_location}
use memtoy.Segment.Valid.Updates.{IsValid}
use memtoy.Segment.Valid.Free.{unmapped}
use memtoy.Segment.Valid.Lookup.{lookup, view}
use memtoy.Segment.Valid.Get.{view-segment_get}
use memtoy.Segment.Laws.Access.{SameTable, segment_touch-same}
use memtoy.Segment.Laws.Asking.{
  segment_mbind-same, segment_lock_unlock-same, segment_range-same, segment_location-same,
  segment_show-same,
}
use memtoy.Segment.Laws.Removal.{is_own, view-segment_remove, view-segment_unmap}
use memtoy.Segment.Laws.Registration.{segment_register-Entered, segment_register-duplicate}
use memtoy.Segment.Laws.Mapping.{view-segment_map}
use memtoy.Segment.Laws.Protection.{Protected, segment_mprotect-Protected}
use memtoy.Segment.Laws.Cleaning.{view-segment_cleanup}
use memtoy.Segment.Laws.Reach.{Step, Reach, start, step, Reach-keeps}
use memtoy.Segment.Laws.Meaning.{View, Same, Put, enter, map, protect, Meaning, Runs, op_of, ops_of}

searched-Same :
    (k : Kernel) (name : Text) (c d : Context)
    → SameTable (segment_get k name c).1 d
    → Same (view c) (view d)
searched-Same k name c d (a, b) n = ap (lookup n) a ∙ view-segment_get k name c n

register-Meaning :
    (k : Kernel) (type : SegType) (name : Text) (r : Range) (flags : ℕ) (c : Context)
    → IsValid c
    → is_none type ≡ false
    → Meaning
        (enter type (basename name) flags)
        (view c)
        (view (segment_register k type name r flags c).1)
register-Meaning k type name r flags c v t = elim (Option-cases (view c (basename name))) [
  | inl e ↦ elim (segment_register-Entered k type name r flags c v t e) [
    | inl (o, s, en, et, ef, w) ↦ inr (s, e, en, et, ef, w)
    | inr (o, w) ↦ inl w
  ]
  | inr (s, e) ↦ inl (segment_register-duplicate k type name r flags c v e).1
]

-- An operation on a segment of one's own.
own-cases :
    (name : Text) (o : Option Segment) (v w : View)
    → ((n : Text) → w n ≡ (if is_own (v name) && text_eq n name then o else v n))
    → ((is_own (v name) ≡ true) × Put name o v w) ⊎ ((is_own (v name) ≡ false) × Same v w)
own-cases name o v w h = elim (Bool-cases (is_own (v name))) [
  | inl e ↦ inl (e, λ n. let q = h n in ground (arith, q))
  | inr e ↦ inr (e, λ n. let q = h n in ground (arith, q))
]

map-Meaning :
    (k : Kernel) (name : Text) (r : Option Range) (flags : ℕ) (c : Context)
    → IsValid c
    → Meaning (map name) (view c) (view (segment_map k name r flags c).1)
map-Meaning k name r flags c v =
    let w = view (segment_map k name r flags c).1 in
    let (same_type, others) = view-segment_map k name r flags c v in
    (
      w name,
      same_type,
      λ n. elim (Bool-cases (text_eq n name)) [
        | inl h ↦ (let eq : n ≡ name = (text_eq_iff n name).0 h in rw h (ap w eq))
        | inr h ↦ rw h (others n h)
      ],
    )

mprotect-Meaning :
    (k : Kernel) (name : Text) (prot : ℕ) (c : Context)
    → IsValid c
    → Meaning (protect name prot) (view c) (view (segment_mprotect k name prot c).1)
mprotect-Meaning k name prot c v =
    let out = segment_mprotect k name prot c in
    elim (out.0)
        as (λ b.
          Protected name prot c b out.1 → Meaning (protect name prot) (view c) (view out.1)) [
            | true ↦ λ p. inr p
            | false ↦ λ p. inl p
          ]
      (segment_mprotect-Protected k name prot c v)

show-Same :
    (k : Kernel) (name : Option Text) (c : Context) → Same (view c) (view (segment_show k name c).2)
show-Same k name c = elim (segment_show-same k name c) [
  | inl (a, b) ↦ λ n. ap (lookup n) a
  | inr (m, same) ↦ searched-Same k m c (segment_show k name c).2 same
]

-- On a valid table, a call of the segment API does to the map from names to segments what its
-- operation may do.
pub Step-Meaning :
    {touching : Bool} (k : Kernel) (c : Context) {d : Context}
    → IsValid c
    → (s : Step touching k c d) → Meaning (op_of s) (view c) (view d)
Step-Meaning k c v (Step.register type name r flags t) = register-Meaning k type name r flags c v t
Step-Meaning k c v (Step.show name) = show-Same k name c
Step-Meaning k c v (Step.remove name) =
    own-cases name none (view c) (view (segment_remove k name c).1)
      (view-segment_remove k name c v).1
Step-Meaning k c v (Step.unmap name) =
    own-cases name (Option.map unmapped (view c name)) (view c) (view (segment_unmap k name c).1)
      (view-segment_unmap k name c v).1
Step-Meaning k c v (Step.map name r flags) = map-Meaning k name r flags c v
Step-Meaning k c v (Step.touch rounds name r writes t) =
    searched-Same k name c (segment_touch k rounds name r writes c).1
      (segment_touch-same k rounds name r writes c)
Step-Meaning k c v (Step.mbind name r policy mask flags) =
    searched-Same k name c (segment_mbind k name r policy mask flags c).1
      (segment_mbind-same k name r policy mask flags c)
Step-Meaning k c v (Step.location rounds name r) =
    searched-Same k name c (segment_location k rounds name r c).2
      (segment_location-same k rounds name r c)
Step-Meaning k c v (Step.lock_unlock name r lock shm) =
    searched-Same k name c (segment_lock_unlock k name r lock shm c).1
      (segment_lock_unlock-same k name r lock shm c)
Step-Meaning k c v (Step.range name) =
    searched-Same k name c (segment_range k name c).1 (segment_range-same k name c)
Step-Meaning k c v (Step.mprotect name prot) = mprotect-Meaning k name prot c v
Step-Meaning k c v Step.clean = (view-segment_cleanup c v).1

-- From a valid table on, whatever calls of the segment API are made, with any arguments and any answers
-- of the system: the map from names to segments runs through what the operations of the calls may do
-- to it, in their order.
pub Reach-Runs :
    {touching : Bool} (k : Kernel) (c : Context) {d : Context}
    → IsValid c
    → (h : Reach touching k c d) → Runs (ops_of h) (view c) (view d)
Reach-Runs k c v start = λ n. refl
Reach-Runs k c v (step {d} h s) =
    (view d, Reach-Runs k c v h, Step-Meaning k d (Reach-keeps k c v h) s)
