-- ===== src/Segment/Laws/Reach.antt =====
-- The invariant of the table after every sequence of calls of the
-- segment API that starts with the empty table.
use memtoy.Base.{ℕ, ◌≡◌, refl, Bool, true, false, Option, none, List, [], Text, arith, inl, inr}
use memtoy.Context.{SegType, Range, Kernel, Context, is_none}
use memtoy.Segment.Slots.{segment_get, segment_cleanup}
use memtoy.Segment.Map.{segment_map}
use memtoy.Segment.Register.{segment_register}
use memtoy.Segment.Touch.{segment_touch}
use memtoy.Segment.Ranges.{
  segment_remove, segment_unmap, segment_mbind, segment_lock_unlock, segment_range,
  segment_mprotect,
}
use memtoy.Segment.Show.{segment_show, segment_location}
use memtoy.Segment.Valid.Updates.{IsValid, IsValid-same}
use memtoy.Segment.Valid.Get.{segment_get-IsValid}
use memtoy.Segment.Laws.Removal.{segment_remove-IsValid, segment_unmap-IsValid}
use memtoy.Segment.Laws.Registration.{segment_register-IsValid}
use memtoy.Segment.Laws.Mapping.{segment_map-IsValid}
use memtoy.Segment.Laws.Access.{SameTable, segment_touch-same}
use memtoy.Segment.Laws.Cleaning.{segment_cleanup-IsValid}
use memtoy.Segment.Laws.Asking.{
  segment_mbind-same, segment_lock_unlock-same, segment_range-same, segment_mprotect-IsValid,
  segment_location-same, segment_show-same,
}

-- One call of the segment API, with any arguments and any outcome; memory is touched only where
-- `touching` says so.
pub data Step (touching : Bool) (kernel : Kernel) (c : Context) : Context → Type 0 where
  register :
      (type : SegType) (name : Text) (r : Range) (flags : ℕ)
      → is_none type ≡ false
      → Step touching kernel c (segment_register kernel type name r flags c).1
  show : (name : Option Text) → Step touching kernel c (segment_show kernel name c).2
  remove : (name : Text) → Step touching kernel c (segment_remove kernel name c).1
  unmap : (name : Text) → Step touching kernel c (segment_unmap kernel name c).1
  map :
      (name : Text) (r : Option Range) (flags : ℕ)
      → Step touching kernel c (segment_map kernel name r flags c).1
  touch :
      (rounds : ℕ) (name : Text) (r : Range) (writes : Bool)
      → touching ≡ true
      → Step touching kernel c (segment_touch kernel rounds name r writes c).1
  mbind :
      (name : Text) (r : Range) (policy : ℕ) (mask : Option (List ℕ)) (flags : ℕ)
      → Step touching kernel c (segment_mbind kernel name r policy mask flags c).1
  location :
      (rounds : ℕ) (name : Text) (r : Range)
      → Step touching kernel c (segment_location kernel rounds name r c).2
  lock_unlock :
      (name : Text) (r : Range) (lock shm : Bool)
      → Step touching kernel c (segment_lock_unlock kernel name r lock shm c).1
  range : (name : Text) → Step touching kernel c (segment_range kernel name c).1
  mprotect :
      (name : Text) (prot : ℕ) → Step touching kernel c (segment_mprotect kernel name prot c).1
  clean : Step touching kernel c (segment_cleanup c)

-- The contexts after any number of calls.
pub data Reach (touching : Bool) (kernel : Kernel) (c : Context) : Context → Type 0 where
  start : Reach touching kernel c c
  step :
      {d e : Context}
      → Reach touching kernel c d
      → Step touching kernel d e
      → Reach touching kernel c e

-- A table of null pointers and no saved slot, as `segment_init` makes it.
abbrev pub empty_table : Context → Context
empty_table c = record c { seglist = []; seg_avail = none }

pub empty_table-IsValid : (c : Context) → IsValid (empty_table c)
empty_table-IsValid c = record {
  fits = omega arith;
  numbered = tt;
  distinct = refl;
  saved_free = refl;
}

-- A call that only searches a name keeps the invariant.
searched-IsValid :
    (k : Kernel) (name : Text) (c d : Context)
    → SameTable (segment_get k name c).1 d
    → IsValid c
    → IsValid d
searched-IsValid k name c d (a, b) v =
    IsValid-same (segment_get k name c).1 d a b (segment_get-IsValid k name c v)

pub Step-IsValid :
    {touching : Bool} (k : Kernel) (c : Context)
    → IsValid c
    → {d : Context} → Step touching k c d
    → IsValid d
Step-IsValid k c v (register type name r flags t) =
    segment_register-IsValid k type name r flags c v t
Step-IsValid k c v (show name) = elim (segment_show-same k name c) [
  | inl (a, b) ↦ IsValid-same c (segment_show k name c).2 a b v
  | inr (n, same) ↦ searched-IsValid k n c (segment_show k name c).2 same v
]
Step-IsValid k c v (remove name) = segment_remove-IsValid k name c v
Step-IsValid k c v (unmap name) = segment_unmap-IsValid k name c v
Step-IsValid k c v (map name r flags) = segment_map-IsValid k name r flags c v
Step-IsValid k c v (touch rounds name r writes t) =
    searched-IsValid k name c _ (segment_touch-same k rounds name r writes c) v
Step-IsValid k c v (mbind name r policy mask flags) =
    searched-IsValid k name c _ (segment_mbind-same k name r policy mask flags c) v
Step-IsValid k c v (location rounds name r) =
    searched-IsValid k name c _ (segment_location-same k rounds name r c) v
Step-IsValid k c v (lock_unlock name r lock shm) =
    searched-IsValid k name c _ (segment_lock_unlock-same k name r lock shm c) v
Step-IsValid k c v (range name) = searched-IsValid k name c _ (segment_range-same k name c) v
Step-IsValid k c v (mprotect name prot) = segment_mprotect-IsValid k name prot c v
Step-IsValid k c v clean = (segment_cleanup-IsValid c v).0

pub Reach-keeps :
    {touching : Bool} (k : Kernel) (c : Context)
    → IsValid c
    → {d : Context} → Reach touching k c d
    → IsValid d
Reach-keeps k c v start = v
Reach-keeps k c v (step {d} h s) = Step-IsValid k d (Reach-keeps k c v h) s

-- Every table that the segment API produces from an empty one, by any calls with any answers of
-- the system, registrations of a type other than `SEGT_NONE`, is valid.
pub Reach-IsValid :
    {touching : Bool} (kernel : Kernel) (c : Context) {d : Context}
    → Reach touching kernel (empty_table c) d
    → IsValid d
Reach-IsValid kernel c h = Reach-keeps kernel (empty_table c) (empty_table-IsValid c) h
