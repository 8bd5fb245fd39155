-- ===== src/Segment/Laws/Meaning.antt =====
-- The segment API on the abstract table: a map from names to segments.
use mathlib.Core.Option
use memtoy.Base.{
  Bool, ℕ, ◌≡◌, ◌⊎◌, true, false, Option, none, some, List, [], ◌∷◌, Text, text_eq, if◌then◌else◌,
}
use memtoy.Context.{SegType, Segment, Kernel, Context}
use memtoy.Segment.Register.{basename}
use memtoy.Segment.Valid.Free.{unmapped}
use memtoy.Segment.Laws.Removal.{is_own}
use memtoy.Segment.Laws.Mapping.{type_of}
use memtoy.Segment.Laws.Cleaning.{drop_shm}
use memtoy.Segment.Laws.Reach.{Step, Reach, start, step}

-- The table as its users see it.
abbrev pub View : Type 0
View = Text → Option Segment

abbrev pub Same : View → View → Type 0
Same v w = (n : Text) → w n ≡ v n

-- The name stands for another thing, and the other names for what they did.
abbrev pub Put : Text → Option Segment → View → View → Type 0
Put name o v w = (n : Text) → w n ≡ (if text_eq n name then o else v n)

-- What a user of the segment API asks for; to look is what changes nothing.
pub data Op : Type 0 where
  enter : (type : SegType) (name : Text) (flags : ℕ) → Op
  remove : Text → Op
  unmap : Text → Op
  map : Text → Op
  protect : Text → ℕ → Op
  look : Op
  clean : Op

-- What an operation may do to the map from names to segments.
abbrev pub Meaning : Op → View → View → Type 0
Meaning (enter type name flags) v w =
    Same v w
    ⊎ (s : Segment) × (v name ≡ none)
      × (s.seg_name ≡ some name)
      × (s.seg_type ≡ type)
      × (s.seg_flags ≡ flags)
      × Put name (some s) v w
Meaning (remove name) v w =
    ((is_own (v name) ≡ true) × Put name none v w) ⊎ ((is_own (v name) ≡ false) × Same v w)
Meaning (unmap name) v w =
    ((is_own (v name) ≡ true) × Put name (Option.map unmapped (v name)) v w)
    ⊎ ((is_own (v name) ≡ false) × Same v w)
Meaning (map name) v w = (o : Option Segment) × (type_of o ≡ type_of (v name)) × Put name o v w
Meaning (protect name prot) v w =
    Same v w
    ⊎ (s : Segment) × (v name ≡ some s) × Put name (some (record s { seg_prot = prot })) v w
Meaning look v w = Same v w
Meaning clean v w = (n : Text) → w n ≡ drop_shm (v n)

-- A sequence of operations, the latest first.
abbrev pub Runs : List Op → View → View → Type 0
Runs [] v w = Same v w
Runs (o ∷ r) v w = (u : View) × Runs r v u × Meaning o u w

-- The operation that a call stands for.
abbrev pub op_of : {touching : Bool} {k : Kernel} {c d : Context} → Step touching k c d → Op
op_of (Step.register type name r flags t) = enter type (basename name) flags
op_of (Step.show name) = look
op_of (Step.remove name) = remove name
op_of (Step.unmap name) = unmap name
op_of (Step.map name r flags) = map name
op_of (Step.touch rounds name r writes t) = look
op_of (Step.mbind name r policy mask flags) = look
op_of (Step.location rounds name r) = look
op_of (Step.lock_unlock name r lock shm) = look
op_of (Step.range name) = look
op_of (Step.mprotect name prot) = protect name prot
op_of Step.clean = clean

abbrev pub ops_of : {touching : Bool} {k : Kernel} {c d : Context} → Reach touching k c d → List Op
ops_of start = []
ops_of (step h s) = op_of s ∷ ops_of h
