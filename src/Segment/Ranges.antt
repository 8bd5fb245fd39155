-- ===== src/Segment/Ranges.antt =====
-- `segment_unmap`, `segment_remove`, `segment_mbind`, `segment_lock_unlock`, `segment_range` and
-- `segment_mprotect` of segment.c.
use memtoy.Base.{
  ℕ, ◌+◌, ◌%◌, Bool, true, false, Option, none, some, List, Text, word, ◌==◌, if◌then◌else◌,
}
use memtoy.Context.{
  is_shm, Range, Kernel, failed, value, Reply, Call, Context, sys, segment_at, put_segment,
  has_flag, segf_maps, map_failed,
}
use memtoy.Segment.Slots.{segment_get, unmap_segment, free_seg_slot}
use memtoy.Segment.Round.{clip}

-- The status for a call that is 0 or more on success.
abbrev pub status : Reply × Context → Bool × Context
status (failed e, c) = (false, c)
status (value v, c) = (true, c)

module _ (kernel : Kernel) where
  unfoldable pub segment_remove : Text → Context → Bool × Context
  segment_remove name c =
      let (found, c') = segment_get kernel name c in
      elim found [
        | none ↦ (false, c')
        | some p ↦
            if has_flag (segment_at c' p).seg_flags segf_maps
            then (false, c')
            else (true, free_seg_slot p (unmap_segment p c'))
      ]

  unfoldable pub segment_unmap : Text → Context → Bool × Context
  segment_unmap name c =
      let (found, c') = segment_get kernel name c in
      elim found [
        | none ↦ (false, c')
        | some p ↦
            if has_flag (segment_at c' p).seg_flags segf_maps
            then (false, c')
            else (true, unmap_segment p c')
      ]

  unfoldable pub segment_mbind : Text → Range → ℕ → Option (List ℕ) → ℕ → Context → Bool × Context
  segment_mbind name r policy nodemask flags c =
      let (found, c') = segment_get kernel name c in
      elim found [
        | none ↦ (false, c')
        | some p ↦
            let s = segment_at c' p in
            if s.seg_start == map_failed then (false, c') else elim (clip r s) [
              | none ↦ (false, c')
              | some (offset, length) ↦
                  let start = (s.seg_start + offset) % word in
                  status (sys kernel (Call.mbind start length policy nodemask flags) c')
            ]
      ]

  unfoldable pub segment_lock_unlock : Text → Range → Bool → Bool → Context → Bool × Context
  segment_lock_unlock name r lock shm c =
      let (found, c') = segment_get kernel name c in
      elim found [
        | none ↦ (false, c')
        | some p ↦
            let s = segment_at c' p in
            if s.seg_start == map_failed
            then (false, c')
            else if shm
            then (if is_shm s.seg_type
                then status (sys kernel (Call.shmctl_lock s.seg_shmid lock) c')
                else (false, c'))
            else elim (clip r s) [
              | none ↦ (false, c')
              | some (offset, length) ↦
                  let start = (s.seg_start + offset) % word in
                  status (
                    sys kernel (if lock then Call.mlock start length else Call.munlock start length)
                      c')
            ]
      ]

  -- Offset and length of a segment, or `none` for the null pointer.
  unfoldable pub segment_range : Text → Context → Option (ℕ × ℕ) × Context
  segment_range name c =
      let (found, c') = segment_get kernel name c in
      elim found [
        | none ↦ (none, c')
        | some p ↦ (some ((segment_at c' p).seg_offset, (segment_at c' p).seg_length), c')
      ]

  unfoldable pub segment_mprotect : Text → ℕ → Context → Bool × Context
  segment_mprotect name prot c =
      let (found, c') = segment_get kernel name c in
      elim found [
        | none ↦ (false, c')
        | some p ↦
            let s = segment_at c' p in
            let (reply, c'') = sys kernel (Call.mprotect s.seg_start s.seg_length prot) c' in
            elim reply [
              | failed e ↦ (false, c'')
              | value v ↦ (true, put_segment p (record s { seg_prot = prot }) c'')
            ]
      ]
