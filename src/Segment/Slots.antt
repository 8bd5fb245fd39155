-- ===== src/Segment/Slots.antt =====
-- The slot management of segment.c: `get_seg_slot`, `unmap_segment`, `free_seg_slot`,
-- `segment_cleanup`, `segment_get`.
use memtoy.Base.{
  ℕ, zero, suc, Bool, true, false, ◌||◌, Option, none, some, List, [], ◌∷◌, ◌++◌, Text, ltb, ◌==◌,
  if◌then◌else◌, length,
}
use memtoy.Context.{
  segt_none, segt_anon, segt_file, segt_shm, Segment, blank, Kernel, failed, value, Call, Context,
  tell, segment_at, put_segment, is_none, named, has_flag, segf_maps, map_failed, max_segments,
}

-- The outcome of `get_seg_slot`: a slot, a full table, or a write through the null pointer that
-- `new_segment` returns where memory is exhausted.
pub data Slot : Type 0 where
  slot : ℕ → Slot
  full : Slot
  no_memory : Slot

-- The first slot of the table that holds no segment.
unfoldable pub first_free : ℕ → List Segment → Option ℕ
first_free i [] = none
first_free i (s ∷ r) =
    let rest = first_free (suc i) r in if is_none s.seg_type then some i else rest

-- A new slot behind the others, with its number in it.
abbrev pub append_slot : Context → Context
append_slot c = record c { seglist = c.seglist ++ blank (length c.seglist) ∷ [] }

-- The scan of `segment_get`: the slot with the name if there is one, and the first free slot
-- that was passed on the way if no slot was saved before.
unfoldable pub scan : Text → ℕ → List Segment → Option ℕ → Option ℕ × Option ℕ
scan name i [] avail = (none, avail)
scan name i (s ∷ r) avail =
    let saved : Option ℕ = elim avail [ none ↦ some i | some p ↦ some p ] in
    let rest = scan name (suc i) r (if is_none s.seg_type then saved else avail) in
    if is_none s.seg_type then rest else if named name s then (some i, avail) else rest

module _ (kernel : Kernel) where
  -- `new_segment` and the store of its result in the table: true if there is memory.
  unfoldable pub new_segment : Context → Bool × Context
  new_segment c = elim (kernel c.trace Call.calloc) [
    | failed e ↦ (false, tell Call.calloc c)
    | value v ↦ (true, append_slot (tell Call.calloc c))
  ]

  -- The saved slot, else the first free one, else a new one while the table has room.
  unfoldable pub get_seg_slot : Context → Slot × Context
  get_seg_slot c = elim (c.seg_avail) [
    | some p ↦ (slot p, record c { seg_avail = none })
    | none ↦ elim (first_free 0 c.seglist) [
      | some p ↦ (slot p, c)
      | none ↦
          if ltb (length c.seglist) max_segments
          then (let (made, c') = new_segment c in
              if made then (slot (length c.seglist), c') else (no_memory, c'))
          else (full, c)
    ]
  ]

  unfoldable pub segment_get : Text → Context → Option ℕ × Context
  segment_get name c =
      let (found, avail) = scan name 0 c.seglist c.seg_avail in
      let c' = record c { seg_avail = avail } in
      elim found [
        | some p ↦ (some p, c')
        | none ↦ elim avail [
          | some p ↦ (none, c')
          | none ↦
              if ltb (length c.seglist) max_segments
              then (let (made, c'') = new_segment c' in
                  (none, if made then record c'' { seg_avail = some (length c.seglist) } else c''))
              else (none, c')
        ]
      ]

-- Undoes the mapping of a segment that is mapped and does not come from the task's maps.
unfoldable pub unmap_segment : ℕ → Context → Context
unmap_segment p c =
    let s = segment_at c p in
    let c' : Context = elim (s.seg_type) [
      | segt_anon ↦ tell (Call.munmap s.seg_start s.seg_length) c
      | segt_file ↦ tell (Call.munmap s.seg_start s.seg_length) c
      | segt_shm ↦ tell (Call.shmdt s.seg_start) c
      | segt_none ↦ c
    ] in
    if (s.seg_start == map_failed) || has_flag s.seg_flags segf_maps
    then c
    else put_segment p (record s { seg_start = map_failed }) c'

-- `close(fd)` or `shmctl(id, IPC_RMID)`, where the segment has one
abbrev pub release : Segment → Context → Context
release s c = elim (s.seg_type) [
  | segt_file ↦ elim (s.seg_fd) [ none ↦ c | some fd ↦ tell (Call.close (some fd)) c ]
  | segt_shm ↦ elim (s.seg_shmid) [ none ↦ c | some id ↦ tell (Call.shmctl_remove (some id)) c ]
  | segt_anon ↦ c
  | segt_none ↦ c
]

-- Clears the slot but for its number, and saves it if no slot is saved.
unfoldable pub free_seg_slot : ℕ → Context → Context
free_seg_slot p c =
    let s = segment_at c p in
    let c' = put_segment p (blank s.seg_slot) (release s c) in
    record c' { seg_avail = elim (c.seg_avail) [ none ↦ some p | some q ↦ some q ] }

-- Frees every shared memory segment, from the slot `i` on for as many slots as are left.
unfoldable pub cleanup_from : ℕ → ℕ → Context → Context
cleanup_from zero i c = c
cleanup_from (suc k) i c = elim ((segment_at c i).seg_type) [
  | segt_shm ↦ cleanup_from k (suc i) (free_seg_slot i c)
  | segt_none ↦ cleanup_from k (suc i) c
  | segt_anon ↦ cleanup_from k (suc i) c
  | segt_file ↦ cleanup_from k (suc i) c
]

unfoldable pub segment_cleanup : Context → Context
segment_cleanup c = cleanup_from (length c.seglist) 0 c
