-- ===== src/Segment/Register.antt =====
-- `open_file`, `get_shm_segment` and `segment_register` of segment.c, and the `basename`
-- of the C library.
use memtoy.Base.{
  ℕ, ◌-◌, ◌^◌, Bool, true, false, ◌&&◌, Option, none, some, [], ◌∷◌, ◌++◌, Text, text, is_empty,
  bit_and, bit_or, ◌==◌, if◌then◌else◌,
}
use memtoy.Context.{
  SegType, segt_none, segt_anon, segt_file, segt_shm, is_file, Segment, Range, Kernel, failed,
  value, Reply, Call, Context, sys, segment_at, put_segment, has_flag, map_failed, segf_maps,
  shm_hugetlb, prot_read, prot_write, prot_exec, Outcome, returned, crashed, null_write, seg_err,
}
use memtoy.Segment.Slots.{slot, full, no_memory, get_seg_slot, segment_get, free_seg_slot}
use memtoy.Segment.Map.{aligned}

-- The text without the slashes at its end.
unfoldable pub trim_slashes : Text → Text
trim_slashes [] = []
trim_slashes (c ∷ s) =
    let rest = trim_slashes s in if (c == b'/') && is_empty rest then [] else c ∷ rest

-- What stands behind the last slash; `seen` is what has been read since.
unfoldable pub after_slash : Text → Text → Text
after_slash seen [] = seen
after_slash seen (c ∷ s) = after_slash (if c == b'/' then [] else seen ++ c ∷ []) s

unfoldable pub basename : Text → Text
basename path =
    if is_empty (trim_slashes path)
    then (if is_empty path then text "." else text "/")
    else after_slash [] (trim_slashes path)

-- `basename` cuts the slashes at the end off the text that it is given.
unfoldable pub cut_path : Text → Text
cut_path path = if is_empty (trim_slashes path) then path else trim_slashes path

-- `flags & ~mask`
abbrev pub clear_flag : ℕ → ℕ → ℕ
clear_flag flags mask = bit_and flags (2 ^ 32 - 1 - mask)

-- `S_ISREG(mode)`
abbrev pub is_regular : ℕ → Bool
is_regular mode = bit_and mode 0o170000 == 0o100000

abbrev pub succeeded : Reply → Bool
succeeded (failed e) = false
succeeded (value v) = true

abbrev pub path_of : Segment → Text
path_of s = elim (s.seg_path) [ none ↦ [] | some path ↦ path ]

-- The fields that every new segment gets.
abbrev pub fresh : SegType → Text → Range → ℕ → Segment → Segment
fresh type name r flags s = record s {
  seg_name = some (basename name);
  seg_start = map_failed;
  seg_length = r.length;
  seg_offset = r.offset;
  seg_type = type;
  seg_flags = flags;
  seg_prot = bit_or prot_read prot_write;
  seg_fd = none;
  seg_shmid = none;
}

-- A segment of the task's own maps.
abbrev pub from_maps : SegType → Text → Range → Segment → Segment
from_maps type name r s =
    if is_file type
    then record s {
      seg_start = r.start;
      seg_path = some name;
      seg_prot = bit_or s.seg_prot prot_exec;
    }
    else record s { seg_start = r.start }

module _ (kernel : Kernel) where
  -- The mode to open with and the protection left, or `none` if the file cannot be accessed.
  unfoldable pub choose_access : Text → ℕ → Context → Option (ℕ × ℕ) × Context
  choose_access path prot c =
      let (both, c1) = sys kernel (Call.access path 6) c in
      let (readable, c2) = sys kernel (Call.access path 4) c1 in
      let (writable, c3) = sys kernel (Call.access path 2) c2 in
      if succeeded both
      then (some (2, prot), c1)
      else if succeeded readable
      then (some (0, clear_flag prot prot_write), c2)
      else if succeeded writable
      then (some (1, clear_flag prot prot_read), c3)
      else (none, c3)

  -- `open` with the chosen mode, and the descriptor into the segment.
  unfoldable pub open_with : ℕ → ℕ → ℕ → Context → Bool × Context
  open_with p mode prot c =
      let s = record (segment_at c p) { seg_prot = prot } in
      let (reply, c') = sys kernel (Call.open_file (path_of s) mode) (put_segment p s c) in
      elim reply [
        | failed e ↦ (false, free_seg_slot p c')
        | value fd ↦ (true, put_segment p (record s { seg_fd = some fd }) c')
      ]

  unfoldable pub open_file : ℕ → Context → Bool × Context
  open_file p c =
      let s = segment_at c p in
      let (mode, c1) = sys kernel (Call.stat (path_of s)) c in
      let regular : Bool = elim mode [ failed e ↦ false | value m ↦ is_regular m ] in
      let (chosen, c2) = choose_access (path_of s) s.seg_prot c1 in
      if regular
      then elim chosen [
        | none ↦ (false, free_seg_slot p c2)
        | some (flags, prot) ↦ open_with p flags prot c2
      ]
      else (false, free_seg_slot p c1)

  unfoldable pub get_shm_segment : ℕ → Context → Bool × Context
  get_shm_segment p c =
      let flags = bit_or 0o600 (bit_and (segment_at c p).seg_flags shm_hugetlb) in
      let pagesize = if has_flag flags shm_hugetlb then c.huge_pagesize else c.pagesize in
      let s = aligned pagesize (segment_at c p) in
      let (reply, c') = sys kernel (Call.shmget s.seg_length flags) (put_segment p s c) in
      elim reply [
        | failed e ↦ (false, free_seg_slot p c')
        | value id ↦ (true, put_segment p (record s { seg_shmid = some id }) c')
      ]

  -- The switch of `segment_register` over the type, on the filled slot.
  unfoldable pub finish_register : ℕ → SegType → Text → Context → Bool × Context
  finish_register p type path c = elim type [
    | segt_file ↦ open_file p (put_segment p (record (segment_at c p) { seg_path = some path }) c)
    | segt_shm ↦ get_shm_segment p c
    | segt_anon ↦ (true, c)
    | segt_none ↦ (true, c)
  ]

  -- What follows the choice of a slot.
  unfoldable pub fill_slot : ℕ → SegType → Text → Range → ℕ → Context → Bool × Context
  fill_slot p type name r flags c =
      let s = fresh type name r flags (segment_at c p) in
      if has_flag flags segf_maps
      then (true, put_segment p (from_maps type (cut_path name) r s) c)
      else finish_register p type (cut_path name) (put_segment p s c)

  unfoldable pub segment_register : SegType → Text → Range → ℕ → Context → Outcome × Context
  segment_register type name r flags c =
      let (found, c1) = segment_get kernel (basename name) c in
      let (chosen, c2) = get_seg_slot kernel c1 in
      elim found [
        | some p ↦ (returned (has_flag flags segf_maps), c1)
        | none ↦ elim chosen [
          | full ↦ (seg_err, c2)
          | no_memory ↦ (crashed null_write, c2)
          | slot p ↦ let (done, c3) = fill_slot p type name r flags c2 in (returned done, c3)
        ]
      ]
