-- ===== src/Segment/Show.antt =====
-- `show_one_segment`, `segment_show`, `get_node` and `segment_location` of segment.c.
-- Printed output is a list of what is printed, without the fixed texts.
use memtoy.Base.{
  ℕ, zero, suc, ◌+◌, ◌*◌, ◌-◌, ◌/◌, ◌%◌, ◌^◌, Bool, true, false, not, ◌&&◌, ◌||◌, Option, none,
  some, List, [], ◌∷◌, ◌++◌, Text, text, first, word, bit_and, ltb, ◌==◌, if◌then◌else◌, replicate,
}
use memtoy.Context.{
  SegType, segt_none, segt_anon, segt_file, segt_shm, is_file, is_none, Segment, Range, Kernel,
  failed, value, Call, Context, sys, segment_at, has_flag, segf_maps, map_failed, map_shared,
  shm_hugetlb, default_length, Outcome, crashed, divide_by_zero, endless, seg_ok, seg_err,
}
use memtoy.Signals.{reset_signal}
use memtoy.Segment.Slots.{segment_get}
use memtoy.Segment.Round.{clip}

-- One line of `show_one_segment`: no address where the segment is not mapped.
pub record Row : Type 0 where
  pub letter : ℕ
  pub address : Option ℕ
  pub length : ℕ
  pub offset : ℕ
  pub protection : Text
  pub executable : Option ℕ
  pub share : Text
  pub name : Option Text
  pub header : Bool

-- `seg_type[segp->seg_type + !!(segp->seg_flags & SHM_HUGETLB)]`
abbrev type_letter : SegType → Bool → ℕ
type_letter segt_none huge = if huge then b'a' else b'.'
type_letter segt_anon huge = if huge then b'f' else b'a'
type_letter segt_file huge = if huge then b's' else b'f'
type_letter segt_shm huge = if huge then b'h' else b's'

unfoldable pub show_one_segment : Segment → Bool → Row
show_one_segment s header =
    let rw = bit_and s.seg_prot 3 in
    let protection =
      if rw == 3
      then text "rw"
      else if rw == 1
      then text "r-"
      else if rw == 2
      then text "-w"
      else text "--" in
    let executable = if has_flag s.seg_prot 4 then b'x' else b'-' in
    let share =
      if s.seg_flags == 0
      then text "default"
      else if has_flag s.seg_flags map_shared
      then text "shared "
      else text "private" in
    let mapped = not (s.seg_start == map_failed) in
    record {
      letter = type_letter s.seg_type (has_flag s.seg_flags shm_hugetlb);
      address = if mapped then some s.seg_start else none;
      length = s.seg_length;
      offset = s.seg_offset;
      protection = protection;
      executable = if mapped then some executable else none;
      share = share;
      name = if is_file s.seg_type then s.seg_path else s.seg_name;
      header = header;
    }

-- The loop of `segment_show`; the header goes with the first line only.
unfoldable pub show_all : Bool → Bool → List Segment → List Row
show_all showmaps header [] = []
show_all showmaps header (s ∷ r) =
    let hidden = is_none s.seg_type || (not showmaps && has_flag s.seg_flags segf_maps) in
    let rest = show_all showmaps (if hidden then header else false) r in
    if hidden then rest else show_one_segment s header ∷ rest

-- What stands in the output of `segment_location` after the line of the segment.
pub data Mark : Type 0 where
  newline : Mark
  label : ℕ → Mark
  gap : Mark
  node : ℕ → Mark

module _ (kernel : Kernel) where
  unfoldable pub segment_show : Option Text → Context → Bool × List Row × Context
  segment_show none c = (true, show_all false true c.seglist, c)
  segment_show (some name) c =
      if first name == b'+'
      then (true, show_all true true c.seglist, c)
      else (let (found, c') = segment_get kernel name c in
          elim found [
            | none ↦ (false, [], c')
            | some p ↦ (true, show_one_segment (segment_at c' p) false ∷ [], c')
          ])

  unfoldable pub get_node : ℕ → Context → Option ℕ × Context
  get_node vaddr c =
      let (reply, c') = sys kernel (Call.get_mempolicy vaddr) c in
      (elim reply [ failed e ↦ none | value n ↦ some n ], c')

  -- The loop over the pages up to `end`, for a number of rounds; `need_nl` is its variable. The number of a
  -- page is an int: `pgid` is its 32 bits, and a label shows them.
  unfoldable pub location_loop : ℕ → ℕ → ℕ → ℕ → ℕ → Bool → Context → Outcome × List Mark × Context
  location_loop zero apage end pagesize pgid need_nl c = (crashed endless, [], c)
  location_loop (suc rounds) apage end pagesize pgid need_nl c = elim (ltb apage end) [
    | false ↦ (seg_ok, newline ∷ [], c)
    | true ↦
        let (found, c') = get_node apage c in
        let starts = pgid % 8 == 0 in
        let before : List Mark =
          if starts then (if need_nl then newline ∷ label pgid ∷ [] else label pgid ∷ []) else [] in
        elim found [
          | none ↦ (seg_err, [], c')
          | some n ↦ elim (c'.siginfo) [
            | some sig ↦ (seg_ok, before ++ node n ∷ newline ∷ [], reset_signal c')
            | none ↦
                let (out, rest, last) =
                  location_loop rounds ((apage + pagesize) % word) end pagesize
                    ((pgid + 1) % 2 ^ 32) (need_nl || starts) c' in
                (out, before ++ node n ∷ rest, last)
          ]
        ]
  ]

  -- A start in the middle of a line is filled up with gaps.
  abbrev partial_line : ℕ → List Mark
  partial_line pgid =
      if pgid % 8 == 0 then [] else label (pgid - pgid % 8) ∷ replicate (pgid % 8) gap

  -- `none` for the first line where the segment itself is not shown.
  unfoldable pub segment_location : ℕ → Text → Range → Context → Outcome × List Mark × Context
  segment_location rounds name r c =
      let (found, c') = segment_get kernel name c in
      elim found [
        | none ↦ (seg_err, [], c')
        | some p ↦
            let s = segment_at c' p in
            let r' = record r {
              length = if r.length == default_length then 64 * s.seg_pagesize % word else r.length;
            } in
            if s.seg_start == map_failed then (seg_err, [], c') else elim (clip r' s) [
              | none ↦ (seg_err, [], c')
              | some (offset, length) ↦
                  let apage = (s.seg_start + offset) % word in
                  let pgid = offset / s.seg_pagesize % 2 ^ 32 in
                  let (out, marks, last) =
                    location_loop rounds apage ((apage + length) % word) s.seg_pagesize pgid
                      (not (pgid % 8 == 0)) c' in
                  if s.seg_pagesize == 0
                  then (crashed divide_by_zero, [], c')
                  else (out, partial_line pgid ++ marks, last)
            ]
      ]
