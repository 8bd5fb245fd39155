-- ===== src/Segment/Laws/Listing.antt =====
-- `segment_show`: the segments that it lists.
use memtoy.Base.{
  ◌≡◌, refl, Bool, true, false, not, ◌||◌, ◌&&◌, none, List, [], ◌∷◌, arith, if◌then◌else◌,
}
use memtoy.Context.{Segment, Context, Kernel, is_used, has_flag, segf_maps}
use memtoy.Segment.Show.{Row, show_one_segment, show_all, segment_show}

-- The used segments, those of the task's maps only if they are asked for.
abbrev pub visible : Bool → List Segment → List Segment
visible maps [] = []
visible maps (s ∷ r) =
    let rest = visible maps r in
    if is_used s && (maps || not (has_flag s.seg_flags segf_maps)) then s ∷ rest else rest

-- A line for each segment, the first with the header.
abbrev pub lines : Bool → List Segment → List Row
lines header [] = []
lines header (s ∷ r) = show_one_segment s header ∷ lines false r

show_all-lines :
    (maps header : Bool) (l : List Segment) → show_all maps header l ≡ lines header (visible maps l)
unfolding show_all
show_all-lines maps header [] = refl
show_all-lines maps header (s ∷ r) =
    ground (arith, show_all-lines maps header r, show_all-lines maps false r)

-- Without an argument, `segment_show` changes nothing, succeeds and prints a line for each used
-- segment that is not of the task's maps, in the order of the table, the header with the first only.
pub segment_show-lines :
    (kernel : Kernel) (c : Context)
    → segment_show kernel none c ≡ (true, lines true (visible false c.seglist), c)
unfolding segment_show
segment_show-lines kernel c = ground (arith, show_all-lines false true c.seglist)
