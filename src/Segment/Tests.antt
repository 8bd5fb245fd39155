-- ===== src/Segment/Tests.antt =====
-- Runs of the segment API on a small table, and the theorems of the segment API at that table.
mod Names
use mathlib.Core.Option
use memtoy.Base.{
  ℕ, ◌+◌, ◌*◌, ◌%◌, ◌^◌, ◌<◌, ◌≤◌, ◌≡◌, refl, true, false, ◌&&◌, none, some, [], ◌∷◌, Text, text,
  text_eq, arith, if◌then◌else◌, ◌⊎◌,
}
use memtoy.Context.{
  segt_anon, segt_shm, Segment, Range, Kernel, value, Context, segment_at, is_shm, has_flag,
  segf_maps, map_failed, map_shared, returned,
}
use memtoy.Segment.Slots.{segment_cleanup}
use memtoy.Segment.Round.{round_up, round_down, clip}
use memtoy.Segment.Map.{segment_map}
use memtoy.Segment.Register.{basename, trim_slashes, after_slash, segment_register}
use memtoy.Segment.Touch.{finished, unfinished, touch_memory}
use memtoy.Segment.Show.{segment_show}
use memtoy.Segment.Laws.Listing.{lines, visible, segment_show-lines}
use memtoy.Segment.Ranges.{segment_remove, segment_unmap, segment_mprotect}
use memtoy.Segment.Valid.Updates.{IsValid}
use memtoy.Segment.Valid.Lookup.{lookup, view}
use memtoy.Segment.Valid.Free.{unmapped}
use memtoy.Segment.Laws.Removal.{is_own, view-segment_remove, view-segment_unmap}
use memtoy.Segment.Laws.Registration.{Entered, segment_register-Entered, segment_register-duplicate}
use memtoy.Segment.Laws.Mapping.{type_of, view-segment_map}
use memtoy.Segment.Laws.Protection.{Protected, segment_mprotect-Protected}
use memtoy.Segment.Laws.Reach.{start, step, register, remove, empty_table, Reach-IsValid}
use memtoy.Segment.Laws.Rounding.{round_bounds, clip_within}
use memtoy.Segment.Laws.Touching.{visited, touch_memory-visited, touch_memory-endless}

-- A system in which every call succeeds.
abbrev pub quiet : Kernel
quiet trace call = value 0

abbrev pub heap : Segment
heap = record {
  seg_name = some (text "heap");
  seg_start = 0x10000;
  seg_length = 0x3000;
  seg_offset = 0;
  seg_path = none;
  seg_pagesize = 4096;
  seg_type = segt_anon;
  seg_slot = 0;
  seg_flags = 2;
  seg_prot = 3;
  seg_fd = none;
  seg_shmid = none;
}

abbrev pub shared : Segment
shared = record heap {
  seg_name = some (text "shm");
  seg_start = map_failed;
  seg_type = segt_shm;
  seg_slot = 1;
  seg_flags = 1;
  seg_shmid = some 7;
}

abbrev pub loaded : Context
loaded = record {
  interactive = true;
  siginfo = none;
  sigjmp = false;
  pagesize = 4096;
  huge_pagesize = 0x200000;
  max_cpu_id = 7;
  numa_max_node = some 1;
  seglist = heap ∷ shared ∷ [];
  seg_avail = none;
  children = [];
  child_name = none;
  response_fd = 0;
  mems_allowed = none;
  cpus_allowed = none;
  trace = [];
}

abbrev pub two_pages : Range
two_pages = record { offset = 0x1000; length = 0x1800; start = 0 }

pub loaded-IsValid : IsValid loaded
unfolding text_eq
loaded-IsValid = record {
  fits = omega arith;
  numbered = (refl, (refl, tt));
  distinct = refl;
  saved_free = refl;
}

pub loaded-heap : view loaded (basename (text "heap")) ≡ some heap
unfolding basename trim_slashes after_slash lookup text_eq
loaded-heap = refl

pub loaded-file : view loaded (basename (text "b")) ≡ none
unfolding basename trim_slashes after_slash lookup text_eq
loaded-file = refl

clip-two_pages : clip two_pages heap ≡ some (0x1000, 0x2000)
unfolding clip
clip-two_pages = refl

Reach-IsValid_example :
    IsValid
      (segment_remove quiet
        (text "b")
        (segment_register quiet segt_anon (text "b") two_pages map_shared (empty_table loaded)).1).1
Reach-IsValid_example = Reach-IsValid {touching = false} quiet loaded (
    step (step start (register segt_anon (text "b") two_pages map_shared refl)) (remove (text "b")))

segment_register-Entered_example :
    let (out, c') = segment_register quiet segt_anon (text "b") two_pages map_shared loaded in
    Entered segt_anon (basename (text "b")) map_shared loaded out c'
segment_register-Entered_example =
    segment_register-Entered quiet segt_anon (text "b") two_pages map_shared loaded loaded-IsValid
      refl loaded-file

segment_register-duplicate_example :
    let (out, c') = segment_register quiet segt_anon (text "heap") two_pages map_shared loaded in
    (out ≡ returned (has_flag map_shared segf_maps)) × ((n : Text) → view c' n ≡ view loaded n)
segment_register-duplicate_example =
    segment_register-duplicate quiet segt_anon (text "heap") two_pages map_shared loaded
      loaded-IsValid loaded-heap

view-segment_remove_example :
    let (done, c') = segment_remove quiet (text "heap") loaded in
    (done ≡ is_own (view loaded (text "heap")))
    × ((n : Text)
        → view c' n ≡ (
            if is_own (view loaded (text "heap")) && text_eq n (text "heap")
            then none
            else view loaded n))
view-segment_remove_example = view-segment_remove quiet (text "heap") loaded loaded-IsValid

view-segment_unmap_example :
    let (done, c') = segment_unmap quiet (text "heap") loaded in
    (done ≡ is_own (view loaded (text "heap")))
    × ((n : Text)
        → view c' n ≡ (
            if is_own (view loaded (text "heap")) && text_eq n (text "heap")
            then Option.map unmapped (view loaded (text "heap"))
            else view loaded n))
view-segment_unmap_example = view-segment_unmap quiet (text "heap") loaded loaded-IsValid

segment_mprotect-Protected_example :
    let (done, c') = segment_mprotect quiet (text "heap") 1 loaded in
    Protected (text "heap") 1 loaded done c'
segment_mprotect-Protected_example =
    segment_mprotect-Protected quiet (text "heap") 1 loaded loaded-IsValid

view-segment_map_example :
    let c' = (segment_map quiet (text "shm") none 0 loaded).1 in
    (type_of (view c' (text "shm")) ≡ type_of (view loaded (text "shm")))
    × ((n : Text) → text_eq n (text "shm") ≡ false → view c' n ≡ view loaded n)
view-segment_map_example = view-segment_map quiet (text "shm") none 0 loaded loaded-IsValid

touch_memory-visited_example :
    touch_memory quiet 4 true 0x10000 0x3000 (512 * 8) loaded
    ≡ finished (record loaded { sigjmp = false; trace = visited true 3 0x10000 (512 * 8) [] })
touch_memory-visited_example =
    touch_memory-visited quiet true (λ trace pp. refl) 2 4 512 0x10000 0x3000 loaded refl
      (omega arith) (omega arith) (omega arith) (omega arith)

touch_memory-endless_example : touch_memory quiet 100 false 0x10000 0x3000 0 loaded ≡ unfinished
touch_memory-endless_example =
    touch_memory-endless quiet false (λ trace pp. refl) 100 0x10000 0x3000 0 loaded refl
      (omega arith) (omega arith) (omega arith)

round_bounds_example :
    (5000 ≤ round_up 5000 (2 ^ 12))
    × (round_up 5000 (2 ^ 12) < 5000 + 2 ^ 12)
    × (round_up 5000 (2 ^ 12) % 2 ^ 12 ≡ 0)
    × (round_down 5000 (2 ^ 12) ≤ 5000)
    × (5000 < round_down 5000 (2 ^ 12) + 2 ^ 12)
    × (round_down 5000 (2 ^ 12) % 2 ^ 12 ≡ 0)
round_bounds_example = round_bounds 12 (omega arith) 5000 (omega arith)

clip_within_example :
    ((clip two_pages heap ≡ none) × (0x3000 ≤ round_down 0x1000 4096))
    ⊎ ((offset length : ℕ) × (clip two_pages heap ≡ some (offset, length))
        × (offset ≡ round_down 0x1000 4096)
        × (0 < length)
        × (offset + length ≤ 0x3000))
clip_within_example = clip_within two_pages heap

segment_show-lines_example :
    segment_show quiet none loaded ≡ (true, lines true (visible false (heap ∷ shared ∷ [])), loaded)
segment_show-lines_example = segment_show-lines quiet loaded
