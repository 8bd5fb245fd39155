-- ===== src/Segment/Tests/Names.antt =====
-- The theorems on the table as a map from names to segments, at a table of two segments.
use memtoy.Base.{false, ◌≡◌, refl, some, Text, text, text_eq}
use memtoy.Context.{segt_anon, map_shared}
use memtoy.Segment.Register.{basename, segment_register}
use memtoy.Segment.Ranges.{segment_remove, segment_unmap}
use memtoy.Segment.Slots.{segment_cleanup}
use memtoy.Segment.Valid.Updates.{IsValid}
use memtoy.Segment.Valid.Lookup.{lookup, view}
use memtoy.Segment.Laws.Registration.{segment_register-IsValid}
use memtoy.Segment.Laws.Cleaning.{drop_shm, view-segment_cleanup}
use memtoy.Segment.Laws.Mapping.{type_of}
use memtoy.Segment.Laws.Reach.{Reach, start, step, register, remove, unmap}
use memtoy.Segment.Laws.Meaning.{Runs, ops_of}
use memtoy.Segment.Laws.Refining.{Reach-Runs}
use memtoy.Segment.Laws.Lasting.{Reach-lasting}
use memtoy.Segment.Laws.Tables.{drop, table_of, register-drop}
use memtoy.Segment.Tests.{quiet, loaded, two_pages, loaded-IsValid, loaded-file}

view-segment_cleanup_example :
    IsValid (segment_cleanup loaded)
    × ((n : Text) → view (segment_cleanup loaded) n ≡ drop_shm (view loaded n))
view-segment_cleanup_example = view-segment_cleanup loaded loaded-IsValid

-- The segment "b" is registered and "shm" removed.
abbrev calls :
    Reach false quiet loaded
      (segment_remove quiet
        (text "shm")
        (segment_register quiet segt_anon (text "b") two_pages map_shared loaded).1).1
calls =
    step (step start (register segt_anon (text "b") two_pages map_shared refl))
      (remove (text "shm"))

Reach-Runs_example : Runs (ops_of calls) (view loaded) (
    view
      (segment_remove quiet
        (text "shm")
        (segment_register quiet segt_anon (text "b") two_pages map_shared loaded).1).1)
Reach-Runs_example = Reach-Runs quiet loaded loaded-IsValid calls

heap-type : type_of (view loaded (text "heap")) ≡ some segt_anon
unfolding lookup text_eq
heap-type = refl

abbrev unmapping : Reach false quiet loaded (segment_unmap quiet (text "heap") loaded).1
unmapping = step start (unmap (text "heap"))

Reach-lasting_example :
    type_of (view (segment_unmap quiet (text "heap") loaded).1 (text "heap")) ≡ some segt_anon
Reach-lasting_example =
    Reach-lasting quiet loaded (segment_unmap quiet (text "heap") loaded).1 (text "heap") segt_anon
      loaded-IsValid heap-type unmapping refl

register-drop_example :
    let c' = (segment_register quiet segt_anon (text "b") two_pages map_shared loaded).1 in
    drop quiet (basename (text "b")) (
      table_of c' (
        segment_register-IsValid quiet segt_anon
          (text "b")
          two_pages
          map_shared
          loaded
          loaded-IsValid
          refl))
    ≡ table_of loaded loaded-IsValid
register-drop_example =
    register-drop quiet segt_anon (text "b") two_pages map_shared loaded loaded-IsValid refl
      loaded-file refl
