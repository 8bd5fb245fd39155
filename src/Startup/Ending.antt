-- ===== src/Startup/Ending.antt =====
-- The end of the program: what `cleanup` leaves, whatever the program was asked to do.
use memtoy.Base.{
  ℕ, ◌<◌, ◌≡◌, refl, ap, ◌∙◌, Bool, true, false, Option, none, some, List, [], Text, length, arith,
}
use memtoy.Context.{Kernel, Call, value, Context, tell, segment_at, is_shm}
use memtoy.Segment.Valid.Updates.{IsValid, IsValid-same}
use memtoy.Segment.Laws.Cleaning.{segment_cleanup-IsValid, length-segment_cleanup}
use memtoy.Segment.Laws.Others.Loops.{segment_cleanup-outside}
use memtoy.Children.{children_free}
use memtoy.Children.Laws.Freeing.{children_free-lem}
use memtoy.Command.Waiting.{set_signals}
use memtoy.Command.Loop.{Event, Final, left, slain, broken}
use memtoy.Command.Laws.Tables.{IsSound, SameTables, same-IsSound}
use memtoy.Command.Laws.Waiting.{free_from-segments, set_signals-same}
use memtoy.Command.Laws.Running.{SoundFinal, process_commands-Sound}
use memtoy.Startup.{
  stop, parsed, parse_options, cleanup, at_exit, open_script_file, start_commands, run_program,
}

-- Where the program exits there are no children and no shared memory segments, and the table is valid;
-- where a signal kills it and at a fault the tables are still in order.
abbrev pub Tidy : Final → Type 0
Tidy (left code c) =
    IsValid c
    × (c.children ≡ [])
    × ((j : ℕ) → j < length c.seglist → is_shm (segment_at c j).seg_type ≡ false)
Tidy (slain sig c) = IsSound c
Tidy (broken f c) = IsSound c

at_exit-Tidy : (f : Final) → SoundFinal f → Tidy (at_exit f)
unfolding at_exit cleanup children_free
at_exit-Tidy (left code c) v =
    let d = children_free true c in
    let same = free_from-segments true c.children c in
    let vd : IsValid d = IsValid-same c d same.same_seglist same.same_avail v in
    let tidy = segment_cleanup-IsValid d vd in
    (
      tidy.0,
      ap (λ o. o.1) (segment_cleanup-outside d) ∙ (children_free-lem c).0,
      λ j lt. tidy.1 j (omega (arith, length-segment_cleanup d)),
    )
at_exit-Tidy (slain sig c) h = h
at_exit-Tidy (broken f c) h = h

module _ (kernel : Kernel) where
  open_script_file-same :
      (script : Text) (c : Context) → SameTables c (open_script_file kernel script c).1
  unfolding open_script_file
  open_script_file-same script c = ground arith

  opened-IsSound :
      (script : Option Text) (c : Context)
      → IsSound c
      → IsSound
          (elim script as (λ o. Bool × Context) [
            | none ↦ (false, c)
            | some s ↦ open_script_file kernel s c
          ]).1
  opened-IsSound none c h = h
  opened-IsSound (some s) c h =
      same-IsSound c (open_script_file kernel s c).1 (open_script_file-same s c) h

  start_commands-Sound :
      (rounds : ℕ) (events : List Event) (c : Context)
      → IsSound c
      → SoundFinal (start_commands kernel rounds events c)
  unfolding start_commands
  start_commands-Sound rounds events c h =
      let c1 = (set_signals kernel c).1 in
      let h1 : IsSound c1 = same-IsSound c c1 (set_signals-same kernel c) h in
      let valid = h1.valid in
      let goes = process_commands-Sound kernel rounds events c1 h1 in ground arith

  -- Whatever options and script the program is given, whatever it reads and whatever signals arrive:
  -- where `cleanup` is registered and the tables are in order, an exit of the program leaves no children
  -- and no shared memory segment, and a valid table. Where a signal kills it and at a fault, the
  -- table is valid and the names of its children differ.
  pub run_program-Tidy :
      (rounds : ℕ) (options : List ℕ) (script : Option Text) (events : List Event) (c : Context)
      {v : ℕ}
      → IsSound c
      → kernel c.trace Call.atexit ≡ value v
      → Tidy (run_program kernel rounds options script events c)
  unfolding run_program
  run_program-Tidy rounds options script events c h e =
      let c1 = tell Call.atexit c in
      let h1 : IsSound c1 = same-IsSound c c1 (ground arith) h in
      let opened : Bool × Context = elim script [
        | none ↦ (false, c1)
        | some s ↦ open_script_file kernel s c1
      ] in
      let h2 : IsSound opened.1 = opened-IsSound script c1 h1 in
      let v1 = at_exit-Tidy (left 1 c1) h1.valid in
      let v2 = at_exit-Tidy (left 1 opened.1) h2.valid in
      let go =
        at_exit-Tidy (start_commands kernel rounds events opened.1)
          (start_commands-Sound rounds events opened.1 h2) in
      elim (parse_options options false)
          as (λ o.
            parse_options options false ≡ o
            → Tidy (run_program kernel rounds options script events c)) [
              | stop code ↦ λ q.
                  rw (e, run_program) (rw (q, run_program) (at_exit-Tidy (left code c1) h1.valid))
              | parsed error ↦ λ q. rw (e, run_program) (rw (q, run_program) (ground arith))
            ]
        refl
