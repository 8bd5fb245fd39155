-- ===== src/Startup/Tests.antt =====
-- The theorems on the start, the end and the stubs at concrete inputs.
use memtoy.Base.{◌≡◌, refl, true, false, none, some, [], ◌∷◌, text, ◌++◌}
use memtoy.Context.{Kernel, Call, value, Range}
use memtoy.Segment.Ranges.{segment_mbind}
use memtoy.Segment.Maps.{segment_init}
use memtoy.Segment.Laws.Reach.{empty_table-IsValid}
use memtoy.Segment.Laws.Loading.{HasOnlyMaps, segment_init-HasOnlyMaps}
use memtoy.Command.Common.{cmd_error, numa_supported}
use memtoy.Command.Nodes.{numa_info, migrate_process}
use memtoy.Command.Input.{script, readline_ni}
use memtoy.Command.Loop.{line, signal}
use memtoy.Command.Laws.Tables.{IsSound}
use memtoy.Startup.{zeroed, init_nodes, run_program, main}
use memtoy.Startup.Ending.{Tidy, run_program-Tidy}
use memtoy.Command.Laws.Ends.{lawful_final}
use memtoy.Startup.Codes.{main-lawful}
use memtoy.Startup.Whole.{Ended, main-Ended}
use memtoy.NumaStubs.{stubbed, stubbed-refuses}

-- A system in which every call succeeds, and a page has 4096 bytes.
abbrev calm : Kernel
calm trace Call.sysconf_pagesize = value 4096
calm trace call = value 0

zeroed-IsSound : IsSound zeroed
zeroed-IsSound = record { valid = empty_table-IsValid zeroed; names = refl }

main-Ended_example : Ended (
    main calm
      (some (text "MemTotal: 8 kB" ++ 10 ∷ text "Hugepagesize:  2048 kB" ++ 10 ∷ []))
      (some (text "1000-3000 r-xp 0 8:1 77 /bin/memtoy" ++ 10 ∷ []))
      4
      []
      none
      (script (readline_ni (text "anon a 4k" ++ 10 ∷ text "quit"))))
main-Ended_example =
    main-Ended calm (some (text "MemTotal: 8 kB" ++ 10 ∷ text "Hugepagesize:  2048 kB" ++ 10 ∷ []))
      (some (text "1000-3000 r-xp 0 8:1 77 /bin/memtoy" ++ 10 ∷ [])) 4 [] none
      (script (readline_ni (text "anon a 4k" ++ 10 ∷ text "quit")))

-- A SIGINT is noted, and a SIGTERM kills the program.
main-lawful_example :
    lawful_final (
      main calm
        (some (text "Hugepagesize:  2048 kB" ++ 10 ∷ []))
        (some [])
        4
        []
        none
        (line (text "shmem s 4k") ∷ signal 2 ∷ line (text "show") ∷ signal 15 ∷ []))
    ≡ true
main-lawful_example =
    main-lawful calm (some (text "Hugepagesize:  2048 kB" ++ 10 ∷ [])) (some []) 4 [] none
      (line (text "shmem s 4k") ∷ signal 2 ∷ line (text "show") ∷ signal 15 ∷ [])

run_program-Tidy_example :
    Tidy (run_program calm 4 (b'v' ∷ []) none (line (text "shmem s 4k") ∷ []) zeroed)
run_program-Tidy_example =
    run_program-Tidy calm 4 (b'v' ∷ []) none (line (text "shmem s 4k") ∷ []) zeroed zeroed-IsSound
      refl

segment_init-HasOnlyMaps_example :
    HasOnlyMaps
      (segment_init calm (some (text "1000-3000 r-xp 0 8:1 77 /bin/memtoy" ++ 10 ∷ [])) zeroed).1
segment_init-HasOnlyMaps_example =
    segment_init-HasOnlyMaps calm (some (text "1000-3000 r-xp 0 8:1 77 /bin/memtoy" ++ 10 ∷ []))
      zeroed refl

abbrev one_page : Range
one_page = record { offset = 0; length = 4096; start = 0 }

stubbed-refuses_example :
    let stubs = stubbed 0 calm in
    let d = init_nodes stubs zeroed in
    (numa_supported d ≡ false)
    × (numa_info stubs d ≡ (cmd_error, d))
    × (migrate_process stubs (text "0 1") d ≡ (cmd_error, d))
    × ((segment_mbind stubs (text "a") one_page 2 (some (0 ∷ [])) 0 d).0 ≡ false)
stubbed-refuses_example =
    stubbed-refuses 0 calm (text "0 1") (text "a") one_page 2 (some (0 ∷ [])) 0 zeroed
