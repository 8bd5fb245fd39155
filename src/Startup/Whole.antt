-- ===== src/Startup/Whole.antt =====
-- `main` from the start to the end.
use memtoy.Base.{ℕ, ◌≡◌, ap, Option, List, [], Text, arith, inl, inr}
use memtoy.Context.{Kernel, Call, Reply-cases, Context, tell}
use memtoy.Segment.Valid.Updates.{IsValid}
use memtoy.Children.Laws.Names.{distinct}
use memtoy.Command.Loop.{Event, Final, left, slain, broken}
use memtoy.Command.Laws.Tables.{IsSound}
use memtoy.Startup.{run_program, init_glctx, main}
use memtoy.Startup.Ending.{Tidy, run_program-Tidy}
use memtoy.Startup.Starting.{IsFresh, same-IsFresh, init_glctx-IsFresh}

-- Where the program exits there are no children and the table is valid; where a signal kills it and at a
-- fault the tables are in order.
abbrev pub Ended : Final → Type 0
Ended (left code c) = IsValid c × (c.children ≡ [])
Ended (slain sig c) = IsSound c
Ended (broken f c) = IsSound c

Tidy-Ended : (f : Final) → Tidy f → Ended f
Tidy-Ended (left code c) (valid, none_left, no_shm) = (valid, none_left)
Tidy-Ended (slain sig c) h = h
Tidy-Ended (broken f c) h = h

fresh-IsSound : (c : Context) → IsFresh c → IsSound c
fresh-IsSound c h = record { valid = h.valid; names = ap distinct h.childless }

module _ (kernel : Kernel) where
  run_program-Ended :
      (rounds : ℕ) (options : List ℕ) (script : Option Text) (events : List Event) (c : Context)
      → IsFresh c
      → Ended (run_program kernel rounds options script events c)
  unfolding run_program
  run_program-Ended rounds options script events c h =
      elim (Reply-cases (kernel c.trace Call.atexit)) [
        | inl (e, k) ↦
            let h1 = same-IsFresh c (tell Call.atexit c) (ground arith) h in
            rw (k, run_program) (h1.valid, h1.childless)
        | inr (v, k) ↦
            Tidy-Ended (run_program kernel rounds options script events c)
              (run_program-Tidy kernel rounds options script events c (fresh-IsSound c h) k)
      ]

  -- The program from its start to its end, with any files, options, script, input, signals and answers
  -- of the system: where it exits, its table of segments is valid and it has no children; where a signal
  -- kills it and where it runs into a fault, its table is valid and the names of its children differ.
  pub main-Ended :
      (meminfo maps : Option Text) (rounds : ℕ) (options : List ℕ) (script : Option Text)
      (events : List Event)
      → Ended (main kernel meminfo maps rounds options script events)
  unfolding main
  main-Ended meminfo maps rounds options script events =
      let (out, c) = init_glctx kernel meminfo maps in
      let h = init_glctx-IsFresh kernel meminfo maps in
      let sound = fresh-IsSound c h in
      let valid = h.valid in
      let childless = h.childless in
      let rest = run_program-Ended rounds options script events c h in ground arith
