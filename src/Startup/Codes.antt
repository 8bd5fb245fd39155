-- ===== src/Startup/Codes.antt =====
-- How the program may end: the codes it exits with, and the signals that kill it.
use memtoy.Base.{
  ℕ, ◌≡◌, refl, Bool, true, false, Option, none, some, List, [], ◌∷◌, Text, arith, Option-cases,
  inl, inr,
}
use memtoy.Base.Lines.{chunks}
use memtoy.Context.{Kernel, Call, Reply-cases, Context, tell, exited}
use memtoy.Segment.Maps.{
  classify_segment, maps_range, maps_flags, mapbufsz, cut_last, scan_line, maps_path, register_maps,
  load_line, load_lines, get_task_segments, segment_init,
}
use memtoy.Command.Waiting.{set_signals}
use memtoy.Command.Loop.{Event, Final, left, slain, broken}
use memtoy.Command.Laws.Codes.{lawful}
use memtoy.Command.Laws.Exits.{segment_register-lawful}
use memtoy.Command.Laws.Ends.{lawful_final, process_commands-lawful}
use memtoy.Startup.{
  Options, stop, parsed, parse_options, at_exit, get_huge_pagesize, commands_init, init_nodes,
  zeroed, answer, open_script_file, init_tables, init_glctx, start_commands, run_program, main,
}

abbrev lawful_options : Options → Bool
lawful_options (stop code) = lawful (exited code)
lawful_options (parsed error) = true

parse_options-lawful :
    (options : List ℕ) (error : Bool) → lawful_options (parse_options options error) ≡ true
unfolding parse_options
parse_options-lawful [] error = refl
parse_options-lawful (opt ∷ r) error =
    ground (arith, parse_options-lawful r error, parse_options-lawful r true)

at_exit-lawful : (f : Final) → lawful_final f ≡ true → lawful_final (at_exit f) ≡ true
unfolding at_exit
at_exit-lawful (left code c) h = h
at_exit-lawful (slain sig c) h = h
at_exit-lawful (broken f c) h = h

module _ (kernel : Kernel) where
  load_line-lawful : (chunk : Text) (c : Context) → lawful (load_line kernel chunk c).0 ≡ true
  unfolding load_line register_maps
  load_line-lawful chunk c = elim (Option-cases (scan_line (cut_last chunk))) [
    | inl e ↦ ground arith
    | inr (m, e) ↦ elim (Option-cases (maps_path (cut_last chunk))) [
      | inl q ↦ ground arith
      | inr (path, q) ↦
          let (type, name) = classify_segment m.perm path m.ino in
          ground (arith, segment_register-lawful kernel type name (maps_range m) maps_flags c)
    ]
  ]

  load_lines-lawful : (l : List Text) (c : Context) → lawful (load_lines kernel l c).0 ≡ true
  unfolding load_lines
  load_lines-lawful [] c = refl
  load_lines-lawful (chunk ∷ r) c =
      let one = load_line-lawful chunk c in
      let more = load_lines-lawful r (load_line kernel chunk c).1 in ground arith

  segment_init-lawful :
      (maps : Option Text) (c : Context) → lawful (segment_init kernel maps c).0 ≡ true
  unfolding segment_init get_task_segments
  segment_init-lawful none c = ground arith
  segment_init-lawful (some s) c =
      let c1 = record (tell Call.calloc c) { seglist = []; seg_avail = none } in
      ground (arith, load_lines-lawful (chunks mapbufsz s) c1)

  init_tables-lawful :
      (maps : Option Text) (c : Context) → lawful (init_tables kernel maps c).0 ≡ true
  unfolding init_tables
  init_tables-lawful maps c = elim (Option-cases (commands_init kernel c)) [
    | inl e ↦ ground arith
    | inr (c1, e) ↦ ground (arith, segment_init-lawful maps c1)
  ]

  init_glctx-lawful :
      (meminfo maps : Option Text) → lawful (init_glctx kernel meminfo maps).0 ≡ true
  unfolding init_glctx
  init_glctx-lawful meminfo maps =
      let c1 = tell Call.sysconf_pagesize zeroed in
      let c2 = record c1 { pagesize = answer (kernel [] Call.sysconf_pagesize) } in
      elim (Option-cases (get_huge_pagesize meminfo 0)) [
        | inl e ↦ ground arith
        | inr (size, e) ↦
            let c4 = tell Call.getrlimit (init_nodes kernel (record c2 { huge_pagesize = size })) in
            ground (arith, init_tables-lawful maps c4)
      ]

  start_commands-lawful :
      (rounds : ℕ) (events : List Event) (c : Context)
      → lawful_final (start_commands kernel rounds events c) ≡ true
  unfolding start_commands
  start_commands-lawful rounds events c =
      let h = process_commands-lawful kernel rounds events (set_signals kernel c).1 in ground arith

  run_program-lawful :
      (rounds : ℕ) (options : List ℕ) (script : Option Text) (events : List Event) (c : Context)
      → lawful_final (run_program kernel rounds options script events c) ≡ true
  unfolding run_program
  run_program-lawful rounds options script events c =
      let c1 = tell Call.atexit c in
      let opened : Bool × Context = elim script [
        | none ↦ (false, c1)
        | some s ↦ open_script_file kernel s c1
      ] in
      let body = start_commands kernel rounds events opened.1 in
      let go = at_exit-lawful body (start_commands-lawful rounds events opened.1) in
      let v1 = at_exit-lawful (left 1 c1) refl in
      let v2 = at_exit-lawful (left 1 opened.1) refl in
      elim (Reply-cases (kernel c.trace Call.atexit)) [
        | inl (x, k) ↦ rw (k, run_program) refl
        | inr (v, k) ↦
            elim (parse_options options false)
                as (λ o.
                  parse_options options false ≡ o
                  → lawful_options o ≡ true
                  → lawful_final (run_program kernel rounds options script events c) ≡ true) [
                    | stop code ↦ λ q h.
                        rw (k, run_program) (rw (q, run_program) (at_exit-lawful (left code c1) h))
                    | parsed error ↦ λ q h. rw (k, run_program) (rw (q, run_program) (ground arith))
                  ]
              refl (parse_options-lawful options false)
      ]

  -- Whatever files, options, script and input the program is given, whatever signals arrive and whatever
  -- the system answers: where the program exits, the code is 0, 1, 4 or 8, and where a signal kills it, it
  -- is one for which the program has no handler.
  pub main-lawful :
      (meminfo maps : Option Text) (rounds : ℕ) (options : List ℕ) (script : Option Text)
      (events : List Event)
      → lawful_final (main kernel meminfo maps rounds options script events) ≡ true
  unfolding main
  main-lawful meminfo maps rounds options script events =
      let (out, c) = init_glctx kernel meminfo maps in
      let h = init_glctx-lawful meminfo maps in
      let rest = run_program-lawful rounds options script events c in ground arith
