-- ===== src/Command/Laws/Ends.antt =====
-- How a command line and a run of the command loop may end the process.
use memtoy.Base.{ℕ, ◌≡◌, refl, Bool, true, false, not, List, [], ◌∷◌, Text, skip, next, arith}
use memtoy.Context.{Kernel, Call, Context, tell, Outcome, returned, exited, killed, crashed}
use memtoy.Args.Sizes.{whitespace}
use memtoy.Children.{child_kick}
use memtoy.Children.Spawn.{Spawned, in_parent, in_child, child_exits, child_spawn}
use memtoy.Command.Creating.{anon_seg, file_seg, shmem_seg}
use memtoy.Command.Segments.{
  remove_seg, touch_seg, unmap_seg, map_seg, mbind_seg, where_seg, lock_unlock, show_seg,
  mprotect_seg,
}
use memtoy.Command.Waiting.{quit, pause_me, snooze}
use memtoy.Command.Nodes.{numa_info, migrate_process}
use memtoy.Command.Policies.{cpus, mems, mpol}
use memtoy.Command.Laws.Codes.{
  is_code, has_handler, lawful, lawful_spawned, deliver-lawful, touch_seg-lawful, pause_me-lawful,
  snooze-lawful,
}
use memtoy.Command.Table.{Action, command, ambiguous, unrecognized, split_command}
use memtoy.Command.Loop.{
  Ran, ran, ends, dies, faults, forks, Next, go_on, leave, perish, break, Event, line, signal,
  Final, left, slain, broken, ran_as, start_loop, spawned_as, next_of, dispatch, parse_command,
  run_command, run_line, run_event, run_events, process_commands, trim_end, has_room,
}
use memtoy.Signals.{reset_signal}
use memtoy.Command.Laws.Exits.{
  numa_info-lawful, migrate_process-lawful, anon_seg-lawful, file_seg-lawful, shmem_seg-lawful,
  remove_seg-lawful, map_seg-lawful, unmap_seg-lawful, lock_unlock-lawful, mbind_seg-lawful,
  where_seg-lawful, cpus-lawful, mems-lawful, child_spawn-lawful, child_kick-lawful, mpol-lawful,
  mprotect_seg-lawful, child_send-lawful,
}

abbrev lawful_ran : Ran → Bool
lawful_ran (ran b c) = true
lawful_ran (ends code c) = is_code code
lawful_ran (dies sig c) = not (has_handler sig)
lawful_ran (faults f c) = true
lawful_ran (forks c) = true

abbrev lawful_next : Next → Bool
lawful_next (go_on c) = true
lawful_next (leave code c) = is_code code
lawful_next (perish sig c) = not (has_handler sig)
lawful_next (break f c) = true

abbrev pub lawful_final : Final → Bool
lawful_final (left code c) = is_code code
lawful_final (slain sig c) = not (has_handler sig)
lawful_final (broken f c) = true

ran_as-lawful : (o : Outcome × Context) → lawful o.0 ≡ true → lawful_ran (ran_as o) ≡ true
unfolding ran_as
ran_as-lawful (returned b, c) h = refl
ran_as-lawful (exited code, c) h = h
ran_as-lawful (killed sig, c) h = h
ran_as-lawful (crashed f, c) h = refl

spawned_as-lawful :
    (kernel : Kernel) (s : Spawned)
    → lawful_spawned s ≡ true
    → lawful_ran (spawned_as kernel s) ≡ true
unfolding spawned_as start_loop
spawned_as-lawful kernel (in_parent out c) h = ran_as-lawful (out, c) h
spawned_as-lawful kernel (in_child c) h = ground arith
spawned_as-lawful kernel (child_exits code c) h = h

next_of-lawful :
    (interactive : Bool) (r : Ran)
    → lawful_ran r ≡ true
    → lawful_next (next_of interactive r) ≡ true
unfolding next_of
next_of-lawful interactive (ran true c) h = refl
next_of-lawful true (ran false c) h = refl
next_of-lawful false (ran false c) h = refl
next_of-lawful interactive (ends code c) h = h
next_of-lawful interactive (dies sig c) h = h
next_of-lawful interactive (faults f c) h = refl
next_of-lawful interactive (forks c) h = refl

module _ (kernel : Kernel) (rounds : ℕ) where
  dispatch-lawful :
      (a : Action) (args : Text) (c : Context) → lawful_ran (dispatch kernel rounds a args c) ≡ true
  unfolding dispatch quit show_seg mprotect_seg anon_seg
  dispatch-lawful Action.help_me args c = refl
  dispatch-lawful Action.quit args c = ran_as-lawful (quit c) refl
  dispatch-lawful Action.show_pid args c = refl
  dispatch-lawful Action.pause_me args c =
      ran_as-lawful (pause_me kernel c) (pause_me-lawful kernel c)
  dispatch-lawful Action.numa_info args c =
      ran_as-lawful (numa_info kernel c) (numa_info-lawful kernel c)
  dispatch-lawful Action.migrate_process args c =
      ran_as-lawful (migrate_process kernel args c) (migrate_process-lawful kernel args c)
  dispatch-lawful Action.show_seg args c =
      let (out, rows, c') = show_seg kernel args c in ran_as-lawful (out, c') refl
  dispatch-lawful Action.anon_seg args c =
      ran_as-lawful (anon_seg kernel args c) (anon_seg-lawful kernel args c)
  dispatch-lawful Action.file_seg args c =
      ran_as-lawful (file_seg kernel args c) (file_seg-lawful kernel args c)
  dispatch-lawful Action.shmem_seg args c =
      ran_as-lawful (shmem_seg kernel args c) (shmem_seg-lawful kernel args c)
  dispatch-lawful Action.remove_seg args c =
      ran_as-lawful (remove_seg kernel args c) (remove_seg-lawful kernel args c)
  dispatch-lawful Action.map_seg args c =
      ran_as-lawful (map_seg kernel args c) (map_seg-lawful kernel args c)
  dispatch-lawful Action.unmap_seg args c =
      ran_as-lawful (unmap_seg kernel args c) (unmap_seg-lawful kernel args c)
  dispatch-lawful Action.lock_seg args c =
      ran_as-lawful (lock_unlock kernel true false args c)
        (lock_unlock-lawful kernel true false args c)
  dispatch-lawful Action.unlock_seg args c =
      ran_as-lawful (lock_unlock kernel false false args c)
        (lock_unlock-lawful kernel false false args c)
  dispatch-lawful Action.shm_lock_seg args c =
      ran_as-lawful (lock_unlock kernel true true args c)
        (lock_unlock-lawful kernel true true args c)
  dispatch-lawful Action.shm_unlock_seg args c =
      ran_as-lawful (lock_unlock kernel false true args c)
        (lock_unlock-lawful kernel false true args c)
  dispatch-lawful Action.touch_seg args c =
      ran_as-lawful (touch_seg kernel rounds args c) (touch_seg-lawful kernel rounds args c)
  dispatch-lawful Action.mbind_seg args c =
      ran_as-lawful (mbind_seg kernel args c) (mbind_seg-lawful kernel args c)
  dispatch-lawful Action.where_seg args c =
      let (out, marks, c') = where_seg kernel rounds args c in
      ran_as-lawful (out, c') (where_seg-lawful kernel rounds args c)
  dispatch-lawful Action.cpus args c =
      let (out, words, c') = cpus kernel args c in
      ran_as-lawful (out, c') (cpus-lawful kernel args c)
  dispatch-lawful Action.mems args c =
      ran_as-lawful (mems kernel args c) (mems-lawful kernel args c)
  dispatch-lawful Action.child_spawn args c =
      spawned_as-lawful kernel (child_spawn kernel args c) (child_spawn-lawful kernel args c)
  dispatch-lawful Action.child_kick args c =
      ran_as-lawful (child_kick args c) (child_kick-lawful kernel args c)
  dispatch-lawful Action.snooze args c =
      ran_as-lawful (snooze kernel args c) (snooze-lawful kernel args c)
  dispatch-lawful Action.mpol args c =
      ran_as-lawful (mpol kernel args c) (mpol-lawful kernel args c)
  dispatch-lawful Action.mprotect_seg args c =
      ran_as-lawful (mprotect_seg kernel args c) (mprotect_seg-lawful kernel args c)

  parse_command-lawful :
      (cmdline : Text) (c : Context) → lawful_ran (parse_command kernel rounds cmdline c) ≡ true
  unfolding parse_command
  parse_command-lawful cmdline c =
      let (found, args) = split_command cmdline in
      elim found
          as (λ f.
            (split_command cmdline).0 ≡ f
            → lawful_ran (parse_command kernel rounds cmdline c) ≡ true) [
              | command a ↦ λ e. rw (e, parse_command) (dispatch-lawful a args c)
              | ambiguous ↦ λ e. rw (e, parse_command) refl
              | unrecognized ↦ λ e. rw (e, parse_command) refl
            ]
        refl

  run_command-lawful :
      (room : Bool) (cmdline : Text) (c : Context)
      → lawful_next (run_command kernel rounds room cmdline c) ≡ true
  unfolding run_command
  run_command-lawful room cmdline c =
      let sent = child_send-lawful kernel room (next cmdline) c in
      let own =
        next_of-lawful c.interactive (parse_command kernel rounds cmdline c)
          (parse_command-lawful cmdline c) in
      ground arith

  run_event-lawful : (e : Event) (c : Context) → lawful_next (run_event kernel rounds e c) ≡ true
  unfolding run_event run_line
  run_event-lawful (line input) c =
      let cmdline = trim_end (skip whitespace input) in
      let direct = run_command-lawful (has_room input c) cmdline c in
      let cleared = run_command-lawful (has_room input c) cmdline (reset_signal c) in ground arith
  run_event-lawful (signal sig) c = let h = deliver-lawful kernel sig c in ground arith

  run_events-lawful :
      (events : List Event) (c : Context) → lawful_final (run_events kernel rounds events c) ≡ true
  unfolding run_events
  run_events-lawful [] c = refl
  run_events-lawful (e ∷ r) c =
      let h = run_event-lawful e c in
      elim (run_event kernel rounds e c)
          as (λ a.
            run_event kernel rounds e c ≡ a
            → lawful_next a ≡ true
            → lawful_final (run_events kernel rounds (e ∷ r) c) ≡ true) [
              | go_on d ↦ λ q s. rw (q, run_events) (run_events-lawful r d)
              | leave code d ↦ λ q s. rw (q, run_events) s
              | perish sig d ↦ λ q s. rw (q, run_events) s
              | break f d ↦ λ q s. rw (q, run_events) refl
            ]
        refl h

  pub process_commands-lawful :
      (events : List Event) (c : Context)
      → lawful_final (process_commands kernel rounds events c) ≡ true
  unfolding process_commands
  process_commands-lawful events c =
      let h = run_events-lawful events (tell Call.setvbuf c) in ground arith
