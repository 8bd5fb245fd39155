-- ===== src/Command/Loop.antt =====
-- `help_me`, `parse_command` and `process_commands` of commands.c: a command line from its text to
-- its end, and the loop over the input. What reaches a process is a list of events: the lines it
-- reads and the signals that arrive while it waits for one.
use memtoy.Children.Reaping.{deliver}
use memtoy.Base.{
  ℕ, Bool, true, false, not, ◌&&◌, ◌||◌, none, some, List, [], ◌∷◌, Text, first, next, is_empty,
  skip, take_until, drop_until, strncmp_eq, text_eq, length, ◌==◌, if◌then◌else◌,
}
use memtoy.Context.{
  Kernel, Call, failed, value, Context, sys, Outcome, returned, exited, killed, crashed, Fault,
  out_of_bounds,
}
use memtoy.Signals.{sigquit, jumped, resumed, died, kills, reset_signal}
use memtoy.Args.Sizes.{whitespace}
use memtoy.Children.{child_send, child_kick, child_respond}
use memtoy.Children.Spawn.{Spawned, in_parent, in_child, child_exits, child_spawn}
use memtoy.Command.Table.{Action, command, ambiguous, unrecognized, cmd_table, split_command}
use memtoy.Command.Creating.{anon_seg, file_seg, shmem_seg}
use memtoy.Command.Segments.{
  remove_seg, touch_seg, unmap_seg, map_seg, mbind_seg, where_seg, lock_unlock, show_seg,
  mprotect_seg,
}
use memtoy.Command.Waiting.{quit, pause_me, snooze}
use memtoy.Command.Nodes.{numa_info, migrate_process}
use memtoy.Command.Policies.{cpus, mems, mpol}

-- Some command in the table passes the test.
unfoldable pub any_command : (Text → Bool) → List (Text × Action) → Bool
any_command test [] = false
any_command test ((name, f) ∷ r) = test name || any_command test r

-- `help_me`. The length of a name that ends the line comes out of an address, and is taken to be
-- larger than any name.
unfoldable pub help_me : Text → Bool
help_me args =
    let rest = skip whitespace args in
    let name = take_until whitespace rest in
    if is_empty rest
    then true
    else if is_empty (drop_until whitespace rest)
    then any_command (text_eq name) cmd_table
    else any_command (λ other. strncmp_eq name other (length name)) cmd_table

-- What becomes of a command: a status, the end of the program, its end by a signal, a fault, or the child's side of
-- a fork, which goes on with a command loop of its own.
pub data Ran : Type 0 where
  ran : Bool → Context → Ran
  ends : ℕ → Context → Ran
  dies : ℕ → Context → Ran
  faults : Fault → Context → Ran
  forks : Context → Ran

unfoldable pub ran_as : Outcome × Context → Ran
ran_as (returned b, c) = ran b c
ran_as (exited code, c) = ends code c
ran_as (killed sig, c) = dies sig c
ran_as (crashed f, c) = faults f c

-- What `process_commands` starts with, in the child of a fork too.
unfoldable pub start_loop : Kernel → Context → Ran
start_loop kernel c =
    let (reply, c') = sys kernel Call.setvbuf c in
    elim reply [ failed e ↦ ends 4 c' | value v ↦ forks c' ]

unfoldable pub spawned_as : Kernel → Spawned → Ran
spawned_as kernel (in_parent out c) = ran_as (out, c)
spawned_as kernel (in_child c) = start_loop kernel c
spawned_as kernel (child_exits code c) = ends code c

-- The end of a line or of the loop; a signal that the program does not handle makes it `perish`.
pub data Next : Type 0 where
  go_on : Context → Next
  leave : ℕ → Context → Next
  perish : ℕ → Context → Next
  break : Fault → Context → Next

-- The white space at the end of the line is cut off.
unfoldable pub trim_end : Text → Text
trim_end [] = []
trim_end (ch ∷ s) =
    let rest = trim_end s in if is_empty rest && whitespace ch then [] else ch ∷ rest

-- Whether a zero byte stands behind the end of a line that is cut: the buffer of `readline_ni` has one, and
-- the bytes that are cut off become zeros; a line of `readline` has nothing behind its end.
unfoldable pub is_buffered : Context → Bool
is_buffered c = elim (c.child_name) [ none ↦ not c.interactive | some name ↦ true ]

unfoldable pub has_room : Text → Context → Bool
has_room input c =
    let cmdline = skip whitespace input in
    is_buffered c || not (length (trim_end cmdline) == length cmdline)

pub data Event : Type 0 where
  line : Text → Event
  signal : ℕ → Event

-- The end of the process: by an exit with a code, killed by a signal, or at a fault.
pub data Final : Type 0 where
  left : ℕ → Context → Final
  slain : ℕ → Context → Final
  broken : Fault → Context → Final

-- In batch mode an error of a command is the end of the program.
unfoldable pub next_of : Bool → Ran → Next
next_of interactive (ran true c) = go_on (child_respond c)
next_of true (ran false c) = go_on (child_respond c)
next_of false (ran false c) = leave 4 c
next_of interactive (ends code c) = leave code c
next_of interactive (dies sig c) = perish sig c
next_of interactive (faults f c) = break f c
next_of interactive (forks c) = go_on c

module _ (kernel : Kernel) (rounds : ℕ) where
  -- The call of the function in the table; `rounds` bounds the loops over pages.
  unfoldable pub dispatch : Action → Text → Context → Ran
  dispatch Action.help_me args c = ran (help_me args) c
  dispatch Action.quit args c = ran_as (quit c)
  dispatch Action.show_pid args c = ran true c
  dispatch Action.pause_me args c = ran_as (pause_me kernel c)
  dispatch Action.numa_info args c = ran_as (numa_info kernel c)
  dispatch Action.migrate_process args c = ran_as (migrate_process kernel args c)
  dispatch Action.show_seg args c = let (out, rows, c') = show_seg kernel args c in ran_as (out, c')
  dispatch Action.anon_seg args c = ran_as (anon_seg kernel args c)
  dispatch Action.file_seg args c = ran_as (file_seg kernel args c)
  dispatch Action.shmem_seg args c = ran_as (shmem_seg kernel args c)
  dispatch Action.remove_seg args c = ran_as (remove_seg kernel args c)
  dispatch Action.map_seg args c = ran_as (map_seg kernel args c)
  dispatch Action.unmap_seg args c = ran_as (unmap_seg kernel args c)
  dispatch Action.lock_seg args c = ran_as (lock_unlock kernel true false args c)
  dispatch Action.unlock_seg args c = ran_as (lock_unlock kernel false false args c)
  dispatch Action.shm_lock_seg args c = ran_as (lock_unlock kernel true true args c)
  dispatch Action.shm_unlock_seg args c = ran_as (lock_unlock kernel false true args c)
  dispatch Action.touch_seg args c = ran_as (touch_seg kernel rounds args c)
  dispatch Action.mbind_seg args c = ran_as (mbind_seg kernel args c)
  dispatch Action.where_seg args c =
      let (out, marks, c') = where_seg kernel rounds args c in ran_as (out, c')
  dispatch Action.cpus args c = let (out, words, c') = cpus kernel args c in ran_as (out, c')
  dispatch Action.mems args c = ran_as (mems kernel args c)
  dispatch Action.child_spawn args c = spawned_as kernel (child_spawn kernel args c)
  dispatch Action.child_kick args c = ran_as (child_kick args c)
  dispatch Action.snooze args c = ran_as (snooze kernel args c)
  dispatch Action.mpol args c = ran_as (mpol kernel args c)
  dispatch Action.mprotect_seg args c = ran_as (mprotect_seg kernel args c)

  unfoldable pub parse_command : Text → Context → Ran
  parse_command cmdline c =
      let (found, args) = split_command cmdline in
      elim found [
        | command action ↦ dispatch action args c
        | ambiguous ↦ ran false c
        | unrecognized ↦ ran false c
      ]

  -- A line that starts with a command, after the signals have been reset.
  unfoldable pub run_command : Bool → Text → Context → Next
  run_command room cmdline c =
      let (out, c') = child_send kernel room (next cmdline) c in
      if first cmdline == b'/'
      then elim out [
        | returned b ↦ go_on (child_respond c')
        | exited code ↦ leave code c'
        | killed sig ↦ perish sig c'
        | crashed f ↦ break f c'
      ]
      else next_of c.interactive (parse_command cmdline c)

  -- A pass of the loop over one line.
  unfoldable pub run_line : Text → Context → Next
  run_line input c =
      let cmdline = skip whitespace input in
      if is_empty cmdline || (first cmdline == b'#')
      then go_on (child_respond c)
      else elim (c.siginfo) [
        | none ↦ run_command (has_room input c) (trim_end cmdline) c
        | some sig ↦
            if not c.interactive && (sig == sigquit)
            then leave 0 c
            else run_command (has_room input c) (trim_end cmdline) (reset_signal c)
      ]

  unfoldable pub run_event : Event → Context → Next
  run_event (line input) c = run_line input c
  run_event (signal sig) c = elim (deliver kernel sig c) [
    | jumped c' ↦ break out_of_bounds c'
    | resumed c' ↦ go_on c'
    | died code ↦ leave code c
    | kills sig' ↦ perish sig' c
  ]

  -- The loop; the end of the input is the end of the program.
  unfoldable pub run_events : List Event → Context → Final
  run_events [] c = left 0 c
  run_events (e ∷ r) c = elim (run_event e c) [
    | go_on c' ↦ run_events r c'
    | leave code c' ↦ left code c'
    | perish sig c' ↦ slain sig c'
    | break f c' ↦ broken f c'
  ]

  unfoldable pub process_commands : List Event → Context → Final
  process_commands events c =
      let (reply, c') = sys kernel Call.setvbuf c in
      elim reply [ failed e ↦ left 4 c' | value v ↦ run_events events c' ]
