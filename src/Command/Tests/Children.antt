-- ===== src/Command/Tests/Children.antt =====
-- The theorems on answers, on sending and on the point to jump to, at concrete lines.
use memtoy.Base.{
  ℕ, ◌≢◌, ◌+◌, ◌≡◌, ◌⊎◌, ◌==◌, refl, [], ◌∷◌, ◌++◌, List, text, none, some, true, false, arith,
  first, skip, take_until, drop_until, is_empty, strtok, strncmp_eq, text_eq,
}
use memtoy.Context.{Child, Kernel, Call, value, Context, Fault, out_of_bounds}
use memtoy.Children.{
  child_delim, child_respond, child_send, children_free, find_by_name, set_errs, free_from,
}
use memtoy.Children.Reaping.{deliver, is_among}
use memtoy.Children.Answers.{answered}
use memtoy.Children.Spawn.{child_spawn, make_child, fork_child, start_child}
use memtoy.Command.Common.{cmd_error, cmd_success}
use memtoy.Command.Input.{readline_ni}
use memtoy.Command.Table.{split_command, find_command, unique_abbrev}
use memtoy.Command.Loop.{
  forks, go_on, perish, break, has_room, is_buffered, line, signal, start_loop, spawned_as, next_of,
  trim_end, dispatch, parse_command, run_command, run_line, run_event,
}
use memtoy.Command.Laws.Answering.{begin, handled, fork-answers}
use memtoy.Command.Laws.Arming.{Session-no_jump}
use memtoy.Command.Laws.Sending.{child_of, command_of, child_send-line}

-- A system in which every call succeeds, so that a fork gives the new process.
abbrev quiet : Kernel
quiet trace call = value 0

abbrev parent : Context
parent = record {
  interactive = true;
  siginfo = none;
  sigjmp = false;
  pagesize = 4096;
  huge_pagesize = 0x200000;
  max_cpu_id = 7;
  numa_max_node = some 1;
  seglist = [];
  seg_avail = none;
  children = [];
  child_name = none;
  response_fd = 0;
  mems_allowed = none;
  cpus_allowed = none;
  trace = [];
}

-- What the child has behind it after its start.
abbrev start_calls : List Call
start_calls =
    Call.setvbuf
    ∷ Call.write 0 (text "OK")
    ∷ Call.close (some 0)
    ∷ Call.close (some 0)
    ∷ Call.close (some 0)
    ∷ Call.dup2 0 0
    ∷ Call.fork
    ∷ Call.pipe
    ∷ Call.pipe
    ∷ Call.calloc
    ∷ []

abbrev newborn : Context
newborn = record parent { child_name = some (text "ann"); trace = start_calls }

abbrev asked : Context
asked = record newborn { trace = Call.write 0 (text "OK") ∷ start_calls }

forked : parse_command quiet 10 (text "child ann") parent ≡ forks newborn
unfolding parse_command split_command find_command unique_abbrev strncmp_eq strtok skip take_until
    drop_until dispatch spawned_as child_spawn find_by_name make_child fork_child start_child
    start_loop child_respond children_free free_from
forked = refl

answers_pid : run_event quiet 10 (line (text "pid")) newborn ≡ go_on asked
unfolding run_event run_line run_command next_of skip trim_end parse_command split_command
    find_command unique_abbrev strncmp_eq strtok take_until drop_until dispatch child_respond
    child_send
answers_pid = refl

fork-answers_example : answered asked.trace ≡ answered [] + 2
fork-answers_example =
    fork-answers quiet 10 (text "child ann") parent newborn 1 asked forked
      (handled (text "pid") begin answers_pid)

Session-no_jump_example :
    (asked.sigjmp ≡ false)
    × ((sig : ℕ) (f : Fault) (e : Context) → run_event quiet 10 (signal sig) asked ≢ break f e)
Session-no_jump_example =
    Session-no_jump quiet 10 newborn 1 asked refl (handled (text "pid") begin answers_pid)

-- A parent with a child "ann".
abbrev ann : Child
ann = record { c_name = text "ann"; c_pid = 4; c_cfd = 3; c_rfd = 6; c_errs = 0 }

abbrev with_ann : Context
with_ann = record parent { children = ann ∷ [] }

pid_behind : is_empty (drop_until child_delim (skip child_delim (text "ann pid"))) ≡ false
unfolding drop_until skip
pid_behind = refl

pid_named : (first (skip child_delim (text "ann pid")) == b'?') ≡ false
unfolding skip
pid_named = refl

child_send-line_example :
    let out = child_send quiet false (text "ann pid") with_ann in
    let command = command_of (text "ann pid") in
    ((find_by_name (child_of (text "ann pid")) with_ann.children ≡ none)
      × (out ≡ (cmd_error, with_ann)))
    ⊎ (ch : Child) × (find_by_name (child_of (text "ann pid")) with_ann.children ≡ some ch)
      × (readline_ni (command ++ 10 ∷ []) ≡ command ∷ [])
      × (((out.0 ≡ cmd_success)
            × (out.1.trace ≡ Call.read ch.c_rfd ∷ Call.write ch.c_cfd (command ++ 10 ∷ []) ∷ []))
          ⊎ ((out.0 ≡ cmd_error) × (out.1.trace ≡ Call.write ch.c_cfd (command ++ 10 ∷ []) ∷ [])))
child_send-line_example =
    child_send-line quiet false (text "ann pid") with_ann refl (omega arith) pid_behind pid_named

-- A system in which every write of one byte is done.
abbrev taking : Kernel
taking trace call = value 1

abbrev script_sent : Context
script_sent = record with_ann {
  interactive = false;
  trace = Call.read 6 ∷ Call.write 3 (10 ∷ []) ∷ [];
}

-- From a script, a line that ends with the name of the child sends it a newline.
name_only :
    run_event taking 10 (line (text "/ann")) (record with_ann { interactive = false })
    ≡ go_on script_sent
unfolding run_event run_line run_command skip trim_end has_room is_buffered child_send take_until
    drop_until find_by_name set_errs text_eq child_respond
name_only = refl

-- From the terminal, it is read on behind its end, unless there is a blank there.
name_at_terminal : run_event taking 10 (line (text "/ann")) with_ann ≡ break out_of_bounds with_ann
unfolding run_event run_line run_command skip trim_end has_room is_buffered child_send take_until
    drop_until
name_at_terminal = refl

name_and_blank :
    run_event taking 10 (line (text "/ann ")) with_ann
    ≡ go_on (record with_ann { trace = Call.read 6 ∷ Call.write 3 (10 ∷ []) ∷ [] })
unfolding run_event run_line run_command skip trim_end has_room is_buffered child_send take_until
    drop_until find_by_name set_errs text_eq child_respond
name_and_blank = refl

-- SIGTERM kills the process, and SIGWINCH is passed over.
terminated : run_event quiet 10 (signal 15) with_ann ≡ perish 15 with_ann
unfolding run_event deliver is_among
terminated = refl

resized : run_event quiet 10 (signal 28) with_ann ≡ go_on with_ann
unfolding run_event deliver is_among
resized = refl
