-- ===== src/Command/Laws/Running.antt =====
-- The tables under a command line and under a run of the command loop.
use memtoy.Children.Reaping.{deliver}
use memtoy.Base.{ℕ, ◌≡◌, refl, Bool, true, false, List, [], ◌∷◌, Text, next, skip, arith, inl, inr}
use memtoy.Context.{Kernel, Call, Reply-cases, Context, tell}
use memtoy.Signals.{jumped, resumed, died, kills, reset_signal}
use memtoy.Segment.Valid.Updates.{IsValid}
use memtoy.Args.Sizes.{whitespace}
use memtoy.Children.{child_send}
use memtoy.Command.Loop.{
  Ran, ran, ends, dies, faults, forks, Next, go_on, leave, perish, break, next_of, Event, line,
  signal, Final, left, slain, broken, trim_end, has_room, parse_command, run_command, run_line,
  run_event, run_events, process_commands,
}
use memtoy.Command.Laws.Tables.{IsSound, same-IsSound}
use memtoy.Command.Laws.Waiting.{
  SoundHandled, child_respond-IsSound, reset_signal-IsSound, child_send-IsSound, deliver-IsSound,
}
use memtoy.Command.Laws.Ran.{SoundRan}
use memtoy.Command.Laws.Dispatch.{parse_command-Sound}

abbrev pub SoundNext : Next → Type 0
SoundNext (go_on c) = IsSound c
SoundNext (leave code c) = IsValid c
SoundNext (perish sig c) = IsSound c
SoundNext (break f c) = IsSound c

abbrev pub SoundFinal : Final → Type 0
SoundFinal (left code c) = IsValid c
SoundFinal (slain sig c) = IsSound c
SoundFinal (broken f c) = IsSound c

next_of-Sound : (interactive : Bool) (r : Ran) → SoundRan r → SoundNext (next_of interactive r)
unfolding next_of
next_of-Sound interactive (ran true c) h = child_respond-IsSound c h
next_of-Sound true (ran false c) h = child_respond-IsSound c h
next_of-Sound false (ran false c) h = h.valid
next_of-Sound interactive (ends code c) h = h
next_of-Sound interactive (dies sig c) h = h
next_of-Sound interactive (faults f c) h = h
next_of-Sound interactive (forks c) h = h

module _ (kernel : Kernel) (rounds : ℕ) where
  run_command-Sound :
      (room : Bool) (cmdline : Text) (c : Context)
      → IsSound c
      → SoundNext (run_command kernel rounds room cmdline c)
  unfolding run_command
  run_command-Sound room cmdline c h =
      let c1 = (child_send kernel room (next cmdline) c).1 in
      let sent = child_send-IsSound kernel room (next cmdline) c h in
      let valid = sent.valid in
      let answered = child_respond-IsSound c1 sent in
      let own =
        next_of-Sound c.interactive (parse_command kernel rounds cmdline c)
          (parse_command-Sound kernel rounds cmdline c h) in
      ground arith

  run_line-Sound :
      (input : Text) (c : Context) → IsSound c → SoundNext (run_line kernel rounds input c)
  unfolding run_line
  run_line-Sound input c h =
      let cmdline = trim_end (skip whitespace input) in
      let room = has_room input c in
      let answered = child_respond-IsSound c h in
      let direct = run_command-Sound room cmdline c h in
      let cleared = run_command-Sound room cmdline (reset_signal c) (reset_signal-IsSound c h) in
      ground arith

  run_event-Sound : (e : Event) (c : Context) → IsSound c → SoundNext (run_event kernel rounds e c)
  unfolding run_event
  run_event-Sound (line input) c h = run_line-Sound input c h
  run_event-Sound (signal sig) c h =
      elim (deliver kernel sig c)
          as (λ a.
            deliver kernel sig c ≡ a
            → SoundHandled a
            → SoundNext (run_event kernel rounds (signal sig) c)) [
              | jumped d ↦ λ e s. rw (e, run_event) s
              | resumed d ↦ λ e s. rw (e, run_event) s
              | died code ↦ λ e s. rw (e, run_event) h.valid
              | kills sig' ↦ λ e s. rw (e, run_event) h
            ]
        refl (deliver-IsSound kernel sig c h)

  -- Whatever lines a process reads and whatever signals arrive between them, with any answers of
  -- the system: where its tables are in order at the start, they are at the end.
  pub run_events-Sound :
      (events : List Event) (c : Context)
      → IsSound c
      → SoundFinal (run_events kernel rounds events c)
  unfolding run_events
  run_events-Sound [] c h = h.valid
  run_events-Sound (e ∷ r) c h =
      elim (run_event kernel rounds e c)
          as (λ a.
            run_event kernel rounds e c ≡ a
            → SoundNext a
            → SoundFinal (run_events kernel rounds (e ∷ r) c)) [
              | go_on d ↦ λ q s. rw (q, run_events) (run_events-Sound r d s)
              | leave code d ↦ λ q s. rw (q, run_events) s
              | perish sig d ↦ λ q s. rw (q, run_events) s
              | break f d ↦ λ q s. rw (q, run_events) s
            ]
        refl (run_event-Sound e c h)

  pub process_commands-Sound :
      (events : List Event) (c : Context)
      → IsSound c
      → SoundFinal (process_commands kernel rounds events c)
  unfolding process_commands
  process_commands-Sound events c h =
      let c1 = tell Call.setvbuf c in
      let h1 : IsSound c1 = same-IsSound c c1 (ground arith) h in
      elim (Reply-cases (kernel c.trace Call.setvbuf)) [
        | inl (e, k) ↦ rw (k, process_commands) h1.valid
        | inr (v, k) ↦ rw (k, process_commands) (run_events-Sound events c1 h1)
      ]
