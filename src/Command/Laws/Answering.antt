-- ===== src/Command/Laws/Answering.antt =====
-- The answers that a process gives under `process_commands`: for each line that its parent sends.
use mathlib.Core.Path.{subst}
use memtoy.Base.{
  ap, ℕ, suc, ◌+◌, ◌≡◌, refl, Bool, true, false, some, none, Text, text_eq, next, skip, arith,
  Option-cases, inl, inr, if◌then◌else◌,
}
use memtoy.Context.{Kernel, Context}
use memtoy.Signals.{reset_signal}
use memtoy.Args.Sizes.{whitespace}
use memtoy.Children.{child_respond, child_send}
use memtoy.Children.Answers.{answered, voice}
use memtoy.Command.Loop.{
  Ran, ran, ends, dies, faults, forks, Next, go_on, leave, perish, break, next_of, line, signal,
  trim_end, has_room, parse_command, run_command, run_line, run_event,
}
use memtoy.Command.Laws.Voice.{child_send-tone, deliver-voice}
use memtoy.Command.Laws.Ran.{SpeaksRan}
use memtoy.Command.Laws.Dispatch.{parse_command-Speaks}

-- A child process has a name.
abbrev pub is_child : Context → Bool
is_child c = elim (c.child_name) [ none ↦ false | some name ↦ true ]

-- A process that goes on after a line has given one answer if it is a child then, and none else; a
-- child stays one.
abbrev pub SpeaksNext : Context → Next → Type 0
SpeaksNext c (go_on d) =
    (answered d.trace ≡ (if is_child d then suc (answered c.trace) else answered c.trace))
    × ((is_child c ≡ true) → (is_child d ≡ true))
SpeaksNext c (leave code d) = Unit
SpeaksNext c (perish sig d) = Unit
SpeaksNext c (break f d) = Unit

respond-Speaks : (c d : Context) → voice d ≡ voice c → SpeaksNext c (go_on (child_respond d))
unfolding child_respond text_eq
respond-Speaks c d h = elim (Option-cases (d.child_name)) [
  | inl e ↦ ground arith
  | inr (n, e) ↦ ground arith
]

next_of-Speaks :
    (interactive : Bool) (c : Context) (r : Ran)
    → SpeaksRan c r
    → SpeaksNext c (next_of interactive r)
unfolding next_of
next_of-Speaks interactive c (ran true d) h = respond-Speaks c d h
next_of-Speaks true c (ran false d) h = respond-Speaks c d h
next_of-Speaks false c (ran false d) h = tt
next_of-Speaks interactive c (ends code d) h = tt
next_of-Speaks interactive c (dies sig d) h = tt
next_of-Speaks interactive c (faults f d) h = tt
next_of-Speaks interactive c (forks d) (name, e, n) = ground arith

module _ (kernel : Kernel) (rounds : ℕ) where
  run_command-Speaks :
      (room : Bool) (cmdline : Text) (c : Context)
      → SpeaksNext c (run_command kernel rounds room cmdline c)
  unfolding run_command
  run_command-Speaks room cmdline c =
      let c1 = (child_send kernel room (next cmdline) c).1 in
      let sent =
        respond-Speaks c c1 (ap (λ t. t.0) (child_send-tone kernel room (next cmdline) c)) in
      let own =
        next_of-Speaks c.interactive c (parse_command kernel rounds cmdline c)
          (parse_command-Speaks kernel rounds cmdline c) in
      ground arith

  pub run_line-Speaks : (input : Text) (c : Context) → SpeaksNext c (run_line kernel rounds input c)
  unfolding run_line reset_signal
  run_line-Speaks input c =
      let cmdline = trim_end (skip whitespace input) in
      let room = has_room input c in
      let only = respond-Speaks c c refl in
      let direct = run_command-Speaks room cmdline c in
      let cleared = run_command-Speaks room cmdline (reset_signal c) in ground arith

  signal-voice :
      (sig : ℕ) (c d : Context)
      → run_event kernel rounds (signal sig) c ≡ go_on d
      → voice d ≡ voice c
  unfolding run_event
  signal-voice sig c d h = let quiet = deliver-voice kernel sig c in ground arith

-- The loop of commands in one process, from a context on: it has handled a number of lines and goes
-- on, and signals may have come between them. After a line that forks it is the new process.
pub data Session (kernel : Kernel) (rounds : ℕ) (c : Context) : ℕ → Context → Type 0 where
  begin : Session kernel rounds c 0 c
  handled :
      {n : ℕ} {d e : Context} (input : Text)
      → Session kernel rounds c n d
      → run_event kernel rounds (line input) d ≡ go_on e
      → Session kernel rounds c (suc n) e
  signalled :
      {n : ℕ} {d e : Context} (sig : ℕ)
      → Session kernel rounds c n d
      → run_event kernel rounds (signal sig) d ≡ go_on e
      → Session kernel rounds c n e

module _ (kernel : Kernel) (rounds : ℕ) where
  line-Speaks :
      (input : Text) (c d : Context)
      → run_event kernel rounds (line input) c ≡ go_on d
      → SpeaksNext c (go_on d)
  unfolding run_event
  line-Speaks input c d h = subst (SpeaksNext c) h (run_line-Speaks kernel rounds input c)

  Session-answers :
      (c : Context)
      → is_child c ≡ true
      → {n : ℕ} {d : Context} → Session kernel rounds c n d
      → (is_child d ≡ true) × (answered d.trace ≡ answered c.trace + n)
  Session-answers c h begin = ground arith
  Session-answers c h (handled {n} {d} {e} input s q) =
      let ih = Session-answers c h s in let one = line-Speaks input d e q in ground arith
  Session-answers c h (signalled {n} {d} {e} sig s q) =
      let ih = Session-answers c h s in
      let same = signal-voice kernel rounds sig d e q in ground arith

  -- From a command line on that forks: as long as the new process goes on, with any lines and signals and
  -- any answers of the system, it has written "OK" once for its start and once for each line that it
  -- has handled, and no more often. After a line that forks it is the process that this one starts.
  pub fork-answers :
      (cmdline : Text) (c d : Context) (n : ℕ) (e : Context)
      → parse_command kernel rounds cmdline c ≡ forks d
      → Session kernel rounds d n e
      → answered e.trace ≡ answered c.trace + suc n
  fork-answers cmdline c d n e h s =
      let (name, named, one) =
        subst (SpeaksRan c) h (parse_command-Speaks kernel rounds cmdline c) in
      let child : is_child d ≡ true = ground arith in
      let all = Session-answers d child s in ground arith
