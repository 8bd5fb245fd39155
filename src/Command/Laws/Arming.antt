-- ===== src/Command/Laws/Arming.antt =====
-- The point that a signal jumps to, while a process waits for its next line.
use mathlib.Core.Path.{subst}
use memtoy.Base.{ℕ, ap, ◌≡◌, ◌≢◌, refl, ◌∙◌, Bool, true, false, Text, next, skip, arith}
use memtoy.Context.{Kernel, Context, Fault}
use memtoy.Signals.{reset_signal}
use memtoy.Args.Sizes.{whitespace}
use memtoy.Children.{child_respond, child_send}
use memtoy.Children.Answers.{Calm}
use memtoy.Command.Loop.{
  Ran, ran, ends, dies, faults, forks, Next, go_on, leave, perish, break, next_of, line, signal,
  trim_end, has_room, parse_command, run_command, run_line, run_event,
}
use memtoy.Command.Laws.Voice.{child_send-tone, deliver-Calm}
use memtoy.Command.Laws.Ran.{CalmRan}
use memtoy.Command.Laws.Dispatch.{parse_command-Calm}
use memtoy.Command.Laws.Answering.{Session, begin, handled, signalled}

abbrev CalmNext : Context → Next → Type 0
CalmNext c (go_on d) = Calm c d
CalmNext c (leave code d) = Unit
CalmNext c (perish sig d) = Unit
CalmNext c (break f d) = Unit

child_respond-Calm : (c d : Context) → Calm c d → CalmNext c (go_on (child_respond d))
unfolding child_respond
child_respond-Calm c d h = λ k. (let q = h k in ground arith)

next_of-Calm :
    (interactive : Bool) (c : Context) (r : Ran) → CalmRan c r → CalmNext c (next_of interactive r)
unfolding next_of
next_of-Calm interactive c (ran true d) h = child_respond-Calm c d h
next_of-Calm true c (ran false d) h = child_respond-Calm c d h
next_of-Calm false c (ran false d) h = tt
next_of-Calm interactive c (ends code d) h = tt
next_of-Calm interactive c (dies sig d) h = tt
next_of-Calm interactive c (faults f d) h = tt
next_of-Calm interactive c (forks d) h = h

CalmNext-after : (b c : Context) (n : Next) → b.sigjmp ≡ false → CalmNext b n → CalmNext c n
CalmNext-after b c (go_on d) e h = λ k. h e
CalmNext-after b c (leave code d) e h = tt
CalmNext-after b c (perish sig d) e h = tt
CalmNext-after b c (break f d) e h = tt

module _ (kernel : Kernel) (rounds : ℕ) where
  run_command-Calm :
      (room : Bool) (cmdline : Text) (c : Context)
      → CalmNext c (run_command kernel rounds room cmdline c)
  unfolding run_command
  run_command-Calm room cmdline c =
      let c1 = (child_send kernel room (next cmdline) c).1 in
      let sent =
        child_respond-Calm c c1
          (λ h. ap (λ t. t.1) (child_send-tone kernel room (next cmdline) c) ∙ h) in
      let own =
        next_of-Calm c.interactive c (parse_command kernel rounds cmdline c)
          (parse_command-Calm kernel rounds cmdline c) in
      ground arith

  run_line-Calm : (input : Text) (c : Context) → CalmNext c (run_line kernel rounds input c)
  unfolding run_line reset_signal
  run_line-Calm input c =
      let cmdline = trim_end (skip whitespace input) in
      let room = has_room input c in
      let only = child_respond-Calm c c (λ h. h) in
      let direct = run_command-Calm room cmdline c in
      let c1 = reset_signal c in
      let cleared =
        CalmNext-after c1 c (run_command kernel rounds room cmdline c1) refl
          (run_command-Calm room cmdline c1) in
      ground arith

  line-Calm :
      (input : Text) (c d : Context)
      → run_event kernel rounds (line input) c ≡ go_on d
      → CalmNext c (go_on d)
  unfolding run_event
  line-Calm input c d h = subst (CalmNext c) h (run_line-Calm input c)

  signal-Calm :
      (sig : ℕ) (c d : Context)
      → run_event kernel rounds (signal sig) c ≡ go_on d
      → c.sigjmp ≡ false
      → d.sigjmp ≡ false
  unfolding run_event
  signal-Calm sig c d h e = let calm = deliver-Calm kernel sig c in ground arith

  signal-no_jump :
      (sig : ℕ) (c : Context) (f : Fault) (d : Context)
      → c.sigjmp ≡ false
      → run_event kernel rounds (signal sig) c ≢ break f d
  unfolding run_event
  signal-no_jump sig c f d e h = let calm = deliver-Calm kernel sig c in absurd (ground (arith, h))

  Session-Calm :
      (c : Context)
      → c.sigjmp ≡ false
      → {n : ℕ} {d : Context} → Session kernel rounds c n d
      → d.sigjmp ≡ false
  Session-Calm c h begin = h
  Session-Calm c h (handled {n} {d} {e} input s q) = line-Calm input d e q (Session-Calm c h s)
  Session-Calm c h (signalled {n} {d} {e} sig s q) = signal-Calm sig d e q (Session-Calm c h s)

  -- From a context on where the point that `touch_memory` jumps to is not armed: while the process goes
  -- on, with any lines and signals and any answers of the system, it is not armed between two lines, and
  -- no signal that arrives there jumps to it or is another fault.
  pub Session-no_jump :
      (c : Context) (n : ℕ) (d : Context)
      → c.sigjmp ≡ false
      → Session kernel rounds c n d
      → (d.sigjmp ≡ false)
        × ((sig : ℕ) (f : Fault) (e : Context) → run_event kernel rounds (signal sig) d ≢ break f e)
  Session-no_jump c n d h s =
      let calm = Session-Calm c h s in (calm, λ sig f e. signal-no_jump sig d f e calm)
