-- ===== src/Command/Waiting.antt =====
-- The commands of commands.c that wait, `pause` and `snooze`, with the signals that arrive meanwhile,
-- `set_signals` of memtoy.c, and `quit` and `pid`.
use memtoy.Children.Reaping.{sigcld, deliver}
use memtoy.Base.{
  ℕ, zero, suc, Bool, true, false, List, [], ◌∷◌, Text, skip, is_empty, ◌==◌, if◌then◌else◌,
}
use memtoy.Context.{
  Kernel, Call, failed, value, Context, sys, Outcome, returned, exited, killed, crashed,
  out_of_bounds,
}
use memtoy.Signals.{jumped, resumed, died, kills, signals_to_handle, reset_signal}
use memtoy.Children.{child_respond}
use memtoy.Args.Sizes.{whitespace, bogus_seconds, get_arg_seconds}
use memtoy.Command.Common.{cmd_error, cmd_success}

-- `quit`
unfoldable pub quit : Context → Outcome × Context
quit c = (exited 0, child_respond c)

module _ (kernel : Kernel) where
  -- A call that waits: it is over (0), or a signal arrives, which ends it. The answers of the system are
  -- the signals that do; those that are passed over do not end a wait.
  unfoldable pub wait_call : Call → Context → Outcome × Context
  wait_call call c =
      let (reply, c') = sys kernel call c in
      elim reply [
        | failed e ↦ (cmd_success, c')
        | value zero ↦ (cmd_success, c')
        | value (suc n) ↦ elim (deliver kernel (suc n) c') [
          | jumped c2 ↦ (crashed out_of_bounds, c2)
          | resumed c2 ↦ (cmd_success, c2)
          | died code ↦ (exited code, c')
          | kills sig ↦ (killed sig, c')
        ]
      ]

  -- `pause_me`
  unfoldable pub pause_me : Context → Outcome × Context
  pause_me c =
      let (out, c') = wait_call Call.pause c in
      elim out [
        | returned b ↦ (cmd_success, reset_signal c')
        | exited code ↦ (exited code, c')
        | killed sig ↦ (killed sig, c')
        | crashed f ↦ (crashed f, c')
      ]

  unfoldable pub snooze : Text → Context → Outcome × Context
  snooze args c =
      let rest = skip whitespace args in
      let seconds = get_arg_seconds rest in
      if is_empty rest
      then (cmd_error, c)
      else if seconds == bogus_seconds
      then (cmd_error, c)
      else wait_call (Call.sleep seconds) c

  -- The loop of `set_signals`: false is the end of the program with code 1.
  unfoldable pub set_each : List ℕ → Context → Bool × Context
  set_each [] c = (true, c)
  set_each (s ∷ r) c =
      let (reply, c') = sys kernel (Call.sigaction s) c in
      elim reply [ failed e ↦ (false, c') | value v ↦ set_each r c' ]

  -- The handled signals, then SIGCLD.
  unfoldable pub set_signals : Context → Bool × Context
  set_signals c =
      let (done, c1) = set_each signals_to_handle c in
      elim done [ false ↦ (false, c1) | true ↦ set_each (sigcld ∷ []) c1 ]
