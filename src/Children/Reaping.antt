-- ===== src/Children/Reaping.antt =====
-- `child_find_by_pid` and `child_reap` of commands.c, `sigcld_handler` of memtoy.c, and what a signal does when
-- it arrives.
use memtoy.Base.{
  Bool, false, ◌||◌, ℕ, zero, suc, Option, none, some, List, [], ◌∷◌, ◌==◌, if◌then◌else◌,
}
use memtoy.Context.{Child, Kernel, Call, failed, value, Context, sys, tell}
use memtoy.Signals.{Handled, resumed, kills, signals_to_handle, signal_handler}

-- `child_find_by_pid`
unfoldable pub find_by_pid : ℕ → List Child → Option Child
find_by_pid pid [] = none
find_by_pid pid (ch ∷ r) = let rest = find_by_pid pid r in if pid == ch.c_pid then some ch else rest

-- `list_del` on the child that `find_by_pid` finds.
unfoldable pub remove_pid : ℕ → List Child → List Child
remove_pid pid [] = []
remove_pid pid (ch ∷ r) = let rest = remove_pid pid r in if pid == ch.c_pid then r else ch ∷ rest

unfoldable pub child_reap : ℕ → Context → Context
child_reap pid c = elim (find_by_pid pid c.children) [
  | none ↦ c
  | some ch ↦
      let c' = tell (Call.close (some ch.c_rfd)) (tell (Call.close (some ch.c_cfd)) c) in
      record c' { children = remove_pid pid c.children }
]

abbrev pub sigcld : ℕ
sigcld = 17

-- SIGCONT, SIGSTOP, SIGTSTP, SIGTTIN, SIGTTOU, SIGURG and SIGWINCH, which the program does not handle and
-- after which a process goes on: by default they are ignored, or stop the process until it is continued.
abbrev pub signals_passed_over : List ℕ
signals_passed_over = 18 ∷ 19 ∷ 20 ∷ 21 ∷ 22 ∷ 23 ∷ 28 ∷ []

unfoldable pub is_among : ℕ → List ℕ → Bool
is_among sig [] = false
is_among sig (s ∷ r) = (sig == s) || is_among sig r

module _ (kernel : Kernel) where
  unfoldable pub sigcld_handler : Context → Context
  sigcld_handler c =
      let (reply, c') = sys kernel Call.wait3 c in
      elim reply [ failed e ↦ c' | value zero ↦ c' | value (suc n) ↦ child_reap (suc n) c' ]

  -- A signal arrives: the handler that `set_signals` has installed for it runs, or the default of the
  -- system is done, which kills the process without `cleanup`. The point that a jump goes to is only
  -- live in `touch_memory`; elsewhere the jump goes to a frame that is gone.
  unfoldable pub deliver : ℕ → Context → Handled
  deliver sig c =
      if sig == sigcld
      then resumed (sigcld_handler c)
      else if is_among sig signals_to_handle
      then signal_handler sig c
      else if is_among sig signals_passed_over
      then resumed c
      else kills sig
