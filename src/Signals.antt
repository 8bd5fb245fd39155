-- ===== src/Signals.antt =====
-- The signal handling of memtoy.c: the two tables, `sig_name`, `signum_from_name`,
-- `signal_handler`, `reset_signal`.
pub mod Laws
pub mod Listing
pub mod Rows
mod Tests
use memtoy.Base.{
  ℕ, suc, ◌+◌, ◌-◌, Bool, true, false, ◌||◌, Option, none, some, List, [], ◌∷◌, Text, text,
  strcasecmp_eq, strncasecmp_eq, text_eq, next, ◌==◌, if◌then◌else◌, get_or,
}
use memtoy.Context.{Context}

-- Signal numbers of x86-64 Linux.
abbrev pub sigint : ℕ
sigint = 2

abbrev pub sigquit : ℕ
sigquit = 3

abbrev pub sigbus : ℕ
sigbus = 7

abbrev pub sigusr1 : ℕ
sigusr1 = 10

abbrev pub sigsegv : ℕ
sigsegv = 11

abbrev pub sigusr2 : ℕ
sigusr2 = 12

-- `signals_to_handle`, without the terminating zero
abbrev pub signals_to_handle : List ℕ
signals_to_handle = sigint ∷ sigquit ∷ sigsegv ∷ sigbus ∷ sigusr1 ∷ sigusr2 ∷ []

-- `sig_names`, without the terminating null pointer
abbrev pub sig_names : List Text
sig_names =
    text "INT"
    ∷ text "QUIT"
    ∷ text "SEGV"
    ∷ text "BUS"
    ∷ text "USR1"
    ∷ text "USR2"
    ∷ text "unknown"
    ∷ []

-- The index at which the walk over `signals_to_handle` ends.
unfoldable pub signal_index : ℕ → List ℕ → ℕ
signal_index signum [] = 0
signal_index signum (s ∷ r) = let i = signal_index signum r in if s == signum then 0 else suc i

unfoldable pub sig_name : ℕ → Text
unfolding signal_index
sig_name signum = get_or sig_names (signal_index signum signals_to_handle) []

-- The walk over both tables up to "unknown".
unfoldable pub find_signal : Text → List Text → List ℕ → Option ℕ
find_signal name [] sigs = none
find_signal name (n ∷ names) [] = none
find_signal name (n ∷ names) (s ∷ sigs) =
    let rest = find_signal name names sigs in
    if text_eq n (text "unknown") then none else if strcasecmp_eq name n then some s else rest

-- `none` stands for -1.
unfoldable pub signum_from_name : Text → Option ℕ
unfolding find_signal strcasecmp_eq strncasecmp_eq text_eq
signum_from_name name =
    find_signal (if strncasecmp_eq name (text "sig") 3 then next (next (next name)) else name)
      sig_names signals_to_handle

-- What a signal does: its handler jumps to the armed point, returns, or ends the program by `exit`; or the
-- program does not handle it, and it kills the process.
pub data Handled : Type 0 where
  jumped : Context → Handled
  resumed : Context → Handled
  died : ℕ → Handled
  kills : ℕ → Handled

unfoldable pub signal_handler : ℕ → Context → Handled
signal_handler sig c =
    let c' = record c { siginfo = some sig } in
    if (sig == sigsegv) || (sig == sigbus)
    then (if c'.sigjmp then jumped (record c' { sigjmp = false }) else died 8)
    else if (sig == sigint) || (sig == sigquit)
    then resumed c'
    else died 8

unfoldable pub reset_signal : Context → Context
reset_signal c = record c { siginfo = none; sigjmp = false }
