-- ===== src/Command/Common.antt =====
-- What the command functions of commands.c share: results, the first argument, `numa_supported`.
use memtoy.Base.{Bool, true, false, not, none, some, Text, skip, strtok, ◌==◌}
use memtoy.Context.{Range, Context, Outcome, returned}
use memtoy.Args.Sizes.{whitespace}

abbrev pub cmd_error : Outcome
cmd_error = returned false

abbrev pub cmd_success : Outcome
cmd_success = returned true

-- `range_t range = { 0L, 0L };`
abbrev pub no_range : Range
no_range = record { offset = 0; length = 0; start = 0 }

-- A status of the segment API as the result of a command.
abbrev pub to_outcome : Bool × Context → Outcome × Context
to_outcome (done, c) = (returned done, c)

-- The first argument, and the others with the blanks in front of them skipped.
abbrev pub first_arg : Text → Text × Text
first_arg args = let (token, more) = strtok whitespace args in (token, skip whitespace more)

-- `numa_supported`
abbrev pub numa_supported : Context → Bool
numa_supported c = elim (c.numa_max_node) [ none ↦ false | some n ↦ not (n == 0) ]
