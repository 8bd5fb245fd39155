-- ===== src/Startup.antt =====
-- The start and the end of the program in memtoy.c: `get_huge_pagesize`, `init_glctx`,
-- `parse_command_line_args`, `open_script_file`, `cleanup` and `main`. The files of /proc are texts,
-- or `none` where they cannot be opened; the options are what `getopt` gives, one letter each.
pub mod Ending
pub mod Starting
pub mod Whole
pub mod Codes
mod Tests
use memtoy.Base.{
  ℕ, zero, suc, ◌*◌, ◌%◌, ◌^◌, Bool, true, false, not, ◌||◌, Option, none, some, List, [], ◌∷◌,
  Text, text, first, skip, strncmp_eq, strtoul, word, ◌==◌, if◌then◌else◌,
}
use memtoy.Base.Lines.{chunks}
use memtoy.Context.{
  Kernel, Call, Reply, failed, value, Context, sys, tell, Outcome, returned, exited, killed,
  crashed, Fault, null_write,
}
use memtoy.Args.Sizes.{whitespace}
use memtoy.Segment.Slots.{segment_cleanup}
use memtoy.Segment.Maps.{segment_init}
use memtoy.Children.{children_free}
use memtoy.Command.Waiting.{set_signals}
use memtoy.Command.Nodes.{refresh_mems_allowed, refresh_cpus_allowed}
use memtoy.Command.Loop.{Event, Final, left, slain, broken, process_commands}

-- The text behind "Hugepagesize:".
unfoldable pub drop_bytes : ℕ → Text → Text
drop_bytes zero s = s
drop_bytes (suc k) [] = []
drop_bytes (suc k) (ch ∷ s) = drop_bytes k s

-- A line of /proc/meminfo: the size it gives, or a bad line.
pub data Meminfo : Type 0 where
  other : Meminfo
  bad_line : Meminfo
  huge : ℕ → Meminfo

unfoldable pub huge_line : Text → Meminfo
huge_line input =
    let (size, end) = strtoul 0 (skip whitespace (drop_bytes 13 input)) in
    let unit = skip whitespace end in
    if not (strncmp_eq input (text "Hugepagesize:") 13)
    then other
    else if not (first end == 32)
    then bad_line
    else huge (if strncmp_eq unit (text "kB") 2 then size * 2 ^ 10 % word else size)

-- The loop of `get_huge_pagesize`; `none` is the end of the program.
unfoldable pub huge_lines : List Text → ℕ → Option ℕ
huge_lines [] size = some size
huge_lines (input ∷ r) size = elim (huge_line input) [
  | other ↦ huge_lines r size
  | bad_line ↦ none
  | huge n ↦ huge_lines r n
]

-- `MIBUFSIZE` is 64.
unfoldable pub get_huge_pagesize : Option Text → ℕ → Option ℕ
get_huge_pagesize meminfo size = elim meminfo [
  | none ↦ none
  | some s ↦ huge_lines (chunks 64 s) size
]

-- `bzero` on the global data.
abbrev pub zeroed : Context
zeroed = record {
  interactive = false;
  siginfo = none;
  sigjmp = false;
  pagesize = 0;
  huge_pagesize = 0;
  max_cpu_id = 0;
  numa_max_node = some 0;
  seglist = [];
  seg_avail = none;
  children = [];
  child_name = none;
  response_fd = 0;
  mems_allowed = none;
  cpus_allowed = none;
  trace = [];
}

abbrev pub answer : Reply → ℕ
answer (failed e) = 0
answer (value v) = v

abbrev is_value : Reply → Bool
is_value (failed e) = false
is_value (value v) = true

-- The options until one ends the program: its code, or whether there was an error.
pub data Options : Type 0 where
  stop : ℕ → Options
  parsed : Bool → Options

unfoldable pub parse_options : List ℕ → Bool → Options
parse_options [] error = parsed error
parse_options (opt ∷ r) error =
    let rest = parse_options r error in
    let wrong = parse_options r true in
    if opt == b'v'
    then rest
    else if (opt == b'h') || (opt == b'x')
    then stop 1
    else if opt == b'V'
    then stop 0
    else wrong

-- `cleanup`
unfoldable pub cleanup : Context → Context
cleanup c = segment_cleanup (children_free true c)

-- An exit after the registration of `cleanup`; a fault and a process that is killed do not reach it.
unfoldable pub at_exit : Final → Final
at_exit (left code c) = left code (cleanup c)
at_exit (slain sig c) = slain sig c
at_exit (broken f c) = broken f c

module _ (kernel : Kernel) where
  -- `commands_init`; `none` is a write through a null pointer.
  unfoldable pub commands_init : Context → Option Context
  commands_init c = elim (refresh_mems_allowed kernel c) [
    | none ↦ none
    | some c' ↦ some (record (refresh_cpus_allowed kernel c') { max_cpu_id = 128 })
  ]

  -- The highest node, if there is NUMA support.
  unfoldable pub init_nodes : Context → Context
  init_nodes c =
      let (available, c1) = sys kernel Call.numa_available c in
      let (top, c2) = sys kernel Call.numa_max_node c1 in
      if is_value available
      then record c2 { numa_max_node = some (answer top) }
      else record c1 { numa_max_node = none }

  -- The empty list of children, and the question whether the input is a terminal.
  unfoldable pub check_terminal : Context → Context
  check_terminal c =
      let (tty, c') = sys kernel Call.isatty (record c { children = [] }) in
      record c' { interactive = not (answer tty == 0) }

  -- What follows the limits.
  unfoldable pub init_tables : Option Text → Context → Outcome × Context
  init_tables maps c = elim (commands_init c) [
    | none ↦ (crashed null_write, c)
    | some c1 ↦
        let (out, c2) = segment_init kernel maps c1 in
        elim out [
          | returned b ↦ (returned true, check_terminal c2)
          | exited code ↦ (exited code, c2)
          | killed sig ↦ (killed sig, c2)
          | crashed f ↦ (crashed f, c2)
        ]
  ]

  unfoldable pub init_glctx : Option Text → Option Text → Outcome × Context
  init_glctx meminfo maps =
      let (pagesize, c1) = sys kernel Call.sysconf_pagesize zeroed in
      let c2 = record c1 { pagesize = answer pagesize } in
      elim (get_huge_pagesize meminfo 0) [
        | none ↦ (exited 1, c2)
        | some size ↦
            let c3 = init_nodes (record c2 { huge_pagesize = size }) in
            let (limits, c4) = sys kernel Call.getrlimit c3 in
            if is_value limits then init_tables maps c4 else (exited 1, c4)
      ]

  -- True if there is an error.
  unfoldable pub open_script_file : Text → Context → Bool × Context
  open_script_file script c =
      let (opened, c1) = sys kernel (Call.open_file script 0) c in
      let (duped, c2) = sys kernel (Call.dup2 (answer opened) 0) c1 in
      let c3 = tell (Call.close (some (answer opened))) (record c2 { interactive = false }) in
      if is_value opened then (not (is_value duped) || not (answer duped == 0), c3) else (true, c1)

  -- The signals and the commands.
  unfoldable pub start_commands : ℕ → List Event → Context → Final
  start_commands rounds events c =
      let (done, c') = set_signals kernel c in
      if done then process_commands kernel rounds events c' else left 1 c'

  -- What follows `init_glctx`.
  unfoldable pub run_program : ℕ → List ℕ → Option Text → List Event → Context → Final
  run_program rounds options script events c =
      let (registered, c1) = sys kernel Call.atexit c in
      let opened : Bool × Context = elim script [
        | none ↦ (false, c1)
        | some s ↦ open_script_file s c1
      ] in
      if is_value registered
      then at_exit (elim (parse_options options false) [
        | stop code ↦ left code c1
        | parsed error ↦
            if error
            then left 1 c1
            else if opened.0
            then left 1 opened.1
            else start_commands rounds events opened.1
      ])
      else left 1 c1

  unfoldable pub main : Option Text → Option Text → ℕ → List ℕ → Option Text → List Event → Final
  main meminfo maps rounds options script events =
      let (out, c) = init_glctx meminfo maps in
      elim out [
        | returned b ↦ run_program rounds options script events c
        | exited code ↦ left code c
        | killed sig ↦ slain sig c
        | crashed f ↦ broken f c
      ]
