-- ===== src/Children.antt =====
-- The child processes of commands.c: the list of children, `child_send`,
-- `child_kick` and `children_free`.
pub mod Spawn
pub mod Answers
pub mod Reaping
pub mod Laws
mod Tests
use memtoy.Base.{
  ℕ, zero, suc, ◌+◌, ◌/◌, ◌%◌, ◌^◌, Bool, true, false, not, ◌&&◌, ◌||◌, Option, none, some, List,
  [], ◌∷◌, ◌++◌, Text, text, text_eq, first, next, is_empty, is_digit, skip, take_until, drop_until,
  strtoul, length, leb, ◌==◌, if◌then◌else◌,
}
use memtoy.Context.{
  Child, Kernel, Call, failed, value, Context, sys, tell, Outcome, returned, crashed, null_write,
  out_of_bounds,
}
use memtoy.Signals.{sigint, sigquit, signum_from_name}
use memtoy.Args.Sizes.{whitespace}
use memtoy.Args.Masks.{as_int}
use memtoy.Command.Common.{cmd_error, cmd_success, first_arg}

-- `child_find_by_name`
unfoldable pub find_by_name : Text → List Child → Option Child
find_by_name name [] = none
find_by_name name (ch ∷ r) =
    let rest = find_by_name name r in if text_eq name ch.c_name then some ch else rest

-- A write of the error count of the child that `find_by_name` finds.
unfoldable pub set_errs : Text → ℕ → List Child → List Child
set_errs name n [] = []
set_errs name n (ch ∷ r) =
    let rest = set_errs name n r in
    if text_eq name ch.c_name then record ch { c_errs = n } ∷ r else ch ∷ rest

-- The loop of `children_free` over the list.
unfoldable pub free_from : Bool → List Child → Context → Context
free_from do_kill [] c = c
free_from do_kill (ch ∷ r) c =
    let c' = record c { children = r } in
    free_from do_kill r (if do_kill then tell (Call.kill ch.c_pid sigquit) c' else c')

unfoldable pub children_free : Bool → Context → Context
children_free do_kill c = free_from do_kill c.children c

-- `child_delim`
abbrev pub child_delim : ℕ → Bool
child_delim ch = (ch == 9) || (ch == 32) || (ch == b'/')

-- `none` stands for -1. A number with bit 31 set is negative, which the callers refuse.
unfoldable pub parse_signal : Text → Option ℕ
parse_signal args =
    let token = take_until whitespace args in
    let (number, end) = strtoul 0 token in
    if is_digit (first token)
    then elim (as_int number) [
      | none ↦ none
      | some n ↦ if (n == 0) || leb 65 n then none else some n
    ]
    else signum_from_name token

-- The number of the signal to send: `SIGINT` if the text is empty.
abbrev pub kick_signal : Text → Option ℕ
kick_signal args = if is_empty args then some sigint else parse_signal args

unfoldable pub child_kick : Text → Context → Outcome × Context
child_kick args c =
    let (name, more) = first_arg (skip whitespace args) in
    if is_empty (skip whitespace args)
    then (cmd_error, c)
    else if first name == b'?'
    then (cmd_success, c)
    else elim (find_by_name name c.children) [
      | none ↦ (cmd_error, c)
      | some ch ↦ elim (kick_signal more) [
        | none ↦ (cmd_error, c)
        | some signum ↦ (cmd_success, tell (Call.kill ch.c_pid signum) c)
      ]
    ]

-- `child_respond`: only a child has a name to answer under.
unfoldable pub child_respond : Context → Context
child_respond c = elim (c.child_name) [
  | none ↦ c
  | some name ↦ tell (Call.write c.response_fd (text "OK")) c
]

module _ (kernel : Kernel) where
  -- The command that is written: a slash behind the name is put in front of it again. A line that ends
  -- with the name is read on behind its end: `room` says that a zero byte stands there, so that the
  -- command is empty; else it is not in the buffer.
  unfoldable pub child_send : Bool → Text → Context → Outcome × Context
  child_send room cmd_str c =
      let t = skip child_delim cmd_str in
      let name = take_until child_delim t in
      let after = drop_until child_delim t in
      let rest = skip whitespace (next after) in
      let line = (if first after == b'/' then b'/' ∷ rest else rest) ++ 10 ∷ [] in
      if is_empty t || (first t == b'?')
      then (cmd_success, c)
      else if is_empty after && not room
      then (crashed out_of_bounds, c)
      else elim (find_by_name name c.children) [
        | none ↦ (cmd_error, c)
        | some ch ↦
            let (reply, c') = sys kernel (Call.write ch.c_cfd line) c in
            let written : Bool = elim reply [ failed e ↦ false | value n ↦ n == length line ] in
            if written
            then (
              cmd_success,
              record (tell (Call.read ch.c_rfd) c') { children = set_errs name 0 c.children },
            )
            else (cmd_error, record c' { children = set_errs name (suc ch.c_errs) c.children })
      ]
