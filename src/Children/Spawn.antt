-- ===== src/Children/Spawn.antt =====
-- `child_spawn` of commands.c, in the parent and in the child. The two descriptors that `pipe` writes
-- are the halves of its answer. `strdup` is taken to have memory.
use memtoy.Base.{
  ℕ, zero, suc, ◌/◌, ◌%◌, ◌^◌, false, none, some, [], ◌∷◌, ◌++◌, Text, is_empty, skip,
  if◌then◌else◌,
}
use memtoy.Context.{
  Child, Kernel, Call, failed, value, Context, sys, tell, Outcome, crashed, null_write,
}
use memtoy.Args.Sizes.{whitespace}
use memtoy.Command.Common.{cmd_error, cmd_success, first_arg}
use memtoy.Children.{find_by_name, children_free, child_respond}

-- What stands in a process after `child_spawn`: the parent has its status, the child goes on with
-- the command loop or exits with a code.
pub data Spawned : Type 0 where
  in_parent : Outcome → Context → Spawned
  in_child : Context → Spawned
  child_exits : ℕ → Context → Spawned

-- `fd[0]` and `fd[1]` of a pipe
abbrev pub read_end : ℕ → ℕ
read_end p = p % 2 ^ 32

abbrev pub write_end : ℕ → ℕ
write_end p = p / 2 ^ 32 % 2 ^ 32

abbrev pub close_pipe : ℕ → Context → Context
close_pipe p c = tell (Call.close (some (write_end p))) (tell (Call.close (some (read_end p))) c)

module _ (kernel : Kernel) where
  -- The child's side up to its command loop, with `dup2` of its standard input first.
  unfoldable pub start_child : Text → ℕ → ℕ → Context → Spawned
  start_child name cmdpipe resppipe c =
      let (reply, c1) = sys kernel (Call.dup2 (read_end cmdpipe) 0) c in
      let c2 = tell (Call.close (some (read_end resppipe))) (close_pipe cmdpipe c1) in
      elim reply [
        | failed e ↦ child_exits 1 c1
        | value zero ↦
            let c3 = record c2 { child_name = some name; response_fd = write_end resppipe } in
            in_child (child_respond (children_free false c3))
        | value (suc n) ↦ child_exits 1 c1
      ]

  -- What follows the pipes.
  unfoldable pub fork_child : Text → ℕ → ℕ → Context → Spawned
  fork_child name cmdpipe resppipe c =
      let (reply, c1) = sys kernel Call.fork c in
      elim reply [
        | failed e ↦ in_parent cmd_error (close_pipe cmdpipe (close_pipe resppipe c1))
        | value zero ↦ start_child name cmdpipe resppipe c1
        | value (suc n) ↦
            let ch : Child = record {
              c_name = name;
              c_pid = suc n;
              c_cfd = write_end cmdpipe;
              c_rfd = read_end resppipe;
              c_errs = 0;
            } in
            let c2 =
              tell (Call.close (some (write_end resppipe)))
                (tell (Call.close (some (read_end cmdpipe))) c1) in
            in_parent cmd_success
              (tell (Call.read ch.c_rfd) (record c2 { children = c.children ++ ch ∷ [] }))
      ]

  -- What follows the tests of the name.
  unfoldable pub make_child : Text → Context → Spawned
  make_child name c =
      let (memory, c1) = sys kernel Call.calloc c in
      let (cmds, c2) = sys kernel Call.pipe c1 in
      let (resps, c3) = sys kernel Call.pipe c2 in
      elim memory [
        | failed e ↦ in_parent (crashed null_write) c1
        | value v ↦ elim cmds [
          | failed e ↦ in_parent cmd_error c2
          | value cmdpipe ↦ elim resps [
            | failed e ↦ in_parent cmd_error (close_pipe cmdpipe c3)
            | value resppipe ↦ fork_child name cmdpipe resppipe c3
          ]
        ]
      ]

  unfoldable pub child_spawn : Text → Context → Spawned
  child_spawn args c =
      let (name, more) = first_arg (skip whitespace args) in
      if is_empty (skip whitespace args)
      then in_parent cmd_error c
      else elim (find_by_name name c.children) [
        | none ↦ make_child name c
        | some ch ↦ in_parent cmd_error c
      ]
