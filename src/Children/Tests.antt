-- ===== src/Children/Tests.antt =====
-- The theorems on child processes at concrete lists.
use memtoy.Children.Reaping.{child_reap, find_by_pid}
use memtoy.Children.Laws.Reaping.{child_reap-gone}
use memtoy.Base.{
  ℕ, ◌==◌, ◌≡◌, ◌⊎◌, refl, true, false, none, some, [], ◌∷◌, text, skip, is_empty, strtok,
  take_until, drop_until, text_eq,
}
use memtoy.Context.{Child, Kernel, Call, value, Context}
use memtoy.Args.Sizes.{whitespace}
use memtoy.Command.Common.{cmd_error, cmd_success, first_arg}
use memtoy.Children.{find_by_name, children_free, child_send}
use memtoy.Children.Spawn.{child_spawn, make_child, fork_child, in_parent}
use memtoy.Children.Laws.Names.{has_child, distinct}
use memtoy.Children.Laws.Freeing.{kills, children_free-lem}
use memtoy.Children.Laws.Spawning.{Spawns, child_spawn-Spawns}
use memtoy.Children.Laws.Reach.{start, step, spawn, send, Reach-distinct}

-- A system in which a fork gives the process 5 and every other call 1.
abbrev forking : Kernel
forking trace Call.fork = value 5
forking trace call = value 1

abbrev no_children : Context
no_children = record {
  interactive = true;
  siginfo = none;
  sigjmp = false;
  pagesize = 4096;
  huge_pagesize = 0x200000;
  max_cpu_id = 7;
  numa_max_node = some 1;
  seglist = [];
  seg_avail = none;
  children = [];
  child_name = none;
  response_fd = 0;
  mems_allowed = none;
  cpus_allowed = none;
  trace = [];
}

abbrev ann : Child
ann = record { c_name = text "ann"; c_pid = 4; c_cfd = 3; c_rfd = 6; c_errs = 0 }

abbrev one_child : Context
one_child = record no_children { children = ann ∷ [] }

children_free-lem_example :
    ((children_free true one_child).children ≡ [])
    × ((children_free true one_child).trace ≡ kills (ann ∷ []) [])
    × ((children_free false one_child).children ≡ [])
    × ((children_free false one_child).trace ≡ [])
children_free-lem_example = children_free-lem one_child

bob_left : is_empty (skip whitespace (text " bob")) ≡ false
unfolding skip
bob_left = refl

child_spawn-Spawns_example :
    let name = (first_arg (skip whitespace (text " bob"))).0 in
    ((has_child name one_child.children ≡ true)
      × (child_spawn forking (text " bob") one_child ≡ in_parent cmd_error one_child))
    ⊎ ((find_by_name name one_child.children ≡ none)
        × Spawns name one_child (child_spawn forking (text " bob") one_child))
child_spawn-Spawns_example = child_spawn-Spawns forking (text " bob") one_child bob_left

-- The parent after "child bob".
abbrev bob : Child
bob = record { c_name = text "bob"; c_pid = 5; c_cfd = 0; c_rfd = 1; c_errs = 0 }

abbrev with_bob : Context
with_bob = record no_children {
  children = bob ∷ [];
  trace =
      Call.read 1
      ∷ Call.close (some 0)
      ∷ Call.close (some 1)
      ∷ Call.fork
      ∷ Call.pipe
      ∷ Call.pipe
      ∷ Call.calloc
      ∷ [];
}

bob_born : child_spawn forking (text "bob") no_children ≡ in_parent cmd_success with_bob
unfolding child_spawn make_child fork_child find_by_name skip strtok take_until drop_until
bob_born = refl

-- A second "bob" is refused.
bob_again : child_spawn forking (text "bob") with_bob ≡ in_parent cmd_error with_bob
unfolding child_spawn find_by_name text_eq skip strtok take_until drop_until
bob_again = refl

Reach-distinct_example :
    distinct (child_send forking true (text "bob pid") with_bob).1.children ≡ true
Reach-distinct_example = Reach-distinct forking no_children refl (
    step
      (step (step start (spawn (text "bob") cmd_success with_bob bob_born))
        (spawn (text "bob") cmd_error with_bob bob_again))
      (send true (text "bob pid")))

child_reap-gone_example :
    let d = child_reap 4 one_child in
    ((find_by_pid 4 one_child.children ≡ none) × (d ≡ one_child))
    ⊎ (ch : Child) × (find_by_pid 4 one_child.children ≡ some ch)
      × (d.trace ≡ Call.close (some ch.c_rfd) ∷ Call.close (some ch.c_cfd) ∷ [])
      × (find_by_pid 4 d.children ≡ none)
      × ((q : ℕ) → (q == 4) ≡ false → find_by_pid q d.children ≡ find_by_pid q one_child.children)
child_reap-gone_example = child_reap-gone 4 one_child refl
