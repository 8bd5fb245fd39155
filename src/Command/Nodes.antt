-- ===== src/Command/Nodes.antt =====
-- The masks of nodes and cpus of commands.c, and the commands `numa` and `migrate`.
use memtoy.Base.{
  ℕ, zero, suc, ◌^◌, not, ◌||◌, Option, none, some, List, [], ◌∷◌, Text, is_empty, skip, strtok,
  length, ltb, bit_or, ◌==◌, if◌then◌else◌,
}
use memtoy.Context.{
  Kernel, Call, failed, value, Context, sys, Outcome, crashed, null_write, null_read, out_of_bounds,
}
use memtoy.Args.Sizes.{whitespace}
use memtoy.Args.Masks.{ids, refused, wild, get_nodemask, get_current_nodeid_list, isset}
use memtoy.Command.Common.{cmd_error, cmd_success, numa_supported}

-- `nodemask_set`, or `CPU_SET`, on an empty set for each number of a list
unfoldable pub mask_of : List ℕ → ℕ
mask_of [] = 0
mask_of (n ∷ l) = bit_or (2 ^ n) (mask_of l)

-- The number of nodes from `node` on that the mask allows, for as many as are left.
unfoldable pub count_nodes : ℕ → ℕ → ℕ → ℕ
count_nodes zero node bits = 0
count_nodes (suc k) node bits =
    let rest = count_nodes k (suc node) bits in if isset bits node then suc rest else rest

-- The highest node, where there is NUMA support.
abbrev pub top_node : Context → ℕ
top_node c = elim (c.numa_max_node) [ none ↦ 0 | some m ↦ m ]

abbrev pub allowed : Context → ℕ
allowed c = elim (c.mems_allowed) [ none ↦ 0 | some m ↦ m ]

module _ (kernel : Kernel) where
  -- The mask comes from `get_mempolicy`, or from `numa_get_membind` in the build without it; a call that
  -- fails leaves the mask. `none` is a write through the null pointer that `calloc` gives where memory
  -- is exhausted.
  unfoldable pub refresh_mems_allowed : Context → Option Context
  refresh_mems_allowed c =
      let (memory, c1) = sys kernel Call.calloc c in
      let c2 : Context = elim (c.mems_allowed) [ none ↦ c1 | some m ↦ c ] in
      let (reply, c3) = sys kernel Call.get_mems_allowed c2 in
      let fresh : Option Context =
        some
          (record c3 { mems_allowed = some (elim reply [ failed e ↦ allowed c | value v ↦ v ]) }) in
      if numa_supported c
      then elim (c.mems_allowed) [
        | none ↦ elim memory [ failed e ↦ none | value v ↦ fresh ]
        | some m ↦ fresh
      ]
      else some c

  -- `sched_getaffinity` leaves the mask where it fails, and fails for a null pointer.
  unfoldable pub refresh_cpus_allowed : Context → Context
  refresh_cpus_allowed c =
      let (memory, c1) = sys kernel Call.calloc c in
      let c2 : Context = elim (c.cpus_allowed) [
        | none ↦ elim memory [ failed e ↦ c1 | value v ↦ record c1 { cpus_allowed = some 0 } ]
        | some m ↦ c
      ] in
      let (reply, c3) = sys kernel Call.sched_getaffinity c2 in
      elim (c2.cpus_allowed) [
        | none ↦ c3
        | some m ↦ elim reply [ failed e ↦ c3 | value v ↦ record c3 { cpus_allowed = some v } ]
      ]

  -- The loop of `numa_info` over the nodes.
  unfoldable pub node_sizes : List ℕ → Context → Outcome × Context
  node_sizes [] c = (cmd_success, c)
  node_sizes (n ∷ l) c =
      let (reply, c') = sys kernel (Call.numa_node_size n) c in
      elim reply [ failed e ↦ (cmd_error, c') | value v ↦ node_sizes l c' ]

  -- The array has room for as many ids as the number of the highest node.
  unfoldable pub numa_info : Context → Outcome × Context
  numa_info c =
      let (memory, c1) = sys kernel Call.calloc c in
      if numa_supported c
      then elim (refresh_mems_allowed c1) [
        | none ↦ (crashed null_write, c1)
        | some c2 ↦
            let nodeids = get_current_nodeid_list (top_node c) (allowed c2) in
            elim memory [
              | value v ↦
                  if ltb (top_node c) (length nodeids)
                  then (crashed out_of_bounds, c2)
                  else node_sizes nodeids c2
              | failed e ↦
                  if length nodeids == 0 then (cmd_success, c2) else (crashed null_write, c2)
            ]
      ]
      else (cmd_error, c)

  -- `get_current_nodemask`: the number of nodes and the copy of the mask.
  unfoldable pub get_current_nodemask : Context → Option (ℕ × ℕ × Context)
  get_current_nodemask c = elim (refresh_mems_allowed c) [
    | none ↦ none
    | some c1 ↦
        let (memory, c2) = sys kernel Call.calloc c1 in
        let nr_nodes = count_nodes (suc (top_node c)) 0 (allowed c1) in
        elim memory [ failed e ↦ none | value v ↦ some (nr_nodes, allowed c1, c2) ]
  ]

  -- The call of `migrate_pages` with both masks.
  abbrev pub migrate_call : ℕ → ℕ → Context → Outcome × Context
  migrate_call old new c =
      let (reply, c') = sys kernel (Call.migrate_pages old new) c in
      elim reply [ failed e ↦ (cmd_error, c') | value v ↦ (cmd_success, c') ]

  -- What follows the first list of nodes.
  unfoldable pub migrate_from : ℕ → Text → Context → Outcome × Context
  migrate_from new args c =
      if is_empty args
      then elim (get_current_nodemask c) [
        | none ↦ (crashed null_write, c)
        | some (nr_nodes, bits, c') ↦
            if nr_nodes == 0 then (cmd_error, c') else migrate_call bits new c'
      ]
      else elim (get_nodemask c.numa_max_node (strtok whitespace args).0) [
        | refused ↦ (cmd_error, c)
        | wild ↦ (crashed out_of_bounds, c)
        | ids l ↦ migrate_call (mask_of l) new c
      ]

  -- A text of blanks has no first token: `get_nodemask` is given a null pointer.
  unfoldable pub migrate_process : Text → Context → Outcome × Context
  migrate_process args c =
      let (idlist, more) = strtok whitespace args in
      if not (numa_supported c) || is_empty args
      then (cmd_error, c)
      else if is_empty (skip whitespace args)
      then (crashed null_read, c)
      else elim (get_nodemask c.numa_max_node idlist) [
        | refused ↦ (cmd_error, c)
        | wild ↦ (crashed out_of_bounds, c)
        | ids l ↦ migrate_from (mask_of l) (skip whitespace more) c
      ]
