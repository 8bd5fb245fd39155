-- ===== src/Command/Policies.antt =====
-- The commands of commands.c on cpus, memory nodes and policies: `cpus`, `mems`, `mpol`.
use memtoy.Base.{
  ℕ, zero, suc, ◌+◌, ◌*◌, ◌^◌, ◌/◌, ◌%◌, Bool, false, not, ◌&&◌, ◌||◌, Option, none, some, List, [],
  ◌∷◌, Text, first, next, is_empty, skip, strtoul, tolower, leb, ◌==◌, if◌then◌else◌,
}
use memtoy.Context.{
  Kernel, Call, failed, value, Context, sys, tell, Outcome, crashed, null_write, null_read,
  out_of_bounds, no_status,
}
use memtoy.Args.Sizes.{whitespace}
use memtoy.Args.Policy.{get_mbind_policy}
use memtoy.Args.Masks.{
  ids, refused, wild, get_nodemask, mask, null_mask, bad_mask, wild_mask, get_arg_nodemask,
  get_cpuset_from_ids, get_cpuset_from_mask, ncpuwords,
}
use memtoy.Command.Common.{cmd_error, cmd_success}
use memtoy.Command.Nodes.{mask_of, refresh_mems_allowed, refresh_cpus_allowed}

-- The words of a `cpu_set_t` as one number, the lowest word first.
unfoldable pub words_of : List ℕ → ℕ
words_of [] = 0
words_of (w ∷ l) = w + 2 ^ 32 * words_of l

-- The words that `show_cpus` prints, from the word `k - 1` down: leading zeros are left out.
unfoldable pub shown_words : ℕ → Bool → ℕ → List ℕ
shown_words zero any bits = []
shown_words (suc k) any bits =
    let w = bits / 2 ^ (32 * k) % 2 ^ 32 in
    let rest = shown_words k (any || not (w == 0)) bits in
    if (w == 0) && not any then rest else w ∷ rest

module _ (kernel : Kernel) where
  abbrev pub has_hex : Text → Bool
  has_hex args = (first args == b'0') && (tolower (first (next args)) == b'x')

  -- What `cpus` ends with: the mask that the system reports.
  unfoldable pub show_cpus : Context → Outcome × List ℕ × Context
  show_cpus c =
      let c' = refresh_cpus_allowed kernel c in
      elim (c'.cpus_allowed) [
        | none ↦ (crashed null_read, [], c')
        | some bits ↦ (cmd_success, shown_words ncpuwords false bits, c')
      ]

  unfoldable pub cpus : Text → Context → Outcome × List ℕ × Context
  cpus args c =
      let rest = skip whitespace args in
      let cpuset : Option ℕ =
        if has_hex rest
        then (elim (get_cpuset_from_mask rest) [ none ↦ none | some l ↦ some (words_of l) ])
        else (elim (get_cpuset_from_ids c.max_cpu_id rest) [
          | none ↦ none
          | some l ↦ some (mask_of l)
        ]) in
      if is_empty rest then show_cpus c else elim cpuset [
        | none ↦ (cmd_error, [], c)
        | some bits ↦ show_cpus (tell (Call.sched_setaffinity bits) c)
      ]

  -- What `mems` ends with: without NUMA support there is no mask to print.
  unfoldable pub show_mems : Context → Outcome × Context
  show_mems c = elim (refresh_mems_allowed kernel c) [
    | none ↦ (crashed null_write, c)
    | some c' ↦ elim (c'.mems_allowed) [
      | none ↦ (crashed null_read, c')
      | some m ↦ (cmd_success, c')
    ]
  ]

  -- The mask of `mems` in its hexadecimal form.
  unfoldable pub mems_mask : Text → Context → Outcome × Context
  mems_mask args c =
      let (memory, c1) = sys kernel Call.calloc c in
      let (bits, end) = strtoul 0 args in
      elim memory [
        | failed e ↦ (crashed null_write, c1)
        | value v ↦
            if (bits == 0) || not (is_empty end)
            then (cmd_error, c1)
            else show_mems (tell (Call.numa_set_membind bits) c1)
      ]

  unfoldable pub mems : Text → Context → Outcome × Context
  mems args c =
      let rest = skip whitespace args in
      if is_empty rest
      then show_mems c
      else if has_hex rest
      then mems_mask rest c
      else elim (get_nodemask c.numa_max_node rest) [
        | refused ↦ (cmd_error, c)
        | wild ↦ (crashed out_of_bounds, c)
        | ids l ↦ show_mems (tell (Call.numa_set_membind (mask_of l)) c)
      ]

  -- The table of policies has five names, and a null one behind them.
  unfoldable pub show_task_policy : Context → Outcome × Context
  show_task_policy c =
      let (reply, c') = sys kernel Call.get_task_policy c in
      elim reply [
        | failed e ↦ (cmd_error, c')
        | value policy ↦ (if leb policy 5 then cmd_success else crashed out_of_bounds, c')
      ]

  abbrev pub set_policy : ℕ → Option (List ℕ) → Context → Outcome × Context
  set_policy policy nodes c =
      let (reply, c') = sys kernel (Call.set_mempolicy policy nodes) c in
      elim reply [
        | failed e ↦ (cmd_error, c')
        | value zero ↦ (cmd_success, c')
        | value (suc n) ↦ (cmd_error, c')
      ]

  -- `nextarg` is unset where the policy is not known.
  unfoldable pub mpol : Text → Context → Outcome × Context
  mpol args c =
      let (policy, nextarg) = get_mbind_policy (skip whitespace args) in
      if is_empty (skip whitespace args) then show_task_policy c else elim nextarg [
        | none ↦ (crashed no_status, c)
        | some rest ↦ elim (get_arg_nodemask c.numa_max_node (skip whitespace rest) policy) [
          | bad_mask ↦ (cmd_error, c)
          | wild_mask ↦ (crashed out_of_bounds, c)
          | null_mask ↦ set_policy policy none c
          | mask nodes ↦ set_policy policy (some nodes) c
        ]
      ]
