-- ===== src/Command/Segments.antt =====
-- The other segment commands of commands.c, from the text of their arguments to the segment API.
use memtoy.Base.{
  ℕ, zero, suc, Bool, true, false, not, ◌||◌, Option, none, some, List, [], Text, text, first, next,
  is_empty, skip, strncasecmp_eq, length, bit_or, ◌==◌, if◌then◌else◌,
}
use memtoy.Context.{
  Range, Kernel, Context, default_length, prot_read, prot_write, prot_exec, Outcome, returned,
  crashed, out_of_bounds, endless,
}
use memtoy.Segment.Map.{segment_map}
use memtoy.Segment.Touch.{segment_touch}
use memtoy.Segment.Ranges.{
  segment_remove, segment_unmap, segment_mbind, segment_lock_unlock, segment_mprotect,
}
use memtoy.Segment.Show.{Row, Mark, segment_show, segment_location}
use memtoy.Args.Sizes.{
  whitespace, get_range, get_shared, get_access, axcs_err, axcs_read, axcs_write,
}
use memtoy.Args.Policy.{get_mbind_policy, get_mbind_flags}
use memtoy.Args.Masks.{get_arg_nodemask, mask, null_mask, bad_mask, wild_mask}
use memtoy.Command.Common.{cmd_error, cmd_success, no_range, to_outcome, first_arg, numa_supported}

module _ (kernel : Kernel) where
  -- The loop of `remove_seg` over the names; each takes a byte at least.
  unfoldable pub remove_loop : ℕ → Text → Context → Outcome × Context
  remove_loop zero args c = (crashed endless, c)
  remove_loop (suc rounds) args c = elim (is_empty args) [
    | true ↦ (cmd_success, c)
    | false ↦
        let (segname, more) = first_arg args in
        let (done, c') = segment_remove kernel segname c in
        elim done [ true ↦ remove_loop rounds more c' | false ↦ (cmd_error, c') ]
  ]

  unfoldable pub remove_seg : Text → Context → Outcome × Context
  remove_seg args c =
      if is_empty (skip whitespace args)
      then (cmd_error, c)
      else remove_loop (suc (length args)) (skip whitespace args) c

  unfoldable pub touch_seg : ℕ → Text → Context → Outcome × Context
  touch_seg rounds args c =
      let (segname, more) = first_arg (skip whitespace args) in
      if is_empty (skip whitespace args)
      then (cmd_error, c)
      else elim (get_range c.pagesize more no_range) [
        | none ↦ (cmd_error, c)
        | some (r, rest) ↦ elim (get_access rest) [
          | axcs_err ↦ (cmd_error, c)
          | axcs_read ↦ segment_touch kernel rounds segname r false c
          | axcs_write ↦ segment_touch kernel rounds segname r true c
        ]
      ]

  unfoldable pub unmap_seg : Text → Context → Outcome × Context
  unmap_seg args c =
      let (segname, more) = first_arg (skip whitespace args) in
      if is_empty (skip whitespace args)
      then (cmd_error, c)
      else to_outcome (segment_unmap kernel segname c)

  -- The range overrides the registered one only if `get_range` has moved on.
  unfoldable pub map_seg : Text → Context → Outcome × Context
  map_seg args c =
      let (segname, more) = first_arg (skip whitespace args) in
      if is_empty (skip whitespace args)
      then (cmd_error, c)
      else elim (get_range c.pagesize more no_range) [
        | none ↦ (cmd_error, c)
        | some (r, rest) ↦
            let range : Option Range = if length more == length rest then none else some r in
            let shared : Option ℕ = if is_empty rest then some 0 else get_shared rest in
            elim shared [
              | none ↦ (cmd_error, c)
              | some segflag ↦ to_outcome (segment_map kernel segname range segflag c)
            ]
      ]

  -- What follows the policy: the flags, the nodes and the call. `nextarg` is left where it was
  -- if `get_mbind_policy` failed.
  unfoldable pub mbind_with : Text → Range → ℕ → Text → Context → Outcome × Context
  mbind_with segname r policy nextarg c =
      let args = skip whitespace nextarg in
      let parsed : Option (ℕ × Text) =
        if first args == b'+' then get_mbind_flags (next args) else some (0, nextarg) in
      elim parsed [
        | none ↦ (cmd_error, c)
        | some (flags, rest) ↦
            elim (get_arg_nodemask c.numa_max_node (skip whitespace rest) policy) [
              | bad_mask ↦ (cmd_error, c)
              | wild_mask ↦ (crashed out_of_bounds, c)
              | null_mask ↦ to_outcome (segment_mbind kernel segname r policy none flags c)
              | mask nodes ↦ to_outcome (segment_mbind kernel segname r policy (some nodes) flags c)
            ]
      ]

  unfoldable pub mbind_seg : Text → Context → Outcome × Context
  mbind_seg args c =
      let (segname, more) = first_arg (skip whitespace args) in
      if not (numa_supported c) || is_empty (skip whitespace args)
      then (cmd_error, c)
      else elim (get_range c.pagesize more no_range) [
        | none ↦ (cmd_error, c)
        | some (r, rest) ↦
            let (policy, set) = get_mbind_policy rest in
            let nextarg : Text = elim set [ none ↦ rest | some t ↦ t ] in
            if is_empty rest then (cmd_error, c) else mbind_with segname r policy nextarg c
      ]

  unfoldable pub where_seg : ℕ → Text → Context → Outcome × List Mark × Context
  where_seg rounds args c =
      let (segname, more) = first_arg (skip whitespace args) in
      if not (numa_supported c) || is_empty (skip whitespace args)
      then (cmd_error, [], c)
      else elim (get_range c.pagesize more no_range) [
        | none ↦ (cmd_error, [], c)
        | some (r, rest) ↦
            let r' =
              if length more == length rest then record r { length = default_length } else r in
            segment_location kernel rounds segname r' c
      ]

  unfoldable pub lock_unlock : Bool → Bool → Text → Context → Outcome × Context
  lock_unlock lock shm args c =
      let (segname, more) = first_arg (skip whitespace args) in
      let range : Option (Range × Text) =
        if shm then some (no_range, more) else get_range c.pagesize more no_range in
      if is_empty (skip whitespace args) then (cmd_error, c) else elim range [
        | none ↦ (cmd_error, c)
        | some (r, rest) ↦ to_outcome (segment_lock_unlock kernel segname r lock shm c)
      ]

  unfoldable pub show_seg : Text → Context → Outcome × List Row × Context
  show_seg args c =
      let (segname, more) = first_arg (skip whitespace args) in
      let name : Option Text = if is_empty (skip whitespace args) then none else some segname in
      let (done, rows, c') = segment_show kernel name c in (returned done, rows, c')

  -- The protection bits of the arguments of `mprotect`; "none" ends the loop.
  unfoldable pub prot_loop : ℕ → Text → ℕ → ℕ
  prot_loop zero args prot = prot
  prot_loop (suc rounds) args prot =
      let (token, more) = first_arg args in
      let matches : Text → Bool = λ word. strncasecmp_eq token word (length token) in
      let rest = prot_loop rounds more (
        if matches (text "read")
        then bit_or prot prot_read
        else if matches (text "write")
        then bit_or prot prot_write
        else if matches (text "exec")
        then bit_or prot prot_exec
        else prot) in
      if is_empty args then prot else if matches (text "none") then 0 else rest

  -- The result of `segment_mprotect` is not looked at.
  unfoldable pub mprotect_seg : Text → Context → Outcome × Context
  mprotect_seg args c =
      let (segname, more) = first_arg (skip whitespace args) in
      let (done, c') = segment_mprotect kernel segname (prot_loop (suc (length args)) more 0) c in
      if is_empty (skip whitespace args) then (cmd_error, c) else (cmd_success, c')
