-- ===== src/Command/Creating.antt =====
-- The commands `anon`, `file` and `shmem` of commands.c.
use memtoy.Base.{
  ℕ, zero, suc, ◌+◌, ◌-◌, ◌%◌, Bool, true, false, not, ◌&&◌, ◌||◌, Option, none, some, Text, text,
  is_empty, skip, strtok, strncasecmp_eq, strtol, length, word, bit_or, ◌==◌, if◌then◌else◌,
}
use memtoy.Context.{
  segt_anon, segt_file, segt_shm, Range, Kernel, Context, bogus_size, map_shared, map_private,
  shm_hugetlb, Outcome, crashed, null_read, no_status, endless,
}
use memtoy.Segment.Register.{segment_register}
use memtoy.Segment.Ranges.{segment_range}
use memtoy.Args.Sizes.{whitespace, size_kmgp, get_range, get_shared}
use memtoy.Command.Common.{cmd_error, no_range, first_arg}

abbrev is_eq_sign : ℕ → Bool
is_eq_sign ch = ch == b'='

-- What one optional argument of `anon` does.
pub data AnonArg : Type 0 where
  set_share : ℕ → AnonArg
  set_addr : ℕ → AnonArg
  set_behind : Text → AnonArg
  ignored : AnonArg
  no_name : AnonArg

unfoldable pub anon_arg : Text → AnonArg
anon_arg arg =
    let (name, after) = strtok is_eq_sign arg in
    let n = length arg - length (skip is_eq_sign arg) + length name in
    if strncasecmp_eq arg (text "shared") (length arg)
    then set_share map_shared
    else if strncasecmp_eq arg (text "private") (length arg)
    then set_share map_private
    else if is_empty (skip is_eq_sign arg)
    then no_name
    else if strncasecmp_eq name (text "addr") n
    then set_addr (strtol 16 after)
    else if strncasecmp_eq name (text "offset") n
    then set_behind after
    else ignored

module _ (kernel : Kernel) where
  -- The loop over the optional arguments; each takes a byte at least.
  unfoldable pub anon_loop : ℕ → Text → Text → Range → ℕ → Context → Outcome × Context
  anon_loop zero segname args r segflag c = (crashed endless, c)
  anon_loop (suc rounds) segname args r segflag c = elim (is_empty args) [
    | true ↦ segment_register kernel segt_anon segname r segflag c
    | false ↦
        let (token, more) = first_arg args in
        elim (anon_arg token) [
          | set_share flag ↦ anon_loop rounds segname more r flag c
          | set_addr addr ↦ anon_loop rounds segname more (record r { offset = addr }) segflag c
          | ignored ↦ anon_loop rounds segname more r segflag c
          | no_name ↦ (crashed null_read, c)
          | set_behind name ↦
              let (found, c') = segment_range kernel name c in
              elim found [
                | none ↦ (crashed no_status, c')
                | some (o, l) ↦
                    anon_loop rounds segname more (record r { offset = (o + l) % word }) segflag c'
              ]
        ]
  ]

  unfoldable pub anon_seg : Text → Context → Outcome × Context
  anon_seg args c =
      let (segname, more) = first_arg (skip whitespace args) in
      let (size, options) = first_arg more in
      let length' = size_kmgp c.pagesize size in
      let r = record no_range { length = length' } in
      if is_empty (skip whitespace args) || is_empty more || (length' == bogus_size)
      then (cmd_error, c)
      else anon_loop (suc (length args)) segname options r map_private c

  unfoldable pub file_seg : Text → Context → Outcome × Context
  file_seg args c =
      let (pathname, more) = first_arg (skip whitespace args) in
      if is_empty (skip whitespace args)
      then (cmd_error, c)
      else elim (get_range c.pagesize more no_range) [
        | none ↦ (cmd_error, c)
        | some (r, rest) ↦
            let shared : Option ℕ = if is_empty rest then some map_private else get_shared rest in
            elim shared [
              | none ↦ (cmd_error, c)
              | some segflag ↦ segment_register kernel segt_file pathname r segflag c
            ]
      ]

  unfoldable pub shmem_seg : Text → Context → Outcome × Context
  shmem_seg args c =
      let (segname, more) = first_arg (skip whitespace args) in
      let (size, options) = first_arg more in
      let (option, rest) = first_arg options in
      let length' = size_kmgp c.pagesize size in
      let r = record no_range { length = length' } in
      let huge = not (is_empty options) && strncasecmp_eq option (text "huge") (length option) in
      let segflag = if huge then bit_or map_shared shm_hugetlb else map_shared in
      if is_empty (skip whitespace args) || is_empty more || (length' == bogus_size)
      then (cmd_error, c)
      else segment_register kernel segt_shm segname r segflag c
