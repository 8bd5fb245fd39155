-- ===== src/Args/Sizes.antt =====
-- `get_arg_seconds`, `size_kmgp`, `get_scaled_value`, `get_range`, `get_shared` and `get_access`
-- of commands.c.
use memtoy.Base.{
  ℕ, ◌-◌, ◌*◌, ◌%◌, ◌^◌, Bool, not, ◌||◌, ◌&&◌, Option, none, some, Text, text, first, is_empty,
  is_digit, skip, strtok, strtoul, strncasecmp_eq, tolower, length, word, ltb, ◌==◌, if◌then◌else◌,
}
use memtoy.Context.{Range, bogus_size, map_shared, map_private}

-- `whitespace`
abbrev pub whitespace : ℕ → Bool
whitespace c = (c == 32) || (c == 9)

-- The value that stands for a failure, 2 ^ 32 - 1, is also what the largest `unsigned int` gives.
abbrev pub bogus_seconds : ℕ
bogus_seconds = 2 ^ 32 - 1

unfoldable pub get_arg_seconds : Text → ℕ
get_arg_seconds arg =
    let (argval, end) = strtoul 0 arg in if ltb (2 ^ 32 - 1) argval then bogus_seconds else argval

-- The factor of a scale letter.
unfoldable pub scale : ℕ → ℕ → Option ℕ
scale pagesize c =
    if c == b'p'
    then some pagesize
    else if c == b'k'
    then some (2 ^ 10)
    else if c == b'm'
    then some (2 ^ 20)
    else if c == b'g'
    then some (2 ^ 30)
    else none

unfoldable pub size_kmgp : ℕ → Text → ℕ
size_kmgp pagesize arg =
    let (argval, end) = strtoul 0 arg in
    if is_empty end then argval else elim (scale pagesize (tolower (first end))) [
      | none ↦ bogus_size
      | some factor ↦ argval * factor % word
    ]

-- `none` is `CMD_ERROR`. The range and the arguments that follow it.
unfoldable pub get_range : ℕ → Text → Range → Option (Range × Text)
get_range pagesize args r =
    let (token, more) = strtok whitespace args in
    let offset = size_kmgp pagesize token in
    let args' = skip whitespace more in
    let (token', more') = strtok whitespace args' in
    let length = if first token' == b'*' then 0 else size_kmgp pagesize token' in
    if is_digit (first args)
    then (if (offset == bogus_size) || is_empty args' || (length == bogus_size)
        then none
        else some (record r { offset = offset; length = length }, skip whitespace more'))
    else some (r, args)

-- `none` stands for -1.
unfoldable pub get_shared : Text → Option ℕ
get_shared args =
    if strncasecmp_eq args (text "shared") (length args)
    then some map_shared
    else if is_empty args
    then some 0
    else if strncasecmp_eq args (text "private") (length args)
    then some map_private
    else none

pub data Access : Type 0 where
  axcs_err axcs_read axcs_write : Access

unfoldable pub get_access : Text → Access
get_access args =
    if tolower (first args) == b'w'
    then axcs_write
    else if not (is_empty args) && not (tolower (first args) == b'r')
    then axcs_err
    else axcs_read
