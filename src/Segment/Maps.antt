-- ===== src/Segment/Maps.antt =====
-- `classify_segment`, `get_task_segments` and `segment_init` of segment.c. The file of the task's
-- maps is a text; each `fgets` takes a chunk of it.
use memtoy.Base.{
  ℕ, zero, suc, ◌+◌, ◌-◌, ◌%◌, Bool, ◌||◌, Option, none, some, List, [], ◌∷◌, ◌++◌, Text, text,
  first, next, is_empty, skip, take_until, drop_until, strncmp_eq, strtoul, strtol, length, word,
  ltb, ◌==◌, ◌>>=◌, not, ◌&&◌, if◌then◌else◌,
}
use memtoy.Base.Numbers.{read_number, is_space}
use memtoy.Base.Lines.{chunks}
use memtoy.Context.{
  SegType, segt_anon, segt_file, Range, Kernel, Call, failed, value, Context, sys, Outcome,
  returned, exited, killed, crashed, null_read, out_of_bounds, seg_ok,
}
use memtoy.Segment.Register.{segment_register}

abbrev is_blank : ℕ → Bool
is_blank ch = ch == 32

abbrev is_colon : ℕ → Bool
is_colon ch = ch == b':'

abbrev is_bracket : ℕ → Bool
is_bracket ch = ch == b']'

-- `MAPBUFSZ`
abbrev pub mapbufsz : ℕ
mapbufsz = 128

-- The type and the name of a mapping.
unfoldable pub classify_segment : Text → Text → ℕ → SegType × Text
classify_segment perm path ino =
    let written = (ino == 0) || (first (next perm) == b'w') in
    let type = if written then segt_anon else segt_file in
    if first path == b'['
    then (type, take_until is_bracket (next path))
    else (type, path ++ (if written then text ":data" else text ":text"))

-- The fields of a line that are used.
pub record MapsLine : Type 0 where
  pub start : ℕ
  pub end : ℕ
  pub perm : Text
  pub pgoff : ℕ
  pub ino : ℕ

-- `%lx` and `%ld` of `sscanf`
abbrev scan_hex : Text → Option (ℕ × Text)
scan_hex s = elim (read_number 16 s) [ none ↦ none | some r ↦ some (strtoul 16 s) ]

abbrev scan_dec : Text → Option (ℕ × Text)
scan_dec s = elim (read_number 10 s) [ none ↦ none | some (m, n, end) ↦ some (strtol 10 s, end) ]

-- A byte of the format.
abbrev scan_byte : ℕ → Text → Option Text
scan_byte b s = if first s == b then some (next s) else none

-- Up to `k` bytes that are not white space.
unfoldable pub take_word : ℕ → Text → Text × Text
take_word zero s = ([], s)
take_word (suc k) [] = ([], [])
take_word (suc k) (ch ∷ s) =
    let (token, rest) = take_word k s in if is_space ch then ([], ch ∷ s) else (ch ∷ token, rest)

-- `%4s`
abbrev scan_word : Text → Option (Text × Text)
scan_word s =
    let (token, rest) = take_word 4 (skip is_space s) in
    if is_empty token then none else some (token, rest)

-- `sscanf` with the format "%lx-%lx %4s %lx %x:%x %ld", or `none` where it assigns fewer fields.
unfoldable pub scan_line : Text → Option MapsLine
scan_line s = do
  (start, s1) ← scan_hex s
  s2 ← scan_byte b'-' s1
  (end, s3) ← scan_hex s2
  (perm, s4) ← scan_word s3
  (pgoff, s5) ← scan_hex s4
  (major, s6) ← scan_hex s5
  s7 ← scan_byte b':' s6
  (minor, s8) ← scan_hex s7
  (ino, s9) ← scan_dec s8
  some (record { start = start; end = end; perm = perm; pgoff = pgoff; ino = ino })

-- The path behind the inode and the blanks; `none` is the null pointer.
unfoldable pub maps_path : Text → Option Text
maps_path input =
    let past_ino = drop_until is_blank (next (drop_until is_blank (drop_until is_colon input))) in
    if is_empty past_ino then none else some (skip is_blank past_ino)

-- The assignment in the test of the last byte cuts it off whatever it is.
unfoldable pub cut_last : Text → Text
cut_last [] = []
cut_last (ch ∷ []) = []
cut_last (ch ∷ d ∷ s) = ch ∷ cut_last (d ∷ s)

abbrev pub maps_range : MapsLine → Range
maps_range m = record {
  offset = if m.pgoff == m.start then 0 else m.pgoff;
  length = (m.end + word - m.start) % word;
  start = m.start;
}

abbrev pub maps_flags : ℕ
maps_flags = 0x80000002

module _ (kernel : Kernel) where
  -- The registration of a mapping with a path; `strcat` may write behind the buffer. A refused
  -- registration is not looked at.
  unfoldable pub register_maps : MapsLine → Text → Text → Context → Outcome × Context
  register_maps m input path c =
      let (type, name) = classify_segment m.perm path m.ino in
      let (out, c') = segment_register kernel type name (maps_range m) maps_flags c in
      if not (first path == b'[') && ltb mapbufsz (length input + 6)
      then (crashed out_of_bounds, c)
      else elim out [
        | returned b ↦ (seg_ok, c')
        | exited code ↦ (exited code, c')
        | killed sig ↦ (killed sig, c')
        | crashed f ↦ (crashed f, c')
      ]

  -- A round of the loop of `get_task_segments`.
  unfoldable pub load_line : Text → Context → Outcome × Context
  load_line chunk c =
      let input = cut_last chunk in
      elim (scan_line input) [
        | none ↦ (seg_ok, c)
        | some m ↦
            if strncmp_eq m.perm (text "---") 3 then (seg_ok, c) else elim (maps_path input) [
              | none ↦ (crashed null_read, c)
              | some path ↦ if is_empty path then (seg_ok, c) else register_maps m input path c
            ]
      ]

  unfoldable pub load_lines : List Text → Context → Outcome × Context
  load_lines [] c = (seg_ok, c)
  load_lines (chunk ∷ r) c =
      let (out, c') = load_line chunk c in
      elim out [
        | returned b ↦ load_lines r c'
        | exited code ↦ (exited code, c')
        | killed sig ↦ (killed sig, c')
        | crashed f ↦ (crashed f, c')
      ]

  -- The program ends with code 4 where the file cannot be opened.
  unfoldable pub get_task_segments : Option Text → Context → Outcome × Context
  get_task_segments maps c = elim maps [
    | none ↦ (exited 4, c)
    | some s ↦ load_lines (chunks mapbufsz s) c
  ]

  unfoldable pub segment_init : Option Text → Context → Outcome × Context
  segment_init maps c =
      let (memory, c') = sys kernel Call.calloc c in
      elim memory [
        | failed e ↦ (exited 4, c')
        | value v ↦ get_task_segments maps (record c' { seglist = []; seg_avail = none })
      ]
