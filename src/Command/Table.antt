-- ===== src/Command/Table.antt =====
-- The command table, `unique_abbrev` and the search of `parse_command` in commands.c.
use memtoy.Base.{
  Bool, true, false, List, [], ◌∷◌, Text, text, skip, strtok, strncmp_eq, length, if◌then◌else◌,
}
use memtoy.Args.Sizes.{whitespace}

-- The functions in the table.
pub data Action : Type 0 where
  help_me quit show_pid pause_me numa_info migrate_process : Action
  show_seg anon_seg file_seg shmem_seg remove_seg map_seg unmap_seg : Action
  lock_seg unlock_seg shm_lock_seg shm_unlock_seg touch_seg mbind_seg where_seg : Action
  cpus mems child_spawn child_kick snooze mpol mprotect_seg : Action

-- `cmd_table`: names and functions, without the help texts and the end mark.
abbrev pub cmd_table : List (Text × Action)
cmd_table =
    (text "help", help_me)
    ∷ (text "man", help_me)
    ∷ (text "quit", quit)
    ∷ (text "exit", quit)
    ∷ (text "pid", show_pid)
    ∷ (text "pause", pause_me)
    ∷ (text "numa", numa_info)
    ∷ (text "migrate", migrate_process)
    ∷ (text "show", show_seg)
    ∷ (text "anon", anon_seg)
    ∷ (text "file", file_seg)
    ∷ (text "shmem", shmem_seg)
    ∷ (text "remove", remove_seg)
    ∷ (text "map", map_seg)
    ∷ (text "unmap", unmap_seg)
    ∷ (text "lock", lock_seg)
    ∷ (text "unlock", unlock_seg)
    ∷ (text "slock", shm_lock_seg)
    ∷ (text "sunlock", shm_unlock_seg)
    ∷ (text "touch", touch_seg)
    ∷ (text "mbind", mbind_seg)
    ∷ (text "where", where_seg)
    ∷ (text "cpus", cpus)
    ∷ (text "mems", mems)
    ∷ (text "child", child_spawn)
    ∷ (text "kick", child_kick)
    ∷ (text "snooze", snooze)
    ∷ (text "mpol", mpol)
    ∷ (text "mprotect", mprotect_seg)
    ∷ []

-- No later command begins with the text.
unfoldable pub unique_abbrev : Text → List (Text × Action) → Bool
unique_abbrev cmd [] = true
unique_abbrev cmd ((name, f) ∷ r) =
    let rest = unique_abbrev cmd r in if strncmp_eq cmd name (length cmd) then false else rest

pub data Found : Type 0 where
  command : Action → Found
  ambiguous : Found
  unrecognized : Found

-- The loop over the table.
unfoldable pub find_command : Text → List (Text × Action) → Found
find_command cmd [] = unrecognized
find_command cmd ((name, f) ∷ r) =
    let rest = find_command cmd r in
    if strncmp_eq cmd name (length cmd)
    then (if unique_abbrev cmd r then command f else ambiguous)
    else rest

-- The command of a line and its arguments.
unfoldable pub split_command : Text → Found × Text
split_command cmdline =
    let (cmd, args) = strtok whitespace (skip whitespace cmdline) in
    (find_command cmd cmd_table, args)
