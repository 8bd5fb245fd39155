-- ===== src/Command/Tests.antt =====
-- The theorems on commands at concrete lines.
mod Children
use memtoy.Base.{
  ◌+◌, ◌^◌, ◌≡◌, ◌∷◌, ◌++◌, first, length, strncmp_eq, strtok, refl, true, false, ◌||◌, ◌==◌, none,
  some, [], text, skip, is_empty, arith, if◌then◌else◌, inr,
}
use memtoy.Context.{Kernel, Call, tell, value, Context, bogus_size, map_private}
use memtoy.Segment.Ranges.{segment_mprotect}
use memtoy.Args.Sizes.{whitespace, size_kmgp}
use memtoy.Command.Table.{split_command, cmd_table, find_command}
use memtoy.Command.Common.{first_arg, no_range, cmd_error, cmd_success}
use memtoy.Command.Creating.{anon_loop, anon_seg}
use memtoy.Command.Segments.{prot_loop, mprotect_seg, remove_loop, remove_seg}
use memtoy.Children.{child_respond}
use memtoy.Args.Masks.{isset, get_current_nodeid_list}
use memtoy.Args.Laws.Nodes.{member}
use memtoy.Command.Nodes.{
  migrate_call, migrate_process, mask_of, count_nodes, top_node, refresh_mems_allowed, numa_info,
  get_current_nodemask,
}
use memtoy.Command.Policies.{shown_words}
use memtoy.Command.Loop.{ran, line, left, trim_end, parse_command, run_line, run_events}
use memtoy.Args.Laws.Lists.{comma_list, onto, all_within}
use memtoy.Command.Laws.Migrating.{migrate_process-lists}
use memtoy.Command.Input.{readline_ni}
use memtoy.Command.Laws.Reading.{are_lines, unlines, readline_ni-unlines}
use memtoy.Command.Laws.Lines.{all_blank, is_comment, run_line-trim}
use memtoy.Command.Laws.NodeLists.{
  all_set, overflows, read_words, get_current_nodemask-count, numa_info-overflow, isset-mask_of,
  shown_words-roundtrip,
}
use memtoy.Command.Laws.Finding.{candidates, choose, find_command-lem}
use memtoy.Command.Laws.Fuel.{is_endless, argument_loops-end}

-- A system in which every call succeeds.
abbrev quiet : Kernel
quiet trace call = value 0

abbrev no_segments : Context
no_segments = record {
  interactive = true;
  siginfo = none;
  sigjmp = false;
  pagesize = 4096;
  huge_pagesize = 0x200000;
  max_cpu_id = 7;
  numa_max_node = some 1;
  seglist = [];
  seg_avail = none;
  children = [];
  child_name = none;
  response_fd = 0;
  mems_allowed = none;
  cpus_allowed = none;
  trace = [];
}

find_command-lem_example :
    find_command (text "un") cmd_table ≡ choose (candidates (text "un") cmd_table)
find_command-lem_example = find_command-lem (text "un") cmd_table

argument_loops-end_example :
    (is_endless (anon_seg quiet (text "a 4k shared bogus=1") no_segments).0 ≡ false)
    × (is_endless (remove_seg quiet (text "a 4k shared bogus=1") no_segments).0 ≡ false)
argument_loops-end_example = argument_loops-end quiet (text "a 4k shared bogus=1") no_segments

blanks : all_blank (text "  ") ≡ true
unfolding skip
blanks = refl

blank : all_blank (text " ") ≡ true
unfolding skip
blank = refl

pid_own : (first (skip whitespace (text "pid")) == b'/') ≡ false
unfolding skip
pid_own = refl

run_line-trim_example :
    run_line quiet 4 (text "  " ++ (text "pid" ++ text " ")) no_segments
    ≡ run_line quiet 4 (text "pid") no_segments
run_line-trim_example =
    run_line-trim quiet 4 (text "  ") (text "pid") (text " ") no_segments blanks blank (inr pid_own)

-- Nodes 0 and 1 are allowed.
abbrev both_nodes : Kernel
both_nodes trace Call.get_mems_allowed = value 3
both_nodes trace call = value 0

abbrev with_mask : Context
with_mask = record no_segments { mems_allowed = some 3 }

mask_read :
    get_current_nodemask both_nodes with_mask
    ≡ some (2, 3, tell Call.calloc (tell Call.get_mems_allowed with_mask))
unfolding get_current_nodemask refresh_mems_allowed count_nodes
mask_read = refl

abbrev refreshed : Context
refreshed = record (tell Call.get_mems_allowed (tell Call.calloc with_mask)) {
  mems_allowed = some 3;
}

mask_refreshed : refresh_mems_allowed both_nodes (tell Call.calloc with_mask) ≡ some refreshed
unfolding refresh_mems_allowed
mask_refreshed = refl

numa_info-overflow_example : overflows (numa_info both_nodes with_mask).0 ≡ all_set 2 0 3
numa_info-overflow_example =
    numa_info-overflow both_nodes with_mask refreshed refl refl mask_refreshed

shown_words-roundtrip_example : read_words 0 (shown_words 4 false (2 ^ 40 + 1)) ≡ 2 ^ 40 + 1
shown_words-roundtrip_example = shown_words-roundtrip 4 (2 ^ 40 + 1) (omega arith)

script_fits : are_lines 254 (text "anon a 4k" ∷ [] ∷ text "# end" ∷ []) ≡ true
script_fits = refl

readline_ni-unlines_example :
    readline_ni (unlines (text "anon a 4k" ∷ [] ∷ text "# end" ∷ []))
    ≡ text "anon a 4k" ∷ [] ∷ text "# end" ∷ []
readline_ni-unlines_example =
    readline_ni-unlines (text "anon a 4k" ∷ [] ∷ text "# end" ∷ []) script_fits

both_within : all_within 1 (0 ∷ 1 ∷ []) ≡ true
both_within = ground arith

one_within : all_within 1 (1 ∷ []) ≡ true
one_within = ground arith

migrate_process-lists_example :
    migrate_process quiet (comma_list 0 (1 ∷ []) ++ 32 ∷ comma_list 1 []) no_segments
    ≡ migrate_call quiet (mask_of (onto [] (1 ∷ []))) (mask_of (onto [] (0 ∷ 1 ∷ []))) no_segments
migrate_process-lists_example =
    migrate_process-lists quiet 1 (omega arith) (omega arith) no_segments refl 0 1 (1 ∷ []) []
      both_within one_within
