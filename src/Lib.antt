-- ===== src/Lib.antt =====
-- memtoy is an interactive test program for memory management under Linux: it registers, maps,
-- touches, binds, locks, protects and removes segments of memory at the commands of its user.
--
-- The modules follow the program's files.
--
-- Context models the global data (memtoy.h, segment.h, the struct of segment.c) and the operating
-- system: a kernel is a parameter that answers each call from the history of the calls before it,
-- and the context keeps that history. A segment pointer is the index of its table slot; the table
-- is the list of the slots in use.
-- Signals models the signal tables, names and the handler of memtoy.c, and Signals/Listing the
-- rows that signal_list prints, with their theorem in Signals/Rows. A signal that arrives during
-- an access is the answer of that access; one that arrives while the program waits is the answer
-- of the wait or an event between two lines. The signals for which set_signals installs a handler
-- run it; any other kills the process without cleanup or, by the default of the system, is passed
-- over.
-- Segment models segment.c: Slots has get_seg_slot, free_seg_slot, segment_get and
-- segment_cleanup, Register has segment_register with open_file and get_shm_segment, Map has
-- segment_map with its three ways to map, Round has the page rounding and the cut of a range to
-- its segment, Touch has touch_memory of memtoy.c and segment_touch, Ranges has segment_remove,
-- segment_unmap, segment_mbind, segment_lock_unlock, segment_range and segment_mprotect, Maps has
-- classify_segment, get_task_segments and segment_init, and Show has segment_show and
-- segment_location with records in place of printed lines. Segment/Valid has the invariant of the
-- table and its abstract view, which maps a name to the segment it stands for; Segment/Laws has
-- the theorems on the operations over that view; Meaning there is the abstract specification,
-- which says what an operation may do to the map from names to segments, Refining relates the code
-- to it, Lasting draws a consequence, Arming is about the point that touch_memory jumps to, and
-- Tables takes the tables up to this map.
-- Args models the parsers of commands.c: Sizes for numbers with scale letters, ranges and modes,
-- Policy for policies and flags, Masks for sets of nodes and cpus, which are lists of numbers.
-- Args/Laws has their theorems; Base/Decimals writes numbers in decimal and reads them with
-- strtoul.
-- Children models the child processes of commands.c: child_send, child_kick, child_respond and
-- children_free, Children/Reaping has child_reap and sigcld_handler of memtoy.c with what any
-- signal does that arrives, and Children/Spawn has child_spawn in both processes. Children/Answers
-- counts the answers in a history of calls.
-- Command models commands.c: Table has the command table and the search of parse_command, Creating
-- has anon, file and shmem, Segments the other segment commands, from the text of their arguments
-- to the segment API, Nodes the masks of nodes and cpus with numa and migrate, Policies has cpus,
-- mems and mpol, Waiting has pause, snooze and quit with set_signals of memtoy.c, Loop has
-- help_me, the dispatch of parse_command and process_commands, Input has readline_ni, and Common
-- what they share. The loop runs over a list of events, which are lines and signals; a fork goes
-- on as the child. Command/Laws/Creating, Calls and Ranges are about commands as calls of the
-- segment API, Tables and Waiting about the tables under the other commands, Voice about the
-- answers under them, Ran, Dispatch and Running about all commands and the loop, Touching and
-- Arming about the point that touch_memory jumps to, Answering about the answers of a child over
-- many lines and Sending about the line that it is sent, Codes, Exits and Ends about the codes of
-- an exit and the signals that kill the process, Lines about single lines, Reading about
-- readline_ni, NodeLists about masks and Migrating about migrate from its text to the call of the
-- system.
-- Startup models memtoy.c from main to the exit: init_glctx, get_huge_pagesize, the options,
-- open_script_file and cleanup; the files of /proc are texts and the options the letters that
-- getopt gives. Startup/Ending, Starting, Whole and Codes have its theorems.
-- NumaStubs models numa_stubs.c, the build without libnuma, as a system under the program.
-- Base has the shared tests, lists, texts, the C library's text routines, bits and numbers.
--
-- Numbers are natural numbers with the wrap-around of 64-bit words written out. An operation gives
-- its status, the code of an exit, the signal that kills the process, or a fault of the program
-- such as a null pointer written. Loops over a text take a round for each byte of the text and one
-- more, since every round takes a byte; touch_memory and segment_location take the number of
-- rounds as an argument, and the outcome says when they are not enough.
--
-- Not modelled: printed help and other output, the line editing of readline, the option of debug
-- builds, migrate_pages.c, which is a wrapper of a system call, the list header linux-list.h and
-- the headers of libnuma in include/, which are copies, and the stubs of numa_stubs.c that the
-- program does not call. The parsers of node and cpu sets and strdup are taken to have memory. The
-- timing output of touch is left out. A write to a child that is gone gives an error; the SIGPIPE
-- that comes with it is not modelled.
pub mod Base
pub mod Context
pub mod Signals
pub mod Segment
pub mod Children
pub mod Args
pub mod Command
pub mod Startup
pub mod NumaStubs
