-- ===== src/Context.antt =====
-- The program's global data (memtoy.h, segment.h, the struct of segment.c) and its calls of the
-- operating system. A pointer to a segment is the index of its table slot. The table is the
-- list of the slots in use: the null pointers behind it are not written down.
use memtoy.Base.{
  ℕ, suc, ◌+◌, ◌-◌, ◌*◌, ◌^◌, ◌≡◌, Bool, true, false, not, Option, none, some, List, [], ◌∷◌, ◌++◌,
  Text, word, bit_and, ◌==◌, get_or, set, refl, ◌⊎◌, inl, inr,
}

-- `seg_type_t`
pub data SegType : Type 0 where
  segt_none segt_anon segt_file segt_shm : SegType

-- Flag bits of x86-64 Linux headers, and those that the program defines.
abbrev pub map_shared : ℕ
map_shared = 1

abbrev pub map_private : ℕ
map_private = 2

abbrev pub map_fixed : ℕ
map_fixed = 0x10

abbrev pub map_anonymous : ℕ
map_anonymous = 0x20

abbrev pub shm_hugetlb : ℕ
shm_hugetlb = 0o4000

abbrev pub segf_maps : ℕ
segf_maps = 0x80000000

abbrev pub prot_read : ℕ
prot_read = 1

abbrev pub prot_write : ℕ
prot_write = 2

abbrev pub prot_exec : ℕ
prot_exec = 4

abbrev pub map_failed : ℕ
map_failed = word - 1

abbrev pub bogus_size : ℕ
bogus_size = word - 1

abbrev pub default_length : ℕ
default_length = word - 1

abbrev pub max_segments : ℕ
max_segments = 63

-- `flags & mask` as a test
abbrev pub has_flag : ℕ → ℕ → Bool
has_flag flags mask = not (bit_and flags mask == 0)

-- `struct segment`. A null string, a descriptor of -1 and an id of -1 are `none`.
pub record Segment : Type 0 where
  pub seg_name : Option Text
  pub seg_start : ℕ
  pub seg_length : ℕ
  pub seg_offset : ℕ
  pub seg_path : Option Text
  pub seg_pagesize : ℕ
  pub seg_type : SegType
  pub seg_slot : ℕ
  pub seg_flags : ℕ
  pub seg_prot : ℕ
  pub seg_fd : Option ℕ
  pub seg_shmid : Option ℕ

-- All bytes zero but the slot number, as after `calloc` or `memset`.
abbrev pub blank : ℕ → Segment
blank slot = record {
  seg_name = none;
  seg_start = 0;
  seg_length = 0;
  seg_offset = 0;
  seg_path = none;
  seg_pagesize = 0;
  seg_type = segt_none;
  seg_slot = slot;
  seg_flags = 0;
  seg_prot = 0;
  seg_fd = some 0;
  seg_shmid = some 0;
}

-- `range_t`
pub record Range : Type 0 where
  pub offset : ℕ
  pub length : ℕ
  pub start : ℕ

-- `child_t`, without its list link
pub record Child : Type 0 where
  pub c_name : Text
  pub c_pid : ℕ
  pub c_cfd : ℕ
  pub c_rfd : ℕ
  pub c_errs : ℕ

-- The calls that reach the operating system, with the arguments that matter.
pub data Call : Type 0 where
  calloc : Call
  mmap : (addr length prot flags : ℕ) → Option ℕ → (offset : ℕ) → Call
  munmap : (addr length : ℕ) → Call
  mprotect : (addr length prot : ℕ) → Call
  mlock : (addr length : ℕ) → Call
  munlock : (addr length : ℕ) → Call
  mbind : (addr length policy : ℕ) → Option (List ℕ) → (flags : ℕ) → Call
  get_mempolicy : (addr : ℕ) → Call
  shmget : (length flags : ℕ) → Call
  shmat : Option ℕ → Call
  shmdt : (addr : ℕ) → Call
  shmctl_remove : Option ℕ → Call
  shmctl_lock : Option ℕ → Bool → Call
  stat : Text → Call
  fstat : Option ℕ → Call
  access : Text → ℕ → Call
  open_file : Text → ℕ → Call
  close : Option ℕ → Call
  kill : (pid signum : ℕ) → Call
  write : (fd : ℕ) → Text → Call
  read : (fd : ℕ) → Call
  pipe : Call
  fork : Call
  dup2 : (fd fd2 : ℕ) → Call
  wait3 : Call
  pause : Call
  sleep : (seconds : ℕ) → Call
  numa_node_size : (node : ℕ) → Call
  numa_set_membind : (mask : ℕ) → Call
  migrate_pages : (old new : ℕ) → Call
  get_task_policy : Call
  set_mempolicy : (policy : ℕ) → Option (List ℕ) → Call
  sched_setaffinity : (mask : ℕ) → Call
  sched_getaffinity : Call
  sigaction : (signum : ℕ) → Call
  sysconf_pagesize : Call
  numa_available : Call
  numa_max_node : Call
  getrlimit : Call
  isatty : Call
  atexit : Call
  setvbuf : Call
  get_mems_allowed : Call
  poke : (addr : ℕ) → Call
  peek : (addr : ℕ) → Call

-- An error with its number, or a result.
pub data Reply : Type 0 where
  failed : ℕ → Reply
  value : ℕ → Reply

-- The operating system answers a call from all that has been called before.
abbrev pub Kernel : Type 0
Kernel = List Call → Call → Reply

-- `struct global_context`, the fields that the modelled code reads. A highest node of -1 is
-- `none`, an absent `siginfo` and a null mask too; a mask is the number with its bits. `trace` is the history of calls, the latest first.
pub record Context : Type 0 where
  pub interactive : Bool
  pub siginfo : Option ℕ
  pub sigjmp : Bool
  pub pagesize : ℕ
  pub huge_pagesize : ℕ
  pub max_cpu_id : ℕ
  pub numa_max_node : Option ℕ
  pub seglist : List Segment
  pub seg_avail : Option ℕ
  pub children : List Child
  pub child_name : Option Text
  pub response_fd : ℕ
  pub mems_allowed : Option ℕ
  pub cpus_allowed : Option ℕ
  pub trace : List Call

-- A call: the answer, and the context with the longer history.
abbrev pub sys : Kernel → Call → Context → Reply × Context
sys kernel call c = (kernel c.trace call, record c { trace = call ∷ c.trace })

-- A call whose answer the program does not look at.
abbrev pub tell : Call → Context → Context
tell call c = record c { trace = call ∷ c.trace }

-- `*segp` and an assignment to it. Every slot pointer of a valid context is in range.
abbrev pub segment_at : Context → ℕ → Segment
segment_at c p = get_or c.seglist p (blank p)

abbrev pub put_segment : ℕ → Segment → Context → Context
put_segment p s c = record c { seglist = set c.seglist p s }

abbrev pub is_none : SegType → Bool
is_none segt_none = true
is_none segt_anon = false
is_none segt_file = false
is_none segt_shm = false

abbrev pub is_shm : SegType → Bool
is_shm segt_shm = true
is_shm segt_none = false
is_shm segt_anon = false
is_shm segt_file = false

abbrev pub is_file : SegType → Bool
is_file segt_file = true
is_file segt_none = false
is_file segt_anon = false
is_file segt_shm = false

-- A segment whose type is not `SEGT_NONE`.
abbrev pub is_used : Segment → Bool
is_used s = not (is_none s.seg_type)

-- `!strcmp(name, segp->seg_name)`
abbrev pub named : Text → Segment → Bool
named name s = elim (s.seg_name) [ none ↦ false | some n ↦ memtoy.Base.Texts.text_eq name n ]

-- What becomes of an operation of the segment API: a status, where true is `SEG_OK`, the call of
-- `exit` with a code, a signal that kills the process, or a fault of the program: a null pointer
-- written or read, a division by zero, a loop that does not end in the rounds given, an access outside
-- an array, the use of an unset variable.
pub data Fault : Type 0 where
  null_write null_read divide_by_zero endless out_of_bounds no_status : Fault

pub data Outcome : Type 0 where
  returned : Bool → Outcome
  exited : ℕ → Outcome
  killed : ℕ → Outcome
  crashed : Fault → Outcome

abbrev pub seg_ok : Outcome
seg_ok = returned true

abbrev pub seg_err : Outcome
seg_err = returned false

pub Reply-cases : (r : Reply) → ((e : ℕ) × (r ≡ failed e)) ⊎ ((v : ℕ) × (r ≡ value v))
Reply-cases (failed e) = inl (e, refl)
Reply-cases (value v) = inr (v, refl)
