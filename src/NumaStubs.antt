-- ===== src/NumaStubs.antt =====
-- numa_stubs.c: what stands in for libnuma in a build without it, as a system whose other calls go to
-- another one. `get_mempolicy` of the stubs reports a success and writes nothing: `unwritten` is what
-- stood in the variable.
use memtoy.Base.{ℕ, ◌≡◌, refl, false, Option, List, Text, arith}
use memtoy.Context.{Kernel, Call, failed, value, Context, Range}
use memtoy.Segment.Ranges.{segment_mbind}
use memtoy.Command.Common.{cmd_error, numa_supported}
use memtoy.Command.Nodes.{numa_info, migrate_process}
use memtoy.Startup.{init_nodes}

-- ENOSYS
abbrev enosys : ℕ
enosys = 38

-- The system calls of numaif.h
unfoldable pub stub_calls : ℕ → Kernel → Kernel
stub_calls unwritten kernel trace (Call.get_mempolicy addr) = value unwritten
stub_calls unwritten kernel trace Call.get_task_policy = value unwritten
stub_calls unwritten kernel trace (Call.mbind addr length policy nodes flags) = failed enosys
stub_calls unwritten kernel trace (Call.set_mempolicy policy nodes) = value 0
stub_calls unwritten kernel trace call = kernel trace call

-- The functions of numa.h; `numa_all_nodes` has node 0.
unfoldable pub stubbed : ℕ → Kernel → Kernel
stubbed unwritten kernel trace Call.numa_available = failed 0
stubbed unwritten kernel trace Call.numa_max_node = value 1
stubbed unwritten kernel trace (Call.numa_node_size node) = failed 0
stubbed unwritten kernel trace (Call.numa_set_membind bits) = value 0
stubbed unwritten kernel trace Call.get_mems_allowed = value 1
stubbed unwritten kernel trace call = stub_calls unwritten kernel trace call

module _ (unwritten : ℕ) (kernel : Kernel) where
  segment_mbind-stubbed :
      (name : Text) (r : Range) (policy : ℕ) (nodes : Option (List ℕ)) (flags : ℕ) (d : Context)
      → (segment_mbind (stubbed unwritten kernel) name r policy nodes flags d).0 ≡ false
  unfolding stubbed stub_calls segment_mbind
  segment_mbind-stubbed name r policy nodes flags d = ground arith

  -- With the stubs there is no NUMA support after the start: `numa` and `migrate` are refused and
  -- change nothing, and no binding of a segment succeeds, whatever the system under the stubs is.
  pub stubbed-refuses :
      (args name : Text) (r : Range) (policy : ℕ) (nodes : Option (List ℕ)) (flags : ℕ)
      (c : Context)
      → let stubs = stubbed unwritten kernel in
        let d = init_nodes stubs c in
        (numa_supported d ≡ false)
        × (numa_info stubs d ≡ (cmd_error, d))
        × (migrate_process stubs args d ≡ (cmd_error, d))
        × ((segment_mbind stubs name r policy nodes flags d).0 ≡ false)
  unfolding stubbed init_nodes numa_info migrate_process
  stubbed-refuses args name r policy nodes flags c =
      (refl, refl, refl, segment_mbind-stubbed name r policy nodes flags _)
