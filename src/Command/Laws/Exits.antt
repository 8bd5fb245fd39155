-- ===== src/Command/Laws/Exits.antt =====
-- How each command may end the process.
use memtoy.Base.{
  ℕ, zero, suc, ◌+◌, ◌*◌, ◌/◌, ◌%◌, ◌^◌, ◌==◌, ◌||◌, ◌≡◌, refl, Bool, true, not, List, [], ◌∷◌,
  Text, skip, if◌then◌else◌, word, length, arith, Option-cases, Bool-cases, inl, inr,
}
use memtoy.Context.{
  SegType, Range, Kernel, Call, Context, tell, segment_at, segt_anon, map_private, map_failed,
  default_length,
}
use memtoy.Args.Sizes.{whitespace, get_range, size_kmgp}
use memtoy.Segment.Register.{segment_register}
use memtoy.Segment.Ranges.{segment_remove, segment_range}
use memtoy.Segment.Slots.{segment_get}
use memtoy.Segment.Round.{clip}
use memtoy.Segment.Show.{get_node, location_loop, segment_location}
use memtoy.Children.{child_kick}
use memtoy.Children.Spawn.{start_child, fork_child, make_child, child_spawn}
use memtoy.Command.Common.{first_arg, no_range}
use memtoy.Command.Creating.{
  anon_loop, anon_seg, anon_arg, set_share, set_addr, set_behind, ignored, no_name, file_seg,
  shmem_seg,
}
use memtoy.Command.Segments.{
  remove_loop, remove_seg, unmap_seg, map_seg, mbind_with, mbind_seg, where_seg, lock_unlock,
  mprotect_seg,
}
use memtoy.Args.Masks.{get_current_nodeid_list}
use memtoy.Command.Nodes.{
  refresh_mems_allowed, top_node, allowed, node_sizes, numa_info, migrate_from, migrate_process,
}
use memtoy.Command.Policies.{show_cpus, cpus, show_mems, mems_mask, mems, show_task_policy, mpol}
use memtoy.Command.Laws.Codes.{lawful, lawful_spawned}
use memtoy.Children.{child_send}

module _ (kernel : Kernel) where
  remove_loop-lawful :
      (r : ℕ) (args : Text) (c : Context) → lawful (remove_loop kernel r args c).0 ≡ true
  unfolding remove_loop
  remove_loop-lawful zero args c = refl
  remove_loop-lawful (suc r) args c =
      let (segname, more) = first_arg args in
      ground (arith, remove_loop-lawful r more (segment_remove kernel segname c).1)

  pub remove_seg-lawful : (args : Text) (c : Context) → lawful (remove_seg kernel args c).0 ≡ true
  unfolding remove_seg
  remove_seg-lawful args c =
      ground (arith, remove_loop-lawful (suc (length args)) (skip whitespace args) c)

  pub segment_register-lawful :
      (type : SegType) (name : Text) (r : Range) (flags : ℕ) (c : Context)
      → lawful (segment_register kernel type name r flags c).0 ≡ true
  unfolding segment_register
  segment_register-lawful type name r flags c = ground arith

  anon_loop-lawful :
      (k : ℕ) (segname args : Text) (r : Range) (segflag : ℕ) (c : Context)
      → lawful (anon_loop kernel k segname args r segflag c).0 ≡ true
  unfolding anon_loop
  anon_loop-lawful zero segname args r segflag c = refl
  anon_loop-lawful (suc k) segname [] r segflag c =
      segment_register-lawful segt_anon segname r segflag c
  anon_loop-lawful (suc k) segname (b ∷ args) r segflag c =
      let (token, more) = first_arg (b ∷ args) in
      let again : (g : Range) (f : ℕ) (d : Context)
          → lawful (anon_loop kernel k segname more g f d).0 ≡ true =
        λ g f d. anon_loop-lawful k segname more g f d in
      elim (anon_arg token)
          as (λ a.
            anon_arg token ≡ a
            → lawful (anon_loop kernel (suc k) segname (b ∷ args) r segflag c).0 ≡ true) [
              | set_share f ↦ λ e. ground (arith, again r f c)
              | set_addr a ↦ λ e. ground (arith, again (record r { offset = a }) segflag c)
              | ignored ↦ λ e. ground (arith, again r segflag c)
              | no_name ↦ λ e. ground arith
              | set_behind n ↦ λ e. elim (Option-cases (segment_range kernel n c).0) [
                | inl e2 ↦ ground arith
                | inr (x, e2) ↦ ground (
                  arith,
                  again (record r { offset = (x.0 + x.1) % word }) segflag
                      (segment_range kernel n c).1,
                )
              ]
            ]
        refl

  pub anon_seg-lawful : (args : Text) (c : Context) → lawful (anon_seg kernel args c).0 ≡ true
  unfolding anon_seg
  anon_seg-lawful args c =
      let (segname, more) = first_arg (skip whitespace args) in
      let (size, options) = first_arg more in
      let r = record no_range { length = size_kmgp c.pagesize size } in
      ground (arith, anon_loop-lawful (suc (length args)) segname options r map_private c)

  pub mprotect_seg-lawful :
      (args : Text) (c : Context) → lawful (mprotect_seg kernel args c).0 ≡ true
  unfolding mprotect_seg
  mprotect_seg-lawful args c = ground arith

  location_loop-lawful :
      (k apage end pagesize pgid : ℕ) (need_nl : Bool) (c : Context)
      → lawful (location_loop kernel k apage end pagesize pgid need_nl c).0 ≡ true
  unfolding location_loop
  location_loop-lawful zero apage end pagesize pgid need_nl c = refl
  location_loop-lawful (suc k) apage end pagesize pgid need_nl c =
      let d = (get_node kernel apage c).1 in
      let again =
        location_loop-lawful k ((apage + pagesize) % word) end pagesize ((pgid + 1) % 2 ^ 32)
          (need_nl || (pgid % 8 == 0)) d in
      ground arith

  node_sizes-lawful : (l : List ℕ) (c : Context) → lawful (node_sizes kernel l c).0 ≡ true
  unfolding node_sizes
  node_sizes-lawful [] c = refl
  node_sizes-lawful (n ∷ l) c = ground (arith, node_sizes-lawful l (tell (Call.numa_node_size n) c))

  pub file_seg-lawful : (args : Text) (c : Context) → lawful (file_seg kernel args c).0 ≡ true
  unfolding file_seg segment_register
  file_seg-lawful args c = ground arith

  pub shmem_seg-lawful : (args : Text) (c : Context) → lawful (shmem_seg kernel args c).0 ≡ true
  unfolding shmem_seg segment_register
  shmem_seg-lawful args c = ground arith

  pub unmap_seg-lawful : (args : Text) (c : Context) → lawful (unmap_seg kernel args c).0 ≡ true
  unfolding unmap_seg
  unmap_seg-lawful args c = ground arith

  pub map_seg-lawful : (args : Text) (c : Context) → lawful (map_seg kernel args c).0 ≡ true
  unfolding map_seg
  map_seg-lawful args c = ground arith

  pub mbind_seg-lawful : (args : Text) (c : Context) → lawful (mbind_seg kernel args c).0 ≡ true
  unfolding mbind_seg mbind_with
  mbind_seg-lawful args c = ground arith

  pub lock_unlock-lawful :
      (lock shm : Bool) (args : Text) (c : Context)
      → lawful (lock_unlock kernel lock shm args c).0 ≡ true
  unfolding lock_unlock
  lock_unlock-lawful lock shm args c = ground arith

  pub numa_info-lawful : (c : Context) → lawful (numa_info kernel c).0 ≡ true
  unfolding numa_info
  numa_info-lawful c =
      let c1 = tell Call.calloc c in
      elim (Option-cases (refresh_mems_allowed kernel c1)) [
        | inl e ↦ ground arith
        | inr (c2, e) ↦
            ground (arith, node_sizes-lawful (get_current_nodeid_list (top_node c) (allowed c2)) c2)
      ]

  pub migrate_process-lawful :
      (args : Text) (c : Context) → lawful (migrate_process kernel args c).0 ≡ true
  unfolding migrate_process migrate_from
  migrate_process-lawful args c = ground arith

  pub cpus-lawful : (args : Text) (c : Context) → lawful (cpus kernel args c).0 ≡ true
  unfolding cpus show_cpus
  cpus-lawful args c = ground arith

  pub mems-lawful : (args : Text) (c : Context) → lawful (mems kernel args c).0 ≡ true
  unfolding mems mems_mask show_mems
  mems-lawful args c = ground arith

  pub mpol-lawful : (args : Text) (c : Context) → lawful (mpol kernel args c).0 ≡ true
  unfolding mpol show_task_policy
  mpol-lawful args c = ground arith

  pub child_kick-lawful : (args : Text) (c : Context) → lawful (child_kick args c).0 ≡ true
  unfolding child_kick
  child_kick-lawful args c = ground arith

  pub child_spawn-lawful :
      (args : Text) (c : Context) → lawful_spawned (child_spawn kernel args c) ≡ true
  unfolding child_spawn make_child fork_child start_child
  child_spawn-lawful args c = ground arith

  segment_location-lawful :
      (rounds : ℕ) (name : Text) (r : Range) (c : Context)
      → lawful (segment_location kernel rounds name r c).0 ≡ true
  unfolding segment_location
  segment_location-lawful rounds name r c =
      let g = segment_get kernel name c in
      let out = segment_location kernel rounds name r c in
      elim (Option-cases g.0) [
        | inl e ↦ ground arith
        | inr (p, e) ↦
            let s = segment_at g.1 p in
            let r' = record r {
              length = if r.length == default_length then 64 * s.seg_pagesize % word else r.length;
            } in
            elim (Bool-cases ((s.seg_start == map_failed) || (s.seg_pagesize == 0))) [
              | inl m ↦ ground arith
              | inr m ↦ elim (Option-cases (clip r' s)) [
                | inl n ↦ ground arith
                | inr (range, n) ↦
                    let apage = (s.seg_start + range.0) % word in
                    let end = (apage + range.1) % word in
                    let pgid = range.0 / s.seg_pagesize % 2 ^ 32 in
                    let nl = not (pgid % 8 == 0) in
                    let l = location_loop-lawful rounds apage end s.seg_pagesize pgid nl g.1 in
                    ground arith
              ]
            ]
      ]

  pub where_seg-lawful :
      (rounds : ℕ) (args : Text) (c : Context) → lawful (where_seg kernel rounds args c).0 ≡ true
  unfolding where_seg
  where_seg-lawful rounds args c =
      let (segname, more) = first_arg (skip whitespace args) in
      elim (Option-cases (get_range c.pagesize more no_range)) [
        | inl e ↦ ground arith
        | inr ((r, rest), e) ↦
            let r' =
              if length more == length rest then record r { length = default_length } else r in
            ground (arith, segment_location-lawful rounds segname r' c)
      ]

  pub child_send-lawful :
      (room : Bool) (s : Text) (c : Context) → lawful (child_send kernel room s c).0 ≡ true
  unfolding child_send
  child_send-lawful room s c = ground arith
