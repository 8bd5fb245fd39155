-- ===== src/Command/Laws/Ranges.antt =====
-- The commands on ranges of segments as calls of the segment API.
use memtoy.Base.{
  Bool, ℕ, suc, ◌≡◌, refl, Bool, not, ◌||◌, ◌==◌, Option, none, some, Text, first, next, is_empty,
  skip, length, arith, if◌then◌else◌, Option-cases, Bool-cases, inl, inr,
}
use memtoy.Context.{Range, Kernel, Context}
use memtoy.Segment.Ranges.{segment_mbind, segment_lock_unlock, segment_mprotect}
use memtoy.Segment.Laws.Reach.{Step, Reach, step}
use memtoy.Args.Sizes.{whitespace, get_range}
use memtoy.Args.Policy.{get_mbind_policy, get_mbind_flags}
use memtoy.Args.Masks.{get_arg_nodemask, mask, null_mask, bad_mask, wild_mask}
use memtoy.Command.Common.{no_range, first_arg, numa_supported}
use memtoy.Command.Segments.{mbind_with, mbind_seg, lock_unlock, show_seg, prot_loop, mprotect_seg}

module _ {touching : Bool} (kernel : Kernel) (c0 : Context) where
  pub lock_unlock-Reach :
      (lock shm : Bool) (args : Text) (c : Context)
      → Reach touching kernel c0 c
      → Reach touching kernel c0 (lock_unlock kernel lock shm args c).1
  unfolding lock_unlock
  lock_unlock-Reach lock shm args c h =
      let (segname, more) = first_arg (skip whitespace args) in
      let range : Option (Range × Text) =
        if shm then some (no_range, more) else get_range c.pagesize more no_range in
      let out = lock_unlock kernel lock shm args c in
      elim (Bool-cases (is_empty (skip whitespace args))) [
        | inl e ↦ (let eq : out.1 ≡ c = ground arith in rw eq h)
        | inr e ↦ elim (Option-cases range) [
          | inl m ↦ (let eq : out.1 ≡ c = ground arith in rw eq h)
          | inr ((r, rest), m) ↦
              let eq : out.1 ≡ (segment_lock_unlock kernel segname r lock shm c).1 = ground arith in
              rw eq (step h (Step.lock_unlock segname r lock shm))
        ]
      ]

  pub show_seg-Reach :
      (args : Text) (c : Context)
      → Reach touching kernel c0 c
      → Reach touching kernel c0 (show_seg kernel args c).2
  unfolding show_seg
  show_seg-Reach args c h =
      let (segname, more) = first_arg (skip whitespace args) in
      let name : Option Text = if is_empty (skip whitespace args) then none else some segname in
      step h (Step.show name)

  pub mprotect_seg-Reach :
      (args : Text) (c : Context)
      → Reach touching kernel c0 c
      → Reach touching kernel c0 (mprotect_seg kernel args c).1
  unfolding mprotect_seg
  mprotect_seg-Reach args c h =
      let (segname, more) = first_arg (skip whitespace args) in
      let prot = prot_loop kernel (suc (length args)) more 0 in
      let out = mprotect_seg kernel args c in
      elim (Bool-cases (is_empty (skip whitespace args))) [
        | inl e ↦ (let eq : out.1 ≡ c = ground arith in rw eq h)
        | inr e ↦
            let eq : out.1 ≡ (segment_mprotect kernel segname prot c).1 = ground arith in
            rw eq (step h (Step.mprotect segname prot))
      ]

  mbind_with-Reach :
      (segname : Text) (r : Range) (policy : ℕ) (nextarg : Text) (c : Context)
      → Reach touching kernel c0 c
      → Reach touching kernel c0 (mbind_with kernel segname r policy nextarg c).1
  unfolding mbind_with
  mbind_with-Reach segname r policy nextarg c h =
      let args = skip whitespace nextarg in
      let parsed : Option (ℕ × Text) =
        if first args == b'+' then get_mbind_flags (next args) else some (0, nextarg) in
      let out = mbind_with kernel segname r policy nextarg c in
      elim (Option-cases parsed) [
        | inl e ↦ (let eq : out.1 ≡ c = ground arith in rw eq h)
        | inr ((flags, rest), e) ↦
            let nodes = get_arg_nodemask c.numa_max_node (skip whitespace rest) policy in
            elim nodes as (λ a. nodes ≡ a → Reach touching kernel c0 out.1) [
              | bad_mask ↦ λ n. (let eq : out.1 ≡ c = ground arith in rw eq h)
              | wild_mask ↦ λ n. (let eq : out.1 ≡ c = ground arith in rw eq h)
              | null_mask ↦ λ n.
                  let eq : out.1 ≡ (segment_mbind kernel segname r policy none flags c).1 =
                    ground arith in
                  rw eq (step h (Step.mbind segname r policy none flags))
              | mask l ↦ λ n.
                  let eq : out.1 ≡ (segment_mbind kernel segname r policy (some l) flags c).1 =
                    ground arith in
                  rw eq (step h (Step.mbind segname r policy (some l) flags))
            ]
              refl
      ]

  pub mbind_seg-Reach :
      (args : Text) (c : Context)
      → Reach touching kernel c0 c
      → Reach touching kernel c0 (mbind_seg kernel args c).1
  unfolding mbind_seg
  mbind_seg-Reach args c h =
      let (segname, more) = first_arg (skip whitespace args) in
      let out = mbind_seg kernel args c in
      elim (Bool-cases (not (numa_supported c) || is_empty (skip whitespace args))) [
        | inl e ↦ (let eq : out.1 ≡ c = ground arith in rw eq h)
        | inr e ↦ elim (Option-cases (get_range c.pagesize more no_range)) [
          | inl m ↦ (let eq : out.1 ≡ c = ground arith in rw eq h)
          | inr ((r, rest), m) ↦
              let policy = (get_mbind_policy rest).0 in
              let nextarg : Text = elim ((get_mbind_policy rest).1) [ none ↦ rest | some t ↦ t ] in
              elim (Bool-cases (is_empty rest)) [
                | inl n ↦ (let eq : out.1 ≡ c = ground arith in rw eq h)
                | inr n ↦
                    let eq : out ≡ mbind_with kernel segname r policy nextarg c = ground arith in
                    rw eq (mbind_with-Reach segname r policy nextarg c h)
              ]
        ]
      ]
