-- ===== src/Command/Laws/Creating.antt =====
-- The commands that create segments as calls of the segment API.
use memtoy.Base.{
  Bool, ℕ, zero, suc, ◌+◌, ◌%◌, ◌≡◌, refl, not, ◌||◌, ◌&&◌, ◌==◌, Option, some, [], ◌∷◌, Text, text,
  is_empty, skip, length, word, strncasecmp_eq, bit_or, arith, if◌then◌else◌, Option-cases,
  Bool-cases, inl, inr,
}
use memtoy.Context.{
  segt_anon, segt_file, segt_shm, Range, Kernel, Context, bogus_size, map_shared, map_private,
  shm_hugetlb,
}
use memtoy.Segment.Register.{segment_register}
use memtoy.Segment.Ranges.{segment_range}
use memtoy.Segment.Laws.Reach.{Step, Reach, step}
use memtoy.Args.Sizes.{whitespace, size_kmgp, get_range, get_shared}
use memtoy.Command.Common.{no_range, first_arg}
use memtoy.Command.Creating.{
  set_share, set_addr, set_behind, ignored, no_name, anon_arg, anon_loop, anon_seg, file_seg,
  shmem_seg,
}

module _ {touching : Bool} (kernel : Kernel) (c0 : Context) where
  anon_loop-Reach :
      (rounds : ℕ) (segname args : Text) (r : Range) (segflag : ℕ) (c : Context)
      → Reach touching kernel c0 c
      → Reach touching kernel c0 (anon_loop kernel rounds segname args r segflag c).1
  unfolding anon_loop
  anon_loop-Reach zero segname args r segflag c h = h
  anon_loop-Reach (suc rounds) segname [] r segflag c h =
      step h (Step.register segt_anon segname r segflag refl)
  anon_loop-Reach (suc rounds) segname (b ∷ args) r segflag c h =
      let (token, more) = first_arg (b ∷ args) in
      let again : (g : Range) (f : ℕ) (d : Context)
          → Reach touching kernel c0 d
          → Reach touching kernel c0 (anon_loop kernel rounds segname more g f d).1 =
        λ g f d. anon_loop-Reach rounds segname more g f d in
      let out = anon_loop kernel (suc rounds) segname (b ∷ args) r segflag c in
      elim (anon_arg token) as (λ a. anon_arg token ≡ a → Reach touching kernel c0 out.1) [
        | set_share f ↦ λ e. rw (e, anon_loop) (again r f c h)
        | set_addr a ↦ λ e. rw (e, anon_loop) (again (record r { offset = a }) segflag c h)
        | ignored ↦ λ e. rw (e, anon_loop) (again r segflag c h)
        | no_name ↦ λ e. rw (e, anon_loop) h
        | set_behind n ↦ λ e.
            let c' = (segment_range kernel n c).1 in
            let h' : Reach touching kernel c0 c' = step h (Step.range n) in
            elim (Option-cases (segment_range kernel n c).0) [
              | inl m ↦ (let eq : out.1 ≡ c' = ground arith in rw eq h')
              | inr (x, m) ↦
                  let g = record r { offset = (x.0 + x.1) % word } in
                  let eq : out ≡ anon_loop kernel rounds segname more g segflag c' = ground arith in
                  rw eq (again g segflag c' h')
            ]
      ]
        refl

  pub anon_seg-Reach :
      (args : Text) (c : Context)
      → Reach touching kernel c0 c
      → Reach touching kernel c0 (anon_seg kernel args c).1
  unfolding anon_seg
  anon_seg-Reach args c h =
      let (segname, more) = first_arg (skip whitespace args) in
      let (size, options) = first_arg more in
      let length' = size_kmgp c.pagesize size in
      let bad = is_empty (skip whitespace args) || is_empty more || (length' == bogus_size) in
      let r = record no_range { length = length' } in
      let out = anon_seg kernel args c in
      elim (Bool-cases bad) [
        | inl e ↦ (let eq : out.1 ≡ c = ground arith in rw eq h)
        | inr e ↦
            let eq : out ≡ anon_loop kernel (suc (length args)) segname options r map_private c =
              ground arith in
            rw eq (anon_loop-Reach (suc (length args)) segname options r map_private c h)
      ]

  pub file_seg-Reach :
      (args : Text) (c : Context)
      → Reach touching kernel c0 c
      → Reach touching kernel c0 (file_seg kernel args c).1
  unfolding file_seg
  file_seg-Reach args c h =
      let (pathname, more) = first_arg (skip whitespace args) in
      let out = file_seg kernel args c in
      elim (Bool-cases (is_empty (skip whitespace args))) [
        | inl e ↦ (let eq : out.1 ≡ c = ground arith in rw eq h)
        | inr e ↦ elim (Option-cases (get_range c.pagesize more no_range)) [
          | inl m ↦ (let eq : out.1 ≡ c = ground arith in rw eq h)
          | inr ((r, rest), m) ↦
              let shared : Option ℕ = if is_empty rest then some map_private else get_shared rest in
              elim (Option-cases shared) [
                | inl n ↦ (let eq : out.1 ≡ c = ground arith in rw eq h)
                | inr (f, n) ↦
                    let eq : out ≡ segment_register kernel segt_file pathname r f c =
                      ground arith in
                    rw eq (step h (Step.register segt_file pathname r f refl))
              ]
        ]
      ]

  pub shmem_seg-Reach :
      (args : Text) (c : Context)
      → Reach touching kernel c0 c
      → Reach touching kernel c0 (shmem_seg kernel args c).1
  unfolding shmem_seg
  shmem_seg-Reach args c h =
      let (segname, more) = first_arg (skip whitespace args) in
      let (size, options) = first_arg more in
      let (option, rest) = first_arg options in
      let length' = size_kmgp c.pagesize size in
      let r = record no_range { length = length' } in
      let huge = not (is_empty options) && strncasecmp_eq option (text "huge") (length option) in
      let f = if huge then bit_or map_shared shm_hugetlb else map_shared in
      let bad = is_empty (skip whitespace args) || is_empty more || (length' == bogus_size) in
      let out = shmem_seg kernel args c in
      elim (Bool-cases bad) [
        | inl e ↦ (let eq : out.1 ≡ c = ground arith in rw eq h)
        | inr e ↦
            let eq : out ≡ segment_register kernel segt_shm segname r f c = ground arith in
            rw eq (step h (Step.register segt_shm segname r f refl))
      ]
