-- ===== src/Command/Laws/Calls.antt =====
-- The other segment commands as calls of the segment API.
use memtoy.Base.{
  Bool, ℕ, zero, suc, ◌≡◌, refl, true, false, not, ◌||◌, ◌==◌, Option, none, some, [], ◌∷◌, Text,
  is_empty, skip, length, arith, if◌then◌else◌, Option-cases, Bool-cases, inl, inr,
}
use memtoy.Context.{Range, Kernel, Context, default_length}
use memtoy.Segment.Map.{segment_map}
use memtoy.Segment.Touch.{segment_touch}
use memtoy.Segment.Ranges.{segment_remove, segment_unmap}
use memtoy.Segment.Show.{segment_location}
use memtoy.Segment.Laws.Reach.{Step, Reach, step}
use memtoy.Args.Sizes.{
  whitespace, get_range, get_shared, get_access, axcs_err, axcs_read, axcs_write,
}
use memtoy.Command.Common.{no_range, first_arg, numa_supported}
use memtoy.Command.Segments.{remove_loop, remove_seg, touch_seg, unmap_seg, map_seg, where_seg}

module _ {touching : Bool} (kernel : Kernel) (c0 : Context) where
  remove_loop-Reach :
      (rounds : ℕ) (args : Text) (c : Context)
      → Reach touching kernel c0 c
      → Reach touching kernel c0 (remove_loop kernel rounds args c).1
  unfolding remove_loop
  remove_loop-Reach zero args c h = h
  remove_loop-Reach (suc rounds) [] c h = h
  remove_loop-Reach (suc rounds) (b ∷ args) c h =
      let (segname, more) = first_arg (b ∷ args) in
      let (done, c') = segment_remove kernel segname c in
      let h' : Reach touching kernel c0 c' = step h (Step.remove segname) in
      let ih = remove_loop-Reach rounds more c' h' in
      let out = remove_loop kernel (suc rounds) (b ∷ args) c in
      elim (Bool-cases done) [
        | inl e ↦ (let eq : out ≡ remove_loop kernel rounds more c' = ground arith in rw eq ih)
        | inr e ↦ (let eq : out.1 ≡ c' = ground arith in rw eq h')
      ]

  pub remove_seg-Reach :
      (args : Text) (c : Context)
      → Reach touching kernel c0 c
      → Reach touching kernel c0 (remove_seg kernel args c).1
  unfolding remove_seg
  remove_seg-Reach args c h =
      let out = remove_seg kernel args c in
      let rest = skip whitespace args in
      elim (Bool-cases (is_empty rest)) [
        | inl e ↦ (let eq : out.1 ≡ c = ground arith in rw eq h)
        | inr e ↦
            let eq : out ≡ remove_loop kernel (suc (length args)) rest c = ground arith in
            rw eq (remove_loop-Reach (suc (length args)) rest c h)
      ]

  pub unmap_seg-Reach :
      (args : Text) (c : Context)
      → Reach touching kernel c0 c
      → Reach touching kernel c0 (unmap_seg kernel args c).1
  unfolding unmap_seg
  unmap_seg-Reach args c h =
      let (segname, more) = first_arg (skip whitespace args) in
      let out = unmap_seg kernel args c in
      elim (Bool-cases (is_empty (skip whitespace args))) [
        | inl e ↦ (let eq : out.1 ≡ c = ground arith in rw eq h)
        | inr e ↦
            let eq : out.1 ≡ (segment_unmap kernel segname c).1 = ground arith in
            rw eq (step h (Step.unmap segname))
      ]

  pub map_seg-Reach :
      (args : Text) (c : Context)
      → Reach touching kernel c0 c
      → Reach touching kernel c0 (map_seg kernel args c).1
  unfolding map_seg
  map_seg-Reach args c h =
      let (segname, more) = first_arg (skip whitespace args) in
      let out = map_seg kernel args c in
      elim (Bool-cases (is_empty (skip whitespace args))) [
        | inl e ↦ (let eq : out.1 ≡ c = ground arith in rw eq h)
        | inr e ↦ elim (Option-cases (get_range c.pagesize more no_range)) [
          | inl m ↦ (let eq : out.1 ≡ c = ground arith in rw eq h)
          | inr ((r, rest), m) ↦
              let range : Option Range = if length more == length rest then none else some r in
              let shared : Option ℕ = if is_empty rest then some 0 else get_shared rest in
              elim (Option-cases shared) [
                | inl n ↦ (let eq : out.1 ≡ c = ground arith in rw eq h)
                | inr (f, n) ↦
                    let eq : out.1 ≡ (segment_map kernel segname range f c).1 = ground arith in
                    rw eq (step h (Step.map segname range f))
              ]
        ]
      ]

  pub where_seg-Reach :
      (rounds : ℕ) (args : Text) (c : Context)
      → Reach touching kernel c0 c
      → Reach touching kernel c0 (where_seg kernel rounds args c).2
  unfolding where_seg
  where_seg-Reach rounds args c h =
      let (segname, more) = first_arg (skip whitespace args) in
      let out = where_seg kernel rounds args c in
      elim (Bool-cases (not (numa_supported c) || is_empty (skip whitespace args))) [
        | inl e ↦ (let eq : out.2 ≡ c = ground arith in rw eq h)
        | inr e ↦ elim (Option-cases (get_range c.pagesize more no_range)) [
          | inl m ↦ (let eq : out.2 ≡ c = ground arith in rw eq h)
          | inr ((r, rest), m) ↦
              let r' =
                if length more == length rest then record r { length = default_length } else r in
              let eq : out.2 ≡ (segment_location kernel rounds segname r' c).2 = ground arith in
              rw eq (step h (Step.location rounds segname r'))
        ]
      ]

module _ (kernel : Kernel) (c0 : Context) where
  pub touch_seg-Reach :
      (rounds : ℕ) (args : Text) (c : Context)
      → Reach true kernel c0 c
      → Reach true kernel c0 (touch_seg kernel rounds args c).1
  unfolding touch_seg
  touch_seg-Reach rounds args c h =
      let (segname, more) = first_arg (skip whitespace args) in
      let out = touch_seg kernel rounds args c in
      elim (Bool-cases (is_empty (skip whitespace args))) [
        | inl e ↦ (let eq : out.1 ≡ c = ground arith in rw eq h)
        | inr e ↦ elim (Option-cases (get_range c.pagesize more no_range)) [
          | inl m ↦ (let eq : out.1 ≡ c = ground arith in rw eq h)
          | inr ((r, rest), m) ↦
              elim (get_access rest) as (λ a. get_access rest ≡ a → Reach true kernel c0 out.1) [
                | axcs_err ↦ λ n. (let eq : out.1 ≡ c = ground arith in rw eq h)
                | axcs_read ↦ λ n.
                    let eq : out ≡ segment_touch kernel rounds segname r false c = ground arith in
                    rw eq (step h (Step.touch rounds segname r false refl))
                | axcs_write ↦ λ n.
                    let eq : out ≡ segment_touch kernel rounds segname r true c = ground arith in
                    rw eq (step h (Step.touch rounds segname r true refl))
              ]
                refl
        ]
      ]
