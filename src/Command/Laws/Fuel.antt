-- ===== src/Command/Laws/Fuel.antt =====
-- The rounds of the loops over the arguments of the commands.
use memtoy.Base.{
  ℕ, Bool, true, zero, suc, ◌+◌, ◌%◌, word, ◌≤◌, ◌<◌, ◌≡◌, refl, false, [], ◌∷◌, Text, next,
  is_empty, bit_or, strtok, skip, take_until, drop_until, length, arith, if◌then◌else◌,
  Option-cases, inl, inr,
}
use memtoy.Context.{
  SegType, segt_anon, Outcome, crashed, endless, prot_read, prot_write, prot_exec, Range,
  map_private, Kernel, Context,
}
use memtoy.Segment.Register.{segment_register}
use memtoy.Segment.Ranges.{segment_remove, segment_range, segment_mprotect}
use memtoy.Args.Sizes.{whitespace, size_kmgp}
use memtoy.Command.Common.{first_arg, no_range, cmd_error, cmd_success}
use memtoy.Command.Creating.{
  anon_loop, set_share, set_addr, set_behind, ignored, no_name, anon_arg, anon_seg,
}
use memtoy.Command.Segments.{prot_loop, mprotect_seg, remove_loop, remove_seg}
use memtoy.Args.Laws.Fuel.{length-skip}
use memtoy.Args.Laws.Flags.{length-drop_until}

shorter : (s : Text) (n : ℕ) → length s ≤ n → zero < n → length (next s) < n
shorter [] n h k = omega arith
shorter (c ∷ s) n h k = omega arith

not_empty : (s : Text) → is_empty s ≡ false → zero < length s
not_empty [] h = cc
not_empty (c ∷ s) h = omega arith

length-first_arg : (args : Text) → is_empty args ≡ false → length (first_arg args).1 < length args
unfolding strtok
length-first_arg args h =
    let t = skip whitespace args in
    let d = drop_until whitespace t in
    omega (
      arith,
      length-skip whitespace args,
      length-drop_until whitespace t,
      length-skip whitespace (next d),
      shorter d (length args)
          (omega (arith, length-skip whitespace args, length-drop_until whitespace t))
          (not_empty args h),
    )

length-first_arg_le : (args : Text) → length (first_arg args).1 ≤ length args
unfolding strtok skip drop_until take_until
length-first_arg_le [] = omega arith
length-first_arg_le (b ∷ args) = omega (arith, length-first_arg (b ∷ args) refl)

-- The outcome of a loop that has run out of rounds.
abbrev pub is_endless : Outcome → Bool
is_endless (crashed endless) = true
is_endless o = false

module _ (kernel : Kernel) where
  remove_loop-ends :
      (r : ℕ) (args : Text) (c : Context)
      → length args < r
      → is_endless (remove_loop kernel r args c).0 ≡ false
  unfolding remove_loop
  remove_loop-ends zero args c h = absurd (omega arith)
  remove_loop-ends (suc r) [] c h = refl
  remove_loop-ends (suc r) (b ∷ args) c h =
      let (segname, more) = first_arg (b ∷ args) in
      let lt = length-first_arg (b ∷ args) refl in
      let c' = (segment_remove kernel segname c).1 in
      ground (arith, remove_loop-ends r more c' (omega arith))

  segment_register-ends :
      (type : SegType) (name : Text) (range : Range) (flags : ℕ) (c : Context)
      → is_endless (segment_register kernel type name range flags c).0 ≡ false
  unfolding segment_register
  segment_register-ends type name range flags c = ground arith

  anon_loop-ends :
      (r : ℕ) (segname args : Text) (range : Range) (segflag : ℕ) (c : Context)
      → length args < r
      → is_endless (anon_loop kernel r segname args range segflag c).0 ≡ false
  unfolding anon_loop
  anon_loop-ends zero segname args range segflag c h = absurd (omega arith)
  anon_loop-ends (suc r) segname [] range segflag c h =
      segment_register-ends segt_anon segname range segflag c
  anon_loop-ends (suc r) segname (b ∷ args) range segflag c h =
      let (token, more) = first_arg (b ∷ args) in
      let lt = length-first_arg (b ∷ args) refl in
      let again : (g : Range) (f : ℕ) (d : Context)
          → is_endless (anon_loop kernel r segname more g f d).0 ≡ false =
        λ g f d. anon_loop-ends r segname more g f d (omega arith) in
      elim (anon_arg token)
          as (λ a.
            anon_arg token ≡ a
            → is_endless (anon_loop kernel (suc r) segname (b ∷ args) range segflag c).0 ≡ false) [
              | set_share f ↦ λ e. ground (arith, again range f c)
              | set_addr a ↦ λ e. ground (arith, again (record range { offset = a }) segflag c)
              | ignored ↦ λ e. ground (arith, again range segflag c)
              | no_name ↦ λ e. ground arith
              | set_behind n ↦ λ e. elim (Option-cases (segment_range kernel n c).0) [
                | inl e2 ↦ ground arith
                | inr (x, e2) ↦ ground (
                  arith,
                  again (record range { offset = (x.0 + x.1) % word }) segflag
                      (segment_range kernel n c).1,
                )
              ]
            ]
        refl

  -- The loops over the arguments of `anon` and of `remove` come to their end, whatever the arguments and
  -- the answers of the system: neither command runs out of the rounds that it gives its loop.
  pub argument_loops-end :
      (args : Text) (c : Context)
      → (is_endless (anon_seg kernel args c).0 ≡ false)
        × (is_endless (remove_seg kernel args c).0 ≡ false)
  unfolding anon_seg remove_seg
  argument_loops-end args c =
      let (segname, more) = first_arg (skip whitespace args) in
      let (size, options) = first_arg more in
      let range = record no_range { length = size_kmgp c.pagesize size } in
      let le1 = length-skip whitespace args in
      let le2 = length-first_arg_le (skip whitespace args) in
      let le3 = length-first_arg_le more in
      let rounds = suc (length args) in
      let one = anon_loop-ends rounds segname options range map_private c (omega arith) in
      let other = remove_loop-ends rounds (skip whitespace args) c (omega arith) in
      (ground arith, ground arith)

  prot_loop-rounds :
      (r q : ℕ) (args : Text) (prot : ℕ)
      → length args < r
      → length args < q
      → prot_loop kernel r args prot ≡ prot_loop kernel q args prot
  unfolding prot_loop
  prot_loop-rounds zero q args prot h k = absurd (omega arith)
  prot_loop-rounds (suc r) zero args prot h k = absurd (omega arith)
  prot_loop-rounds (suc r) (suc q) [] prot h k = refl
  prot_loop-rounds (suc r) (suc q) (b ∷ args) prot h k =
      let more = (first_arg (b ∷ args)).1 in
      let lt = length-first_arg (b ∷ args) refl in
      let again : (p : ℕ) → prot_loop kernel r more p ≡ prot_loop kernel q more p =
        λ p. prot_loop-rounds r q more p (omega arith) (omega arith) in
      ground (
        arith,
        again prot,
        again (bit_or prot prot_read),
        again (bit_or prot prot_write),
        again (bit_or prot prot_exec),
      )

  -- `mprotect_seg` refuses a missing name, and else asks for the protection that its loop over the
  -- arguments gives with any number of rounds above their length; its status is then a success.
  pub mprotect_seg-rounds :
      (r : ℕ) (args : Text) (c : Context)
      → length args < r
      → let (segname, more) = first_arg (skip whitespace args) in
        mprotect_seg kernel args c ≡ (
          if is_empty (skip whitespace args)
          then (cmd_error, c)
          else (cmd_success, (segment_mprotect kernel segname (prot_loop kernel r more 0) c).1))
  unfolding mprotect_seg
  mprotect_seg-rounds r args c h =
      let (segname, more) = first_arg (skip whitespace args) in
      let le1 = length-skip whitespace args in
      let le2 = length-first_arg_le (skip whitespace args) in
      let eq = prot_loop-rounds r (suc (length args)) more 0 (omega arith) (omega arith) in
      ground (arith, eq)
