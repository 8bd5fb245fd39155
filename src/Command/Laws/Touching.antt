-- ===== src/Command/Laws/Touching.antt =====
-- `touch_seg` and the point that `touch_memory` jumps to.
use memtoy.Base.{
  ℕ, ◌≡◌, refl, true, false, Text, is_empty, skip, arith, Option-cases, Bool-cases, inl, inr,
}
use memtoy.Context.{Kernel, Context, Outcome, returned, exited, killed, crashed}
use memtoy.Segment.Touch.{segment_touch}
use memtoy.Segment.Laws.Arming.{CalmOut, segment_touch-Calm}
use memtoy.Args.Sizes.{whitespace, get_range, get_access, axcs_err, axcs_read, axcs_write}
use memtoy.Command.Common.{no_range, first_arg, cmd_error}
use memtoy.Command.Segments.{touch_seg}

when-calm : (c : Context) (o : Outcome × Context) → (c.sigjmp ≡ false → CalmOut c o) → CalmOut c o
when-calm c (returned b, d) h = λ k. h k k
when-calm c (exited code, d) h = tt
when-calm c (killed sig, d) h = tt
when-calm c (crashed f, d) h = tt

-- Where `touch` does not end the program, it does not leave the point armed.
pub touch_seg-Calm :
    (kernel : Kernel) (rounds : ℕ) (args : Text) (c : Context)
    → CalmOut c (touch_seg kernel rounds args c)
unfolding touch_seg
touch_seg-Calm kernel rounds args c =
    let (segname, more) = first_arg (skip whitespace args) in
    let out = touch_seg kernel rounds args c in
    let refused : CalmOut c (cmd_error, c) = λ h. h in
    elim (Bool-cases (is_empty (skip whitespace args))) [
      | inl e ↦ (let eq : out ≡ (cmd_error, c) = ground arith in rw eq refused)
      | inr e ↦ elim (Option-cases (get_range c.pagesize more no_range)) [
        | inl m ↦ (let eq : out ≡ (cmd_error, c) = ground arith in rw eq refused)
        | inr ((r, rest), m) ↦
            elim (get_access rest) as (λ a. get_access rest ≡ a → CalmOut c out) [
              | axcs_err ↦ λ n. (let eq : out ≡ (cmd_error, c) = ground arith in rw eq refused)
              | axcs_read ↦ λ n.
                  let t = segment_touch kernel rounds segname r false c in
                  let eq : out ≡ t = ground arith in
                  rw eq (when-calm c t (segment_touch-Calm kernel rounds segname r false c))
              | axcs_write ↦ λ n.
                  let t = segment_touch kernel rounds segname r true c in
                  let eq : out ≡ t = ground arith in
                  rw eq (when-calm c t (segment_touch-Calm kernel rounds segname r true c))
            ]
              refl
      ]
    ]
