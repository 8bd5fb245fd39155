-- ===== src/Segment/Laws/Arming.antt =====
-- The point that `touch_memory` jumps to: where touching ends without the end of the program, it is not armed.
use mathlib.Core.Path.{subst}
use memtoy.Base.{
  ℕ, zero, suc, ◌+◌, ◌%◌, ◌*◌, ◌/◌, ◌&&◌, ◌==◌, ◌≡◌, refl, ap, ◌∙◌, Bool, true, false, Option, none,
  some, Text, ltb, arith, word, Option-cases, Bool-cases, inl, inr,
}
use memtoy.Context.{
  Segment, Range, Kernel, Context, Reply-cases, segment_at, has_flag, segf_maps, tell, Outcome,
  returned, exited, killed, crashed,
}
use memtoy.Signals.{jumped, resumed, died, kills, sigbus, signal_handler, reset_signal}
use memtoy.Children.Reaping.{deliver}
use memtoy.Children.Answers.{Calm}
use memtoy.Segment.Slots.{segment_get}
use memtoy.Segment.Round.{clip}
use memtoy.Segment.Touch.{
  Touched, finished, stopped, struck, unfinished, access_call, fault_signal, after_access,
  touch_one, touch_loop, touch_memory, segment_touch, report,
}
use memtoy.Segment.Laws.Others.Tables.{segment_get-outside}

-- What an operation leaves where it does not end the program and is no fault.
abbrev pub CalmOut : Context → Outcome × Context → Type 0
CalmOut c (returned b, d) = Calm c d
CalmOut c (exited code, d) = Unit
CalmOut c (killed sig, d) = Unit
CalmOut c (crashed f, d) = Unit

abbrev EndsCalm : Touched → Type 0
EndsCalm (finished d) = d.sigjmp ≡ false
EndsCalm (stopped code d) = Unit
EndsCalm (struck sig d) = Unit
EndsCalm unfinished = Unit

abbrev RoundCalm : Option Context × Touched → Type 0
RoundCalm (some d, end) = d.sigjmp ≡ false
RoundCalm (none, end) = EndsCalm end

after_access-Calm : (d : Context) → RoundCalm (after_access d)
unfolding reset_signal
after_access-Calm d = elim (Option-cases d.siginfo) [
  | inl e ↦ rw (e, after_access) refl
  | inr (sig, e) ↦ rw (e, after_access) refl
]

calm-over : (x : Option Context × Touched) → RoundCalm x → x.0 ≡ none → EndsCalm x.1
calm-over (none, end) h e = h
calm-over (some d, end) h e = absurd (ground (arith, e))

calm-next :
    (d : Context) (x : Option Context × Touched) → RoundCalm x → x.0 ≡ some d → d.sigjmp ≡ false
calm-next d (none, end) h e = absurd (ground (arith, e))
calm-next d (some d', end) h e = (let eq : d' ≡ d = cc in subst (λ x. x.sigjmp ≡ false) eq h)

-- A failed access raises a signal that jumps where the point is armed.
fault-jumps :
    (e : ℕ) (c : Context)
    → c.sigjmp ≡ true
    → signal_handler (fault_signal e) c
      ≡ jumped (record c { siginfo = some (fault_signal e); sigjmp = false })
unfolding signal_handler
fault-jumps e c h = elim (Bool-cases (e == sigbus)) [ inl q ↦ ground arith | inr q ↦ ground arith ]

module _ (kernel : Kernel) where
  touch_one-Calm : (writes : Bool) (pp : ℕ) (c : Context) → RoundCalm (touch_one kernel writes pp c)
  unfolding touch_one reset_signal
  touch_one-Calm writes pp c =
      let call = access_call writes pp in
      let c1 = tell call (record c { sigjmp = true }) in
      let one = touch_one kernel writes pp c in
      elim (Reply-cases (kernel c.trace call)) [
        | inl (e, k) ↦ rw (k, touch_one) (rw (fault-jumps e c1 refl) refl)
        | inr (zero, k) ↦ rw (k, touch_one) (after_access-Calm c1)
        | inr (suc n, k) ↦
            elim (deliver kernel (suc n) c1)
                as (λ a. deliver kernel (suc n) c1 ≡ a → RoundCalm one) [
                  | jumped d ↦ λ q. rw (k, touch_one) (rw (q, touch_one) refl)
                  | resumed d ↦ λ q. rw (k, touch_one) (rw (q, touch_one) (after_access-Calm d))
                  | died code ↦ λ q. rw (k, touch_one) (rw (q, touch_one) tt)
                  | kills sig ↦ λ q. rw (k, touch_one) (rw (q, touch_one) tt)
                ]
              refl
      ]

  touch_loop-Calm :
      (rounds : ℕ) (writes : Bool) (pp memend stride : ℕ) (c : Context)
      → c.sigjmp ≡ false
      → EndsCalm (touch_loop kernel rounds writes pp memend stride c)
  unfolding touch_loop
  touch_loop-Calm zero writes pp memend stride c h = tt
  touch_loop-Calm (suc rounds) writes pp memend stride c h =
      let out = touch_loop kernel (suc rounds) writes pp memend stride c in
      let one = touch_one kernel writes pp c in
      let round = touch_one-Calm writes pp c in
      elim (Bool-cases (ltb pp memend)) [
        | inr e ↦ (let eq : out ≡ finished c = ground arith in rw eq h)
        | inl e ↦ elim (Option-cases one.0) [
          | inl n ↦ (let eq : out ≡ one.1 = ground arith in rw eq (calm-over one round n))
          | inr (d, n) ↦
              let pp' = (pp + stride) % word in
              let eq : out ≡ touch_loop kernel rounds writes pp' memend stride d = ground arith in
              rw eq (touch_loop-Calm rounds writes pp' memend stride d (calm-next d one round n))
        ]
      ]

  report-Calm : (s : Segment) (t : Touched) (c d : Context) → EndsCalm t → CalmOut d (report s t c)
  report-Calm s (finished e) c d h = elim (Bool-cases (s.seg_pagesize == 0)) [
    | inl q ↦ rw (q, report) tt
    | inr q ↦ rw (q, report) (λ k. h)
  ]
  report-Calm s (stopped code e) c d h = tt
  report-Calm s (struck sig e) c d h = tt
  report-Calm s unfinished c d h = tt

  pub segment_touch-Calm :
      (rounds : ℕ) (name : Text) (r : Range) (writes : Bool) (c : Context)
      → c.sigjmp ≡ false
      → CalmOut c (segment_touch kernel rounds name r writes c)
  unfolding segment_touch touch_memory
  segment_touch-Calm rounds name r writes c h =
      let g = segment_get kernel name c in
      let v : g.1.sigjmp ≡ false = ap (λ o. o.2) (segment_get-outside kernel name c) ∙ h in
      let out = segment_touch kernel rounds name r writes c in
      elim (Option-cases g.0) [
        | inl e ↦ (let eq : out ≡ (returned false, g.1) = ground arith in rw eq (λ k. v))
        | inr (p, e) ↦
            let s = segment_at g.1 p in
            elim (Bool-cases (writes && has_flag s.seg_flags segf_maps)) [
              | inl w ↦ (let eq : out ≡ (returned false, g.1) = ground arith in rw eq (λ k. v))
              | inr w ↦ elim (Option-cases (clip r s)) [
                | inl n ↦ (let eq : out ≡ (returned false, g.1) = ground arith in rw eq (λ k. v))
                | inr (range, n) ↦
                    let memp = (s.seg_start + range.0) % word in
                    let t = touch_memory kernel rounds writes memp range.1 s.seg_pagesize g.1 in
                    let eq : out ≡ report s t g.1 = ground arith in
                    let end = (memp + range.1 / 8 * 8) % word in
                    let calm =
                      touch_loop-Calm rounds writes memp end (s.seg_pagesize / 8 * 8) g.1 v in
                    rw eq (report-Calm s t g.1 c calm)
              ]
            ]
      ]
