-- ===== src/Segment/Laws/Access.antt =====
-- The touch loop and `segment_touch`: the table, the answers and the list of children.
use mathlib.Core.Path.{subst}
use memtoy.Base.{
  ℕ, zero, suc, ◌+◌, ◌%◌, ◌*◌, ◌/◌, ◌&&◌, ◌≡◌, refl, ap, Bool, true, Option, none, some, Text, ltb,
  arith, word, Option-cases, Bool-cases, inl, inr,
}
use memtoy.Context.{
  Segment, Range, Kernel, Context, Reply-cases, segment_at, has_flag, segf_maps, tell,
}
use memtoy.Signals.{jumped, resumed, died, kills, signal_handler, reset_signal}
use memtoy.Children.Reaping.{deliver}
use memtoy.Children.Laws.Reaping.{
  Reaped, ReapedBy, Reaped-refl, Reaped-trans, all_left, deliver-Reaped, noted,
}
use memtoy.Segment.Slots.{segment_get}
use memtoy.Segment.Round.{clip}
use memtoy.Segment.Touch.{
  Touched, finished, stopped, struck, unfinished, access_call, fault_signal, after_access,
  touch_one, touch_loop, touch_memory, segment_touch, report,
}

abbrev pub SameTable : Context → Context → Type 0
SameTable c c' = (c'.seglist ≡ c.seglist) × (c'.seg_avail ≡ c.seg_avail)

-- The context in which the loop ends.
abbrev pub last_context : Context → Touched → Context
last_context c (finished c') = c'
last_context c (stopped code c') = c'
last_context c (struck sig c') = c'
last_context c unfinished = c

pub report-last : (s : Segment) (t : Touched) (c : Context) → (report s t c).1 ≡ last_context c t
report-last s (finished c') c = refl
report-last s (stopped code c') c = refl
report-last s (struck sig c') c = refl
report-last s unfinished c = refl

-- One round: nothing but the signal that is noted, and children that are reaped.
RoundReaped : Context → Option Context × Touched → Type 0
RoundReaped c (some d, end) = Reaped c d
RoundReaped c (none, end) = Reaped c (last_context c end)

last-Reaped :
    (c0 c : Context) (t : Touched)
    → Reaped c0 c
    → Reaped c (last_context c t)
    → Reaped c0 (last_context c0 t)
last-Reaped c0 c (finished d) h g = Reaped-trans h g
last-Reaped c0 c (stopped code d) h g = Reaped-trans h g
last-Reaped c0 c (struck sig d) h g = Reaped-trans h g
last-Reaped c0 c unfinished h g = Reaped-refl c0

round-over :
    (c : Context) (x : Option Context × Touched)
    → RoundReaped c x
    → x.0 ≡ none
    → Reaped c (last_context c x.1)
unfolding RoundReaped
round-over c (none, end) h e = h
round-over c (some d, end) h e = absurd (ground (arith, e))

round-next :
    (c d : Context) (x : Option Context × Touched) → RoundReaped c x → x.0 ≡ some d → Reaped c d
unfolding RoundReaped
round-next c d (none, end) h e = absurd (ground (arith, e))
round-next c d (some d', end) h e = (let eq : d' ≡ d = cc in subst (Reaped c) eq h)

reset_signal-Reaped : (c d : Context) → Reaped c d → Reaped c (reset_signal d)
unfolding reset_signal
reset_signal-Reaped c d h =
    Reaped-trans h (record { same_table = refl; same_voice = refl; fewer = all_left })

after_access-Reaped : (c d : Context) → Reaped c d → RoundReaped c (after_access d)
unfolding RoundReaped
after_access-Reaped c d h = elim (Option-cases d.siginfo) [
  | inl e ↦
      rw (e, after_access)
        (Reaped-trans h (record { same_table = refl; same_voice = refl; fewer = all_left }))
  | inr (sig, e) ↦ rw (e, after_access) (reset_signal-Reaped c d h)
]

module _ (kernel : Kernel) where
  touch_one-Reaped :
      (writes : Bool) (pp : ℕ) (c : Context) → RoundReaped c (touch_one kernel writes pp c)
  unfolding touch_one RoundReaped
  touch_one-Reaped writes pp c =
      let call = access_call writes pp in
      let c1 = tell call (record c { sigjmp = true }) in
      let called : Reaped c c1 = record {
        same_table = refl;
        same_voice = ground arith;
        fewer = all_left;
      } in
      let one = touch_one kernel writes pp c in
      elim (Reply-cases (kernel c.trace call)) [
        | inl (e, k) ↦
            elim (signal_handler (fault_signal e) c1)
                as (λ a.
                  signal_handler (fault_signal e) c1 ≡ a → ReapedBy c1 a → RoundReaped c one) [
                    | jumped d ↦ λ q h.
                        rw (k, touch_one)
                          (rw (q, touch_one) (reset_signal-Reaped c d (Reaped-trans called h)))
                    | resumed d ↦
                        λ q h. rw (k, touch_one) (rw (q, touch_one) (Reaped-trans called h))
                    | died code ↦ λ q h. rw (k, touch_one) (rw (q, touch_one) called)
                    | kills sig ↦ λ q h. rw (k, touch_one) (rw (q, touch_one) called)
                  ]
              refl (noted c1 (fault_signal e))
        | inr (zero, k) ↦ rw (k, touch_one) (after_access-Reaped c c1 called)
        | inr (suc n, k) ↦
            elim (deliver kernel (suc n) c1)
                as (λ a. deliver kernel (suc n) c1 ≡ a → ReapedBy c1 a → RoundReaped c one) [
                  | jumped d ↦ λ q h.
                      rw (k, touch_one)
                        (rw (q, touch_one) (reset_signal-Reaped c d (Reaped-trans called h)))
                  | resumed d ↦ λ q h.
                      rw (k, touch_one)
                        (rw (q, touch_one) (after_access-Reaped c d (Reaped-trans called h)))
                  | died code ↦ λ q h. rw (k, touch_one) (rw (q, touch_one) called)
                  | kills sig ↦ λ q h. rw (k, touch_one) (rw (q, touch_one) called)
                ]
              refl (deliver-Reaped kernel (suc n) c1)
      ]

  touch_loop-Reaped :
      (rounds : ℕ) (writes : Bool) (pp memend stride : ℕ) (c0 c : Context)
      → Reaped c0 c
      → Reaped c0 (last_context c0 (touch_loop kernel rounds writes pp memend stride c))
  unfolding touch_loop
  touch_loop-Reaped zero writes pp memend stride c0 c h = Reaped-refl c0
  touch_loop-Reaped (suc rounds) writes pp memend stride c0 c h =
      let out = touch_loop kernel (suc rounds) writes pp memend stride c in
      let one = touch_one kernel writes pp c in
      let round = touch_one-Reaped writes pp c in
      elim (Bool-cases (ltb pp memend)) [
        | inr e ↦ (let eq : out ≡ finished c = ground arith in rw eq h)
        | inl e ↦ elim (Option-cases one.0) [
          | inl n ↦
              (let eq : out ≡ one.1 = ground arith in
                rw eq (last-Reaped c0 c one.1 h (round-over c one round n)))
          | inr (c', n) ↦
              let pp' = (pp + stride) % word in
              let eq : out ≡ touch_loop kernel rounds writes pp' memend stride c' = ground arith in
              rw eq (
                touch_loop-Reaped rounds writes pp' memend stride c0 c'
                  (Reaped-trans h (round-next c c' one round n)))
        ]
      ]

  pub segment_touch-Reaped :
      (rounds : ℕ) (name : Text) (r : Range) (writes : Bool) (c : Context)
      → Reaped (segment_get kernel name c).1 (segment_touch kernel rounds name r writes c).1
  unfolding segment_touch touch_memory
  segment_touch-Reaped rounds name r writes c =
      let g = segment_get kernel name c in
      let v1 = Reaped-refl g.1 in
      let out = segment_touch kernel rounds name r writes c in
      elim (Option-cases g.0) [
        | inl e ↦ (let eq : out.1 ≡ g.1 = ground arith in rw eq v1)
        | inr (p, e) ↦
            let s = segment_at g.1 p in
            elim (Bool-cases (writes && has_flag s.seg_flags segf_maps)) [
              | inl w ↦ (let eq : out.1 ≡ g.1 = ground arith in rw eq v1)
              | inr w ↦ elim (Option-cases (clip r s)) [
                | inl n ↦ (let eq : out.1 ≡ g.1 = ground arith in rw eq v1)
                | inr (range, n) ↦
                    let memp = (s.seg_start + range.0) % word in
                    let t = touch_memory kernel rounds writes memp range.1 s.seg_pagesize g.1 in
                    let eq : out ≡ report s t g.1 = ground arith in
                    let end = (memp + range.1 / 8 * 8) % word in
                    rw eq (
                      rw report-last (
                        touch_loop-Reaped rounds writes memp end (s.seg_pagesize / 8 * 8) g.1 g.1
                          (Reaped-refl g.1)))
              ]
            ]
      ]

  pub segment_touch-same :
      (rounds : ℕ) (name : Text) (r : Range) (writes : Bool) (c : Context)
      → SameTable (segment_get kernel name c).1 (segment_touch kernel rounds name r writes c).1
  segment_touch-same rounds name r writes c =
      let h = segment_touch-Reaped rounds name r writes c in
      (ap (λ t. t.0) h.same_table, ap (λ t. t.1) h.same_table)
