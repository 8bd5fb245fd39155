-- ===== src/Command/Laws/Codes.antt =====
-- How a command may end the process: the codes it exits with, and the signals that kill it.
use memtoy.Base.{
  ℕ, zero, suc, ◌+◌, ◌*◌, ◌/◌, ◌%◌, ◌==◌, ◌&&◌, ◌||◌, ◌≡◌, refl, Bool, true, false, not, Text, skip,
  word, arith, Option-cases, Bool-cases, inl, inr,
}
use memtoy.Context.{
  Segment, Range, Kernel, Call, Reply-cases, Context, tell, segment_at, Outcome, returned, exited,
  killed, crashed, has_flag, segf_maps,
}
use memtoy.Signals.{Handled, jumped, resumed, died, kills, signals_to_handle, signal_handler}
use memtoy.Args.Sizes.{whitespace, get_range, get_arg_seconds}
use memtoy.Children.Reaping.{sigcld, is_among, deliver}
use memtoy.Segment.Slots.{segment_get}
use memtoy.Segment.Round.{clip}
use memtoy.Segment.Touch.{
  Touched, finished, stopped, struck, unfinished, access_call, fault_signal, report, touch_one,
  touch_loop, touch_memory, segment_touch,
}
use memtoy.Children.Spawn.{Spawned, in_parent, in_child, child_exits}
use memtoy.Command.Common.{first_arg, no_range}
use memtoy.Command.Segments.{touch_seg}
use memtoy.Command.Waiting.{wait_call, pause_me, snooze}

-- The codes that the program exits with.
abbrev pub is_code : ℕ → Bool
is_code code = (code == 0) || (code == 1) || (code == 4) || (code == 8)

-- A signal that kills the process is one for which there is no handler.
abbrev pub has_handler : ℕ → Bool
has_handler sig = (sig == sigcld) || is_among sig signals_to_handle

abbrev pub lawful : Outcome → Bool
lawful (returned b) = true
lawful (exited code) = is_code code
lawful (killed sig) = not (has_handler sig)
lawful (crashed f) = true

abbrev pub lawful_handled : Handled → Bool
lawful_handled (jumped c) = true
lawful_handled (resumed c) = true
lawful_handled (died code) = is_code code
lawful_handled (kills sig) = not (has_handler sig)

abbrev lawful_touched : Touched → Bool
lawful_touched (finished c) = true
lawful_touched (stopped code c) = is_code code
lawful_touched (struck sig c) = not (has_handler sig)
lawful_touched unfinished = true

abbrev pub lawful_spawned : Spawned → Bool
lawful_spawned (in_parent out c) = lawful out
lawful_spawned (in_child c) = true
lawful_spawned (child_exits code c) = is_code code

signal_handler-lawful : (sig : ℕ) (c : Context) → lawful_handled (signal_handler sig c) ≡ true
unfolding signal_handler
signal_handler-lawful sig c = ground arith

report-lawful :
    (s : Segment) (t : Touched) (c : Context)
    → lawful_touched t ≡ true
    → lawful (report s t c).0 ≡ true
report-lawful s (finished d) c h = elim (Bool-cases (s.seg_pagesize == 0)) [
  | inl q ↦ rw (q, report) refl
  | inr q ↦ rw (q, report) refl
]
report-lawful s (stopped code d) c h = h
report-lawful s (struck sig d) c h = h
report-lawful s unfinished c h = refl

module _ (kernel : Kernel) where
  pub deliver-lawful : (sig : ℕ) (c : Context) → lawful_handled (deliver kernel sig c) ≡ true
  unfolding deliver
  deliver-lawful sig c = let h = signal_handler-lawful sig c in ground arith

  touch_one-lawful :
      (writes : Bool) (pp : ℕ) (c : Context)
      → lawful_touched (touch_one kernel writes pp c).1 ≡ true
  unfolding touch_one
  touch_one-lawful writes pp c =
      let call = access_call writes pp in
      let c1 = tell call (record c { sigjmp = true }) in
      elim (Reply-cases (kernel c.trace call)) [
        | inl (e, k) ↦ (let h = signal_handler-lawful (fault_signal e) c1 in ground arith)
        | inr (zero, k) ↦ ground arith
        | inr (suc n, k) ↦ (let h = deliver-lawful (suc n) c1 in ground arith)
      ]

  touch_loop-lawful :
      (rounds : ℕ) (writes : Bool) (pp memend stride : ℕ) (c : Context)
      → lawful_touched (touch_loop kernel rounds writes pp memend stride c) ≡ true
  unfolding touch_loop
  touch_loop-lawful zero writes pp memend stride c = refl
  touch_loop-lawful (suc rounds) writes pp memend stride c =
      let one = touch_one-lawful writes pp c in
      let again : (d : Context)
          → lawful_touched (touch_loop kernel rounds writes ((pp + stride) % word) memend stride d)
            ≡ true =
        λ d. touch_loop-lawful rounds writes ((pp + stride) % word) memend stride d in
      elim (Option-cases (touch_one kernel writes pp c).0) [
        | inl e ↦ ground arith
        | inr (d, e) ↦ ground (arith, again d)
      ]

  segment_touch-lawful :
      (rounds : ℕ) (name : Text) (r : Range) (writes : Bool) (c : Context)
      → lawful (segment_touch kernel rounds name r writes c).0 ≡ true
  unfolding segment_touch touch_memory
  segment_touch-lawful rounds name r writes c =
      let g = segment_get kernel name c in
      let out = segment_touch kernel rounds name r writes c in
      elim (Option-cases g.0) [
        | inl e ↦ ground arith
        | inr (p, e) ↦
            let s = segment_at g.1 p in
            elim (Bool-cases (writes && has_flag s.seg_flags segf_maps)) [
              | inl w ↦ ground arith
              | inr w ↦ elim (Option-cases (clip r s)) [
                | inl n ↦ ground arith
                | inr (range, n) ↦
                    let memp = (s.seg_start + range.0) % word in
                    let t = touch_memory kernel rounds writes memp range.1 s.seg_pagesize g.1 in
                    let end = (memp + range.1 / 8 * 8) % word in
                    let eq : out ≡ report s t g.1 = ground arith in
                    rw eq (
                      report-lawful s t g.1
                        (touch_loop-lawful rounds writes memp end (s.seg_pagesize / 8 * 8) g.1))
              ]
            ]
      ]

  pub touch_seg-lawful :
      (rounds : ℕ) (args : Text) (c : Context) → lawful (touch_seg kernel rounds args c).0 ≡ true
  unfolding touch_seg
  touch_seg-lawful rounds args c =
      let name = (first_arg (skip whitespace args)).0 in
      elim (Option-cases (get_range c.pagesize (first_arg (skip whitespace args)).1 no_range)) [
        | inl e ↦ ground arith
        | inr ((r, rest), e) ↦ ground (
          arith,
          segment_touch-lawful rounds name r false c,
          segment_touch-lawful rounds name r true c,
        )
      ]

  wait_call-lawful : (call : Call) (c : Context) → lawful (wait_call kernel call c).0 ≡ true
  unfolding wait_call
  wait_call-lawful call c = elim (Reply-cases (kernel c.trace call)) [
    | inl (e, k) ↦ ground arith
    | inr (zero, k) ↦ ground arith
    | inr (suc n, k) ↦ (let h = deliver-lawful (suc n) (tell call c) in ground arith)
  ]

  pub pause_me-lawful : (c : Context) → lawful (pause_me kernel c).0 ≡ true
  unfolding pause_me
  pause_me-lawful c = let h = wait_call-lawful Call.pause c in ground arith

  pub snooze-lawful : (args : Text) (c : Context) → lawful (snooze kernel args c).0 ≡ true
  unfolding snooze
  snooze-lawful args c =
      let h = wait_call-lawful (Call.sleep (get_arg_seconds (skip whitespace args))) c in
      ground arith
