-- ===== src/Segment/Touch.antt =====
-- `touch_memory` of memtoy.c and `segment_touch` of segment.c.
use memtoy.Base.{
  ℕ, zero, suc, ◌+◌, ◌*◌, ◌/◌, ◌%◌, Bool, true, false, ◌&&◌, Option, none, some, Text, word, ltb,
  ◌==◌, if◌then◌else◌,
}
use memtoy.Context.{
  Segment, Range, Kernel, failed, value, Call, Context, sys, segment_at, has_flag, segf_maps,
  Outcome, exited, killed, crashed, divide_by_zero, endless, seg_ok, seg_err,
}
use memtoy.Signals.{sigbus, sigsegv, jumped, resumed, died, kills, signal_handler, reset_signal}
use memtoy.Children.Reaping.{deliver}
use memtoy.Segment.Slots.{segment_get}
use memtoy.Segment.Round.{clip}

-- How the loop ends: normally or by a signal, by `exit`, with the process killed, or not within the rounds
-- given.
pub data Touched : Type 0 where
  finished : Context → Touched
  stopped : ℕ → Context → Touched
  struck : ℕ → Context → Touched
  unfinished : Touched

-- The access to one long. A failed access raises the signal of its number, SIGBUS or else SIGSEGV;
-- an answer other than 0 is a signal that arrives meanwhile.
abbrev pub access_call : Bool → ℕ → Call
access_call writes pp = if writes then Call.poke pp else Call.peek pp

abbrev pub fault_signal : ℕ → ℕ
fault_signal e = if e == sigbus then sigbus else sigsegv

-- The count of pages that is printed afterwards divides by the page size.
abbrev pub report : Segment → Touched → Context → Outcome × Context
report s (finished c') c = (if s.seg_pagesize == 0 then crashed divide_by_zero else seg_ok, c')
report s (stopped code c') c = (exited code, c')
report s (struck sig c') c = (killed sig, c')
report s unfinished c = (crashed endless, c)

-- What follows an access: a noted signal ends the loop.
abbrev pub after_access : Context → Option Context × Touched
after_access c = elim (c.siginfo) [
  | none ↦ (some (record c { sigjmp = false }), unfinished)
  | some sig ↦ (none, finished (reset_signal c))
]

module _ (kernel : Kernel) where
  -- One round of the loop body: the context to go on with, or the end of the loop.
  unfoldable pub touch_one : Bool → ℕ → Context → Option Context × Touched
  touch_one writes pp c =
      let (reply, c1) = sys kernel (access_call writes pp) (record c { sigjmp = true }) in
      elim reply [
        | failed e ↦ elim (signal_handler (fault_signal e) c1) [
          | jumped c2 ↦ (none, finished (reset_signal c2))
          | resumed c2 ↦ (none, finished c2)
          | died code ↦ (none, stopped code c1)
          | kills sig ↦ (none, struck sig c1)
        ]
        | value zero ↦ after_access c1
        | value (suc n) ↦ elim (deliver kernel (suc n) c1) [
          | jumped c2 ↦ (none, finished (reset_signal c2))
          | resumed c2 ↦ after_access c2
          | died code ↦ (none, stopped code c1)
          | kills sig ↦ (none, struck sig c1)
        ]
      ]

  -- The loop from `pp` up to `memend` in steps of `stride` bytes, for a number of rounds.
  unfoldable pub touch_loop : ℕ → Bool → ℕ → ℕ → ℕ → Context → Touched
  touch_loop zero writes pp memend stride c = unfinished
  touch_loop (suc rounds) writes pp memend stride c = elim (ltb pp memend) [
    | false ↦ finished c
    | true ↦
        let (more, end) = touch_one writes pp c in
        elim more [
          | some c' ↦ touch_loop rounds writes ((pp + stride) % word) memend stride c'
          | none ↦ end
        ]
  ]

  unfoldable pub touch_memory : ℕ → Bool → ℕ → ℕ → ℕ → Context → Touched
  touch_memory rounds writes memp memlen pagesize c =
      touch_loop rounds writes memp ((memp + memlen / 8 * 8) % word) (pagesize / 8 * 8) c

  unfoldable pub segment_touch : ℕ → Text → Range → Bool → Context → Outcome × Context
  segment_touch rounds name r writes c =
      let (found, c') = segment_get kernel name c in
      elim found [
        | none ↦ (seg_err, c')
        | some p ↦
            let s = segment_at c' p in
            if writes && has_flag s.seg_flags segf_maps then (seg_err, c') else elim (clip r s) [
              | none ↦ (seg_err, c')
              | some (offset, length) ↦
                  let memp = (s.seg_start + offset) % word in
                  report s (touch_memory rounds writes memp length s.seg_pagesize c') c'
            ]
      ]
