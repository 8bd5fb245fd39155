-- ===== src/Command/Laws/Voice.antt =====
-- The answers of a process, and the point to jump to, under signals, waiting and the operations on
-- children.
use memtoy.Children.Reaping.{child_reap, sigcld_handler, deliver}
use memtoy.Base.{
  ℕ, zero, suc, ◌≡◌, refl, ap, ◌∙◌, Bool, true, false, some, List, [], ◌∷◌, ◌++◌, Text, text_eq,
  skip, first, next, take_until, drop_until, ◌==◌, arith, if◌then◌else◌, inl, inr, Option-cases,
  Bool-cases, is_empty,
}
use memtoy.Context.{
  Child, Kernel, Call, Reply-cases, Context, tell, returned, exited, killed, crashed,
}
use memtoy.Signals.{Handled, jumped, resumed, died, kills, signal_handler, reset_signal}
use memtoy.Args.Sizes.{whitespace, get_arg_seconds, bogus_seconds}
use memtoy.Children.{free_from, children_free, child_respond, child_send, child_delim, find_by_name}
use memtoy.Children.Answers.{is_answer, answered, voice, tone}
use memtoy.Children.Spawn.{
  Spawned, in_parent, in_child, child_exits, read_end, write_end, close_pipe, start_child,
  fork_child, make_child, child_spawn,
}
use memtoy.Children.Laws.Reaping.{ReapedBy, deliver-Reaped}
use memtoy.Children.Laws.Spawning.{Answer-cases}
use memtoy.Segment.Laws.Arming.{CalmOut}
use memtoy.Command.Common.{first_arg}
use memtoy.Command.Waiting.{wait_call, pause_me, snooze}

-- A command to a child ends with a newline, so that it is never the text of an answer.
not_answer : (fd : ℕ) (s : Text) → is_answer (Call.write fd (s ++ 10 ∷ [])) ≡ false
unfolding text_eq
not_answer fd [] = refl
not_answer fd (a ∷ []) = ground arith
not_answer fd (a ∷ b ∷ []) = ground arith
not_answer fd (a ∷ b ∷ d ∷ s) = ground arith

-- A process with a name gives one answer, and keeps the name.
pub respond-some :
    (name : Text) (c : Context)
    → c.child_name ≡ some name
    → ((child_respond c).child_name ≡ some name)
      × (answered (child_respond c).trace ≡ suc (answered c.trace))
      × ((child_respond c).sigjmp ≡ c.sigjmp)
unfolding child_respond text_eq
respond-some name c h = rw (h, child_respond) (h, refl, refl)

-- What `child_spawn` does to the answers: none in the parent, and one in the new process, under the
-- new name.
abbrev pub SpeaksSpawn : Context → Spawned → Type 0
SpeaksSpawn c (in_parent out d) = tone d ≡ tone c
SpeaksSpawn c (in_child d) =
    (name : Text) × (d.child_name ≡ some name)
    × (answered d.trace ≡ suc (answered c.trace))
    × (d.sigjmp ≡ c.sigjmp)
SpeaksSpawn c (child_exits code d) = Unit

-- A signal jumps only where the point is armed, and else leaves it as it is.
abbrev pub CalmHandled : Context → Handled → Type 0
CalmHandled c (jumped d) = c.sigjmp ≡ true
CalmHandled c (resumed d) = d.sigjmp ≡ c.sigjmp
CalmHandled c (died code) = Unit
CalmHandled c (kills sig) = Unit

abbrev pub SpeaksHandled : Context → Handled → Type 0
SpeaksHandled c (jumped d) = voice d ≡ voice c
SpeaksHandled c (resumed d) = voice d ≡ voice c
SpeaksHandled c (died code) = Unit
SpeaksHandled c (kills sig) = Unit

free_from-tone :
    (do_kill : Bool) (l : List Child) (c : Context) → tone (free_from do_kill l c) ≡ tone c
unfolding free_from
free_from-tone do_kill [] c = refl
free_from-tone true (ch ∷ l) c =
    ground (arith, free_from-tone true l (tell (Call.kill ch.c_pid 3) (record c { children = l })))
free_from-tone false (ch ∷ l) c = ground (arith, free_from-tone false l (record c { children = l }))

module _ (kernel : Kernel) where
  pub child_send-tone :
      (room : Bool) (s : Text) (c : Context) → tone (child_send kernel room s c).1 ≡ tone c
  unfolding child_send
  child_send-tone room s c =
      let name = take_until child_delim (skip child_delim s) in
      let after = drop_until child_delim (skip child_delim s) in
      let rest = skip whitespace (next after) in
      let body : Text = if first after == b'/' then b'/' ∷ rest else rest in
      elim (Option-cases (find_by_name name c.children)) [
        | inl e ↦ ground arith
        | inr (ch, e) ↦ ground (arith, not_answer ch.c_cfd body)
      ]

  pub deliver-voice : (sig : ℕ) (c : Context) → SpeaksHandled c (deliver kernel sig c)
  deliver-voice sig c =
      elim (deliver kernel sig c) as (λ a. ReapedBy c a → SpeaksHandled c a) [
        | jumped d ↦ λ r. r.same_voice
        | resumed d ↦ λ r. r.same_voice
        | died code ↦ λ r. tt
        | kills sig' ↦ λ r. tt
      ]
        (deliver-Reaped kernel sig c)

  wait_call-voice :
      (call : Call) (c : Context)
      → is_answer call ≡ false
      → voice (wait_call kernel call c).1 ≡ voice c
  unfolding wait_call
  wait_call-voice call c h =
      let c1 = tell call c in
      let h1 : voice c1 ≡ voice c = ground arith in
      let out = wait_call kernel call c in
      elim (Reply-cases (kernel c.trace call)) [
        | inl (e, k) ↦ rw (k, wait_call) h1
        | inr (zero, k) ↦ rw (k, wait_call) h1
        | inr (suc n, k) ↦
            elim (deliver kernel (suc n) c1)
                as (λ a.
                  deliver kernel (suc n) c1 ≡ a → SpeaksHandled c1 a → voice out.1 ≡ voice c) [
                    | jumped c2 ↦ λ e s. rw (k, wait_call) (rw (e, wait_call) (s ∙ h1))
                    | resumed c2 ↦ λ e s. rw (k, wait_call) (rw (e, wait_call) (s ∙ h1))
                    | died code ↦ λ e s. rw (k, wait_call) (rw (e, wait_call) h1)
                    | kills sig' ↦ λ e s. rw (k, wait_call) (rw (e, wait_call) h1)
                  ]
              refl (deliver-voice (suc n) c1)
      ]

  pub pause_me-voice : (c : Context) → voice (pause_me kernel c).1 ≡ voice c
  unfolding pause_me reset_signal
  pause_me-voice c = let h = wait_call-voice Call.pause c refl in ground arith

  pub snooze-voice : (args : Text) (c : Context) → voice (snooze kernel args c).1 ≡ voice c
  unfolding snooze
  snooze-voice args c =
      let seconds = get_arg_seconds (skip whitespace args) in
      let h = wait_call-voice (Call.sleep seconds) c refl in ground arith

  pub deliver-Calm : (sig : ℕ) (c : Context) → CalmHandled c (deliver kernel sig c)
  unfolding deliver sigcld_handler child_reap signal_handler
  deliver-Calm sig c = ground arith

  wait_call-Calm : (call : Call) (c : Context) → CalmOut c (wait_call kernel call c)
  unfolding wait_call
  wait_call-Calm call c =
      let c1 = tell call c in
      elim (Reply-cases (kernel c.trace call)) [
        | inl (e, k) ↦ rw (k, wait_call) (λ h. h)
        | inr (zero, k) ↦ rw (k, wait_call) (λ h. h)
        | inr (suc n, k) ↦
            elim (deliver kernel (suc n) c1)
                as (λ a.
                  deliver kernel (suc n) c1 ≡ a
                  → CalmHandled c1 a
                  → CalmOut c (wait_call kernel call c)) [
                    | jumped c2 ↦ λ e s. rw (k, wait_call) (rw (e, wait_call) tt)
                    | resumed c2 ↦ λ e s. rw (k, wait_call) (rw (e, wait_call) (λ h. s ∙ h))
                    | died code ↦ λ e s. rw (k, wait_call) (rw (e, wait_call) tt)
                    | kills sig' ↦ λ e s. rw (k, wait_call) (rw (e, wait_call) tt)
                  ]
              refl (deliver-Calm (suc n) c1)
      ]

  pub pause_me-Calm : (c : Context) → CalmOut c (pause_me kernel c)
  unfolding pause_me reset_signal
  pause_me-Calm c =
      elim (wait_call kernel Call.pause c).0
          as (λ o. (wait_call kernel Call.pause c).0 ≡ o → CalmOut c (pause_me kernel c)) [
            | returned b ↦ λ e. rw (e, pause_me) (λ h. refl)
            | exited code ↦ λ e. rw (e, pause_me) tt
            | killed sig ↦ λ e. rw (e, pause_me) tt
            | crashed f ↦ λ e. rw (e, pause_me) tt
          ]
        refl

  pub snooze-Calm : (args : Text) (c : Context) → CalmOut c (snooze kernel args c)
  unfolding snooze
  snooze-Calm args c =
      let seconds = get_arg_seconds (skip whitespace args) in
      let h = wait_call-Calm (Call.sleep seconds) c in
      elim (Bool-cases (is_empty (skip whitespace args))) [
        | inl e ↦ rw (e, snooze) (λ k. k)
        | inr e ↦ elim (Bool-cases (seconds == bogus_seconds)) [
          | inl q ↦ rw (e, snooze) (rw (q, snooze) (λ k. k))
          | inr q ↦ rw (e, snooze) (rw (q, snooze) h)
        ]
      ]

  start_child-Speaks :
      (name : Text) (p q : ℕ) (c : Context) → SpeaksSpawn c (start_child kernel name p q c)
  unfolding start_child children_free
  start_child-Speaks name p q c =
      let c1 = tell (Call.dup2 (read_end p) 0) c in
      let c2 = tell (Call.close (some (read_end q))) (close_pipe p c1) in
      let c3 = record c2 { child_name = some name; response_fd = write_end q } in
      let same = free_from-tone false c.children c3 in
      let own = respond-some name (children_free false c3) (ap (λ t. t.0.0) same) in
      elim (Answer-cases (kernel c.trace (Call.dup2 (read_end p) 0))) [
        | inl (e, h) ↦ rw (h, start_child) tt
        | inr (inl h) ↦
            rw (h, start_child)
              (name, own.0, own.1 ∙ ap (λ t. suc t.0.2) same, own.2 ∙ ap (λ t. t.1) same)
        | inr (inr (n, h)) ↦ rw (h, start_child) tt
      ]

  fork_child-Speaks :
      (name : Text) (p q : ℕ) (c : Context) → SpeaksSpawn c (fork_child kernel name p q c)
  unfolding fork_child
  fork_child-Speaks name p q c = elim (Answer-cases (kernel c.trace Call.fork)) [
    | inl (e, k) ↦ rw (k, fork_child) refl
    | inr (inl k) ↦ rw (k, fork_child) (start_child-Speaks name p q (tell Call.fork c))
    | inr (inr (n, k)) ↦ rw (k, fork_child) refl
  ]

  make_child-Speaks : (name : Text) (c : Context) → SpeaksSpawn c (make_child kernel name c)
  unfolding make_child
  make_child-Speaks name c =
      let c1 = tell Call.calloc c in
      let c2 = tell Call.pipe c1 in
      elim (Reply-cases (kernel c.trace Call.calloc)) [
        | inl (e, h) ↦ rw (h, make_child) refl
        | inr (v, h) ↦ elim (Reply-cases (kernel c1.trace Call.pipe)) [
          | inl (e, k) ↦ rw (h, make_child) (rw (k, make_child) refl)
          | inr (p, k) ↦ elim (Reply-cases (kernel c2.trace Call.pipe)) [
            | inl (e, m) ↦ rw (h, make_child) (rw (k, make_child) (rw (m, make_child) refl))
            | inr (q, m) ↦
                rw (h, make_child)
                  (rw (k, make_child)
                    (rw (m, make_child) (fork_child-Speaks name p q (tell Call.pipe c2))))
          ]
        ]
      ]

  pub child_spawn-Speaks : (args : Text) (c : Context) → SpeaksSpawn c (child_spawn kernel args c)
  unfolding child_spawn
  child_spawn-Speaks args c =
      let made = make_child-Speaks (first_arg (skip whitespace args)).0 c in
      let same : tone c ≡ tone c = refl in ground arith
