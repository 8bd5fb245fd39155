-- ===== src/Command/Laws/Waiting.antt =====
-- The tables under signals, waiting and the operations on children.
use memtoy.Children.Reaping.{sigcld, deliver}
use memtoy.Base.{
  ℕ, zero, suc, ◌≡◌, refl, ap, ◌∙◌, Bool, true, false, some, List, [], ◌∷◌, Text, text, skip, arith,
  inl, inr,
}
use memtoy.Context.{Child, Kernel, Call, Reply-cases, Context, tell}
use memtoy.Signals.{signals_to_handle, Handled, jumped, resumed, died, kills, reset_signal}
use memtoy.Segment.Valid.Updates.{IsValid, IsValid-same}
use memtoy.Args.Sizes.{whitespace, get_arg_seconds}
use memtoy.Children.{free_from, children_free, child_respond, child_send}
use memtoy.Children.Spawn.{
  Spawned, in_parent, in_child, child_exits, read_end, write_end, close_pipe, start_child,
  fork_child, make_child, child_spawn,
}
use memtoy.Children.Laws.Names.{distinct}
use memtoy.Children.Laws.Reaping.{Reaped, ReapedBy, Fewer-distinct, deliver-Reaped}
use memtoy.Children.Laws.Reach.{child_send-distinct}
use memtoy.Children.Laws.Spawning.{after_spawn, child_spawn-distinct}
use memtoy.Command.Common.{first_arg}
use memtoy.Command.Waiting.{wait_call, pause_me, snooze, set_each, set_signals}
use memtoy.Command.Laws.Tables.{IsSound, SameTables}

-- The table of segments has not changed.
pub record SameSegments (c d : Context) : Type 0 where
  pub same_seglist : d.seglist ≡ c.seglist
  pub same_avail : d.seg_avail ≡ c.seg_avail

abbrev spawn_context : Spawned → Context
spawn_context (in_parent out c) = c
spawn_context (in_child c) = c
spawn_context (child_exits code c) = c

pub tell-IsSound : (call : Call) (c : Context) → IsSound c → IsSound (tell call c)
tell-IsSound call c h = record {
  valid = IsValid-same c (tell call c) refl refl h.valid;
  names = h.names;
}

pub child_respond-IsSound : (c : Context) → IsSound c → IsSound (child_respond c)
unfolding child_respond
child_respond-IsSound c h =
    let answer = tell-IsSound (Call.write c.response_fd (text "OK")) c h in ground arith

pub free_from-segments :
    (do_kill : Bool) (l : List Child) (c : Context) → SameSegments c (free_from do_kill l c)
unfolding free_from
free_from-segments do_kill [] c = record { same_seglist = refl; same_avail = refl }
free_from-segments true (ch ∷ l) c =
    ground
      (arith, free_from-segments true l (tell (Call.kill ch.c_pid 3) (record c { children = l })))
free_from-segments false (ch ∷ l) c =
    ground (arith, free_from-segments false l (record c { children = l }))

pub reset_signal-IsSound : (c : Context) → IsSound c → IsSound (reset_signal c)
unfolding reset_signal
reset_signal-IsSound c h = record {
  valid = IsValid-same c (reset_signal c) refl refl h.valid;
  names = h.names;
}

-- A signal that arrives keeps the tables in order.
Reaped-IsSound : (c d : Context) → Reaped c d → IsSound c → IsSound d
Reaped-IsSound c d r h = record {
  valid = IsValid-same c d (ap (λ t. t.0) r.same_table) (ap (λ t. t.1) r.same_table) h.valid;
  names = Fewer-distinct r.fewer h.names;
}

-- What becomes of a process is in order: for one that goes on the tables, and the table of segments
-- for one that ends.
abbrev pub SoundSpawn : Spawned → Type 0
SoundSpawn (in_parent out c) = IsSound c
SoundSpawn (in_child c) = IsSound c
SoundSpawn (child_exits code c) = IsValid c

abbrev pub SoundHandled : Handled → Type 0
SoundHandled (jumped c) = IsSound c
SoundHandled (resumed c) = IsSound c
SoundHandled (died code) = Unit
SoundHandled (kills sig) = Unit

spawned-IsSound :
    (s : Spawned) → IsValid (spawn_context s) → distinct (after_spawn s) ≡ true → SoundSpawn s
spawned-IsSound (in_parent out c) v d = record { valid = v; names = d }
spawned-IsSound (in_child c) v d = record { valid = v; names = d }
spawned-IsSound (child_exits code c) v d = v

module _ (kernel : Kernel) where
  child_send-segments :
      (room : Bool) (s : Text) (c : Context) → SameSegments c (child_send kernel room s c).1
  unfolding child_send
  child_send-segments room s c = ground arith

  pub child_send-IsSound :
      (room : Bool) (s : Text) (c : Context) → IsSound c → IsSound (child_send kernel room s c).1
  child_send-IsSound room s c h =
      let same = child_send-segments room s c in
      record {
        valid =
            IsValid-same c (child_send kernel room s c).1 same.same_seglist same.same_avail h.valid;
        names = child_send-distinct kernel room s c ∙ h.names;
      }

  start_child-segments :
      (name : Text) (p q : ℕ) (c : Context)
      → SameSegments c (spawn_context (start_child kernel name p q c))
  unfolding start_child children_free child_respond
  start_child-segments name p q c =
      let c1 = tell (Call.dup2 (read_end p) 0) c in
      let c2 = tell (Call.close (some (read_end q))) (close_pipe p c1) in
      let c3 = record c2 { child_name = some name; response_fd = write_end q } in
      ground (arith, free_from-segments false c.children c3)

  fork_child-segments :
      (name : Text) (p q : ℕ) (c : Context)
      → SameSegments c (spawn_context (fork_child kernel name p q c))
  unfolding fork_child
  fork_child-segments name p q c = ground (arith, start_child-segments name p q (tell Call.fork c))

  make_child-segments :
      (name : Text) (c : Context) → SameSegments c (spawn_context (make_child kernel name c))
  unfolding make_child
  make_child-segments name c =
      let c1 = tell Call.calloc c in
      let c2 = tell Call.pipe c1 in
      elim (Reply-cases (kernel c1.trace Call.pipe)) [
        | inl (e, h) ↦ ground arith
        | inr (p, h) ↦ elim (Reply-cases (kernel c2.trace Call.pipe)) [
          | inl (e, k) ↦ ground arith
          | inr (q, k) ↦ ground (arith, fork_child-segments name p q (tell Call.pipe c2))
        ]
      ]

  child_spawn-segments :
      (args : Text) (c : Context) → SameSegments c (spawn_context (child_spawn kernel args c))
  unfolding child_spawn
  child_spawn-segments args c =
      ground (arith, make_child-segments (first_arg (skip whitespace args)).0 c)

  pub child_spawn-IsSound :
      (args : Text) (c : Context) → IsSound c → SoundSpawn (child_spawn kernel args c)
  child_spawn-IsSound args c h =
      let s = child_spawn kernel args c in
      let same = child_spawn-segments args c in
      spawned-IsSound s (IsValid-same c (spawn_context s) same.same_seglist same.same_avail h.valid)
        (child_spawn-distinct kernel args c h.names)

  pub deliver-IsSound : (sig : ℕ) (c : Context) → IsSound c → SoundHandled (deliver kernel sig c)
  deliver-IsSound sig c h =
      elim (deliver kernel sig c) as (λ a. ReapedBy c a → SoundHandled a) [
        | jumped d ↦ λ r. Reaped-IsSound c d r h
        | resumed d ↦ λ r. Reaped-IsSound c d r h
        | died code ↦ λ r. tt
        | kills sig' ↦ λ r. tt
      ]
        (deliver-Reaped kernel sig c)

  wait_call-IsSound : (call : Call) (c : Context) → IsSound c → IsSound (wait_call kernel call c).1
  unfolding wait_call
  wait_call-IsSound call c h =
      let c1 = tell call c in
      let h1 = tell-IsSound call c h in
      let out = wait_call kernel call c in
      elim (Reply-cases (kernel c.trace call)) [
        | inl (e, k) ↦ rw (k, wait_call) h1
        | inr (zero, k) ↦ rw (k, wait_call) h1
        | inr (suc n, k) ↦
            elim (deliver kernel (suc n) c1)
                as (λ a. deliver kernel (suc n) c1 ≡ a → SoundHandled a → IsSound out.1) [
                  | jumped c2 ↦ λ e s. rw (k, wait_call) (rw (e, wait_call) s)
                  | resumed c2 ↦ λ e s. rw (k, wait_call) (rw (e, wait_call) s)
                  | died code ↦ λ e s. rw (k, wait_call) (rw (e, wait_call) h1)
                  | kills sig' ↦ λ e s. rw (k, wait_call) (rw (e, wait_call) h1)
                ]
              refl (deliver-IsSound (suc n) c1 h1)
      ]

  pub pause_me-IsSound : (c : Context) → IsSound c → IsSound (pause_me kernel c).1
  unfolding pause_me
  pause_me-IsSound c h =
      let (out, c1) = wait_call kernel Call.pause c in
      let h1 = wait_call-IsSound Call.pause c h in
      let h2 = reset_signal-IsSound c1 h1 in ground arith

  pub snooze-IsSound : (args : Text) (c : Context) → IsSound c → IsSound (snooze kernel args c).1
  unfolding snooze
  snooze-IsSound args c h =
      let seconds = get_arg_seconds (skip whitespace args) in
      let h1 = wait_call-IsSound (Call.sleep seconds) c h in ground arith

  set_each-same : (l : List ℕ) (c : Context) → SameTables c (set_each kernel l c).1
  unfolding set_each
  set_each-same [] c = ground arith
  set_each-same (s ∷ r) c = ground (arith, set_each-same r (tell (Call.sigaction s) c))

  pub set_signals-same : (c : Context) → SameTables c (set_signals kernel c).1
  unfolding set_signals
  set_signals-same c =
      let c1 = (set_each kernel signals_to_handle c).1 in
      ground (arith, set_each-same signals_to_handle c, set_each-same (sigcld ∷ []) c1)
