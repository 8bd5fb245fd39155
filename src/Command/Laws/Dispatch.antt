-- ===== src/Command/Laws/Dispatch.antt =====
-- The tables under each command of the table, as `parse_command` calls it.
use memtoy.Base.{ap, ◌∙◌, ℕ, ◌≡◌, refl, true, false, Text, arith}
use memtoy.Context.{Kernel, Context, Outcome}
use memtoy.Segment.Laws.Reach.{Reach, start}
use memtoy.Children.{child_kick}
use memtoy.Children.Spawn.{child_spawn}
use memtoy.Children.Answers.{voice}
use memtoy.Segment.Laws.Arming.{CalmOut}
use memtoy.Command.Laws.Touching.{touch_seg-Calm}
use memtoy.Segment.Laws.Others.Steps.{Reach-Quiet}
use memtoy.Command.Laws.Voice.{
  child_spawn-Speaks, pause_me-voice, snooze-voice, pause_me-Calm, snooze-Calm,
}
use memtoy.Command.Table.{Action, command, ambiguous, unrecognized, split_command}
use memtoy.Command.Creating.{anon_seg, file_seg, shmem_seg}
use memtoy.Command.Segments.{
  remove_seg, touch_seg, unmap_seg, map_seg, mbind_seg, where_seg, lock_unlock, show_seg,
  mprotect_seg,
}
use memtoy.Command.Waiting.{quit, pause_me, snooze}
use memtoy.Command.Nodes.{numa_info, migrate_process}
use memtoy.Command.Policies.{cpus, mems, mpol}
use memtoy.Command.Loop.{ran_as, dispatch, parse_command}
use memtoy.Command.Laws.Calls.{
  remove_seg-Reach, touch_seg-Reach, unmap_seg-Reach, map_seg-Reach, where_seg-Reach,
}
use memtoy.Command.Laws.Ranges.{
  lock_unlock-Reach, show_seg-Reach, mprotect_seg-Reach, mbind_seg-Reach,
}
use memtoy.Command.Laws.Creating.{anon_seg-Reach, file_seg-Reach, shmem_seg-Reach}
use memtoy.Command.Laws.Tables.{
  IsSound, SameTables, same-IsSound, Reach-IsSound, numa_info-same, migrate_process-same, cpus-same,
  mems-same, mpol-same,
}
use memtoy.Command.Laws.Waiting.{
  child_respond-IsSound, child_spawn-IsSound, pause_me-IsSound, snooze-IsSound,
}
use memtoy.Command.Laws.Ran.{
  SoundRan, SpeaksRan, CalmRan, Kept, ran_as-Sound, ran_as-Speaks, ran_as-Calm, all-CalmOut,
  spawned_as-Sound, spawned_as-Speaks,
}

child_kick-Same : (args : Text) (c : Context) → SameTables c (child_kick args c).1
unfolding child_kick
child_kick-Same args c = ground arith

module _ (kernel : Kernel) (rounds : ℕ) where
  -- A command that reaches its context by calls on the segments.
  from_calls : (c : Context) (o : Outcome × Context) → Reach false kernel c o.1 → Kept c (ran_as o)
  from_calls c o r = (
    λ h. ran_as-Sound o (Reach-IsSound kernel c r h),
    ran_as-Speaks c o (Reach-Quiet kernel c r).spoken,
    ran_as-Calm c o (all-CalmOut c o ((Reach-Quiet kernel c r).calm refl)),
  )

  -- A command that leaves the tables as they are.
  from_same : (c : Context) (o : Outcome × Context) → SameTables c o.1 → Kept c (ran_as o)
  from_same c o s = (
    λ h. ran_as-Sound o (same-IsSound c o.1 s h),
    ran_as-Speaks c o (ap (λ t. t.0) s.same_tone),
    ran_as-Calm c o (all-CalmOut c o (λ h. ap (λ t. t.1) s.same_tone ∙ h)),
  )

  -- A command that waits.
  from_wait :
      (c : Context) (o : Outcome × Context)
      → (IsSound c → IsSound o.1)
      → voice o.1 ≡ voice c
      → CalmOut c o
      → Kept c (ran_as o)
  from_wait c o s v k = (λ h. ran_as-Sound o (s h), ran_as-Speaks c o v, ran_as-Calm c o k)

  dispatch-Kept :
      (a : Action) (args : Text) (c : Context) → Kept c (dispatch kernel rounds a args c)
  unfolding dispatch quit ran_as
  dispatch-Kept Action.help_me args c = (λ h. h, refl, λ h. h)
  dispatch-Kept Action.quit args c = (λ h. (child_respond-IsSound c h).valid, tt, tt)
  dispatch-Kept Action.show_pid args c = (λ h. h, refl, λ h. h)
  dispatch-Kept Action.pause_me args c =
      from_wait c (pause_me kernel c) (pause_me-IsSound kernel c) (pause_me-voice kernel c)
        (pause_me-Calm kernel c)
  dispatch-Kept Action.numa_info args c = from_same c (numa_info kernel c) (numa_info-same kernel c)
  dispatch-Kept Action.migrate_process args c =
      from_same c (migrate_process kernel args c) (migrate_process-same kernel args c)
  dispatch-Kept Action.show_seg args c =
      let (out, rows, c') = show_seg kernel args c in
      from_calls c (out, c') (show_seg-Reach kernel c args c start)
  dispatch-Kept Action.anon_seg args c =
      from_calls c (anon_seg kernel args c) (anon_seg-Reach kernel c args c start)
  dispatch-Kept Action.file_seg args c =
      from_calls c (file_seg kernel args c) (file_seg-Reach kernel c args c start)
  dispatch-Kept Action.shmem_seg args c =
      from_calls c (shmem_seg kernel args c) (shmem_seg-Reach kernel c args c start)
  dispatch-Kept Action.remove_seg args c =
      from_calls c (remove_seg kernel args c) (remove_seg-Reach kernel c args c start)
  dispatch-Kept Action.map_seg args c =
      from_calls c (map_seg kernel args c) (map_seg-Reach kernel c args c start)
  dispatch-Kept Action.unmap_seg args c =
      from_calls c (unmap_seg kernel args c) (unmap_seg-Reach kernel c args c start)
  dispatch-Kept Action.lock_seg args c =
      from_calls c (lock_unlock kernel true false args c)
        (lock_unlock-Reach kernel c true false args c start)
  dispatch-Kept Action.unlock_seg args c =
      from_calls c (lock_unlock kernel false false args c)
        (lock_unlock-Reach kernel c false false args c start)
  dispatch-Kept Action.shm_lock_seg args c =
      from_calls c (lock_unlock kernel true true args c)
        (lock_unlock-Reach kernel c true true args c start)
  dispatch-Kept Action.shm_unlock_seg args c =
      from_calls c (lock_unlock kernel false true args c)
        (lock_unlock-Reach kernel c false true args c start)
  dispatch-Kept Action.touch_seg args c =
      let o = touch_seg kernel rounds args c in
      let r = touch_seg-Reach kernel c rounds args c start in
      from_wait c o (Reach-IsSound kernel c r) (Reach-Quiet kernel c r).spoken
        (touch_seg-Calm kernel rounds args c)
  dispatch-Kept Action.mbind_seg args c =
      from_calls c (mbind_seg kernel args c) (mbind_seg-Reach kernel c args c start)
  dispatch-Kept Action.where_seg args c =
      let (out, marks, c') = where_seg kernel rounds args c in
      from_calls c (out, c') (where_seg-Reach kernel c rounds args c start)
  dispatch-Kept Action.cpus args c =
      let (out, words, c') = cpus kernel args c in from_same c (out, c') (cpus-same kernel args c)
  dispatch-Kept Action.mems args c = from_same c (mems kernel args c) (mems-same kernel args c)
  dispatch-Kept Action.child_spawn args c =
      let s = child_spawn kernel args c in
      let (speaks, calm) = spawned_as-Speaks kernel c s (child_spawn-Speaks kernel args c) in
      (λ h. spawned_as-Sound kernel s (child_spawn-IsSound kernel args c h), speaks, calm)
  dispatch-Kept Action.child_kick args c = from_same c (child_kick args c) (child_kick-Same args c)
  dispatch-Kept Action.snooze args c =
      from_wait c (snooze kernel args c) (snooze-IsSound kernel args c) (snooze-voice kernel args c)
        (snooze-Calm kernel args c)
  dispatch-Kept Action.mpol args c = from_same c (mpol kernel args c) (mpol-same kernel args c)
  dispatch-Kept Action.mprotect_seg args c =
      from_calls c (mprotect_seg kernel args c) (mprotect_seg-Reach kernel c args c start)

  parse_command-Kept :
      (cmdline : Text) (c : Context) → Kept c (parse_command kernel rounds cmdline c)
  unfolding parse_command
  parse_command-Kept cmdline c =
      let (found, args) = split_command cmdline in
      elim found
          as (λ f. (split_command cmdline).0 ≡ f → Kept c (parse_command kernel rounds cmdline c)) [
            | command a ↦ λ e. rw (e, parse_command) (dispatch-Kept a args c)
            | ambiguous ↦ λ e. rw (e, parse_command) (λ h. h, refl, λ h. h)
            | unrecognized ↦ λ e. rw (e, parse_command) (λ h. h, refl, λ h. h)
          ]
        refl

  pub parse_command-Sound :
      (cmdline : Text) (c : Context) → IsSound c → SoundRan (parse_command kernel rounds cmdline c)
  parse_command-Sound cmdline c h = (parse_command-Kept cmdline c).0 h

  pub parse_command-Speaks :
      (cmdline : Text) (c : Context) → SpeaksRan c (parse_command kernel rounds cmdline c)
  parse_command-Speaks cmdline c = (parse_command-Kept cmdline c).1

  pub parse_command-Calm :
      (cmdline : Text) (c : Context) → CalmRan c (parse_command kernel rounds cmdline c)
  parse_command-Calm cmdline c = (parse_command-Kept cmdline c).2
