-- ===== src/Command/Laws/Ran.antt =====
-- What becomes of a process with a command: the tables, the answers and the point to jump to, by how
-- the command ends.
use memtoy.Base.{ap, ◌∙◌, suc, ◌≡◌, some, Text, arith, inl, inr}
use memtoy.Context.{
  Kernel, Call, Reply-cases, Context, tell, Outcome, returned, exited, killed, crashed,
}
use memtoy.Segment.Valid.Updates.{IsValid}
use memtoy.Children.Spawn.{Spawned, in_parent, in_child, child_exits}
use memtoy.Children.Answers.{voice, answered, Calm}
use memtoy.Segment.Laws.Arming.{CalmOut}
use memtoy.Command.Laws.Voice.{SpeaksSpawn}
use memtoy.Command.Loop.{Ran, ran, ends, dies, faults, forks, ran_as, start_loop, spawned_as}
use memtoy.Command.Laws.Tables.{IsSound, same-IsSound}
use memtoy.Command.Laws.Waiting.{SoundSpawn}

-- The tables of a process that goes on are in order, and the table of segments of one that ends.
abbrev pub SoundRan : Ran → Type 0
SoundRan (ran b c) = IsSound c
SoundRan (ends code c) = IsValid c
SoundRan (dies sig c) = IsSound c
SoundRan (faults f c) = IsSound c
SoundRan (forks c) = IsSound c

pub ran_as-Sound : (o : Outcome × Context) → IsSound o.1 → SoundRan (ran_as o)
unfolding ran_as
ran_as-Sound (returned b, c) h = h
ran_as-Sound (exited code, c) h = h.valid
ran_as-Sound (killed sig, c) h = h
ran_as-Sound (crashed f, c) h = h

start_loop-Sound : (kernel : Kernel) (c : Context) → IsSound c → SoundRan (start_loop kernel c)
unfolding start_loop
start_loop-Sound kernel c h =
    let c1 = tell Call.setvbuf c in
    let h1 : IsSound c1 = same-IsSound c c1 (ground arith) h in
    elim (Reply-cases (kernel c.trace Call.setvbuf)) [
      | inl (e, k) ↦ rw (k, start_loop) h1.valid
      | inr (v, k) ↦ rw (k, start_loop) h1
    ]

pub spawned_as-Sound :
    (kernel : Kernel) (s : Spawned) → SoundSpawn s → SoundRan (spawned_as kernel s)
unfolding spawned_as
spawned_as-Sound kernel (in_parent out c) h = ran_as-Sound (out, c) h
spawned_as-Sound kernel (in_child c) h = start_loop-Sound kernel c h
spawned_as-Sound kernel (child_exits code c) h = h

-- What a command does to the answers of the process: none but in the child of a fork, where the new
-- process has a name and has given one.
abbrev pub SpeaksRan : Context → Ran → Type 0
SpeaksRan c (ran b d) = voice d ≡ voice c
SpeaksRan c (ends code d) = Unit
SpeaksRan c (dies sig d) = Unit
SpeaksRan c (faults f d) = Unit
SpeaksRan c (forks d) =
    (name : Text) × (d.child_name ≡ some name) × (answered d.trace ≡ suc (answered c.trace))

-- A command that is over, and the new process of a fork, has not armed the point to jump to.
abbrev pub CalmRan : Context → Ran → Type 0
CalmRan c (ran b d) = Calm c d
CalmRan c (ends code d) = Unit
CalmRan c (dies sig d) = Unit
CalmRan c (faults f d) = Unit
CalmRan c (forks d) = Calm c d

pub ran_as-Calm : (c : Context) (o : Outcome × Context) → CalmOut c o → CalmRan c (ran_as o)
unfolding ran_as
ran_as-Calm c (returned b, d) h = h
ran_as-Calm c (exited code, d) h = tt
ran_as-Calm c (killed sig, d) h = tt
ran_as-Calm c (crashed f, d) h = tt

pub all-CalmOut : (c : Context) (o : Outcome × Context) → Calm c o.1 → CalmOut c o
all-CalmOut c (returned b, d) h = h
all-CalmOut c (exited code, d) h = tt
all-CalmOut c (killed sig, d) h = tt
all-CalmOut c (crashed f, d) h = tt

pub ran_as-Speaks :
    (c : Context) (o : Outcome × Context) → voice o.1 ≡ voice c → SpeaksRan c (ran_as o)
unfolding ran_as
ran_as-Speaks c (returned b, d) h = h
ran_as-Speaks c (exited code, d) h = tt
ran_as-Speaks c (killed sig, d) h = tt
ran_as-Speaks c (crashed f, d) h = tt

pub spawned_as-Speaks :
    (kernel : Kernel) (c : Context) (s : Spawned)
    → SpeaksSpawn c s
    → SpeaksRan c (spawned_as kernel s) × CalmRan c (spawned_as kernel s)
unfolding spawned_as start_loop
spawned_as-Speaks kernel c (in_parent out d) h = (
  ran_as-Speaks c (out, d) (ap (λ t. t.0) h),
  ran_as-Calm c (out, d) (all-CalmOut c (out, d) (λ k. ap (λ t. t.1) h ∙ k)),
)
spawned_as-Speaks kernel c (in_child d) (name, e, n, q) =
    elim (Reply-cases (kernel d.trace Call.setvbuf)) [
      | inl (e', k) ↦ rw (k, start_loop) (tt, tt)
      | inr (v, k) ↦ rw (k, start_loop) ((name, e, n), λ h. q ∙ h)
    ]
spawned_as-Speaks kernel c (child_exits code d) h = (tt, tt)

-- The tables stay in order, the answers, and the point to jump to.
abbrev pub Kept : Context → Ran → Type 0
Kept c r = (IsSound c → SoundRan r) × SpeaksRan c r × CalmRan c r
