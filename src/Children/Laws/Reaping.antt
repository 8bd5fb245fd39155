-- ===== src/Children/Laws/Reaping.antt =====
-- What a signal that arrives may do: note itself, and reap a child.
use memtoy.Base.{
  ℕ, zero, suc, ◌≡◌, ◌==◌, ◌⊎◌, refl, ◌∙◌, Bool, true, false, not, ◌&&◌, ◌||◌, Option, none, some,
  List, [], ◌∷◌, arith, Option-cases, inl, inr,
}
use memtoy.Context.{Segment, Child, Kernel, Call, Reply-cases, Context, tell}
use memtoy.Signals.{Handled, jumped, resumed, died, kills, signal_handler}
use memtoy.Children.Reaping.{find_by_pid, remove_pid, child_reap, sigcld_handler, deliver}
use memtoy.Children.Answers.{voice}
use memtoy.Children.Laws.Names.{distinct, distinct-remove_pid}

-- A list of children from which some have been taken.
pub data Fewer (l : List Child) : List Child → Type 0 where
  all_left : Fewer l l
  one_less : (pid : ℕ) {r : List Child} → Fewer l r → Fewer l (remove_pid pid r)

pub Fewer-trans : {l m r : List Child} → Fewer l m → Fewer m r → Fewer l r
Fewer-trans h all_left = h
Fewer-trans h (one_less pid g) = one_less pid (Fewer-trans h g)

pub Fewer-distinct : {l r : List Child} → Fewer l r → distinct l ≡ true → distinct r ≡ true
Fewer-distinct all_left d = d
Fewer-distinct (one_less pid {r} h) d = distinct-remove_pid pid r (Fewer-distinct h d)

remove_pid-empty : (pid : ℕ) (l : List Child) → l ≡ [] → remove_pid pid l ≡ []
unfolding remove_pid
remove_pid-empty pid l e = rw e refl

pub Fewer-empty : {l r : List Child} → Fewer l r → l ≡ [] → r ≡ []
Fewer-empty all_left e = e
Fewer-empty (one_less pid {r} h) e = remove_pid-empty pid r (Fewer-empty h e)

-- The segment table.
abbrev pub table : Context → List Segment × Option ℕ
table c = (c.seglist, c.seg_avail)

-- The table and the answers are the same, and no child has come.
pub record Reaped (c d : Context) : Type 0 where
  pub same_table : table d ≡ table c
  pub same_voice : voice d ≡ voice c
  pub fewer : Fewer c.children d.children

pub Reaped-refl : (c : Context) → Reaped c c
Reaped-refl c = record { same_table = refl; same_voice = refl; fewer = all_left }

pub Reaped-trans : {b c d : Context} → Reaped b c → Reaped c d → Reaped b d
Reaped-trans h g = record {
  same_table = g.same_table ∙ h.same_table;
  same_voice = g.same_voice ∙ h.same_voice;
  fewer = Fewer-trans h.fewer g.fewer;
}

abbrev pub ReapedBy : Context → Handled → Type 0
ReapedBy c (jumped d) = Reaped c d
ReapedBy c (resumed d) = Reaped c d
ReapedBy c (died code) = Unit
ReapedBy c (kills sig) = Unit

pub noted : (c : Context) (sig : ℕ) → ReapedBy c (signal_handler sig c)
unfolding signal_handler
noted c sig =
    let d = record c { siginfo = some sig } in
    let here : Reaped c d = record { same_table = refl; same_voice = refl; fewer = all_left } in
    let there : Reaped c (record d { sigjmp = false }) = record {
      same_table = refl;
      same_voice = refl;
      fewer = all_left;
    } in
    ground arith

child_reap-Reaped : (pid : ℕ) (c : Context) → Reaped c (child_reap pid c)
unfolding child_reap
child_reap-Reaped pid c = elim (Option-cases (find_by_pid pid c.children)) [
  | inl e ↦ rw (e, child_reap) (Reaped-refl c)
  | inr (ch, e) ↦
      rw (e, child_reap)
        (record { same_table = refl; same_voice = refl; fewer = one_less pid all_left })
]

module _ (kernel : Kernel) where
  sigcld_handler-Reaped : (c : Context) → Reaped c (sigcld_handler kernel c)
  unfolding sigcld_handler
  sigcld_handler-Reaped c =
      let c1 = tell Call.wait3 c in
      let called : Reaped c c1 = record {
        same_table = refl;
        same_voice = refl;
        fewer = all_left;
      } in
      elim (Reply-cases (kernel c.trace Call.wait3)) [
        | inl (e, k) ↦ rw (k, sigcld_handler) called
        | inr (zero, k) ↦ rw (k, sigcld_handler) called
        | inr (suc n, k) ↦
            rw (k, sigcld_handler) (Reaped-trans called (child_reap-Reaped (suc n) c1))
      ]

  pub deliver-Reaped : (sig : ℕ) (c : Context) → ReapedBy c (deliver kernel sig c)
  unfolding deliver
  deliver-Reaped sig c =
      let child = sigcld_handler-Reaped c in
      let own = noted c sig in let same = Reaped-refl c in ground arith

-- The running children have different process ids.
abbrev pub has_pid : ℕ → List Child → Bool
has_pid pid [] = false
has_pid pid (ch ∷ r) = (pid == ch.c_pid) || has_pid pid r

abbrev pub distinct_pids : List Child → Bool
distinct_pids [] = true
distinct_pids (ch ∷ r) = not (has_pid ch.c_pid r) && distinct_pids r

find_by_pid-none : (pid : ℕ) (l : List Child) → has_pid pid l ≡ false → find_by_pid pid l ≡ none
unfolding find_by_pid
find_by_pid-none pid [] h = refl
find_by_pid-none pid (ch ∷ r) h = ground (arith, find_by_pid-none pid r)

find_by_pid-remove_pid :
    (pid : ℕ) (l : List Child) → distinct_pids l ≡ true → find_by_pid pid (remove_pid pid l) ≡ none
unfolding find_by_pid remove_pid
find_by_pid-remove_pid pid [] h = refl
find_by_pid-remove_pid pid (ch ∷ r) h =
    ground (arith, find_by_pid-remove_pid pid r, find_by_pid-none pid r)

find_by_pid-other :
    (q pid : ℕ) (l : List Child)
    → (q == pid) ≡ false
    → find_by_pid q (remove_pid pid l) ≡ find_by_pid q l
unfolding find_by_pid remove_pid
find_by_pid-other q pid [] h = refl
find_by_pid-other q pid (ch ∷ r) h = ground (arith, find_by_pid-other q pid r h)

-- Where the children have different process ids: the end of a process that is no child in the list changes
-- nothing; the end of one in the list closes both its pipes, no child has its process id afterwards, and
-- every other process id stands for the child that it did.
pub child_reap-gone :
    (pid : ℕ) (c : Context)
    → distinct_pids c.children ≡ true
    → let d = child_reap pid c in
      ((find_by_pid pid c.children ≡ none) × (d ≡ c))
      ⊎ (ch : Child) × (find_by_pid pid c.children ≡ some ch)
        × (d.trace ≡ Call.close (some ch.c_rfd) ∷ Call.close (some ch.c_cfd) ∷ c.trace)
        × (find_by_pid pid d.children ≡ none)
        × ((q : ℕ) → (q == pid) ≡ false → find_by_pid q d.children ≡ find_by_pid q c.children)
unfolding child_reap
child_reap-gone pid c h = elim (Option-cases (find_by_pid pid c.children)) [
  | inl e ↦ inl (e, rw (e, child_reap) refl)
  | inr (ch, e) ↦ inr (
    ch,
    e,
    rw (e, child_reap) refl,
    rw (e, child_reap) (find_by_pid-remove_pid pid c.children h),
    λ q ne. rw (e, child_reap) (find_by_pid-other q pid c.children ne),
  )
]
