-- ===== src/Children/Laws/Reach.antt =====
-- The list of children after any sequence of operations.
use memtoy.Children.Reaping.{child_reap}
use memtoy.Base.{
  ℕ, suc, ◌≡◌, refl, sym, ap, ◌∙◌, Bool, true, false, [], Text, arith, Option-cases, inl, inr, skip,
  take_until,
}
use memtoy.Context.{Kernel, Context, Outcome}
use memtoy.Children.{find_by_name, children_free, child_kick, child_send, child_delim}
use memtoy.Children.Spawn.{in_parent, in_child, child_spawn}
use memtoy.Children.Laws.Names.{distinct, distinct-remove_pid, distinct-set_errs}
use memtoy.Children.Laws.Freeing.{children_free-lem}
use memtoy.Children.Laws.Spawning.{after_spawn, child_spawn-distinct}

module _ (kernel : Kernel) where
  pub child_send-distinct :
      (room : Bool) (cmd_str : Text) (c : Context)
      → distinct (child_send kernel room cmd_str c).1.children ≡ distinct c.children
  unfolding child_send
  child_send-distinct room cmd_str c =
      let name = take_until child_delim (skip child_delim cmd_str) in
      elim (Option-cases (find_by_name name c.children)) [
        | inl h ↦ ground arith
        | inr (ch, h) ↦ ground (
          arith,
          distinct-set_errs name 0 c.children,
          distinct-set_errs name (suc ch.c_errs) c.children,
        )
      ]

pub child_reap-distinct :
    (pid : ℕ) (c : Context)
    → distinct c.children ≡ true
    → distinct (child_reap pid c).children ≡ true
unfolding child_reap
child_reap-distinct pid c d = ground (arith, distinct-remove_pid pid c.children d)

pub child_kick-same : (args : Text) (c : Context) → (child_kick args c).1.children ≡ c.children
unfolding child_kick
child_kick-same args c = ground arith

-- One operation on the children, in the process that goes on with the command loop; the reaping may
-- come at any point.
pub data Step (kernel : Kernel) (c : Context) : Context → Type 0 where
  spawn :
      (args : Text) (out : Outcome) (d : Context)
      → child_spawn kernel args c ≡ in_parent out d
      → Step kernel c d
  forked : (args : Text) (d : Context) → child_spawn kernel args c ≡ in_child d → Step kernel c d
  send : (room : Bool) (line : Text) → Step kernel c (child_send kernel room line c).1
  kick : (args : Text) → Step kernel c (child_kick args c).1
  reap : (pid : ℕ) → Step kernel c (child_reap pid c)
  free : (do_kill : Bool) → Step kernel c (children_free do_kill c)

pub data Reach (kernel : Kernel) (c : Context) : Context → Type 0 where
  start : Reach kernel c c
  step : {d e : Context} → Reach kernel c d → Step kernel d e → Reach kernel c e

Step-distinct :
    (k : Kernel) (c : Context)
    → distinct c.children ≡ true
    → {d : Context} → Step k c d
    → distinct d.children ≡ true
Step-distinct k c h (spawn args out d e) =
    rw (ap after_spawn (sym e)) (child_spawn-distinct k args c h)
Step-distinct k c h (forked args d e) =
    rw (ap after_spawn (sym e)) (child_spawn-distinct k args c h)
Step-distinct k c h (send room line) = child_send-distinct k room line c ∙ h
Step-distinct k c h (kick args) = ap distinct (child_kick-same args c) ∙ h
Step-distinct k c h (reap pid) = child_reap-distinct pid c h
Step-distinct k c h (free do_kill) =
    elim do_kill as (λ b. distinct (children_free b c).children ≡ true) [
      | true ↦ ap distinct (children_free-lem c).0
      | false ↦ ap distinct (children_free-lem c).2
    ]

Reach-keeps :
    (k : Kernel) (c : Context)
    → distinct c.children ≡ true
    → {d : Context} → Reach k c d
    → distinct d.children ≡ true
Reach-keeps k c h start = h
Reach-keeps k c h (step {d} r s) = Step-distinct k d (Reach-keeps k c h r) s

-- From an empty list of children on, no sequence of spawning, sending, kicking, reaping and freeing,
-- with any arguments and any answers of the system, gives two children the same name.
pub Reach-distinct :
    (kernel : Kernel) (c : Context) {d : Context}
    → c.children ≡ []
    → Reach kernel c d
    → distinct d.children ≡ true
Reach-distinct kernel c e r = Reach-keeps kernel c (rw e refl) r
