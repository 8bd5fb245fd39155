-- ===== src/Children/Laws/Freeing.antt =====
-- `children_free`.
use memtoy.Base.{◌≡◌, refl, arith, Bool, true, false, List, [], ◌∷◌}
use memtoy.Context.{Child, Call, Context}
use memtoy.Signals.{sigquit}
use memtoy.Children.{free_from, child_respond, children_free}

free_from-empty :
    (do_kill : Bool) (l : List Child) (c : Context)
    → c.children ≡ l
    → (free_from do_kill l c).children ≡ []
unfolding free_from
free_from-empty do_kill [] c h = h
free_from-empty true (x ∷ l) c h = free_from-empty true l _ refl
free_from-empty false (x ∷ l) c h = free_from-empty false l _ refl

-- The calls of `kill` on the list, on top of a history.
abbrev pub kills : List Child → List Call → List Call
kills [] trace = trace
kills (ch ∷ r) trace = kills r (Call.kill ch.c_pid sigquit ∷ trace)

free_from-kills : (l : List Child) (c : Context) → (free_from true l c).trace ≡ kills l c.trace
unfolding free_from
free_from-kills [] c = refl
free_from-kills (x ∷ l) c = free_from-kills l _

free_from-silent : (l : List Child) (c : Context) → (free_from false l c).trace ≡ c.trace
unfolding free_from
free_from-silent [] c = refl
free_from-silent (x ∷ l) c = free_from-silent l _

-- Freeing the children empties the list; it sends SIGQUIT to every child once, in order, if it is
-- asked to, and else makes no call.
pub children_free-lem :
    (c : Context)
    → ((children_free true c).children ≡ [])
      × ((children_free true c).trace ≡ kills c.children c.trace)
      × ((children_free false c).children ≡ [])
      × ((children_free false c).trace ≡ c.trace)
unfolding children_free
children_free-lem c = (
  free_from-empty true c.children c refl,
  free_from-kills c.children c,
  free_from-empty false c.children c refl,
  free_from-silent c.children c,
)

-- Neither the freeing in the child nor its first answer leaves a child in the list.
pub emptied : (c : Context) → (child_respond (children_free false c)).children ≡ []
unfolding child_respond
emptied c = ground (arith, (children_free-lem c).2)
