-- ===== src/Segment/Laws/Others/Steps.antt =====
-- Children, answers and the point to jump to under any call of the segment API.
use mathlib.Core.Path.{subst}
use memtoy.Base.{Bool, false, arith, ◌≡◌, refl, sym, ap, ◌∙◌}
use memtoy.Children.Answers.{outside, voice, Calm}
use memtoy.Children.Laws.Reaping.{Fewer, all_left, Fewer-trans}
use memtoy.Segment.Slots.{segment_get}
use memtoy.Segment.Laws.Access.{segment_touch-Reaped}
use memtoy.Context.{Kernel, Context}
use memtoy.Segment.Laws.Reach.{Step, Reach, start, step}
use memtoy.Segment.Laws.Others.Tables.{
  segment_get-outside, segment_lock_unlock-outside, segment_map-outside, segment_mbind-outside,
  segment_mprotect-outside, segment_range-outside, segment_register-outside, segment_remove-outside,
  segment_unmap-outside,
}
use memtoy.Segment.Laws.Others.Loops.{
  segment_cleanup-outside, segment_location-family, segment_location-calm, segment_show-outside,
}

-- The answers are the same, no child has come, and the point to jump to is armed only by a touch.
pub record Quiet (touching : Bool) (c d : Context) : Type 0 where
  pub spoken : voice d ≡ voice c
  pub calm : touching ≡ false → Calm c d
  pub fewer : Fewer c.children d.children

from_outside :
    {touching : Bool} (c : Context) {d : Context} → outside d ≡ outside c → Quiet touching c d
from_outside c h = record {
  spoken = ap (λ o. o.0) h;
  calm = λ t k. ap (λ o. o.2) h ∙ k;
  fewer = subst (Fewer c.children) (sym (ap (λ o. o.1) h)) all_left;
}

Quiet-trans :
    {touching : Bool} {b c d : Context}
    → Quiet touching b c
    → Quiet touching c d
    → Quiet touching b d
Quiet-trans h g = record {
  spoken = g.spoken ∙ h.spoken;
  calm = λ t k. g.calm t (h.calm t k);
  fewer = Fewer-trans h.fewer g.fewer;
}

-- No call of the segment API gives an answer or adds a child; a child that ends while memory is touched is
-- reaped.
pub Step-Quiet :
    {touching : Bool} (k : Kernel) (c : Context) {d : Context}
    → Step touching k c d
    → Quiet touching c d
Step-Quiet k c (Step.register type name r flags t) =
    from_outside c (segment_register-outside k type name r flags c)
Step-Quiet k c (Step.show name) = from_outside c (segment_show-outside k name c)
Step-Quiet k c (Step.remove name) = from_outside c (segment_remove-outside k name c)
Step-Quiet k c (Step.unmap name) = from_outside c (segment_unmap-outside k name c)
Step-Quiet k c (Step.map name r flags) = from_outside c (segment_map-outside k name r flags c)
Step-Quiet {touching} k c (Step.touch rounds name r writes t) =
    let g = segment_get k name c in
    let h = segment_touch-Reaped k rounds name r writes c in
    let searched : Quiet touching c g.1 = from_outside c (segment_get-outside k name c) in
    Quiet-trans searched
      (record { spoken = h.same_voice; calm = λ f. absurd (ground (arith, t, f)); fewer = h.fewer })
Step-Quiet k c (Step.mbind name r policy mask flags) =
    from_outside c (segment_mbind-outside k name r policy mask flags c)
Step-Quiet k c (Step.location rounds name r) =
    let h = segment_location-family k rounds name r c in
    record {
      spoken = ap (λ o. o.0) h;
      calm = λ f. segment_location-calm k rounds name r c;
      fewer = subst (Fewer c.children) (sym (ap (λ o. o.1) h)) all_left;
    }
Step-Quiet k c (Step.lock_unlock name r lock shm) =
    from_outside c (segment_lock_unlock-outside k name r lock shm c)
Step-Quiet k c (Step.range name) = from_outside c (segment_range-outside k name c)
Step-Quiet k c (Step.mprotect name prot) = from_outside c (segment_mprotect-outside k name prot c)
Step-Quiet k c Step.clean = from_outside c (segment_cleanup-outside c)

pub Reach-Quiet :
    {touching : Bool} (k : Kernel) (c : Context) {d : Context}
    → Reach touching k c d
    → Quiet touching c d
Reach-Quiet k c start = record { spoken = refl; calm = λ t h. h; fewer = all_left }
Reach-Quiet k c (step {d} h s) = Quiet-trans (Reach-Quiet k c h) (Step-Quiet k d s)
