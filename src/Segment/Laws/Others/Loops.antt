-- ===== src/Segment/Laws/Others/Loops.antt =====
-- The operations with a loop over slots or pages: children, answers and the point to jump to.
use memtoy.Base.{
  ap, ℕ, zero, suc, ◌+◌, ◌%◌, ◌^◌, ◌==◌, ◌||◌, length, ◌≡◌, refl, ◌∙◌, Bool, Option, none, some,
  Text, word, arith,
}
use memtoy.Children.Answers.{outside, family, Calm}
use memtoy.Context.{Range, Kernel, Call, Context, tell}
use memtoy.Signals.{reset_signal}
use memtoy.Segment.Slots.{segment_get, free_seg_slot, cleanup_from, segment_cleanup}
use memtoy.Segment.Show.{get_node, location_loop, segment_location, segment_show}
use memtoy.Segment.Laws.Asking.{segment_location-ends}
use memtoy.Segment.Laws.Others.Tables.{segment_get-outside, free_seg_slot-outside}

module _ (kernel : Kernel) where
  pub segment_show-outside :
      (name : Option Text) (c : Context) → outside (segment_show kernel name c).2 ≡ outside c
  unfolding segment_show
  segment_show-outside none c = refl
  segment_show-outside (some name) c = ground (arith, segment_get-outside kernel name c)

  pub location_loop-family :
      (rounds apage end pagesize pgid : ℕ) (need_nl : Bool) (c : Context)
      → family (location_loop kernel rounds apage end pagesize pgid need_nl c).2 ≡ family c
  unfolding location_loop get_node reset_signal
  location_loop-family zero apage end pagesize pgid need_nl c = refl
  location_loop-family (suc rounds) apage end pagesize pgid need_nl c =
      let ih =
        location_loop-family rounds ((apage + pagesize) % word) end pagesize
          (((pgid + 1) % 2 ^ 32) % 2 ^ 32) (need_nl || (pgid % 8 == 0))
          (tell (Call.get_mempolicy apage) c) in
      ground (arith, ih)

  pub segment_location-family :
      (rounds : ℕ) (name : Text) (r : Range) (c : Context)
      → family (segment_location kernel rounds name r c).2 ≡ family c
  segment_location-family rounds name r c =
      let c1 = (segment_get kernel name c).1 in
      let e : family c1 ≡ family c = ap (λ o. (o.0, o.1)) (segment_get-outside kernel name c) in
      segment_location-ends kernel (λ d. family d ≡ family c) rounds name r c e
        (λ apage end pagesize pgid nl.
          location_loop-family rounds apage end pagesize pgid nl c1 ∙ e)

  pub location_loop-calm :
      (rounds apage end pagesize pgid : ℕ) (need_nl : Bool) (c : Context)
      → Calm c (location_loop kernel rounds apage end pagesize pgid need_nl c).2
  unfolding location_loop get_node reset_signal
  location_loop-calm zero apage end pagesize pgid need_nl c = λ h. h
  location_loop-calm (suc rounds) apage end pagesize pgid need_nl c =
      let ih =
        location_loop-calm rounds ((apage + pagesize) % word) end pagesize
          (((pgid + 1) % 2 ^ 32) % 2 ^ 32) (need_nl || (pgid % 8 == 0))
          (tell (Call.get_mempolicy apage) c) in
      λ h. ground (arith, ih h)

  pub segment_location-calm :
      (rounds : ℕ) (name : Text) (r : Range) (c : Context)
      → Calm c (segment_location kernel rounds name r c).2
  segment_location-calm rounds name r c =
      let c1 = (segment_get kernel name c).1 in
      let e : Calm c c1 = λ h. ap (λ o. o.2) (segment_get-outside kernel name c) ∙ h in
      segment_location-ends kernel (Calm c) rounds name r c e (λ apage end pagesize pgid nl h.
        location_loop-calm rounds apage end pagesize pgid nl c1 (e h))

pub cleanup_from-outside : (k i : ℕ) (c : Context) → outside (cleanup_from k i c) ≡ outside c
unfolding cleanup_from
cleanup_from-outside zero i c = refl
cleanup_from-outside (suc k) i c = ground (
  arith,
  cleanup_from-outside k (suc i) c,
  cleanup_from-outside k (suc i) (free_seg_slot i c),
  free_seg_slot-outside i c,
)

pub segment_cleanup-outside : (c : Context) → outside (segment_cleanup c) ≡ outside c
unfolding segment_cleanup
segment_cleanup-outside c = cleanup_from-outside (length c.seglist) 0 c
