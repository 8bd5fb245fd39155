-- ===== src/Segment/Laws/Keeping.antt =====
-- Writes to a slot that keep its name, type, number and flags, or free it.
use memtoy.Base.{
  ℕ, ◌<◌, ◌≡◌, ap, ◌∙◌, Bool, true, false, length, get_or, get_or-set_self, set, set-set,
}
use memtoy.Context.{Segment, blank, Context, segment_at, put_segment}
use memtoy.Segment.Slots.{free_seg_slot}
use memtoy.Segment.Valid.Free.{free_seg_slot-table, free_seg_slot-saved, save}

-- The slot holds a segment with the name, the type, the flags and the number that it had, or, after
-- a failure, it is free. No other slot has changed.
abbrev pub Kept : ℕ → Context → Bool → Context → Type 0
Kept p c true c' =
    (s : Segment) × (c'.seglist ≡ set c.seglist p s)
    × (s.seg_name ≡ (segment_at c p).seg_name)
    × (s.seg_type ≡ (segment_at c p).seg_type)
    × (s.seg_slot ≡ (segment_at c p).seg_slot)
    × (s.seg_flags ≡ (segment_at c p).seg_flags)
    × (c'.seg_avail ≡ c.seg_avail)
Kept p c false c' =
    (c'.seglist ≡ set c.seglist p (blank (segment_at c p).seg_slot))
    × (c'.seg_avail ≡ save c.seg_avail p)

-- A write that keeps name, type, number and flags, followed by such writes.
pub Kept-put :
    (p : ℕ) (s : Segment) (c : Context) (b : Bool) (c' : Context)
    → p < length c.seglist
    → s.seg_name ≡ (segment_at c p).seg_name
    → s.seg_type ≡ (segment_at c p).seg_type
    → s.seg_slot ≡ (segment_at c p).seg_slot
    → s.seg_flags ≡ (segment_at c p).seg_flags
    → Kept p (put_segment p s c) b c'
    → Kept p c b c'
Kept-put p s c true c' lt en et es ef (t, a, n, y, o, f, v) =
    let at : segment_at (put_segment p s c) p ≡ s = get_or-set_self c.seglist p s (blank p) lt in
    (
      t,
      a ∙ set-set c.seglist p s t,
      n ∙ ap (λ x. x.seg_name) at ∙ en,
      y ∙ ap (λ x. x.seg_type) at ∙ et,
      o ∙ ap (λ x. x.seg_slot) at ∙ es,
      f ∙ ap (λ x. x.seg_flags) at ∙ ef,
      v,
    )
Kept-put p s c false c' lt en et es ef (a, v) =
    let at : segment_at (put_segment p s c) p ≡ s = get_or-set_self c.seglist p s (blank p) lt in
    (
      a
          ∙ set-set c.seglist p s (blank (segment_at (put_segment p s c) p).seg_slot)
          ∙ ap (λ n. set c.seglist p (blank n)) (ap (λ x. x.seg_slot) at ∙ es),
      v,
    )

-- The base may be replaced by one with the same table.
pub Kept-same :
    (p : ℕ) (c1 c : Context) (b : Bool) (c' : Context)
    → c1.seglist ≡ c.seglist
    → c1.seg_avail ≡ c.seg_avail
    → Kept p c1 b c'
    → Kept p c b c'
Kept-same p c1 c true c' e a (t, h, n, y, o, f, v) =
    let at : segment_at c1 p ≡ segment_at c p = ap (λ l. get_or l p (blank p)) e in
    (
      t,
      h ∙ ap (λ l. set l p t) e,
      n ∙ ap (λ x. x.seg_name) at,
      y ∙ ap (λ x. x.seg_type) at,
      o ∙ ap (λ x. x.seg_slot) at,
      f ∙ ap (λ x. x.seg_flags) at,
      v ∙ a,
    )
Kept-same p c1 c false c' e a (h, v) =
    (h ∙ ap (λ l. set l p (blank (get_or l p (blank p)).seg_slot)) e, v ∙ ap (λ q. save q p) a)

pub Kept-free : (p : ℕ) (c : Context) → Kept p c false (free_seg_slot p c)
Kept-free p c = (free_seg_slot-table p c, free_seg_slot-saved p c)
