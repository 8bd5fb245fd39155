-- ===== src/Segment/Valid/Free.antt =====
-- `free_seg_slot` and `unmap_segment` keep the invariant of the table; what they do to the view.
use memtoy.Base.{
  ℕ, ◌<◌, ◌≡◌, refl, true, false, Option, none, some, List, length, length-set, set, arith,
  Option-cases, inl, inr,
}
use memtoy.Context.{Segment, blank, Context, is_used, segment_at, put_segment, map_failed}
use memtoy.Segment.Slots.{unmap_segment, free_seg_slot}
use memtoy.Segment.Valid.Updates.{
  avail_ok, IsValid, Numbered-set, slot-at, unique-set_unused, unique-set_same, free_at-set_unused,
  free_at-set_self, free_at-set_same,
}

-- The table and the saved slot after `free_seg_slot`.
pub free_seg_slot-table :
    (p : ℕ) (c : Context)
    → (free_seg_slot p c).seglist ≡ set c.seglist p (blank (segment_at c p).seg_slot)
unfolding free_seg_slot
free_seg_slot-table p c = ground arith

abbrev pub save : Option ℕ → ℕ → Option ℕ
save none p = some p
save (some q) p = some q

pub free_seg_slot-saved : (p : ℕ) (c : Context) → (free_seg_slot p c).seg_avail ≡ save c.seg_avail p
unfolding free_seg_slot
free_seg_slot-saved p c = ground arith

pub save-avail_ok :
    (l : List Segment) (avail : Option ℕ) (p : ℕ) (s : Segment)
    → is_used s ≡ false
    → p < length l
    → avail_ok avail l ≡ true
    → avail_ok (save avail p) (set l p s) ≡ true
save-avail_ok l none p s u lt h = free_at-set_self l p s u lt
save-avail_ok l (some q) p s u lt h = free_at-set_unused l p q s u h

pub free_seg_slot-IsValid :
    (p : ℕ) (c : Context) → p < length c.seglist → IsValid c → IsValid (free_seg_slot p c)
free_seg_slot-IsValid p c lt v =
    let b : Segment = blank (segment_at c p).seg_slot in
    record {
      fits = rw free_seg_slot-table (omega (arith, v.fits, length-set c.seglist p b));
      numbered =
          rw free_seg_slot-table (
            Numbered-set 0 c.seglist p b (slot-at 0 c.seglist p (blank p) v.numbered lt)
              v.numbered);
      distinct = rw free_seg_slot-table (unique-set_unused c.seglist p b refl v.distinct);
      saved_free =
          rw (free_seg_slot-table, free_seg_slot-saved)
            (save-avail_ok c.seglist c.seg_avail p b refl lt v.saved_free);
    }

abbrev pub unmapped : Segment → Segment
unmapped s = record s { seg_start = map_failed }

-- A write that changes neither name, type nor slot number keeps the invariant.
pub put_segment-IsValid :
    (p : ℕ) (s : Segment) (c : Context)
    → s.seg_name ≡ (segment_at c p).seg_name
    → s.seg_type ≡ (segment_at c p).seg_type
    → s.seg_slot ≡ (segment_at c p).seg_slot
    → p < length c.seglist
    → IsValid c
    → IsValid (put_segment p s c)
put_segment-IsValid p s c en et es lt v = record {
  fits = omega (arith, v.fits, length-set c.seglist p s);
  numbered =
      Numbered-set 0 c.seglist p s (omega (arith, slot-at 0 c.seglist p (blank p) v.numbered lt))
        v.numbered;
  distinct = rw (unique-set_same c.seglist p s (blank p) en et) v.distinct;
  saved_free = elim (Option-cases c.seg_avail) [
    | inl e ↦ rw e
    | inr (q, e) ↦
        rw e (rw (free_at-set_same c.seglist p q s (blank p) et) (ground (arith, v.saved_free)))
  ];
}

pub unmap_segment-IsValid :
    (p : ℕ) (c : Context) → p < length c.seglist → IsValid c → IsValid (unmap_segment p c)
unfolding unmap_segment
unmap_segment-IsValid p c lt v =
    let w : IsValid (put_segment p (unmapped (segment_at c p)) c) =
      put_segment-IsValid p (unmapped (segment_at c p)) c refl refl refl lt v in
    record {
      fits = ground (arith, v.fits, w.fits);
      numbered = ground (arith, v.numbered, w.numbered);
      distinct = ground (arith, v.distinct, w.distinct);
      saved_free = ground (arith, v.saved_free, w.saved_free);
    }
