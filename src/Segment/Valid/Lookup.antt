-- ===== src/Segment/Valid/Lookup.antt =====
-- The abstract view of the segment table: which segment a name stands for. The slots, their order
-- and the free ones are forgotten.
use memtoy.Base.{
  ℕ, zero, suc, ◌<◌, ◌≡◌, refl, true, false, ◌&&◌, Option, none, some, List, [], ◌∷◌, ◌++◌, Text,
  text_eq, text_eq_iff, length, get_or, set, arith, if◌then◌else◌,
}
use memtoy.Context.{Segment, Context, is_used, named}
use memtoy.Segment.Valid.Updates.{has_name, entry_ok, unique, free_at}

-- The first used segment with the name.
unfoldable pub lookup : Text → List Segment → Option Segment
lookup name [] = none
lookup name (s ∷ r) = if is_used s && named name s then some s else lookup name r

abbrev pub view : Context → Text → Option Segment
view c name = lookup name c.seglist

pub lookup-none : (n : Text) (l : List Segment) → has_name n l ≡ false → lookup n l ≡ none
unfolding lookup
lookup-none n [] h = refl
lookup-none n (s ∷ r) h = ground (arith, lookup-none n r)

pub lookup-append_unused :
    (n : Text) (l : List Segment) (s : Segment)
    → is_used s ≡ false
    → lookup n (l ++ s ∷ []) ≡ lookup n l
unfolding lookup
lookup-append_unused n [] s u = ground arith
lookup-append_unused n (t ∷ r) s u = ground (arith, lookup-append_unused n r s u)

-- In a free slot an unused segment changes nothing.
pub lookup-set_blank :
    (n : Text) (l : List Segment) (p : ℕ) (s : Segment)
    → is_used s ≡ false
    → free_at l p ≡ true
    → lookup n (set l p s) ≡ lookup n l
unfolding lookup
lookup-set_blank n [] p s u h = cc
lookup-set_blank n (t ∷ r) zero s u h = ground arith
lookup-set_blank n (t ∷ r) (suc p) s u h = ground (arith, lookup-set_blank n r p s u)

-- In a free slot a new name is entered.
pub lookup-set_fresh :
    (n m : Text) (l : List Segment) (p : ℕ) (s : Segment)
    → s.seg_name ≡ some m
    → is_used s ≡ true
    → has_name m l ≡ false
    → free_at l p ≡ true
    → lookup n (set l p s) ≡ (if text_eq n m then some s else lookup n l)
unfolding lookup
lookup-set_fresh n m [] p s e u f h = cc
lookup-set_fresh n m (t ∷ r) zero s e u f h = ground arith
lookup-set_fresh n m (t ∷ r) (suc p) s e u f h =
    ground (arith, lookup-set_fresh n m r p s e u, text_eq_iff n m)

pub has_name-at :
    (m : Text) (l : List Segment) (p : ℕ) (d : Segment)
    → p < length l
    → (get_or l p d).seg_name ≡ some m
    → is_used (get_or l p d) ≡ true
    → has_name m l ≡ true
has_name-at m [] p d lt e u = elim lt [ ]
has_name-at m (t ∷ r) zero d lt e u = ground (arith, text_eq_iff m m)
has_name-at m (t ∷ r) (suc p) d lt e u = ground (arith, has_name-at m r p d (omega arith) e u)

-- A used entry in front of the slot has another name.
other_name :
    (n m : Text) (t : Segment) (r : List Segment)
    → has_name m r ≡ true
    → entry_ok t r ≡ true
    → (is_used t && named n t) ≡ true
    → text_eq n m ≡ false
other_name n m t r h q e =
    elim (t.seg_name) as (λ o. t.seg_name ≡ o → text_eq n m ≡ false) [
      | none ↦ λ e'. ground arith
      | some k ↦ λ e'. ground (arith, text_eq_iff n m, text_eq_iff n k)
    ]
      refl

-- The slot that holds the name is overwritten by a segment that keeps it, or by an unused one.
pub lookup-set_kept :
    (n m : Text) (l : List Segment) (p : ℕ) (s d : Segment)
    → p < length l
    → (get_or l p d).seg_name ≡ some m
    → is_used (get_or l p d) ≡ true
    → s.seg_name ≡ some m
    → is_used s ≡ true
    → unique l ≡ true
    → lookup n (set l p s) ≡ (if text_eq n m then some s else lookup n l)
unfolding lookup
lookup-set_kept n m [] p s d lt en eu e u q = elim lt [ ]
lookup-set_kept n m (t ∷ r) zero s d lt en eu e u q = ground arith
lookup-set_kept n m (t ∷ r) (suc p) s d lt en eu e u q = ground (
  arith,
  lookup-set_kept n m r p s d (omega arith) en eu e u,
  has_name-at m r p d (omega arith) en eu,
  other_name n m t r (has_name-at m r p d (omega arith) en eu),
)

pub lookup-set_removed :
    (n m : Text) (l : List Segment) (p : ℕ) (s d : Segment)
    → p < length l
    → (get_or l p d).seg_name ≡ some m
    → is_used (get_or l p d) ≡ true
    → is_used s ≡ false
    → unique l ≡ true
    → lookup n (set l p s) ≡ (if text_eq n m then none else lookup n l)
unfolding lookup
lookup-set_removed n m [] p s d lt en eu u q = elim lt [ ]
lookup-set_removed n m (t ∷ r) zero s d lt en eu u q =
    ground (arith, lookup-none n r, text_eq_iff n m)
lookup-set_removed n m (t ∷ r) (suc p) s d lt en eu u q = ground (
  arith,
  lookup-set_removed n m r p s d (omega arith) en eu u,
  has_name-at m r p d (omega arith) en eu,
  other_name n m t r (has_name-at m r p d (omega arith) en eu),
)

pub named-eq : (n : Text) (s : Segment) → named n s ≡ true → s.seg_name ≡ some n
named-eq n s h =
    elim (s.seg_name) as (λ o. s.seg_name ≡ o → s.seg_name ≡ some n) [
      | none ↦ λ e. ground arith
      | some k ↦ λ e. ground (arith, text_eq_iff n k)
    ]
      refl
