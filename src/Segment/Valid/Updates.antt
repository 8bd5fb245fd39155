-- ===== src/Segment/Valid/Updates.antt =====
-- The invariant of the table and how a write to one slot keeps it.
use memtoy.Base.{
  ℕ, zero, suc, ◌+◌, ◌≤◌, ◌<◌, ◌≡◌, refl, ap, Bool, true, false, not, ◌&&◌, ◌||◌, Option, none,
  some, List, [], ◌∷◌, ◌++◌, Text, text_eq, text_eq_iff, length, get_or, set, arith,
}
use memtoy.Context.{Segment, Context, is_none, is_used, named, max_segments}

-- Some used segment of the table has the name.
abbrev pub has_name : Text → List Segment → Bool
has_name name [] = false
has_name name (s ∷ r) = (is_used s && named name s) || has_name name r

-- A used segment has a name, and no segment of the list has the same.
abbrev pub entry_ok : Segment → List Segment → Bool
entry_ok s r = elim (s.seg_name) [
  | none ↦ is_none s.seg_type
  | some n ↦ is_none s.seg_type || not (has_name n r)
]

abbrev pub unique : List Segment → Bool
unique [] = true
unique (s ∷ r) = entry_ok s r && unique r

-- The slot is there and holds no segment.
abbrev pub free_at : List Segment → ℕ → Bool
free_at [] p = false
free_at (s ∷ r) zero = is_none s.seg_type
free_at (s ∷ r) (suc p) = free_at r p

abbrev pub avail_ok : Option ℕ → List Segment → Bool
avail_ok none l = true
avail_ok (some p) l = free_at l p

-- The slots carry their numbers, from `i` on.
abbrev pub Numbered : ℕ → List Segment → Type 0
Numbered i [] = Unit
Numbered i (s ∷ r) = (s.seg_slot ≡ i) × Numbered (suc i) r

pub record IsValid (c : Context) : Type 0 where
  pub fits : length c.seglist ≤ max_segments
  pub numbered : Numbered 0 c.seglist
  pub distinct : unique c.seglist ≡ true
  pub saved_free : avail_ok c.seg_avail c.seglist ≡ true

pub text_eq_sym : (s t : Text) → text_eq s t ≡ text_eq t s
text_eq_sym s t = ground (arith, text_eq_iff s t, text_eq_iff t s)

pub free_at-lt : (l : List Segment) (p : ℕ) → free_at l p ≡ true → p < length l
free_at-lt [] p h = cc
free_at-lt (s ∷ r) zero h = omega arith
free_at-lt (s ∷ r) (suc p) h = omega (arith, free_at-lt r p h)

-- A write of an unused segment takes no name in.
pub has_name-set_unused :
    (n : Text) (l : List Segment) (p : ℕ) (s : Segment)
    → is_used s ≡ false
    → has_name n l ≡ false
    → has_name n (set l p s) ≡ false
has_name-set_unused n [] p s u h = refl
has_name-set_unused n (t ∷ r) zero s u h = ground arith
has_name-set_unused n (t ∷ r) (suc p) s u h = ground (arith, has_name-set_unused n r p s u)

pub unique-set_unused :
    (l : List Segment) (p : ℕ) (s : Segment)
    → is_used s ≡ false
    → unique l ≡ true
    → unique (set l p s) ≡ true
unique-set_unused [] p s u h = refl
unique-set_unused (t ∷ r) zero s u h = ground arith
unique-set_unused (t ∷ r) (suc p) s u h =
    elim (t.seg_name) as (λ o. t.seg_name ≡ o → unique (t ∷ set r p s) ≡ true) [
      | none ↦ λ e. ground (arith, unique-set_unused r p s u)
      | some n ↦ λ e. ground (arith, unique-set_unused r p s u, has_name-set_unused n r p s u)
    ]
      refl

pub has_name-set_ne :
    (n m : Text) (l : List Segment) (p : ℕ) (s : Segment)
    → s.seg_name ≡ some m
    → text_eq n m ≡ false
    → has_name n l ≡ false
    → has_name n (set l p s) ≡ false
has_name-set_ne n m [] p s e d h = refl
has_name-set_ne n m (t ∷ r) zero s e d h = ground arith
has_name-set_ne n m (t ∷ r) (suc p) s e d h = ground (arith, has_name-set_ne n m r p s e d)

-- A write of a segment with a name that is not in the table.
pub unique-set_fresh :
    (m : Text) (l : List Segment) (p : ℕ) (s : Segment)
    → s.seg_name ≡ some m
    → has_name m l ≡ false
    → unique l ≡ true
    → unique (set l p s) ≡ true
unique-set_fresh m [] p s e f h = refl
unique-set_fresh m (t ∷ r) zero s e f h = ground arith
unique-set_fresh m (t ∷ r) (suc p) s e f h =
    elim (t.seg_name) as (λ o. t.seg_name ≡ o → unique (t ∷ set r p s) ≡ true) [
      | none ↦ λ e'. ground (arith, unique-set_fresh m r p s e)
      | some n ↦ λ e'.
          ground (arith, unique-set_fresh m r p s e, has_name-set_ne n m r p s e, text_eq_sym n m)
    ]
      refl

-- A write that keeps the name and the type of its slot.
pub has_name-set_same :
    (n : Text) (l : List Segment) (p : ℕ) (s d : Segment)
    → s.seg_name ≡ (get_or l p d).seg_name
    → s.seg_type ≡ (get_or l p d).seg_type
    → has_name n (set l p s) ≡ has_name n l
has_name-set_same n [] p s d e f = refl
has_name-set_same n (t ∷ r) zero s d e f = ground arith
has_name-set_same n (t ∷ r) (suc p) s d e f = ground (arith, has_name-set_same n r p s d e f)

pub unique-set_same :
    (l : List Segment) (p : ℕ) (s d : Segment)
    → s.seg_name ≡ (get_or l p d).seg_name
    → s.seg_type ≡ (get_or l p d).seg_type
    → unique (set l p s) ≡ unique l
unique-set_same [] p s d e f = refl
unique-set_same (t ∷ r) zero s d e f = ground arith
unique-set_same (t ∷ r) (suc p) s d e f =
    elim (t.seg_name) as (λ o. t.seg_name ≡ o → unique (t ∷ set r p s) ≡ unique (t ∷ r)) [
      | none ↦ λ e'. ground (arith, unique-set_same r p s d e f)
      | some n ↦ λ e'. ground (arith, unique-set_same r p s d e f, has_name-set_same n r p s d e f)
    ]
      refl

pub free_at-set_unused :
    (l : List Segment) (p q : ℕ) (s : Segment)
    → is_used s ≡ false
    → free_at l q ≡ true
    → free_at (set l p s) q ≡ true
free_at-set_unused [] p q s u h = h
free_at-set_unused (t ∷ r) zero zero s u h = ground arith
free_at-set_unused (t ∷ r) zero (suc q) s u h = h
free_at-set_unused (t ∷ r) (suc p) zero s u h = h
free_at-set_unused (t ∷ r) (suc p) (suc q) s u h = free_at-set_unused r p q s u h

pub free_at-set_self :
    (l : List Segment) (p : ℕ) (s : Segment)
    → is_used s ≡ false
    → p < length l
    → free_at (set l p s) p ≡ true
free_at-set_self [] p s u h = elim h [ ]
free_at-set_self (t ∷ r) zero s u h = ground arith
free_at-set_self (t ∷ r) (suc p) s u h = free_at-set_self r p s u (omega arith)

pub free_at-set_same :
    (l : List Segment) (p q : ℕ) (s d : Segment)
    → s.seg_type ≡ (get_or l p d).seg_type
    → free_at (set l p s) q ≡ free_at l q
free_at-set_same [] p q s d e = refl
free_at-set_same (t ∷ r) zero zero s d e = ap is_none e
free_at-set_same (t ∷ r) zero (suc q) s d e = refl
free_at-set_same (t ∷ r) (suc p) zero s d e = refl
free_at-set_same (t ∷ r) (suc p) (suc q) s d e = free_at-set_same r p q s d e

pub Numbered-set :
    (i : ℕ) (l : List Segment) (p : ℕ) (s : Segment)
    → s.seg_slot ≡ i + p
    → Numbered i l
    → Numbered i (set l p s)
Numbered-set i [] p s e n = tt
Numbered-set i (t ∷ r) zero s e n = (omega arith, n.1)
Numbered-set i (t ∷ r) (suc p) s e n = (n.0, Numbered-set (suc i) r p s (omega arith) n.1)

pub slot-at :
    (i : ℕ) (l : List Segment) (p : ℕ) (d : Segment)
    → Numbered i l
    → p < length l
    → (get_or l p d).seg_slot ≡ i + p
slot-at i [] p d n h = elim h [ ]
slot-at i (t ∷ r) zero d n h = omega arith
slot-at i (t ∷ r) (suc p) d n h = omega (arith, slot-at (suc i) r p d n.1 (omega arith))

-- A new blank slot at the end.
pub Numbered-append :
    (i : ℕ) (l : List Segment) (s : Segment)
    → s.seg_slot ≡ i + length l
    → Numbered i l
    → Numbered i (l ++ s ∷ [])
Numbered-append i [] s e n = (omega arith, tt)
Numbered-append i (t ∷ r) s e n = (n.0, Numbered-append (suc i) r s (omega arith) n.1)

pub has_name-append_unused :
    (n : Text) (l : List Segment) (s : Segment)
    → is_used s ≡ false
    → has_name n (l ++ s ∷ []) ≡ has_name n l
has_name-append_unused n [] s u = ground arith
has_name-append_unused n (t ∷ r) s u = ground (arith, has_name-append_unused n r s u)

pub unique-append_unused :
    (l : List Segment) (s : Segment)
    → is_used s ≡ false
    → unique l ≡ true
    → unique (l ++ s ∷ []) ≡ true
unique-append_unused [] s u h = ground arith
unique-append_unused (t ∷ r) s u h =
    elim (t.seg_name) as (λ o. t.seg_name ≡ o → unique (t ∷ r ++ s ∷ []) ≡ true) [
      | none ↦ λ e. ground (arith, unique-append_unused r s u)
      | some n ↦ λ e. ground (arith, unique-append_unused r s u, has_name-append_unused n r s u)
    ]
      refl

pub free_at-append :
    (l : List Segment) (s : Segment) (q : ℕ) → free_at l q ≡ true → free_at (l ++ s ∷ []) q ≡ true
free_at-append [] s q h = cc
free_at-append (t ∷ r) s zero h = h
free_at-append (t ∷ r) s (suc q) h = free_at-append r s q h

pub free_at-append_end :
    (l : List Segment) (s : Segment) → is_used s ≡ false → free_at (l ++ s ∷ []) (length l) ≡ true
free_at-append_end [] s u = ground arith
free_at-append_end (t ∷ r) s u = free_at-append_end r s u

-- The invariant looks at the table and the saved slot only.
pub IsValid-same :
    (c c' : Context) → c'.seglist ≡ c.seglist → c'.seg_avail ≡ c.seg_avail → IsValid c → IsValid c'
IsValid-same c c' e a v = record {
  fits = rw e v.fits;
  numbered = rw e v.numbered;
  distinct = rw e v.distinct;
  saved_free = rw (a, e) v.saved_free;
}
