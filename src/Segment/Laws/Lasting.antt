-- ===== src/Segment/Laws/Lasting.antt =====
-- How long a segment lasts under the segment API.
use mathlib.Core.Option
use memtoy.Base.{
  ◌≡◌, refl, sym, ap, ◌∙◌, Bool, true, false, not, ◌&&◌, Option, none, some, List, [], ◌∷◌, Text,
  text_eq, text_eq_iff, arith, inl, inr, Bool-cases,
}
use memtoy.Context.{SegType, Segment, Kernel, Context}
use memtoy.Segment.Valid.Updates.{IsValid}
use memtoy.Segment.Valid.Lookup.{view}
use memtoy.Segment.Valid.Free.{unmapped}
use memtoy.Segment.Laws.Mapping.{type_of}
use memtoy.Segment.Laws.Reach.{Reach}
use memtoy.Segment.Laws.Meaning.{
  View, Op, enter, remove, unmap, map, protect, look, clean, Meaning, Runs, ops_of,
}
use memtoy.Segment.Laws.Refining.{Reach-Runs}

-- The operation is no removal of the name, and not the cleanup at exit.
abbrev pub spares : Text → Op → Bool
spares name (remove m) = not (text_eq name m)
spares name clean = false
spares name (enter type m flags) = true
spares name (unmap m) = true
spares name (map m) = true
spares name (protect m prot) = true
spares name look = true

abbrev pub all_spare : Text → List Op → Bool
all_spare name [] = true
all_spare name (o ∷ r) = spares name o && all_spare name r

type_of-unmapped : (o : Option Segment) → type_of (Option.map unmapped o) ≡ type_of o
type_of-unmapped none = refl
type_of-unmapped (some s) = refl

Meaning-type :
    (o : Op) (v w : View) (name : Text) (t : SegType)
    → spares name o ≡ true
    → Meaning o v w
    → type_of (v name) ≡ some t
    → type_of (w name) ≡ some t
Meaning-type (enter type m flags) v w name t g (inl same) e = ap type_of (same name) ∙ e
Meaning-type (enter type m flags) v w name t g (inr (s, free, en, et, ef, put)) e =
    let at = put name in
    elim (Bool-cases (text_eq name m)) [
      | inl h ↦
          let eq : name ≡ m = (text_eq_iff name m).0 h in
          let gone : v name ≡ none = ap v eq ∙ free in
          let clash : none ≡ some t = ap type_of (sym gone) ∙ e in absurd (ground (arith, clash))
      | inr h ↦ ground (arith, at)
    ]
Meaning-type (remove m) v w name t g (inl (own, put)) e = let at = put name in ground (arith, at)
Meaning-type (remove m) v w name t g (inr (own, same)) e = ap type_of (same name) ∙ e
Meaning-type (unmap m) v w name t g (inl (own, put)) e =
    let at = put name in
    elim (Bool-cases (text_eq name m)) [
      | inl h ↦
          let eq : m ≡ name = sym ((text_eq_iff name m).0 h) in
          let kept : type_of (Option.map unmapped (v m)) ≡ some t =
            type_of-unmapped (v m) ∙ ap (λ x. type_of (v x)) eq ∙ e in
          ground (arith, at, kept)
      | inr h ↦ ground (arith, at)
    ]
Meaning-type (unmap m) v w name t g (inr (own, same)) e = ap type_of (same name) ∙ e
Meaning-type (map m) v w name t g (o, same_type, put) e =
    let at = put name in
    elim (Bool-cases (text_eq name m)) [
      | inl h ↦
          let eq : m ≡ name = sym ((text_eq_iff name m).0 h) in
          let kept : type_of o ≡ some t = same_type ∙ ap (λ x. type_of (v x)) eq ∙ e in
          ground (arith, at, kept)
      | inr h ↦ ground (arith, at)
    ]
Meaning-type (protect m prot) v w name t g (inl same) e = ap type_of (same name) ∙ e
Meaning-type (protect m prot) v w name t g (inr (s, found, put)) e =
    let at = put name in
    elim (Bool-cases (text_eq name m)) [
      | inl h ↦
          let eq : m ≡ name = sym ((text_eq_iff name m).0 h) in
          let kept : some s.seg_type ≡ some t =
            ap type_of (sym found) ∙ ap (λ x. type_of (v x)) eq ∙ e in
          ground (arith, at, kept)
      | inr h ↦ ground (arith, at)
    ]
Meaning-type look v w name t g same e = ap type_of (same name) ∙ e
Meaning-type clean v w name t g same e = absurd (ground (arith, g))

Runs-type :
    (ops : List Op) (v w : View) (name : Text) (t : SegType)
    → all_spare name ops ≡ true
    → Runs ops v w
    → type_of (v name) ≡ some t
    → type_of (w name) ≡ some t
Runs-type [] v w name t g same e = ap type_of (same name) ∙ e
Runs-type (o ∷ r) v w name t g (u, rest, last) e =
    Meaning-type o u w name t (ground arith) last (Runs-type r v u name t (ground arith) rest e)

-- From a valid table on, whatever calls of the segment API are made but a removal of the name and the
-- cleanup at exit, with any arguments and any answers of the system: a name that stands for a segment
-- of a type goes on to stand for one of this type.
pub Reach-lasting :
    {touching : Bool} (k : Kernel) (c d : Context) (name : Text) (t : SegType)
    → IsValid c
    → type_of (view c name) ≡ some t
    → (h : Reach touching k c d) → all_spare name (ops_of h) ≡ true
    → type_of (view d name) ≡ some t
Reach-lasting k c d name t v e h g =
    Runs-type (ops_of h) (view c) (view d) name t g (Reach-Runs k c v h) e
