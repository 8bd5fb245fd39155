-- ===== src/Children/Laws/Names.antt =====
-- Names in the list of children, and how a change of the list keeps them apart.
use memtoy.Children.Reaping.{remove_pid}
use memtoy.Base.{
  ℕ, ◌≡◌, refl, ap, ◌∙◌, Bool, true, false, not, ◌&&◌, Option, none, some, List, [], ◌∷◌, ◌++◌,
  Text, text_eq, text_eq_iff, text_eq_refl, arith, if◌then◌else◌,
}
use memtoy.Context.{Child}
use memtoy.Children.{find_by_name, set_errs}

abbrev pub has_child : Text → List Child → Bool
has_child name l = elim (find_by_name name l) [ none ↦ false | some ch ↦ true ]

-- No two children have the same name.
abbrev pub distinct : List Child → Bool
distinct [] = true
distinct (ch ∷ r) = not (has_child ch.c_name r) && distinct r

pub find_by_name-append :
    (n : Text) (l : List Child) (ch : Child)
    → find_by_name ch.c_name l ≡ none
    → find_by_name n (l ++ ch ∷ []) ≡ (if text_eq n ch.c_name then some ch else find_by_name n l)
unfolding find_by_name
find_by_name-append n [] ch h = refl
find_by_name-append n (d ∷ l) ch h =
    let h' : find_by_name ch.c_name l ≡ none = ground arith in
    let ih = find_by_name-append n l ch h' in
    ground
      (arith, ih, text_eq_iff n d.c_name, text_eq_iff n ch.c_name, text_eq_iff ch.c_name d.c_name)

pub distinct-append :
    (l : List Child) (ch : Child)
    → find_by_name ch.c_name l ≡ none
    → distinct l ≡ true
    → distinct (l ++ ch ∷ []) ≡ true
unfolding find_by_name
distinct-append [] ch h d = refl
distinct-append (x ∷ l) ch h d =
    let h' : find_by_name ch.c_name l ≡ none = ground arith in
    let t : text_eq x.c_name ch.c_name ≡ false = ground (
      arith,
      text_eq_iff x.c_name ch.c_name,
      text_eq_refl x.c_name,
      text_eq_iff ch.c_name x.c_name,
    ) in
    let rest : distinct l ≡ true = ground arith in
    let new : has_child x.c_name (l ++ ch ∷ []) ≡ has_child x.c_name l =
      ap (λ o. elim o [ none ↦ false | some y ↦ true ])
        (find_by_name-append x.c_name l ch h' ∙ rw t refl) in
    ground (arith, new, distinct-append l ch h' rest)

find_by_name-remove_pid :
    (n : Text) (pid : ℕ) (l : List Child)
    → find_by_name n l ≡ none
    → find_by_name n (remove_pid pid l) ≡ none
unfolding find_by_name remove_pid
find_by_name-remove_pid n pid [] h = refl
find_by_name-remove_pid n pid (x ∷ l) h = ground (arith, find_by_name-remove_pid n pid l)

none-of : (o : Option Child) → elim o [ none ↦ false | some ch ↦ true ] ≡ false → o ≡ none
none-of none h = refl
none-of (some ch) h = cc

pub distinct-remove_pid :
    (pid : ℕ) (l : List Child) → distinct l ≡ true → distinct (remove_pid pid l) ≡ true
unfolding remove_pid
distinct-remove_pid pid [] h = refl
distinct-remove_pid pid (x ∷ l) h =
    let rest : distinct l ≡ true = ground arith in
    let gone : find_by_name x.c_name l ≡ none = none-of (find_by_name x.c_name l) (ground arith) in
    ground (arith, distinct-remove_pid pid l rest, find_by_name-remove_pid x.c_name pid l gone)

has_child-set_errs :
    (n name : Text) (k : ℕ) (l : List Child) → has_child n (set_errs name k l) ≡ has_child n l
unfolding find_by_name set_errs
has_child-set_errs n name k [] = refl
has_child-set_errs n name k (x ∷ l) = ground (arith, has_child-set_errs n name k l)

pub distinct-set_errs :
    (name : Text) (k : ℕ) (l : List Child) → distinct (set_errs name k l) ≡ distinct l
unfolding set_errs
distinct-set_errs name k [] = refl
distinct-set_errs name k (x ∷ l) =
    ground (arith, distinct-set_errs name k l, has_child-set_errs x.c_name name k l)
