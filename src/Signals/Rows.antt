-- ===== src/Signals/Rows.antt =====
-- The rows of `signal_list`.
use memtoy.Base.{
  ℕ, ◌+◌, ◌-◌, ◌≡◌, refl, Bool, true, ◌&&◌, ◌||◌, List, [], ◌∷◌, Text, text, text_eq, length, ltb,
  leb, ◌==◌, arith, if◌then◌else◌, Bool-cases, inl, inr,
}
use memtoy.Signals.Listing.{maxcol, SignalMark, row, name, list_from, signal_list}

-- The names in front of "unknown".
abbrev pub known : List Text → List Text
known [] = []
known (n ∷ r) = if text_eq n (text "unknown") then [] else n ∷ known r

abbrev pub names_of : List SignalMark → List Text
names_of [] = []
names_of (row ∷ r) = names_of r
names_of (name n ∷ r) = n ∷ names_of r

-- The bytes of a name on the terminal.
abbrev pub width : Text → ℕ
width n = 3 + (if ltb (length n) 5 then 5 else length n)

-- Every row ends in front of the last column, where `col` bytes stand in the row already.
abbrev pub all_fit : ℕ → List SignalMark → Bool
all_fit col [] = true
all_fit col (row ∷ r) = all_fit 4 r
all_fit col (name n ∷ r) = leb (col + width n) maxcol && all_fit (col + width n) r

abbrev pub all_short : List Text → Bool
all_short [] = true
all_short (n ∷ r) = leb (length n) 5 && all_short r

names_of-list_from : (icol : ℕ) (names : List Text) → names_of (list_from icol names) ≡ known names
unfolding list_from
names_of-list_from icol [] = refl
names_of-list_from icol (n ∷ r) =
    let col = (if icol == 0 then 4 else icol) + 8 in
    ground (arith, names_of-list_from (if ltb (maxcol - 8) col then 0 else col) r)

all_fit-list_from :
    (icol col : ℕ) (names : List Text)
    → ((icol == 0) || ((icol == col) && leb icol 72)) ≡ true
    → all_short (known names) ≡ true
    → all_fit col (list_from icol names) ≡ true
unfolding list_from
all_fit-list_from icol col [] h s = refl
all_fit-list_from icol col (n ∷ r) h s =
    let at = (if icol == 0 then 4 else icol) + 8 in
    let after = if ltb (maxcol - 8) at then 0 else at in
    elim (Bool-cases (text_eq n (text "unknown"))) [
      | inl e ↦ ground arith
      | inr e ↦
          let ih = all_fit-list_from after at r (ground arith) (ground arith) in ground (arith, ih)
    ]

-- Of any table of names whose names in front of "unknown" have at most five bytes, the list has these
-- names in their order, and no row of it is longer than the 80 columns of the terminal.
pub signal_list-rows :
    (names : List Text)
    → all_short (known names) ≡ true
    → (names_of (signal_list names) ≡ known names) × (all_fit 0 (signal_list names) ≡ true)
unfolding signal_list
signal_list-rows names s = (names_of-list_from 0 names, all_fit-list_from 0 0 names refl s)
