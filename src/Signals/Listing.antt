-- ===== src/Signals/Listing.antt =====
-- `signal_list` of memtoy.c: the names of the signals, as rows on the terminal.
use memtoy.Base.{ℕ, ◌+◌, ◌-◌, List, [], ◌∷◌, Text, text, text_eq, ltb, ◌==◌, if◌then◌else◌}

-- `MAXCOL`
abbrev pub maxcol : ℕ
maxcol = 80

-- What is printed: the start of a row with its margin, and a name behind "SIG", filled up to five
-- bytes.
pub data SignalMark : Type 0 where
  row : SignalMark
  name : Text → SignalMark

-- The loop, at a column; 0 stands for the need of a new row. The table ends with "unknown".
unfoldable pub list_from : ℕ → List Text → List SignalMark
list_from icol [] = []
list_from icol (n ∷ names) =
    let col = (if icol == 0 then 4 else icol) + 8 in
    let rest = list_from (if ltb (maxcol - 8) col then 0 else col) names in
    if text_eq n (text "unknown")
    then []
    else (if icol == 0 then row ∷ name n ∷ rest else name n ∷ rest)

unfoldable pub signal_list : List Text → List SignalMark
signal_list names = list_from 0 names
