-- ===== src/Signals/Laws.antt =====
-- Signal names and numbers.
use memtoy.Base.{
  ℕ, ◌≡◌, refl, Bool, true, false, ◌||◌, some, List, [], ◌∷◌, ◌++◌, Text, text, arith, Bool-cases,
  inl, inr, ◌==◌, text_eq, strcasecmp_eq, strncasecmp_eq, tolower, if◌then◌else◌, next,
}
use memtoy.Signals.{
  signals_to_handle, sig_names, signal_index, sig_name, find_signal, signum_from_name,
}

abbrev pub member : ℕ → List ℕ → Bool
member n [] = false
member n (m ∷ l) = (n == m) || member n l

find_signal-member :
    (name : Text) (names : List Text) (sigs : List ℕ) (s : ℕ)
    → find_signal name names sigs ≡ some s
    → member s sigs ≡ true
unfolding find_signal
find_signal-member name [] sigs s h = cc
find_signal-member name (n ∷ names) [] s h = cc
find_signal-member name (n ∷ names) (t ∷ sigs) s h =
    ground (arith, find_signal-member name names sigs s)

-- `signum_from_name` gives only signals that the program handles.
pub signum_from_name-handled :
    (name : Text) (s : ℕ) → signum_from_name name ≡ some s → member s signals_to_handle ≡ true
unfolding signum_from_name
signum_from_name-handled name s h =
    find_signal-member
      (if strncasecmp_eq name (text "sig") 3 then next (next (next name)) else name) sig_names
      signals_to_handle s h

abbrev AllOf : (ℕ → Type 0) → List ℕ → Type 0
AllOf p [] = Unit
AllOf p (n ∷ l) = p n × AllOf p l

member-all : (p : ℕ → Type 0) (s : ℕ) (l : List ℕ) → member s l ≡ true → AllOf p l → p s
member-all p s [] h a = cc
member-all p s (n ∷ l) h (x, a) = elim (Bool-cases (s == n)) [
  | inl e ↦ (let eq : s ≡ n = ground arith in rw eq x)
  | inr e ↦ member-all p s l (ground arith) a
]

-- The name of a handled signal, with "SIG" in front or without, gives the signal back.
pub signum_from_name-sig_name :
    (s : ℕ)
    → member s signals_to_handle ≡ true
    → (signum_from_name (sig_name s) ≡ some s)
      × (signum_from_name (text "SIG" ++ sig_name s) ≡ some s)
unfolding signum_from_name sig_name signal_index find_signal strcasecmp_eq strncasecmp_eq text_eq
    tolower
signum_from_name-sig_name s h =
    member-all
      (λ n.
        (signum_from_name (sig_name n) ≡ some n)
        × (signum_from_name (text "SIG" ++ sig_name n) ≡ some n))
      s signals_to_handle h
      (
        (refl, refl),
        ((refl, refl), ((refl, refl), ((refl, refl), ((refl, refl), ((refl, refl), tt))))),
      )
