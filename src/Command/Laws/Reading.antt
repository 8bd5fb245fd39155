-- ===== src/Command/Laws/Reading.antt =====
-- `readline_ni` on the lines of a script.
use memtoy.Base.{
  ℕ, zero, suc, ◌-◌, ◌≤◌, ◌<◌, ◌≡◌, refl, ap, ◌∙◌, Bool, true, not, ◌&&◌, List, [], ◌∷◌, ◌++◌, Text,
  length, ltb, ◌==◌, arith,
}
use memtoy.Base.Lists.{length-append}
use memtoy.Base.Lines.{take_line, chunks_loop, chunks}
use memtoy.Command.Input.{cmdbufsz, trim_newline, trim_each, readline_ni}

-- No newline inside.
abbrev pub is_line : Text → Bool
is_line [] = true
is_line (ch ∷ s) = not (ch == 10) && is_line s

-- Lines that are shorter than the bound.
abbrev pub are_lines : ℕ → List Text → Bool
are_lines bound [] = true
are_lines bound (s ∷ r) = is_line s && (ltb (length s) bound && are_lines bound r)

abbrev pub unlines : List Text → Text
unlines [] = []
unlines (s ∷ r) = s ++ 10 ∷ unlines r

abbrev ended : List Text → List Text
ended [] = []
ended (s ∷ r) = (s ++ 10 ∷ []) ∷ ended r

take_line-line :
    (k : ℕ) (s rest : Text)
    → is_line s ≡ true
    → length s < k
    → take_line k (s ++ 10 ∷ rest) ≡ (s ++ 10 ∷ [], rest)
unfolding take_line
take_line-line zero s rest h lt = absurd (omega arith)
take_line-line (suc k) [] rest h lt = ground arith
take_line-line (suc k) (ch ∷ s) rest h lt =
    let ih = take_line-line k s rest (ground arith) (omega arith) in ground (arith, ih)

chunks_loop-line :
    (n size : ℕ) (s rest : Text)
    → is_line s ≡ true
    → length s < size - 1
    → chunks_loop (suc n) size (s ++ 10 ∷ rest) ≡ (s ++ 10 ∷ []) ∷ chunks_loop n size rest
unfolding chunks_loop
chunks_loop-line n size [] rest h lt = rw (take_line-line (size - 1) [] rest h lt) refl
chunks_loop-line n size (ch ∷ s) rest h lt = rw (take_line-line (size - 1) (ch ∷ s) rest h lt) refl

chunks_loop-unlines :
    (n size : ℕ) (l : List Text)
    → are_lines (size - 1) l ≡ true
    → length (unlines l) ≤ n
    → chunks_loop n size (unlines l) ≡ ended l
unfolding chunks_loop
chunks_loop-unlines zero size [] h le = refl
chunks_loop-unlines (suc n) size [] h le = refl
chunks_loop-unlines zero size (s ∷ r) h le =
    absurd (omega (arith, le, length-append s (10 ∷ unlines r)))
chunks_loop-unlines (suc n) size (s ∷ r) h le =
    let len = length-append s (10 ∷ unlines r) in
    let fits : length s < size - 1 = ground arith in
    let good : is_line s ≡ true = ground arith in
    let others : are_lines (size - 1) r ≡ true = ground arith in
    let rest = chunks_loop-unlines n size r others (omega (arith, le, len)) in
    chunks_loop-line n size s (unlines r) good fits ∙ ap (λ t. (s ++ 10 ∷ []) ∷ t) rest

trim_newline-line : (s : Text) → is_line s ≡ true → trim_newline (s ++ 10 ∷ []) ≡ s
unfolding trim_newline
trim_newline-line [] h = refl
trim_newline-line (ch ∷ []) h = refl
trim_newline-line (ch ∷ d ∷ s) h = ground (arith, trim_newline-line (d ∷ s))

trim_each-ended : (bound : ℕ) (l : List Text) → are_lines bound l ≡ true → trim_each (ended l) ≡ l
unfolding trim_each
trim_each-ended bound [] h = refl
trim_each-ended bound (s ∷ r) h = ground (arith, trim_newline-line s, trim_each-ended bound r)

-- Where no line has a newline inside and each is shorter than 254 bytes, a script that has a newline
-- after each of them is read line by line, and nothing else is read.
pub readline_ni-unlines :
    (l : List Text) → are_lines (cmdbufsz - 2) l ≡ true → readline_ni (unlines l) ≡ l
unfolding readline_ni chunks
readline_ni-unlines l h =
    let e = chunks_loop-unlines (length (unlines l)) (cmdbufsz - 1) l h (omega arith) in
    ap trim_each e ∙ trim_each-ended (cmdbufsz - 2) l h
