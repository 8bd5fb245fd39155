-- ===== src/Command/Laws/Lines.antt =====
-- Command lines: blanks around them, and comments.
use memtoy.Base.{
  ℕ, suc, ◌⊎◌, ◌≡◌, refl, sym, ap, ◌∙◌, Bool, true, false, ◌&&◌, ◌||◌, List, [], ◌∷◌, ◌++◌, Text,
  first, is_empty, skip, ◌==◌, arith, Bool-cases, inl, inr,
}
use memtoy.Context.{Kernel, Context}
use memtoy.Args.Sizes.{whitespace}
use memtoy.Signals.{reset_signal}
use memtoy.Children.{child_respond}
use memtoy.Command.Input.{script}
use memtoy.Command.Loop.{
  Event, trim_end, is_buffered, has_room, run_command, run_line, run_event, run_events,
}

-- Only blanks and tabs.
abbrev pub all_blank : Text → Bool
all_blank s = is_empty (skip whitespace s)

skip-append : (p : ℕ → Bool) (s t : Text) → is_empty (skip p s) ≡ true → skip p (s ++ t) ≡ skip p t
unfolding skip
skip-append p [] t h = refl
skip-append p (ch ∷ s) t h = ground (arith, skip-append p s t)

skip-append_left :
    (p : ℕ → Bool) (s t : Text) → is_empty (skip p s) ≡ false → skip p (s ++ t) ≡ skip p s ++ t
unfolding skip
skip-append_left p [] t h = absurd (ground arith)
skip-append_left p (ch ∷ s) t h = ground (arith, skip-append_left p s t)

trim_end-blank : (s : Text) → all_blank s ≡ true → trim_end s ≡ []
unfolding trim_end skip
trim_end-blank [] h = refl
trim_end-blank (ch ∷ s) h = ground (arith, trim_end-blank s)

trim_end-append : (s t : Text) → all_blank t ≡ true → trim_end (s ++ t) ≡ trim_end s
unfolding trim_end
trim_end-append [] t h = trim_end-blank t h
trim_end-append (ch ∷ s) t h = ground (arith, trim_end-append s t h)

empty_is : (s : Text) → is_empty s ≡ true → s ≡ []
empty_is [] h = refl
empty_is (ch ∷ s) h = absurd (ground arith)

front-append :
    (s t : Text) → is_empty s ≡ false → (is_empty (s ++ t) ≡ false) × (first (s ++ t) ≡ first s)
front-append [] t h = absurd (ground arith)
front-append (ch ∷ s) t h = (refl, refl)

-- A blank line or a comment.
abbrev pub is_comment : Text → Bool
is_comment s = let t = skip whitespace s in is_empty t || (first t == b'#')

-- As many answers as there are lines, from a process that answers.
abbrev pub answers : List Text → Context → Context
answers [] c = c
answers (s ∷ r) c = answers r (child_respond c)

abbrev pub all_comments : List Text → Bool
all_comments [] = true
all_comments (s ∷ r) = is_comment s && all_comments r

trim_end-first :
    (s : Text) (ch : ℕ) → (first s == suc ch) ≡ false → (first (trim_end s) == suc ch) ≡ false
unfolding trim_end
trim_end-first [] ch h = h
trim_end-first (b ∷ s) ch h = ground arith

same_room :
    (s t : Text) (c : Context)
    → (is_buffered c ≡ true) ⊎ ((first (skip whitespace t) == b'/') ≡ false)
    → (has_room s c ≡ has_room t c) ⊎ ((first (trim_end (skip whitespace t)) == b'/') ≡ false)
unfolding has_room
same_room s t c (inl h) = inl (rw h refl)
same_room s t c (inr h) = inr (trim_end-first (skip whitespace t) 46 h)

module _ (kernel : Kernel) (rounds : ℕ) where
  -- What stands behind the line counts only where it goes to a child.
  run_command-room :
      (room behind : Bool) (cmdline : Text) (c : Context)
      → (room ≡ behind) ⊎ ((first cmdline == b'/') ≡ false)
      → run_command kernel rounds room cmdline c ≡ run_command kernel rounds behind cmdline c
  unfolding run_command
  run_command-room room behind cmdline c (inl e) = ap (λ r. run_command kernel rounds r cmdline c) e
  run_command-room room behind cmdline c (inr e) = ground arith

  -- A line counts by what is left of it without blanks around it, and by what stands behind it.
  same_line :
      (s t : Text) (c : Context)
      → is_empty (skip whitespace s) ≡ is_empty (skip whitespace t)
      → first (skip whitespace s) ≡ first (skip whitespace t)
      → trim_end (skip whitespace s) ≡ trim_end (skip whitespace t)
      → (has_room s c ≡ has_room t c) ⊎ ((first (trim_end (skip whitespace t)) == b'/') ≡ false)
      → run_line kernel rounds s c ≡ run_line kernel rounds t c
  unfolding run_line
  same_line s t c h1 h2 h3 h =
      let cmdline = trim_end (skip whitespace t) in
      let c1 = reset_signal c in
      let e1 = run_command-room (has_room s c) (has_room t c) cmdline c h in
      let e2 = run_command-room (has_room s c) (has_room t c) cmdline c1 h in ground arith

  -- Where the process reads its lines by `readline_ni`, or the line does not begin with a slash behind its
  -- blanks: blanks and tabs in front of the line and behind it make no difference.
  pub run_line-trim :
      (before input behind : Text) (c : Context)
      → all_blank before ≡ true
      → all_blank behind ≡ true
      → (is_buffered c ≡ true) ⊎ ((first (skip whitespace input) == b'/') ≡ false)
      → run_line kernel rounds (before ++ (input ++ behind)) c ≡ run_line kernel rounds input c
  run_line-trim before input behind c hb he hr =
      let whole = before ++ (input ++ behind) in
      let e1 = skip-append whitespace before (input ++ behind) hb in
      let room = same_room whole input c hr in
      elim (Bool-cases (is_empty (skip whitespace input))) [
        | inl q ↦
            let e2 = skip-append whitespace input behind q in
            let e3 = e1 ∙ e2 ∙ empty_is (skip whitespace behind) he in
            let e4 = empty_is (skip whitespace input) q in
            let e5 = e3 ∙ sym e4 in
            same_line whole input c (ap is_empty e5) (ap first e5) (ap trim_end e5) room
        | inr q ↦
            let e2 = e1 ∙ skip-append_left whitespace input behind q in
            let (some_left, same_first) = front-append (skip whitespace input) behind q in
            same_line whole input c (ap is_empty e2 ∙ some_left ∙ sym q) (ap first e2 ∙ same_first)
              (ap trim_end e2 ∙ trim_end-append (skip whitespace input) behind he) room
      ]

  -- Blank lines and comments in front of the input are only answered.
  pub run_events-comments :
      (comments : List Text) (rest : List Event) (c : Context)
      → all_comments comments ≡ true
      → run_events kernel rounds (script comments ++ rest) c
        ≡ run_events kernel rounds rest (answers comments c)
  unfolding run_events run_event run_line script
  run_events-comments [] rest c h = refl
  run_events-comments (s ∷ r) rest c h =
      ground (arith, run_events-comments r rest (child_respond c))
