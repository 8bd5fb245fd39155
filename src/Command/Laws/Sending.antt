-- ===== src/Command/Laws/Sending.antt =====
-- `child_send` and the line that the child reads from its pipe.
use memtoy.Base.{
  ℕ, suc, ◌≤◌, ◌<◌, ◌≡◌, ◌⊎◌, refl, Bool, true, false, none, some, [], ◌∷◌, ◌++◌, Text, length,
  first, next, skip, take_until, drop_until, is_empty, ◌==◌, arith, if◌then◌else◌, inl, inr,
  Option-cases, Bool-cases,
}
use memtoy.Context.{Child, Kernel, Call, Context}
use memtoy.Args.Sizes.{whitespace}
use memtoy.Command.Common.{cmd_success, cmd_error}
use memtoy.Children.{child_delim, child_send, find_by_name}
use memtoy.Command.Input.{readline_ni}
use memtoy.Command.Laws.Reading.{is_line, readline_ni-unlines}

-- A part of a line, from some byte on, is a line and no longer.
abbrev Within : Text → Text → Type 0
Within s t = (is_line s ≡ true → is_line t ≡ true) × (length t ≤ length s)

next-Within : (s : Text) → Within s (next s)
next-Within [] = (λ h. h, omega arith)
next-Within (ch ∷ s) = (λ h. ground arith, omega arith)

skip-Within : (p : ℕ → Bool) (s : Text) → Within s (skip p s)
unfolding skip
skip-Within p [] = (λ h. h, omega arith)
skip-Within p (ch ∷ s) = let ih = skip-Within p s in (λ h. ground arith, ground arith)

drop_until-Within : (p : ℕ → Bool) (s : Text) → Within s (drop_until p s)
unfolding drop_until
drop_until-Within p [] = (λ h. h, omega arith)
drop_until-Within p (ch ∷ s) = let ih = drop_until-Within p s in (λ h. ground arith, ground arith)

-- The child that a line names, and the command that is left for it.
abbrev pub child_of : Text → Text
child_of s = take_until child_delim (skip child_delim s)

abbrev pub command_of : Text → Text
command_of s =
    let after = drop_until child_delim (skip child_delim s) in
    let rest = skip whitespace (next after) in if first after == b'/' then b'/' ∷ rest else rest

command_of-Within : (s : Text) → Within s (command_of s)
command_of-Within s =
    let t = skip child_delim s in
    let after = drop_until child_delim t in
    let rest = skip whitespace (next after) in
    let a = skip-Within child_delim s in
    let b = drop_until-Within child_delim t in
    let d = skip-Within whitespace (next after) in
    let e = next-Within after in
    let shorter : (u : Text) → (first u == b'/') ≡ true → suc (length (next u)) ≤ length u = λ u.
      elim u as (λ u. (first u == b'/') ≡ true → suc (length (next u)) ≤ length u) [
        | [] ↦ λ h. absurd (ground arith)
        | ch ∷ r ↦ λ h. omega arith
      ] in
    elim (Bool-cases (first after == b'/')) [
      | inl q ↦ (let f = shorter after q in (λ h. ground arith, ground arith))
      | inr q ↦ (λ h. ground arith, ground arith)
    ]

empty_behind : (p : ℕ → Bool) (s : Text) → is_empty (drop_until p s) ≡ false → is_empty s ≡ false
unfolding drop_until
empty_behind p [] h = h
empty_behind p (ch ∷ s) h = refl

module _ (kernel : Kernel) where
  -- A line shorter than 254 bytes, without a newline, that names a child and goes on behind the name:
  -- where there is no child of the name, it is an error and nothing changes; else the child is written
  -- the command with a newline, which it reads as one line, and then one answer of it is read where the
  -- status is a success, and none where it is an error.
  pub child_send-line :
      (room : Bool) (s : Text) (c : Context)
      → is_line s ≡ true
      → length s < 254
      → is_empty (drop_until child_delim (skip child_delim s)) ≡ false
      → (first (skip child_delim s) == b'?') ≡ false
      → let out = child_send kernel room s c in
        ((find_by_name (child_of s) c.children ≡ none) × (out ≡ (cmd_error, c)))
        ⊎ (ch : Child) × (find_by_name (child_of s) c.children ≡ some ch)
          × (readline_ni (command_of s ++ 10 ∷ []) ≡ command_of s ∷ [])
          × (((out.0 ≡ cmd_success)
                × (out.1.trace
                    ≡ Call.read ch.c_rfd ∷ Call.write ch.c_cfd (command_of s ++ 10 ∷ []) ∷ c.trace))
              ⊎ ((out.0 ≡ cmd_error)
                  × (out.1.trace ≡ Call.write ch.c_cfd (command_of s ++ 10 ∷ []) ∷ c.trace)))
  unfolding child_send
  child_send-line room s c h lt behind query =
      let (good, short) = command_of-Within s in
      let goes = readline_ni-unlines (command_of s ∷ []) (ground (arith, good, short)) in
      let full = empty_behind child_delim (skip child_delim s) behind in
      elim (Option-cases (find_by_name (child_of s) c.children)) [
        | inl e ↦ inl (e, ground arith)
        | inr (ch, e) ↦ inr (ch, e, goes, ground arith)
      ]
