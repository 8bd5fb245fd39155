-- ===== src/Children/Answers.antt =====
-- The answers that a child process gives (`child_respond` of commands.c): a write of "OK". A history
-- of calls shows how many it has given.
use memtoy.Base.{
  ℕ, suc, ◌≡◌, Bool, false, Option, List, [], ◌∷◌, Text, text, text_eq, if◌then◌else◌,
}
use memtoy.Context.{Child, Call, Context}

-- A write of the text "OK".
abbrev pub is_answer : Call → Bool
is_answer call = elim call [ Call.write fd t ↦ text_eq t (text "OK") | other ↦ false ]

-- The answers in a history.
abbrev pub answered : List Call → ℕ
answered [] = 0
answered (call ∷ r) = let rest = answered r in if is_answer call then suc rest else rest

-- What the answers of a process depend on: its name, where it writes them to, and how many it has
-- given.
abbrev pub voice : Context → Option Text × ℕ × ℕ
voice c = (c.child_name, c.response_fd, answered c.trace)

-- The answers, and whether the point that `touch_memory` jumps to is armed.
abbrev pub tone : Context → (Option Text × ℕ × ℕ) × Bool
tone c = (voice c, c.sigjmp)

-- What the segment API leaves alone but at a touch: the answers, the list of children, and whether the
-- point that `touch_memory` jumps to is armed.
abbrev pub family : Context → (Option Text × ℕ × ℕ) × List Child
family c = (voice c, c.children)

abbrev pub outside : Context → (Option Text × ℕ × ℕ) × List Child × Bool
outside c = (voice c, c.children, c.sigjmp)

-- Where the point is not armed before, it is not afterwards.
abbrev pub Calm : Context → Context → Type 0
Calm c d = c.sigjmp ≡ false → d.sigjmp ≡ false
