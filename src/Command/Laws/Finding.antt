-- ===== src/Command/Laws/Finding.antt =====
-- The search of `parse_command` for an abbreviated command.
use memtoy.Base.{
  ◌≡◌, refl, Bool, true, false, List, [], ◌∷◌, Text, strncmp_eq, length, arith, if◌then◌else◌,
  Bool-cases, inl, inr, ap, ◌∙◌,
}
use memtoy.Command.Table.{
  Action, Found, command, ambiguous, unrecognized, unique_abbrev, find_command,
}

-- The functions of all commands that begin with the text, in the order of the table.
abbrev pub candidates : Text → List (Text × Action) → List Action
candidates cmd [] = []
candidates cmd ((name, f) ∷ r) =
    let rest = candidates cmd r in if strncmp_eq cmd name (length cmd) then f ∷ rest else rest

abbrev pub choose : List Action → Found
choose [] = unrecognized
choose (f ∷ []) = command f
choose (f ∷ g ∷ r) = ambiguous

abbrev pub no_action : List Action → Bool
no_action [] = true
no_action (f ∷ r) = false

unique_abbrev-lem :
    (cmd : Text) (table : List (Text × Action))
    → unique_abbrev cmd table ≡ no_action (candidates cmd table)
unfolding unique_abbrev
unique_abbrev-lem cmd [] = refl
unique_abbrev-lem cmd ((name, f) ∷ r) = ground (arith, unique_abbrev-lem cmd r)

choose-first :
    (f : Action) (l : List Action) → (if no_action l then command f else ambiguous) ≡ choose (f ∷ l)
choose-first f [] = refl
choose-first f (g ∷ l) = refl

-- The search gives the function of the only command that begins with the text; no such command is
-- an unrecognized one, and more than one an ambiguous one.
pub find_command-lem :
    (cmd : Text) (table : List (Text × Action))
    → find_command cmd table ≡ choose (candidates cmd table)
unfolding find_command
find_command-lem cmd [] = refl
find_command-lem cmd ((name, f) ∷ r) = elim (Bool-cases (strncmp_eq cmd name (length cmd))) [
  | inl e ↦
      rw (e, find_command)
        (ap (λ b. if b then command f else ambiguous) (unique_abbrev-lem cmd r)
          ∙ choose-first f (candidates cmd r))
  | inr e ↦ rw (e, find_command) (find_command-lem cmd r)
]
