-- ===== src/Command/Input.antt =====
-- `readline_ni` of commands.c: the lines of an input that is no terminal, a script or the pipe to a
-- child. The input is a text; a longer line than the buffer comes in pieces.
use memtoy.Base.{ℕ, ◌-◌, List, [], ◌∷◌, Text, ◌==◌, if◌then◌else◌}
use memtoy.Base.Lines.{chunks}
use memtoy.Command.Loop.{Event, line}

-- `CMDBUFSZ`
abbrev pub cmdbufsz : ℕ
cmdbufsz = 256

-- The newline at the end is cut off.
unfoldable pub trim_newline : Text → Text
trim_newline [] = []
trim_newline (ch ∷ []) = if ch == 10 then [] else ch ∷ []
trim_newline (ch ∷ d ∷ s) = ch ∷ trim_newline (d ∷ s)

unfoldable pub trim_each : List Text → List Text
trim_each [] = []
trim_each (s ∷ r) = trim_newline s ∷ trim_each r

-- All the calls up to the end of the input.
unfoldable pub readline_ni : Text → List Text
readline_ni input = trim_each (chunks (cmdbufsz - 1) input)

-- The lines of a script, as the loop of commands gets them.
unfoldable pub script : List Text → List Event
script [] = []
script (s ∷ r) = line s ∷ script r
