-- ===== src/Base/Lines.antt =====
-- `fgets` on a stream that is a text, and the lines that a loop of it gives.
use Prim.Native.Nat.{ℕ, zero, suc, ◌-◌}
use mathlib.Core.List.{List, [], ◌∷◌}
use memtoy.Base.Tests.{◌==◌, if◌then◌else◌}
use memtoy.Base.Lists.{length}
use memtoy.Base.Texts.{Text}

-- Up to `k` bytes, or up to the end of the line with its newline.
unfoldable pub take_line : ℕ → Text → Text × Text
take_line zero s = ([], s)
take_line (suc k) [] = ([], [])
take_line (suc k) (ch ∷ s) =
    let (line, rest) = take_line k s in if ch == 10 then (10 ∷ [], s) else (ch ∷ line, rest)

-- What `fgets` with a buffer of `size` bytes gives until the end of the stream.
unfoldable pub chunks_loop : ℕ → ℕ → Text → List Text
chunks_loop zero size s = []
chunks_loop (suc rounds) size [] = []
chunks_loop (suc rounds) size (ch ∷ s) =
    let (line, rest) = take_line (size - 1) (ch ∷ s) in line ∷ chunks_loop rounds size rest

unfoldable pub chunks : ℕ → Text → List Text
chunks size s = chunks_loop (length s) size s
