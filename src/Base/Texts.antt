-- ===== src/Base/Texts.antt =====
-- C strings as lists of byte values without the terminating zero, and the routines of the C
-- library that the program calls on them. A read at the end gives the byte 0.
use Prim.Native.Char.{code}
use Prim.Native.Nat.{ℕ, zero, suc, ◌+◌}
use Prim.Native.String.{String}
use mathlib.Core.Path.{◌≡◌, refl}
use mathlib.Core.Logic.{◌↔◌}
use mathlib.Core.Bool.{Bool, true, false, ◌&&◌}
use mathlib.Core.List.{List, [], ◌∷◌, ◌++◌}
use native.Mathlib.Omega.{arith}
use memtoy.Base.Tests.{leb, ◌==◌, if◌then◌else◌}

abbrev pub Text : Type 0
Text = List ℕ

-- The bytes of an ASCII literal.
abbrev pub text : String → Text
text String.[] = []
text (String.◌∷◌ c s) = code c ∷ text s

-- `*s`
abbrev pub first : Text → ℕ
first [] = 0
first (c ∷ s) = c

-- `s + 1`
abbrev pub next : Text → Text
next [] = []
next (c ∷ s) = s

abbrev pub is_empty : Text → Bool
is_empty [] = true
is_empty (c ∷ s) = false

-- `!strcmp(s, t)`
unfoldable pub text_eq : Text → Text → Bool
text_eq [] [] = true
text_eq [] (d ∷ t) = false
text_eq (c ∷ s) [] = false
text_eq (c ∷ s) (d ∷ t) = (c == d) && text_eq s t

pub text_eq_refl : (s : Text) → text_eq s s ≡ true
unfolding text_eq
text_eq_refl [] = refl
text_eq_refl (c ∷ s) = ground (arith, text_eq_refl s)

pub text_eq_iff : (s t : Text) → (text_eq s t ≡ true) ↔ (s ≡ t)
unfolding text_eq
text_eq_iff [] [] = (λ _. refl, λ _. refl)
text_eq_iff [] (d ∷ t) = (λ h. cc, λ h. cc)
text_eq_iff (c ∷ s) [] = (λ h. cc, λ h. cc)
text_eq_iff (c ∷ s) (d ∷ t) = ground (arith, text_eq_iff s t)

-- `!strncmp(s, t, n)`: both agree up to `n` bytes or up to a common end.
unfoldable pub strncmp_eq : Text → Text → ℕ → Bool
strncmp_eq s t zero = true
strncmp_eq [] [] (suc n) = true
strncmp_eq [] (d ∷ t) (suc n) = false
strncmp_eq (c ∷ s) [] (suc n) = false
strncmp_eq (c ∷ s) (d ∷ t) (suc n) = (c == d) && strncmp_eq s t n

unfoldable pub tolower : ℕ → ℕ
tolower c = if leb 65 c && leb c 90 then c + 32 else c

-- `!strncasecmp(s, t, n)`
unfoldable pub strncasecmp_eq : Text → Text → ℕ → Bool
unfolding tolower
strncasecmp_eq s t zero = true
strncasecmp_eq [] [] (suc n) = true
strncasecmp_eq [] (d ∷ t) (suc n) = false
strncasecmp_eq (c ∷ s) [] (suc n) = false
strncasecmp_eq (c ∷ s) (d ∷ t) (suc n) = (tolower c == tolower d) && strncasecmp_eq s t n

-- `!strcasecmp(s, t)`
unfoldable pub strcasecmp_eq : Text → Text → Bool
unfolding tolower
strcasecmp_eq [] [] = true
strcasecmp_eq [] (d ∷ t) = false
strcasecmp_eq (c ∷ s) [] = false
strcasecmp_eq (c ∷ s) (d ∷ t) = (tolower c == tolower d) && strcasecmp_eq s t

abbrev pub is_digit : ℕ → Bool
is_digit c = leb 48 c && leb c 57

-- A test for the bytes of a delimiter set.
abbrev pub Delim : Type 0
Delim = ℕ → Bool

-- `s + strspn(s, set)`
unfoldable pub skip : Delim → Text → Text
skip d [] = []
skip d (c ∷ s) = let rest = skip d s in if d c then rest else c ∷ s

-- The bytes before the first one of the set.
unfoldable pub take_until : Delim → Text → Text
take_until d [] = []
take_until d (c ∷ s) = let rest = take_until d s in if d c then [] else c ∷ rest

-- `s + strcspn(s, set)`
unfoldable pub drop_until : Delim → Text → Text
drop_until d [] = []
drop_until d (c ∷ s) = let rest = drop_until d s in if d c then c ∷ s else rest

-- `strtok_r(s, set, &next)`: the token, and what stands behind the byte that ends it.
unfoldable pub strtok : Delim → Text → Text × Text
unfolding skip take_until drop_until
strtok d s = let t = skip d s in (take_until d t, next (drop_until d t))

pub take_until-append-drop_until : (d : Delim) (s : Text) → take_until d s ++ drop_until d s ≡ s
unfolding take_until drop_until
take_until-append-drop_until d [] = refl
take_until-append-drop_until d (c ∷ s) = ground (arith, take_until-append-drop_until d s)
