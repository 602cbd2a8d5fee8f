-- ===== src/Common/Chars.antt =====
-- What the C library's character and string functions do in the C locale, which the program never
-- leaves, and the names that they read: the octets before the one that is 0.
use vasm_ext.Common.Tests.{◌==◌, leb, if◌then◌else◌}
use Prim.Native.Nat.{ℕ, zero, suc, ◌+◌, ◌<◌}
use mathlib.Core.Bool.{Bool, true, false, ◌&&◌}
use mathlib.Core.List.{List, [], ◌∷◌}

abbrev pub tolower : ℕ → ℕ
tolower c = if leb 65 c && leb c 90 then c + 32 else c

-- The octet that a pointer into a name reads, and the pointer after it.
abbrev pub char : List ℕ → ℕ
char [] = 0
char (c ∷ cs) = c

abbrev pub rest : List ℕ → List ℕ
rest [] = []
rest (c ∷ cs) = cs

-- Whether `strcmp` and `strncmp` return 0.
unfoldable pub strcmp_eq : List ℕ → List ℕ → Bool
strcmp_eq [] [] = true
strcmp_eq [] (d ∷ ds) = false
strcmp_eq (c ∷ cs) [] = false
strcmp_eq (c ∷ cs) (d ∷ ds) = (c == d) && strcmp_eq cs ds

unfoldable pub strncmp_eq : List ℕ → List ℕ → ℕ → Bool
strncmp_eq a b zero = true
strncmp_eq a b (suc n) =
    (char a == char b) && (if char a == 0 then true else strncmp_eq (rest a) (rest b) n)

abbrev pub IsName : List ℕ → Type 0
IsName [] = Unit
IsName (c ∷ cs) = (0 < c) × IsName cs
