-- ===== src/Names.antt =====
-- supp.c: the comparisons of names that ignore case.
use vasm_ext.Common.Chars.{tolower, char, rest}
use vasm_ext.Common.Int.{ℤ, pos, ◌⊖◌}
use vasm_ext.Common.{ℕ, zero, suc, Bool, true, false, List, [], ◌∷◌, ◌==◌, if◌then◌else◌}

unfoldable pub stricmp : List ℕ → List ℕ → ℤ
stricmp [] b = tolower 0 ⊖ tolower (char b)
stricmp (c ∷ cs) b =
    let later = stricmp cs (rest b) in
    if tolower c == tolower (char b) then later else tolower c ⊖ tolower (char b)

unfoldable pub strnicmp : List ℕ → List ℕ → ℕ → ℤ
strnicmp a b zero = pos 0
strnicmp a b (suc zero) = tolower (char a) ⊖ tolower (char b)
strnicmp a b (suc (suc n)) =
    let later = strnicmp (rest a) (rest b) (suc n) in
    if tolower (char a) == tolower (char b)
    then (if char a == 0 then pos 0 else later)
    else tolower (char a) ⊖ tolower (char b)

-- The C condition `!x`.
abbrev pub is_zero : ℤ → Bool
is_zero (pos zero) = true
is_zero _ = false
