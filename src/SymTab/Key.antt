-- ===== src/SymTab/Key.antt =====
-- What makes two names the same to a table: the name, or without case its lower case.
use mathlib.Core.Bool.{false≢true}
use vasm_ext.Common.Chars.{tolower, strcmp_eq, IsName}
use vasm_ext.Common.Int.{◌⊖◌}
use vasm_ext.Common.{
  ℕ, zero, suc, ◌≡◌, refl, sym, ap, ◌∙◌, ◌<◌, ◌%◌, arith, Bool, true, false, List, [], ◌∷◌, map,
  ◌==◌, Bool-cases, inl, inr, ==_iff, and_true,
}
use vasm_ext.Names.{stricmp, is_zero}
use vasm_ext.SymTab.{HashTable, hashcode, hashcode_nc, bucket, hash_from, hash_nc_from, hash_step}

abbrev pub key : Bool → List ℕ → List ℕ
key true name = map tolower name
key false name = name

-- The test of a lookup.
abbrev pub matches : Bool → List ℕ → List ℕ → Bool
matches true a b = is_zero (stricmp a b)
matches false a b = strcmp_eq a b

pub difference_zero : (a b : ℕ) → is_zero (a ⊖ b) ≡ (a == b)
difference_zero zero zero = refl
difference_zero zero (suc b) = ground arith
difference_zero (suc a) zero = ground arith
difference_zero (suc a) (suc b) = difference_zero a b ∙ ground arith

pub tolower_pos : (c : ℕ) → 0 < c → 0 < tolower c
tolower_pos c h = ground arith

pub eq_of_strcmp : (a b : List ℕ) → strcmp_eq a b ≡ true → a ≡ b
unfolding strcmp_eq
eq_of_strcmp [] [] h = refl
eq_of_strcmp [] (d ∷ ds) h = absurd (false≢true h)
eq_of_strcmp (c ∷ cs) [] h = absurd (false≢true h)
eq_of_strcmp (c ∷ cs) (d ∷ ds) h =
    let (e, f) = and_true (c == d) (strcmp_eq cs ds) h in
    cc ((==_iff c d).0 e, eq_of_strcmp cs ds f)

pub strcmp_refl : (a : List ℕ) → strcmp_eq a a ≡ true
unfolding strcmp_eq
strcmp_refl [] = refl
strcmp_refl (c ∷ cs) = let e : (c == c) ≡ true = ground arith in rw (e, strcmp_refl cs)

-- Without case, names are compared as their lower cases are.
pub stricmp-strcmp :
    (a b : List ℕ)
    → IsName a
    → IsName b
    → is_zero (stricmp a b) ≡ strcmp_eq (map tolower a) (map tolower b)
unfolding stricmp strcmp_eq
stricmp-strcmp [] [] na nb = refl
stricmp-strcmp [] (d ∷ ds) na nb =
    difference_zero 0 (tolower d) ∙ (ground (arith, tolower_pos d nb.0))
stricmp-strcmp (c ∷ cs) [] na nb =
    let e : (tolower c == 0) ≡ false = ground (arith, tolower_pos c na.0) in
    rw e (difference_zero (tolower c) 0 ∙ e)
stricmp-strcmp (c ∷ cs) (d ∷ ds) na nb = elim (Bool-cases (tolower c == tolower d)) [
  | inl e ↦ rw e (stricmp-strcmp cs ds na.1 nb.1)
  | inr e ↦ rw e (difference_zero (tolower c) (tolower d) ∙ e)
]

pub matches-key :
    (no_case : Bool) (a b : List ℕ)
    → IsName a
    → IsName b
    → matches no_case a b ≡ strcmp_eq (key no_case a) (key no_case b)
matches-key true a b na nb = stricmp-strcmp a b na nb
matches-key false a b na nb = refl

hash_nc_from-key : (a : List ℕ) (h : ℕ) → hash_nc_from h a ≡ hash_from h (map tolower a)
unfolding hash_from hash_nc_from
hash_nc_from-key [] h = refl
hash_nc_from-key (c ∷ cs) h = hash_nc_from-key cs (hash_step h (tolower c))

-- The bucket of a name in a table of the size.
unfoldable pub slot : ℕ → Bool → List ℕ → ℕ
slot size no_case name = hashcode (key no_case name) % size

pub bucket-slot {ℓ} :
    {A : Type ℓ} (ht : HashTable A) (a : List ℕ) (no_case : Bool)
    → bucket ht a no_case ≡ slot ht.size no_case a
unfolding bucket slot hashcode hashcode_nc
bucket-slot ht a true = ap (λ h. h % ht.size) (hash_nc_from-key a 5381)
bucket-slot ht a false = refl

module _ (no_case : Bool) (a b : List ℕ) (na : IsName a) (nb : IsName b) where
  pub key_of_matches : matches no_case a b ≡ true → key no_case a ≡ key no_case b
  key_of_matches h = eq_of_strcmp _ _ (sym (matches-key no_case a b na nb) ∙ h)

  pub matches_of_key : key no_case a ≡ key no_case b → matches no_case a b ≡ true
  matches_of_key e = matches-key no_case a b na nb ∙ (rw e (strcmp_refl (key no_case b)))

  pub matches-slot :
      (size : ℕ) → matches no_case a b ≡ true → slot size no_case a ≡ slot size no_case b
  unfolding slot
  matches-slot size h = ap (λ k. hashcode k % size) (key_of_matches h)

-- Names with one key match the same names.
pub matches_cong :
    (no_case : Bool) (a b c : List ℕ)
    → IsName a
    → IsName b
    → IsName c
    → key no_case a ≡ key no_case b
    → matches no_case a c ≡ matches no_case b c
matches_cong no_case a b c na nb nc e =
    matches-key no_case a c na nc
    ∙ ap (λ k. strcmp_eq k (key no_case c)) e
    ∙ sym (matches-key no_case b c nb nc)

pub matches_cong_right :
    (no_case : Bool) (a b c : List ℕ)
    → IsName a
    → IsName b
    → IsName c
    → key no_case a ≡ key no_case b
    → matches no_case c a ≡ matches no_case c b
matches_cong_right no_case a b c na nb nc e =
    matches-key no_case c a nc na
    ∙ ap (λ k. strcmp_eq (key no_case c) k) e
    ∙ sym (matches-key no_case c b nc nb)
