-- ===== src/Symbols/Restore.antt =====
-- `restore_symbols` after symbols were added to a list that was saved.
use mathlib.Core.List.{reverse, reverse-cons, append_assoc, append-nil}
use vasm_ext.Common.Chars.{IsName}
use vasm_ext.Common.Run.{Run, ok, fatal}
use vasm_ext.Common.{
  ℕ, ◌≡◌, arith, refl, sym, ap, ◌∙◌, inl, inr, Bool, true, false, ◌&&◌, ◌||◌, not, Bool-cases,
  Option, none, some, List, [], ◌∷◌, ◌++◌, ◌==◌, if◌then◌else◌,
}
use vasm_ext.SymTab.Key.{matches}
use vasm_ext.SymTab.Lookup.{lookup}
use vasm_ext.SymTab.Table.{IsValid, lookup-rem_hashentry}
use vasm_ext.SymTab.{HashTable, rem_hashentry}
use vasm_ext.Symbols.{Entry, Table, restored, restore_loop, restore_saved, restore_symbols}

abbrev value_of : HashTable ℕ → Run (HashTable ℕ) → HashTable ℕ
value_of d (ok ht) = ht
value_of d (fatal n) = d

-- The table after a name is removed, for all other names.
removed :
    (b : Bool) (ht : HashTable ℕ) (name : List ℕ) (d : ℕ)
    → IsName name
    → IsValid b ht
    → lookup b ht name ≡ some d
    → (ht' : HashTable ℕ) × (rem_hashentry ht name b ≡ ok ht')
      × IsValid b ht'
      × ((other : List ℕ)
          → IsName other
          → lookup b ht' other ≡ (if matches b other name then none else lookup b ht other))
removed b ht name d n v h =
    let (t, e, w, _) = lookup-rem_hashentry b ht name name d n n v h in
    (
      t,
      e,
      w,
      λ other o.
          let (u, f, _, l) = lookup-rem_hashentry b ht name other d n o v h in
          ap (λ r. lookup b (value_of ht r) other) (sym e ∙ f) ∙ l,
    )

module _ (store : ℕ → Entry) (b : Bool) where
  -- The symbols of a list are in the table, under names that differ from each other.
  abbrev pub Present : HashTable ℕ → List ℕ → Type 0
  Present ht [] = Unit
  Present ht (p ∷ ps) =
      IsName (store p).name × ((d : ℕ) × (lookup b ht (store p).name ≡ some d)) × Present ht ps

  abbrev pub DiffersFrom : List ℕ → List ℕ → Type 0
  DiffersFrom name [] = Unit
  DiffersFrom name (q ∷ qs) = (matches b (store q).name name ≡ false) × DiffersFrom name qs

  abbrev pub Distinct : List ℕ → Type 0
  Distinct [] = Unit
  Distinct (p ∷ ps) = DiffersFrom (store p).name ps × Distinct ps

  -- The protected symbols of a list.
  abbrev pub protected_of : List ℕ → List ℕ
  protected_of [] = []
  protected_of (p ∷ ps) = if (store p).protected then p ∷ protected_of ps else protected_of ps

  -- Whether a name is that of a symbol which is not protected.
  abbrev pub is_dropped : List ℕ → List ℕ → Bool
  is_dropped other [] = false
  is_dropped other (p ∷ ps) =
      (not (store p).protected && matches b other (store p).name) || is_dropped other ps

  Present-removed :
      (ht ht' : HashTable ℕ) (name : List ℕ)
      → ((other : List ℕ)
          → IsName other
          → lookup b ht' other ≡ (if matches b other name then none else lookup b ht other))
      → (ps : List ℕ) → DiffersFrom name ps
      → Present ht ps
      → Present ht' ps
  Present-removed ht ht' name look [] d p = tt
  Present-removed ht ht' name look (q ∷ qs) (e, ds) (n, (v, l), ps) =
      (n, (v, look (store q).name n ∙ rw e l), Present-removed ht ht' name look qs ds ps)

abbrev pub IsOther : ℕ → List ℕ → Type 0
IsOther saved [] = Unit
IsOther saved (p ∷ ps) = ((p == saved) ≡ false) × IsOther saved ps

-- The protected symbols before those that are kept already: the newest comes last.
abbrev keepers : (ℕ → Entry) → List ℕ → List ℕ → List ℕ
keepers store [] kept = kept
keepers store (p ∷ ps) kept = keepers store ps (if (store p).protected then p ∷ kept else kept)

keepers-reverse :
    (store : ℕ → Entry) (b : Bool) (l kept : List ℕ)
    → keepers store l kept ≡ reverse (protected_of store b l) ++ kept
keepers-reverse store b [] kept = refl
keepers-reverse store b (p ∷ ps) kept = elim (Bool-cases (store p).protected) [
  | inl e ↦ rw (e, reverse-cons, append_assoc) (keepers-reverse store b ps (p ∷ kept))
  | inr e ↦ rw e (keepers-reverse store b ps kept)
]

drop_twice :
    (p q : Bool) (x y : Option ℕ)
    → y ≡ (if q then none else x)
    → (if p then none else y) ≡ (if q || p then none else x)
drop_twice true true x y h = refl
drop_twice true false x y h = refl
drop_twice false true x y h = h
drop_twice false false x y h = h

-- What is left after the loop over the symbols `new`.
abbrev Outcome : Table → ℕ → List ℕ → List ℕ → List ℕ → Type 0
Outcome s saved kept old new =
    (ht : HashTable ℕ) × (restore_loop saved kept (new ++ saved ∷ old) s
      ≡ restored (record s {
        list = keepers s.store new kept ++ saved ∷ old;
        saved_symbol = none;
        symhash = ht;
      }))
    × IsValid s.nocase ht
    × ((other : List ℕ)
        → IsName other
        → lookup s.nocase ht other ≡ (
            if is_dropped s.store s.nocase other new
            then none
            else lookup s.nocase s.symhash other))

restore_loop_lem :
    (saved : ℕ) (old new kept : List ℕ) (s : Table)
    → IsOther saved new
    → Distinct s.store s.nocase new
    → Present s.store s.nocase s.symhash new
    → IsValid s.nocase s.symhash
    → Outcome s saved kept old new
unfolding restore_loop
restore_loop_lem saved old [] kept s i d p v =
    (s.symhash, (let e : (saved == saved) ≡ true = ground arith in rw e refl), v, λ other o. refl)
restore_loop_lem saved old (q ∷ qs) kept s (i, is) (e, ds) (n, (x, l), ps) v =
    elim (Bool-cases (s.store q).protected) as (λ _. Outcome s saved kept old (q ∷ qs)) [
      | inl t ↦
          let (ht, run, w, look) = restore_loop_lem saved old qs (q ∷ kept) s is ds ps v in
          (ht, rw (i, t) run, w, λ other o. rw t (look other o))
      | inr f ↦
          let (t, removes, w, look) = removed s.nocase s.symhash (s.store q).name x n v l in
          let present =
            Present-removed s.store s.nocase s.symhash t (s.store q).name look qs e ps in
          let (ht, run, u, later) =
            restore_loop_lem saved old qs kept (record s { symhash = t }) is ds present w in
          (
            ht,
            rw (i, f, removes) run,
            u,
            λ other o.
                later other o
                ∙ (rw f (
                    drop_twice (is_dropped s.store s.nocase other qs)
                      (matches s.nocase other (s.store q).name) _ _ (look other o))),
          )
    ]

-- From a list whose first symbol was `saved` when it was saved, with the symbols `new` added since,
-- all of them in a valid table under names that differ: the symbols that are not protected leave
-- the list and the table, in which all other names are as before; those that are protected stay in
-- front of the list, the oldest first.
pub restore_symbols-Restored :
    (saved : ℕ) (old new : List ℕ) (s : Table) (other : List ℕ)
    → s.saved_symbol ≡ some saved
    → s.list ≡ new ++ saved ∷ old
    → IsOther saved new
    → Distinct s.store s.nocase new
    → Present s.store s.nocase s.symhash new
    → IsValid s.nocase s.symhash
    → IsName other
    → (ht : HashTable ℕ) × (restore_symbols s
        ≡ restored (record s {
          list = reverse (protected_of s.store s.nocase new) ++ saved ∷ old;
          saved_symbol = none;
          symhash = ht;
        }))
      × IsValid s.nocase ht
      × (lookup s.nocase ht other ≡ (
          if is_dropped s.store s.nocase other new then none else lookup s.nocase s.symhash other))
unfolding restore_symbols
restore_symbols-Restored saved old new s other is list i d p v o =
    let (ht, run, w, look) = restore_loop_lem saved old new [] s i d p v in
    (
      ht,
      ap (λ o. restore_saved o s) is
          ∙ ap (λ l. restore_loop saved [] l s) list
          ∙ run
          ∙ ap
              (λ l.
                restored (record s { list = l ++ saved ∷ old; saved_symbol = none; symhash = ht }))
              (keepers-reverse s.store s.nocase new [] ∙ append-nil _),
      w,
      look other o,
    )
