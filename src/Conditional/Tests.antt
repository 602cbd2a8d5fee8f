-- ===== src/Conditional/Tests.antt =====
-- Sources on which the theorems of conditional assembly are applied.
use vasm_ext.Common.Run.{ok}
use vasm_ext.Common.{◌≡◌, refl, arith, true, false, [], ◌∷◌, ◌==◌, if◌then◌else◌}
use vasm_ext.Conditional.Blocks
use vasm_ext.Conditional.Blocks.{Items, nil, text, block, end_if, or_else, or_elseif, lines, chosen}
use vasm_ext.Conditional.Errors.{Outcome, cond_init-IsValid, parse_line-Outcome, elseif_nested}
use vasm_ext.Conditional.Levels.{Same}
use vasm_ext.Conditional.Refine.{parse-chosen}
use vasm_ext.Conditional.{
  Cond, on, off, cond_init, cond_state, if_line, elseif_line, parse_line, parse,
}

abbrev start : Cond
start = record { clev = 0; cond = λ i. on; condline = λ i. 0; ifnesting = 0; errors = [] }

-- In a branch that was not taken, inside of one more `if`.
abbrev skipping : Cond
skipping = record {
  clev = 1;
  cond = λ i. if i == 0 then on else off;
  condline = λ i. 0;
  ifnesting = 1;
  errors = [];
}

-- 1, then a block whose second branch is taken and has a block with an `else`, then 5.
abbrev source : Items
source = text 1 (
    block false (block true (text 2 nil) end_if nil)
      (or_elseif true (block false (text 3 nil) (or_else (text 4 nil)) nil) (or_else (text 9 nil)))
      (text 5 nil))

parse-chosen_example :
    (v : Cond) × (parse 1 (lines source) start [] ≡ ok (v, 1 ∷ 4 ∷ 5 ∷ [])) × Same start v
unfolding cond_state Blocks.supported Blocks.plain Blocks.depth Blocks.chosen
parse-chosen_example = parse-chosen source 1 start [] refl refl refl (omega arith)

parse_line-Outcome_example :
    Outcome (cond_init start) (parse_line 7 (if_line true) (cond_init start))
parse_line-Outcome_example =
    parse_line-Outcome 7 (if_line true) (cond_init start) (cond_init-IsValid start)

elseif_nested_example :
    (v : Cond) × (parse_line 3 (elseif_line true) skipping ≡ ok (v, []))
    × (cond_state v ≡ true)
    × (v.ifnesting ≡ 1)
elseif_nested_example = elseif_nested 3 skipping (omega arith) (omega arith) refl
