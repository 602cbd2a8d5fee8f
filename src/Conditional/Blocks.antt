-- ===== src/Conditional/Blocks.antt =====
-- Conditional blocks as trees, what a reader expects them to assemble, and their lines.
use vasm_ext.Common.{ℕ, suc, Bool, true, false, List, [], ◌∷◌, ◌++◌, ◌&&◌, if◌then◌else◌}
use vasm_ext.Conditional.{Line, if_line, else_line, elseif_line, endif_line, other}
use Prim.Native.Nat.{max}

-- `block b body tail rest` is `if b`, `body`, then the other branches and the `endif`.
mutual
  pub data Items : Type 0 where
    nil : Items
    text : ℕ → Items → Items
    block : Bool → Items → Tail → Items → Items

  pub data Tail : Type 0 where
    end_if : Tail
    or_else : Items → Tail
    or_elseif : Bool → Items → Tail → Tail

unfoldable mutual
  pub lines : Items → List Line
  lines nil = []
  lines (text x r) = other x ∷ lines r
  lines (block b body t r) = if_line b ∷ (lines body ++ (tail_lines t ++ lines r))

  pub tail_lines : Tail → List Line
  tail_lines end_if = endif_line ∷ []
  tail_lines (or_else body) = else_line ∷ (lines body ++ endif_line ∷ [])
  tail_lines (or_elseif b body t) = elseif_line b ∷ (lines body ++ tail_lines t)

-- The first branch whose condition holds is assembled, and no other.
unfoldable mutual
  pub chosen : Items → List ℕ
  chosen nil = []
  chosen (text x r) = x ∷ chosen r
  chosen (block b body t r) = (if b then chosen body else chosen_tail t) ++ chosen r

  pub chosen_tail : Tail → List ℕ
  chosen_tail end_if = []
  chosen_tail (or_else body) = chosen body
  chosen_tail (or_elseif b body t) = if b then chosen body else chosen_tail t

-- How many levels are opened at once.
unfoldable mutual
  pub depth : Items → ℕ
  depth nil = 0
  depth (text x r) = depth r
  depth (block b body t r) = max (suc (max (depth body) (tail_depth t))) (depth r)

  pub tail_depth : Tail → ℕ
  tail_depth end_if = 0
  tail_depth (or_else body) = depth body
  tail_depth (or_elseif b body t) = max (depth body) (tail_depth t)

-- No block in these lines has an `elseif`.
unfoldable mutual
  pub plain : Items → Bool
  plain nil = true
  plain (text x r) = plain r
  plain (block b body t r) = plain body && plain_tail t && plain r

  pub plain_tail : Tail → Bool
  plain_tail end_if = true
  plain_tail (or_else body) = plain body
  plain_tail (or_elseif b body t) = false

-- No block inside of a branch that is skipped has an `elseif`.
unfoldable mutual
  pub supported : Items → Bool
  supported nil = true
  supported (text x r) = supported r
  supported (block b body t r) =
      (if b then supported body && skipped_tail t else plain body && supported_tail t)
      && supported r

  -- The branches after one that was taken, and those before.
  pub skipped_tail : Tail → Bool
  skipped_tail end_if = true
  skipped_tail (or_else body) = plain body
  skipped_tail (or_elseif b body t) = plain body && skipped_tail t

  pub supported_tail : Tail → Bool
  supported_tail end_if = true
  supported_tail (or_else body) = supported body
  supported_tail (or_elseif b body t) =
      if b then supported body && skipped_tail t else plain body && supported_tail t
