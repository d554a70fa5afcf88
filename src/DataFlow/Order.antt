-- ===== src/DataFlow/Order.antt =====
-- possibleUseStResult of DataFlowAnalysis.cc: may an instruction run after a store?
use crix.Base.{ℕ, Bool, true, false, ◌||◌, Option, some, List, [], ◌∷◌, if◌then◌else◌, ◌==◌}
use crix.Ir.{Ir}
use crix.Ir.Kinds.{null}
use crix.Worklist.Search.{Sight, found, follow, search}

-- The loop over one block: is the store met before the instruction?
unfoldable pub meets_first : ℕ → ℕ → List ℕ → Bool
meets_first inst st [] = false
meets_first inst st (ii ∷ is) =
    if ii == st then true else if ii == inst then false else meets_first inst st is

module _ (ir : Ir) where
  -- The body of the breadth-first loop, for a block that was not processed.
  unfoldable pub look_for_block : ℕ → ℕ → Option Sight
  look_for_block inst_bb tb = some (if tb == inst_bb then found else follow (ir.succs tb))

  unfoldable pub possible_use_st_result : ℕ → ℕ → ℕ → Option Bool
  possible_use_st_result fuel inst st =
      let inst_bb = ir.parent inst in
      let st_bb = ir.parent st in
      if inst_bb == null || st_bb == null
      then some false
      else if inst_bb == st_bb
      then some (meets_first inst st (ir.body inst_bb))
      else search (look_for_block inst_bb) fuel st_bb
