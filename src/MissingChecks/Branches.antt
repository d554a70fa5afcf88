-- ===== src/MissingChecks/Branches.antt =====
-- collectAliasPointers and findClosestBranch of MissingChecks.cc, which nothing calls.
use crix.Base.{
  ℕ, Bool, true, false, Option, none, some, ◌>>=◌, List, [], ◌∷◌, if◌then◌else◌, ◌==◌, ltb, insert,
  has, length, nat_eq, ◌++◌,
}
use crix.Ir.{Ir, Node}
use crix.Ir.Kinds.{null, is_instruction, instructions}
use crix.Context.{Context}
use crix.Worklist.{Turn, stop, push, loop}
use crix.DataFlow.Order.{possible_use_st_result}
use crix.DataFlow.Reach.{collect_succ_reach_blocks}

-- What findClosestBranch leaves in BrSet; `undefined` is the insertion of an uninitialised pointer, or
-- the last block of a function that has none.
pub data Branches : Type 0 where
  branches : List ℕ → Branches
  undefined : Branches

-- CF->back()
abbrev last_block : List ℕ → Option ℕ
last_block [] = none
last_block (b ∷ []) = some b
last_block (b ∷ c ∷ bs) = last_block (c ∷ bs)

module _ (ir : Ir) (fuel : ℕ) where
  -- The turn of the loop over the instructions, for a load `li` from `lpo`.
  unfoldable pub alias_store : ℕ → ℕ → ℕ → List ℕ → Option (List ℕ)
  unfolding possible_use_st_result
  alias_store li lpo si alias_set = elim (ir.node si) [
    | Node.store sv p ↦
        if p == lpo
        then (possible_use_st_result ir fuel li si >>= λ may_use.
            some (if may_use then insert sv alias_set else alias_set))
        else some alias_set
    | _ ↦ some alias_set
  ]

  unfoldable pub alias_stores : ℕ → ℕ → List ℕ → List ℕ → Option (List ℕ)
  unfolding alias_store
  alias_stores li lpo [] alias_set = some alias_set
  alias_stores li lpo (i ∷ is) alias_set = alias_store li lpo i alias_set >>= alias_stores li lpo is

  -- `lpo` is the pointer operand of the load.
  unfoldable pub collect_alias_pointers : ℕ → ℕ → ℕ → List ℕ → Option (List ℕ)
  unfolding alias_stores instructions
  collect_alias_pointers f li lpo alias_set = elim (ir.node lpo) [
    | Node.alloca n ↦ alias_stores li lpo (instructions ir f) alias_set
    | _ ↦ some alias_set
  ]

  -- The loop over the successors of a predecessor of `tb`: is one of the others reached from `tb`?
  unfoldable pub is_parallel : ℕ → List ℕ → Option Bool
  unfolding collect_succ_reach_blocks
  is_parallel tb [] = some false
  is_parallel tb (succ ∷ succs) =
      let rest = is_parallel tb succs in
      if tb == succ
      then rest
      else (collect_succ_reach_blocks ir fuel tb [] >>= λ reach_bbs.
          if has succ reach_bbs then some true else rest)

  -- The loop over the predecessors of `tb`, which pushes them at the end of EB.
  unfoldable pub closest_body : ℕ → List ℕ → List ℕ → List ℕ → Option (Turn (List ℕ) ℕ)
  unfolding is_parallel
  closest_body tb [] pushed br_set = some (push br_set pushed)
  closest_body tb (pred ∷ preds) pushed br_set =
      let rest = closest_body tb preds (pushed ++ pred ∷ []) br_set in
      if ltb 1 (length (ir.succs pred))
      then (is_parallel tb (ir.succs pred) >>= λ found.
          if found then some (stop (insert (ir.terminator pred) br_set)) else rest)
      else rest

  unfoldable pub closest_loop : ℕ → List ℕ → Option (List ℕ)
  unfolding closest_body
  closest_loop bb = loop (λ b. b) (λ tb. closest_body tb (ir.preds tb) []) fuel [] (bb ∷ [])

  module _ (ctx : Context) where
    -- CF of a call with the called function `cf`.
    abbrev first_callee : ℕ → ℕ → ℕ
    first_callee ci cf = elim (ctx.callees ci) [ [] ↦ cf | c ∷ cs ↦ c ]

    unfoldable pub closest_return : ℕ → Option ℕ → List ℕ → Branches
    closest_return ci none br_set = Branches.branches br_set
    closest_return ci (some cf) br_set =
        if first_callee ci cf == null
        then Branches.branches br_set
        else elim (last_block (ir.blocks (first_callee ci cf))) [
          | none ↦ Branches.undefined
          | some b ↦ Branches.branches (insert (ir.terminator b) br_set)
        ]

    -- The branch instruction closest to an instruction.
    unfoldable pub closest_branch : ℕ → List ℕ → Option Branches
    unfolding closest_loop
    closest_branch sc br_set =
        if is_instruction ir sc
        then (closest_loop (ir.parent sc) br_set >>= λ r. some (Branches.branches r))
        else some (Branches.branches br_set)

    unfoldable pub find_closest_branch : ℕ → ℕ → List ℕ → Option Branches
    unfolding closest_return closest_branch
    find_closest_branch src sc br_set = elim (ir.node src) [
      | Node.call callee args ↦ some (closest_return src (ir.called_function src) br_set)
      | Node.argument f ↦
          if ir.address_taken f then some Branches.undefined else some (Branches.branches br_set)
      | _ ↦ closest_branch sc br_set
    ]
