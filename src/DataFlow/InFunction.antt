-- ===== src/DataFlow/InFunction.antt =====
-- findInFuncSourceCV of DataFlowAnalysis.cc: the walk from a value back to its sources within the
-- function.
use crix.Base.{
  ℕ, Bool, false, ◌||◌, not, Option, some, List, [], ◌∷◌, ◌++◌, flat_map, has, insert, nat_eq,
  if◌then◌else◌, ◌==◌, ◌>>=◌,
}
use crix.Ir.{Ir, Node}
use crix.Ir.Kinds.{is_constant, is_instruction, at_index}
use crix.Ir.Calls.{arg_no}
use crix.Context.{Context}
use crix.Walk.{Trace, Act, visit, note, walk}
use crix.DataFlow.Aliases.{get_alias_pointers}
use crix.DataFlow.Reach.{collect_pred_reach_blocks}

-- SourceSet.insert and CVSet.insert
pub data Mark : Type 0 where
  source variable : ℕ → Mark

pub record Found : Type 0 where
  pub source_set : List ℕ
  pub cv_set : List ℕ

abbrev pub add_mark : Mark → Found → Found
add_mark (source v) s = record s { source_set = insert v s.source_set }
add_mark (variable v) s = record s { cv_set = insert v s.cv_set }

-- Nothing cuts these walks short.
abbrev pub goes_on : Found → Bool
goes_on s = false

abbrev pub nothing_found : Found
nothing_found = record { source_set = []; cv_set = [] }

-- The calls on the incoming values of a phi node.
abbrev pub visit_incoming : List (ℕ × ℕ) → List (Act ℕ Mark)
visit_incoming [] = []
visit_incoming ((iv, bb) ∷ rest) = visit iv ∷ visit_incoming rest

module _ (ir : Ir) (ctx : Context) where
  -- The loop body for a user of an alias that is an instruction in a reached block.
  unfoldable pub in_func_access : ℕ → ℕ → Node → List (Act ℕ Mark)
  in_func_access a u (Node.store svo p) = if a == p then visit svo ∷ [] else []
  in_func_access a u (Node.call callee args) =
      note (source (at_index (ir.operands u) (arg_no a args)))
      ∷ note (variable (at_index (ir.operands u) (arg_no a args)))
      ∷ []
  in_func_access a u _ = []

  unfoldable pub in_func_user : List ℕ → ℕ → ℕ → List (Act ℕ Mark)
  unfolding in_func_access
  in_func_user reach_bbs a u =
      if not (is_instruction ir u) || not (has (ir.parent u) reach_bbs)
      then []
      else in_func_access a u (ir.node u)

  unfoldable pub in_func_aliases : List ℕ → List ℕ → List (Act ℕ Mark)
  unfolding in_func_user flat_map
  in_func_aliases reach_bbs alias_set =
      flat_map (λ a. flat_map (in_func_user reach_bbs a) (ir.users a)) alias_set

  -- What the function does for a load.
  unfoldable pub in_func_load : ℕ → ℕ → List ℕ → List (Act ℕ Mark)
  unfolding in_func_aliases
  in_func_load v lpo reach_bbs =
      note (variable v)
        ∷ in_func_aliases reach_bbs
            (get_alias_pointers lpo (ctx.func_pa_results (ir.block_parent (ir.parent v))))
      ++ visit lpo ∷ []

  -- What it does for a value that is neither tracked nor a constant.
  unfoldable pub in_func_node : ℕ → ℕ → Node → Option (List (Act ℕ Mark))
  unfolding in_func_load
  in_func_node fuel v (Node.argument f) = some (note (source v) ∷ note (variable v) ∷ [])
  in_func_node fuel v (Node.alloca o) = some (note (source v) ∷ note (variable v) ∷ [])
  in_func_node fuel v (Node.constant_expr o os) = some (visit o ∷ [])
  in_func_node fuel v (Node.call callee args) = some (note (source v) ∷ note (variable v) ∷ [])
  in_func_node fuel v (Node.select c t f) = some (note (variable v) ∷ visit t ∷ visit f ∷ [])
  in_func_node fuel v (Node.gep p) = some (note (variable v) ∷ visit p ∷ [])
  in_func_node fuel v (Node.phi incoming) = some (note (variable v) ∷ visit_incoming incoming)
  in_func_node fuel v (Node.load lpo) =
      collect_pred_reach_blocks ir fuel (ir.parent v) [] >>= λ reach_bbs.
      some (in_func_load v lpo reach_bbs)
  in_func_node fuel v (Node.icmp p a b) = some (note (variable v) ∷ [])
  in_func_node fuel v (Node.cast o) = some (note (variable v) ∷ visit o ∷ [])
  in_func_node fuel v (Node.extract_value o) = some (note (variable v) ∷ visit o ∷ [])
  in_func_node fuel v (Node.unary o) = some (note (variable v) ∷ visit o ∷ [])
  in_func_node fuel v (Node.binary a b) = some (note (variable v) ∷ visit a ∷ visit b ∷ [])
  in_func_node fuel v _ = some []

  unfoldable pub in_func_acts : ℕ → ℕ → Option (List (Act ℕ Mark))
  unfolding in_func_node is_constant
  in_func_acts fuel v =
      if is_constant ir v
      then some (note (source v) ∷ note (variable v) ∷ [])
      else in_func_node fuel v (ir.node v)

  -- The trace holds TrackedSet and the two result sets.
  unfoldable pub find_in_func_source_cv : ℕ → ℕ → Trace Found → Option (Trace Found)
  find_in_func_source_cv fuel v t = walk (λ v. v) add_mark goes_on (in_func_acts fuel) fuel v t
