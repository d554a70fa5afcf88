-- ===== src/MissingChecks/Sources.antt =====
-- findSourceCV of MissingChecks.cc: the walk from a value back to the arguments, globals and calls
-- that it comes from.
use crix.Base.{
  ℕ, Bool, false, Option, some, List, [], ◌∷◌, ◌++◌, flat_map, has, insert, nat_eq, if◌then◌else◌,
  ◌==◌, ◌>>=◌,
}
use crix.Ir.{Ir, Node}
use crix.Ir.Kinds.{is_constant_node}
use crix.Context.{Context}
use crix.Walk.{Trace, Act, visit, note, walk}
use crix.DataFlow.Aliases.{get_alias_pointers}
use crix.DataFlow.Reach.{collect_pred_reach_blocks}

abbrev pub goes_on : List ℕ → Bool
goes_on cv_set = false

abbrev pub visit_incoming : List (ℕ × ℕ) → List (Act ℕ ℕ)
visit_incoming [] = []
visit_incoming ((iv, bb) ∷ rest) = visit iv ∷ visit_incoming rest

module _ (ir : Ir) (ctx : Context) where
  -- A store to an alias in a reached block.
  unfoldable pub stored_source : List ℕ → ℕ → ℕ → Node → List (Act ℕ ℕ)
  stored_source reach_bbs a u (Node.store svo p) =
      if a == p then (if has (ir.parent u) reach_bbs then visit svo ∷ [] else []) else []
  stored_source reach_bbs a u _ = []

  unfoldable pub load_sources : ℕ → ℕ → List ℕ → List (Act ℕ ℕ)
  unfolding stored_source flat_map
  load_sources v lpo reach_bbs =
      flat_map (λ a. flat_map (λ u. stored_source reach_bbs a u (ir.node u)) (ir.users a))
        (get_alias_pointers lpo (ctx.func_pa_results (ir.block_parent (ir.parent v))))
      ++ visit lpo ∷ []

  -- An operand of a binary operator.
  abbrev pub if_variable : ℕ → List (Act ℕ ℕ)
  if_variable opd = if is_constant_node (ir.node opd) then [] else visit opd ∷ []

  unfoldable pub source_node : ℕ → ℕ → Node → Option (List (Act ℕ ℕ))
  unfolding load_sources
  source_node fuel v (Node.constant_expr o os) = some (visit o ∷ [])
  source_node fuel v (Node.argument f) = some (note v ∷ [])
  source_node fuel v Node.global_variable = some (note v ∷ [])
  source_node fuel v (Node.call callee args) = some (note v ∷ [])
  source_node fuel v (Node.select c t f) = some (visit t ∷ visit f ∷ [])
  source_node fuel v (Node.gep p) = some (visit p ∷ [])
  source_node fuel v (Node.phi incoming) = some (visit_incoming incoming)
  source_node fuel v (Node.load lpo) =
      collect_pred_reach_blocks ir fuel (ir.parent v) [] >>= λ reach_bbs.
      some (load_sources v lpo reach_bbs)
  source_node fuel v (Node.alloca o) = some (visit o ∷ [])
  source_node fuel v (Node.cast o) = some (visit o ∷ [])
  source_node fuel v (Node.extract_value o) = some (visit o ∷ [])
  source_node fuel v (Node.unary o) = some (visit o ∷ [])
  source_node fuel v (Node.binary a b) = some (if_variable a ++ if_variable b)
  source_node fuel v _ = some []

  abbrev pub source_plan : ℕ → ℕ → Option (List (Act ℕ ℕ))
  source_plan fuel v = source_node fuel v (ir.node v)

  -- The trace holds TrackedSet and CVSet.
  unfoldable pub find_source_cv : ℕ → ℕ → Trace (List ℕ) → Option (Trace (List ℕ))
  find_source_cv fuel v t = walk (λ v. v) insert goes_on (source_plan fuel) fuel v t
