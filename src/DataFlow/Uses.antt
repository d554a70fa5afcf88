-- ===== src/DataFlow/Uses.antt =====
-- findUses of DataFlowAnalysis.cc: the walk from a value on to its uses behind an instruction. The
-- set of uses is a list without repetitions in the order of insertion: what is done with it does not
-- depend on the order.
use crix.Base.{
  ℕ, Bool, false, ◌||◌, not, Option, some, List, [], ◌∷◌, flat_map, has, nat_eq, use_eq,
  if◌then◌else◌, ◌==◌, ◌>>=◌, ℤ, negsuc,
}
use crix.Ir.{Ir, Node}
use crix.Ir.Kinds.{null, is_instruction, is_constant_node}
use crix.Ir.Calls.{arg_no}
use crix.Context.{Context}
use crix.Walk.{Trace, Act, visit, note, walk}
use crix.DataFlow.Aliases.{get_alias_pointers}
use crix.DataFlow.Reach.{collect_succ_reach_blocks}

-- UseSet.insert
abbrev pub add_use : ℕ × ℤ → List (ℕ × ℤ) → List (ℕ × ℤ)
add_use u s = if has u s then s else u ∷ s

abbrev pub uses_go_on : List (ℕ × ℤ) → Bool
uses_go_on s = false

module _ (ir : Ir) (ctx : Context) where
  -- The innermost loop body: a user of an alias of the pointer that a store writes to.
  unfoldable pub alias_user : List ℕ → ℕ → List (Act ℕ (ℕ × ℤ))
  alias_user reach_bbs au =
      if not (is_instruction ir au) || not (has (ir.parent au) reach_bbs)
      then []
      else elim (ir.node au) [ Node.load p ↦ visit au ∷ [] | _ ↦ [] ]

  -- A store of the value.
  unfoldable pub stored_value : List ℕ → ℕ → ℕ → List (Act ℕ (ℕ × ℤ))
  unfolding alias_user flat_map
  stored_value reach_bbs u p =
      flat_map (λ a. flat_map (alias_user reach_bbs) (ir.users a))
        (get_alias_pointers p (ctx.func_pa_results (ir.block_parent (ir.parent u))))

  -- The loop body for a user of the value `target` that is an instruction other than the border.
  unfoldable pub use_node : List ℕ → ℕ → ℕ → Node → List (Act ℕ (ℕ × ℤ))
  unfolding stored_value
  use_node reach_bbs target u (Node.gep p) =
      if has (ir.parent u) reach_bbs
      then note (u, negsuc 0) ∷ (if p == u then visit u ∷ [] else [])
      else []
  use_node reach_bbs target u (Node.load p) =
      if target == p
      then (if has (ir.parent u) reach_bbs then note (u, negsuc 0) ∷ [] else [])
      else visit u ∷ []
  use_node reach_bbs target u (Node.store sv p) =
      if target == p
      then (if has (ir.parent u) reach_bbs then note (u, negsuc 0) ∷ [] else [])
      else stored_value reach_bbs u p
  use_node reach_bbs target u (Node.icmp p a b) =
      if has (ir.parent u) reach_bbs then note (u, negsuc 0) ∷ [] else []
  use_node reach_bbs target u (Node.fcmp p a b) =
      if has (ir.parent u) reach_bbs then note (u, negsuc 0) ∷ [] else []
  use_node reach_bbs target u (Node.call callee args) =
      if has (ir.parent u) reach_bbs then note (u, arg_no target args) ∷ [] else []
  use_node reach_bbs target u (Node.binary a b) =
      if is_constant_node (ir.node a) || is_constant_node (ir.node b) then [] else visit u ∷ []
  use_node reach_bbs target u (Node.alloca o) = visit u ∷ []
  use_node reach_bbs target u (Node.cast o) = visit u ∷ []
  use_node reach_bbs target u (Node.unary o) = visit u ∷ []
  use_node reach_bbs target u _ = []

  unfoldable pub use_user : List ℕ → ℕ → ℕ → ℕ → List (Act ℕ (ℕ × ℤ))
  unfolding use_node
  use_user reach_bbs border target u =
      if not (is_instruction ir u) || u == border
      then []
      else use_node reach_bbs target u (ir.node u)

  unfoldable pub use_acts : ℕ → ℕ → ℕ → Option (List (Act ℕ (ℕ × ℤ)))
  unfolding use_user flat_map
  use_acts fuel border target =
      collect_succ_reach_blocks ir fuel (ir.parent border) [] >>= λ reach_bbs.
      some (flat_map (use_user reach_bbs border target) (ir.users target))

  -- The trace holds Visited and UseSet.
  unfoldable pub find_uses : ℕ → ℕ → ℕ → Trace (List (ℕ × ℤ)) → Option (Trace (List (ℕ × ℤ)))
  find_uses fuel border target t =
      if border == null
      then some t
      else walk (λ v. v) add_use uses_go_on (use_acts fuel border) fuel target t
