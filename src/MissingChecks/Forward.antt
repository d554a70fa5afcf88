-- ===== src/MissingChecks/Forward.antt =====
-- isCheckedForward of MissingChecks.cc: is a value that flows on from a source checked?
use crix.Base.{
  ℕ, Bool, true, ◌||◌, not, Option, some, List, [], ◌∷◌, ◌++◌, flat_map, has, nat_eq, if◌then◌else◌,
  ◌==◌,
}
use crix.Ir.{Ir, Node}
use crix.Ir.Kinds.{is_instruction}
use crix.Context.{Context}
use crix.Walk.{Trace, Act, visit, note, walk}
use crix.DataFlow.Aliases.{get_alias_pointers}
use crix.MissingChecks.Model.{SrcUse, Counts, in_modeled_check_set}

-- `isChecked = true; return`.
pub data Hit : Type 0 where
  hit : Hit

abbrev pub check_it : Hit → Bool → Bool
check_it h is_checked = true

abbrev pub is_found : Bool → Bool
is_found is_checked = is_checked

-- One turn of the loop over the users: it returns, or goes on after some calls.
pub data Turn : Type 0 where
  returns : Turn
  calls : List (Act ℕ Hit) → Turn

-- The loop.
abbrev pub until_returns : (ℕ → Turn) → List ℕ → List (Act ℕ Hit)
until_returns turn [] = []
until_returns turn (u ∷ us) =
    let rest = until_returns turn us in
    elim (turn u) [ returns ↦ note hit ∷ [] | calls acts ↦ acts ++ rest ]

module _ (ir : Ir) (ctx : Context) (counts : Counts) where
  -- The loads of an alias.
  unfoldable pub load_user : ℕ → List (Act ℕ Hit)
  load_user su = elim (ir.node su) [ Node.load p ↦ visit su ∷ [] | _ ↦ [] ]

  unfoldable pub loads_of : ℕ → ℕ → List (Act ℕ Hit)
  unfolding load_user flat_map
  loads_of f p =
      flat_map (λ a. flat_map load_user (ir.users a)) (get_alias_pointers p (ctx.func_pa_results f))

  -- The loop body for a user `u` of the value `v` that is an instruction in the scope.
  unfoldable pub forward_node : ℕ → SrcUse → ℕ → ℕ → Node → Turn
  unfolding loads_of
  forward_node f src v u (Node.icmp p a b) =
      if in_modeled_check_set ir u src true counts then returns else calls []
  forward_node f src v u (Node.fcmp p a b) =
      if in_modeled_check_set ir u src true counts then returns else calls []
  forward_node f src v u (Node.switch c) = returns
  forward_node f src v u (Node.call callee args) =
      if has u (ctx.check_inst_sets f) then returns else calls []
  forward_node f src v u (Node.ret r) = returns
  forward_node f src v u (Node.store sv p) = if v == sv then calls (loads_of f p) else calls []
  forward_node f src v u (Node.gep p) = if p == v then calls (visit u ∷ []) else calls []
  forward_node f src v u (Node.phi incoming) = calls (visit u ∷ [])
  forward_node f src v u (Node.alloca o) = calls (visit u ∷ [])
  forward_node f src v u (Node.load p) = calls (visit u ∷ [])
  forward_node f src v u (Node.cast o) = calls (visit u ∷ [])
  forward_node f src v u (Node.extract_value o) = calls (visit u ∷ [])
  forward_node f src v u (Node.unary o) = calls (visit u ∷ [])
  forward_node f src v u (Node.binary a b) = calls (visit u ∷ [])
  forward_node f src v u _ = calls []

  unfoldable pub forward_user : ℕ → SrcUse → List ℕ → ℕ → ℕ → Turn
  unfolding forward_node
  forward_user f src scope v u =
      if not (is_instruction ir u) || not (has (ir.parent u) scope)
      then calls []
      else forward_node f src v u (ir.node u)

  unfoldable pub forward_acts : ℕ → SrcUse → List ℕ → ℕ → Option (List (Act ℕ Hit))
  unfolding forward_user
  forward_acts f src scope v = some (until_returns (forward_user f src scope v) (ir.users v))

  -- The trace holds VSet and isChecked.
  unfoldable pub is_checked_forward : ℕ → ℕ → SrcUse → ℕ → List ℕ → Trace Bool → Option (Trace Bool)
  is_checked_forward fuel f src v scope t =
      walk (λ v. v) check_it is_found (forward_acts f src scope) fuel v t
