-- ===== src/MissingChecks/Backward.antt =====
-- isCheckedBackward of MissingChecks.cc: was a value, or one that it comes from, checked?
use crix.Base.{
  ℕ, zero, suc, ◌+◌, Bool, true, false, ◌||◌, not, Option, none, some, List, [], ◌∷◌, flat_map, has,
  nat_eq, if◌then◌else◌, ◌==◌, ltb, ◌>>=◌, get_elem?,
}
use crix.Ir.{Ir, Node}
use crix.Ir.Kinds.{null, is_instruction}
use crix.Ir.Calls.{arg_steps}
use crix.Context.{Context}
use crix.Walk.{Trace, Act, visit, note, walk}
use crix.DataFlow.Aliases.{get_alias_pointers}
use crix.DataFlow.Reach.{collect_pred_reach_blocks}
use crix.MissingChecks.Model.{SrcUse, Counts, in_modeled_check_set}
use crix.MissingChecks.Forward.{Hit, hit, check_it, is_found}

-- The arguments that a call passes on: F, V, Scope and Depth.
pub record Item : Type 0 where
  pub function : ℕ
  pub value : ℕ
  pub scope : List ℕ
  pub depth : ℕ

abbrev pub value_of : Item → ℕ
value_of i = i.value

module _ (ir : Ir) (ctx : Context) (counts : Counts) where
  -- Whether the loop over the users returns at an instruction in the scope.
  unfoldable pub is_backward_check : ℕ → SrcUse → ℕ → Node → Bool
  is_backward_check f use' u (Node.icmp p a b) = in_modeled_check_set ir u use' false counts
  is_backward_check f use' u (Node.fcmp p a b) = in_modeled_check_set ir u use' false counts
  is_backward_check f use' u (Node.switch c) = true
  is_backward_check f use' u (Node.call callee args) = has u (ctx.check_inst_sets f)
  is_backward_check f use' u _ = false

  unfoldable pub any_user_checks : ℕ → SrcUse → List ℕ → List ℕ → Bool
  unfolding is_backward_check
  any_user_checks f use' scope [] = false
  any_user_checks f use' scope (u ∷ us) =
      let rest = any_user_checks f use' scope us in
      if not (is_instruction ir u) || not (has (ir.parent u) scope)
      then rest
      else is_backward_check f use' u (ir.node u) || rest

  -- The same call on another value.
  abbrev pub on : Item → ℕ → Act Item Hit
  on i v = visit (record i { value = v })

  abbrev pub on_incoming : Item → List (ℕ × ℕ) → List (Act Item Hit)
  on_incoming i [] = []
  on_incoming i ((iv, bb) ∷ rest) = on i iv ∷ on_incoming i rest

  -- A user of an alias of the pointer that a load reads.
  unfoldable pub alias_access : Item → ℕ → List (Act Item Hit)
  alias_access i su =
      if not (is_instruction ir su) || not (has (ir.parent su) i.scope)
      then []
      else elim (ir.node su) [
        | Node.load p ↦ on i su ∷ []
        | Node.store sv p ↦ on i sv ∷ []
        | _ ↦ []
      ]

  -- Where the data comes from, behind the loop over the users.
  unfoldable pub backward_node : Item → Node → List (Act Item Hit)
  unfolding alias_access flat_map
  backward_node i (Node.load p) =
      flat_map (λ a. flat_map (alias_access i) (ir.users a))
        (get_alias_pointers p (ctx.func_pa_results i.function))
  backward_node i (Node.phi incoming) = on_incoming i incoming
  backward_node i (Node.select c t f) = on i t ∷ on i f ∷ []
  backward_node i (Node.gep p) = on i p ∷ []
  backward_node i (Node.alloca o) = on i o ∷ []
  backward_node i (Node.cast o) = on i o ∷ []
  backward_node i (Node.extract_value o) = on i o ∷ []
  backward_node i (Node.unary o) = on i o ∷ []
  backward_node i (Node.binary a b) = on i a ∷ on i b ∷ []
  backward_node i _ = []

  -- The argument of a call, if it has as many.
  abbrev pub argument_of : ℕ → ℕ → Option ℕ
  argument_of n ci = elim (ir.node ci) [ Node.call callee args ↦ get_elem? args n | _ ↦ none ]

  -- The calls on the arguments of the callers, with a deeper Depth and the blocks before the caller.
  unfoldable pub caller_acts : ℕ → Item → ℕ → List ℕ → Option (List (Act Item Hit))
  caller_acts fuel i n [] = some []
  caller_acts fuel i n (ci ∷ cis) = do
    rest ← caller_acts fuel i n cis
    scope ← collect_pred_reach_blocks ir fuel (ir.parent ci) []
    some (elim (argument_of n ci) [
      | none ↦ rest
      | some arg ↦
          visit (record {
            function = ir.block_parent (ir.parent ci);
            value = arg;
            scope = scope;
            depth = i.depth + 1;
          })
          ∷ rest
    ])

  -- `ArgNo` counts up from -1; -1 is left of a function without arguments.
  abbrev pub callers_of_argument : ℕ → Item → ℕ → Option (List (Act Item Hit))
  callers_of_argument fuel i pf = elim (arg_steps i.value (ir.args i.function)) [
    | zero ↦ some []
    | suc n ↦ if pf == null then some [] else caller_acts fuel i n (ctx.callers pf)
  ]

  -- The body, behind the test of the depth.
  unfoldable pub backward_plan : ℕ → SrcUse → Item → Node → Option (List (Act Item Hit))
  unfolding any_user_checks backward_node caller_acts
  backward_plan fuel use' i (Node.argument pf) = callers_of_argument fuel i pf
  backward_plan fuel use' i n =
      if any_user_checks i.function use' i.scope (ir.users i.value)
      then some (note hit ∷ [])
      else some (backward_node i n)

  unfoldable pub backward_acts : ℕ → SrcUse → Item → Option (List (Act Item Hit))
  unfolding backward_plan
  backward_acts fuel use' i =
      if ltb 5 i.depth then some [] else backward_plan fuel use' i (ir.node i.value)

  -- The trace holds VSet and isChecked.
  unfoldable pub is_checked_backward : ℕ → SrcUse → Item → Trace Bool → Option (Trace Bool)
  is_checked_backward fuel use' i t =
      walk value_of check_it is_found (backward_acts fuel use') fuel i t
