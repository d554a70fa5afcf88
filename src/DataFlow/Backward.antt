-- ===== src/DataFlow/Backward.antt =====
-- findSources and performBackwardAnalysis of DataFlowAnalysis.cc: recursions that track no values, but
-- for the loads of the second one.
use crix.Base.{
  ℕ, zero, suc, Bool, false, Option, none, some, List, [], ◌∷◌, has, insert, nat_eq, if◌then◌else◌,
  ◌==◌, ◌>>=◌, for_each,
}
use crix.Ir.{Ir, Node}
use crix.Ir.Kinds.{is_constant_node, instructions}
use crix.Ir.Calls.{contains}
use crix.DataFlow.Order.{possible_use_st_result}

abbrev pub incoming_of : List (ℕ × ℕ) → List ℕ
incoming_of [] = []
incoming_of ((iv, bb) ∷ rest) = iv ∷ incoming_of rest

-- LPSet, which outlives a call, and CISet.
pub record Backward : Type 0 where
  pub lp_set : List ℕ
  pub ci_set : List ℕ

module _ (ir : Ir) where
  abbrev variables_of : List ℕ → List ℕ
  variables_of [] = []
  variables_of (o ∷ os) =
      if is_constant_node (ir.node o) then variables_of os else o ∷ variables_of os

  -- The values that findSources goes on to, in order.
  unfoldable pub source_operands : ℕ → Node → List ℕ
  source_operands v (Node.call callee args) = elim (ir.called_function v) [
    | none ↦ []
    | some cf ↦ if contains "with.overflow" (ir.name cf) then args else []
  ]
  source_operands v (Node.constant_expr o os) = o ∷ []
  source_operands v (Node.load p) = p ∷ []
  source_operands v (Node.select c t f) = t ∷ f ∷ []
  source_operands v (Node.gep p) = p ∷ []
  source_operands v (Node.phi incoming) = incoming_of incoming
  source_operands v (Node.icmp p a b) = a ∷ b ∷ []
  source_operands v (Node.binary a b) = variables_of (a ∷ b ∷ [])
  source_operands v (Node.alloca o) = o ∷ []
  source_operands v (Node.cast o) = o ∷ []
  source_operands v (Node.extract_value o) = o ∷ []
  source_operands v (Node.unary o) = o ∷ []
  source_operands v _ = []

  -- A constant that is no expression: a global variable or another one.
  abbrev is_source : Node → Bool
  is_source (Node.constant_expr o os) = false
  is_source n = is_constant_node n

  unfoldable pub find_sources : ℕ → ℕ → List ℕ → Option (List ℕ)
  unfolding source_operands
  find_sources zero v src_set = none
  find_sources (suc fuel) v src_set =
      for_each (find_sources fuel) (source_operands v (ir.node v))
        (if is_source (ir.node v) then insert v src_set else src_set)

  -- One instruction of the loop for a load `li` of `lpo`; `go` is the recursive call.
  unfoldable pub backward_store :
      ℕ → (ℕ → Backward → Option Backward) → ℕ → ℕ → ℕ → Node → Backward → Option Backward
  unfolding possible_use_st_result
  backward_store fuel go li lpo i (Node.store sv sp) s =
      possible_use_st_result ir fuel li i >>= λ may_follow.
      if may_follow then (if sp == lpo then go sv s else some s) else some s
  backward_store fuel go li lpo i _ s = some s

  -- The operands of any other value that performBackwardAnalysis goes on to.
  unfoldable pub backward_operands : Node → List ℕ
  backward_operands (Node.alloca o) = o ∷ []
  backward_operands (Node.cast o) = o ∷ []
  backward_operands (Node.extract_value o) = o ∷ []
  backward_operands (Node.unary o) = o ∷ []
  backward_operands (Node.binary a b) = a ∷ b ∷ []
  backward_operands (Node.icmp p a b) = a ∷ b ∷ []
  backward_operands (Node.fcmp p a b) = a ∷ b ∷ []
  backward_operands (Node.phi incoming) = incoming_of incoming
  backward_operands (Node.gep p) = p ∷ []
  backward_operands (Node.select c t f) = t ∷ f ∷ []
  backward_operands _ = []

  unfoldable pub backward_value :
      ℕ → (ℕ → Backward → Option Backward) → ℕ → ℕ → Node → Backward → Option Backward
  unfolding backward_store backward_operands
  backward_value fuel go f v (Node.call callee args) s =
      some (record s { ci_set = insert v s.ci_set })
  backward_value fuel go f v (Node.load lpo) s =
      if has lpo s.lp_set
      then some s
      else for_each (λ i s. backward_store fuel go v lpo i (ir.node i) s) (instructions ir f)
          (record s { lp_set = insert lpo s.lp_set })
  backward_value fuel go f v n s = for_each go (backward_operands n) s

  unfoldable pub perform_backward_analysis : ℕ → ℕ → ℕ → Backward → Option Backward
  unfolding backward_value
  perform_backward_analysis zero f v s = none
  perform_backward_analysis (suc fuel) f v s =
      backward_value fuel (perform_backward_analysis fuel f) f v (ir.node v) s
