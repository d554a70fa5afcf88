-- ===== src/MissingChecks/Targets.antt =====
-- identifyCheckedTargets, identifyIndirectTargets and countSrcUseChecks of MissingChecks.cc: what a
-- check checks, and how it is counted for the sources and uses of that.
use crix.Base.{
  ℕ, ◌||◌, not, Option, none, some, List, [], ◌∷◌, ◌++◌, has, nat_eq, if◌then◌else◌, ◌==◌, ◌>>=◌,
  for_each, ℤ, negsuc, int_beq,
}
use crix.Ir.{Ir, Node}
use crix.Ir.Kinds.{null, is_constant_node}
use crix.Ir.Calls.{arg_no}
use crix.Context.{Context}
use crix.DataFlow.InFunction.{find_in_func_source_cv}
use crix.DataFlow.Reach.{collect_pred_reach_blocks}
use crix.DataFlow.Uses.{find_uses}
use crix.MissingChecks.Model.{SrcUse, Counts, model_check, add_src_check, add_use_check}

abbrev pub incoming_values : List (ℕ × ℕ) → List ℕ
incoming_values [] = []
incoming_values ((iv, bb) ∷ rest) = iv ∷ incoming_values rest

-- The values that identifyCheckedTargets starts from.
abbrev pub node_operands : Node → List ℕ
node_operands (Node.icmp p a b) = a ∷ b ∷ []
node_operands (Node.binary a b) = a ∷ b ∷ []
node_operands (Node.alloca o) = o ∷ []
node_operands (Node.load o) = o ∷ []
node_operands (Node.cast o) = o ∷ []
node_operands (Node.extract_value o) = o ∷ []
node_operands (Node.unary o) = o ∷ []
node_operands (Node.phi incoming) = incoming_values incoming
node_operands (Node.call callee args) = args
node_operands _ = []

module _ (ir : Ir) (ctx : Context) where
  -- findInFuncSourceCV on each value, on one TrackedSet and CVSet.
  unfoldable pub find_all : ℕ → List ℕ → List ℕ → Option (List ℕ)
  unfolding find_in_func_source_cv
  find_all fuel opds ct_set =
      for_each (find_in_func_source_cv ir ctx fuel) opds
        (record { seen = []; acc = record { source_set = ct_set; cv_set = [] } })
      >>= λ t. some t.acc.source_set

  unfoldable pub checked_operands : ℕ → List ℕ
  checked_operands v = node_operands (ir.node v)

  unfoldable pub identify_checked_targets : ℕ → ℕ → List ℕ → Option (List ℕ)
  unfolding find_all checked_operands
  identify_checked_targets fuel v ct_set = find_all fuel (checked_operands v) ct_set

  unfoldable pub identify_indirect_targets : ℕ → ℕ → List ℕ → Option (List ℕ)
  unfolding find_all
  identify_indirect_targets fuel v ct_set = elim (ir.node v) [
    | Node.call callee args ↦ find_all fuel args ct_set
    | _ ↦ some ct_set
  ]

  -- The function that a direct call is counted for: its first callee, if it has one.
  abbrev pub counted_function : ℕ → ℕ → ℕ
  counted_function ci cf = elim (ctx.callees ci) [ [] ↦ cf | f ∷ fs ↦ f ]

  -- addSrcCheck and addUseCheck of a call and argument, unless it is not direct.
  unfoldable pub count_called : (SrcUse → Counts → Counts) → ℕ → ℤ → Option ℕ → Counts → Counts
  count_called add ci arg none c = c
  count_called add ci arg (some cf) c =
      if counted_function ci cf == null then c else add (counted_function ci cf, arg) c

  unfoldable pub count_call : (SrcUse → Counts → Counts) → ℕ → ℤ → Counts → Counts
  unfolding count_called
  count_call add ci arg c = count_called add ci arg (ir.called_function ci) c

  -- addSrcCheck(Src, modelCheck(SCI, Src)), and the same for a use.
  abbrev pub src_check : ℕ → SrcUse → Counts → Counts
  src_check sci k c = add_src_check k (model_check ir sci k) c

  abbrev pub use_check : ℕ → SrcUse → Counts → Counts
  use_check sci k c = add_use_check k (model_check ir sci k) c

  -- The indirect calls of a function whose argument is checked.
  unfoldable pub count_caller : ℕ → ℤ → ℕ → Option ℕ → Counts → Counts
  unfolding add_src_check model_check
  count_caller sci arg ci (some cf) c = c
  count_caller sci arg ci none c = src_check sci (ci, arg) c

  unfoldable pub count_callers : ℕ → ℤ → List ℕ → Counts → Counts
  unfolding count_caller
  count_callers sci arg [] c = c
  count_callers sci arg (ci ∷ cis) c =
      count_callers sci arg cis (count_caller sci arg ci (ir.called_function ci) c)

  -- The calls that a target is passed to before the check.
  unfoldable pub count_output : ℕ → List ℕ → ℕ → ℕ → Node → Counts → Counts
  unfolding count_call
  count_output sci pred_bbs ct u (Node.call callee args) c =
      if not (has (ir.parent u) pred_bbs) || int_beq (arg_no ct args) (negsuc 0)
      then c
      else count_call (src_check sci) u (arg_no ct args) c
  count_output sci pred_bbs ct u _ c = c

  unfoldable pub count_outputs : ℕ → List ℕ → ℕ → List ℕ → Counts → Counts
  unfolding count_output
  count_outputs sci pred_bbs ct [] c = c
  count_outputs sci pred_bbs ct (u ∷ us) c =
      count_outputs sci pred_bbs ct us (count_output sci pred_bbs ct u (ir.node u) c)

  -- One turn of the loop over the targets.
  unfoldable pub count_node : ℕ → ℕ → List ℕ → ℕ → Node → Counts → Counts
  unfolding count_callers count_outputs
  count_node f sci pred_bbs ct (Node.argument pf) c =
      if ir.address_taken f then count_callers sci (arg_no ct (ir.args f)) (ctx.callers f) c else c
  count_node f sci pred_bbs ct (Node.call callee args) c =
      count_call (src_check sci) ct (negsuc 0) c
  count_node f sci pred_bbs ct _ c = count_outputs sci pred_bbs ct (ir.users ct) c

  unfoldable pub count_target : ℕ → ℕ → List ℕ → ℕ → Counts → Counts
  unfolding count_node
  count_target f sci pred_bbs ct c = count_node f sci pred_bbs ct (ir.node ct) c

  unfoldable pub count_targets : ℕ → ℕ → List ℕ → List ℕ → Counts → Counts
  unfolding count_target
  count_targets f sci pred_bbs [] c = c
  count_targets f sci pred_bbs (ct ∷ cts) c =
      count_targets f sci pred_bbs cts (count_target f sci pred_bbs ct c)

  -- UseMap: the uses of each target, in the order of the targets.
  unfoldable pub uses_of_targets : ℕ → ℕ → List ℕ → Option (List SrcUse)
  unfolding find_uses
  uses_of_targets fuel sci [] = some []
  uses_of_targets fuel sci (ct ∷ cts) = do
    t ← find_uses ir ctx fuel sci ct (record { seen = []; acc = [] })
    rest ← uses_of_targets fuel sci cts
    some (t.acc ++ rest)

  unfoldable pub count_use : ℕ → SrcUse → Node → Counts → Counts
  unfolding count_call
  count_use sci u (Node.call callee args) c = count_call (use_check sci) u.0 u.1 c
  count_use sci u _ c = c

  unfoldable pub count_uses : ℕ → List SrcUse → Counts → Counts
  unfolding count_use
  count_uses sci [] c = c
  count_uses sci (u ∷ us) c = count_uses sci us (count_use sci u (ir.node u.0) c)

  -- The targets that are neither constants nor global variables.
  abbrev pub interesting : List ℕ → List ℕ
  interesting [] = []
  interesting (ct ∷ cts) =
      if is_constant_node (ir.node ct) then interesting cts else ct ∷ interesting cts

  -- All behind the test for an empty target set.
  unfoldable pub count_for_targets : ℕ → ℕ → ℕ → List ℕ → Counts → Option Counts
  unfolding count_targets uses_of_targets count_uses
  count_for_targets fuel f sci [] c = some c
  count_for_targets fuel f sci (ct ∷ cts) c = do
    pred_bbs ← collect_pred_reach_blocks ir fuel (ir.parent sci) []
    uses ← uses_of_targets fuel sci (ct ∷ cts)
    some (count_uses sci uses (count_targets f sci pred_bbs (ct ∷ cts) c))

  unfoldable pub count_src_use_checks : ℕ → ℕ → ℕ → Counts → Option Counts
  unfolding identify_checked_targets count_for_targets
  count_src_use_checks fuel f sci c = identify_checked_targets fuel sci [] >>= λ tmp_set.
      count_for_targets fuel f sci (interesting tmp_set) c
