-- ===== src/Tests/Flow.antt =====
-- The data flow of the small program.
use crix.Base.{
  ℕ, ◌≡◌, ◌≢◌, refl, true, ◌⊎◌, ◌↔◌, some, List, [], ◌∷◌, arith, has, nat_eq, use_eq, negsuc, ℤ,
  flat_map,
}
use crix.Ir.Kinds.{is_constant}
use crix.Ir.Calls.{arg_no, int8_after}
use crix.Walk.{Trace, walk, run_acts}
use crix.Worklist.{loop}
use crix.Worklist.Search.{search, search_body}
use crix.Tests.Sample.{f_closed, in_10, f_ir, f_ir-IsCfg, f_context, f_blocks}
use crix.DataFlow.Aliases.{get_alias_pointers}
use crix.DataFlow.Reach.{collect_reach_blocks, collect_succ_reach_blocks, collect_pred_reach_blocks}
use crix.DataFlow.ReachLaws.{Route, collect_reach_blocks_return, collect_reach_blocks_dual}
use crix.DataFlow.Order.{possible_use_st_result, meets_first, look_for_block}
use crix.DataFlow.OrderLaws.{StandsFirst, possible_use_st_result_iff}
use crix.DataFlow.InFunction.{
  Found, source, variable, find_in_func_source_cv, in_func_acts, in_func_node, in_func_load,
  in_func_access, in_func_aliases, in_func_user,
}
use crix.DataFlow.InFunctionLaws.{FlowsBack, Marks, find_in_func_source_cv_iff}
use crix.DataFlow.Uses.{use_acts, use_user, use_node, stored_value, alias_user, find_uses}
use crix.DataFlow.UsesSteps.{IsUse}
use crix.DataFlow.UsesLaws.{FlowsOn, find_uses_iff}

collect_reach_blocks_return_example :
    ((r : List ℕ) × (collect_succ_reach_blocks f_ir 9 10 [] ≡ some r))
    × ((r : List ℕ) × (collect_pred_reach_blocks f_ir 9 10 [] ≡ some r))
collect_reach_blocks_return_example =
    collect_reach_blocks_return f_ir f_blocks 9 10 []
      (λ b m. (f_closed.forth b m, f_closed.back b m)) in_10 (omega arith)

collect_reach_blocks_dual_example :
    ((has {K = ℕ} 13 (11 ∷ 13 ∷ []) ≡ true) ↔ (has {K = ℕ} 11 (10 ∷ 11 ∷ 12 ∷ 13 ∷ []) ≡ true))
    × ((has {K = ℕ} 13 (11 ∷ 13 ∷ []) ≡ true) ↔ Route f_ir.succs 11 13)
unfolding collect_succ_reach_blocks collect_pred_reach_blocks collect_reach_blocks walk run_acts
collect_reach_blocks_dual_example =
    collect_reach_blocks_dual f_ir 9 11 13 (11 ∷ 13 ∷ []) (10 ∷ 11 ∷ 12 ∷ 13 ∷ []) f_ir-IsCfg refl
      refl

possible_use_st_result_example : (true ≡ true) ↔ (
    (f_ir.parent 53 ≡ f_ir.parent 54) × StandsFirst 53 54 (f_ir.body (f_ir.parent 53))
    ⊎ ((f_ir.parent 53 ≢ f_ir.parent 54) × Route f_ir.succs (f_ir.parent 54) (f_ir.parent 53)))
unfolding possible_use_st_result search search_body loop look_for_block meets_first
possible_use_st_result_example =
    possible_use_st_result_iff f_ir 9 53 54 true (λ q. absurd (omega arith))
      (λ q. absurd (omega arith)) refl

abbrev traced : Trace Found
traced = record {
  seen = 51 ∷ 53 ∷ 70 ∷ [];
  acc = record { source_set = 51 ∷ 70 ∷ []; cv_set = 51 ∷ 53 ∷ 70 ∷ [] };
}

find_in_func_source_cv_example :
    ((has 51 traced.seen ≡ true) ↔ FlowsBack f_ir f_context 53 51)
    × ((has 51 traced.acc.source_set ≡ true) ↔ Marks f_ir f_context 53 (source 51))
    × ((has 51 traced.acc.cv_set ≡ true) ↔ Marks f_ir f_context 53 (variable 51))
unfolding find_in_func_source_cv in_func_acts in_func_node in_func_load in_func_access
    in_func_aliases in_func_user get_alias_pointers flat_map is_constant collect_pred_reach_blocks
    collect_reach_blocks walk run_acts
find_in_func_source_cv_example = find_in_func_source_cv_iff f_ir f_context 9 53 51 traced refl

abbrev used : Trace (List (ℕ × ℤ))
used = record { seen = 51 ∷ 53 ∷ []; acc = [] }

find_uses_example :
    ((has 53 used.seen ≡ true) ↔ FlowsOn f_ir f_context 50 51 53)
    × ((has (50, negsuc 0) used.acc ≡ true)
        ↔ ((k : ℕ) × FlowsOn f_ir f_context 50 51 k × IsUse f_ir f_context 50 k (50, negsuc 0)))
unfolding find_uses use_acts use_user use_node stored_value alias_user get_alias_pointers flat_map
    collect_succ_reach_blocks collect_reach_blocks walk run_acts arg_no int8_after
find_uses_example =
    find_uses_iff f_ir f_context 9 50 51 53 (50, negsuc 0) used (λ q. absurd (omega arith)) refl
