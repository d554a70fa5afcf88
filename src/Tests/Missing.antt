-- ===== src/Tests/Missing.antt =====
-- The counters of the small program.
use crix.Base.{
  ℕ, suc, ◌≡◌, refl, Bool, true, false, ◌↔◌, some, List, [], ◌∷◌, Memᴰ, arith, has, nat_eq, use_eq,
  negsuc, flat_map, find, adjust, length, ◌>>=◌,
}
use crix.Ir.Kinds.{instructions, is_constant}
use crix.Walk.{Trace, walk, run_acts}
use crix.Tests.Sample.{f_ir, f_context}
use crix.DataFlow.Aliases.{get_alias_pointers}
use crix.DataFlow.Reach.{collect_reach_blocks, collect_succ_reach_blocks, collect_pred_reach_blocks}
use crix.DataFlow.InFunction.{
  find_in_func_source_cv, in_func_acts, in_func_node, in_func_load, in_func_access, in_func_aliases,
  in_func_user,
}
use crix.DataFlow.Uses.{use_acts, use_user, use_node, stored_value, alias_user, find_uses}
use crix.MissingChecks.Model.{
  SrcUse, Counts, no_counts, add_src_check, add_check, model_check, operator_of,
  in_modeled_check_set,
}
use crix.MissingChecks.ModelLaws.{Recorded, start, of_source, in_modeled_check_set_lem}
use crix.MissingChecks.Forward.{
  is_checked_forward, forward_acts, forward_user, forward_node, loads_of, load_user,
}
use crix.MissingChecks.SourcesSteps.{IsOrigin}
use crix.MissingChecks.ForwardSteps.{ChecksIt}
use crix.MissingChecks.ForwardLaws.{Flow, is_checked_forward_iff}
use crix.MissingChecks.Targets.{
  find_all, checked_operands, identify_checked_targets, count_called, count_call, count_node,
  count_target, count_targets, uses_of_targets, count_use, count_uses, count_for_targets,
  count_src_use_checks,
}
use crix.MissingChecks.TargetsLaws.{count_src_use_checks_lem}
use crix.MissingChecks.Unchecks.{
  count_src, track_all, count_direct_source, count_direct_use, count_parameter, count_return,
  count_direct, count_call_node, count_instruction_node, count_instruction, count_src_use_unchecks,
}
use crix.MissingChecks.Tallies.{IsTallied}
use crix.MissingChecks.UnchecksLaws.{count_src_use_unchecks-IsTallied}
use crix.MissingChecks.Phases.{IsFresh, SameChecks, run_phases}
use crix.MissingChecks.Stages.{
  State, stage_modules, do_module_pass, do_initialization, do_finalization,
}
use crix.MissingChecks.StagesLaws.{run_lem}
use crix.Analyzer.{run}
use crix.MissingChecks.Sources.{source_node, load_sources, stored_source, find_source_cv}
use crix.MissingChecks.SourcesLaws.{GoesBack, find_source_cv_iff}

-- The result of get_x has a check.
abbrev of_get_x : SrcUse
of_get_x = (60, negsuc 0)

abbrev one_check : Counts
one_check = add_src_check of_get_x (model_check f_ir 50 of_get_x) no_counts

in_modeled_check_set_example :
    (in_modeled_check_set f_ir 50 of_get_x true one_check
      ≡ has of_get_x one_check.sources.checked_set)
    × (in_modeled_check_set f_ir 50 of_get_x false one_check
        ≡ has of_get_x one_check.uses.checked_set)
in_modeled_check_set_example =
    in_modeled_check_set_lem f_ir 50 of_get_x one_check (of_source 50 of_get_x start)

abbrev tracked : Trace Bool
tracked = record { seen = 51 ∷ 53 ∷ []; acc = true }

is_checked_forward_example : (tracked.acc ≡ true) ↔ (
    (w : ℕ) × (u : ℕ) × Flow f_ir f_context one_check 1 (10 ∷ 11 ∷ 12 ∷ 13 ∷ []) 51 w
    × Memᴰ u (f_ir.users w)
    × ChecksIt f_ir f_context one_check 1 of_get_x (10 ∷ 11 ∷ 12 ∷ 13 ∷ []) u)
unfolding is_checked_forward forward_acts forward_user forward_node loads_of load_user
    get_alias_pointers flat_map walk run_acts in_modeled_check_set model_check find add_src_check
    adjust add_check operator_of
is_checked_forward_example =
    is_checked_forward_iff f_ir f_context one_check 9 1 of_get_x 51 (10 ∷ 11 ∷ 12 ∷ 13 ∷ []) tracked
      refl

run_example :
    run
      (suc (suc 3))
      do_initialization
      (do_module_pass f_ir f_context 9 (length {A = List ℕ} ((1 ∷ []) ∷ [])))
      do_finalization
      ((1 ∷ []) ∷ [])
      (record { stage = 1; midx = 0; counts = no_counts })
    ≡ (stage_modules f_ir f_context 9 1 ((1 ∷ []) ∷ []) no_counts >>= λ c₁.
        stage_modules f_ir f_context 9 2 ((1 ∷ []) ∷ []) c₁ >>= λ c₂.
        some (record { stage = 3; midx = 0; counts = c₂ }))
run_example = run_lem f_ir f_context 9 3 (1 ∷ []) [] no_counts

count_src_use_checks_example :
    Recorded f_ir one_check
    × ((cmp : ℕ) (k : SrcUse)
        → (in_modeled_check_set f_ir cmp k true one_check ≡ has k one_check.sources.checked_set)
          × (in_modeled_check_set f_ir cmp k false one_check ≡ has k one_check.uses.checked_set))
unfolding count_src_use_checks identify_checked_targets find_all checked_operands
    find_in_func_source_cv in_func_acts in_func_node in_func_load in_func_access in_func_aliases
    in_func_user is_constant count_for_targets collect_pred_reach_blocks collect_succ_reach_blocks
    collect_reach_blocks walk run_acts uses_of_targets find_uses use_acts use_user use_node
    stored_value alias_user get_alias_pointers flat_map count_uses count_use count_targets
    count_target count_node count_call count_called add_src_check
count_src_use_checks_example =
    count_src_use_checks_lem f_ir f_context 9 1 50 no_counts one_check start refl

one_check-IsTallied : IsTallied one_check
unfolding find add_src_check add_check adjust model_check operator_of
one_check-IsTallied k = (
  record { unchecks = 0; total = 0; bounded = omega arith; unchecks_eq = refl; total_eq = refl },
  record { unchecks = 0; total = 0; bounded = omega arith; unchecks_eq = refl; total_eq = refl },
)

count_src_use_unchecks_example : IsTallied (count_src of_get_x 51 true one_check)
unfolding count_src_use_unchecks instructions flat_map count_instruction count_instruction_node
    count_call_node count_direct count_return count_parameter count_direct_source count_direct_use
    track_all is_checked_forward forward_acts forward_user forward_node loads_of load_user
    get_alias_pointers collect_succ_reach_blocks collect_reach_blocks walk run_acts
    in_modeled_check_set model_check find add_src_check adjust add_check operator_of
count_src_use_unchecks_example =
    count_src_use_unchecks-IsTallied f_ir f_context 9 1 one_check
      (count_src of_get_x 51 true one_check) one_check-IsTallied refl

abbrev came_from : Trace (List ℕ)
came_from = record { seen = 42 ∷ 51 ∷ 53 ∷ 70 ∷ []; acc = 51 ∷ [] }

find_source_cv_example :
    ((has {K = ℕ} 51 came_from.seen ≡ true) ↔ GoesBack f_ir f_context 53 51)
    × ((has {K = ℕ} 51 came_from.acc ≡ true)
        ↔ (GoesBack f_ir f_context 53 51 × IsOrigin f_ir f_context (f_ir.node 51)))
unfolding find_source_cv source_node load_sources stored_source get_alias_pointers flat_map
    collect_pred_reach_blocks collect_reach_blocks walk run_acts
find_source_cv_example = find_source_cv_iff f_ir f_context 9 53 51 came_from refl

phases_end :
    (s : State) × (run
        (suc (suc 3))
        do_initialization
        (do_module_pass f_ir f_context 9 (length {A = List ℕ} ((1 ∷ []) ∷ [])))
        do_finalization
        ((1 ∷ []) ∷ [])
        (record { stage = 1; midx = 0; counts = no_counts })
      ≡ some s)
unfolding run do_module_pass do_initialization walk in_func_acts collect_pred_reach_blocks
    collect_reach_blocks use_acts collect_succ_reach_blocks get_alias_pointers instructions
    forward_acts in_modeled_check_set do_finalization
phases_end = (_, refl)

run_phases_example :
    (c₁ : Counts) × (stage_modules f_ir f_context 9 1 ((1 ∷ []) ∷ []) no_counts ≡ some c₁)
    × (IsFresh c₁.sources × IsFresh c₁.uses)
    × SameChecks c₁ phases_end.0.counts
    × ((cmp : ℕ) (k : SrcUse)
        → (in_modeled_check_set f_ir cmp k true phases_end.0.counts ≡ has k c₁.sources.checked_set)
          × (in_modeled_check_set f_ir cmp k false phases_end.0.counts ≡ has k c₁.uses.checked_set))
    × IsTallied phases_end.0.counts
run_phases_example = run_phases f_ir f_context 9 3 (1 ∷ []) [] phases_end.0 phases_end.1
