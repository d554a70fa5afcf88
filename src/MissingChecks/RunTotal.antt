-- ===== src/MissingChecks/RunTotal.antt =====
-- The counting of checks ends, and the run of the pass.
use crix.Base.{
  ℕ, suc, ◌+◌, ◌<◌, ◌≡◌, refl, ◌∙◌, some, List, [], ◌∷◌, ◌++◌, Memᴰ, All, All-map, has, nat_eq,
  ◌==◌, ltb, for_each, Ends, Ends-bind, Ends-if, Ends-some, Ends-for_each, Ends-for_each_in, length,
  arith, weight_outside_mono,
}
use crix.Ir.{Ir}
use crix.Context.{Context}
use crix.Analyzer.{run}
use crix.Walk.Total.{untracked}
use crix.DataFlow.InFunction.{find_in_func_source_cv}
use crix.DataFlow.InFunctionTotal.{sources_of, find_in_func_source_cv_total}
use crix.DataFlow.Reach.{collect_pred_reach_blocks}
use crix.DataFlow.ReachLaws.{collect_reach_blocks_return}
use crix.DataFlow.Uses.{find_uses}
use crix.DataFlow.UsesTotal.{find_uses_total}
use crix.SecurityChecks.Identify.{max_blocks_support}
use crix.MissingChecks.Model.{Counts}
use crix.MissingChecks.Targets.{
  find_all, checked_operands, identify_checked_targets, interesting, uses_of_targets,
  count_for_targets, count_src_use_checks,
}
use crix.MissingChecks.UnchecksTotal.{count_src_use_unchecks_total}
use crix.MissingChecks.TrackTotal.{HoldsProgram}
use crix.MissingChecks.Stages.{
  is_cmp, do_initialization, do_finalization, count_check, stage_body, stage_function, stage_module,
  stage_modules, do_module_pass,
}
use crix.MissingChecks.StagesLaws.{run_lem}

-- The values and blocks also have what the counting of checks meets.
pub record HoldsChecks (ir : Ir) (ctx : Context) (values places : List ℕ) : Type 0 where
  pub program : HoldsProgram ir ctx values places
  pub sources : (v : ℕ) → All (λ w. Memᴰ w values) (sources_of (ir.node v))
  pub parents : (v : ℕ) → Memᴰ v values → Memᴰ (ir.parent v) places
  pub checked : (v : ℕ) → All (λ w. Memᴰ w values) (checked_operands ir ctx v)
  pub checks : (f : ℕ) → All (λ sc. Memᴰ sc values) (ctx.check_inst_sets f)

module _ (ir : Ir) (ctx : Context) (fuel : ℕ) (values places : List ℕ)
    (holds : HoldsChecks ir ctx values places) (enough_values : untracked [] values + 1 < fuel)
    (enough_places : untracked [] places < fuel) where
  few : (seen vs : List ℕ) → untracked [] vs < fuel → untracked seen vs < fuel
  few seen vs h =
      let less = weight_outside_mono (λ _. 1) [] seen vs (λ k e. absurd (cc)) in omega arith

  find_all-Ends :
      (opds ct_set : List ℕ)
      → All (λ w. Memᴰ w values) opds
      → Ends (find_all ir ctx fuel opds ct_set)
  unfolding find_all
  find_all-Ends opds ct_set h =
      Ends-bind
        (for_each (find_in_func_source_cv ir ctx fuel) opds
          (record { seen = []; acc = record { source_set = ct_set; cv_set = [] } }))
        _
        (Ends-for_each_in (λ w. Memᴰ w values) (find_in_func_source_cv ir ctx fuel)
          (λ v inside t.
            find_in_func_source_cv_total ir ctx values holds.sources places fuel
              holds.program.closed.edges holds.parents enough_places v t inside
              (few t.seen values (omega arith)))
          opds h (record { seen = []; acc = record { source_set = ct_set; cv_set = [] } }))
        (λ t. Ends-some t.acc.source_set)

  -- A target need not be among the values: it is one value more.
  uses_of_targets-Ends :
      (sci : ℕ) (cts : List ℕ)
      → Memᴰ (ir.parent sci) places
      → Ends (uses_of_targets ir ctx fuel sci cts)
  unfolding uses_of_targets
  uses_of_targets-Ends sci [] place = Ends-some []
  uses_of_targets-Ends sci (ct ∷ cts) place =
      Ends-bind (find_uses ir ctx fuel sci ct (record { seen = []; acc = [] })) _
        (find_uses_total ir ctx (ct ∷ values)
          (λ v. All-map (λ u m. Memᴰ.tail m) (ir.users v) (holds.program.users v)) places fuel sci
          ct (record { seen = []; acc = [] }) holds.program.closed.edges place (Memᴰ.head refl)
          enough_places (omega arith))
        (λ t.
          Ends-bind (uses_of_targets ir ctx fuel sci cts) _ (uses_of_targets-Ends sci cts place)
            (λ rest. Ends-some (t.acc ++ rest)))

  count_for_targets-Ends :
      (f sci : ℕ) (cts : List ℕ) (c : Counts)
      → Memᴰ (ir.parent sci) places
      → Ends (count_for_targets ir ctx fuel f sci cts c)
  unfolding count_for_targets
  count_for_targets-Ends f sci [] c place = Ends-some c
  count_for_targets-Ends f sci (ct ∷ cts) c place =
      Ends-bind (collect_pred_reach_blocks ir fuel (ir.parent sci) []) _
        (collect_reach_blocks_return ir places fuel (ir.parent sci) [] holds.program.closed.edges
          place enough_places).1
        (λ pred_bbs.
          Ends-bind (uses_of_targets ir ctx fuel sci (ct ∷ cts)) _
            (uses_of_targets-Ends sci (ct ∷ cts) place) (λ uses. Ends-some _))

  count_src_use_checks-Ends :
      (f sci : ℕ) (c : Counts)
      → Memᴰ (ir.parent sci) places
      → Ends (count_src_use_checks ir ctx fuel f sci c)
  unfolding count_src_use_checks identify_checked_targets
  count_src_use_checks-Ends f sci c place =
      Ends-bind (find_all ir ctx fuel (checked_operands ir ctx sci) []) _
        (find_all-Ends (checked_operands ir ctx sci) [] (holds.checked sci))
        (λ tmp_set. count_for_targets-Ends f sci (interesting ir ctx tmp_set) c place)

  stage_body-Ends : (stage f : ℕ) (c : Counts) → Ends (stage_body ir ctx fuel stage f c)
  unfolding stage_body count_check
  stage_body-Ends stage f c =
      Ends-if (stage == 1)
        (Ends-for_each_in (λ sc. Memᴰ sc values) (count_check ir ctx fuel f)
          (λ sc inside c.
            Ends-if (is_cmp (ir.node sc))
              (count_src_use_checks-Ends f sc c (holds.parents sc inside)) (Ends-some c))
          (ctx.check_inst_sets f) (holds.checks f) c)
        (Ends-if (stage == 2)
          (count_src_use_unchecks_total ir ctx fuel values places holds.program (omega arith)
            enough_places f c)
          (Ends-some c))

  stage_modules-Ends :
      (stage : ℕ) (ms : List (List ℕ)) (c : Counts) → Ends (stage_modules ir ctx fuel stage ms c)
  unfolding stage_function
  stage_modules-Ends stage ms c =
      Ends-for_each (stage_module ir ctx fuel stage)
        (λ m c.
          Ends-for_each (stage_function ir ctx fuel stage)
            (λ f c. Ends-if (length (ir.blocks f) == 0) (Ends-some c) (
              Ends-if (ltb max_blocks_support (length (ir.blocks f))) (Ends-some c)
                (Ends-if (has f ctx.unified_func_set) (stage_body-Ends stage f c) (Ends-some c))))
            m c)
        ms c

  -- With two units more of fuel than the values of a program, and more than its blocks, the run of the
  -- missing-check pass on at least one module ends after stage 2, from any counters.
  pub run_total :
      (f : ℕ) (m : List ℕ) (ms : List (List ℕ)) (c : Counts)
      → (c' : Counts) × (run
            (suc (suc f))
            do_initialization
            (do_module_pass ir ctx fuel (length (m ∷ ms)))
            do_finalization
            (m ∷ ms)
            (record { stage = 1; midx = 0; counts = c })
          ≡ some (record { stage = 3; midx = 0; counts = c' }))
  run_total f m ms c =
      let (c₁, e₁) = stage_modules-Ends 1 (m ∷ ms) c in
      let (c₂, e₂) = stage_modules-Ends 2 (m ∷ ms) c₁ in
      (c₂, run_lem ir ctx fuel f m ms c ∙ rw e₁ (rw e₂ refl))
