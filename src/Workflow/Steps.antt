-- ===== src/Workflow/Steps.antt =====
-- What each pass of main does with the modules.
use Prim.Native.String.{String}
use crix.Base.{
  ℕ, suc, ◌≡◌, ◌↔◌, true, has, ap, All, refl, sym, ◌∙◌, Option, none, some, ◌>>=◌, for_each,
  for_each_idle, List, [], ◌∷◌, map, length, length-map, nat_eq, >>=-eq-some, some_inj, subst,
}
use crix.Context.{Context}
use crix.Analyzer.{run}
use crix.Analyzer.Once.{quiet, run-quiet}
use crix.Ir.Kinds.{null}
use crix.CallGraph.Graph.{Module, Graph, empty_graph, is_declaration}
use crix.CallGraph.Pass.{run_call_graph}
use crix.CallGraph.PassRun.{IsPassed}
use crix.CallGraph.Runs.{run_call_graph_lem}
use crix.PointerAnalysis.Pass.{PaResults, pass_module}
use crix.SecurityChecks.Identify.{Checks, do_module_pass as identify_checks}
use crix.MissingChecks.Model.{Counts, no_counts}
use crix.MissingChecks.Tallies.{IsTallied}
use crix.MissingChecks.Phases.{SameChecks, run_phases}
use crix.MissingChecks.StagesLaws.{run_lem}
use crix.MissingChecks.Stages.{
  State, stage_modules, do_initialization, do_module_pass, do_finalization,
}
use crix.Workflow.{
  Environment, empty_context, share_graph, share_aliases, share_checks, load_static_data,
  run_type_initializer, run_security_checks, run_pointer_analysis, run_missing_checks,
}

-- The run of a pass that only has a module step.
run-step {ℓ κ} :
    {M : Type ℓ} {S : Type κ} (fuel : ℕ) (step : M → S → Option S) (ms : List M) (s : S)
    → run (suc fuel) (quiet (λ m s. some s)) (quiet step) (quiet (λ m s. some s)) ms s
      ≡ for_each step ms s
run-step {S = S} fuel step ms s =
    run-quiet fuel (λ m s. some s) step (λ m s. some s) ms s
    ∙ rw (for_each_idle ms s) (at_end (for_each step ms s))
  where
    at_end : (o : Option S) → (o >>= for_each (λ m s. some s) ms) ≡ o
    at_end none = refl
    at_end (some t) = for_each_idle ms t

module _ (env : Environment) (fuel depth turns : ℕ) where
  abbrev pub functions_of : List Module → List (List ℕ)
  functions_of = map (λ (m : Module). m.functions)

  -- The context after the call graph, and after the checks.
  abbrev pub graph_context : Graph → Context
  graph_context g = share_graph g (load_static_data env empty_context)

  abbrev pub last_context : Graph → PaResults → Checks → Context
  last_context g pa c = share_checks c (share_aliases pa (graph_context g))

  pub run_pointer_analysis_lem :
      (ms : List Module)
      → run_pointer_analysis env fuel depth (suc turns) ms
        ≡ for_each (λ m. pass_module env.program.ir (env.alias m) fuel m.functions) ms (λ f. [])
  unfolding run_pointer_analysis
  run_pointer_analysis_lem ms =
      run-step turns (λ m. pass_module env.program.ir (env.alias m) fuel m.functions) ms (λ f. [])

  pub run_security_checks_lem :
      (ctx : Context) (ms : List Module) (c : Checks)
      → run_security_checks env fuel depth (suc turns) ctx ms c
        ≡ for_each
            (λ m. identify_checks env.program.ir ctx env.get_source_func_name fuel m.functions)
            ms
            c
  unfolding run_security_checks
  run_security_checks_lem ctx ms c =
      run-step turns
        (λ m. identify_checks env.program.ir ctx env.get_source_func_name fuel m.functions) ms c

  -- The counting that the run of the pass over modules leaves.
  pub record IsCounting (ctx : Context) (ms : List Module) (c : Counts) : Type 0 where
    pub first : Counts
    pub counted : stage_modules env.program.ir ctx fuel 1 (functions_of ms) no_counts ≡ some first
    -- Stage 2, from what stage 1 left.
    pub finished : stage_modules env.program.ir ctx fuel 2 (functions_of ms) first ≡ some c
    pub same : SameChecks first c
    pub tallied : IsTallied c

  -- The call graph that the passes before leave: of all modules, from an empty one.
  pub record IsCallGraph (ms : List Module) (g : Graph) : Type 0 where
    pub names : ℕ → Option String
    pub named : run_type_initializer env fuel depth (suc (suc turns)) ms ≡ some names
    pub graphed :
        run_call_graph env.program names fuel depth (suc (suc turns)) ms empty_graph ≡ some g
    -- Callers and Callees are converse.
    pub converse : (ci f : ℕ) → (has ci (g.callers f) ≡ true) ↔ (has f (g.callees ci) ≡ true)
    -- The pass went over every function of every module.
    pub passed :
        All (λ (m : Module). All (λ f. IsPassed env.program names fuel depth g f g) m.functions) ms

  pub run_call_graph-IsCallGraph :
      (ms : List Module) (names : ℕ → Option String) (g : Graph)
      → is_declaration env.program null ≡ true
      → run_type_initializer env fuel depth (suc (suc turns)) ms ≡ some names
      → run_call_graph env.program names fuel depth (suc (suc turns)) ms empty_graph ≡ some g
      → IsCallGraph ms g
  run_call_graph-IsCallGraph ms names g no_body named graphed =
      let (converse, passed) =
        run_call_graph_lem env.program names fuel depth (suc turns) ms g no_body graphed in
      record {
        names = names;
        named = named;
        graphed = graphed;
        converse = converse;
        passed = passed;
      }

  -- What the run of stage 1 and then stage 2 leaves.
  both_stages_run :
      (ctx : Context) (m : Module) (ms : List Module) (s : State)
      → run
          (suc (suc turns))
          do_initialization
          (do_module_pass env.program.ir ctx fuel (length (functions_of (m ∷ ms))))
          do_finalization
          (functions_of (m ∷ ms))
          (record { stage = 1; midx = 0; counts = no_counts })
        ≡ some s
      → IsCounting ctx (m ∷ ms) s.counts
  both_stages_run ctx m ms s e =
      let (c, e₀, _, same, _, tallied) =
        run_phases env.program.ir ctx fuel turns m.functions (functions_of ms) s e in
      let (first, e₁, q₁) =
        >>=-eq-some (stage_modules env.program.ir ctx fuel 1 (functions_of (m ∷ ms)) no_counts) _ (
          sym (run_lem env.program.ir ctx fuel turns m.functions (functions_of ms) no_counts)
          ∙ e) in
      let (last, e₂, q₂) =
        >>=-eq-some (stage_modules env.program.ir ctx fuel 2 (functions_of (m ∷ ms)) first) _ q₁ in
      let q : c ≡ first = some_inj (sym e₀ ∙ e₁) in
      let ended : last ≡ s.counts = ap (λ (t : State). t.counts) (some_inj q₂) in
      record {
        first = first;
        counted = e₁;
        finished =
            subst
              (λ x. stage_modules env.program.ir ctx fuel 2 (functions_of (m ∷ ms)) first ≡ some x)
              ended e₂;
        same = subst (λ x. SameChecks x s.counts) q same;
        tallied = tallied;
      }

  pub run_missing_checks-IsCounting :
      (ctx : Context) (m : Module) (ms : List Module) (c : Counts)
      → run_missing_checks env fuel depth (suc (suc turns)) ctx (m ∷ ms) ≡ some c
      → IsCounting ctx (m ∷ ms) c
  unfolding run_missing_checks
  run_missing_checks-IsCounting ctx m ms c e =
      let (s, e₁, q) =
        >>=-eq-some
          (run (suc (suc turns)) do_initialization
            (do_module_pass env.program.ir ctx fuel (length (m ∷ ms))) do_finalization
            (functions_of (m ∷ ms)) (record { stage = 1; midx = 0; counts = no_counts }))
          (λ s. some s.counts) e in
      subst (IsCounting ctx (m ∷ ms)) (some_inj q) (
        both_stages_run ctx m ms s (
          subst
            (λ n.
              run (suc (suc turns)) do_initialization
                (do_module_pass env.program.ir ctx fuel (suc n)) do_finalization
                (functions_of (m ∷ ms)) (record { stage = 1; midx = 0; counts = no_counts })
              ≡ some s)
            (sym (length-map (λ (m : Module). m.functions) ms)) e₁))
