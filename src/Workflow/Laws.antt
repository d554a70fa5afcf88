-- ===== src/Workflow/Laws.antt =====
-- What main leaves with -mc: the passes in a row.
use crix.Base.{
  ℕ, suc, ◌≡◌, ◌↔◌, sym, ◌∙◌, true, some, for_each, List, [], ◌∷◌, Memᴰ, Bool-cases, inl, inr,
  nat_eq, >>=-eq-some, some_inj, subst, ap,
}
use Prim.Native.String.{String}
use crix.Ir.Kinds.{null}
use crix.CallGraph.Graph.{Module, Graph, empty_graph, is_declaration}
use crix.CallGraph.Pass.{run_call_graph}
use crix.PointerAnalysis.Pass.{PaResults, pass_module}
use crix.SecurityChecks.Identify.{Checks, do_module_pass as identify_checks}
use crix.MissingChecks.Model.{Counts}
use crix.MissingChecks.Results.{SrcTy, Report, src_ty, process_results}
use crix.MissingChecks.ReportLaws.{IsReported}
use crix.MissingChecks.ResultsLaws.{process_results_iff}
use crix.Workflow.Steps.{
  graph_context, last_context, IsCounting, IsCallGraph, run_call_graph-IsCallGraph,
  run_pointer_analysis_lem, run_security_checks_lem, run_missing_checks-IsCounting,
}
use crix.Workflow.{
  Options, Environment, Results, Missing, share_aliases, load_modules, run_type_initializer,
  identify_if_asked, run_security_checks, run_pointer_analysis, run_missing_checks,
  find_missing_checks, find_if_asked, main_workflow, main,
}

module _ (env : Environment) (fuel depth turns : ℕ) where
  -- How the results with -mc come from the modules.
  pub record IsMissingRun (options : Options) (ms : List Module) (r : Results) (found : Missing)
      : Type 0 where
    pub pa : PaResults
    pub before : Checks
    -- The type names and the call graph of all modules.
    pub linked : IsCallGraph env fuel depth turns ms r.graph
    -- The pointer analysis and the identification of checks, each on the modules in turn, the latter
    -- after what -sc asks for.
    pub analyzed :
        for_each (λ m. pass_module env.program.ir (env.alias m) fuel m.functions) ms (λ f. [])
        ≡ some pa
    pub asked :
        identify_if_asked env fuel depth
          (suc (suc turns))
          options
          (graph_context env fuel depth turns r.graph)
          ms
        ≡ some before
    pub identified :
        for_each
          (λ m.
            identify_checks env.program.ir
              (share_aliases pa (graph_context env fuel depth turns r.graph))
              env.get_source_func_name
              fuel
              m.functions)
          ms
          before
        ≡ some r.checks
    -- The counting, in the context that these leave.
    pub counting :
        IsCounting env fuel depth turns
          (last_context env fuel depth turns r.graph pa r.checks)
          ms
          found.counts
    pub reported :
        (rep : Report)
        → ((ty : SrcTy)
            → Memᴰ (ty, rep) found.reports.0 ↔ (
                (ty ≡ src_ty env.program.ir rep.key)
                × IsReported env.above_src found.counts.sources rep))
          × (Memᴰ rep found.reports.1 ↔ IsReported env.above_use found.counts.uses rep)

  abbrev missing_of : Counts → Missing
  missing_of c = record {
    counts = c;
    reports = process_results env.program.ir env.above_src env.above_use c;
  }

  abbrev results_of : Graph → Checks → Counts → Results
  results_of g checks c = record { graph = g; checks = checks; missing = some (missing_of c) }

  find_missing_checks_lem :
      (options : Options) (m : Module) (ms : List Module) (g : Graph) (before : Checks)
      (p : Checks × Counts)
      → IsCallGraph env fuel depth turns (m ∷ ms) g
      → identify_if_asked env fuel depth
          (suc (suc turns))
          options
          (graph_context env fuel depth turns g)
          (m ∷ ms)
        ≡ some before
      → find_missing_checks env fuel depth
          (suc (suc turns))
          (graph_context env fuel depth turns g)
          (m ∷ ms)
          before
        ≡ some p
      → IsMissingRun options (m ∷ ms) (results_of g p.0 p.1) (missing_of p.1)
  unfolding find_missing_checks
  find_missing_checks_lem options m ms g before p linked asked e =
      let (pa, e₁, q₁) =
        >>=-eq-some (run_pointer_analysis env fuel depth (suc (suc turns)) (m ∷ ms)) _ e in
      let (found, e₂, q₂) =
        >>=-eq-some
          (run_security_checks env fuel depth (suc (suc turns))
            (share_aliases pa (graph_context env fuel depth turns g)) (m ∷ ms) before)
          _ q₁ in
      let (counts, e₃, q₃) =
        >>=-eq-some
          (run_missing_checks env fuel depth (suc (suc turns))
            (last_context env fuel depth turns g pa found) (m ∷ ms))
          _ q₂ in
      subst (λ p. IsMissingRun options (m ∷ ms) (results_of g p.0 p.1) (missing_of p.1))
        (some_inj q₃)
        (record {
          pa = pa;
          before = before;
          linked = linked;
          analyzed = sym (run_pointer_analysis_lem env fuel depth (suc turns) (m ∷ ms)) ∙ e₁;
          asked = asked;
          identified =
              sym (
                run_security_checks_lem env fuel depth (suc turns)
                  (share_aliases pa (graph_context env fuel depth turns g)) (m ∷ ms) before)
              ∙ e₂;
          counting =
              run_missing_checks-IsCounting env fuel depth turns
                (last_context env fuel depth turns g pa found) m ms counts e₃;
          reported = process_results_iff env.program.ir env.above_src env.above_use counts;
        })

  find_if_asked_lem :
      (options : Options) (m : Module) (ms : List Module) (g : Graph) (before : Checks)
      (r : Results) (found : Missing)
      → IsCallGraph env fuel depth turns (m ∷ ms) g
      → identify_if_asked env fuel depth
          (suc (suc turns))
          options
          (graph_context env fuel depth turns g)
          (m ∷ ms)
        ≡ some before
      → find_if_asked env fuel depth
          (suc (suc turns))
          options
          g
          (graph_context env fuel depth turns g)
          (m ∷ ms)
          before
        ≡ some r
      → r.missing ≡ some found
      → (options.missing_checks ≡ true) × (r.graph ≡ g) × IsMissingRun options (m ∷ ms) r found
  unfolding find_if_asked
  find_if_asked_lem options m ms g before r found linked asked e has_found =
      elim (Bool-cases options.missing_checks) [
        | inr idle ↦
            let q = some_inj (rw idle at e) in
            absurd (cc (ap (λ (x : Results). x.missing) q, has_found))
        | inl there ↦
            let (p, e₁, q₁) =
              >>=-eq-some
                (find_missing_checks env fuel depth (suc (suc turns))
                  (graph_context env fuel depth turns g) (m ∷ ms) before)
                _ (rw there at e) in
            let q : results_of g p.0 p.1 ≡ r = some_inj q₁ in
            let same : missing_of p.1 ≡ found =
              some_inj (ap (λ (x : Results). x.missing) q ∙ has_found) in
            (
              there,
              sym (ap (λ (x : Results). x.graph) q),
              subst (λ x. IsMissingRun options (m ∷ ms) x found) q
                  (subst (IsMissingRun options (m ∷ ms) (results_of g p.0 p.1)) same
                    (find_missing_checks_lem options m ms g before p linked asked e₁)),
            )
      ]

  -- Where null has no body: if main returns with reports of missing checks, at least one bitcode
  -- file having a module, then -mc was given, and the results come from the modules that were
  -- loaded, in their order. The call graph is what the call-graph pass leaves on all of them from
  -- an empty graph, with the type names of all: callers and callees are converse, and the calls in
  -- the functions of every module that are the one copy of themselves have the callees found for
  -- them. Pointer analysis and the identification of checks, after that of -sc, ran on each module.
  -- In the context with all these, stage 1 counted the checks of all modules and stage 2, from what
  -- stage 1 left, the missing ones, which leaves the checks as they are and for every source and
  -- use stands for numbers of which the unchecks are not more than the total. The reports are
  -- exactly those of the checked sources and uses that have a check, an uncheck and a rating that
  -- is not above the threshold.
  pub main_lem :
      (options : Options) (input_filenames : List String) (m : Module) (ms : List Module)
      (r : Results) (found : Missing)
      → is_declaration env.program null ≡ true
      → load_modules env input_filenames [] ≡ m ∷ ms
      → main env fuel depth (suc (suc turns)) options input_filenames ≡ some r
      → r.missing ≡ some found
      → (options.missing_checks ≡ true) × IsMissingRun options (m ∷ ms) r found
  unfolding main main_workflow
  main_lem options input_filenames m ms r found no_body loaded e has_found =
      let started : main_workflow env fuel depth (suc (suc turns)) options (m ∷ ms) ≡ some r =
        subst (λ x. main_workflow env fuel depth (suc (suc turns)) options x ≡ some r) loaded e in
      let (names, e₁, q₁) =
        >>=-eq-some (run_type_initializer env fuel depth (suc (suc turns)) (m ∷ ms)) _ started in
      let (g, e₂, q₂) =
        >>=-eq-some
          (run_call_graph env.program names fuel depth (suc (suc turns)) (m ∷ ms) empty_graph) _
          q₁ in
      let (before, e₃, q₃) =
        >>=-eq-some
          (identify_if_asked env fuel depth (suc (suc turns)) options
            (graph_context env fuel depth turns g) (m ∷ ms))
          _ q₂ in
      let (given, same, all) =
        find_if_asked_lem options m ms g before r found
          (run_call_graph-IsCallGraph env fuel depth turns (m ∷ ms) names g no_body e₁ e₂) e₃ q₃
          has_found in
      (given, all)
