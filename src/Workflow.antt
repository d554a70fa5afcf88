-- ===== src/Workflow.antt =====
-- main of Analyzer.cc from the loading of the modules on, and LoadStaticData.
pub mod Steps
pub mod Laws
use Prim.Native.String.{String}
use crix.Base.{
  ℕ, Bool, true, false, Option, none, some, ◌>>=◌, for_each, List, [], ◌∷◌, ◌++◌, if◌then◌else◌,
  map, length, find, nat_eq,
}
use crix.Context.{Context}
use crix.Analyzer.{run}
use crix.Config.{set_error_handle_funcs, set_copy_funcs, set_data_fetch_funcs}
use crix.CallGraph.{Program}
use crix.CallGraph.Graph.{Module, Graph, empty_graph}
use crix.CallGraph.Pass.{run_call_graph}
use crix.TypeInitializer.{TypeNames, initialize_types, build_type_struct_map, type_to_tname}
use crix.PointerAnalysis.Pairs.{AliasResult}
use crix.PointerAnalysis.Pass.{PaResults, pass_module}
use crix.SecurityChecks.Identify.{Checks, do_module_pass as identify_checks}
use crix.MissingChecks.Model.{Counts, no_counts}
use crix.MissingChecks.Stages.{State, do_initialization, do_module_pass, do_finalization}
use crix.MissingChecks.Results.{SrcTy, Report, process_results}

-- The options -sc and -mc.
pub record Options : Type 0 where
  pub security_checks : Bool
  pub missing_checks : Bool

-- What the program gets from outside: the modules in the bitcode files, the lines of
-- configs/err-funcs, the alias analysis of a module, the functions named in source lines, and the
-- comparisons of a rating with its threshold.
pub record Environment : Type 0 where
  pub program : Program
  pub parse_ir_file : String → Option Module
  pub err_funcs : Option (List String)
  pub alias : Module → ℕ → ℕ → AliasResult
  pub get_source_func_name : ℕ → String
  pub above_src : ℕ → ℕ → Bool
  pub above_use : ℕ → ℕ → Bool

-- Before any pass.
abbrev pub empty_context : Context
empty_context = record {
  error_handle_funcs = [];
  copy_funcs = [];
  data_fetch_funcs = [];
  callees = λ ci. [];
  callers = λ f. [];
  unified_func_set = [];
  func_pa_results = λ f v. none;
  check_inst_sets = λ f. [];
}

abbrev pub no_checks : Checks
no_checks = record {
  num_cond_statements = 0;
  num_security_checks = 0;
  check_inst_sets = λ f. [];
  security_check_sets = λ f. [];
  err_selects = [];
}

-- The fields of GlobalContext that a pass fills, where the others read them.
abbrev pub share_graph : Graph → Context → Context
share_graph g ctx = record ctx {
  callees = g.callees;
  callers = g.callers;
  unified_func_set = g.unified_func_set;
}

abbrev pub share_aliases : PaResults → Context → Context
share_aliases pa ctx = record ctx { func_pa_results = λ f v. find v (pa f) }

abbrev pub share_checks : Checks → Context → Context
share_checks c ctx = record ctx { check_inst_sets = c.check_inst_sets }

-- doInitialization and doFinalization of the passes that do nothing there.
abbrev pub unchanged {ℓ κ} : {M : Type ℓ} {S : Type κ} → M → S → Option (Bool × S)
unchanged m s = some (false, s)

pub record Missing : Type 0 where
  pub counts : Counts
  pub reports : List (SrcTy × Report) × List Report

-- What main leaves: the call graph, the checks, and with -mc the counters and the reports.
pub record Results : Type 0 where
  pub graph : Graph
  pub checks : Checks
  pub missing : Option Missing

module _ (env : Environment) where
  -- Loading modules
  unfoldable pub load_modules : List String → List Module → List Module
  load_modules [] ms = ms
  load_modules (name ∷ names) ms = elim (env.parse_ir_file name) [
    | none ↦ load_modules names ms
    | some m ↦ load_modules names (ms ++ m ∷ [])
  ]

  unfoldable pub load_static_data : Context → Context
  unfolding set_error_handle_funcs set_copy_funcs set_data_fetch_funcs
  load_static_data ctx = record ctx {
    error_handle_funcs = set_error_handle_funcs env.err_funcs ctx.error_handle_funcs;
    copy_funcs = set_copy_funcs ctx.copy_funcs;
    data_fetch_funcs = set_data_fetch_funcs ctx.data_fetch_funcs;
  }

  -- `turns` is for the turns over the modules, `depth` for nextLayerBaseType, `fuel` for the other
  -- loops.
  module _ (fuel depth turns : ℕ) where
    -- TIPass.run and BuildTypeStructMap
    unfoldable pub run_type_initializer : List Module → Option (ℕ → Option String)
    unfolding initialize_types build_type_struct_map type_to_tname run
    run_type_initializer modules = do
      s ←
          run turns (λ m s. initialize_types env.program fuel m s >>= λ t. some (false, t))
            unchanged unchanged modules (record { type_value_map = []; vname_to_typename_map = [] })
      some (type_to_tname (build_type_struct_map s.type_value_map s.vname_to_typename_map []))

    -- SCPass.run
    unfoldable pub run_security_checks : Context → List Module → Checks → Option Checks
    unfolding identify_checks run
    run_security_checks ctx =
        run turns unchanged
          (λ m s.
            identify_checks env.program.ir ctx env.get_source_func_name fuel m.functions s >>= λ t.
            some (false, t))
          unchanged

    -- PAPass.run
    unfoldable pub run_pointer_analysis : List Module → Option PaResults
    unfolding pass_module run
    run_pointer_analysis modules =
        run turns unchanged
          (λ m s.
            pass_module env.program.ir (env.alias m) fuel m.functions s >>= λ t. some (false, t))
          unchanged modules (λ f. [])

    -- MCPass.run
    unfoldable pub run_missing_checks : Context → List Module → Option Counts
    unfolding do_initialization do_module_pass do_finalization run
    run_missing_checks ctx modules =
        run turns do_initialization (do_module_pass env.program.ir ctx fuel (length modules))
          do_finalization (map (λ (m : Module). m.functions) modules)
          (record { stage = 1; midx = 0; counts = no_counts })
        >>= λ s. some s.counts

    -- What -mc does.
    unfoldable pub find_missing_checks : Context → List Module → Checks → Option (Checks × Counts)
    unfolding run_pointer_analysis run_security_checks run_missing_checks
    find_missing_checks ctx modules checks = do
      pa ← run_pointer_analysis modules
      let pa_ctx = share_aliases pa ctx
      found ← run_security_checks pa_ctx modules checks
      counts ← run_missing_checks (share_checks found pa_ctx) modules
      some (found, counts)

    -- The two options.
    unfoldable pub identify_if_asked : Options → Context → List Module → Option Checks
    unfolding run_security_checks
    identify_if_asked options ctx modules =
        if options.security_checks
        then run_security_checks ctx modules no_checks
        else some no_checks

    unfoldable pub find_if_asked : Options → Graph → Context → List Module → Checks → Option Results
    unfolding find_missing_checks process_results
    find_if_asked options graph ctx modules checks =
        if options.missing_checks
        then (find_missing_checks ctx modules checks >>= λ (all_checks, counts). some (record {
          graph = graph;
          checks = all_checks;
          missing = some (record {
            counts = counts;
            reports = process_results env.program.ir env.above_src env.above_use counts;
          });
        }))
        else some (record { graph = graph; checks = checks; missing = none })

    -- The workflow on the modules.
    unfoldable pub main_workflow : Options → List Module → Option Results
    unfolding load_static_data run_type_initializer run_call_graph identify_if_asked find_if_asked
    main_workflow options modules = do
      names ← run_type_initializer modules
      graph ← run_call_graph env.program names fuel depth turns modules empty_graph
      let ctx = share_graph graph (load_static_data empty_context)
      checks ← identify_if_asked options ctx modules
      find_if_asked options graph ctx modules checks

    -- main
    unfoldable pub main : Options → List String → Option Results
    unfolding load_modules main_workflow
    main options input_filenames = main_workflow options (load_modules input_filenames [])
