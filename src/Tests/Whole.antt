-- ===== src/Tests/Whole.antt =====
-- A run of the whole program on the small program.
use crix.Base.{◌≡◌, refl, true, none, some, [], ◌∷◌, ltb, ◌*◌}
use crix.PointerAnalysis.Pairs.{AliasResult}
use crix.Tests.Sample.{f_ir}
use crix.Tests.Graphs.{g_program}
use crix.Ir.Kinds.{instructions, is_constant, get_called_func_name}
use crix.SecurityChecks.Identify.{identify_security_checks}
use crix.SecurityChecks.ValueFlow.{check_err_return, flow_body}
use crix.SecurityChecks.Propagate.{mark_all_edges_err_flag}
use crix.SecurityChecks.ErrHandle.{check_err_handle, is_handler_call, handler_name}
use crix.Worklist.{loop}
use crix.Workflow.{Options, Environment, Results, Missing, load_modules, main}
use crix.Workflow.Laws.{IsMissingRun, main_lem}

abbrev f_environment : Environment
f_environment = record {
  program = record g_program { ir = f_ir; gep = λ v. none; initializer = λ v. none };
  parse_ir_file = λ name. some (record { globals = []; functions = 1 ∷ [] });
  err_funcs = none;
  alias = λ m a b. AliasResult.no_alias;
  get_source_func_name = λ v. "";
  above_src = λ unchecks total. ltb (3 * total) (10 * unchecks);
  above_use = λ unchecks total. ltb total (10 * unchecks);
}

abbrev both : Options
both = record { security_checks = true; missing_checks = true }

whole_run :
    (r : Results) × (found : Missing) × (main f_environment 20 10 3 both ("a.bc" ∷ []) ≡ some r)
    × (r.missing ≡ some found)
unfolding main instructions identify_security_checks check_err_return loop flow_body is_constant
    get_called_func_name mark_all_edges_err_flag check_err_handle is_handler_call handler_name
whole_run = (_, _, refl, refl)

main_lem_example :
    (both.missing_checks ≡ true)
    × IsMissingRun f_environment 20 10 1 both
        (record { globals = []; functions = 1 ∷ [] } ∷ [])
        whole_run.0
        whole_run.1
unfolding load_modules
main_lem_example =
    main_lem f_environment 20 10 1 both ("a.bc" ∷ []) (record { globals = []; functions = 1 ∷ [] })
      [] whole_run.0 whole_run.1 refl refl whole_run.2 whole_run.3
