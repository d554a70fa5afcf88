-- ===== src/CallGraph/Pass.antt =====
-- doModulePass of CallGraph.cc: the callees of each call and the callers of each function.
use Prim.Native.String.{String}
use crix.Base.{
  ℕ, Bool, true, false, Option, none, some, ◌>>=◌, for_each, List, [], ◌∷◌, ◌++◌, if◌then◌else◌,
  ◌==◌, has, insert_at, nat_eq,
}
use crix.Ir.{Node}
use crix.Ir.Kinds.{instructions, null}
use crix.CallGraph.{Program}
use crix.CallGraph.Hashes.{func_hash}
use crix.CallGraph.Layers.{find_callees_with_mlta}
use crix.Analyzer.{run}
use crix.CallGraph.Graph.{Module, Graph, is_declaration, syscall_name, do_initialization}

unfoldable pub do_finalization : Module → Graph → Option (Bool × Graph)
do_finalization m s = some (false, s)

-- The loop over FS that inserts the call into Callers.
unfoldable pub add_callers : ℕ → List ℕ → (ℕ → List ℕ) → ℕ → List ℕ
add_callers ci [] callers = callers
add_callers ci (f ∷ fs) callers = add_callers ci fs (insert_at f ci callers)

module _ (pg : Program) where
  -- The definition of an external function, if there is one.
  unfoldable pub resolve : Graph → ℕ → ℕ
  unfolding syscall_name
  resolve s cf =
      let gf = s.global_funcs (syscall_name (pg.ir.name cf)) in
      if is_declaration pg cf then (if gf == null then cf else gf) else cf

  -- FS of a direct call: the one copy of the function.
  unfoldable pub direct_callees : Graph → Option ℕ → List ℕ
  unfolding resolve func_hash
  direct_callees s none = []
  direct_callees s (some cf) =
      let unified = s.unified_func_map (func_hash pg (resolve s cf) true) in
      if unified == null then [] else unified ∷ []

  -- What a call leaves.
  unfoldable pub record_call : ℕ → List ℕ → Graph → Graph
  unfolding add_callers
  record_call ci fs s = record s {
    callers = add_callers ci fs s.callers;
    callees = λ c. if c == ci then fs else s.callees c;
    indirect_call_insts =
        if pg.ir.is_indirect_call ci
        then s.indirect_call_insts ++ ci ∷ []
        else s.indirect_call_insts;
  }

module _ (pg : Program) (names : ℕ → Option String) (fuel depth : ℕ) where
  -- FS of a call.
  unfoldable pub callees_of : Graph → ℕ → ℕ → Option (List ℕ)
  unfolding direct_callees find_callees_with_mlta
  callees_of s ci called =
      if pg.ir.is_indirect_call ci
      then (find_callees_with_mlta pg names s.maps depth fuel s.sig_funcs ci called >>= λ r.
          some r.1)
      else some (direct_callees pg s (pg.ir.called_function ci))

  -- What the loop does with an instruction.
  unfoldable pub pass_node : ℕ → Node → Graph → Option Graph
  unfolding callees_of record_call
  pass_node i (Node.call called args) s =
      callees_of s i called >>= λ fs. some (record_call pg i fs s)
  pass_node i _ s = some s

  unfoldable pub pass_instruction : ℕ → Graph → Option Graph
  unfolding pass_node
  pass_instruction i s = pass_node i (pg.ir.node i) s

  unfoldable pub pass_function : ℕ → Graph → Option Graph
  unfolding pass_instruction
  pass_function f s =
      if has f s.unified_func_set
      then for_each pass_instruction (instructions pg.ir f) s
      else some s

  -- The loops of doModulePass.
  unfoldable pub pass_module : Module → Graph → Option Graph
  unfolding pass_function
  pass_module m s = for_each pass_function m.functions s

  unfoldable pub do_module_pass : Module → Graph → Option (Bool × Graph)
  unfolding pass_module
  do_module_pass m s = pass_module m s >>= λ s'. some (false, s')

  -- CGPass.run, with `turns` for the turns over the modules.
  unfoldable pub run_call_graph : ℕ → List Module → Graph → Option Graph
  unfolding do_initialization do_module_pass do_finalization run
  run_call_graph turns modules s =
      run turns (do_initialization pg names fuel depth) do_module_pass do_finalization modules s
