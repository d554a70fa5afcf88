-- ===== src/Context.antt =====
-- GlobalContext of Analyzer.h: what the passes share. A map whose `m[k]` makes an empty set for a
-- missing key is a function.
use Prim.Native.String.{String}
use crix.Base.{ℕ, Option, List, ℤ}

pub record Context : Type 0 where
  -- ErrorHandleFuncs; CopyFuncs: name, (source, destination, size); DataFetchFuncs: name,
  -- (destination, source)
  pub error_handle_funcs : List String
  pub copy_funcs : List (String × (ℤ × ℤ × ℤ))
  pub data_fetch_funcs : List (String × (ℤ × ℤ))
  -- Callees of a call, Callers of a function, in the order in which the sets are walked
  pub callees : ℕ → List ℕ
  pub callers : ℕ → List ℕ
  pub unified_func_set : List ℕ
  -- FuncPAResults: a function and a pointer to its aliases
  pub func_pa_results : ℕ → ℕ → Option (List ℕ)
  -- CheckInstSets: the conditions of a function that check for errors
  pub check_inst_sets : ℕ → List ℕ
