-- ===== src/CallGraph/Graph.antt =====
-- The part of GlobalContext that the call graph fills, and doInitialization of CallGraph.cc.
use Prim.Native.String.{String, ◌++◌}
use text.Mathlib.Text.{◌==◌ as str_eq}
use crix.Base.{
  ℕ, zero, suc, Bool, true, false, not, ◌&&◌, Option, none, some, ◌>>=◌, for_each, List, [], ◌∷◌,
  if◌then◌else◌, ◌==◌, insert, insert_at, nat_eq,
}
use crix.Ir.{Node}
use crix.Ir.Kinds.{instructions, null}
use crix.Ir.Calls.{starts_with}
use crix.CallGraph.{Program}
use crix.CallGraph.Hashes.{func_hash}
use crix.CallGraph.Layers.{TypeMaps}
use crix.CallGraph.Confine.{
  type_confine_in_initializer, type_confine_in_store, type_confine_in_cast,
}

-- A module of the program: its global variables and its functions.
pub record Module : Type 0 where
  pub globals : List ℕ
  pub functions : List ℕ

-- The maps of the pass, and of GlobalContext. A map to sets has the empty set for a missing key, and
-- GlobalFuncs and UnifiedFuncMap the null pointer: no key of theirs has that as doInitialization runs.
pub record Graph : Type 0 where
  pub maps : TypeMaps
  pub address_taken_funcs : List ℕ
  pub sig_funcs : ℕ → List ℕ
  pub global_funcs : String → ℕ
  pub unified_func_map : ℕ → ℕ
  pub unified_func_set : List ℕ
  pub callees : ℕ → List ℕ
  pub callers : ℕ → List ℕ
  pub indirect_call_insts : List ℕ

-- Before the pass.
abbrev pub empty_graph : Graph
empty_graph = record {
  maps = record {
    type_funcs = λ k. [];
    type_confine = λ k. [];
    type_transit = λ k. [];
    type_escape = [];
  };
  address_taken_funcs = [];
  sig_funcs = λ h. [];
  global_funcs = λ n. null;
  unified_func_map = λ h. null;
  unified_func_set = [];
  callees = λ c. [];
  callers = λ f. [];
  indirect_call_insts = [];
}

abbrev pub is_nil {ℓ} : {A : Type ℓ} → List A → Bool
is_nil [] = true
is_nil (x ∷ xs) = false

-- substr(4)
abbrev drop_chars : ℕ → String → String
drop_chars zero s = s
drop_chars (suc n) String.[] = String.[]
drop_chars (suc n) (String.◌∷◌ c s) = drop_chars n s

-- The names of system calls, made consistent.
unfoldable pub syscall_name : String → String
syscall_name n = if starts_with "SyS_" n then "sys_" ++ drop_chars 4 n else n

module _ (pg : Program) where
  -- isDeclaration, and empty
  abbrev pub is_declaration : ℕ → Bool
  is_declaration f = is_nil (pg.ir.blocks f)

  -- Collect address-taken functions.
  unfoldable pub collect_address_taken : ℕ → Graph → Graph
  unfolding func_hash
  collect_address_taken f s =
      if pg.ir.address_taken f
      then record s {
        address_taken_funcs = insert f s.address_taken_funcs;
        sig_funcs = insert_at (func_hash pg f false) f s.sig_funcs;
      }
      else s

  -- Collect global function definitions.
  unfoldable pub collect_global : ℕ → Graph → Graph
  unfolding syscall_name
  collect_global f s =
      if pg.has_external_linkage f && not (is_declaration f)
      then record s {
        global_funcs = λ n. if str_eq n (syscall_name (pg.ir.name f)) then f else s.global_funcs n;
      }
      else s

  -- Keep a single copy for same functions.
  unfoldable pub unify_function : ℕ → Graph → Graph
  unfolding func_hash
  unify_function f s =
      let fh = func_hash pg f true in
      if s.unified_func_map fh == null
      then record s {
        unified_func_map = λ h. if h == fh then f else s.unified_func_map h;
        unified_func_set = insert f s.unified_func_set;
        sig_funcs =
            if pg.ir.address_taken f
            then insert_at (func_hash pg f false) f s.sig_funcs
            else s.sig_funcs;
      }
      else s

  unfoldable pub register_function : ℕ → Graph → Graph
  unfolding collect_address_taken collect_global unify_function
  register_function f s = unify_function f (collect_global f (collect_address_taken f s))

module _ (pg : Program) (names : ℕ → Option String) where
  -- An instruction that may put a function or a type somewhere.
  unfoldable pub confine_node : ℕ → ℕ → Node → TypeMaps → Option TypeMaps
  unfolding type_confine_in_store type_confine_in_cast
  confine_node depth i (Node.store vo po) maps =
      type_confine_in_store pg names depth vo po maps >>= λ r. some r.1
  confine_node depth i (Node.cast from) maps = some (type_confine_in_cast pg names i from maps).1
  confine_node depth i _ maps = some maps

  unfoldable pub confine_instruction : ℕ → ℕ → TypeMaps → Option TypeMaps
  unfolding confine_node
  confine_instruction depth i maps = confine_node depth i (pg.ir.node i) maps

  unfoldable pub confine_global : ℕ → ℕ → TypeMaps → Option TypeMaps
  unfolding type_confine_in_initializer
  confine_global fuel gv maps = elim (pg.initializer gv) [
    | none ↦ some maps
    | some ini ↦
        if pg.is_aggregate ini
        then type_confine_in_initializer pg names fuel (ini ∷ []) maps
        else some maps
  ]

  -- The body of the loop over the functions.
  unfoldable pub initialize_function : ℕ → ℕ → Graph → Option Graph
  unfolding confine_instruction register_function
  initialize_function depth f s =
      if is_declaration pg f
      then some s
      else (for_each (confine_instruction depth) (instructions pg.ir f) s.maps >>= λ maps.
          some (register_function pg f (record s { maps = maps })))

  -- The loops of doInitialization: `fuel` is for the initializers, `depth` for nextLayerBaseType.
  unfoldable pub initialize_module : ℕ → ℕ → Module → Graph → Option Graph
  unfolding confine_global initialize_function
  initialize_module fuel depth m s = for_each (confine_global fuel) m.globals s.maps >>= λ maps.
      for_each (initialize_function depth) m.functions (record s { maps = maps })

  unfoldable pub do_initialization : ℕ → ℕ → Module → Graph → Option (Bool × Graph)
  unfolding initialize_module
  do_initialization fuel depth m s = initialize_module fuel depth m s >>= λ s'. some (false, s')
