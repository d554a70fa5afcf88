-- ===== src/CallGraph/PassRun.antt =====
-- The run of the call-graph pass over all modules.
use Prim.Native.String.{String}
use crix.Base.{
  ℕ, suc, ◌≡◌, ap, ◌∙◌, true, false, Option, some, ◌>>=◌, for_each, List, has, nat_eq, Bool-cases,
  inl, inr, All, All-map, IsLoopRule, for_each_rule, subst, some_inj,
}
use crix.Ir.Kinds.{instructions}
use crix.Analyzer.Once.{run-quiet}
use crix.CallGraph.{Program}
use crix.CallGraph.Graph.{Module, Graph, initialize_module, do_initialization}
use crix.CallGraph.Pass.{
  pass_instruction, pass_function, pass_module, do_module_pass, do_finalization, run_call_graph,
}
use crix.CallGraph.PassLaws.{IsConverse, IsFound, pass_instruction-IsConverse}

module _ (pg : Program) (names : ℕ → Option String) (fuel depth : ℕ) where
  -- The calls that had their callees keep them.
  abbrev pub KeepsFound : Graph → Graph → Graph → Type 0
  KeepsFound s t u = (c : ℕ) → IsFound pg names fuel depth s c t → IsFound pg names fuel depth s c u

  -- Every call in a function that is the one copy of itself has its callees.
  abbrev pub IsPassed : Graph → ℕ → Graph → Type 0
  IsPassed s f t =
      has f s.unified_func_set ≡ true
      → All (λ i. IsFound pg names fuel depth s i t) (instructions pg.ir f)

  instruction_rule :
      (s : Graph)
      → IsLoopRule
          (pass_instruction pg names fuel depth)
          (IsConverse pg names fuel depth s)
          (KeepsFound s)
          (IsFound pg names fuel depth s)
  instruction_rule s = record {
    starts = λ t c h. h;
    chains = λ t u v k l c h. l c (k c h);
    stays = λ i t u k q. k i q;
    turns = λ i t u h e.
        let (after, found, keeps) = pass_instruction-IsConverse pg names fuel depth s i t u h e in
        (after, keeps, found);
  }

  function_turn :
      (s : Graph) (f : ℕ) (t u : Graph)
      → IsConverse pg names fuel depth s t
      → pass_function pg names fuel depth f t ≡ some u
      → IsConverse pg names fuel depth s u × KeepsFound s t u × IsPassed s f u
  unfolding pass_function
  function_turn s f t u h e = elim (Bool-cases (has f s.unified_func_set)) [
    | inl member ↦
        let here : has f t.unified_func_set ≡ true = ap (has f) h.sources.same_set ∙ member in
        let (after, keeps, found) =
          for_each_rule (pass_instruction pg names fuel depth) (IsConverse pg names fuel depth s)
            (KeepsFound s) (IsFound pg names fuel depth s) (instruction_rule s)
            (instructions pg.ir f) t u h (rw (here, pass_function) at e) in
        (after, keeps, λ _. found)
    | inr other ↦
        let away : has f t.unified_func_set ≡ false = ap (has f) h.sources.same_set ∙ other in
        let q : t ≡ u = some_inj (rw (away, pass_function) at e) in
        subst (λ v. IsConverse pg names fuel depth s v × KeepsFound s t v × IsPassed s f v) q
          (h, (λ c found. found), (λ member. absurd (cc)))
  ]

  function_rule :
      (s : Graph)
      → IsLoopRule
          (pass_function pg names fuel depth)
          (IsConverse pg names fuel depth s)
          (KeepsFound s)
          (IsPassed s)
  function_rule s = record {
    starts = λ t c h. h;
    chains = λ t u v k l c h. l c (k c h);
    stays = λ f t u k q member. All-map k (instructions pg.ir f) (q member);
    turns = λ f t u h e. function_turn s f t u h e;
  }

  pub module_rule :
      (s : Graph)
      → IsLoopRule
          (pass_module pg names fuel depth)
          (IsConverse pg names fuel depth s)
          (KeepsFound s)
          (λ m t. All (λ f. IsPassed s f t) m.functions)
  unfolding pass_module
  module_rule s = record {
    starts = λ t c h. h;
    chains = λ t u v k l c h. l c (k c h);
    stays = λ m t u k q. All-map (λ f passed. (function_rule s).stays f t u k passed) m.functions q;
    turns = λ m t u h e.
        for_each_rule (pass_function pg names fuel depth) (IsConverse pg names fuel depth s)
          (KeepsFound s) (IsPassed s) (function_rule s) m.functions t u h e;
  }

  -- The loops of the run. Neither of the steps asks for another turn.
  pub run_call_graph_loops :
      (turns : ℕ) (ms : List Module) (s : Graph)
      → run_call_graph pg names fuel depth (suc turns) ms s ≡ (
          for_each (initialize_module pg names fuel depth) ms s >>= λ s₁.
          for_each (pass_module pg names fuel depth) ms s₁ >>= for_each (λ m t. some t) ms)
  unfolding run_call_graph do_initialization do_module_pass do_finalization
  run_call_graph_loops turns ms s =
      run-quiet turns (initialize_module pg names fuel depth) (pass_module pg names fuel depth)
        (λ m t. some t) ms s
