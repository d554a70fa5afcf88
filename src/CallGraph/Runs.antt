-- ===== src/CallGraph/Runs.antt =====
-- The call graph that the run of the pass over all modules leaves.
use Prim.Native.String.{String}
use crix.Base.{
  ℕ, suc, ◌≡◌, ◌≢◌, ◌↔◌, refl, sym, ap, ◌∙◌, true, false, Option, some, ◌>>=◌, for_each, List, has,
  nat_eq, inl, inr, All, All-map, for_each_rule, for_each_idle, subst, >>=-eq-some, some_inj,
}
use crix.Ir.Kinds.{instructions, null}
use crix.CallGraph.{Program}
use crix.CallGraph.Hashes.{call_hash}
use crix.CallGraph.Layers.{find_callees_with_mlta}
use crix.CallGraph.LayerBounds.{find_callees_with_mlta_bounds}
use crix.CallGraph.Graph.{Module, Graph, is_declaration, initialize_module, empty_graph}
use crix.CallGraph.InitLaws.{name_hash, sig_hash}
use crix.CallGraph.InitRun.{IsInitialized, IsRegistered, initialize_modules}
use crix.CallGraph.Pass.{callees_of, pass_module, run_call_graph}
use crix.CallGraph.PassLaws.{IsConverse}
use crix.CallGraph.PassRun.{IsPassed, KeepsFound, module_rule, run_call_graph_loops}

empty_graph-IsInitialized : (pg : Program) → IsInitialized pg empty_graph
empty_graph-IsInitialized pg = record {
  unified = record { mapped = λ h there. absurd (there refl); single = λ f member. absurd (cc) };
  sound = λ g h member. absurd (cc);
  no_callees = λ c. refl;
  no_callers = λ f. refl;
}

module _ (pg : Program) (names : ℕ → Option String) (fuel depth : ℕ) where
  begins-IsConverse : (s : Graph) → IsInitialized pg s → IsConverse pg names fuel depth s s
  begins-IsConverse s i = record {
    sources = record { same_callees = λ c v. refl; same_set = refl };
    dual = λ c f. rw (i.no_callers f) (rw (i.no_callees c) refl);
    own = λ c. inl (i.no_callees c);
  }

  -- What a run that returns from the empty graph went through: the state `s` between the loops.
  run_parts :
      (turns : ℕ) (ms : List Module) (t : Graph)
      → is_declaration pg null ≡ true
      → run_call_graph pg names fuel depth (suc turns) ms empty_graph ≡ some t
      → (s : Graph) × IsInitialized pg s
        × All (λ m. All (λ f. IsRegistered pg f s) m.functions) ms
        × IsConverse pg names fuel depth s t
        × All (λ m. All (λ f. IsPassed pg names fuel depth s f t) m.functions) ms
  run_parts turns ms t no_body e =
      let (s, started, e₁) =
        >>=-eq-some (for_each (initialize_module pg names fuel depth) ms empty_graph)
          (λ s₁. for_each (pass_module pg names fuel depth) ms s₁ >>= for_each (λ m u. some u) ms)
          (sym (run_call_graph_loops pg names fuel depth turns ms empty_graph) ∙ e) in
      let (u, passed, e₂) =
        >>=-eq-some (for_each (pass_module pg names fuel depth) ms s) (for_each (λ m u. some u) ms)
          e₁ in
      let (i, registered) =
        initialize_modules pg names fuel depth no_body ms empty_graph s
          (empty_graph-IsInitialized pg) started in
      let (after, keeps, all) =
        for_each_rule (pass_module pg names fuel depth) (IsConverse pg names fuel depth s)
          (KeepsFound pg names fuel depth s)
          (λ m v. All (λ f. IsPassed pg names fuel depth s f v) m.functions)
          (module_rule pg names fuel depth s) ms s u (begins-IsConverse s i) passed in
      let q : u ≡ t = some_inj (sym (for_each_idle ms u) ∙ e₂) in
      (
        s,
        i,
        registered,
        subst (IsConverse pg names fuel depth s) q after,
        subst (λ v. All (λ m. All (λ f. IsPassed pg names fuel depth s f v) m.functions) ms) q all,
      )

  -- After a run of the pass that returns, from the empty graph: a call is among the callers of exactly
  -- the functions that are among its callees; and each call instruction in a function of a module
  -- that is the one copy of itself has for callees what is found for it in the final state, by
  -- findCalleesWithMLTA if it is indirect, else by name and hash.
  pub run_call_graph_lem :
      (turns : ℕ) (ms : List Module) (t : Graph)
      → is_declaration pg null ≡ true
      → run_call_graph pg names fuel depth (suc turns) ms empty_graph ≡ some t
      → ((ci f : ℕ) → (has ci (t.callers f) ≡ true) ↔ (has f (t.callees ci) ≡ true))
        × All (λ m. All (λ f. IsPassed pg names fuel depth t f t) m.functions) ms
  run_call_graph_lem turns ms t no_body e =
      let (s, i, registered, converse, passed) = run_parts turns ms t no_body e in
      (
        (λ ci f. (λ h. sym (converse.dual ci f) ∙ h, λ h. converse.dual ci f ∙ h)),
        All-map
            (λ m each.
              All-map
                (λ f done member.
                  All-map
                    (λ c found called args is_call.
                      converse.sources.same_callees c called ∙ found called args is_call)
                    (instructions pg.ir f)
                    (done (sym (ap (has f) converse.sources.same_set) ∙ member)))
                m.functions each)
            ms passed,
      )

  -- After such a run every callee of an indirect call is a function with a body whose address is
  -- taken, and the hash of its type is that of the call.
  pub run_call_graph_indirect :
      (turns : ℕ) (ms : List Module) (t : Graph) (ci g : ℕ)
      → is_declaration pg null ≡ true
      → run_call_graph pg names fuel depth (suc turns) ms empty_graph ≡ some t
      → pg.ir.is_indirect_call ci ≡ true
      → has g (t.callees ci) ≡ true
      → (pg.ir.address_taken g ≡ true)
        × (is_declaration pg g ≡ false)
        × (sig_hash pg g ≡ call_hash pg ci)
  unfolding callees_of
  run_call_graph_indirect turns ms t ci g no_body e indirect member =
      let (s, i, registered, converse, passed) = run_parts turns ms t no_body e in
      elim (converse.own ci) [
        | inl nil ↦ absurd (cc (rw nil at member))
        | inr (called, args, is_call, found) ↦
            let (r, run, q) =
              >>=-eq-some (find_callees_with_mlta pg names s.maps depth fuel s.sig_funcs ci called)
                (λ r. some r.1) (rw (indirect, callees_of) at found) in
            let (inside, _, _) =
              find_callees_with_mlta_bounds pg names s.maps depth fuel s.sig_funcs ci called r.0 r.1
                run in
            let (taken, hash, defined) =
              i.sound g (call_hash pg ci) (inside g (rw (some_inj q) member)) in
            (taken, defined, hash)
      ]

  -- After such a run each function of a module that has a body has one copy of the same hash: the
  -- function that UnifiedFuncMap has for the hash of its name and type, which is not null, has that
  -- hash and is in UnifiedFuncSet; and no two functions of UnifiedFuncSet have the same hash.
  pub run_call_graph_unified :
      (turns : ℕ) (ms : List Module) (t : Graph)
      → is_declaration pg null ≡ true
      → run_call_graph pg names fuel depth (suc turns) ms empty_graph ≡ some t
      → All
          (λ m.
            All
              (λ f.
                is_declaration pg f ≡ false
                → (g : ℕ) × (g ≢ null)
                  × (has g t.unified_func_set ≡ true)
                  × (name_hash pg g ≡ name_hash pg f))
              m.functions)
          ms
        × ((f g : ℕ)
            → has f t.unified_func_set ≡ true
            → has g t.unified_func_set ≡ true
            → name_hash pg f ≡ name_hash pg g
            → f ≡ g)
  run_call_graph_unified turns ms t no_body e =
      let (s, i, registered, converse, passed) = run_parts turns ms t no_body e in
      let same = converse.sources.same_set in
      (
        All-map
            (λ m each.
              All-map
                (λ f done defined.
                  let there = (done defined).0 in
                  let (hash, member) = i.unified.mapped (name_hash pg f) there in
                  (s.unified_func_map (name_hash pg f), there, rw same member, hash))
                m.functions each)
            ms registered,
        λ f g inf ing q.
            sym (i.unified.single f (rw same at inf)).0
            ∙ ap s.unified_func_map q
            ∙ (i.unified.single g (rw same at ing)).0,
      )
