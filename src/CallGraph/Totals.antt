-- ===== src/CallGraph/Totals.antt =====
-- The pass of CallGraph.cc ends.
use Prim.Native.String.{String}
use crix.Base.{
  ℕ, zero, suc, ◌+◌, ◌≤◌, ◌<◌, ◌≡◌, refl, ◌∙◌, true, false, Option, some, ◌>>=◌, for_each, Ends,
  Ends-bind, Ends-for_each, Ends-if, Ends-some, List, [], ◌∷◌, ◌++◌, has, nat_eq, arith, Bool-cases,
  Option-cases, List-cases, inl, inr,
}
use crix.Ir.{Node}
use crix.Ir.Kinds.{instructions}
use crix.CallGraph.{Program, is_composite_type}
use crix.CallGraph.Hashes.{call_hash}
use crix.CallGraph.Layers.{TypeMaps, next_layer_base_type, find_callees_with_mlta}
use crix.CallGraph.LayerTotal.{IsGrounded, next_layer_total, find_callees_with_mlta_lem}
use crix.CallGraph.Confine.{
  is_function, is_null, is_pointer_shape, confine_operand, confine_operands,
  type_confine_in_initializer, type_confine_in_store,
}
use crix.CallGraph.Graph.{
  Module, Graph, is_declaration, confine_node, confine_instruction, confine_global,
  initialize_function, initialize_module,
}
use crix.CallGraph.Pass.{
  callees_of, pass_node, pass_instruction, pass_function, pass_module, run_call_graph,
}
use crix.CallGraph.PassRun.{run_call_graph_loops}

abbrev pub total_size : (ℕ → ℕ) → List ℕ → ℕ
total_size size [] = 0
total_size size (o ∷ os) = size o + total_size size os

total_size-append :
    (size : ℕ → ℕ) (xs ys : List ℕ)
    → total_size size (xs ++ ys) ≡ total_size size xs + total_size size ys
total_size-append size [] ys = omega arith
total_size-append size (x ∷ xs) ys = omega (arith, total_size-append size xs ys)

-- Values whose operands lie deeper, as trees of bounded size, and fuel for them. A constant is no
-- operand of itself.
pub record HasFuel (pg : Program) (rank size : ℕ → ℕ) (fuel depth : ℕ) : Type 0 where
  pub grounded : IsGrounded pg rank
  pub deep : (v : ℕ) → rank v < depth
  pub layers : (v : ℕ) → rank v ≤ fuel
  pub sized : (u : ℕ) → total_size size (pg.ir.operands u) < size u
  pub initializers : (gv ini : ℕ) → pg.initializer gv ≡ some ini → size ini ≤ fuel

module _ (pg : Program) (names : ℕ → Option String) (rank size : ℕ → ℕ) (fuel depth : ℕ)
    (h : HasFuel pg rank size fuel depth) where
  confine_operand-size :
      (u ono o : ℕ) (maps : TypeMaps)
      → total_size size (confine_operand pg names u ono o maps).1 ≤ size o
  unfolding confine_operand
  confine_operand-size u ono o maps = elim (Bool-cases (is_function (pg.ir.node o))) [
    | inl f ↦ rw (f, confine_operand) (omega arith)
    | inr other ↦ elim (Bool-cases (is_composite_type pg (pg.type_of o))) [
      | inl c ↦ rw (other, confine_operand) (rw c (omega arith))
      | inr c ↦ rw (other, confine_operand) (rw c (omega arith))
    ]
  ]

  confine_operands-size :
      (u ono : ℕ) (os : List ℕ) (maps : TypeMaps)
      → total_size size (confine_operands pg names u ono os maps).1 ≤ total_size size os
  unfolding confine_operands
  confine_operands-size u ono [] maps = omega arith
  confine_operands-size u ono (o ∷ os) maps =
      let r = confine_operand pg names u ono o maps in
      omega (
        arith,
        total_size-append size r.1 (confine_operands pg names u (ono + 1) os r.0).1,
        confine_operand-size u ono o maps,
        confine_operands-size u (ono + 1) os r.0,
      )

  initializer_total :
      (f : ℕ) (lu : List ℕ) (maps : TypeMaps)
      → total_size size lu ≤ f
      → Ends (type_confine_in_initializer pg names f lu maps)
  unfolding type_confine_in_initializer
  initializer_total f [] maps le = (maps, refl)
  initializer_total zero (u ∷ lu) maps le = absurd (omega (arith, h.sized u))
  initializer_total (suc f) (u ∷ lu) maps le =
      let r = confine_operands pg names u 0 (pg.ir.operands u) maps in
      initializer_total f (lu ++ r.1) r.0 (
        omega (
          arith,
          h.sized u,
          total_size-append size lu r.1,
          confine_operands-size u 0 (pg.ir.operands u) maps,
        ))

  global_total : (gv : ℕ) (maps : TypeMaps) → Ends (confine_global pg names fuel gv maps)
  unfolding confine_global
  global_total gv maps = elim (Option-cases (pg.initializer gv)) [
    | inl e ↦ (maps, rw (e, confine_global) refl)
    | inr (ini, e) ↦ elim (Bool-cases (pg.is_aggregate ini)) [
      | inr simple ↦ (maps, rw (e, confine_global) (rw simple refl))
      | inl aggregate ↦
          let (t, run) =
            initializer_total fuel (ini ∷ []) maps (omega (arith, h.initializers gv ini e)) in
          (t, rw (e, confine_global) (rw aggregate run))
    ]
  ]

  next_total : (v : ℕ) → Ends (next_layer_base_type pg depth v)
  next_total v =
      let (r, run, _, _) = next_layer_total pg rank h.grounded depth v (h.deep v) in (r, run)

  store_total :
      (vo po : ℕ) (maps : TypeMaps) → Ends (type_confine_in_store pg names depth vo po maps)
  unfolding type_confine_in_store
  store_total vo po maps =
      Ends-if (is_function (pg.ir.node vo))
        (Ends-bind (next_layer_base_type pg depth po) _ (next_total po) (λ l. Ends-some _))
        (Ends-if (is_composite_type pg (pg.type_of vo)) (Ends-some _) (
          Ends-if (is_null (pg.ir.node vo)) (Ends-some _) (
            Ends-if (is_pointer_shape (pg.shape (pg.type_of vo)))
              (Ends-bind (next_layer_base_type pg depth po) _ (next_total po) (λ l. Ends-some _))
              (Ends-some _))))

  confine_node_total :
      (i : ℕ) (n : Node) (maps : TypeMaps) → Ends (confine_node pg names depth i n maps)
  unfolding confine_node
  confine_node_total i (Node.store vo po) maps =
      Ends-bind (type_confine_in_store pg names depth vo po maps) (λ r. some r.1)
        (store_total vo po maps) (λ r. Ends-some r.1)
  confine_node_total i (Node.cast from) maps = Ends-some _
  confine_node_total i _ maps = Ends-some maps

  initialize_function_total : (f : ℕ) (s : Graph) → Ends (initialize_function pg names depth f s)
  unfolding initialize_function confine_instruction
  initialize_function_total f s = Ends-if (is_declaration pg f) (Ends-some s) (
      Ends-bind (for_each (confine_instruction pg names depth) (instructions pg.ir f) s.maps) _
        (Ends-for_each (confine_instruction pg names depth)
          (λ i maps. confine_node_total i (pg.ir.node i) maps) (instructions pg.ir f) s.maps)
        (λ maps. Ends-some _))

  initialize_module_total :
      (m : Module) (s : Graph) → Ends (initialize_module pg names fuel depth m s)
  unfolding initialize_module
  initialize_module_total m s =
      Ends-bind (for_each (confine_global pg names fuel) m.globals s.maps)
        (λ maps.
          for_each (initialize_function pg names depth) m.functions (record s { maps = maps }))
        (Ends-for_each (confine_global pg names fuel) global_total m.globals s.maps)
        (λ maps.
          Ends-for_each (initialize_function pg names depth) initialize_function_total m.functions
            (record s { maps = maps }))

  mlta_total :
      (s : Graph) (ci called : ℕ)
      → Ends (find_callees_with_mlta pg names s.maps depth fuel s.sig_funcs ci called)
  unfolding find_callees_with_mlta
  mlta_total s ci called = elim (List-cases (s.sig_funcs (call_hash pg ci))) [
    | inl nil ↦ ((false, []), rw (nil, find_callees_with_mlta) refl)
    | inr (f, fs, e) ↦
        let (first, ls, from, lays, run) =
          find_callees_with_mlta_lem pg rank h.grounded names s.maps depth fuel s.sig_funcs ci
            called (h.deep called) (h.layers called) (λ nil. cc) in
        ((true, _), run)
  ]

  pass_node_total : (i : ℕ) (n : Node) (s : Graph) → Ends (pass_node pg names fuel depth i n s)
  unfolding pass_node callees_of
  pass_node_total i (Node.call called args) s =
      Ends-bind (callees_of pg names fuel depth s i called) _
        (Ends-if (pg.ir.is_indirect_call i)
          (Ends-bind (find_callees_with_mlta pg names s.maps depth fuel s.sig_funcs i called)
            (λ r. some r.1) (mlta_total s i called) (λ r. Ends-some r.1))
          (Ends-some _))
        (λ fs. Ends-some _)
  pass_node_total i _ s = Ends-some s

  pass_function_total : (f : ℕ) (s : Graph) → Ends (pass_function pg names fuel depth f s)
  unfolding pass_function pass_instruction
  pass_function_total f s =
      Ends-if (has f s.unified_func_set)
        (Ends-for_each (pass_instruction pg names fuel depth)
          (λ i t. pass_node_total i (pg.ir.node i) t) (instructions pg.ir f) s)
        (Ends-some s)

  -- With fuel for the depth of the values and for the size of the initializers, and for one turn of
  -- each loop over the modules, the run of the pass returns, from every state and over all modules.
  pub run_call_graph_total :
      (turns : ℕ) (ms : List Module) (s : Graph)
      → (t : Graph) × (run_call_graph pg names fuel depth (suc turns) ms s ≡ some t)
  unfolding pass_module
  run_call_graph_total turns ms s =
      let (t, run) =
        Ends-bind (for_each (initialize_module pg names fuel depth) ms s)
          (λ s₁. for_each (pass_module pg names fuel depth) ms s₁ >>= for_each (λ m u. some u) ms)
          (Ends-for_each (initialize_module pg names fuel depth) initialize_module_total ms s)
          (λ s₁.
            Ends-bind (for_each (pass_module pg names fuel depth) ms s₁)
              (for_each (λ m u. some u) ms)
              (Ends-for_each (pass_module pg names fuel depth)
                (λ m u.
                  Ends-for_each (pass_function pg names fuel depth) pass_function_total m.functions
                    u)
                ms s₁)
              (λ u. Ends-for_each (λ m v. some v) (λ m v. Ends-some v) ms u)) in
      (t, run_call_graph_loops pg names fuel depth turns ms s ∙ run)
