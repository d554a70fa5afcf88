-- ===== src/Tests/Graphs.antt =====
-- A program with a table of functions, and the theorems on its call graph:
--   struct ops { void (*run)(void); };  const struct ops table = { foo };
--   void main(void) { table.run(); bar(); }
use Prim.Native.Char.{code}
use Prim.Native.String.{String}
use crix.Base.{
  ℕ, ◌+◌, ◌*◌, ◌<◌, ◌≡◌, ◌≢◌, ◌↔◌, sym, foldl, refl, true, false, Option, none, some, List, [], ◌∷◌,
  All, arith, has, nat_eq, pos, ◌==◌, ◌^◌, ltb, if◌then◌else◌, Bool-cases, inl, inr, ==_iff, subst,
  some_inj, Grows,
}
use crix.Ir.{Ir, Node}
use crix.Ir.Kinds.{instructions, null}
use crix.CallGraph.Hashes.{call_hash, type_idx_hash}
use crix.CallGraph.LayerBounds.{find_callees_with_mlta_bounds, find_callees_with_mlta_keeps}
use crix.CallGraph.Runs.{run_call_graph_lem, run_call_graph_indirect, run_call_graph_unified}
use crix.Tests.Sample.{f_ir, lookup}
use crix.CallGraph.{Program, Shape, Gep}
use crix.CallGraph.Layers.{TypeMaps, Layer, unary_operand, find_callees_with_mlta}
use crix.CallGraph.LayerTotal.{IsGrounded, find_callees_with_mlta_lem}
use crix.CallGraph.Graph.{Module, Graph, empty_graph, is_declaration}
use crix.CallGraph.PassRun.{IsPassed}
use crix.CallGraph.InitLaws.{name_hash, sig_hash}
use crix.CallGraph.Narrowing.{narrow, all_evidence}
use crix.CallGraph.LayerRuns.{FromLayer, Layers}
use crix.CallGraph.Pass.{run_call_graph}
use crix.CallGraph.Transits.{find_callees_with_mlta_transit}
use crix.CallGraph.Totals.{HasFuel, run_call_graph_total}

-- The functions 1 (foo), 2 (bar) and 3 (main), with the bodies 101, 102 and 100; the table 5 and its
-- initializer 4; the types 10 (struct ops), 11 (a pointer to it) and 12 (other).
abbrev g_nodes : List (ℕ × Node)
g_nodes =
    (1, Node.function)
    ∷ (2, Node.function)
    ∷ (3, Node.function)
    ∷ (5, Node.global_variable)
    ∷ (21, Node.load 20)
    ∷ (22, Node.call 21 [])
    ∷ (23, Node.call 2 [])
    ∷ (24, Node.ret none)
    ∷ []

abbrev pub g_ir : Ir
g_ir = record f_ir {
  node = lookup Node.other_value g_nodes;
  operands = lookup [] ((4, 1 ∷ []) ∷ []);
  name = lookup "" ((1, "foo") ∷ (2, "bar") ∷ (3, "main") ∷ []);
  body = lookup [] ((100, 20 ∷ 21 ∷ 22 ∷ 23 ∷ []) ∷ (101, 24 ∷ []) ∷ (102, 24 ∷ []) ∷ []);
  blocks = lookup [] ((1, 101 ∷ []) ∷ (2, 102 ∷ []) ∷ (3, 100 ∷ []) ∷ []);
  address_taken = lookup false ((1, true) ∷ (2, true) ∷ []);
  is_indirect_call = lookup false ((22, true) ∷ []);
  called_function = lookup none ((23, some 2) ∷ []);
}

abbrev poly_hash : String → ℕ
poly_hash String.[] = 7
poly_hash (String.◌∷◌ c s) = code c + 31 * poly_hash s

abbrev table_field : Gep
table_field = record { pointer_operand = 5; constant_indices = true; last_index = pos 0 }

abbrev pub g_program : Program
g_program = record {
  ir = g_ir;
  type_of = lookup 12 ((4, 10) ∷ (5, 11) ∷ []);
  shape = lookup Shape.other_type ((10, Shape.structure "ops") ∷ (11, Shape.pointer 10) ∷ []);
  num_elements = λ t. 1;
  is_opaque = λ t. false;
  struct_bits = λ t. 64;
  scalar_bits = λ t. 0;
  function_type = λ f. "void ()";
  call_type = λ c. "void ()";
  str_hash = poly_hash;
  gep = lookup none ((20, some table_field) ∷ []);
  initializer = lookup none ((5, some 4) ∷ []);
  is_aggregate = λ v. true;
  value_type = λ v. 12;
  is_intrinsic = λ f. false;
  has_external_linkage = λ f. true;
  is_var_arg = λ f. false;
  int8_ptr_ty = 13;
  int_ptr_ty = 14;
}

abbrev no_names : ℕ → Option String
no_names t = none

abbrev g_modules : List Module
g_modules = record { globals = 5 ∷ []; functions = 1 ∷ 2 ∷ 3 ∷ [] } ∷ []

abbrev graph_callees : Option Graph → ℕ → List ℕ
graph_callees none c = []
graph_callees (some t) c = t.callees c

-- Both foo and bar have the signature, and the table tells them apart.
indirect_targets :
    graph_callees (run_call_graph g_program no_names 10 10 2 g_modules empty_graph) 22 ≡ 1 ∷ []
unfolding run_call_graph instructions call_hash type_idx_hash
indirect_targets = refl

direct_targets :
    graph_callees (run_call_graph g_program no_names 10 10 2 g_modules empty_graph) 23 ≡ 2 ∷ []
unfolding run_call_graph instructions call_hash
direct_targets = refl

g_runs : (t : Graph) × (run_call_graph g_program no_names 10 10 2 g_modules empty_graph ≡ some t)
unfolding run_call_graph instructions call_hash type_idx_hash
g_runs = (_, refl)

run_call_graph_lem_example :
    ((ci f : ℕ) → (has ci (g_runs.0.callers f) ≡ true) ↔ (has f (g_runs.0.callees ci) ≡ true))
    × All
        (λ m. All (λ f. IsPassed g_program no_names 10 10 g_runs.0 f g_runs.0) m.functions)
        g_modules
run_call_graph_lem_example =
    run_call_graph_lem g_program no_names 10 10 1 g_modules g_runs.0 refl g_runs.1

calls_foo : has 1 (g_runs.0.callees 22) ≡ true
unfolding g_runs
calls_foo = refl

run_call_graph_indirect_example :
    (g_program.ir.address_taken 1 ≡ true)
    × (is_declaration g_program 1 ≡ false)
    × (sig_hash g_program 1 ≡ call_hash g_program 22)
run_call_graph_indirect_example =
    run_call_graph_indirect g_program no_names 10 10 1 g_modules g_runs.0 22 1 refl g_runs.1 refl
      calls_foo

run_call_graph_unified_example :
    All
      (λ m.
        All
          (λ f.
            is_declaration g_program f ≡ false
            → (g : ℕ) × (g ≢ null)
              × (has g g_runs.0.unified_func_set ≡ true)
              × (name_hash g_program g ≡ name_hash g_program f))
          m.functions)
      g_modules
    × ((f g : ℕ)
        → has f g_runs.0.unified_func_set ≡ true
        → has g g_runs.0.unified_func_set ≡ true
        → name_hash g_program f ≡ name_hash g_program g
        → f ≡ g)
run_call_graph_unified_example =
    run_call_graph_unified g_program no_names 10 10 1 g_modules g_runs.0 refl g_runs.1

-- A map that has foo at every type, and a first layer of foo and bar.
abbrev g_maps : TypeMaps
g_maps = record {
  type_funcs = λ k. 1 ∷ [];
  type_confine = λ k. [];
  type_transit = λ k. [];
  type_escape = [];
}

abbrev g_sig : ℕ → List ℕ
g_sig h = 1 ∷ 2 ∷ []

-- What holds of each entry of a table, and of the default.
lookup_entry {ℓ κ} :
    {A : Type ℓ} (P : ℕ → A → Type κ) (d : A)
    → ((n : ℕ) → P n d)
    → (m : List (ℕ × A)) → All (λ e. P e.0 e.1) m
    → (n : ℕ) → P n (lookup d m n)
lookup_entry P d p [] h n = p n
lookup_entry P d p ((k, a) ∷ m) h n = elim (Bool-cases (n == k)) [
  | inl same ↦ rw same (subst (λ x. P x a) (sym ((==_iff n k).0 same)) h.0)
  | inr other ↦ rw other (lookup_entry P d p m h.1 n)
]

abbrev g_rank : ℕ → ℕ
g_rank = lookup 0 ((20, 1) ∷ (21, 2) ∷ [])

abbrev g_size : ℕ → ℕ
g_size = lookup 1 ((4, 2) ∷ [])

g_program-IsGrounded : IsGrounded g_program g_rank
g_program-IsGrounded = record {
  gep_falls =
      lookup_entry (λ v o. (g : Gep) → o ≡ some g → g_rank g.pointer_operand < g_rank v) none
        (λ v g e. cc) ((20, some table_field) ∷ [])
        ((λ g e. subst (λ x. g_rank x.pointer_operand < 1) (some_inj e) (omega arith)), tt);
  unary_falls =
      lookup_entry (λ v n. (o : ℕ) → unary_operand n ≡ some o → g_rank o < g_rank v)
        Node.other_value (λ v o e. cc) g_nodes
        (
          (λ o e. cc),
          (
            (λ o e. cc),
            (
              (λ o e. cc),
              (
                (λ o e. cc),
                (
                  (λ o e. subst (λ x. g_rank x < 2) (some_inj e) (omega arith)),
                  ((λ o e. cc), ((λ o e. cc), ((λ o e. cc), tt))),
                ),
              ),
            ),
          ),
        );
}

g_program-HasFuel : HasFuel g_program g_rank g_size 10 10
g_program-HasFuel = record {
  grounded = g_program-IsGrounded;
  deep = λ v. ground arith;
  layers = λ v. ground arith;
  sized = λ u. ground arith;
  initializers = λ gv ini e. ground arith;
}

run_call_graph_total_example :
    (t : Graph) × (run_call_graph g_program no_names 10 10 2 g_modules empty_graph ≡ some t)
run_call_graph_total_example =
    run_call_graph_total g_program no_names g_rank g_size 10 10 g_program-HasFuel 1 g_modules
      empty_graph

find_callees_with_mlta_lem_example :
    (first : Option Layer) × (ls : List Layer) × FromLayer g_program 21 first
    × Layers g_program no_names g_maps first ls
    × (find_callees_with_mlta g_program no_names g_maps 5 5 g_sig 22 21
        ≡ some (true, foldl narrow (1 ∷ 2 ∷ []) (all_evidence g_program no_names g_maps ls)))
find_callees_with_mlta_lem_example =
    find_callees_with_mlta_lem g_program g_rank g_program-IsGrounded no_names g_maps 5 5 g_sig 22 21
      (omega arith) (omega arith) (λ nil. cc)

narrowed : find_callees_with_mlta g_program no_names g_maps 5 5 g_sig 22 21 ≡ some (true, 1 ∷ [])
unfolding find_callees_with_mlta call_hash type_idx_hash
narrowed = refl

find_callees_with_mlta_bounds_example :
    Grows {K = ℕ} (1 ∷ []) (g_sig (call_hash g_program 22))
    × ((◌≡◌ {A = List ℕ} (1 ∷ []) []) ↔ (g_sig (call_hash g_program 22) ≡ []))
    × ((true ≡ false) ↔ (g_sig (call_hash g_program 22) ≡ []))
find_callees_with_mlta_bounds_example =
    find_callees_with_mlta_bounds g_program no_names g_maps 5 5 g_sig 22 21 true (1 ∷ []) narrowed

foo_allowed :
    (ls : List Layer) → All (λ e. has 1 e ≡ true) (all_evidence g_program no_names g_maps ls)
foo_allowed [] = tt
foo_allowed (l ∷ ls) = (refl, foo_allowed ls)

find_callees_with_mlta_keeps_example :
    (fs : List ℕ) × (find_callees_with_mlta g_program no_names g_maps 5 5 g_sig 22 21
      ≡ some (true, fs))
    × (has 1 fs ≡ true)
find_callees_with_mlta_keeps_example =
    find_callees_with_mlta_keeps g_program no_names g_maps g_rank g_program-IsGrounded 5 5 g_sig 22
      21 1 (omega arith) (omega arith) refl (λ first ls from lays. foo_allowed ls)

-- A transit under a hash of 33 bits.
abbrev high_transit : ℕ → List ℕ
high_transit k = if ltb k (2 ^ 32) then [] else 9 ∷ []

find_callees_with_mlta_transit_example :
    find_callees_with_mlta g_program no_names
      (record g_maps { type_transit = high_transit })
      5
      5
      g_sig
      22
      21
    ≡ find_callees_with_mlta g_program no_names g_maps 5 5 g_sig 22 21
find_callees_with_mlta_transit_example =
    find_callees_with_mlta_transit g_program no_names g_maps high_transit (λ k h. ground arith) 5 5
      g_sig 22 21
