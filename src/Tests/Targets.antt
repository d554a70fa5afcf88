-- ===== src/Tests/Targets.antt =====
-- A call that passes a pointer to a struct of another module, to functions that take one or i8*.
use crix.Base.{ℕ, ◌≡◌, ◌↔◌, ◌⊎◌, refl, true, some, [], ◌∷◌, Memᴰ, has, nat_eq}
use crix.CallGraph.{Program, Shape}
use crix.CallGraph.Graph.{Graph, empty_graph}
use crix.CallGraph.Matching.{find_callees_with_type}
use crix.CallGraph.MatchingLaws.{IsLayout}
use crix.CallGraph.MatchedCallees.{IsTarget, find_callees_with_type_iff}
use crix.Tests.Sample.{lookup}
use crix.Tests.Graphs.{g_program, g_ir}

-- The argument 31 of the function 1 points to the struct 10, the argument 32 of the function 2 to i8,
-- and what the call passes to the struct 16 of the same name.
abbrev m_program : Program
m_program = record g_program {
  ir = record g_ir { args = lookup [] ((1, 31 ∷ []) ∷ (2, 32 ∷ []) ∷ []) };
  type_of = lookup 12 ((31, 11) ∷ (32, 13) ∷ (41, 15) ∷ []);
  shape = lookup Shape.other_type (
      (10, Shape.structure "ops")
      ∷ (11, Shape.pointer 10)
      ∷ (13, Shape.pointer 17)
      ∷ (14, Shape.integer 64)
      ∷ (15, Shape.pointer 16)
      ∷ (16, Shape.structure "ops")
      ∷ (17, Shape.integer 8)
      ∷ []);
}

m_layout : IsLayout m_program
m_layout = record { pointee = 17; width = 64; int8_pointer = refl; int_ptr = refl }

abbrev m_graph : Graph
m_graph = record empty_graph { address_taken_funcs = 1 ∷ 2 ∷ [] }

finds_one : find_callees_with_type m_program 5 m_graph 21 (41 ∷ []) [] ≡ some (some (1 ∷ []))
unfolding find_callees_with_type
finds_one = refl

find_callees_with_type_iff_example : (has {K = ℕ} 1 (1 ∷ []) ≡ true) ↔ (
    (has {K = ℕ} 1 [] ≡ true)
    ⊎ (Memᴰ 1 m_graph.address_taken_funcs × IsTarget m_program 5 m_layout (41 ∷ []) 1))
find_callees_with_type_iff_example =
    find_callees_with_type_iff m_program 5 m_layout m_graph 21 1 (41 ∷ []) [] (1 ∷ [])
      (λ e. absurd (cc)) finds_one
