-- ===== src/Tests/Types.antt =====
-- A global variable of a struct type without a name, and the name that it gets.
use Prim.Native.String.{String}
use crix.Base.{◌≡◌, ◌↔◌, refl, some, List, [], ◌∷◌, find, nat_eq, for_each}
use crix.Ir.Kinds.{instructions}
use crix.Tests.Sample.{f_ir, lookup}
use crix.Tests.Graphs.{g_program}
use crix.CallGraph.{Program, Shape}
use crix.CallGraph.Graph.{Module}
use crix.TypeInitializer.{string_eq, TypeNames, initialize_types, build_type_struct_map}
use crix.TypeInitializer.Laws.{IsGlobalOf, IsValueOf, build_type_struct_map_lem}

-- The variable 30 of type 20, and the operand 31, a pointer to the struct 22, both called "ops".
abbrev t_program : Program
t_program = record g_program {
  ir = record f_ir {
    name = lookup "" ((30, "ops") ∷ (31, "ops") ∷ []);
    blocks = lookup [] ((1, 10 ∷ []) ∷ []);
    body = lookup [] ((10, 40 ∷ []) ∷ []);
    operands = lookup [] ((40, 31 ∷ 0 ∷ []) ∷ []);
  };
  value_type = lookup 12 ((30, 20) ∷ []);
  type_of = lookup 12 ((31, 21) ∷ []);
  shape = lookup Shape.other_type (
      (20, Shape.structure "")
      ∷ (21, Shape.pointer 22)
      ∷ (22, Shape.structure "file_operations")
      ∷ []);
}

abbrev t_modules : List Module
t_modules = record { globals = 30 ∷ []; functions = 1 ∷ [] } ∷ []

abbrev t_names : TypeNames
t_names = record {
  type_value_map = (20, "ops") ∷ [];
  vname_to_typename_map = ("ops", "file_operations") ∷ [];
}

t_collected :
    for_each
      (initialize_types t_program 5)
      t_modules
      (record { type_value_map = []; vname_to_typename_map = [] })
    ≡ some t_names
unfolding initialize_types instructions
t_collected = refl

build_type_struct_map_example :
    ((find 20 (build_type_struct_map t_names.type_value_map t_names.vname_to_typename_map [])
        ≡ some "file_operations")
      ↔ ((v : String) × (find 20 t_names.type_value_map ≡ some v)
          × (find v t_names.vname_to_typename_map ≡ some "file_operations")))
    × (find 20 (build_type_struct_map t_names.type_value_map t_names.vname_to_typename_map [])
          ≡ some "file_operations"
        → (v : String) × IsGlobalOf t_program 5 20 v × IsValueOf t_program 5 v "file_operations")
build_type_struct_map_example =
    build_type_struct_map_lem t_program 5 t_modules t_names 20 "file_operations" t_collected
