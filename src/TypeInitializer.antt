-- ===== src/TypeInitializer.antt =====
-- TypeInitializer.cc: names for struct types that have none, from the names of the global variables
-- of the type and of the values that point to a named struct.
pub mod Build
pub mod Laws
use Prim.Native.String.{String}
use text.Mathlib.Text.{◌==◌ as str_eq}
use text.Mathlib.TextEquality.{eq_iff}
use crix.Base.{
  ℕ, zero, suc, Bool, true, false, not, ◌&&◌, Option, none, some, ◌>>=◌, for_each, List, [], ◌∷◌,
  if◌then◌else◌, ◌==◌, find, insert_new, Eq, nat_eq,
}
use crix.Ir.Kinds.{instructions, null}
use crix.CallGraph.{Program, Shape}
use crix.CallGraph.Graph.{Module}

instance abbrev pub string_eq : Eq String
string_eq = record { beq = str_eq; beq_iff = eq_iff }

-- TypeValueMap and VnameToTypenameMap.
pub record TypeNames : Type 0 where
  pub type_value_map : List (ℕ × String)
  pub vname_to_typename_map : List (String × String)

abbrev pub has_no_name : String → Bool
has_no_name n = str_eq n ""

module _ (pg : Program) where
  -- A global variable whose type has the shape: a struct without a name gets that of the variable.
  unfoldable pub name_global_of : ℕ → Shape → TypeNames → TypeNames
  unfolding insert_new
  name_global_of gv (Shape.structure n) s =
      if not (has_no_name (pg.ir.name gv)) && has_no_name n
      then record s {
        type_value_map = insert_new (pg.value_type gv) (pg.ir.name gv) s.type_value_map;
      }
      else s
  name_global_of gv _ s = s

  unfoldable pub name_global : ℕ → TypeNames → TypeNames
  unfolding name_global_of
  name_global gv s = name_global_of gv (pg.shape (pg.value_type gv)) s

  unfoldable pub name_globals : List ℕ → TypeNames → TypeNames
  unfolding name_global
  name_globals [] s = s
  name_globals (gv ∷ gvs) s = name_globals gvs (name_global gv s)

  -- while (VT && VT->isPointerTy())
  unfoldable pub strip_pointers : ℕ → ℕ → Option ℕ
  strip_pointers zero t = none
  strip_pointers (suc fuel) t = elim (pg.shape t) [
    | Shape.pointer e ↦ if t == null then some t else strip_pointers fuel e
    | _ ↦ some t
  ]

  -- A value whose type, but for pointers, has the shape.
  unfoldable pub name_struct : ℕ → Shape → TypeNames → TypeNames
  unfolding insert_new
  name_struct v (Shape.structure n) s =
      if has_no_name n
      then s
      else record s { vname_to_typename_map = insert_new (pg.ir.name v) n s.vname_to_typename_map }
  name_struct v _ s = s

  module _ (fuel : ℕ) where
    unfoldable pub name_operand : ℕ → TypeNames → Option TypeNames
    unfolding strip_pointers name_struct
    name_operand v s =
        if v == null
        then some s
        else if has_no_name (pg.ir.name v)
        then some s
        else (strip_pointers fuel (pg.type_of v) >>= λ t.
            some (if t == null then s else name_struct v (pg.shape t) s))

    unfoldable pub name_instruction : ℕ → TypeNames → Option TypeNames
    unfolding name_operand
    name_instruction i s = for_each name_operand (pg.ir.operands i) s

    unfoldable pub name_function : ℕ → TypeNames → Option TypeNames
    unfolding name_instruction
    name_function f s =
        if pg.is_intrinsic f then some s else for_each name_instruction (instructions pg.ir f) s

    -- The loops of doInitialization, which returns false.
    unfoldable pub initialize_types : Module → TypeNames → Option TypeNames
    unfolding name_globals name_function
    initialize_types m s = for_each name_function m.functions (name_globals m.globals s)

-- BuildTypeStructMap: what it leaves in GlobalTypes.
unfoldable pub build_type_struct_map :
    List (ℕ × String) → List (String × String) → List (ℕ × String) → List (ℕ × String)
unfolding find insert_new
build_type_struct_map [] vnames global_types = global_types
build_type_struct_map ((t, v) ∷ p) vnames global_types =
    build_type_struct_map p vnames
      (elim (find v vnames) [ some n ↦ insert_new t n global_types | none ↦ global_types ])

-- TypeToTNameMap, a copy of GlobalTypes, as typeHash reads it.
unfoldable pub type_to_tname : List (ℕ × String) → ℕ → Option String
unfolding find
type_to_tname global_types t = find t global_types
