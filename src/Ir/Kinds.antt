-- ===== src/Ir/Kinds.antt =====
-- The helpers of Common.cc that classify values, and LLVM's class hierarchy where the source relies
-- on it: which nodes are instructions and which are constants.
use Prim.Native.String.{String}
use text.Mathlib.Text.{◌==◌ as str_eq}
use crix.Base.{
  ℕ, Bool, true, false, none, some, List, [], ◌∷◌, get_elem?, head?, from_option, ℤ, pos, negsuc,
  if◌then◌else◌, ◌==◌, ◌||◌, flat_map,
}
use crix.Ir.{Ir, Node}

-- The null pointer.
abbrev pub null : ℕ
null = 0

-- isConstant on a value that is not null: dyn_cast<Constant>.
abbrev pub is_constant_node : Node → Bool
is_constant_node Node.global_variable = true
is_constant_node Node.function = true
is_constant_node Node.constant_null = true
is_constant_node Node.other_constant = true
is_constant_node (Node.constant_int c) = true
is_constant_node (Node.constant_expr o os) = true
is_constant_node _ = false

-- dyn_cast<Instruction>
abbrev pub is_instruction_node : Node → Bool
is_instruction_node (Node.argument f) = false
is_instruction_node Node.global_variable = false
is_instruction_node Node.function = false
is_instruction_node Node.constant_null = false
is_instruction_node Node.other_constant = false
is_instruction_node Node.inline_asm = false
is_instruction_node (Node.constant_int c) = false
is_instruction_node (Node.constant_expr o os) = false
is_instruction_node Node.other_value = false
is_instruction_node _ = true

-- The element that an `int8_t` index names; null out of range, where LLVM asserts.
abbrev pub at_index : List ℕ → ℤ → ℕ
at_index xs (pos n) = from_option null (get_elem? xs n)
at_index xs (negsuc n) = null

module _ (ir : Ir) where
  -- isConstant
  unfoldable pub is_constant : ℕ → Bool
  is_constant v = if v == null then false else is_constant_node (ir.node v)

  abbrev pub is_instruction : ℕ → Bool
  is_instruction v = if v == null then false else is_instruction_node (ir.node v)

  -- inst_begin(F) to inst_end(F)
  unfoldable pub instructions : ℕ → List ℕ
  unfolding flat_map
  instructions f = flat_map ir.body (ir.blocks f)

  -- getCalledFuncName of a called value: the text of inline assembly, else the name of the first
  -- operand of a user that has one, else the name.
  unfoldable pub called_value_name : ℕ → String
  called_value_name v = elim (ir.node v) [
    | Node.inline_asm ↦ ir.asm_string v
    | _ ↦ elim (head? (ir.operands v)) [ some o ↦ ir.name o | none ↦ ir.name v ]
  ]

  -- getCalledFuncName of a call.
  unfoldable pub get_called_func_name : ℕ → String
  unfolding called_value_name
  get_called_func_name i = elim (ir.node i) [
    | Node.call callee args ↦ called_value_name callee
    | _ ↦ ir.name null
  ]

  -- getArgByNo: null where there is no such argument. A negative number is converted to a large
  -- unsigned one by the comparison with the number of arguments.
  unfoldable pub get_arg_by_no : ℕ → ℤ → ℕ
  get_arg_by_no f (pos n) = from_option null (get_elem? (ir.args f) n)
  get_arg_by_no f (negsuc n) = null

-- Texts: membership in a set of names.
abbrev pub has_name : String → List String → Bool
has_name s [] = false
has_name s (x ∷ xs) = str_eq s x || has_name s xs
