-- ===== src/CallGraph.antt =====
-- What CallGraph.cc, TypeInitializer.cc and the hashes of Common.cc ask LLVM and the library beside
-- Ir: types, initializers and linkage. A type is the number of its address.
pub mod Hashes
pub mod Layers
pub mod Narrowing
pub mod LayerRuns
pub mod LayerTotal
pub mod Confine
pub mod Graph
pub mod InitLaws
pub mod InitRun
pub mod Pass
pub mod Matching
pub mod MatchingLaws
pub mod MatchedCallees
pub mod PassLaws
pub mod PassRun
pub mod Runs
pub mod Totals
pub mod Transits
pub mod LayerBounds
use Prim.Native.String.{String}
use crix.Base.{ℕ, Bool, true, false, Option, ℤ}
use crix.Ir.{Ir}

-- What isPointerTy, isStructTy, isIntegerTy, isArrayTy and isVectorTy tell apart: an integer with its
-- width, a pointer with the type that it points to, a struct with its name, empty if it has none.
pub data Shape : Type 0 where
  integer : ℕ → Shape
  pointer : ℕ → Shape
  structure : String → Shape
  array vector other_type : Shape

-- GEPOperator: getPointerOperand, hasAllConstantIndices, the last index.
pub record Gep : Type 0 where
  pub pointer_operand : ℕ
  pub constant_indices : Bool
  pub last_index : ℤ

pub record Program : Type 0 where
  pub ir : Ir
  -- Value::getType, and what a type is
  pub type_of : ℕ → ℕ
  pub shape : ℕ → Shape
  -- StructType::getNumElements, isOpaque, StructLayout::getSizeInBits; getScalarSizeInBits
  pub num_elements : ℕ → ℕ
  pub is_opaque : ℕ → Bool
  pub struct_bits : ℕ → ℕ
  pub scalar_bits : ℕ → ℕ
  -- Type::print of the type of a function, and of the type that a call expects
  pub function_type : ℕ → String
  pub call_type : ℕ → String
  -- std::hash<string>
  pub str_hash : String → ℕ
  -- dyn_cast<GEPOperator>
  pub gep : ℕ → Option Gep
  -- GlobalVariable::getInitializer, isa<ConstantAggregate>
  pub initializer : ℕ → Option ℕ
  pub is_aggregate : ℕ → Bool
  -- GlobalValue::getValueType, Function::isIntrinsic
  pub value_type : ℕ → ℕ
  pub is_intrinsic : ℕ → Bool
  -- hasExternalLinkage
  pub has_external_linkage : ℕ → Bool
  -- FunctionType::isVarArg, Int8PtrTy, IntPtrTy
  pub is_var_arg : ℕ → Bool
  pub int8_ptr_ty : ℕ
  pub int_ptr_ty : ℕ

-- isCompositeType
abbrev pub is_composite_shape : Shape → Bool
is_composite_shape (Shape.structure n) = true
is_composite_shape Shape.array = true
is_composite_shape Shape.vector = true
is_composite_shape _ = false

module _ (pg : Program) where
  abbrev pub is_composite_type : ℕ → Bool
  is_composite_type t = is_composite_shape (pg.shape t)

  -- PointerType::getElementType; null where the type is no pointer, which LLVM does not allow.
  abbrev pub element_type : ℕ → ℕ
  element_type t = elim (pg.shape t) [ Shape.pointer e ↦ e | _ ↦ 0 ]
