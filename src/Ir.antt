-- ===== src/Ir.antt =====
-- What the passes ask LLVM about a program. LLVM is no part of the repository, so the accessors are
-- fields of a record that every definition takes; a value, instruction, block or function is the
-- number that stands for its address, and `null` for the null pointer.
pub mod Kinds
pub mod Calls
use Prim.Native.String.{String}
use crix.Base.{ℕ, ◌≡◌, ◌↔◌, Bool, Option, List, Memᴰ, ℤ}

-- CmpInst::Predicate; `other` is any floating-point one.
pub data Predicate : Type 0 where
  eq ne sgt sge slt sle ugt uge ult ule other : Predicate

-- What the `dyn_cast`s of the source tell apart, with the operands that it asks for. The constants
-- are `global_variable` up to `other_constant`. The unary instructions are `alloca`, `load`, `cast`,
-- `extract_value` and `unary` (any other).
pub data Node : Type 0 where
  argument : ℕ → Node
  global_variable function constant_null other_constant inline_asm : Node
  constant_int : ℤ → Node
  constant_expr : ℕ → List ℕ → Node
  alloca : ℕ → Node
  load : ℕ → Node
  store : ℕ → ℕ → Node
  gep : ℕ → Node
  phi : List (ℕ × ℕ) → Node
  select : ℕ → ℕ → ℕ → Node
  icmp fcmp : Predicate → ℕ → ℕ → Node
  call : ℕ → List ℕ → Node
  ret : Option ℕ → Node
  br : Option ℕ → Node
  switch : ℕ → Node
  cast extract_value unary : ℕ → Node
  binary : ℕ → ℕ → Node
  other_instruction other_value : Node

pub record Ir : Type 0 where
  -- dyn_cast; the operands stand in the order of the constructor's name: `store value pointer`,
  -- `select condition true_value false_value`, `phi (value, incoming block)`, `call callee args`,
  -- `argument function`, `constant_expr first_operand other_operands`.
  pub node : ℕ → Node
  -- Value::users, User::operands, Value::getName, getType()->isPointerTy()
  pub users : ℕ → List ℕ
  pub operands : ℕ → List ℕ
  pub name : ℕ → String
  pub is_pointer : ℕ → Bool
  -- Instruction::getParent, BasicBlock::getParent, getTerminator, the instructions of a block
  pub parent : ℕ → ℕ
  pub block_parent : ℕ → ℕ
  pub terminator : ℕ → ℕ
  pub body : ℕ → List ℕ
  -- successors, predecessors
  pub succs : ℕ → List ℕ
  pub preds : ℕ → List ℕ
  -- a Function: its blocks from the entry on (none in a declaration), its arguments,
  -- hasAddressTaken, getReturnType()->isPointerTy()
  pub blocks : ℕ → List ℕ
  pub args : ℕ → List ℕ
  pub address_taken : ℕ → Bool
  pub returns_pointer : ℕ → Bool
  -- CallSite::isIndirectCall, getIntrinsicID() != 0, CallInst::getCalledFunction,
  -- InlineAsm::getAsmString
  pub is_indirect_call : ℕ → Bool
  pub is_intrinsic_call : ℕ → Bool
  pub called_function : ℕ → Option ℕ
  pub asm_string : ℕ → String

-- What LLVM documents of a control-flow graph: `predecessors` and `successors` are converse, and the
-- parent of a block's terminator is the block.
pub record IsCfg (ir : Ir) : Type 0 where
  pub preds_iff : (p b : ℕ) → Memᴰ p (ir.preds b) ↔ Memᴰ b (ir.succs p)
  pub parent-terminator : (b : ℕ) → ir.parent (ir.terminator b) ≡ b
