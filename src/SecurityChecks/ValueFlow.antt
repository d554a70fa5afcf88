-- ===== src/SecurityChecks/ValueFlow.antt =====
-- checkErrValueFlow and checkErrReturn of SecurityChecks.cc: the returned values of a function are
-- traced back, and the blocks where they are set are marked.
use text.Mathlib.Text.{◌==◌ as str_eq}
use Prim.Native.String.{String}
use crix.Base.{
  ℕ, Bool, true, false, ◌||◌, Option, none, some, List, [], ◌∷◌, ◌++◌, if◌then◌else◌, nat_eq, ◌==◌,
  has, insert, ◌>>=◌, ltb, length, from_option, for_each, ℤ, pos, negsuc,
}
use crix.Ir.{Ir, Node}
use crix.Ir.Kinds.{null, is_constant, is_instruction, get_called_func_name, at_index, instructions}
use crix.Context.{Context}
use crix.Worklist.{Turn, push, loop}
use crix.SecurityChecks.Flags.{must_return_err, may_return_err}
use crix.SecurityChecks.Edges.{Edge, BbErrMap, mark_bb_err}
use crix.SecurityChecks.Errno.{is_value_errno}
use crix.SecurityChecks.MayReturn.{may_return_err as may_return_err_of}
use crix.SecurityChecks.SameVariables.{find_same_variables_from}

-- EdgeValue: a value with the edge over which it flows. The search never reads the edge.
abbrev pub EdgeValue : Type 0
EdgeValue = Edge × ℕ

-- PV, bbErrMap and the static ErrSelectInstSet.
pub record Flow : Type 0 where
  pub pv : List ℕ
  pub bbs : BbErrMap
  pub err_selects : List ℕ

abbrev pub mark : ℕ → Bool → Flow → Flow
mark bb must w = record w {
  bbs = mark_bb_err bb (if must then must_return_err else may_return_err) w.bbs;
}

-- CopyFuncs.find(name)
abbrev pub find_copy : String → List (String × (ℤ × ℤ × ℤ)) → Option (ℤ × ℤ × ℤ)
find_copy s [] = none
find_copy s ((k, t) ∷ m) = if str_eq s k then some t else find_copy s m

abbrev pub is_minus_one : ℤ → Bool
is_minus_one (pos n) = false
is_minus_one (negsuc n) = n == 0

module _ (ir : Ir) (ctx : Context) (fuel : ℕ) where
  -- An operand through which the value flows: a constant marks the block of the instruction, any
  -- other value waits.
  unfoldable pub flow_operand : ℕ → ℕ → ℕ → ℕ → Flow → Option (Flow × List EdgeValue)
  flow_operand f bb v_bb operand w =
      let errno = is_value_errno ir fuel operand f in
      if is_constant ir operand
      then (errno >>= λ e. some (mark bb e w, []))
      else some (w, (((ir.terminator bb, v_bb), operand) ∷ []))

  -- The stores to the pointer of a load.
  unfoldable pub flow_load : ℕ → ℕ → ℕ → ℕ → List ℕ → Flow → Option (Flow × List EdgeValue)
  unfolding flow_operand
  flow_load f li lpo bb [] w = some (w, [])
  flow_load f li lpo bb (u ∷ us) w =
      let rest = flow_load f li lpo bb us in
      if li == u then rest w else elim (ir.node u) [
        | Node.store sv sp ↦
            if lpo == sp
            then (flow_operand f (ir.parent u) bb sv w >>= λ r.
                rest r.0 >>= λ q. some (q.0, r.1 ++ q.1))
            else rest w
        | _ ↦ rest w
      ]

  -- The incoming values of a phi, each with its block.
  unfoldable pub flow_phi : ℕ → ℕ → List (ℕ × ℕ) → Flow → Option (Flow × List EdgeValue)
  unfolding flow_operand
  flow_phi f bb [] w = some (w, [])
  flow_phi f bb ((iv, in_bb) ∷ ins) w =
      flow_operand f in_bb bb iv w >>= λ r. flow_phi f bb ins r.0 >>= λ q. some (q.0, r.1 ++ q.1)

  -- One side of a select: whether it is a constant error code, and what waits.
  unfoldable pub select_side : ℕ → ℕ → ℕ → Option (Bool × List EdgeValue)
  select_side f bb sv =
      let errno = is_value_errno ir fuel sv f in
      if is_constant ir sv
      then (errno >>= λ e. some (e, []))
      else some (false, (((ir.terminator bb, bb), sv) ∷ []))

  unfoldable pub flow_select : ℕ → ℕ → ℕ → ℕ → ℕ → Flow → Option (Flow × List EdgeValue)
  unfolding select_side
  flow_select f si bb tv fv w = do
    t ← select_side f bb tv
    e ← select_side f bb fv
    some (
      (if t.0
          then (if e.0
              then mark bb true w
              else record (mark bb false w) { err_selects = insert si w.err_selects })
          else if e.0
          then record (mark bb false w) { err_selects = insert si w.err_selects }
          else w),
      t.1 ++ e.1,
    )

  -- inferErrBranch
  unfoldable pub infer_err_branch : ℕ → ℕ
  infer_err_branch cond = 0

  -- The condition of a terminator that is a branch or a switch; null for any other.
  unfoldable pub branch_condition : ℕ → ℕ
  branch_condition ti = elim (ir.node ti) [
    | Node.br c ↦ from_option null c
    | Node.switch c ↦ c
    | _ ↦ null
  ]

  abbrev any_in : List ℕ → List ℕ → Bool
  any_in [] s = false
  any_in (o ∷ os) s = has o s || any_in os s

  -- A call that may return an error, whose result is the condition of its block's branch, marks the
  -- successor that inferErrBranch names.
  unfoldable pub flow_checked_call : ℕ → Flow → Option Flow
  unfolding branch_condition infer_err_branch
  flow_checked_call ci w =
      let call_bb = ir.parent ci in
      let cond = branch_condition (ir.terminator call_bb) in
      let err_succ = at_index (ir.succs call_bb) (pos (infer_err_branch cond)) in
      let w' = mark call_bb false w in
      let checked = find_same_variables_from ir fuel ci [] >>= λ vset.
      some (if any_in (ir.operands cond) vset then mark err_succ true w' else w') in
      if ltb 1 (length (ir.succs call_bb))
      then (if is_instruction ir cond then checked else some w')
      else some w'

  -- A call that is neither PTR_ERR nor ERR_PTR, nor returns a copy of an argument.
  unfoldable pub flow_plain_call : ℕ → Flow → Option (Flow × List EdgeValue)
  unfolding flow_checked_call
  flow_plain_call ci w = elim (ctx.callees ci) [
    | [] ↦ some (w, [])
    | cf ∷ cfs ↦ may_return_err_of ir ctx fuel cf >>= λ may.
        let marked = flow_checked_call ci w >>= λ w'. some (w', []) in
        if may then marked else some (mark (ir.parent ci) false w, [])
  ]

  unfoldable pub flow_call : ℕ → ℕ → List ℕ → Flow → Option (Flow × List EdgeValue)
  unfolding flow_plain_call
  flow_call f ci args w =
      let bb = ir.parent ci in
      let name = get_called_func_name ir ci in
      let plain = flow_plain_call ci w in
      let copied = λ (src : ℤ).
        let arg = at_index args src in
        is_value_errno ir fuel arg f >>= λ e.
        some (if e then (mark bb true w, []) else (w, (((ir.terminator bb, bb), arg) ∷ []))) in
      elim (ir.called_function ci) [
        | none ↦ some (w, [])
        | some cf ↦
            if str_eq name "PTR_ERR" || str_eq name "ERR_PTR"
            then some (mark bb true w, [])
            else elim (find_copy name ctx.copy_funcs) [
              | some t ↦ if is_minus_one t.1 then copied t.0 else plain
              | none ↦ plain
            ]
      ]

  -- The body of the loop, for a value that was not processed before.
  unfoldable pub flow_value : ℕ → ℕ → Flow → Option (Flow × List EdgeValue)
  unfolding flow_load flow_phi flow_select flow_call flow_operand
  flow_value f v w =
      let bb = ir.parent v in
      elim (ir.node v) [
        | Node.load lpo ↦ flow_load f v lpo bb (ir.users lpo) w
        | Node.phi ins ↦ flow_phi f bb ins w
        | Node.select c tv fv ↦ flow_select f v bb tv fv w
        | Node.gep po ↦ flow_operand f bb bb po w
        | Node.call callee args ↦ flow_call f v args w
        | Node.alloca o ↦ flow_operand f bb bb o w
        | Node.cast o ↦ flow_operand f bb bb o w
        | Node.extract_value o ↦ flow_operand f bb bb o w
        | Node.unary o ↦ flow_operand f bb bb o w
        | Node.binary a b ↦ some (mark bb false w, [])
        | _ ↦ some (w, [])
      ]

  unfoldable pub flow_body : ℕ → EdgeValue → Flow → Option (Turn Flow EdgeValue)
  unfolding flow_value
  flow_body f (e, v) w =
      let w' = record w { pv = v ∷ w.pv } in
      if v == null then some (push w []) else (flow_value f v w' >>= λ r. some (push r.0 r.1))

  -- checkErrValueFlow
  unfoldable pub check_err_value_flow : ℕ → ℕ → Flow → Option Flow
  check_err_value_flow f ri w = elim (ir.node ri) [
    | Node.ret (some rv) ↦
        loop (λ (x : EdgeValue). x.1) (flow_body f) fuel w.pv (((null, ir.parent ri), rv) ∷ []) w
    | _ ↦ some w
  ]

  -- checkErrReturn
  unfoldable pub check_err_return : ℕ → Flow → Option Flow
  unfolding check_err_value_flow
  check_err_return f w =
      for_each (check_err_value_flow f) (instructions ir f) (record w { pv = [] })
