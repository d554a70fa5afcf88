-- ===== src/SecurityChecks/MayReturn.antt =====
-- mayReturnErr of SecurityChecks.cc: a breadth-first search over the call graph for a function that
-- stores an error code or calls something whose result may be an error.
use text.Mathlib.Text.{◌==◌ as str_eq}
use crix.Base.{ℕ, Bool, ◌||◌, Option, none, some, List, [], ◌∷◌, ◌++◌, if◌then◌else◌, nat_eq, ◌>>=◌}
use crix.Ir.{Ir, Node}
use crix.Ir.Kinds.{get_called_func_name, instructions}
use crix.Context.{Context}
use crix.Worklist.Search.{Sight, found, follow, search}
use crix.SecurityChecks.Errno.{is_value_errno}

-- What a scan shows of the instructions from one on, whose own result is the first argument.
unfoldable pub then_scan : Option Sight → Option Sight → Option Sight
then_scan none rest = none
then_scan (some found) rest = some found
then_scan (some (follow fs)) none = none
then_scan (some (follow fs)) (some found) = some found
then_scan (some (follow fs)) (some (follow gs)) = some (follow (fs ++ gs))

-- The instructions in order: true at the first that says so, else all functions to look into.
unfoldable pub scan : (ℕ → Option Sight) → List ℕ → Option Sight
unfolding then_scan
scan look [] = some (follow [])
scan look (i ∷ is) = then_scan (look i) (scan look is)

module _ (ir : Ir) (ctx : Context) where
  -- The first of the callees, if there is one.
  abbrev pub first_callee : ℕ → List ℕ
  first_callee ci = elim (ctx.callees ci) [ [] ↦ [] | f ∷ fs ↦ f ∷ [] ]

  unfoldable pub inspect_call : ℕ → Sight
  inspect_call ci = if ir.is_pointer ci then found else elim (ir.called_function ci) [
    | none ↦ follow []
    | some cf ↦
        if str_eq (get_called_func_name ir ci) "ERR_PTR"
          || str_eq (get_called_func_name ir ci) "PTR_ERR"
        then found
        else follow (first_callee ci)
  ]

  -- The body of the innermost loop, for an instruction of the function `tf`.
  unfoldable pub inspect_node : ℕ → ℕ → ℕ → Node → Option Sight
  unfolding inspect_call
  inspect_node fuel tf i (Node.store sv p) =
      is_value_errno ir fuel sv tf >>= λ e. some (if e then found else follow [])
  inspect_node fuel tf i (Node.call callee args) = some (inspect_call i)
  inspect_node fuel tf i (Node.ret (some rv)) =
      some (elim (ir.node rv) [ Node.call callee args ↦ follow (first_callee rv) | _ ↦ follow [] ])
  inspect_node fuel tf i _ = some (follow [])

  unfoldable pub inspect : ℕ → ℕ → ℕ → Option Sight
  unfolding inspect_node
  inspect fuel tf i = inspect_node fuel tf i (ir.node i)

  -- What the body of a function shows; a declaration has no instruction, so `TF->empty()` needs no
  -- test.
  unfoldable pub look_into : ℕ → ℕ → Option Sight
  unfolding inspect scan
  look_into fuel tf = scan (inspect fuel tf) (instructions ir tf)

  -- mayReturnErr
  unfoldable pub may_return_err : ℕ → ℕ → Option Bool
  may_return_err fuel f = search (look_into fuel) fuel f
