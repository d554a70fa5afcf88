-- ===== src/SecurityChecks/ErrHandle.antt =====
-- checkErrHandle of SecurityChecks.cc: the blocks that call an error-handling function. The name of a
-- call of a `…printk` function is read from the kernel's source file, which is a parameter.
use Prim.Native.String.{String}
use Prim.Native.Char.{code}
use text.Mathlib.Text.{◌==◌ as str_eq}
use crix.Base.{ℕ, Bool, false, ◌||◌, List, [], ◌∷◌, if◌then◌else◌, ◌==◌}
use crix.Ir.{Ir, Node}
use crix.Ir.Kinds.{get_called_func_name, has_name}
use crix.Context.{Context}
use crix.SecurityChecks.Flags.{must_handle_err}
use crix.SecurityChecks.Edges.{BbErrMap, mark_bb_err}

-- FuncName.substr(0, FuncName.find(' ')): the name itself if it has no space.
abbrev pub before_space : String → String
before_space String.[] = String.[]
before_space (String.◌∷◌ c s) = if code c == 32 then String.[] else String.◌∷◌ c (before_space s)

-- FuncName.endswith(suffix)
abbrev pub ends_with : String → String → Bool
ends_with suffix String.[] = str_eq String.[] suffix
ends_with suffix (String.◌∷◌ c s) = str_eq (String.◌∷◌ c s) suffix || ends_with suffix s

module _ (ir : Ir) (ctx : Context) (get_source_func_name : ℕ → String) where
  -- The name under which a call is looked up.
  unfoldable pub handler_name : ℕ → String
  handler_name ci =
      let func_name = before_space (get_called_func_name ir ci) in
      if ends_with "printk" func_name then get_source_func_name ci else func_name

  -- A call of a function that handles errors.
  unfoldable pub is_handler_call : ℕ → Bool
  is_handler_call i = elim (ir.node i) [
    | Node.call callee args ↦ has_name (handler_name i) ctx.error_handle_funcs
    | _ ↦ false
  ]

  unfoldable pub handle_instructions : ℕ → List ℕ → BbErrMap → BbErrMap
  handle_instructions bb [] m = m
  handle_instructions bb (i ∷ is) m =
      handle_instructions bb is (if is_handler_call i then mark_bb_err bb must_handle_err m else m)

  unfoldable pub handle_blocks : List ℕ → BbErrMap → BbErrMap
  unfolding handle_instructions
  handle_blocks [] m = m
  handle_blocks (bb ∷ bbs) m = handle_blocks bbs (handle_instructions bb (ir.body bb) m)

  -- checkErrHandle
  unfoldable pub check_err_handle : ℕ → BbErrMap → BbErrMap
  unfolding handle_blocks
  check_err_handle function m = handle_blocks (ir.blocks function) m
