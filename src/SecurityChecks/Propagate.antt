-- ===== src/SecurityChecks/Propagate.antt =====
-- recurMarkEdgesFromBlock, recurMarkEdgesToBlock, markEdgesToErrReturn and markAllEdgesErrFlag of
-- SecurityChecks.cc.
use crix.Base.{
  ℕ, Bool, true, false, not, Option, some, List, [], ◌∷◌, if◌then◌else◌, nat_eq, pair_eq, ◌==◌,
  adjust, touch, find, is_some, ◌&&◌, ◌>>=◌, for_each, foldl,
}
use crix.Ir.{Ir}
use crix.Worklist.{Turn, push, loop}
use crix.SecurityChecks.Flags.{
  Flags, any, no_flag, must_return_err, may_return_err, same_half, update_return_flag, merge_flag,
}
use crix.SecurityChecks.Edges.{
  Edge, EdgeErrMap, BbErrMap, edge_flags, bb_flags, edge_of, recur_mark_edges_to_err_return,
  recur_mark_edges_to_err_handle,
}

-- An edge that waits, with the flag that travels along it.
abbrev pub Item : Type 0
Item = Edge × Flags

abbrev pub is_empty {ℓ} : {A : Type ℓ} → List A → Bool
is_empty [] = true
is_empty (x ∷ xs) = false

module _ (ir : Ir) where
  -- The flags of the other incoming edges, merged into the flag of the edge that is processed.
  unfoldable pub integrate : Edge → List ℕ → Flags → EdgeErrMap → Flags × EdgeErrMap
  integrate e [] int_flag m = (int_flag, m)
  integrate e (pred ∷ preds) int_flag m =
      let same = pred == ir.parent e.0 in
      let edge = edge_of ir pred e.1 in
      integrate e preds (if same then int_flag else merge_flag int_flag (edge_flags edge m))
        (if same then m else touch no_flag edge m)

  -- The outgoing edges whose return flag differs take the merged flag, and wait.
  unfoldable pub spread : ℕ → List ℕ → Flags → EdgeErrMap → EdgeErrMap × List Item
  spread tb [] int_flag m = (m, [])
  spread tb (succ ∷ succs) int_flag m =
      let ce = edge_of ir tb succ in
      let same = same_half int_flag.returns (edge_flags ce m).returns in
      let rest = spread tb succs int_flag (
        if same
        then touch no_flag ce m
        else adjust no_flag ce (λ f. update_return_flag f int_flag) m) in
      (rest.0, if same then rest.1 else (ce, int_flag) ∷ rest.1)

  unfoldable pub from_body : Item → EdgeErrMap → Option (Turn EdgeErrMap Item)
  from_body (e, flag) m =
      let i = integrate e (ir.preds e.1) flag m in
      let r = spread e.1 (ir.succs e.1) i.0 i.1 in
      some (if is_empty (ir.succs e.1) then push m [] else push r.0 r.1)

  -- recurMarkEdgesFromBlock
  unfoldable pub recur_mark_edges_from_block :
      ℕ → Edge → Flags → BbErrMap → EdgeErrMap → Option EdgeErrMap
  recur_mark_edges_from_block fuel ce flag bbs m =
      let reset = is_some (find ce.1 bbs) && any (bb_flags ce.1 bbs).returns in
      if reset then some m else loop (λ (i : Item). i.0) from_body fuel [] ((ce, flag) ∷ []) m

  -- AllMust and AllZero over the other outgoing edges, with the `break` once both are false.
  unfoldable pub outgoing : Edge → ℕ → List ℕ → Bool → Bool → EdgeErrMap → Bool × Bool × EdgeErrMap
  outgoing e tb [] all_must all_zero m = (all_must, all_zero, m)
  outgoing e tb (succ ∷ succs) all_must all_zero m =
      let same = succ == e.1 in
      let edge = edge_of ir tb succ in
      let f = (edge_flags edge m).returns in
      let must' =
        if same
        then all_must
        else if not f.must
        then false
        else if f.may
        then false
        else all_must in
      let zero' = if same then all_zero else if not f.must then all_zero else false in
      let m' = if same then m else touch no_flag edge m in
      let more = outgoing e tb succs must' zero' m' in
      if not same && not zero' && not must' then (must', zero', m') else more

  -- The incoming edges without Must_Return_Err take it, and wait.
  unfoldable pub gather : ℕ → List ℕ → EdgeErrMap → EdgeErrMap × List Item
  gather tb [] m = (m, [])
  gather tb (pred ∷ preds) m =
      let ce = edge_of ir pred tb in
      let has_must = (edge_flags ce m).returns.must in
      let rest = gather tb preds (
        if has_must
        then touch no_flag ce m
        else adjust no_flag ce (λ f. update_return_flag f must_return_err) m) in
      (rest.0, if has_must then rest.1 else (ce, must_return_err) ∷ rest.1)

  unfoldable pub to_body : ℕ → Item → EdgeErrMap → Option (Turn EdgeErrMap Item)
  to_body fuel (e, flag) m =
      let tb = ir.parent e.0 in
      let may_all =
        recur_mark_edges_to_err_return ir fuel tb may_return_err m >>= λ m'. some (push m' []) in
      let o = outgoing e tb (ir.succs tb) true true m in
      let g = gather tb (ir.preds tb) o.2 in
      let may_rest =
        recur_mark_edges_to_err_return ir fuel tb may_return_err o.2 >>= λ m'. some (push m' []) in
      if is_empty (ir.preds tb)
      then some (push m [])
      else if not (any flag.returns)
      then some (push m [])
      else if flag.returns.may
      then may_all
      else if o.0
      then some (push g.0 g.1)
      else if not o.1 && not o.0
      then may_rest
      else some (push o.2 [])

  -- recurMarkEdgesToBlock
  unfoldable pub recur_mark_edges_to_block : ℕ → Edge → Flags → EdgeErrMap → Option EdgeErrMap
  recur_mark_edges_to_block fuel ce flag =
      loop (λ (i : Item). i.0) (to_body fuel) fuel [] ((ce, flag) ∷ [])

  -- markEdgesToErrReturn
  unfoldable pub mark_edges_to_err_return : ℕ → Flags → EdgeErrMap → EdgeErrMap
  mark_edges_to_err_return bb flag m =
      foldl
        (λ m pred.
          let ce = edge_of ir pred bb in
          if same_half (edge_flags ce m).returns flag.returns
          then touch no_flag ce m
          else adjust no_flag ce (λ f. update_return_flag f flag) m)
        m (ir.preds bb)

  -- The bodies of the loops over the predecessors and the successors of an error-returning block.
  abbrev pub mark_to_pred : ℕ → ℕ → Flags → ℕ → EdgeErrMap → Option EdgeErrMap
  mark_to_pred fuel bb new_flag pred m =
      let ce = edge_of ir pred bb in
      recur_mark_edges_to_block fuel ce new_flag
        (adjust no_flag ce (λ f. update_return_flag f new_flag) m)

  abbrev pub mark_from_succ : ℕ → ℕ → Flags → BbErrMap → ℕ → EdgeErrMap → Option EdgeErrMap
  mark_from_succ fuel bb new_flag bbs succ m =
      let ce = edge_of ir bb succ in
      recur_mark_edges_from_block fuel ce new_flag bbs
        (adjust no_flag ce (λ f. update_return_flag f new_flag) m)

  -- First all edges to the block, then all edges from it.
  unfoldable pub mark_returning : ℕ → ℕ → Flags → BbErrMap → EdgeErrMap → Option EdgeErrMap
  mark_returning fuel bb new_flag bbs m = do
    m' ← for_each (mark_to_pred fuel bb new_flag) (ir.preds bb) m
    for_each (mark_from_succ fuel bb new_flag bbs) (ir.succs bb) m'

  unfoldable pub mark_block : ℕ → BbErrMap → ℕ → EdgeErrMap → Option EdgeErrMap
  unfolding mark_returning
  mark_block fuel bbs bb m =
      let new_flag = bb_flags bb bbs in
      let handled =
        if new_flag.handles.must then recur_mark_edges_to_err_handle ir fuel bb m else some m in
      let returned = handled >>= λ m'.
      if any new_flag.returns then mark_returning fuel bb new_flag bbs m' else some m' in
      if is_some (find bb bbs) then returned else some m

  -- markAllEdgesErrFlag
  unfoldable pub mark_all_edges_err_flag : ℕ → ℕ → BbErrMap → EdgeErrMap → Option EdgeErrMap
  mark_all_edges_err_flag fuel function bbs m =
      if is_empty bbs then some m else for_each (mark_block fuel bbs) (ir.blocks function) m
