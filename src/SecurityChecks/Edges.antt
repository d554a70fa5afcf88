-- ===== src/SecurityChecks/Edges.antt =====
-- The maps of flags, and the two loops of SecurityChecks.cc that mark edges backwards:
-- recurMarkEdgesToErrReturn and recurMarkEdgesToErrHandle. An edge is a terminator and a successor.
use crix.Base.{
  ℕ, Bool, true, false, Option, some, List, [], ◌∷◌, ltb, length, if◌then◌else◌, nat_eq, pair_eq,
  read, adjust, touch, find, is_some,
}
use crix.Ir.{Ir}
use crix.Worklist.{Turn, push, loop}
use crix.SecurityChecks.Flags.{
  Flags, no_flag, must_handle_err, flags_or, same_half, update_return_flag, update_handle_flag,
}

abbrev pub Edge : Type 0
Edge = ℕ × ℕ

abbrev pub EdgeErrMap : Type 0
EdgeErrMap = List (Edge × Flags)

abbrev pub BbErrMap : Type 0
BbErrMap = List (ℕ × Flags)

-- `edgeErrMap[e]` as a value, and what reading it leaves.
abbrev pub edge_flags : Edge → EdgeErrMap → Flags
edge_flags = read no_flag

abbrev pub bb_flags : ℕ → BbErrMap → Flags
bb_flags = read no_flag

-- markBBErr: `bbErrMap[BB] |= flag`, or the flag itself for a new block.
unfoldable pub mark_bb_err : ℕ → Flags → BbErrMap → BbErrMap
mark_bb_err bb flag m =
    if is_some (find bb m)
    then adjust no_flag bb (λ old. flags_or old flag) m
    else adjust no_flag bb (λ _. flag) m

module _ (ir : Ir) where
  abbrev pub edge_of : ℕ → ℕ → Edge
  edge_of pred bb = (ir.terminator pred, bb)

  -- One pass over the predecessors of a block, the body that both loops share: an edge that is
  -- settled is passed over, any other is updated, and its source is pushed if it is followed.
  unfoldable pub mark_preds :
      (Flags → Bool) → (Flags → Flags) → (ℕ → Bool) → ℕ → List ℕ → EdgeErrMap → EdgeErrMap × List ℕ
  mark_preds settled update follow bb [] m = (m, [])
  mark_preds settled update follow bb (pred ∷ preds) m =
      let e = edge_of pred bb in
      let skip = settled (edge_flags e m) in
      let rest =
        mark_preds settled update follow bb preds
          (if skip then touch no_flag e m else adjust no_flag e update m) in
      (rest.0, if skip then rest.1 else if follow pred then pred ∷ rest.1 else rest.1)

  unfoldable pub mark_body :
      (Flags → Bool) → (Flags → Flags) → (ℕ → Bool) → ℕ → EdgeErrMap → Option (Turn EdgeErrMap ℕ)
  mark_body settled update follow bb m =
      let r = mark_preds settled update follow bb (ir.preds bb) m in some (push r.0 r.1)

  -- recurMarkEdgesToErrReturn
  unfoldable pub recur_mark_edges_to_err_return : ℕ → ℕ → Flags → EdgeErrMap → Option EdgeErrMap
  recur_mark_edges_to_err_return fuel bb flag =
      loop (λ b. b)
        (mark_body (λ f. same_half f.returns flag.returns) (λ f. update_return_flag f flag)
          (λ _. true))
        fuel [] (bb ∷ [])

  -- recurMarkEdgesToErrHandle: the source of an edge is followed unless it branches.
  unfoldable pub recur_mark_edges_to_err_handle : ℕ → ℕ → EdgeErrMap → Option EdgeErrMap
  recur_mark_edges_to_err_handle fuel bb =
      loop (λ b. b)
        (mark_body (λ f. f.handles.must) (λ f. update_handle_flag f must_handle_err)
          (λ pred. if ltb 1 (length (ir.succs pred)) then false else true))
        fuel [] (bb ∷ [])
