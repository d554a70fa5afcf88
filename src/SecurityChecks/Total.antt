-- ===== src/SecurityChecks/Total.antt =====
-- markAllEdgesErrFlag ends: its loops take each edge between the blocks at most once.
use crix.Base.{
  ℕ, ◌≤◌, ◌≡◌, refl, sym, ap, ◌∙◌, true, ◌⊎◌, inl, inr, Option, some, List, [], ◌∷◌, Memᴰ, arith,
  nat_eq, pair_eq, length, for_each, ◌>>=◌, subst, is_some, find, Bool-cases, All, All-intro,
  All-map, All-mem, ◌&&◌, not,
}
use crix.Ir.{Ir, IsCfg}
use crix.Worklist.{Turn, stop, push}
use crix.Worklist.Total.{loop_total}
use crix.SecurityChecks.Flags.{
  Flags, any, may_return_err, must_handle_err, update_handle_flag, update_return_flag, same_half,
}
use crix.SecurityChecks.Edges.{
  Edge, EdgeErrMap, BbErrMap, bb_flags, edge_of, recur_mark_edges_to_err_handle,
  recur_mark_edges_to_err_return,
}
use crix.SecurityChecks.Propagate.{
  Item, is_empty, integrate, spread, from_body, recur_mark_edges_from_block, outgoing, to_body,
  recur_mark_edges_to_block, mark_to_pred, mark_from_succ, mark_returning, mark_block,
  mark_all_edges_err_flag,
}
use crix.SecurityChecks.Marking.{mark_total}
use crix.SecurityChecks.Handled.{handled, handle-settles, follows}
use crix.SecurityChecks.EdgeCounts.{
  edges, enough_fuel, IsClosedBlocks, IsEdge, IsEdge-mem, AreEdges, spread_few, gather_few,
}

module _ (ir : Ir) (cfg : IsCfg ir) (univ : List ℕ) (closed : IsClosedBlocks ir univ) where
  abbrev Ends : Option EdgeErrMap → Type 0
  Ends m = (r : EdgeErrMap) × (m ≡ some r)

  abbrev Spare : ℕ → Type 0
  Spare fuel = enough_fuel ir univ ≤ fuel

  -- What `Worklist.Total` asks of a body over edges.
  abbrev TurnIsBounded : (Edge → ℕ) → Item → Option (Turn EdgeErrMap Item) → Type 0
  TurnIsBounded deg i m =
      ((s' : EdgeErrMap) × (m ≡ some (stop s')))
      ⊎ ((s' : EdgeErrMap) × (new : List Item) × (m ≡ some (push s' new))
          × AreEdges ir cfg univ closed new
          × (length new ≤ deg i.0))

  from_total :
      (fuel : ℕ) (ce : Edge) (flag : Flags) (bbs : BbErrMap) (m : EdgeErrMap)
      → Spare fuel
      → IsEdge ir cfg univ closed ce
      → Ends (recur_mark_edges_from_block ir fuel ce flag bbs m)
  unfolding recur_mark_edges_from_block from_body
  from_total fuel ce flag bbs m h e =
      elim (Bool-cases (is_some (find ce.1 bbs) && any (bb_flags ce.1 bbs).returns)) [
        | inl reset ↦ (m, rw reset)
        | inr on ↦
            let (r, ends) =
              loop_total (λ (i : Item). i.0) (from_body ir) (edges ir univ)
                (λ e. length (ir.succs e.1)) (λ (i : Item). IsEdge ir cfg univ closed i.0)
                (λ i s g. (IsEdge-mem ir cfg univ closed i.0 g, body i s g)) fuel []
                ((ce, flag) ∷ []) m (omega arith) (e, tt) in
            (r, rw on ends)
      ]
    where
      body :
          (i : Item) (s : EdgeErrMap)
          → IsEdge ir cfg univ closed i.0
          → TurnIsBounded (λ e. length (ir.succs e.1)) i (from_body ir i s)
      body (e, f) s (b, t, i, j, q) = elim (Bool-cases (is_empty (ir.succs e.1))) [
        | inl last ↦ inr (s, [], rw last, tt, omega arith)
        | inr many ↦
            let x = integrate ir e (ir.preds e.1) f s in
            let inside : Memᴰ e.1 univ =
              subst (λ (y : Edge). Memᴰ y.1 univ) (sym q)
                (All-mem (λ y. Memᴰ y univ) (ir.succs b) (closed.forth b i) j) in
            let (good, few) =
              spread_few ir cfg univ closed e.1 (ir.succs e.1) x.0 x.1 inside
                (All-intro (λ y. Memᴰ y (ir.succs e.1)) (ir.succs e.1) (λ y k. k)) in
            inr (
              (spread ir e.1 (ir.succs e.1) x.0 x.1).0,
              (spread ir e.1 (ir.succs e.1) x.0 x.1).1,
              rw many,
              good,
              few,
            )
      ]

  may-settles :
      (f : Flags)
      → same_half (update_return_flag f may_return_err).returns may_return_err.returns ≡ true
  unfolding update_return_flag
  may-settles f = refl

  may_total :
      (fuel tb : ℕ) (m : EdgeErrMap)
      → Spare fuel
      → Memᴰ tb univ
      → Ends (recur_mark_edges_to_err_return ir fuel tb may_return_err m)
  unfolding recur_mark_edges_to_err_return
  may_total fuel tb m h i =
      mark_total ir (λ f. same_half f.returns may_return_err.returns)
        (λ f. update_return_flag f may_return_err) (λ _. true) may-settles cfg tb univ fuel m
        closed.back i (omega arith)

  abbrev to_deg : Edge → ℕ
  to_deg e = length (ir.preds (ir.parent e.0))

  hand_over_bounded :
      (fuel tb : ℕ) (i : Item) (m : EdgeErrMap)
      → Spare fuel
      → Memᴰ tb univ
      → TurnIsBounded to_deg i
          (recur_mark_edges_to_err_return ir fuel tb may_return_err m >>= λ m'. some (push m' []))
  hand_over_bounded fuel tb i m h inside =
      let (r, ends) = may_total fuel tb m h inside in inr (r, [], rw ends, tt, omega arith)

  to_body_bounded :
      (fuel : ℕ) (i : Item) (m : EdgeErrMap)
      → Spare fuel
      → IsEdge ir cfg univ closed i.0
      → TurnIsBounded to_deg i (to_body ir fuel i m)
  unfolding to_body
  to_body_bounded fuel (e, flag) m h (b, t, i, j, q) =
      let tb = ir.parent e.0 in
      let inside : Memᴰ tb univ =
        subst (λ y. Memᴰ y univ)
          (sym (ap (λ (x : Edge). ir.parent x.0) q ∙ cfg.parent-terminator b)) i in
      let o = outgoing ir e tb (ir.succs tb) true true m in
      let (good, few) =
        gather_few ir cfg univ closed tb (ir.preds tb) o.2 inside
          (All-intro (λ y. Memᴰ y (ir.preds tb)) (ir.preds tb) (λ y k. k)) in
      elim (Bool-cases (is_empty (ir.preds tb))) [
        | inl e₁ ↦ inr (m, [], rw e₁, tt, omega arith)
        | inr e₁ ↦ elim (Bool-cases (not (any flag.returns))) [
          | inl e₂ ↦ inr (m, [], rw (e₁, e₂), tt, omega arith)
          | inr e₂ ↦ elim (Bool-cases flag.returns.may) [
            | inl e₃ ↦ rw (e₁, e₂, e₃) (hand_over_bounded fuel tb (e, flag) m h inside)
            | inr e₃ ↦ elim (Bool-cases o.0) [
              | inl e₄ ↦ rw (e₁, e₂, e₃, e₄) (inr (_, _, refl, good, few))
              | inr e₄ ↦ elim (Bool-cases (not o.1 && true)) [
                | inl e₅ ↦
                    rw (e₁, e₂, e₃, e₄, e₅) (hand_over_bounded fuel tb (e, flag) o.2 h inside)
                | inr e₅ ↦ rw (e₁, e₂, e₃, e₄, e₅) (inr (o.2, [], refl, tt, omega arith))
              ]
            ]
          ]
        ]
      ]

  to_total :
      (fuel : ℕ) (ce : Edge) (flag : Flags) (m : EdgeErrMap)
      → Spare fuel
      → IsEdge ir cfg univ closed ce
      → Ends (recur_mark_edges_to_block ir fuel ce flag m)
  unfolding recur_mark_edges_to_block
  to_total fuel ce flag m h e =
      loop_total (λ (i : Item). i.0) (to_body ir fuel) (edges ir univ) to_deg
        (λ (i : Item). IsEdge ir cfg univ closed i.0)
        (λ i s g. (IsEdge-mem ir cfg univ closed i.0 g, to_body_bounded fuel i s h g)) fuel []
        ((ce, flag) ∷ []) m (omega arith) (e, tt)

  for_each_total {ℓ} :
      {A : Type ℓ} (body : A → EdgeErrMap → Option EdgeErrMap) (xs : List A) (m : EdgeErrMap)
      → All (λ x. (s : EdgeErrMap) → Ends (body x s)) xs
      → Ends (for_each body xs m)
  for_each_total body [] m a = (m, refl)
  for_each_total body (x ∷ xs) m a =
      let (s, e) = a.0 m in let (r, ends) = for_each_total body xs s a.1 in (r, rw e ends)

  mark_returning_total :
      (fuel bb : ℕ) (flag : Flags) (bbs : BbErrMap) (m : EdgeErrMap)
      → Spare fuel
      → Memᴰ bb univ
      → Ends (mark_returning ir fuel bb flag bbs m)
  unfolding mark_returning
  mark_returning_total fuel bb flag bbs m h i =
      let (m', e₁) = for_each_total (mark_to_pred ir fuel bb flag) (ir.preds bb) m (
        All-intro _ (ir.preds bb) (λ p j s. to_total fuel (edge_of ir p bb) flag _ h (
          p,
          bb,
          All-mem (λ x. Memᴰ x univ) (ir.preds bb) (closed.back bb i) j,
          (cfg.preds_iff p bb).0 j,
          refl,
        ))) in
      let (r, e₂) = for_each_total (mark_from_succ ir fuel bb flag bbs) (ir.succs bb) m' (
        All-intro _ (ir.succs bb)
          (λ p j s. from_total fuel (edge_of ir bb p) flag bbs _ h (bb, p, i, j, refl))) in
      (r, rw e₁ e₂)

  handle_total :
      (fuel bb : ℕ) (m : EdgeErrMap)
      → Spare fuel
      → Memᴰ bb univ
      → Ends (recur_mark_edges_to_err_handle ir fuel bb m)
  unfolding recur_mark_edges_to_err_handle
  handle_total fuel bb m h i =
      mark_total ir handled (λ f. update_handle_flag f must_handle_err) (follows ir) handle-settles
        cfg bb univ fuel m closed.back i (omega arith)

  mark_block_total :
      (fuel : ℕ) (bbs : BbErrMap) (bb : ℕ) (m : EdgeErrMap)
      → Spare fuel
      → Memᴰ bb univ
      → Ends (mark_block ir fuel bbs bb m)
  unfolding mark_block
  mark_block_total fuel bbs bb m h i =
      let f = bb_flags bb bbs in
      let (m₁, e₁) = handle_total fuel bb m h i in
      let (m₂, e₂) = mark_returning_total fuel bb f bbs m₁ h i in
      let (m₃, e₃) = mark_returning_total fuel bb f bbs m h i in
      elim (Bool-cases (is_some (find bb bbs))) [
        | inr absent ↦ (m, rw absent)
        | inl present ↦ elim (Bool-cases f.handles.must) [
          | inl handles ↦ elim (Bool-cases (any f.returns)) [
            | inl returns ↦ (m₂, rw (present, handles, e₁) (rw returns e₂))
            | inr quiet ↦ (m₁, rw (present, handles, e₁) (rw quiet))
          ]
          | inr idle ↦ elim (Bool-cases (any f.returns)) [
            | inl returns ↦ (m₃, rw (present, idle) (rw returns e₃))
            | inr quiet ↦ (m, rw (present, idle) (rw quiet))
          ]
        ]
      ]

  -- On blocks that are closed under predecessors and successors, with one unit of fuel for the start
  -- of a loop and one for every edge in each of the three loops, the marking of a function whose
  -- blocks are among them ends, from any flags of its blocks and any map.
  pub mark_edges_total :
      (fuel function : ℕ) (bbs : BbErrMap) (m : EdgeErrMap)
      → enough_fuel ir univ ≤ fuel
      → All (λ b. Memᴰ b univ) (ir.blocks function)
      → (r : EdgeErrMap) × (mark_all_edges_err_flag ir fuel function bbs m ≡ some r)
  unfolding mark_all_edges_err_flag
  mark_edges_total fuel function [] m h inside = (m, refl)
  mark_edges_total fuel function (x ∷ bbs) m h inside =
      for_each_total (mark_block ir fuel (x ∷ bbs)) (ir.blocks function) m
        (All-map (λ b i s. mark_block_total fuel (x ∷ bbs) b s h i) (ir.blocks function) inside)
