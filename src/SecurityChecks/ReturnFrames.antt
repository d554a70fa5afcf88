-- ===== src/SecurityChecks/ReturnFrames.antt =====
-- recurMarkEdgesFromBlock, recurMarkEdgesToBlock and the return half of markAllEdgesErrFlag leave
-- the handle flags.
use crix.Base.{
  ℕ, ◌≡◌, Bool, true, false, some, List, [], ◌∷◌, nat_eq, pair_eq, if◌then◌else◌, for_each_inv,
  >>=-eq-some, ◌>>=◌, ◌&&◌, not, subst, some_inj, is_some, find, inl, inr, Bool-cases, ◌==◌,
}
use crix.Ir.{Ir}
use crix.Worklist.{Turn, push}
use crix.SecurityChecks.Flags.{Flags, any, may_return_err}
use crix.SecurityChecks.Edges.{
  Edge, EdgeErrMap, BbErrMap, bb_flags, edge_of, recur_mark_edges_to_err_return,
}
use crix.SecurityChecks.Propagate.{
  Item, is_empty, integrate, from_body, recur_mark_edges_from_block, outgoing, to_body,
  recur_mark_edges_to_block, mark_returning,
}
use crix.SecurityChecks.Frames.{
  SameHandles, SameHandles-refl, SameHandles-trans, SameHandles-update, SameHandles-unless, Leaves,
  loop-SameHandles, to_err_return-SameHandles, integrate-SameHandles, spread-SameHandles,
  gather-SameHandles,
}

module _ (ir : Ir) where
  from_body-Leaves :
      (i : Item) (m : EdgeErrMap) (turn : Turn EdgeErrMap Item)
      → from_body ir i m ≡ some turn
      → Leaves m turn
  unfolding from_body
  from_body-Leaves (e, flag) m turn h = elim (Bool-cases (is_empty (ir.succs e.1))) [
    | inl last ↦ subst (Leaves m) (some_inj (rw last at h)) (SameHandles-refl m)
    | inr many ↦
        let i = integrate ir e (ir.preds e.1) flag m in
        subst (Leaves m) (some_inj (rw many at h)) (
          SameHandles-trans (integrate-SameHandles ir e (ir.preds e.1) flag m)
            (spread-SameHandles ir e.1 (ir.succs e.1) i.0 i.1))
  ]

  pub from_block-SameHandles :
      (fuel : ℕ) (ce : Edge) (flag : Flags) (bbs : BbErrMap) (m r : EdgeErrMap)
      → recur_mark_edges_from_block ir fuel ce flag bbs m ≡ some r
      → SameHandles m r
  unfolding recur_mark_edges_from_block
  from_block-SameHandles fuel ce flag bbs m r h =
      elim (Bool-cases (is_some (find ce.1 bbs) && any (bb_flags ce.1 bbs).returns)) [
        | inl reset ↦ subst (SameHandles m) (some_inj (rw reset at h)) (SameHandles-refl m)
        | inr on ↦
            loop-SameHandles (λ (i : Item). i.0) (from_body ir) from_body-Leaves fuel
              ((ce, flag) ∷ []) m r (rw on at h)
      ]

  SameHandles-if :
      (b : Bool) (m : EdgeErrMap) (x y : Bool × Bool × EdgeErrMap)
      → SameHandles m x.2
      → SameHandles m y.2
      → SameHandles m (if b then x else y).2
  SameHandles-if true m x y h k = h
  SameHandles-if false m x y h k = k

  outgoing-SameHandles :
      (e : Edge) (tb : ℕ) (ss : List ℕ) (must zero : Bool) (m : EdgeErrMap)
      → SameHandles m (outgoing ir e tb ss must zero m).2
  unfolding outgoing
  outgoing-SameHandles e tb [] must zero m = SameHandles-refl m
  outgoing-SameHandles e tb (s ∷ ss) must zero m =
      let here = SameHandles-unless (s == e.1) (edge_of ir tb s) m in
      SameHandles-if _ m _ _ here (SameHandles-trans here (outgoing-SameHandles e tb ss _ _ _))

  -- A turn that hands over to recurMarkEdgesToErrReturn.
  may-Leaves :
      (fuel tb : ℕ) (m m' : EdgeErrMap) (turn : Turn EdgeErrMap Item)
      → SameHandles m m'
      → (recur_mark_edges_to_err_return ir fuel tb may_return_err m' >>= λ x. some (push x []))
        ≡ some turn
      → Leaves m turn
  may-Leaves fuel tb m m' turn k h =
      let (x, e₁, e₂) =
        >>=-eq-some (recur_mark_edges_to_err_return ir fuel tb may_return_err m')
          (λ x. some (push x [])) h in
      subst (Leaves m) (some_inj e₂)
        (SameHandles-trans k (to_err_return-SameHandles ir fuel tb may_return_err m' x e₁))

  to_body-Leaves :
      (fuel : ℕ) (i : Item) (m : EdgeErrMap) (turn : Turn EdgeErrMap Item)
      → to_body ir fuel i m ≡ some turn
      → Leaves m turn
  unfolding to_body
  to_body-Leaves fuel (e, flag) m turn h =
      let tb = ir.parent e.0 in
      let o = outgoing ir e tb (ir.succs tb) true true m in
      let out = outgoing-SameHandles e tb (ir.succs tb) true true m in
      let same =
        λ (h : some (push m []) ≡ some turn). subst (Leaves m) (some_inj h) (SameHandles-refl m) in
      elim (Bool-cases (is_empty (ir.preds tb))) [
        | inl e₁ ↦ same (rw e₁ at h)
        | inr e₁ ↦ elim (Bool-cases (not (any flag.returns))) [
          | inl e₂ ↦ same (rw (e₁, e₂) at h)
          | inr e₂ ↦ elim (Bool-cases flag.returns.may) [
            | inl e₃ ↦ may-Leaves fuel tb m m turn (SameHandles-refl m) (rw (e₁, e₂, e₃) at h)
            | inr e₃ ↦ elim (Bool-cases o.0) [
              | inl e₄ ↦
                  subst (Leaves m) (some_inj (rw (e₁, e₂, e₃, e₄) at h))
                    (SameHandles-trans out (gather-SameHandles ir tb (ir.preds tb) o.2))
              | inr e₄ ↦ elim (Bool-cases (not o.1 && true)) [
                | inl e₅ ↦ may-Leaves fuel tb m o.2 turn out (rw (e₁, e₂, e₃, e₄, e₅) at h)
                | inr e₅ ↦ subst (Leaves m) (some_inj (rw (e₁, e₂, e₃, e₄, e₅) at h)) out
              ]
            ]
          ]
        ]
      ]

  pub to_block-SameHandles :
      (fuel : ℕ) (ce : Edge) (flag : Flags) (m r : EdgeErrMap)
      → recur_mark_edges_to_block ir fuel ce flag m ≡ some r
      → SameHandles m r
  unfolding recur_mark_edges_to_block
  to_block-SameHandles fuel ce flag m r h =
      loop-SameHandles (λ (i : Item). i.0) (to_body ir fuel) (to_body-Leaves fuel) fuel
        ((ce, flag) ∷ []) m r h

  pub mark_returning-SameHandles :
      (fuel bb : ℕ) (flag : Flags) (bbs : BbErrMap) (m r : EdgeErrMap)
      → mark_returning ir fuel bb flag bbs m ≡ some r
      → SameHandles m r
  unfolding mark_returning
  mark_returning-SameHandles fuel bb flag bbs m r h =
      let (m', e₁, e₂) = >>=-eq-some _ _ h in
      let first =
        for_each_inv (SameHandles m) _
          (λ p s t k e. SameHandles-trans k (
            SameHandles-trans (SameHandles-update (edge_of ir p bb) flag s)
              (to_block-SameHandles fuel (edge_of ir p bb) flag _ t e)))
          (ir.preds bb) m m' (SameHandles-refl m) e₁ in
      for_each_inv (SameHandles m) _
        (λ p s t k e. SameHandles-trans k (
          SameHandles-trans (SameHandles-update (edge_of ir bb p) flag s)
            (from_block-SameHandles fuel (edge_of ir bb p) flag bbs _ t e)))
        (ir.succs bb) m' r first e₂
