-- ===== src/DataFlow/UsesPlan.antt =====
-- The calls and additions of findUses are its steps and its uses.
use mathlib.Core.List.Memᴰ
use crix.Base.{
  ℕ, ◌≡◌, ◌≢◌, refl, sym, true, inl, inr, ◌↔◌, List, [], ◌∷◌, Memᴰ, arith, has, nat_eq, subst,
  Bool-cases, flat_map, if◌then◌else◌, ◌==◌, ◌||◌, not, >>=-eq-some, some_inj, ℤ, negsuc,
}
use crix.Ir.{Ir, Node}
use crix.Ir.Kinds.{is_instruction, is_constant_node}
use crix.Ir.Calls.{arg_no}
use crix.Context.{Context}
use crix.DataFlow.Reach.{collect_succ_reach_blocks}
use crix.DataFlow.ReachLaws.{Route, collect_succ_reach_blocks_iff}
use crix.Walk.{Act, visit, note, visits, notes}
use crix.Walk.Steps.{Describes}
use crix.Walk.Members.{Memᴰ-visits, Memᴰ-notes, Memᴰ-none, Memᴰ-one}
use crix.DataFlow.Uses.{add_use, uses_go_on, stored_value, use_node, use_user, use_acts}
use crix.DataFlow.UsesSteps.{IsBehind, IsLoaded, FlowsThrough, UsesAs, IsUser, StepsOn, IsUse}
use crix.DataFlow.UsesAccess.{
  noted, stored_value_iff, stored_value-quiet, Fits, not_used, noted-Fits,
}

module _ (ir : Ir) (ctx : Context) (border : ℕ) (reach : List ℕ)
    (path : (b : ℕ) → (has b reach ≡ true) ↔ Route ir.succs (ir.parent border) b) where
  -- Where the target is the pointer, a use; else what else the body does.
  pointer-Fits :
      (target p u : ℕ) (To : ℕ → Type 0) (other : List (Act ℕ (ℕ × ℤ)))
      → ((w : ℕ) → Memᴰ w (visits other) ↔ To w)
      → notes other ≡ []
      → Fits ir ctx border reach path u
          (λ w. (target ≢ p) × To w)
          (λ x. (target ≡ p) × (x ≡ negsuc 0))
          (if target == p
            then (if has (ir.parent u) reach then note (u, negsuc 0) ∷ [] else [])
            else other)
  pointer-Fits target p u To other to quiet = elim (Bool-cases (target == p)) [
    | inl same ↦
        let q : target ≡ p = ground arith in
        let (f, g) = noted-Fits ir ctx border reach path u (negsuc 0) in
        rw same (
          λ w. (λ m. absurd ((f w).0 m), λ (no_pointer, _). absurd (no_pointer q)),
          λ m. (
            λ l. let (e, way, k) = (g m).0 l in (e, way, (q, k)),
            λ (e, way, (_, k)). (g m).1 (e, way, k),
          ),
        )
    | inr differs ↦
        let q : target ≢ p = ground arith in
        rw differs (
          λ w. (λ m. (q, (to w).0 m), λ (_, t). (to w).1 t),
          λ m. rw quiet (λ l. absurd (Memᴰ.not-nil l), λ (_, _, (e, _)). absurd (q e)),
        )
  ]

  use_node-Fits :
      (target u : ℕ) (n : Node)
      → Fits ir ctx border reach path u
          (FlowsThrough ir ctx border target u n)
          (UsesAs ir ctx border target n)
          (use_node ir ctx reach target u n)
  unfolding use_node
  use_node-Fits target u (Node.gep p) = elim (Bool-cases (has (ir.parent u) reach)) [
    | inl inside ↦
        let way = (path (ir.parent u)).0 inside in
        rw inside (elim (Bool-cases (p == u)) [
          | inl same ↦ rw same (
            λ w. (λ m. (way, ground arith, (Memᴰ-one u w).0 m), λ (_, _, e). Memᴰ.head e),
            λ m. (
              λ l. let (e, e') = (noted u (negsuc 0) m).0 l in (e, way, e'),
              λ (e, _, e'). (noted u (negsuc 0) m).1 (e, e'),
            ),
          )
          | inr differs ↦ rw differs (
            λ w. (λ m. absurd (Memᴰ.not-nil m), λ (_, q, _). absurd (ground arith)),
            λ m. (
              λ l. let (e, e') = (noted u (negsuc 0) m).0 l in (e, way, e'),
              λ (e, _, e'). (noted u (negsuc 0) m).1 (e, e'),
            ),
          )
        ])
    | inr out ↦ rw out (
      λ w. (
        λ m. absurd (Memᴰ.not-nil m),
        λ (way, _, _). let is = (path (ir.parent u)).1 way in absurd (cc),
      ),
      λ m. (
        λ l. absurd (Memᴰ.not-nil l),
        λ (_, way, _). let is = (path (ir.parent u)).1 way in absurd (cc),
      ),
    )
  ]
  use_node-Fits target u (Node.load p) =
      pointer-Fits target p u (λ w. w ≡ u) (visit u ∷ []) (Memᴰ-one u) refl
  use_node-Fits target u (Node.store sv p) =
      pointer-Fits target p u (IsLoaded ir ctx border u p) (stored_value ir ctx reach u p)
        (stored_value_iff ir ctx border reach path u p)
        (stored_value-quiet ir ctx border reach path u p)
  use_node-Fits target u (Node.icmp p a b) = noted-Fits ir ctx border reach path u (negsuc 0)
  use_node-Fits target u (Node.fcmp p a b) = noted-Fits ir ctx border reach path u (negsuc 0)
  use_node-Fits target u (Node.call callee args) =
      noted-Fits ir ctx border reach path u (arg_no target args)
  use_node-Fits target u (Node.binary a b) =
      elim (Bool-cases (is_constant_node (ir.node a) || is_constant_node (ir.node b))) [
        | inl is ↦ rw is (
          λ w. (λ m. absurd (Memᴰ.not-nil m), λ (x, y, _). absurd (ground arith)),
          not_used ir ctx border reach path u,
        )
        | inr neither ↦ rw neither (
          λ w. (λ m. (ground arith, ground arith, (Memᴰ-one u w).0 m), λ (_, _, e). Memᴰ.head e),
          not_used ir ctx border reach path u,
        )
      ]
  use_node-Fits target u (Node.alloca o) = (Memᴰ-one u, not_used ir ctx border reach path u)
  use_node-Fits target u (Node.cast o) = (Memᴰ-one u, not_used ir ctx border reach path u)
  use_node-Fits target u (Node.unary o) = (Memᴰ-one u, not_used ir ctx border reach path u)
  use_node-Fits target u n = (Memᴰ-none, not_used ir ctx border reach path u)

  abbrev Counts : ℕ → Type 0
  Counts u = (is_instruction ir u ≡ true) × (u ≢ border)

  use_user-Fits :
      (target u : ℕ)
      → Fits ir ctx border reach path u
          (λ w. Counts u × FlowsThrough ir ctx border target u (ir.node u) w)
          (λ k. Counts u × UsesAs ir ctx border target (ir.node u) k)
          (use_user ir ctx reach border target u)
  unfolding use_user
  use_user-Fits target u = elim (Bool-cases (not (is_instruction ir u) || u == border)) [
    | inl out ↦ rw out (
      λ w. (λ m. absurd (Memᴰ.not-nil m), λ (c, _). absurd (outside out c)),
      λ m. (λ l. absurd (Memᴰ.not-nil l), λ (_, _, (c, _)). absurd (outside out c)),
    )
    | inr inside ↦
        let c : Counts u = ground arith in
        let (f, g) = use_node-Fits target u (ir.node u) in
        rw inside (
          λ w. (λ m. (c, (f w).0 m), λ (_, t). (f w).1 t),
          λ m. (
            λ l. let (e, way, k) = (g m).0 l in (e, way, (c, k)),
            λ (e, way, (_, k)). (g m).1 (e, way, k),
          ),
        )
  ]
    where
      outside : (not (is_instruction ir u) || u == border) ≡ true → Counts u → ⊥
      outside out c = ground arith

  pub users-Fits :
      (target : ℕ)
      → ((w : ℕ)
          → Memᴰ w (visits (flat_map (use_user ir ctx reach border target) (ir.users target)))
            ↔ StepsOn ir ctx border target w)
        × ((m : ℕ × ℤ)
            → Memᴰ m (notes (flat_map (use_user ir ctx reach border target) (ir.users target)))
              ↔ IsUse ir ctx border target m)
  users-Fits target = (
    λ w. (
      λ m.
          let (u, there, l) =
            (Memᴰ-visits (use_user ir ctx reach border target) (ir.users target) w).0 m in
          let ((is, other), t) = ((use_user-Fits target u).0 w).0 l in (u, (there, is, other), t),
      λ (u, (there, is, other), t).
          (Memᴰ-visits (use_user ir ctx reach border target) (ir.users target) w).1
            (u, there, ((use_user-Fits target u).0 w).1 ((is, other), t)),
    ),
    λ m. (
      λ l.
          let (u, there, k) =
            (Memᴰ-notes (use_user ir ctx reach border target) (ir.users target) m).0 l in
          let (e, way, (c, as')) = ((use_user-Fits target u).1 m).0 k in
          subst
            (λ x.
              IsUser ir ctx border target x
              × IsBehind ir ctx border x
              × UsesAs ir ctx border target (ir.node x) (m.1))
            (sym e) ((there, c.0, c.1), way, as'),
      λ ((there, is, other), way, as').
          (Memᴰ-notes (use_user ir ctx reach border target) (ir.users target) m).1
            (m.0, there, ((use_user-Fits target (m.0)).1 m).1 (refl, way, ((is, other), as'))),
    ),
  )

module _ (ir : Ir) (ctx : Context) where
  -- The plan of the walk is the step to the users and the uses.
  pub use_acts-Describes :
      (fuel border : ℕ)
      → Describes add_use uses_go_on
          (use_acts ir ctx fuel border)
          (StepsOn ir ctx border)
          (IsUse ir ctx border)
  unfolding use_acts
  use_acts-Describes fuel border target acts e =
      let (reach, found, q) =
        >>=-eq-some (collect_succ_reach_blocks ir fuel (ir.parent border) []) _ e in
      let fit =
        users-Fits ir ctx border reach
          (λ b. collect_succ_reach_blocks_iff ir fuel (ir.parent border) b reach found) target in
      subst
        (λ (l : List (Act ℕ (ℕ × ℤ))).
          ((w : ℕ) → Memᴰ w (visits l) ↔ StepsOn ir ctx border target w)
          × ((m : ℕ × ℤ) → Memᴰ m (notes l) ↔ IsUse ir ctx border target m))
        (some_inj q) fit
