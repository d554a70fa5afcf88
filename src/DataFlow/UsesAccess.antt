-- ===== src/DataFlow/UsesAccess.antt =====
-- What findUses calls and adds for a use, and for a store of the value.
use mathlib.Core.List.Memᴰ
use crix.Base.{
  ℕ, ◌≡◌, refl, sym, ap, true, inl, inr, ◌↔◌, List, [], ◌∷◌, Memᴰ, arith, has, nat_eq, subst,
  Bool-cases, flat_map, if◌then◌else◌, ◌||◌, not, ℤ,
}
use crix.Ir.{Ir, Node}
use crix.Ir.Kinds.{is_instruction}
use crix.Context.{Context}
use crix.DataFlow.Aliases.{get_alias_pointers}
use crix.DataFlow.ReachLaws.{Route}
use crix.Walk.{Act, visit, note, visits, notes}
use crix.Walk.Visits.{notes-flat_map}
use crix.Walk.Members.{Memᴰ-visits, Memᴰ-none, Memᴰ-one}
use crix.DataFlow.Uses.{alias_user, stored_value}
use crix.DataFlow.UsesSteps.{IsBehind, IsLoaded}

pub noted : (u : ℕ) (k : ℤ) (m : ℕ × ℤ) → Memᴰ m ((u, k) ∷ []) ↔ ((m.0 ≡ u) × (m.1 ≡ k))
noted u k m = (
  λ l. let q = (Memᴰ-one (u, k) m).0 l in (ap (λ (x : ℕ × ℤ). x.0) q, ap (λ (x : ℕ × ℤ). x.1) q),
  λ (e, e'). Memᴰ.head (rw (sym e, sym e') refl),
)

module _ (ir : Ir) (ctx : Context) (border : ℕ) (reach : List ℕ)
    (path : (b : ℕ) → (has b reach ≡ true) ↔ Route ir.succs (ir.parent border) b) where
  alias_user_iff :
      (au w : ℕ)
      → Memᴰ w (visits (alias_user ir ctx reach au)) ↔ (
          (w ≡ au)
          × (is_instruction ir w ≡ true)
          × IsBehind ir ctx border w
          × ((q : ℕ) × (ir.node w ≡ Node.load q)))
  unfolding alias_user
  alias_user_iff au w =
      elim (Bool-cases (not (is_instruction ir au) || not (has (ir.parent au) reach))) [
        | inl out ↦ rw out (
          λ m. absurd (Memᴰ.not-nil m),
          λ (q, is, way, _). absurd (
              outside out (subst (λ x. is_instruction ir x ≡ true) q is)
                ((path (ir.parent au)).1 (subst (IsBehind ir ctx border) q way))),
        )
        | inr inside ↦ rw inside (by_node (ground arith) (ir.node au) refl)
      ]
    where
      outside :
          (not (is_instruction ir au) || not (has (ir.parent au) reach)) ≡ true
          → is_instruction ir au ≡ true
          → has (ir.parent au) reach ≡ true
          → ⊥
      outside out is there = ground arith

      by_node :
          (is_instruction ir au ≡ true) × (has (ir.parent au) reach ≡ true)
          → (n : Node) → ir.node au ≡ n
          → Memᴰ w (visits {N = ℕ × ℤ} (elim n [ Node.load p ↦ visit au ∷ [] | _ ↦ [] ])) ↔ (
              (w ≡ au)
              × (is_instruction ir w ≡ true)
              × IsBehind ir ctx border w
              × ((q : ℕ) × (ir.node w ≡ Node.load q)))
      by_node (is, there) (Node.load p) e = (
        λ m.
            let q = (Memᴰ-one au w).0 m in
            (
              q,
              subst (λ x. is_instruction ir x ≡ true) (sym q) is,
              subst (IsBehind ir ctx border) (sym q) ((path (ir.parent au)).0 there),
              (p, rw q e),
            ),
        λ t. Memᴰ.head t.0,
      )
      by_node s n e = (λ m. absurd (Memᴰ.not-nil m), λ (q, _, _, (p, e')). absurd (cc))

  alias_user-quiet : (au : ℕ) → notes (alias_user ir ctx reach au) ≡ []
  unfolding alias_user
  alias_user-quiet au = grind arith

  pub stored_value_iff :
      (u p w : ℕ) → Memᴰ w (visits (stored_value ir ctx reach u p)) ↔ IsLoaded ir ctx border u p w
  unfolding stored_value
  stored_value_iff u p w =
      let aliases = get_alias_pointers p (ctx.func_pa_results (ir.block_parent (ir.parent u))) in
      let of_alias = λ (a : ℕ). flat_map (alias_user ir ctx reach) (ir.users a) in
      (
        λ m.
            let (a, there, l) = (Memᴰ-visits of_alias aliases w).0 m in
            let (au, there', l') = (Memᴰ-visits (alias_user ir ctx reach) (ir.users a) w).0 l in
            let (q, is, way, is_load) = (alias_user_iff au w).0 l' in
            (a, there, subst (λ x. Memᴰ x (ir.users a)) (sym q) there', is, way, is_load),
        λ (a, there, there', is, way, is_load). (Memᴰ-visits of_alias aliases w).1 (
          a,
          there,
          (Memᴰ-visits (alias_user ir ctx reach) (ir.users a) w).1
              (w, there', (alias_user_iff w w).1 (refl, is, way, is_load)),
        ),
      )

  pub stored_value-quiet : (u p : ℕ) → notes (stored_value ir ctx reach u p) ≡ []
  unfolding stored_value
  stored_value-quiet u p =
      notes-flat_map (λ a. flat_map (alias_user ir ctx reach) (ir.users a))
        (λ a. notes-flat_map (alias_user ir ctx reach) alias_user-quiet (ir.users a))
        (get_alias_pointers p (ctx.func_pa_results (ir.block_parent (ir.parent u))))

  -- What the loop body does for a user, against what flows on and which use it is.
  abbrev pub Fits : ℕ → (ℕ → Type 0) → (ℤ → Type 0) → List (Act ℕ (ℕ × ℤ)) → Type 0
  Fits u To As acts =
      ((w : ℕ) → Memᴰ w (visits acts) ↔ To w)
      × ((m : ℕ × ℤ) → Memᴰ m (notes acts) ↔ ((m.0 ≡ u) × IsBehind ir ctx border u × As (m.1)))

  pub not_used : (u : ℕ) (m : ℕ × ℤ) → Memᴰ m [] ↔ ((m.0 ≡ u) × IsBehind ir ctx border u × ⊥)
  not_used u m = (λ k. absurd (Memᴰ.not-nil k), λ (_, _, h). absurd h)

  -- A use, if it is behind the border.
  pub noted-Fits :
      (u : ℕ) (k : ℤ)
      → Fits u (λ w. ⊥) (λ x. x ≡ k) (if has (ir.parent u) reach then note (u, k) ∷ [] else [])
  noted-Fits u k = elim (Bool-cases (has (ir.parent u) reach)) [
    | inl inside ↦ rw inside (
      Memᴰ-none,
      λ m. (
        λ l. let (e, e') = (noted u k m).0 l in (e, (path (ir.parent u)).0 inside, e'),
        λ (e, _, e'). (noted u k m).1 (e, e'),
      ),
    )
    | inr out ↦ rw out (
      Memᴰ-none,
      λ m. (
        λ l. absurd (Memᴰ.not-nil l),
        λ (_, way, _). let is = (path (ir.parent u)).1 way in absurd (cc),
      ),
    )
  ]
