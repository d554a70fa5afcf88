-- ===== src/Worklist/Rule.antt =====
-- The invariant rule of a worklist loop.
use crix.Base.{
  ℕ, zero, suc, ◌≡◌, true, false, inl, inr, Option, some, List, [], ◌∷◌, ◌++◌, arith, Eq, has,
  Bool-cases, >>=-eq-some, subst,
}
use crix.Worklist.{Turn, stop, push, loop}

module _ {ℓ κ μ} {I : Type ℓ} {K : Type κ} {S : Type μ} ⦃e : Eq K⦄ (key : I → K)
    (body : I → S → Option (Turn S I)) where
  -- `Inv` speaks of the processed keys, the queue and the state; `Post` of the state returned.
  pub record IsRule {ν ρ} (Inv : List K → List I → S → Type ν) (Post : S → Type ρ)
      : Type (ℓ ⊔ κ ⊔ μ ⊔ ν ⊔ ρ) where
    pub passes :
        (seen : List K) (i : I) (queue : List I) (s : S)
        → has (key i) seen ≡ true
        → Inv seen (i ∷ queue) s
        → Inv seen queue s
    pub pushes :
        (seen : List K) (i : I) (queue : List I) (s s' : S) (new : List I)
        → has (key i) seen ≡ false
        → body i s ≡ some (push s' new)
        → Inv seen (i ∷ queue) s
        → Inv (key i ∷ seen) (queue ++ new) s'
    pub returns :
        (seen : List K) (i : I) (queue : List I) (s s' : S)
        → has (key i) seen ≡ false
        → body i s ≡ some (stop s')
        → Inv seen (i ∷ queue) s
        → Post s'
    pub ends : (seen : List K) (s : S) → Inv seen [] s → Post s

  pub loop_rule {ν ρ} :
      {Inv : List K → List I → S → Type ν} {Post : S → Type ρ}
      → IsRule Inv Post
      → (f : ℕ) (seen : List K) (queue : List I) (s r : S) → Inv seen queue s
      → loop key body f seen queue s ≡ some r
      → Post r
  unfolding loop
  loop_rule {Post} k zero seen [] s r p h =
      subst Post (let q : s ≡ r = ground arith in q) (k.ends seen s p)
  loop_rule k zero seen (i ∷ queue) s r p h = cc
  loop_rule {Post} k (suc f) seen [] s r p h =
      subst Post (let q : s ≡ r = ground arith in q) (k.ends seen s p)
  loop_rule {Inv} {Post} k (suc f) seen (i ∷ queue) s r p h = elim (Bool-cases (has (key i) seen)) [
    | inl old ↦ loop_rule k f seen queue s r (k.passes seen i queue s old p) (rw (old, loop) at h)
    | inr fresh ↦
        let (turn, e₁, e₂) = >>=-eq-some (body i s) _ (rw (fresh, loop) at h) in
        after fresh turn e₁ e₂ (λ s' new. loop_rule k f (key i ∷ seen) (queue ++ new) s' r)
  ]
    where
      after :
          has (key i) seen ≡ false
          → (turn : Turn S I) → body i s ≡ some turn
          → elim turn [
            | stop s' ↦ some s'
            | push s' new ↦ loop key body f (key i ∷ seen) (queue ++ new) s'
          ]
            ≡ some r
          → ((s' : S) (new : List I)
              → Inv (key i ∷ seen) (queue ++ new) s'
              → loop key body f (key i ∷ seen) (queue ++ new) s' ≡ some r
              → Post r)
          → Post r
      after fresh (stop s') e₁ e₂ more =
          subst Post (let q : s' ≡ r = ground arith in q) (k.returns seen i queue s s' fresh e₁ p)
      after fresh (push s' new) e₁ e₂ more =
          more s' new (k.pushes seen i queue s s' new fresh e₁ p) e₂
