-- ===== src/Worklist/Total.antt =====
-- A worklist loop ends: the items that wait, and the pushes that the unprocessed keys can still
-- make, bound the turns that are left.
use crix.Base.{
  ℕ, zero, suc, ◌+◌, ◌≤◌, ◌≡◌, refl, ◌⊎◌, inl, inr, Option, some, List, [], ◌∷◌, ◌++◌, Memᴰ, arith,
  length, length-append, Eq, has, All, All-append, Grows-cons, has-cons_self, Bool-cases,
  weight_outside, weight_outside-drop,
}
use crix.Worklist.{Turn, stop, push, loop}

module _ {ℓ κ μ} {I : Type ℓ} {K : Type κ} {S : Type μ} ⦃e : Eq K⦄ (key : I → K)
    (body : I → S → Option (Turn S I)) where
  -- Every body that runs on a good item ends, and pushes good items, no more than the degree of
  -- the item's key.
  abbrev pub IsBounded {ν} : List K → (K → ℕ) → (I → Type ν) → Type (ℓ ⊔ κ ⊔ μ ⊔ ν)
  IsBounded univ deg Good =
      (i : I) (s : S)
      → Good i
      → Memᴰ (key i) univ
        × (((s' : S) × (body i s ≡ some (stop s')))
            ⊎ ((s' : S) × (new : List I) × (body i s ≡ some (push s' new))
                × All Good new
                × (length new ≤ deg (key i))))

  pub loop_total {ν} :
      (univ : List K) (deg : K → ℕ) (Good : I → Type ν)
      → IsBounded univ deg Good
      → (f : ℕ) (seen : List K) (queue : List I) (s : S)
      → length queue + weight_outside deg seen univ ≤ f
      → All Good queue
      → (r : S) × (loop key body f seen queue s ≡ some r)
  unfolding loop
  loop_total univ deg Good bound zero seen [] s h g = (s, refl)
  loop_total univ deg Good bound zero seen (i ∷ queue) s h g = absurd (omega arith)
  loop_total univ deg Good bound (suc f) seen [] s h g = (s, refl)
  loop_total univ deg Good bound (suc f) seen (i ∷ queue) s h g =
      elim (Bool-cases (has (key i) seen)) [
        | inl old ↦
            let (r, ends) = loop_total univ deg Good bound f seen queue s (omega arith) g.1 in
            (r, rw (old, loop) ends)
        | inr fresh ↦ elim (bound i s g.0).1 [
          | inl (s', e₁) ↦ (s', rw (fresh, loop) (rw e₁))
          | inr (s', new, e₁, good, few) ↦
              let less =
                weight_outside-drop deg (key i) seen (key i ∷ seen) univ (Grows-cons (key i) seen)
                  (bound i s g.0).0 fresh (has-cons_self (key i) seen) in
              let (r, ends) =
                loop_total univ deg Good bound f (key i ∷ seen) (queue ++ new) s'
                  (omega (arith, length-append queue new)) (All-append Good queue new g.1 good) in
              (r, rw (fresh, loop) (rw e₁ ends))
        ]
      ]
