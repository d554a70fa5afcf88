-- ===== src/Worklist.antt =====
-- The worklist loops of SecurityChecks.cc, DataFlowAnalysis.cc, MissingChecks.cc and
-- PointerAnalysis.cc: a list is popped at the front, an item whose key was processed is passed over,
-- and the body of any other item may return from the function or push items at the back. `none` is a
-- loop whose fuel ran out.
pub mod Total
pub mod Rule
pub mod Search
use crix.Base.{
  ℕ, zero, suc, Bool, true, false, Option, none, some, List, [], ◌∷◌, ◌++◌, Eq, has, ◌>>=◌,
}

-- How one turn of the loop ends: with a `return`, or at the end of the body.
pub data Turn {ℓ κ} (S : Type ℓ) (I : Type κ) : Type (ℓ ⊔ κ) where
  stop : S → Turn S I
  push : S → List I → Turn S I

module _ {ℓ κ μ} {I : Type ℓ} {K : Type κ} {S : Type μ} ⦃e : Eq K⦄ (key : I → K)
    (body : I → S → Option (Turn S I)) where
  unfoldable pub loop : ℕ → List K → List I → S → Option S
  loop zero seen [] s = some s
  loop zero seen (i ∷ queue) s = none
  loop (suc f) seen [] s = some s
  loop (suc f) seen (i ∷ queue) s = elim (has (key i) seen) [
    | true ↦ loop f seen queue s
    | false ↦ body i s >>= λ turn. elim turn [
      | stop s' ↦ some s'
      | push s' new ↦ loop f (key i ∷ seen) (queue ++ new) s'
    ]
  ]
