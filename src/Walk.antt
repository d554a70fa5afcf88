-- ===== src/Walk.antt =====
-- The recursive walks of DataFlowAnalysis.cc and MissingChecks.cc: a function that returns at once
-- on a value it has tracked (or when its answer is found), tracks it, and then adds to its result
-- sets and calls itself in an order that its plan gives. `none` is a walk whose fuel ran out.
pub mod Total
pub mod Rules
pub mod Closed
pub mod Exact
pub mod Visits
pub mod Members
pub mod Steps
use crix.Base.{
  ℕ, zero, suc, Bool, true, false, ◌||◌, Option, none, some, List, [], ◌∷◌, has, insert, nat_eq,
  ◌>>=◌,
}

-- The set of tracked values, and the sets that the walk fills.
pub record Trace {ℓ} (A : Type ℓ) : Type ℓ where
  pub seen : List ℕ
  pub acc : A

-- One action of a body: a recursive call, or an addition to the result.
pub data Act {ℓ κ} (I : Type ℓ) (N : Type κ) : Type (ℓ ⊔ κ) where
  visit : I → Act I N
  note : N → Act I N

module _ {ℓ κ} {I : Type ℓ} {N : Type κ} where
  abbrev pub visits : List (Act I N) → List I
  visits [] = []
  visits (visit i ∷ acts) = i ∷ visits acts
  visits (note n ∷ acts) = visits acts

  abbrev pub notes : List (Act I N) → List N
  notes [] = []
  notes (visit i ∷ acts) = notes acts
  notes (note n ∷ acts) = n ∷ notes acts

module _ {ℓ κ μ} {I : Type ℓ} {N : Type κ} {A : Type μ} (key : I → ℕ) (apply : N → A → A)
    (done : A → Bool) (plan : I → Option (List (Act I N))) where
  unfoldable pub run_acts :
      (I → Trace A → Option (Trace A)) → List (Act I N) → Trace A → Option (Trace A)
  run_acts go [] t = some t
  run_acts go (visit i ∷ acts) t = go i t >>= run_acts go acts
  run_acts go (note n ∷ acts) t = run_acts go acts (record t { acc = apply n t.acc })

  unfoldable pub walk : ℕ → I → Trace A → Option (Trace A)
  unfolding run_acts
  walk zero i t = none
  walk (suc f) i t = elim (done t.acc || has (key i) t.seen) [
    | true ↦ some t
    | false ↦ plan i >>= λ acts. run_acts (walk f) acts (record t { seen = insert (key i) t.seen })
  ]
