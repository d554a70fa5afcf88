-- ===== src/DataFlow/BackwardLaws.antt =====
-- Where the recursions of findSources and performBackwardAnalysis meet a phi that is its own first
-- operand, as in a loop.
use crix.Base.{ℕ, zero, suc, ◌≡◌, refl, Option, none, List, ◌∷◌, for_each}
use crix.Ir.{Ir, Node}
use crix.DataFlow.Backward.{
  Backward, source_operands, find_sources, backward_value, backward_operands,
  perform_backward_analysis,
}

-- A recursion that starts over on the same value returns with no amount of fuel.
for_each-none {ℓ κ} :
    {A : Type ℓ} {S : Type κ} (go : A → S → Option S) (x : A) (xs : List A) (s : S)
    → go x s ≡ none
    → for_each go (x ∷ xs) s ≡ none
for_each-none go x xs s e = rw e refl

module _ (ir : Ir) where
  find_sources-none :
      (fuel v bb : ℕ) (rest : List (ℕ × ℕ)) (src_set : List ℕ)
      → ir.node v ≡ Node.phi ((v, bb) ∷ rest)
      → find_sources ir fuel v src_set ≡ none
  unfolding find_sources source_operands
  find_sources-none zero v bb rest src_set e = refl
  find_sources-none (suc fuel) v bb rest src_set e =
      rw e (for_each-none (find_sources ir fuel) v _ _ (find_sources-none fuel v bb rest _ e))

  backward_none :
      (fuel f v bb : ℕ) (rest : List (ℕ × ℕ)) (s : Backward)
      → ir.node v ≡ Node.phi ((v, bb) ∷ rest)
      → perform_backward_analysis ir fuel f v s ≡ none
  unfolding perform_backward_analysis backward_value backward_operands
  backward_none zero f v bb rest s e = refl
  backward_none (suc fuel) f v bb rest s e = rw e (
      for_each-none (perform_backward_analysis ir fuel f) v _ _
        (backward_none fuel f v bb rest s e))

  -- On a phi whose first incoming value is itself, neither findSources nor performBackwardAnalysis
  -- returns, with any amount of fuel and from any sets.
  pub phi_loop_none :
      (fuel f v bb : ℕ) (rest : List (ℕ × ℕ)) (src_set : List ℕ) (s : Backward)
      → ir.node v ≡ Node.phi ((v, bb) ∷ rest)
      → (find_sources ir fuel v src_set ≡ none) × (perform_backward_analysis ir fuel f v s ≡ none)
  phi_loop_none fuel f v bb rest src_set s e =
      (find_sources-none fuel v bb rest src_set e, backward_none fuel f v bb rest s e)
