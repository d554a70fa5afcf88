-- ===== src/Analyzer/Once.antt =====
-- A pass whose steps report no change goes over the modules once.
use crix.Base.{
  ℕ, suc, ◌≡◌, refl, Bool, false, Option, some, ◌>>=◌, for_each, List, [], ◌∷◌, Option-cases, inl,
  inr,
}
use crix.Analyzer.{round, rounds, run}

module _ {ℓ κ} {M : Type ℓ} {S : Type κ} where
  -- A step that never asks for another turn, as a step on the state.
  abbrev pub quiet : (M → S → Option S) → M → S → Option (Bool × S)
  quiet step m s = step m s >>= λ t. some (false, t)

  round-quiet :
      (step : M → S → Option S) (ms : List M) (s : S)
      → round (quiet step) ms 0 s ≡ (for_each step ms s >>= λ t. some (0, t))
  unfolding round
  round-quiet step [] s = refl
  round-quiet step (m ∷ ms) s = elim (Option-cases (step m s)) [
    | inl gone ↦ rw gone refl
    | inr (t, there) ↦ rw there (round-quiet step ms t)
  ]

  rounds-quiet :
      (fuel : ℕ) (step : M → S → Option S) (ms : List M) (s : S)
      → rounds (suc fuel) (quiet step) ms s ≡ for_each step ms s
  unfolding rounds
  rounds-quiet fuel step ms s = elim (Option-cases (for_each step ms s)) [
    | inl gone ↦ rw (round-quiet step ms s) (rw gone refl)
    | inr (t, there) ↦ rw (round-quiet step ms s) (rw there refl)
  ]

  -- The run of such a pass with one unit of fuel or more.
  pub run-quiet :
      (fuel : ℕ) (initialize step finalize : M → S → Option S) (ms : List M) (s : S)
      → run (suc fuel) (quiet initialize) (quiet step) (quiet finalize) ms s
        ≡ (for_each initialize ms s >>= λ s₁. for_each step ms s₁ >>= for_each finalize ms)
  unfolding run
  run-quiet fuel initialize step finalize ms s = elim (Option-cases (for_each initialize ms s)) [
    | inl gone ↦ rw (rounds-quiet fuel initialize ms s) (rw gone refl)
    | inr (s₁, there) ↦ rw (rounds-quiet fuel initialize ms s) (
        rw there (elim (Option-cases (for_each step ms s₁)) [
          | inl gone ↦ rw (rounds-quiet fuel step ms s₁) (rw gone refl)
          | inr (s₂, here) ↦
              rw (rounds-quiet fuel step ms s₁) (rw here (rounds-quiet fuel finalize ms s₂))
        ]))
  ]
