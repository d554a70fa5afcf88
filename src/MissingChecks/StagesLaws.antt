-- ===== src/MissingChecks/StagesLaws.antt =====
-- The run of the missing-check pass over all modules.
use crix.Base.{
  ℕ, suc, ◌+◌, ◌%◌, ◌^◌, ◌≡◌, refl, Bool, true, false, Option, none, some, List, [], ◌∷◌, arith,
  if◌then◌else◌, ◌==◌, leb, length, ◌>>=◌, Option-cases, inl, inr,
}
use crix.Ir.{Ir}
use crix.Context.{Context}
use crix.MissingChecks.Model.{Counts}
use crix.MissingChecks.Stages.{
  State, do_initialization, do_finalization, next_stage, stage_module, stage_modules,
  do_module_pass, max_stage,
}
use crix.Analyzer.{round, rounds, run}

-- A step that asks for no further turn.
round_idle :
    (step : List ℕ → State → Option (Bool × State))
    → ((m : List ℕ) (s : State) → step m s ≡ some (false, s))
    → (ms : List (List ℕ)) (n : ℕ) (s : State) → round step ms n s ≡ some (n, s)
unfolding round
round_idle step idle [] n s = refl
round_idle step idle (m ∷ ms) n s = rw (idle m s) (round_idle step idle ms n s)

rounds_idle :
    (step : List ℕ → State → Option (Bool × State))
    → ((m : List ℕ) (s : State) → step m s ≡ some (false, s))
    → (fuel : ℕ) (ms : List (List ℕ)) (s : State) → rounds (suc fuel) step ms s ≡ some s
unfolding rounds
rounds_idle step idle fuel ms s = rw (round_idle step idle ms 0 s) refl

initialization_idle : (m : List ℕ) (s : State) → do_initialization m s ≡ some (false, s)
unfolding do_initialization
initialization_idle m s = refl

finalization_idle : (m : List ℕ) (s : State) → do_finalization m s ≡ some (false, s)
unfolding do_finalization
finalization_idle m s = refl

module _ (ir : Ir) (ctx : Context) (fuel : ℕ) where
  abbrev state_of : ℕ → ℕ → Counts → State
  state_of stage i c = record { stage = stage; midx = i; counts = c }

  -- The number of changed modules, and the state, after the last module of a stage.
  abbrev ending : ℕ → ℕ → Counts → Option (ℕ × State)
  ending stage changed c = some (
    if leb (stage + 1) max_stage then (changed + 1) % 2 ^ 32 else changed,
    state_of (stage + 1) 0 c,
  )

  stage_round :
      (stage i n changed : ℕ) (m : List ℕ) (ms : List (List ℕ)) (c : Counts)
      → i + length (m ∷ ms) ≡ n
      → round (do_module_pass ir ctx fuel n) (m ∷ ms) changed (state_of stage i c)
        ≡ (stage_modules ir ctx fuel stage (m ∷ ms) c >>= ending stage changed)
  unfolding round do_module_pass next_stage
  stage_round stage i n changed m [] c e =
      elim (Option-cases (stage_module ir ctx fuel stage m c)) [
        | inl gone ↦ rw gone refl
        | inr (c', there) ↦ let last : (n == i + 1) ≡ true = ground arith in rw there (rw last refl)
      ]
  stage_round stage i n changed m (m' ∷ ms) c e =
      elim (Option-cases (stage_module ir ctx fuel stage m c)) [
        | inl gone ↦ rw gone refl
        | inr (c', there) ↦
            let more : (n == i + 1) ≡ false = ground arith in
            rw there (rw more (stage_round stage (i + 1) n changed m' ms c' (omega arith)))
      ]

  -- The two stages, one after the other.
  abbrev both_stages : List (List ℕ) → Counts → Option State
  both_stages ms c = stage_modules ir ctx fuel 1 ms c >>= λ c₁.
      stage_modules ir ctx fuel 2 ms c₁ >>= λ c₂. some (state_of 3 0 c₂)

  pass_rounds :
      (f : ℕ) (m : List ℕ) (ms : List (List ℕ)) (c : Counts)
      → rounds
          (suc (suc f))
          (do_module_pass ir ctx fuel (length (m ∷ ms)))
          (m ∷ ms)
          (state_of 1 0 c)
        ≡ both_stages (m ∷ ms) c
  unfolding rounds
  pass_rounds f m ms c =
      rw (stage_round 1 0 (length (m ∷ ms)) 0 m ms c (omega arith))
        (elim (Option-cases (stage_modules ir ctx fuel 1 (m ∷ ms) c)) [
          | inl gone ↦ rw gone refl
          | inr (c₁, there) ↦ rw there (
              rw (stage_round 2 0 (length (m ∷ ms)) 0 m ms c₁ (omega arith))
                (elim (Option-cases (stage_modules ir ctx fuel 2 (m ∷ ms) c₁)) [
                  | inl gone ↦ rw gone refl
                  | inr (c₂, there₂) ↦ rw there₂ refl
                ]))
        ])

  -- On at least one module, with fuel for two turns, the run of the pass from stage 1 is stage 1 on
  -- each module in turn and then stage 2 on each in turn, and it stops at stage 3; it lacks fuel only
  -- where one of these does.
  pub run_lem :
      (f : ℕ) (m : List ℕ) (ms : List (List ℕ)) (c : Counts)
      → run
          (suc (suc f))
          do_initialization
          (do_module_pass ir ctx fuel (length (m ∷ ms)))
          do_finalization
          (m ∷ ms)
          (record { stage = 1; midx = 0; counts = c })
        ≡ (stage_modules ir ctx fuel 1 (m ∷ ms) c >>= λ c₁.
            stage_modules ir ctx fuel 2 (m ∷ ms) c₁ >>= λ c₂.
            some (record { stage = 3; midx = 0; counts = c₂ }))
  unfolding run
  run_lem f m ms c =
      rw
        (
          rounds_idle do_initialization initialization_idle (suc f) (m ∷ ms) (state_of 1 0 c),
          pass_rounds f m ms c,
        )
        (ended (both_stages (m ∷ ms) c))
    where
      ended : (o : Option State) → (o >>= rounds (suc (suc f)) do_finalization (m ∷ ms)) ≡ o
      ended none = refl
      ended (some s) = rounds_idle do_finalization finalization_idle (suc f) (m ∷ ms) s
