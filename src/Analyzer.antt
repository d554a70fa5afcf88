-- ===== src/Analyzer.antt =====
-- IterativeModulePass::run of Analyzer.cc: the three loops over the modules.
pub mod Once
use crix.Base.{
  ℕ, zero, suc, ◌+◌, ◌%◌, ◌^◌, Bool, true, false, Option, none, some, List, [], ◌∷◌, if◌then◌else◌,
  ◌==◌, ◌>>=◌,
}

module _ {ℓ κ} {M : Type ℓ} {S : Type κ} where
  -- One turn over the modules, which counts those that changed; `none` is a step that did not end.
  unfoldable pub round : (M → S → Option (Bool × S)) → List M → ℕ → S → Option (ℕ × S)
  round step [] changed s = some (changed, s)
  round step (m ∷ ms) changed s =
      step m s >>= λ r. round step ms (if r.0 then (changed + 1) % 2 ^ 32 else changed) r.1

  -- Turns until none changed. `again` is treated as the count of the modules that asked for it.
  unfoldable pub rounds : ℕ → (M → S → Option (Bool × S)) → List M → S → Option S
  unfolding round
  rounds zero step ms s = none
  rounds (suc fuel) step ms s = round step ms 0 s >>= λ r. elim (r.0 == 0) [
    | true ↦ some r.1
    | false ↦ rounds fuel step ms r.1
  ]

  -- doInitialization, doModulePass and doFinalization, each to its end.
  unfoldable pub run :
      ℕ
      → (M → S → Option (Bool × S))
      → (M → S → Option (Bool × S))
      → (M → S → Option (Bool × S))
      → List M
      → S
      → Option S
  unfolding rounds
  run fuel do_initialization do_module_pass do_finalization modules s = do
    s₁ ← rounds fuel do_initialization modules s
    s₂ ← rounds fuel do_module_pass modules s₁
    rounds fuel do_finalization modules s₂
