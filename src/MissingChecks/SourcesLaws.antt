-- ===== src/MissingChecks/SourcesLaws.antt =====
-- What findSourceCV of MissingChecks.cc collects.
use crix.Base.{
  ℕ, ◌≡◌, refl, true, ◌⊎◌, inl, inr, ◌↔◌, some, List, [], arith, has, insert, nat_eq, has-insert,
  not-has-nil, sym, subst,
}
use crix.Ir.{Ir}
use crix.Context.{Context}
use crix.Walk.{Trace}
use crix.Walk.Closed.{Lasting}
use crix.Walk.Steps.{Reached, walk-IsTraced}
use crix.MissingChecks.SourcesSteps.{ComesFrom, IsOrigin}
use crix.MissingChecks.SourcesPlan.{source_plan-Fits}
use crix.MissingChecks.Sources.{goes_on, source_plan, find_source_cv}

abbrev InSet : ℕ → List ℕ → Type 0
InSet n s = has n s ≡ true

Sources-Lasting : Lasting insert goes_on InSet
Sources-Lasting = record {
  now = λ n s. ground (arith, has-insert n n s);
  later = λ m n s h. ground (arith, has-insert n m s);
  stuck = λ n s h. h;
}

InSet-fresh : (n m : ℕ) (s : List ℕ) → InSet n (insert m s) → InSet n s ⊎ (n ≡ m)
InSet-fresh n m s h = ground (arith, has-insert n m s)

module _ (ir : Ir) (ctx : Context) where
  -- The values that a value comes from, over any number of steps.
  abbrev pub GoesBack : ℕ → ℕ → Type 0
  GoesBack = Reached (λ v w. ComesFrom ir ctx v (ir.node v) w)

  -- From empty sets, if findSourceCV of the missing-check pass returns: it has tracked exactly the
  -- values that the first one comes from over any number of steps, and its result holds exactly the
  -- arguments, global variables and calls among them. A step leads from a constant expression, an element
  -- pointer and an alloca, cast, extractvalue or unary instruction to the first operand; from a select
  -- to its two values; from a phi to what comes in; from a load to its pointer and to what the
  -- stores to an alias of it write, in blocks from which a path leads to the load; and from a binary
  -- operator to the operands that are no constants.
  pub find_source_cv_iff :
      (fuel v w : ℕ) (r : Trace (List ℕ))
      → find_source_cv ir ctx fuel v (record { seen = []; acc = [] }) ≡ some r
      → ((has w r.seen ≡ true) ↔ GoesBack v w)
        × ((has w r.acc ≡ true) ↔ (GoesBack v w × IsOrigin ir ctx (ir.node w)))
  unfolding find_source_cv
  find_source_cv_iff fuel v w r h =
      let x =
        walk-IsTraced insert goes_on (source_plan ir ctx fuel) _ _ InSet Sources-Lasting InSet-fresh
          (source_plan-Fits ir ctx fuel) fuel v [] r h in
      (
        (x.sound w, x.complete refl w),
        (
          λ k. elim (x.sound_notes w k) [
            | inl old ↦ not-has-nil w old
            | inr (u, way, (is, q)) ↦ (
              subst (GoesBack v) (sym q) way,
              subst (λ y. IsOrigin ir ctx (ir.node y)) (sym q) is,
            )
          ],
          λ (way, is). x.complete_notes refl w (w, way, (is, refl)),
        ),
      )
