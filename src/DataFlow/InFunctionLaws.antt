-- ===== src/DataFlow/InFunctionLaws.antt =====
-- What findInFuncSourceCV collects.
use crix.Base.{
  ℕ, ◌≡◌, refl, ap, true, ◌⊎◌, inl, inr, ◌↔◌, some, [], arith, has, nat_eq, has-insert, not-has-nil,
}
use crix.Ir.{Ir}
use crix.Context.{Context}
use crix.Walk.{Trace}
use crix.Walk.Closed.{Lasting}
use crix.Walk.Steps.{Reached, walk-IsTraced}
use crix.DataFlow.InFunctionSteps.{StepsBack, MarksIt}
use crix.DataFlow.InFunctionPlan.{in_func_acts-Fits}
use crix.DataFlow.InFunction.{
  Mark, source, variable, Found, add_mark, goes_on, nothing_found, in_func_acts,
  find_in_func_source_cv,
}

-- The addition has been made.
abbrev pub Holds : Mark → Found → Type 0
Holds (source v) s = has v s.source_set ≡ true
Holds (variable v) s = has v s.cv_set ≡ true

Holds-now : (n : Mark) (s : Found) → Holds n (add_mark n s)
Holds-now (source v) s = ground (arith, has-insert v v s.source_set)
Holds-now (variable v) s = ground (arith, has-insert v v s.cv_set)

Holds-later : (m n : Mark) (s : Found) → Holds n s → Holds n (add_mark m s)
Holds-later (source u) (source v) s h = ground (arith, has-insert v u s.source_set)
Holds-later (source u) (variable v) s h = h
Holds-later (variable u) (source v) s h = h
Holds-later (variable u) (variable v) s h = ground (arith, has-insert v u s.cv_set)

Holds-fresh : (n m : Mark) (s : Found) → Holds n (add_mark m s) → Holds n s ⊎ (n ≡ m)
Holds-fresh (source v) (source u) s h =
    let o : (has v s.source_set ≡ true) ⊎ (v ≡ u) = ground (arith, has-insert v u s.source_set) in
    elim o [ inl k ↦ inl k | inr q ↦ inr (ap source q) ]
Holds-fresh (variable v) (source u) s h = inl h
Holds-fresh (source v) (variable u) s h = inl h
Holds-fresh (variable v) (variable u) s h =
    let o : (has v s.cv_set ≡ true) ⊎ (v ≡ u) = ground (arith, has-insert v u s.cv_set) in
    elim o [ inl k ↦ inl k | inr q ↦ inr (ap variable q) ]

pub Marks-Lasting : Lasting add_mark goes_on Holds
Marks-Lasting = record { now = Holds-now; later = Holds-later; stuck = λ n s h. h }

module _ (ir : Ir) (ctx : Context) where
  -- The values that the data flows back to from a value, over any number of steps.
  abbrev pub FlowsBack : ℕ → ℕ → Type 0
  FlowsBack = Reached (StepsBack ir ctx)

  -- A value that the data flows back to makes the mark.
  abbrev pub Marks : ℕ → Mark → Type 0
  Marks v n = (k : ℕ) × FlowsBack v k × MarksIt ir ctx k n

  -- From empty sets, if findInFuncSourceCV returns: it has tracked exactly the values that the data
  -- flows back to over any number of steps, and a value is a source (a critical variable) exactly if
  -- one of them marks it so. A value that is no constant flows back, from a constant expression, an
  -- element pointer and a cast, extractvalue or unary instruction, to the first operand; from a select
  -- to its two values and from a binary operator to both operands; from a phi to what comes in; and
  -- from a load to its pointer and to what the stores to an alias of it write, in blocks from which a
  -- path leads to the load. Constants, arguments, allocas and calls are marked as both. Selects, element
  -- pointers, phis, loads, icmp, cast, extractvalue, unary and binary instructions are marked as
  -- variables, and a load marks as both what a call in such a block has where it passes an alias.
  pub find_in_func_source_cv_iff :
      (fuel v w : ℕ) (r : Trace Found)
      → find_in_func_source_cv ir ctx fuel v (record { seen = []; acc = nothing_found }) ≡ some r
      → ((has w r.seen ≡ true) ↔ FlowsBack v w)
        × ((has w r.acc.source_set ≡ true) ↔ Marks v (source w))
        × ((has w r.acc.cv_set ≡ true) ↔ Marks v (variable w))
  unfolding find_in_func_source_cv
  find_in_func_source_cv_iff fuel v w r h =
      let x =
        walk-IsTraced add_mark goes_on (in_func_acts ir ctx fuel) _ _ Holds Marks-Lasting
          Holds-fresh (in_func_acts-Fits ir ctx fuel) fuel v nothing_found r h in
      (
        (x.sound w, x.complete refl w),
        (
          λ k. elim (x.sound_notes (source w) k) [ inl old ↦ not-has-nil w old | inr s ↦ s ],
          x.complete_notes refl (source w),
        ),
        (
          λ k. elim (x.sound_notes (variable w) k) [ inl old ↦ not-has-nil w old | inr s ↦ s ],
          x.complete_notes refl (variable w),
        ),
      )
