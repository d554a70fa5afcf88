-- ===== src/MissingChecks/ResultsLaws.antt =====
-- What processResults reports, and the bounds of the ratings.
use mathlib.Core.List.Memᴰ
use crix.Base.{
  ℕ, ◌+◌, ◌%◌, ◌^◌, ◌≤◌, ◌<◌, ◌≡◌, ◌≢◌, ◌↔◌, refl, sym, ap, ◌∙◌, Bool, List, [], ◌∷◌, Memᴰ,
  Memᴰ-cons, ltb, use_eq, read, arith, Bool-cases, inl, inr, ◌⊎◌,
}
use crix.Ir.{Ir}
use crix.MissingChecks.Model.{SrcUse, Side, Counts}
use crix.MissingChecks.Tallies.{Tally, IsTallied}
use crix.MissingChecks.Results.{
  SrcTy, Report, bounded_total, reports_of, src_ty, process_results, with_src_ty,
}
use crix.MissingChecks.ReportLaws.{IsReported, reports_iff}

bounded_total_lem :
    (c u n : ℕ)
    → c + u < 2 ^ 32
    → (bounded_total c u n ≤ c + u) × ((bounded_total c u n ≡ n) ⊎ (bounded_total c u n ≡ c + u))
unfolding bounded_total
bounded_total_lem c u n h =
    let whole : (c + u) % 2 ^ 32 ≡ c + u = omega arith in
    elim (Bool-cases (ltb ((c + u) % 2 ^ 32) n)) [
      | inl less ↦ rw (less, bounded_total) (omega arith, inr whole)
      | inr more ↦ rw (more, bounded_total) (ground arith, inl refl)
    ]

rating_arith :
    (c u n m k ru b : ℕ) {rt rc : ℕ}
    → ru ≡ u
    → u ≡ m % 2 ^ 32
    → n ≡ k % 2 ^ 32
    → m ≤ k
    → k < 2 ^ 32
    → ru ≢ 0
    → b ≤ c + u
    → (b ≡ n) ⊎ (b ≡ c + u)
    → rt ≡ b
    → rc ≡ c
    → (0 < ru) × (ru ≤ rt) × (rt ≤ rc + ru)
rating_arith c u n m k ru b e₁ e₂ e₃ le small positive least (inl q) e₄ e₅ =
    let there : 0 < ru = ground arith in omega arith
rating_arith c u n m k ru b e₁ e₂ e₃ le small positive least (inr q) e₄ e₅ =
    let there : 0 < ru = ground arith in omega arith

module _ (above : ℕ → ℕ → Bool) where
  -- The rating of a report is above 0 and at most 1, where the counters have not wrapped around.
  rating_bounds :
      (s : Side) (r : Report) (t : Tally s r.key)
      → t.total < 2 ^ 32
      → r.checks + r.unchecks < 2 ^ 32
      → IsReported above s r
      → (0 < r.unchecks) × (r.unchecks ≤ r.total) × (r.total ≤ r.checks + r.unchecks)
  rating_bounds s r t small sum_small i =
      let c = read 0 r.key s.check_count in
      let u = read 0 r.key s.uncheck_count in
      let n = read 0 r.key s.total_count in
      let checks : r.checks ≡ c = ap (λ x. x.checks) i.figured in
      let unchecks : r.unchecks ≡ u = ap (λ x. x.unchecks) i.figured in
      let total : r.total ≡ bounded_total c u n = ap (λ x. x.total) i.figured in
      let (least, cases) = bounded_total_lem c u n (omega (arith, checks, unchecks)) in
      rating_arith c u n t.unchecks t.total r.unchecks (bounded_total c u n) unchecks t.unchecks_eq
        t.total_eq t.bounded small i.some_uncheck least cases total checks

module _ (ir : Ir) where
  with_src_ty_iff :
      (ty : SrcTy) (r : Report) (rs : List Report)
      → Memᴰ (ty, r) (with_src_ty ir rs) ↔ ((ty ≡ src_ty ir r.key) × Memᴰ r rs)
  with_src_ty_iff ty r [] = ((λ m. absurd (Memᴰ.not-nil m)), (λ (q, m). absurd (Memᴰ.not-nil m)))
  with_src_ty_iff ty r (x ∷ rs) =
      let (f, g) = with_src_ty_iff ty r rs in
      (
        (λ m. elim ((Memᴰ-cons (ty, r) (src_ty ir x.key, x) (with_src_ty ir rs)).0 m) [
          | inl q ↦
              let same : r ≡ x = ap (λ p. p.1) q in
              (ap (λ p. p.0) q ∙ ap (λ y. src_ty ir y.key) (sym same), Memᴰ.head same)
          | inr mt ↦ let (q, mr) = f mt in (q, Memᴰ.tail mr)
        ]),
        (λ (q, m). elim ((Memᴰ-cons r x rs).0 m) [
          | inl same ↦ Memᴰ.head (λ i. ((q ∙ ap (λ y. src_ty ir y.key) same) i, same i))
          | inr mt ↦ Memᴰ.tail (g (q, mt))
        ]),
      )

  -- processResults reports, with its kind, exactly each checked source, and exactly each checked use,
  -- that has a check count and an uncheck count that are not 0 and whose rating is not above the
  -- threshold; the total is the smaller of the total count and the sum of the two counts, as an
  -- unsigned number.
  pub process_results_iff :
      (above_src above_use : ℕ → ℕ → Bool) (c : Counts) (r : Report)
      → ((ty : SrcTy)
          → Memᴰ (ty, r) (process_results ir above_src above_use c).0
            ↔ ((ty ≡ src_ty ir r.key) × IsReported above_src c.sources r))
        × (Memᴰ r (process_results ir above_src above_use c).1 ↔ IsReported above_use c.uses r)
  unfolding process_results
  process_results_iff above_src above_use c r =
      let (f, g) = reports_iff above_src c.sources r in
      (
        (λ ty.
            let (f', g') =
              with_src_ty_iff ty r (reports_of above_src c.sources.checked_set c.sources) in
            ((λ m. let (q, mr) = f' m in (q, f mr)), (λ (q, i). g' (q, g i)))),
        reports_iff above_use c.uses r,
      )

  -- From counters in which the unchecks and totals are the values modulo 2 ^ 32 of numbers of which
  -- the first is not greater, no total having reached 2 ^ 32: a report whose counts sum up to less
  -- than 2 ^ 32 has at least one uncheck, at most as many as its total, and no greater total than
  -- counts, so that no rating divides by 0 or is above 1.
  pub process_results_bounds :
      (above_src above_use : ℕ → ℕ → Bool) (c : Counts) (t : IsTallied c)
      → ((k : SrcUse) → ((t k).0.total < 2 ^ 32) × ((t k).1.total < 2 ^ 32))
      → (r : Report)
      → ((ty : SrcTy) × Memᴰ (ty, r) (process_results ir above_src above_use c).0)
        ⊎ Memᴰ r (process_results ir above_src above_use c).1
      → r.checks + r.unchecks < 2 ^ 32
      → (0 < r.unchecks) × (r.unchecks ≤ r.total) × (r.total ≤ r.checks + r.unchecks)
  process_results_bounds above_src above_use c t small r (inl (ty, m)) sum_small =
      let (src, uses) = process_results_iff above_src above_use c r in
      rating_bounds above_src c.sources r (t r.key).0 (small r.key).0 sum_small ((src ty).0 m).1
  process_results_bounds above_src above_use c t small r (inr m) sum_small =
      let (src, uses) = process_results_iff above_src above_use c r in
      rating_bounds above_use c.uses r (t r.key).1 (small r.key).1 sum_small (uses.0 m)
