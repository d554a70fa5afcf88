-- ===== src/Tests/Results.antt =====
-- A source that is checked nine times out of ten, and its report.
use crix.Base.{
  ℕ, ◌+◌, ◌*◌, ◌≤◌, ◌<◌, ◌≡◌, ◌↔◌, refl, Bool, [], ◌∷◌, Memᴰ, negsuc, ltb, if◌then◌else◌, use_beq,
  arith, find, inl,
}
use crix.Tests.Sample.{f_ir}
use crix.MissingChecks.Model.{SrcUse, Counts, no_side}
use crix.MissingChecks.Tallies.{IsTallied}
use crix.MissingChecks.Results.{SrcTy, retval, Report, src_ty, process_results}
use crix.MissingChecks.ReportLaws.{IsReported}
use crix.MissingChecks.ResultsLaws.{process_results_iff, process_results_bounds}

abbrev of_60 : SrcUse
of_60 = (60, negsuc 0)

abbrev rare_counts : Counts
rare_counts = record {
  sources = record no_side {
    check_count = (of_60, 9) ∷ [];
    uncheck_count = (of_60, 1) ∷ [];
    total_count = (of_60, 10) ∷ [];
    checked_set = of_60 ∷ [];
    unchecks_map = (of_60, 51 ∷ []) ∷ [];
  };
  uses = no_side;
}

-- Thresholds of 0.3 and 0.1.
abbrev above_3 : ℕ → ℕ → Bool
above_3 unchecks total = ltb (3 * total) (10 * unchecks)

abbrev above_1 : ℕ → ℕ → Bool
above_1 unchecks total = ltb total (10 * unchecks)

abbrev rare_report : Report
rare_report = record { key = of_60; checks = 9; unchecks = 1; total = 10; unchecked = 51 ∷ [] }

rare_reported : Memᴰ (retval, rare_report) (process_results f_ir above_3 above_1 rare_counts).0
unfolding process_results
rare_reported = Memᴰ.head refl

process_results_iff_example :
    ((ty : SrcTy)
      → Memᴰ (ty, rare_report) (process_results f_ir above_3 above_1 rare_counts).0
        ↔ ((ty ≡ src_ty f_ir of_60) × IsReported above_3 rare_counts.sources rare_report))
    × (Memᴰ rare_report (process_results f_ir above_3 above_1 rare_counts).1
        ↔ IsReported above_1 rare_counts.uses rare_report)
process_results_iff_example = process_results_iff f_ir above_3 above_1 rare_counts rare_report

rare_counts-IsTallied : IsTallied rare_counts
unfolding find
rare_counts-IsTallied k = (
  record {
    unchecks = if use_beq k of_60 then 1 else 0;
    total = if use_beq k of_60 then 10 else 0;
    bounded = ground arith;
    unchecks_eq = ground arith;
    total_eq = ground arith;
  },
  record { unchecks = 0; total = 0; bounded = omega arith; unchecks_eq = refl; total_eq = refl },
)

process_results_bounds_example : (0 < 1) × (1 ≤ 10) × (10 ≤ 9 + 1)
unfolding rare_counts-IsTallied
process_results_bounds_example =
    process_results_bounds f_ir above_3 above_1 rare_counts rare_counts-IsTallied
      (λ k. (ground arith, omega arith)) rare_report (inl (retval, rare_reported)) (omega arith)
