-- ===== src/MissingChecks/Results.antt =====
-- processResults of MissingChecks.cc: which sources and uses are reported as missing a check.
use crix.Base.{
  ℕ, ◌+◌, ◌%◌, ◌^◌, Bool, true, false, ◌||◌, Option, none, some, List, [], ◌∷◌, if◌then◌else◌, ◌==◌,
  ltb, negsuc, int_beq, use_eq, find, read,
}
use crix.Ir.{Ir, Node}
use crix.MissingChecks.Model.{SrcUse, Side, Counts}

-- SrcTy: "retval", "argmt" or "param".
pub data SrcTy : Type 0 where
  retval argmt param : SrcTy

-- What is printed of a source or use: the key, the figures and the values of its unchecks.
pub record Report : Type 0 where
  pub key : SrcUse
  pub checks : ℕ
  pub unchecks : ℕ
  pub total : ℕ
  pub unchecked : List ℕ

-- Checks and Total, which stay 0 for a key without a check count.
unfoldable pub checks_of : SrcUse → Side → ℕ × ℕ
unfolding find
checks_of k s = elim (find k s.check_count) [ some n ↦ (n, read 0 k s.total_count) | none ↦ (0, 0) ]

-- Total, after `if (Checks + Unchecks < Total)` on unsigned numbers.
unfoldable pub bounded_total : ℕ → ℕ → ℕ → ℕ
bounded_total checks unchecks total =
    let both = (checks + unchecks) % 2 ^ 32 in if ltb both total then both else total

-- `above unchecks total` is the comparison of (float)Unchecks/Total with the threshold of the side.
module _ (above : ℕ → ℕ → Bool) where
  -- The turn of a loop for one key.
  unfoldable pub report_of : SrcUse → Side → Option Report
  unfolding checks_of bounded_total find
  report_of k s =
      let (checks, counted) = checks_of k s in
      let unchecks = read 0 k s.uncheck_count in
      let total = bounded_total checks unchecks counted in
      if checks == 0 || unchecks == 0
      then none
      else if above unchecks total
      then none
      else some (record {
        key = k;
        checks = checks;
        unchecks = unchecks;
        total = total;
        unchecked = read [] k s.unchecks_map;
      })

  unfoldable pub reports_of : List SrcUse → Side → List Report
  unfolding report_of
  reports_of [] s = []
  reports_of (k ∷ ks) s =
      let rest = reports_of ks s in elim (report_of k s) [ some r ↦ r ∷ rest | none ↦ rest ]

module _ (ir : Ir) where
  unfoldable pub src_ty : SrcUse → SrcTy
  src_ty k = elim (int_beq k.1 (negsuc 0)) [
    | true ↦ retval
    | false ↦ elim (ir.node k.0) [ Node.call callee args ↦ argmt | _ ↦ param ]
  ]

  abbrev pub with_src_ty : List Report → List (SrcTy × Report)
  with_src_ty [] = []
  with_src_ty (r ∷ rs) = (src_ty r.key, r) ∷ with_src_ty rs

  -- The reports of the sources and those of the uses, with the two comparisons.
  unfoldable pub process_results :
      (ℕ → ℕ → Bool) → (ℕ → ℕ → Bool) → Counts → List (SrcTy × Report) × List Report
  unfolding reports_of src_ty
  process_results above_src above_use c = (
    with_src_ty (reports_of above_src c.sources.checked_set c.sources),
    reports_of above_use c.uses.checked_set c.uses,
  )
