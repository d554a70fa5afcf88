-- ===== src/MissingChecks/ReportLaws.antt =====
-- Which keys the loops of processResults report.
use mathlib.Core.List.Memᴰ
use crix.Base.{
  ℕ, ◌≡◌, ◌≢◌, ◌↔◌, refl, sym, ap, ◌∙◌, Bool, false, ◌||◌, none, some, List, [], ◌∷◌, Memᴰ,
  Memᴰ-cons, if◌then◌else◌, ◌==◌, use_eq, find, read, arith, Bool-cases, Option-cases, inl, inr,
  subst, some_inj,
}
use crix.MissingChecks.Model.{SrcUse, Side}
use crix.MissingChecks.Results.{Report, checks_of, bounded_total, report_of, reports_of}

-- The figures of a key, reported or not.
abbrev pub figures : SrcUse → Side → Report
figures k s = record {
  key = k;
  checks = read 0 k s.check_count;
  unchecks = read 0 k s.uncheck_count;
  total =
      bounded_total (read 0 k s.check_count) (read 0 k s.uncheck_count) (read 0 k s.total_count);
  unchecked = read [] k s.unchecks_map;
}

not_zero : (a b : ℕ) → (a == 0 || b == 0) ≡ false → (a ≢ 0) × (b ≢ 0)
not_zero a b h = (λ e. ground arith, λ e. ground arith)

some_of : (a b : ℕ) → a ≢ 0 → b ≢ 0 → (a == 0 || b == 0) ≡ false
some_of a b h k = ground arith

module _ (above : ℕ → ℕ → Bool) where
  report_of_lem :
      (k : SrcUse) (s : Side)
      → report_of above k s ≡ (
          if (figures k s).checks == 0 || (figures k s).unchecks == 0
          then none
          else if above (figures k s).unchecks (figures k s).total
          then none
          else some (figures k s))
  unfolding report_of checks_of
  report_of_lem k s = elim (Option-cases (find k s.check_count)) [
    | inl gone ↦ rw (gone, report_of, checks_of) refl
    | inr (n, there) ↦ rw (there, report_of, checks_of) refl
  ]

  -- A report of a key that is checked and, but rarely enough, not checked.
  pub record IsReported (s : Side) (r : Report) : Type 0 where
    pub key_checked : Memᴰ r.key s.checked_set
    pub figured : r ≡ figures r.key s
    pub some_check : r.checks ≢ 0
    pub some_uncheck : r.unchecks ≢ 0
    pub rare : above r.unchecks r.total ≡ false

  report_of-inv :
      (k : SrcUse) (s : Side) (r : Report)
      → report_of above k s ≡ some r
      → (r ≡ figures k s) × (r.checks ≢ 0) × (r.unchecks ≢ 0) × (above r.unchecks r.total ≡ false)
  report_of-inv k s r e =
      let q = sym (report_of_lem k s) ∙ e in
      elim (Bool-cases ((figures k s).checks == 0 || (figures k s).unchecks == 0)) [
        | inl bare ↦ absurd (cc (rw bare at q))
        | inr full ↦ elim (Bool-cases (above (figures k s).unchecks (figures k s).total)) [
          | inl often ↦ absurd (cc (rw often at (rw full at q)))
          | inr rare ↦
              let neither = not_zero (figures k s).checks (figures k s).unchecks full in
              let p : figures k s ≡ r = some_inj (rw rare at (rw full at q)) in
              subst
                (λ x.
                  (x ≡ figures k s)
                  × (x.checks ≢ 0)
                  × (x.unchecks ≢ 0)
                  × (above x.unchecks x.total ≡ false))
                p (refl, neither.0, neither.1, rare)
        ]
      ]

  report_of-IsReported : (s : Side) (r : Report) → IsReported s r → report_of above r.key s ≡ some r
  report_of-IsReported s r i =
      let e = i.figured in
      let full =
        some_of (figures r.key s).checks (figures r.key s).unchecks
          (λ nil. i.some_check (ap (λ x. x.checks) e ∙ nil))
          (λ nil. i.some_uncheck (ap (λ x. x.unchecks) e ∙ nil)) in
      let rare : above (figures r.key s).unchecks (figures r.key s).total ≡ false =
        ap (λ x. above x.unchecks x.total) (sym e) ∙ i.rare in
      report_of_lem r.key s ∙ rw full (rw rare (ap some (sym e)))

  reports_of_iff :
      (ks : List SrcUse) (s : Side) (r : Report)
      → Memᴰ r (reports_of above ks s) ↔ ((k : SrcUse) × Memᴰ k ks × (report_of above k s ≡ some r))
  unfolding reports_of
  reports_of_iff [] s r = ((λ m. absurd (Memᴰ.not-nil m)), λ (k, m, e). absurd (Memᴰ.not-nil m))
  reports_of_iff (k ∷ ks) s r =
      let (f, g) = reports_of_iff ks s r in
      elim (Option-cases (report_of above k s)) [
        | inl none_here ↦
            rw (none_here, reports_of)
              (
                (λ m. let (j, mj, e) = f m in (j, Memᴰ.tail mj, e)),
                (λ (j, mj, e). elim ((Memᴰ-cons j k ks).0 mj) [
                  | inl q ↦ absurd (cc (rw q at e, none_here))
                  | inr mt ↦ g (j, mt, e)
                ]),
              )
        | inr (x, there) ↦
            rw (there, reports_of)
              (
                (λ m. elim ((Memᴰ-cons r x (reports_of above ks s)).0 m) [
                  | inl q ↦ (k, Memᴰ.head refl, there ∙ ap some (sym q))
                  | inr mt ↦ let (j, mj, e) = f mt in (j, Memᴰ.tail mj, e)
                ]),
                (λ (j, mj, e). elim ((Memᴰ-cons j k ks).0 mj) [
                  | inl q ↦ Memᴰ.head (some_inj (sym e ∙ ap (λ i. report_of above i s) q ∙ there))
                  | inr mt ↦ Memᴰ.tail (g (j, mt, e))
                ]),
              )
      ]

  pub reports_iff :
      (s : Side) (r : Report) → Memᴰ r (reports_of above s.checked_set s) ↔ IsReported s r
  reports_iff s r =
      let (f, g) = reports_of_iff s.checked_set s r in
      (
        (λ m.
            let (k, mk, e) = f m in
            let (q, checked, unchecked, rare) = report_of-inv k s r e in
            let same : r.key ≡ k = ap (λ x. x.key) q in
            record {
              key_checked = rw same mk;
              figured = q ∙ ap (λ j. figures j s) (sym same);
              some_check = checked;
              some_uncheck = unchecked;
              rare = rare;
            }),
        (λ i. g (r.key, i.key_checked, report_of-IsReported s r i)),
      )
