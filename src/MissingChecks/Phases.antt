-- ===== src/MissingChecks/Phases.antt =====
-- The counters that the two stages of the run leave.
use crix.Base.{
  ℕ, suc, ◌≡◌, refl, sym, ◌∙◌, ap, true, false, some, List, [], ◌∷◌, if◌then◌else◌, ◌==◌, ltb,
  length, has, nat_eq, use_eq, subst, some_inj, >>=-eq-some, for_each_inv, Bool, arith, find, read,
}
use crix.Ir.{Ir}
use crix.Context.{Context}
use crix.Analyzer.{run}
use crix.SecurityChecks.Identify.{max_blocks_support}
use crix.MissingChecks.Model.{
  SrcUse, ModelSc, Side, Counts, no_counts, add_check, add_src_check, add_use_check, add_uncheck,
  add_src_uncheck, add_use_uncheck, in_modeled_check_set, has_model, model_check,
}
use crix.MissingChecks.ModelLaws.{Recorded, start, in_modeled_check_set_lem}
use crix.MissingChecks.Keeps.{Keeps, Keeps-if, Keeps-unless, Keeps-each}
use crix.MissingChecks.Tallies.{Tally, IsTallied}
use crix.MissingChecks.Targets.{count_src_use_checks}
use crix.MissingChecks.TargetsLaws.{count_src_use_checks_lem}
use crix.MissingChecks.Unchecks.{count_src, count_use_of, count_src_use_unchecks}
use crix.MissingChecks.UnchecksLaws.{count_src_use_unchecks-Keeps, count_src_use_unchecks-IsTallied}
use crix.MissingChecks.Stages.{
  State, do_initialization, do_finalization, is_cmp, count_check, stage_body, stage_function,
  stage_module, stage_modules, do_module_pass,
}
use crix.MissingChecks.StagesLaws.{run_lem}

-- Nothing is counted as unchecked.
pub record IsFresh (s : Side) : Type 0 where
  pub no_uncheck : s.uncheck_count ≡ []
  pub no_total : s.total_count ≡ []
  pub no_values : s.unchecks_map ≡ []

IsFresh-start : IsFresh no_counts.sources
IsFresh-start = record { no_uncheck = refl; no_total = refl; no_values = refl }

IsFresh-add : (k : SrcUse) (msc : ModelSc) (s : Side) → IsFresh s → IsFresh (add_check k msc s)
unfolding add_check
IsFresh-add k msc s h = record {
  no_uncheck = h.no_uncheck;
  no_total = h.no_total;
  no_values = h.no_values;
}

Recorded-IsFresh : (ir : Ir) {c : Counts} → Recorded ir c → IsFresh c.sources × IsFresh c.uses
unfolding add_src_check add_use_check
Recorded-IsFresh ir Recorded.start = (IsFresh-start, IsFresh-start)
Recorded-IsFresh ir (Recorded.of_source {c} cmp k r) =
    let (f, g) = Recorded-IsFresh ir r in (IsFresh-add k _ c.sources f, g)
Recorded-IsFresh ir (Recorded.of_use {c} cmp k r) =
    let (f, g) = Recorded-IsFresh ir r in (f, IsFresh-add k _ c.uses g)

IsFresh-Tally : (s : Side) (k : SrcUse) → IsFresh s → Tally s k
unfolding find
IsFresh-Tally s k h = record {
  unchecks = 0;
  total = 0;
  bounded = omega arith;
  unchecks_eq = rw h.no_uncheck (omega arith);
  total_eq = rw h.no_total (omega arith);
}

-- The checks of a side, and of both: which keys are checked, how often, and by what models.
abbrev pub side_checks : Side → List SrcUse × List (SrcUse × ℕ) × List (SrcUse × List ModelSc)
side_checks s = (s.checked_set, s.check_count, s.checks_map)

abbrev pub SameChecks : Counts → Counts → Type 0
SameChecks c c' =
    (side_checks c'.sources ≡ side_checks c.sources) × (side_checks c'.uses ≡ side_checks c.uses)

SameChecks-src :
    (c₁ : Counts) (k : SrcUse) (v : ℕ) (b : Bool) (c : Counts)
    → SameChecks c₁ c
    → SameChecks c₁ (count_src k v b c)
unfolding count_src add_src_uncheck add_uncheck
SameChecks-src c₁ k v true c h = h
SameChecks-src c₁ k v false c h = h

SameChecks-use :
    (c₁ : Counts) (k : SrcUse) (v : ℕ) (b : Bool) (c : Counts)
    → SameChecks c₁ c
    → SameChecks c₁ (count_use_of k v b c)
unfolding count_use_of add_use_uncheck add_uncheck
SameChecks-use c₁ k v true c h = h
SameChecks-use c₁ k v false c h = h

same-in_modeled_check_set :
    (ir : Ir) (c c' : Counts)
    → Recorded ir c
    → SameChecks c c'
    → (cmp : ℕ) (k : SrcUse)
    → (in_modeled_check_set ir cmp k true c' ≡ has k c.sources.checked_set)
      × (in_modeled_check_set ir cmp k false c' ≡ has k c.uses.checked_set)
unfolding in_modeled_check_set
same-in_modeled_check_set ir c c' r (src, uses) cmp k =
    let (a, b) = in_modeled_check_set_lem ir cmp k c r in
    let models = λ (p : List SrcUse × List (SrcUse × ℕ) × List (SrcUse × List ModelSc)).
      has_model (model_check ir cmp k) (read [] k p.2) in
    (ap models src ∙ a, ap models uses ∙ b)

module _ (ir : Ir) (ctx : Context) (fuel : ℕ) where
  stage_modules-Keeps :
      (P : Counts → Type 0) (stage : ℕ)
      → ((f : ℕ) → Keeps P (stage_body ir ctx fuel stage f))
      → (ms : List (List ℕ)) → Keeps P (stage_modules ir ctx fuel stage ms)
  unfolding stage_function
  stage_modules-Keeps P stage keeps ms =
      for_each_inv P (stage_module ir ctx fuel stage)
        (λ m.
          Keeps-each P (stage_function ir ctx fuel stage)
            (λ f.
              Keeps-unless P
                (λ c.
                  if ltb max_blocks_support (length (ir.blocks f))
                  then some c
                  else if has f ctx.unified_func_set
                  then stage_body ir ctx fuel stage f c
                  else some c)
                (length (ir.blocks f) == 0)
                (Keeps-unless P
                  (λ c.
                    if has f ctx.unified_func_set then stage_body ir ctx fuel stage f c else some c)
                  (ltb max_blocks_support (length (ir.blocks f)))
                  (Keeps-if P (stage_body ir ctx fuel stage f) (has f ctx.unified_func_set)
                    (keeps f))))
            m)
        ms

  stage_body-Recorded : (f : ℕ) → Keeps (Recorded ir) (stage_body ir ctx fuel 1 f)
  unfolding stage_body count_check
  stage_body-Recorded f =
      Keeps-each (Recorded ir) (count_check ir ctx fuel f)
        (λ sc.
          Keeps-if (Recorded ir) (count_src_use_checks ir ctx fuel f sc) (is_cmp (ir.node sc))
            (λ c c' r e. (count_src_use_checks_lem ir ctx fuel f sc c c' r e).0))
        (ctx.check_inst_sets f)

  first_stage : (ms : List (List ℕ)) → Keeps (Recorded ir) (stage_modules ir ctx fuel 1 ms)
  first_stage = stage_modules-Keeps (Recorded ir) 1 stage_body-Recorded

  second_stage :
      (P : Counts → Type 0)
      → ((f : ℕ) → Keeps P (count_src_use_unchecks ir ctx fuel f))
      → (ms : List (List ℕ)) → Keeps P (stage_modules ir ctx fuel 2 ms)
  unfolding stage_body
  second_stage P keeps = stage_modules-Keeps P 2 keeps

  -- A run of the pass from stage 1 without counters that returns: in stage 1 it only records checks,
  -- and in stage 2, which begins with counters `c₁`, it leaves the checks as they are. At its end
  -- inModeledCheckSet accepts any comparison exactly for the keys of the checked sets of `c₁`, and
  -- for every source and use the unchecks and the total are the values modulo 2 ^ 32 of two numbers
  -- of which the first is not greater.
  pub run_phases :
      (f : ℕ) (m : List ℕ) (ms : List (List ℕ)) (s : State)
      → run
          (suc (suc f))
          do_initialization
          (do_module_pass ir ctx fuel (length (m ∷ ms)))
          do_finalization
          (m ∷ ms)
          (record { stage = 1; midx = 0; counts = no_counts })
        ≡ some s
      → (c₁ : Counts) × (stage_modules ir ctx fuel 1 (m ∷ ms) no_counts ≡ some c₁)
        × (IsFresh c₁.sources × IsFresh c₁.uses)
        × SameChecks c₁ s.counts
        × ((cmp : ℕ) (k : SrcUse)
            → (in_modeled_check_set ir cmp k true s.counts ≡ has k c₁.sources.checked_set)
              × (in_modeled_check_set ir cmp k false s.counts ≡ has k c₁.uses.checked_set))
        × IsTallied s.counts
  run_phases f m ms s e =
      let (c₁, e₁, q₁) =
        >>=-eq-some (stage_modules ir ctx fuel 1 (m ∷ ms) no_counts) _
          (sym (run_lem ir ctx fuel f m ms no_counts) ∙ e) in
      let (c₂, e₂, q₂) = >>=-eq-some (stage_modules ir ctx fuel 2 (m ∷ ms) c₁) _ q₁ in
      let q : c₂ ≡ s.counts = ap (λ t. t.counts) (some_inj q₂) in
      let r = first_stage (m ∷ ms) no_counts c₁ start e₁ in
      let (fs, fu) = Recorded-IsFresh ir r in
      let same : SameChecks c₁ s.counts = subst (SameChecks c₁) q (
        second_stage (SameChecks c₁)
          (count_src_use_unchecks-Keeps ir ctx fuel (SameChecks c₁) (SameChecks-src c₁)
            (SameChecks-use c₁))
          (m ∷ ms) c₁ c₂ (refl, refl) e₂) in
      (
        c₁,
        e₁,
        (fs, fu),
        same,
        same-in_modeled_check_set ir c₁ s.counts r same,
        subst IsTallied q (
            second_stage IsTallied (count_src_use_unchecks-IsTallied ir ctx fuel) (m ∷ ms) c₁ c₂
              (λ k. (IsFresh-Tally c₁.sources k fs, IsFresh-Tally c₁.uses k fu)) e₂),
      )
