-- ===== src/MissingChecks/TargetsLaws.antt =====
-- The counting of checks records each under a model of its own key.
use crix.Base.{
  ℕ, ◌≡◌, true, false, ◌||◌, not, Option, none, some, List, [], ◌∷◌, ◌==◌, has, nat_eq, use_eq,
  >>=-eq-some, some_inj, subst, ℤ, Bool-cases, inl, inr, int_beq, negsuc,
}
use crix.Ir.{Ir, Node}
use crix.Ir.Kinds.{null}
use crix.Ir.Calls.{arg_no}
use crix.Context.{Context}
use crix.MissingChecks.Model.{SrcUse, Counts, in_modeled_check_set}
use crix.MissingChecks.ModelLaws.{Recorded, of_source, of_use, in_modeled_check_set_lem}
use crix.DataFlow.Reach.{collect_pred_reach_blocks}
use crix.MissingChecks.Targets.{
  counted_function, count_call, src_check, use_check, count_callers, count_outputs, count_target,
  count_targets, count_uses, count_use, count_called, count_caller, count_output, count_node,
  uses_of_targets, identify_checked_targets, count_for_targets, count_src_use_checks, interesting,
}

module _ (ir : Ir) (ctx : Context) where
  abbrev Records : (Counts → Counts) → Type 0
  Records g = (c : Counts) → Recorded ir c → Recorded ir (g c)

  count_called-Records :
      (add : SrcUse → Counts → Counts) (ci : ℕ) (arg : ℤ) (called : Option ℕ)
      → ((k : SrcUse) → Records (add k))
      → Records (count_called ir ctx add ci arg called)
  unfolding count_called
  count_called-Records add ci arg none keeps c r = r
  count_called-Records add ci arg (some cf) keeps c r =
      elim (Bool-cases (counted_function ir ctx ci cf == null)) [
        | inl gone ↦ rw gone r
        | inr there ↦ rw there (keeps (counted_function ir ctx ci cf, arg) c r)
      ]

  count_call-Records :
      (add : SrcUse → Counts → Counts) (ci : ℕ) (arg : ℤ)
      → ((k : SrcUse) → Records (add k))
      → Records (count_call ir ctx add ci arg)
  unfolding count_call
  count_call-Records add ci arg keeps =
      count_called-Records add ci arg (ir.called_function ci) keeps

  by_source : (sci : ℕ) (k : SrcUse) → Records (src_check ir ctx sci k)
  by_source sci k c r = of_source sci k r

  count_caller-Records :
      (sci : ℕ) (arg : ℤ) (ci : ℕ) (called : Option ℕ)
      → Records (count_caller ir ctx sci arg ci called)
  unfolding count_caller
  count_caller-Records sci arg ci (some cf) c r = r
  count_caller-Records sci arg ci none c r = by_source sci (ci, arg) c r

  count_callers-Records :
      (sci : ℕ) (arg : ℤ) (cis : List ℕ) → Records (count_callers ir ctx sci arg cis)
  unfolding count_callers
  count_callers-Records sci arg [] c r = r
  count_callers-Records sci arg (ci ∷ cis) c r =
      count_callers-Records sci arg cis (count_caller ir ctx sci arg ci (ir.called_function ci) c)
        (count_caller-Records sci arg ci (ir.called_function ci) c r)

  count_output-Records :
      (sci : ℕ) (pred_bbs : List ℕ) (ct u : ℕ) (n : Node)
      → Records (count_output ir ctx sci pred_bbs ct u n)
  unfolding count_output
  count_output-Records sci pred_bbs ct u (Node.call callee args) c r =
      elim (Bool-cases (not (has (ir.parent u) pred_bbs) || int_beq (arg_no ct args) (negsuc 0))) [
        | inl out ↦ rw out r
        | inr inside ↦
            rw inside
              (count_call-Records (src_check ir ctx sci) u (arg_no ct args) (by_source sci) c r)
      ]
  count_output-Records sci pred_bbs ct u _ c r = r

  count_outputs-Records :
      (sci : ℕ) (pred_bbs : List ℕ) (ct : ℕ) (us : List ℕ)
      → Records (count_outputs ir ctx sci pred_bbs ct us)
  unfolding count_outputs
  count_outputs-Records sci pred_bbs ct [] c r = r
  count_outputs-Records sci pred_bbs ct (u ∷ us) c r =
      count_outputs-Records sci pred_bbs ct us (count_output ir ctx sci pred_bbs ct u (ir.node u) c)
        (count_output-Records sci pred_bbs ct u (ir.node u) c r)

  count_node-Records :
      (f sci : ℕ) (pred_bbs : List ℕ) (ct : ℕ) (n : Node)
      → Records (count_node ir ctx f sci pred_bbs ct n)
  unfolding count_node
  count_node-Records f sci pred_bbs ct (Node.argument pf) c r =
      elim (Bool-cases (ir.address_taken f)) [
        | inl is ↦ rw is (count_callers-Records sci (arg_no ct (ir.args f)) (ctx.callers f) c r)
        | inr is_not ↦ rw is_not r
      ]
  count_node-Records f sci pred_bbs ct (Node.call callee args) c r =
      count_call-Records (src_check ir ctx sci) ct (negsuc 0) (by_source sci) c r
  count_node-Records f sci pred_bbs ct _ c r =
      count_outputs-Records sci pred_bbs ct (ir.users ct) c r

  count_target-Records :
      (f sci : ℕ) (pred_bbs : List ℕ) (ct : ℕ) → Records (count_target ir ctx f sci pred_bbs ct)
  unfolding count_target
  count_target-Records f sci pred_bbs ct = count_node-Records f sci pred_bbs ct (ir.node ct)

  count_targets-Records :
      (f sci : ℕ) (pred_bbs cts : List ℕ) → Records (count_targets ir ctx f sci pred_bbs cts)
  unfolding count_targets
  count_targets-Records f sci pred_bbs [] c r = r
  count_targets-Records f sci pred_bbs (ct ∷ cts) c r =
      count_targets-Records f sci pred_bbs cts _ (count_target-Records f sci pred_bbs ct c r)

  count_use-Records : (sci : ℕ) (u : SrcUse) (n : Node) → Records (count_use ir ctx sci u n)
  unfolding count_use
  count_use-Records sci u (Node.call callee args) c r =
      count_call-Records (use_check ir ctx sci) u.0 u.1 (λ k c r. of_use sci k r) c r
  count_use-Records sci u _ c r = r

  count_uses-Records : (sci : ℕ) (us : List SrcUse) → Records (count_uses ir ctx sci us)
  unfolding count_uses
  count_uses-Records sci [] c r = r
  count_uses-Records sci (u ∷ us) c r =
      count_uses-Records sci us (count_use ir ctx sci u (ir.node u.0) c)
        (count_use-Records sci u (ir.node u.0) c r)

  count_for_targets-Records :
      (fuel f sci : ℕ) (cts : List ℕ) (c c' : Counts)
      → Recorded ir c
      → count_for_targets ir ctx fuel f sci cts c ≡ some c'
      → Recorded ir c'
  unfolding count_for_targets
  count_for_targets-Records fuel f sci [] c c' r h = subst (Recorded ir) (some_inj h) r
  count_for_targets-Records fuel f sci (ct ∷ cts) c c' r h =
      let (pred_bbs, e₁, h₁) =
        >>=-eq-some (collect_pred_reach_blocks ir fuel (ir.parent sci) []) _ h in
      let (uses, e₂, h₂) = >>=-eq-some (uses_of_targets ir ctx fuel sci (ct ∷ cts)) _ h₁ in
      subst (Recorded ir) (some_inj h₂)
        (count_uses-Records sci uses _ (count_targets-Records f sci pred_bbs (ct ∷ cts) c r))

  -- Where the checks so far were recorded under models of their own keys, so are those that
  -- countSrcUseChecks adds, if it returns: inModeledCheckSet then accepts any comparison for the keys
  -- of the checked sets, and for no other.
  pub count_src_use_checks_lem :
      (fuel f sci : ℕ) (c c' : Counts)
      → Recorded ir c
      → count_src_use_checks ir ctx fuel f sci c ≡ some c'
      → Recorded ir c'
        × ((cmp : ℕ) (k : SrcUse)
            → (in_modeled_check_set ir cmp k true c' ≡ has k c'.sources.checked_set)
              × (in_modeled_check_set ir cmp k false c' ≡ has k c'.uses.checked_set))
  unfolding count_src_use_checks
  count_src_use_checks_lem fuel f sci c c' r h =
      let (tmp_set, e, h₁) = >>=-eq-some (identify_checked_targets ir ctx fuel sci []) _ h in
      let r' = count_for_targets-Records fuel f sci (interesting ir ctx tmp_set) c c' r h₁ in
      (r', λ cmp k. in_modeled_check_set_lem ir cmp k c' r')
