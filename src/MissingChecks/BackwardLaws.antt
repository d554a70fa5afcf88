-- ===== src/MissingChecks/BackwardLaws.antt =====
-- What it means that isCheckedBackward finds a check.
use crix.Base.{
  ℕ, zero, suc, ◌≤◌, ◌≡◌, refl, Bool, true, false, ◌||◌, not, some, List, [], ◌∷◌, Memᴰ, All,
  All-map, All-intro, has, nat_eq, if◌then◌else◌, ◌==◌, ltb, Bool-cases, inl, inr, >>=-eq-some,
  some_inj, subst, Option-cases, arith, ◌⊎◌,
}
use crix.Ir.{Ir, Node}
use crix.Ir.Kinds.{null, is_instruction}
use crix.Ir.Calls.{arg_steps}
use crix.Context.{Context}
use crix.Walk.{Trace, Act, note, visits, notes}
use crix.Walk.Rules.{walk_inv}
use crix.DataFlow.Reach.{collect_pred_reach_blocks}
use crix.MissingChecks.Model.{SrcUse, Counts}
use crix.MissingChecks.Forward.{Hit, hit, check_it, is_found}
use crix.MissingChecks.Backward.{
  Item, value_of, is_backward_check, any_user_checks, backward_node, argument_of, caller_acts,
  callers_of_argument, backward_plan, backward_acts, is_checked_backward,
}
use crix.MissingChecks.BackwardSteps.{
  StepsTo, to_caller, Steps, backward_node-Steps, backward_node-quiet,
}

module _ (ir : Ir) (ctx : Context) (counts : Counts) (fuel : ℕ) where
  -- The plan of an item: steps back, and no addition, unless a user of its value checks it.
  abbrev Quiet : Item → List (Act Item Hit) → Type 0
  Quiet i acts = Steps ir ctx counts fuel i acts × (notes acts ≡ [])

  caller_acts-Quiet :
      (i : Item) (pf n : ℕ) (cis : List ℕ) (acts : List (Act Item Hit))
      → ir.node i.value ≡ Node.argument pf
      → arg_steps i.value (ir.args i.function) ≡ suc n
      → ((ci : ℕ) → Memᴰ ci cis → Memᴰ ci (ctx.callers pf))
      → caller_acts ir ctx counts fuel i n cis ≡ some acts
      → Quiet i acts
  unfolding caller_acts
  caller_acts-Quiet i pf n [] acts e k sub h = subst (Quiet i) (some_inj h) (tt, refl)
  caller_acts-Quiet i pf n (ci ∷ cis) acts e k sub h =
      let (rest, e₁, h₁) = >>=-eq-some (caller_acts ir ctx counts fuel i n cis) _ h in
      let (scope, e₂, h₂) =
        >>=-eq-some (collect_pred_reach_blocks ir fuel (ir.parent ci) []) _ h₁ in
      let (steps, quiet) = caller_acts-Quiet i pf n cis rest e k (λ c m. sub c (Memᴰ.tail m)) e₁ in
      elim (Option-cases (argument_of ir ctx counts n ci)) [
        | inl gone ↦ subst (Quiet i) (some_inj (rw gone at h₂)) (steps, quiet)
        | inr (arg, there) ↦
            subst (Quiet i) (some_inj (rw there at h₂))
              ((to_caller pf ci n arg scope e (sub ci (Memᴰ.head refl)) k there e₂, steps), quiet)
      ]

  callers_of_argument-Quiet :
      (i : Item) (pf : ℕ) (acts : List (Act Item Hit))
      → ir.node i.value ≡ Node.argument pf
      → callers_of_argument ir ctx counts fuel i pf ≡ some acts
      → Quiet i acts
  callers_of_argument-Quiet i pf acts e h = by_steps (arg_steps i.value (ir.args i.function)) refl
    where
      by_steps : (n : ℕ) → arg_steps i.value (ir.args i.function) ≡ n → Quiet i acts
      by_steps zero k = subst (Quiet i) (some_inj (rw (k, callers_of_argument) at h)) (tt, refl)
      by_steps (suc n) k = elim (Bool-cases (pf == null)) [
        | inl nil ↦
            subst (Quiet i) (some_inj (rw nil at (rw (k, callers_of_argument) at h))) (tt, refl)
        | inr there ↦
            caller_acts-Quiet i pf n (ctx.callers pf) acts e k (λ ci m. m)
              (rw there at (rw (k, callers_of_argument) at h))
      ]

  -- A user in the scope that checks the value of an item.
  pub record IsCheckedBy (use' : SrcUse) (i : Item) (u : ℕ) : Type 0 where
    pub uses : Memᴰ u (ir.users i.value)
    pub is_in : is_instruction ir u ≡ true
    pub in_scope : has (ir.parent u) i.scope ≡ true
    pub checks : is_backward_check ir ctx counts i.function use' u (ir.node u) ≡ true

  any_user_checks-inv :
      (f : ℕ) (use' : SrcUse) (scope us : List ℕ)
      → any_user_checks ir ctx counts f use' scope us ≡ true
      → (u : ℕ) × Memᴰ u us
        × (is_instruction ir u ≡ true)
        × (has (ir.parent u) scope ≡ true)
        × (is_backward_check ir ctx counts f use' u (ir.node u) ≡ true)
  unfolding any_user_checks
  any_user_checks-inv f use' scope [] h = absurd (cc)
  any_user_checks-inv f use' scope (u ∷ us) h =
      elim (Bool-cases (not (is_instruction ir u) || not (has (ir.parent u) scope))) [
        | inl out ↦
            let (w, m, a, b, c) =
              any_user_checks-inv f use' scope us (rw (out, any_user_checks) at h) in
            (w, Memᴰ.tail m, a, b, c)
        | inr inside ↦ elim (Bool-cases (is_backward_check ir ctx counts f use' u (ir.node u))) [
          | inl checks ↦ (u, Memᴰ.head refl, ground arith, ground arith, checks)
          | inr idle ↦
              let (w, m, a, b, c) =
                any_user_checks-inv f use' scope us
                  (rw idle at (rw (inside, any_user_checks) at h)) in
              (w, Memᴰ.tail m, a, b, c)
        ]
      ]

  -- A user checks the value of the item, at a depth of at most 5.
  abbrev pub IsFound : SrcUse → Item → Type 0
  IsFound use' i = (u : ℕ) × IsCheckedBy use' i u × (i.depth ≤ 5)

  abbrev Plan : SrcUse → Item → List (Act Item Hit) → Type 0
  Plan use' i acts = Steps ir ctx counts fuel i acts × ((notes acts ≡ []) ⊎ IsFound use' i)

  checked-Plan :
      (use' : SrcUse) (i : Item) (n : Node) (acts : List (Act Item Hit))
      → ir.node i.value ≡ n
      → i.depth ≤ 5
      → (if any_user_checks ir ctx counts i.function use' i.scope (ir.users i.value)
          then some (note hit ∷ [])
          else some (backward_node ir ctx counts i n))
        ≡ some acts
      → Plan use' i acts
  checked-Plan use' i n acts e shallow h =
      elim (Bool-cases (any_user_checks ir ctx counts i.function use' i.scope (ir.users i.value))) [
        | inl some_check ↦
            let (u, m, is_in, in_scope, checks) =
              any_user_checks-inv i.function use' i.scope (ir.users i.value) some_check in
            subst (Plan use' i) (some_inj (rw some_check at h)) (
              tt,
              inr (
                u,
                record { uses = m; is_in = is_in; in_scope = in_scope; checks = checks },
                shallow,
              ),
            )
        | inr no_check ↦ subst (Plan use' i) (some_inj (rw no_check at h)) (
          backward_node-Steps ir ctx counts fuel i n e,
          inl (backward_node-quiet ir ctx counts fuel i n),
        )
      ]

  backward_plan-Plan :
      (use' : SrcUse) (i : Item) (n : Node) (acts : List (Act Item Hit))
      → ir.node i.value ≡ n
      → i.depth ≤ 5
      → backward_plan ir ctx counts fuel use' i n ≡ some acts
      → Plan use' i acts
  unfolding backward_plan
  backward_plan-Plan use' i (Node.argument pf) acts e shallow h =
      let (steps, quiet) = callers_of_argument-Quiet i pf acts e h in (steps, inl quiet)
  backward_plan-Plan use' i n acts e shallow h = checked-Plan use' i n acts e shallow h

  pub backward_acts-Plan :
      (use' : SrcUse) (i : Item) (acts : List (Act Item Hit))
      → backward_acts ir ctx counts fuel use' i ≡ some acts
      → Plan use' i acts
  unfolding backward_acts
  backward_acts-Plan use' i acts h = elim (Bool-cases (ltb 5 i.depth)) [
    | inl deep ↦ subst (Plan use' i) (some_inj (rw deep at h)) (tt, inl refl)
    | inr shallow ↦
        backward_plan-Plan use' i (ir.node i.value) acts refl (ground arith) (rw shallow at h)
  ]

  -- Where the tracking from an item gets, step by step.
  pub data ComesFrom (i : Item) : Item → Type 0 where
    start : ComesFrom i i
    next : {j k : Item} → ComesFrom i j → StepsTo ir ctx counts fuel j k → ComesFrom i k

  -- If isCheckedBackward, from isChecked unset, sets it: the value, or one that it comes from in steps
  -- back through operands, through memory and to what callers pass, has a user in its scope that is a
  -- modelled comparison, a switch or a known check, at a depth of at most 5.
  pub is_checked_backward_sound :
      (use' : SrcUse) (i : Item) (t r : Trace Bool)
      → t.acc ≡ false
      → is_checked_backward ir ctx counts fuel use' i t ≡ some r
      → r.acc ≡ true
      → (j : Item) × ComesFrom i j × IsFound use' j
  unfolding is_checked_backward
  is_checked_backward_sound use' i t r unset h is_set =
      walk_inv value_of check_it is_found (backward_acts ir ctx counts fuel use') (ComesFrom i)
        (λ b. b ≡ true → Goal) (record { stays = stays; adds = adds }) fuel i t r start
        (λ e. absurd (cc)) h is_set
    where
      Goal : Type 0
      Goal = (j : Item) × ComesFrom i j × IsFound use' j

      stays :
          (j : Item) (acts : List (Act Item Hit))
          → ComesFrom i j
          → backward_acts ir ctx counts fuel use' j ≡ some acts
          → All (ComesFrom i) (visits acts)
      stays j acts c e =
          All-map (λ k s. next c s) (visits acts) (backward_acts-Plan use' j acts e).0

      adds :
          (j : Item) (acts : List (Act Item Hit))
          → ComesFrom i j
          → backward_acts ir ctx counts fuel use' j ≡ some acts
          → All (λ n. (b : Bool) → (b ≡ true → Goal) → check_it n b ≡ true → Goal) (notes acts)
      adds j acts c e = elim (backward_acts-Plan use' j acts e).1 [
        | inl quiet ↦ rw quiet tt
        | inr found ↦ All-intro _ (notes acts) (λ n m b p k. (j, c, found))
      ]
