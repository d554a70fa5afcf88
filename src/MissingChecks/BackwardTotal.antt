-- ===== src/MissingChecks/BackwardTotal.antt =====
-- isCheckedBackward ends.
use crix.Base.{
  ℕ, zero, suc, ◌<◌, ◌≡◌, refl, sym, subst, Bool, some, List, [], ◌∷◌, Memᴰ, All, All-mem, All-map,
  nat_eq, ◌==◌, ltb, Ends, Ends-bind, Ends-if, Ends-some, get_elem?, some_inj,
}
use crix.Ir.{Ir, Node}
use crix.Ir.Kinds.{null}
use crix.Ir.Calls.{arg_steps}
use crix.Context.{Context}
use crix.Walk.{Trace, visits}
use crix.Walk.Total.{untracked, walk_total}
use crix.DataFlow.Reach.{collect_pred_reach_blocks}
use crix.DataFlow.ReachLaws.{collect_reach_blocks_return}
use crix.MissingChecks.Model.{SrcUse, Counts}
use crix.MissingChecks.Forward.{check_it, is_found}
use crix.MissingChecks.Backward.{
  Item, value_of, any_user_checks, argument_of, caller_acts, callers_of_argument, backward_plan,
  backward_acts, is_checked_backward,
}
use crix.MissingChecks.BackwardSteps.{data_operands, moved, HasSource, StepsTo}
use crix.MissingChecks.BackwardLaws.{backward_acts-Plan}

abbrev pub passed : Node → List ℕ
passed (Node.call callee args) = args
passed _ = []

-- Values that operands, accesses and arguments of calls stay in, and blocks with the callers and closed
-- under edges.
pub record IsClosedProgram (ir : Ir) (ctx : Context) (values places : List ℕ) : Type 0 where
  pub operands : (v : ℕ) → All (λ w. Memᴰ w values) (data_operands (ir.node v))
  pub accesses :
      (a su : ℕ) → Memᴰ su (ir.users a) → All (λ w. Memᴰ w values) (moved su (ir.node su))
  pub arguments : (ci : ℕ) → All (λ w. Memᴰ w values) (passed (ir.node ci))
  pub parents : (f : ℕ) → All (λ ci. Memᴰ (ir.parent ci) places) (ctx.callers f)
  pub edges :
      (b : ℕ)
      → Memᴰ b places
      → All (λ c. Memᴰ c places) (ir.succs b) × All (λ c. Memᴰ c places) (ir.preds b)

get_elem?-Memᴰ : (xs : List ℕ) (n x : ℕ) → get_elem? xs n ≡ some x → Memᴰ x xs
get_elem?-Memᴰ [] n x e = absurd (cc)
get_elem?-Memᴰ (y ∷ xs) zero x e = Memᴰ.head (sym (some_inj e))
get_elem?-Memᴰ (y ∷ xs) (suc n) x e = Memᴰ.tail (get_elem?-Memᴰ xs n x e)

module _ (ir : Ir) (ctx : Context) (counts : Counts) (fuel : ℕ) (values places : List ℕ)
    (closed : IsClosedProgram ir ctx values places)
    (enough_places : untracked [] places < fuel) where
  abbrev In : Item → Type 0
  In i = Memᴰ i.value values

  HasSource-In :
      (i : Item) (n : Node) (w : ℕ)
      → ir.node i.value ≡ n
      → HasSource ir ctx counts fuel i n w
      → Memᴰ w values
  HasSource-In i n w e (HasSource.of_operand m) =
      All-mem (λ w. Memᴰ w values) (data_operands n)
        (subst (λ n. All (λ w. Memᴰ w values) (data_operands n)) e (closed.operands i.value)) m
  HasSource-In i _ w e (HasSource.of_memory a su ma mu is_in in_scope m) =
      All-mem (λ w. Memᴰ w values) (moved su (ir.node su)) (closed.accesses a su mu) m

  argument-In : (n ci arg : ℕ) → argument_of ir ctx counts n ci ≡ some arg → Memᴰ arg values
  argument-In n ci arg e = by_node (ir.node ci) refl
    where
      by_node : (k : Node) → ir.node ci ≡ k → Memᴰ arg values
      by_node (Node.call callee args) q =
          All-mem (λ w. Memᴰ w values) args
            (subst (λ n. All (λ w. Memᴰ w values) (passed n)) q (closed.arguments ci))
            (get_elem?-Memᴰ args n arg (rw (q, argument_of) at e))
      by_node _ q = absurd (cc (rw (q, argument_of) at e))

  StepsTo-In : (i j : Item) → StepsTo ir ctx counts fuel i j → In j
  StepsTo-In i _ (StepsTo.to_source w s) = HasSource-In i (ir.node i.value) w refl s
  StepsTo-In i _ (StepsTo.to_caller pf ci n arg scope e m k there c) = argument-In n ci arg there

  caller_acts-Ends :
      (i : Item) (n : ℕ) (cis : List ℕ)
      → All (λ ci. Memᴰ (ir.parent ci) places) cis
      → Ends (caller_acts ir ctx counts fuel i n cis)
  unfolding caller_acts
  caller_acts-Ends i n [] h = Ends-some []
  caller_acts-Ends i n (ci ∷ cis) h =
      Ends-bind (caller_acts ir ctx counts fuel i n cis) _ (caller_acts-Ends i n cis h.1) (λ rest.
        Ends-bind (collect_pred_reach_blocks ir fuel (ir.parent ci) []) _
          (collect_reach_blocks_return ir places fuel (ir.parent ci) [] closed.edges h.0
            enough_places).1
          (λ scope. Ends-some _))

  callers_of_argument-Ends :
      (i : Item) (pf : ℕ) → Ends (callers_of_argument ir ctx counts fuel i pf)
  callers_of_argument-Ends i pf = by_steps (arg_steps i.value (ir.args i.function)) refl
    where
      by_steps :
          (n : ℕ)
          → arg_steps i.value (ir.args i.function) ≡ n
          → Ends (callers_of_argument ir ctx counts fuel i pf)
      by_steps zero k = rw (k, callers_of_argument) (Ends-some [])
      by_steps (suc n) k =
          rw (k, callers_of_argument)
            (Ends-if (pf == null) (Ends-some [])
              (caller_acts-Ends i n (ctx.callers pf) (closed.parents pf)))

  backward_plan-Ends :
      (use' : SrcUse) (i : Item) (n : Node) → Ends (backward_plan ir ctx counts fuel use' i n)
  unfolding backward_plan
  backward_plan-Ends use' i (Node.argument pf) = callers_of_argument-Ends i pf
  backward_plan-Ends use' i _ =
      Ends-if (any_user_checks ir ctx counts i.function use' i.scope (ir.users i.value))
        (Ends-some _) (Ends-some _)

  -- With more fuel than there are blocks, and than the values that VSet lacks, isCheckedBackward
  -- returns for each of the values, in any function, scope and depth, from any VSet and isChecked.
  pub is_checked_backward_total :
      (use' : SrcUse) (i : Item) (t : Trace Bool)
      → Memᴰ i.value values
      → untracked t.seen values < fuel
      → (r : Trace Bool) × (is_checked_backward ir ctx counts fuel use' i t ≡ some r)
  unfolding is_checked_backward backward_acts
  is_checked_backward_total use' i t inside enough =
      let (r, e, grow) =
        walk_total value_of check_it is_found (backward_acts ir ctx counts fuel use') values In
          (λ j h.
            let (acts, e) =
              Ends-if (ltb 5 j.depth) (Ends-some [])
                (backward_plan-Ends use' j (ir.node j.value)) in
            (
              h,
              (
                acts,
                e,
                All-map (λ k s. StepsTo-In j k s) (visits acts)
                    (backward_acts-Plan ir ctx counts fuel use' j acts e).0,
              ),
            ))
          fuel i t enough inside in
      (r, e)
