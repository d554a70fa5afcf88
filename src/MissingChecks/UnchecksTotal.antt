-- ===== src/MissingChecks/UnchecksTotal.antt =====
-- countSrcUseUnchecks ends.
use crix.Base.{
  ℕ, ◌<◌, ◌≡◌, false, ◌||◌, ◌&&◌, not, Option, none, some, List, [], ◌∷◌, Memᴰ, All, has, nat_eq,
  use_eq, ◌==◌, ltb, Ends, Ends-bind, Ends-if, Ends-some, Ends-for_each, Ends-for_each_in, head?,
  from_option, length, for_each, pos, negsuc,
}
use crix.Ir.{Ir, Node}
use crix.Ir.Kinds.{null, instructions, at_index, get_arg_by_no, has_name}
use crix.Context.{Context}
use crix.Walk.Total.{untracked}
use crix.DataFlow.Reach.{collect_succ_reach_blocks, collect_pred_reach_blocks}
use crix.MissingChecks.Model.{Counts}
use crix.MissingChecks.Backward.{Item, is_checked_backward}
use crix.MissingChecks.BackwardTotal.{passed, is_checked_backward_total}
use crix.MissingChecks.TrackTotal.{
  HoldsProgram, get_elem?-All, argument_to_track-In, loads_to_track-In, track_all-Ends, reach-Ends,
  entry-Memᴰ,
}
use crix.MissingChecks.Unchecks.{
  loads_to_track, track_all, argument_to_track, count_defined_callee, count_callee, count_callees,
  count_direct_source, count_checked_use, count_direct_use, count_parameter, count_return,
  count_direct, count_call_node, count_instruction_node, count_instruction, count_src_use_unchecks,
  skipped_names, erase, is_nil, numbers, both_numbers,
}

module _ (ir : Ir) (ctx : Context) (fuel : ℕ) (values places : List ℕ)
    (holds : HoldsProgram ir ctx values places) (enough_values : untracked [] values < fuel)
    (enough_places : untracked [] places < fuel) where
  abbrev In : ℕ → Type 0
  In v = Memᴰ v values

  abbrev Run : Type 0
  Run = Counts → Option Counts

  abbrev Total : Run → Type 0
  Total g = (c : Counts) → Ends (g c)

  Total-each :
      (body : ℕ → Run) → ((n : ℕ) → Total (body n)) → (ns : List ℕ) → Total (for_each body ns)
  Total-each body h ns c = Ends-for_each body h ns c

  count_defined_callee-Total :
      (f ci n callee : ℕ) → Total (count_defined_callee ir ctx fuel f ci n callee)
  unfolding count_defined_callee get_arg_by_no
  count_defined_callee-Total f ci n callee c =
      Ends-bind (collect_succ_reach_blocks ir fuel (from_option null (head? (ir.blocks callee))) [])
        _
        (reach-Ends ir ctx fuel values places holds enough_values enough_places
          (from_option null (head? (ir.blocks callee)))
          (entry-Memᴰ ir ctx fuel values places holds enough_values enough_places (ir.blocks callee)
            (holds.blocks callee))).0
        (λ reach_bbs.
          Ends-bind
            (track_all ir ctx fuel c f (ci, pos n) reach_bbs
              (argument_to_track ir ctx fuel callee (get_arg_by_no ir callee (pos n)) reach_bbs))
            _
            (track_all-Ends ir ctx fuel values places holds enough_values enough_places c f
              (ci, pos n) reach_bbs
              (argument_to_track ir ctx fuel callee (get_arg_by_no ir callee (pos n)) reach_bbs)
              (argument_to_track-In ir ctx fuel values places holds enough_values enough_places
                callee (get_arg_by_no ir callee (pos n)) reach_bbs
                (get_elem?-All ir ctx fuel values places holds enough_values enough_places
                  (ir.args callee) n (holds.formals callee))))
            (λ b. Ends-some _))

  count_callees-Total : (f ci n : ℕ) → Total (count_callees ir ctx fuel f ci n)
  unfolding count_callees count_callee
  count_callees-Total f ci n c =
      Ends-if (has (ci, pos n) c.sources.checked_set)
        (Total-each (count_callee ir ctx fuel f ci n)
          (λ callee c.
            Ends-if (ltb (length (ir.blocks callee)) 1) (Ends-some c)
              (count_defined_callee-Total f ci n callee c))
          (ctx.callees ci) c)
        (Ends-some c)

  count_direct_source-Total :
      (f ci cf : ℕ) (n : Option ℕ)
      → In ci
      → Memᴰ (ir.parent ci) places
      → Total (count_direct_source ir ctx fuel f ci cf n)
  unfolding count_direct_source
  count_direct_source-Total f ci cf none inside place c =
      Ends-bind (collect_succ_reach_blocks ir fuel (ir.parent ci) []) _
        (reach-Ends ir ctx fuel values places holds enough_values enough_places (ir.parent ci)
          place).0
        (λ reach_bbs.
          Ends-bind (track_all ir ctx fuel c f (cf, negsuc 0) reach_bbs (ci ∷ [])) _
            (track_all-Ends ir ctx fuel values places holds enough_values enough_places c f
              (cf, negsuc 0) reach_bbs (ci ∷ []) (inside, tt))
            (λ b. Ends-some _))
  count_direct_source-Total f ci cf (some n) inside place c =
      Ends-bind (collect_succ_reach_blocks ir fuel (ir.parent ci) []) _
        (reach-Ends ir ctx fuel values places holds enough_values enough_places (ir.parent ci)
          place).0
        (λ reach_bbs.
          Ends-bind
            (track_all ir ctx fuel c f (cf, pos n) reach_bbs
              (loads_to_track ir ctx fuel f (at_index (ir.operands ci) (pos n)) reach_bbs []))
            _
            (track_all-Ends ir ctx fuel values places holds enough_values enough_places c f
              (cf, pos n) reach_bbs
              (loads_to_track ir ctx fuel f (at_index (ir.operands ci) (pos n)) reach_bbs [])
              (loads_to_track-In ir ctx fuel values places holds enough_values enough_places f
                (at_index (ir.operands ci) (pos n)) reach_bbs [] tt))
            (λ b. Ends-some _))

  count_checked_use-Total :
      (f ci cf : ℕ) (args : List ℕ) (n : ℕ)
      → All In args
      → Memᴰ (ir.parent ci) places
      → Total (count_checked_use ir ctx fuel f ci cf args n)
  unfolding count_checked_use
  count_checked_use-Total f ci cf args n inside place c =
      Ends-bind (collect_pred_reach_blocks ir fuel (ir.parent ci) []) _
        (reach-Ends ir ctx fuel values places holds enough_values enough_places (ir.parent ci)
          place).1
        (λ reach_bbs.
          let i : Item = record {
            function = f;
            value = at_index args (pos n);
            scope = erase (ir.parent ci) reach_bbs;
            depth = 1;
          } in
          Ends-bind
            (is_checked_backward ir ctx c fuel (cf, pos n) i (record { seen = []; acc = false })) _
            (is_checked_backward_total ir ctx c fuel values places holds.closed enough_places
              (cf, pos n) i (record { seen = []; acc = false })
              (get_elem?-All ir ctx fuel values places holds enough_values enough_places args n
                inside)
              enough_values)
            (λ t. Ends-some _))

  count_direct-Total :
      (f ci cf : ℕ) (args : List ℕ)
      → In ci
      → Memᴰ (ir.parent ci) places
      → All In args
      → Total (count_direct ir ctx fuel f ci cf args)
  unfolding count_direct count_return count_parameter count_direct_use
  count_direct-Total f ci cf args inside place passes c =
      Ends-bind (count_return ir ctx fuel f ci cf c) _
        (Ends-if
          (not (is_nil ir ctx fuel (ir.users ci)) && has (cf, negsuc 0) c.sources.checked_set)
          (count_direct_source-Total f ci cf none inside place c) (Ends-some c))
        (λ c₁.
          Ends-bind
            (for_each (count_parameter ir ctx fuel f ci cf)
              (both_numbers ir ctx fuel (ir.args cf) args 0) c₁)
            _
            (Total-each (count_parameter ir ctx fuel f ci cf)
              (λ n c.
                Ends-if
                  (ir.is_pointer (at_index (ir.operands ci) (pos n))
                    && has (cf, pos n) c.sources.checked_set)
                  (count_direct_source-Total f ci cf (some n) inside place c) (Ends-some c))
              (both_numbers ir ctx fuel (ir.args cf) args 0) c₁)
            (λ c₂.
              Total-each (count_direct_use ir ctx fuel f ci cf args)
                (λ n c.
                  Ends-if (has (cf, pos n) c.uses.checked_set)
                    (count_checked_use-Total f ci cf args n passes place c) (Ends-some c))
                (numbers ir ctx fuel 0 args) c₂))

  count_call_node-Total :
      (f ci : ℕ) (args cfs : List ℕ)
      → In ci
      → Memᴰ (ir.parent ci) places
      → All In args
      → Total (count_call_node ir ctx fuel f ci args cfs)
  unfolding count_call_node
  count_call_node-Total f ci args [] inside place passes c = Ends-some c
  count_call_node-Total f ci args (cf ∷ cfs) inside place passes c =
      Ends-if (cf == null || has_name (ir.name cf) skipped_names) (Ends-some c)
        (count_direct-Total f ci cf args inside place passes c)

  count_instruction_node-Total :
      (f ci : ℕ) (n : Node)
      → In ci
      → Memᴰ (ir.parent ci) places
      → All In (passed n)
      → Total (count_instruction_node ir ctx fuel f ci n)
  unfolding count_instruction_node
  count_instruction_node-Total f ci (Node.call callee args) inside place passes c =
      Ends-if (ir.is_indirect_call ci)
        (Total-each (count_callees ir ctx fuel f ci) (count_callees-Total f ci)
          (numbers ir ctx fuel 0 args) c)
        (Ends-if (ir.is_intrinsic_call ci) (Ends-some c) (
          Ends-if (is_nil ir ctx fuel (ir.users ci) && is_nil ir ctx fuel args) (Ends-some c)
            (count_call_node-Total f ci args (ctx.callees ci) inside place passes c)))
  count_instruction_node-Total f ci _ inside place passes c = Ends-some c

  -- With more fuel than values and than blocks of a program, countSrcUseUnchecks returns for every
  -- function, from any counters.
  pub count_src_use_unchecks_total :
      (f : ℕ) (c : Counts) → (c' : Counts) × (count_src_use_unchecks ir ctx fuel f c ≡ some c')
  unfolding count_src_use_unchecks count_instruction
  count_src_use_unchecks_total f c =
      Ends-for_each_in (λ i. Memᴰ i values × Memᴰ (ir.parent i) places)
        (count_instruction ir ctx fuel f)
        (λ ci (inside, place) c.
          count_instruction_node-Total f ci (ir.node ci) inside place (holds.closed.arguments ci) c)
        (instructions ir f) (holds.body f) c
