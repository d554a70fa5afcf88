-- ===== src/MissingChecks/UnchecksLaws.antt =====
-- The counters of countSrcUseUnchecks: the unchecked occurrences among all.
use crix.Base.{
  ℕ, ◌≡◌, Bool, false, ◌||◌, ◌&&◌, not, Option, none, some, List, [], ◌∷◌, if◌then◌else◌, ◌==◌, has,
  nat_eq, use_eq, ◌>>=◌, >>=-eq-some, some_inj, subst, pos, negsuc, Bool-cases, inl, inr, ltb,
  length, for_each, head?, from_option,
}
use crix.Ir.{Ir, Node}
use crix.Ir.Kinds.{null, instructions, has_name, get_arg_by_no, at_index}
use crix.Context.{Context}
use crix.MissingChecks.Model.{SrcUse, Counts}
use crix.DataFlow.Reach.{collect_succ_reach_blocks, collect_pred_reach_blocks}
use crix.MissingChecks.Backward.{Item, is_checked_backward}
use crix.MissingChecks.Unchecks.{
  count_src, count_use_of, track_all, argument_to_track, loads_to_track, count_defined_callee,
  count_callee, count_callees, count_direct_source, count_checked_use, count_direct_use,
  count_parameter, count_return, count_direct, count_call_node, count_instruction_node,
  count_instruction, count_src_use_unchecks, skipped_names, erase, is_nil, numbers, both_numbers,
}
use crix.MissingChecks.Tallies.{IsTallied, count_src-IsTallied, count_use_of-IsTallied}
use crix.MissingChecks.Keeps.{Keeps, Keeps-if, Keeps-unless, Keeps-each, after_step}

-- A property that the counting of an occurrence keeps.
module _ (ir : Ir) (ctx : Context) (fuel : ℕ) (P : Counts → Type 0)
    (by_source : (k : SrcUse) (v : ℕ) (b : Bool) (c : Counts) → P c → P (count_src k v b c))
    (by_use : (k : SrcUse) (v : ℕ) (b : Bool) (c : Counts) → P c → P (count_use_of k v b c)) where
  -- The end of the counting of a source: it is checked or not.
  count_checked :
      (k : SrcUse) (v : ℕ) (m : Option Bool) (c c' : Counts)
      → P c
      → (m >>= λ b. some (count_src k v b c)) ≡ some c'
      → P c'
  count_checked k v m c c' t =
      after_step P m (λ b. some (count_src k v b c)) c'
        (λ b e. subst P (some_inj e) (by_source k v b c t))

  count_defined_callee-Keeps :
      (f ci n callee : ℕ) → Keeps P (count_defined_callee ir ctx fuel f ci n callee)
  unfolding count_defined_callee
  count_defined_callee-Keeps f ci n callee c c' t h =
      let arg = get_arg_by_no ir callee (pos n) in
      let (reach_bbs, e₁, h₁) =
        >>=-eq-some
          (collect_succ_reach_blocks ir fuel (from_option null (head? (ir.blocks callee))) []) _
          h in
      count_checked (ci, pos n) arg
        (track_all ir ctx fuel c f (ci, pos n) reach_bbs
          (argument_to_track ir ctx fuel callee arg reach_bbs))
        c c' t h₁

  count_callees-Keeps : (f ci n : ℕ) → Keeps P (count_callees ir ctx fuel f ci n)
  unfolding count_callees count_callee
  count_callees-Keeps f ci n c =
      Keeps-if P (for_each (count_callee ir ctx fuel f ci n) (ctx.callees ci))
        (has (ci, pos n) c.sources.checked_set)
        (Keeps-each P (count_callee ir ctx fuel f ci n)
          (λ callee.
            Keeps-unless P (count_defined_callee ir ctx fuel f ci n callee)
              (ltb (length (ir.blocks callee)) 1) (count_defined_callee-Keeps f ci n callee))
          (ctx.callees ci))
        c

  count_direct_source-Keeps :
      (f ci cf : ℕ) (n : Option ℕ) → Keeps P (count_direct_source ir ctx fuel f ci cf n)
  unfolding count_direct_source
  count_direct_source-Keeps f ci cf none c c' t h =
      let (reach_bbs, e₁, h₁) =
        >>=-eq-some (collect_succ_reach_blocks ir fuel (ir.parent ci) []) _ h in
      count_checked (cf, negsuc 0) ci (track_all ir ctx fuel c f (cf, negsuc 0) reach_bbs (ci ∷ []))
        c c' t h₁
  count_direct_source-Keeps f ci cf (some n) c c' t h =
      let (reach_bbs, e₁, h₁) =
        >>=-eq-some (collect_succ_reach_blocks ir fuel (ir.parent ci) []) _ h in
      count_checked (cf, pos n) ci
        (track_all ir ctx fuel c f (cf, pos n) reach_bbs
          (loads_to_track ir ctx fuel f (at_index (ir.operands ci) (pos n)) reach_bbs []))
        c c' t h₁

  count_checked_use-Keeps :
      (f ci cf : ℕ) (args : List ℕ) (n : ℕ) → Keeps P (count_checked_use ir ctx fuel f ci cf args n)
  unfolding count_checked_use
  count_checked_use-Keeps f ci cf args n c c' t h =
      let (reach_bbs, e₁, h₁) =
        >>=-eq-some (collect_pred_reach_blocks ir fuel (ir.parent ci) []) _ h in
      let i : Item = record {
        function = f;
        value = at_index args (pos n);
        scope = erase (ir.parent ci) reach_bbs;
        depth = 1;
      } in
      after_step P
        (is_checked_backward ir ctx c fuel (cf, pos n) i (record { seen = []; acc = false }))
        (λ r. some (count_use_of (cf, pos n) (at_index args (pos n)) r.acc c)) c'
        (λ r e. subst P (some_inj e) (by_use (cf, pos n) (at_index args (pos n)) r.acc c t)) h₁

  count_direct_use-Keeps :
      (f ci cf : ℕ) (args : List ℕ) (n : ℕ) → Keeps P (count_direct_use ir ctx fuel f ci cf args n)
  unfolding count_direct_use
  count_direct_use-Keeps f ci cf args n c =
      Keeps-if P (count_checked_use ir ctx fuel f ci cf args n) (has (cf, pos n) c.uses.checked_set)
        (count_checked_use-Keeps f ci cf args n) c

  count_direct-Keeps :
      (f ci cf : ℕ) (args : List ℕ) → Keeps P (count_direct ir ctx fuel f ci cf args)
  unfolding count_direct count_return count_parameter
  count_direct-Keeps f ci cf args c c' t h =
      let (c₁, e₁, h₁) = >>=-eq-some (count_return ir ctx fuel f ci cf c) _ h in
      let (c₂, e₂, h₂) =
        >>=-eq-some
          (for_each (count_parameter ir ctx fuel f ci cf)
            (both_numbers ir ctx fuel (ir.args cf) args 0) c₁)
          _ h₁ in
      let t₁ : P c₁ =
        Keeps-if P (count_direct_source ir ctx fuel f ci cf none)
          (not (is_nil ir ctx fuel (ir.users ci)) && has (cf, negsuc 0) c.sources.checked_set)
          (count_direct_source-Keeps f ci cf none) c c₁ t e₁ in
      let t₂ : P c₂ =
        Keeps-each P (count_parameter ir ctx fuel f ci cf)
          (λ n c.
            Keeps-if P (count_direct_source ir ctx fuel f ci cf (some n))
              (ir.is_pointer (at_index (ir.operands ci) (pos n))
                && has (cf, pos n) c.sources.checked_set)
              (count_direct_source-Keeps f ci cf (some n)) c)
          (both_numbers ir ctx fuel (ir.args cf) args 0) c₁ c₂ t₁ e₂ in
      Keeps-each P (count_direct_use ir ctx fuel f ci cf args) (count_direct_use-Keeps f ci cf args)
        (numbers ir ctx fuel 0 args) c₂ c' t₂ h₂

  count_call_node-Keeps :
      (f ci : ℕ) (args cfs : List ℕ) → Keeps P (count_call_node ir ctx fuel f ci args cfs)
  unfolding count_call_node
  count_call_node-Keeps f ci args [] c c' t h = subst P (some_inj h) t
  count_call_node-Keeps f ci args (cf ∷ cfs) c c' t h =
      Keeps-unless P (count_direct ir ctx fuel f ci cf args)
        (cf == null || has_name (ir.name cf) skipped_names) (count_direct-Keeps f ci cf args) c c' t
        h

  count_instruction_node-Keeps :
      (f ci : ℕ) (n : Node) → Keeps P (count_instruction_node ir ctx fuel f ci n)
  unfolding count_instruction_node
  count_instruction_node-Keeps f ci (Node.call callee args) c c' t h =
      elim (Bool-cases (ir.is_indirect_call ci)) [
        | inl is ↦
            Keeps-each P (count_callees ir ctx fuel f ci) (count_callees-Keeps f ci)
              (numbers ir ctx fuel 0 args) c c' t (rw is at h)
        | inr is_not ↦
            Keeps-unless P
              (λ c.
                if is_nil ir ctx fuel (ir.users ci) && is_nil ir ctx fuel args
                then some c
                else count_call_node ir ctx fuel f ci args (ctx.callees ci) c)
              (ir.is_intrinsic_call ci)
              (Keeps-unless P (count_call_node ir ctx fuel f ci args (ctx.callees ci))
                (is_nil ir ctx fuel (ir.users ci) && is_nil ir ctx fuel args)
                (count_call_node-Keeps f ci args (ctx.callees ci)))
              c c' t (rw is_not at h)
      ]
  count_instruction_node-Keeps f ci _ c c' t h = subst P (some_inj h) t

  pub count_src_use_unchecks-Keeps : (f : ℕ) → Keeps P (count_src_use_unchecks ir ctx fuel f)
  unfolding count_src_use_unchecks count_instruction
  count_src_use_unchecks-Keeps f =
      Keeps-each P (count_instruction ir ctx fuel f)
        (λ ci. count_instruction_node-Keeps f ci (ir.node ci)) (instructions ir f)

module _ (ir : Ir) (ctx : Context) (fuel : ℕ) where
  -- If countSrcUseUnchecks returns from counters in which, for every source and use, the unchecks
  -- and the total are the values modulo 2 ^ 32 of two numbers of which the first is not greater, the
  -- counters that it leaves are such.
  pub count_src_use_unchecks-IsTallied :
      (f : ℕ) (c c' : Counts)
      → IsTallied c
      → count_src_use_unchecks ir ctx fuel f c ≡ some c'
      → IsTallied c'
  count_src_use_unchecks-IsTallied =
      count_src_use_unchecks-Keeps ir ctx fuel IsTallied count_src-IsTallied count_use_of-IsTallied
