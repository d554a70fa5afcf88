-- ===== src/MissingChecks/Unchecks.antt =====
-- countSrcUseUnchecks of MissingChecks.cc: for each call of a function, the sources and uses with a
-- check elsewhere, and whether this call has one.
use Prim.Native.String.{String}
use crix.Base.{
  ℕ, ◌+◌, Bool, true, false, ◌||◌, ◌&&◌, not, Option, none, some, from_option, List, [], ◌∷◌,
  flat_map, has, insert, nat_eq, use_eq, if◌then◌else◌, ◌==◌, ◌>>=◌, for_each, pos, negsuc, length,
  head?, ltb,
}
use crix.Ir.{Ir, Node}
use crix.Ir.Kinds.{null, instructions, at_index, get_arg_by_no, has_name}
use crix.Context.{Context}
use crix.DataFlow.Aliases.{get_alias_pointers}
use crix.DataFlow.Reach.{collect_succ_reach_blocks, collect_pred_reach_blocks}
use crix.MissingChecks.Model.{SrcUse, Counts, count_up, add_src_uncheck, add_use_uncheck}
use crix.MissingChecks.Forward.{is_checked_forward}
use crix.MissingChecks.Backward.{is_checked_backward}

-- SrcTotalCount[Src] += 1 and UseTotalCount[Use] += 1.
abbrev pub add_src_total : SrcUse → Counts → Counts
add_src_total k c = record c {
  sources = record c.sources { total_count = count_up k c.sources.total_count };
}

abbrev pub add_use_total : SrcUse → Counts → Counts
add_use_total k c = record c {
  uses = record c.uses { total_count = count_up k c.uses.total_count };
}

-- What is counted for a source or use once it is known whether it is checked.
unfoldable pub count_src : SrcUse → ℕ → Bool → Counts → Counts
unfolding add_src_uncheck
count_src k v is_checked c = add_src_total k (if is_checked then c else add_src_uncheck k v c)

unfoldable pub count_use_of : SrcUse → ℕ → Bool → Counts → Counts
unfolding add_use_uncheck
count_use_of k v is_checked c = add_use_total k (if is_checked then c else add_use_uncheck k v c)

-- The functions that are left out.
abbrev pub skipped_names : List String
skipped_names =
    "outb" ∷ "__const_udelay" ∷ "__udelay" ∷ "scnprintf" ∷ "__fswab16" ∷ "__fswab32" ∷ []

-- reachBBs.erase(BB)
abbrev pub erase : ℕ → List ℕ → List ℕ
erase b [] = []
erase b (x ∷ xs) = let rest = erase b xs in if b == x then rest else x ∷ rest

module _ (ir : Ir) (ctx : Context) (fuel : ℕ) where
  -- The loads of the aliases of a pointer in the reached blocks, inserted into ToTrackSet.
  unfoldable pub add_loads : List ℕ → List ℕ → List ℕ → List ℕ
  add_loads reach_bbs [] s = s
  add_loads reach_bbs (u ∷ us) s = elim (ir.node u) [
    | Node.load p ↦ add_loads reach_bbs us (if has (ir.parent u) reach_bbs then insert u s else s)
    | _ ↦ add_loads reach_bbs us s
  ]

  unfoldable pub loads_to_track : ℕ → ℕ → List ℕ → List ℕ → List ℕ
  unfolding add_loads flat_map
  loads_to_track f p reach_bbs s =
      add_loads reach_bbs (flat_map ir.users (get_alias_pointers p (ctx.func_pa_results f))) s

  -- The loop over ToTrackSet, which ends where isChecked is true: isCheckedForward then changes
  -- nothing.
  unfoldable pub track_all : Counts → ℕ → SrcUse → List ℕ → List ℕ → Option Bool
  unfolding is_checked_forward
  track_all counts f src reach_bbs to_track =
      for_each (λ tv t. is_checked_forward ir ctx counts fuel f src tv reach_bbs t) to_track
        (record { seen = []; acc = false })
      >>= λ t. some t.acc

  -- ToTrackSet of an argument: itself, and the loads of a pointer.
  unfoldable pub argument_to_track : ℕ → ℕ → List ℕ → List ℕ
  unfolding loads_to_track
  argument_to_track callee arg reach_bbs =
      if ir.is_pointer arg
      then loads_to_track callee arg reach_bbs (insert arg [])
      else insert arg []

  -- An argument of an indirect call as a source: one callee, which has a block.
  unfoldable pub count_defined_callee : ℕ → ℕ → ℕ → ℕ → Counts → Option Counts
  unfolding argument_to_track track_all count_src
  count_defined_callee f ci n callee c = do
    reach_bbs ← collect_succ_reach_blocks ir fuel (from_option null (head? (ir.blocks callee))) []
    is_checked ←
        track_all c f (ci, pos n) reach_bbs
          (argument_to_track callee (get_arg_by_no ir callee (pos n)) reach_bbs)
    some (count_src (ci, pos n) (get_arg_by_no ir callee (pos n)) is_checked c)

  unfoldable pub count_callee : ℕ → ℕ → ℕ → ℕ → Counts → Option Counts
  unfolding count_defined_callee
  count_callee f ci n callee c =
      if ltb (length (ir.blocks callee)) 1 then some c else count_defined_callee f ci n callee c

  unfoldable pub count_callees : ℕ → ℕ → ℕ → Counts → Option Counts
  unfolding count_callee
  count_callees f ci n c =
      if has (ci, pos n) c.sources.checked_set
      then for_each (count_callee f ci n) (ctx.callees ci) c
      else some c

  -- The return value (`none`) or an output parameter of a direct call as a source, for which there
  -- is a check.
  unfoldable pub count_direct_source : ℕ → ℕ → ℕ → Option ℕ → Counts → Option Counts
  unfolding loads_to_track track_all count_src
  count_direct_source f ci cf none c = do
    reach_bbs ← collect_succ_reach_blocks ir fuel (ir.parent ci) []
    is_checked ← track_all c f (cf, negsuc 0) reach_bbs (ci ∷ [])
    some (count_src (cf, negsuc 0) ci is_checked c)
  count_direct_source f ci cf (some n) c = do
    reach_bbs ← collect_succ_reach_blocks ir fuel (ir.parent ci) []
    is_checked ←
        track_all c f (cf, pos n) reach_bbs
          (loads_to_track f (at_index (ir.operands ci) (pos n)) reach_bbs [])
    some (count_src (cf, pos n) ci is_checked c)

  -- An argument of a direct call as a use, for which there is a check.
  unfoldable pub count_checked_use : ℕ → ℕ → ℕ → List ℕ → ℕ → Counts → Option Counts
  unfolding is_checked_backward count_use_of
  count_checked_use f ci cf args n c = do
    reach_bbs ← collect_pred_reach_blocks ir fuel (ir.parent ci) []
    t ←
        is_checked_backward ir ctx c fuel (cf, pos n)
          (record {
            function = f;
            value = at_index args (pos n);
            scope = erase (ir.parent ci) reach_bbs;
            depth = 1;
          })
          (record { seen = []; acc = false })
    some (count_use_of (cf, pos n) (at_index args (pos n)) t.acc c)

  unfoldable pub count_direct_use : ℕ → ℕ → ℕ → List ℕ → ℕ → Counts → Option Counts
  unfolding count_checked_use
  count_direct_use f ci cf args n c =
      if has (cf, pos n) c.uses.checked_set then count_checked_use f ci cf args n c else some c

  -- The numbers of the elements of a list, in order: `n` is the first.
  abbrev pub numbers : ℕ → List ℕ → List ℕ
  numbers n [] = []
  numbers n (x ∷ xs) = n ∷ numbers (1 + n) xs

  abbrev pub is_nil : List ℕ → Bool
  is_nil [] = true
  is_nil (x ∷ xs) = false

  -- The turn of the do loop for an argument number that is not -1: a pointer argument.
  unfoldable pub count_parameter : ℕ → ℕ → ℕ → ℕ → Counts → Option Counts
  unfolding count_direct_source
  count_parameter f ci cf n c =
      if ir.is_pointer (at_index (ir.operands ci) (pos n)) && has (cf, pos n) c.sources.checked_set
      then count_direct_source f ci cf (some n) c
      else some c

  -- Its first turn.
  unfoldable pub count_return : ℕ → ℕ → ℕ → Counts → Option Counts
  unfolding count_direct_source
  count_return f ci cf c =
      if not (is_nil (ir.users ci)) && has (cf, negsuc 0) c.sources.checked_set
      then count_direct_source f ci cf none c
      else some c

  -- The numbers of the formal arguments that are numbers of actual ones.
  abbrev pub both_numbers : List ℕ → List ℕ → ℕ → List ℕ
  both_numbers [] args n = []
  both_numbers (x ∷ xs) [] n = []
  both_numbers (x ∷ xs) (a ∷ args) n = n ∷ both_numbers xs args (1 + n)

  -- A direct call of the function `cf`.
  unfoldable pub count_direct : ℕ → ℕ → ℕ → List ℕ → Counts → Option Counts
  unfolding count_return count_parameter count_direct_use
  count_direct f ci cf args c = do
    c₁ ← count_return f ci cf c
    c₂ ← for_each (count_parameter f ci cf) (both_numbers (ir.args cf) args 0) c₁
    for_each (count_direct_use f ci cf args) (numbers 0 args) c₂

  unfoldable pub count_call_node : ℕ → ℕ → List ℕ → List ℕ → Counts → Option Counts
  unfolding count_direct
  count_call_node f ci args [] c = some c
  count_call_node f ci args (cf ∷ cfs) c =
      if cf == null || has_name (ir.name cf) skipped_names
      then some c
      else count_direct f ci cf args c

  -- One turn of the loop over the instructions.
  unfoldable pub count_instruction_node : ℕ → ℕ → Node → Counts → Option Counts
  unfolding count_callees count_call_node
  count_instruction_node f ci (Node.call callee args) c =
      if ir.is_indirect_call ci
      then for_each (count_callees f ci) (numbers 0 args) c
      else if ir.is_intrinsic_call ci
      then some c
      else if is_nil (ir.users ci) && is_nil args
      then some c
      else count_call_node f ci args (ctx.callees ci) c
  count_instruction_node f ci _ c = some c

  unfoldable pub count_instruction : ℕ → ℕ → Counts → Option Counts
  unfolding count_instruction_node
  count_instruction f ci c = count_instruction_node f ci (ir.node ci) c

  -- An argument number is below 128 here, so that an int8_t does not wrap.
  unfoldable pub count_src_use_unchecks : ℕ → Counts → Option Counts
  unfolding count_instruction
  count_src_use_unchecks f c = for_each (count_instruction f) (instructions ir f) c
