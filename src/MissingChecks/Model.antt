-- ===== src/MissingChecks/Model.antt =====
-- ModelSC, the counters and maps of MissingChecks.h, and the functions of MissingChecks.cc that
-- model a check and update them.
use crix.Base.{
  ℕ, ◌+◌, ◌%◌, ◌^◌, Bool, false, ◌||◌, List, [], ◌∷◌, if◌then◌else◌, ◌==◌, ℤ, has, insert, use_eq,
  find, adjust, read,
}
use crix.Ir.{Ir, Node, Predicate}
use crix.Ir.Kinds.{null, is_constant_node}

pub data ScOperator : Type 0 where
  icmp_other icmp_eq icmp_ne icmp_gt icmp_lt : ScOperator

pub data ScCondition : Type 0 where
  scc_other scc_null scc_zero scc_pos scc_neg scc_const scc_var : ScCondition

pub record ModelSc : Type 0 where
  pub sco : ScOperator
  pub scc : ScCondition
  pub src_use : ℕ
  pub arg_no : ℤ

-- A function or call, and the number of an argument or -1: src_t and use_t.
abbrev pub SrcUse : Type 0
SrcUse = ℕ × ℤ

-- set<ModelSC>::find: `operator<` compares SrcUse only, so an element is found by it.
abbrev pub has_model : ModelSc → List ModelSc → Bool
has_model msc [] = false
has_model msc (x ∷ xs) = msc.src_use == x.src_use || has_model msc xs

abbrev pub insert_model : ModelSc → List ModelSc → List ModelSc
insert_model msc xs = if has_model msc xs then xs else msc ∷ xs

-- The maps and the set of one side, sources or uses. The sets are lists without repetitions.
pub record Side : Type 0 where
  pub check_count : List (SrcUse × ℕ)
  pub uncheck_count : List (SrcUse × ℕ)
  pub total_count : List (SrcUse × ℕ)
  pub checked_set : List SrcUse
  pub checks_map : List (SrcUse × List ModelSc)
  pub unchecks_map : List (SrcUse × List ℕ)

pub record Counts : Type 0 where
  pub sources : Side
  pub uses : Side

abbrev pub no_side : Side
no_side = record {
  check_count = [];
  uncheck_count = [];
  total_count = [];
  checked_set = [];
  checks_map = [];
  unchecks_map = [];
}

abbrev pub no_counts : Counts
no_counts = record { sources = no_side; uses = no_side }

-- `m[k] += 1` on an unsigned counter.
abbrev pub count_up : SrcUse → List (SrcUse × ℕ) → List (SrcUse × ℕ)
count_up k m = adjust 0 k (λ n. (n + 1) % 2 ^ 32) m

abbrev pub insert_key : SrcUse → List SrcUse → List SrcUse
insert_key k s = if has k s then s else k ∷ s

-- The body that addSrcCheck and addUseCheck share.
unfoldable pub add_check : SrcUse → ModelSc → Side → Side
unfolding adjust
add_check k msc s = record s {
  check_count = count_up k s.check_count;
  checked_set = insert_key k s.checked_set;
  checks_map = adjust [] k (insert_model msc) s.checks_map;
}

-- The body that addSrcUncheck and addUseUncheck share.
unfoldable pub add_uncheck : SrcUse → ℕ → Side → Side
unfolding adjust
add_uncheck k v s = record s {
  uncheck_count = count_up k s.uncheck_count;
  unchecks_map = adjust [] k (insert v) s.unchecks_map;
}

unfoldable pub add_src_check : SrcUse → ModelSc → Counts → Counts
unfolding add_check
add_src_check src msc c = record c { sources = add_check src msc c.sources }

unfoldable pub add_use_check : SrcUse → ModelSc → Counts → Counts
unfolding add_check
add_use_check use' msc c = record c { uses = add_check use' msc c.uses }

unfoldable pub add_src_uncheck : SrcUse → ℕ → Counts → Counts
unfolding add_uncheck
add_src_uncheck src v c = record c { sources = add_uncheck src v c.sources }

unfoldable pub add_use_uncheck : SrcUse → ℕ → Counts → Counts
unfolding add_uncheck
add_use_uncheck use' v c = record c { uses = add_uncheck use' v c.uses }

unfoldable pub operator_of : Predicate → ScOperator
operator_of Predicate.eq = ScOperator.icmp_eq
operator_of Predicate.ne = ScOperator.icmp_ne
operator_of Predicate.sgt = ScOperator.icmp_gt
operator_of Predicate.sge = ScOperator.icmp_gt
operator_of Predicate.slt = ScOperator.icmp_lt
operator_of Predicate.sle = ScOperator.icmp_lt
operator_of Predicate.ugt = ScOperator.icmp_gt
operator_of Predicate.uge = ScOperator.icmp_gt
operator_of Predicate.ult = ScOperator.icmp_lt
operator_of Predicate.ule = ScOperator.icmp_lt
operator_of Predicate.other = ScOperator.icmp_other

module _ (ir : Ir) where
  abbrev condition_of : ℕ → ScCondition
  condition_of v =
      if is_constant_node (ir.node v) then ScCondition.scc_const else ScCondition.scc_other

  abbrev modelled : Predicate → ℕ → SrcUse → ModelSc
  modelled p b k = record { sco = operator_of p; scc = condition_of b; src_use = k.0; arg_no = k.1 }

  -- modelCheck of a comparison; the source passes no null pointer and nothing else.
  unfoldable pub model_check : ℕ → SrcUse → ModelSc
  unfolding operator_of
  model_check cmp k = elim (ir.node cmp) [
    | Node.icmp p a b ↦ modelled p b k
    | Node.fcmp p a b ↦ modelled p b k
    | _ ↦ modelled Predicate.other null k
  ]

  -- inModeledCheckSet, with IsSrc. Its `m[k]` on a missing key inserts an empty set, which no
  -- reader tells from a missing one.
  unfoldable pub in_modeled_check_set : ℕ → SrcUse → Bool → Counts → Bool
  unfolding model_check find
  in_modeled_check_set cmp k is_src c =
      let msc = model_check cmp k in
      if is_src
      then has_model msc (read [] k c.sources.checks_map)
      else has_model msc (read [] k c.uses.checks_map)
