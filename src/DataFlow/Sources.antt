-- ===== src/DataFlow/Sources.antt =====
-- findSourceCV and findSourceCVAlias of DataFlowAnalysis.cc. The two call each other on one tracked
-- set, so they are one walk over values and aliases.
use crix.Base.{
  ℕ, not, Option, none, some, is_some, List, [], ◌∷◌, ◌++◌, flat_map, nat_eq, if◌then◌else◌, ◌==◌,
  pos, negsuc, int_beq,
}
use crix.Ir.{Ir, Node}
use crix.Ir.Kinds.{null, is_constant, at_index, get_called_func_name}
use crix.Ir.Calls.{find_name, contains}
use crix.Context.{Context}
use crix.Walk.{Trace, Act, visit, note, walk}
use crix.DataFlow.Aliases.{get_alias_pointers}
use crix.DataFlow.InFunction.{Mark, source, variable, Found, add_mark, goes_on}

-- A call of findSourceCV, or of findSourceCVAlias.
pub data Call : Type 0 where
  of_value of_alias : ℕ → Call

abbrev pub called_on : Call → ℕ
called_on (of_value v) = v
called_on (of_alias a) = a

-- What both insert for a call `ci` that fetches data from `src`.
abbrev pub fetched : ℕ → ℕ → List (Act Call Mark)
fetched src ci =
    if src == null then [] else note (source src) ∷ note (source ci) ∷ note (variable src) ∷ []

abbrev pub value_each : List (ℕ × ℕ) → List (Act Call Mark)
value_each [] = []
value_each ((iv, bb) ∷ rest) = visit (of_value iv) ∷ value_each rest

abbrev pub alias_each : List ℕ → List (Act Call Mark)
alias_each [] = []
alias_each (a ∷ rest) = visit (of_alias a) ∷ alias_each rest

module _ (ir : Ir) (ctx : Context) where
  -- The source that a call returns.
  unfoldable pub returned_source : ℕ → ℕ → List ℕ → ℕ
  unfolding get_called_func_name
  returned_source ci callee args =
      elim (find_name (get_called_func_name ir ci) ctx.data_fetch_funcs) [
        | some (dst, src) ↦ if int_beq dst (negsuc 0) then at_index args src else null
        | none ↦ elim (ir.node callee) [
          | Node.inline_asm ↦
              if contains "get_user" (get_called_func_name ir ci)
              then at_index args (pos 0)
              else null
          | _ ↦ null
        ]
      ]

  -- The source from which a call fills its first argument.
  unfoldable pub written_source : ℕ → List ℕ → ℕ
  unfolding get_called_func_name
  written_source ci args = elim (find_name (get_called_func_name ir ci) ctx.data_fetch_funcs) [
    | some (dst, src) ↦ if int_beq dst (pos 0) then at_index args src else null
    | none ↦ null
  ]

  -- The loop body of findSourceCVAlias for a user of the alias.
  unfoldable pub alias_source_user : ℕ → ℕ → List (Act Call Mark)
  unfolding written_source
  alias_source_user a u = elim (ir.node u) [
    | Node.store svo p ↦ if a == p then visit (of_value svo) ∷ [] else []
    | Node.call callee args ↦
        if callee == null
        then []
        else if not (written_source u args == null)
        then fetched (written_source u args) u
        else if is_some (find_name (get_called_func_name ir u) ctx.copy_funcs)
        then visit (of_value (at_index args (pos 1))) ∷ []
        else []
    | _ ↦ []
  ]

  abbrev not_constant : ℕ → List (Act Call Mark)
  not_constant opd = if is_constant ir opd then [] else visit (of_value opd) ∷ []

  -- What findSourceCV does for a value that it has not tracked.
  unfoldable pub value_source_acts : ℕ → List (Act Call Mark)
  unfolding returned_source is_constant
  value_source_acts v = if is_constant ir v then note (variable v) ∷ [] else elim (ir.node v) [
    | Node.constant_expr o os ↦ visit (of_value o) ∷ []
    | Node.argument f ↦ note (variable v) ∷ note (source v) ∷ []
    | Node.call callee args ↦
        note (variable v)
        ∷ (if callee == null then [] else fetched (returned_source v callee args) v)
    | Node.select c t f ↦ note (variable v) ∷ visit (of_value t) ∷ visit (of_value f) ∷ []
    | Node.gep p ↦ note (variable v) ∷ visit (of_value p) ∷ []
    | Node.phi incoming ↦ note (variable v) ∷ value_each incoming
    | Node.load lpo ↦
        note (variable v)
        ∷ alias_each (get_alias_pointers lpo (ctx.func_pa_results (ir.block_parent (ir.parent v))))
    | Node.icmp p a b ↦ note (variable v) ∷ []
    | Node.alloca o ↦ note (variable v) ∷ visit (of_value o) ∷ []
    | Node.cast o ↦ note (variable v) ∷ visit (of_value o) ∷ []
    | Node.extract_value o ↦ note (variable v) ∷ visit (of_value o) ∷ []
    | Node.unary o ↦ note (variable v) ∷ visit (of_value o) ∷ []
    | Node.binary a b ↦ note (variable v) ∷ not_constant a ++ not_constant b
    | _ ↦ []
  ]

  unfoldable pub source_acts : Call → Option (List (Act Call Mark))
  unfolding value_source_acts alias_source_user flat_map
  source_acts (of_value v) = some (value_source_acts v)
  source_acts (of_alias a) = some (flat_map (alias_source_user a) (ir.users a))

  -- findSourceCV, and findSourceCVAlias on an alias.
  unfoldable pub find_source_cv : ℕ → Call → Trace Found → Option (Trace Found)
  find_source_cv fuel c t = walk called_on add_mark goes_on source_acts fuel c t
