-- ===== src/PointerAnalysis/Pass.antt =====
-- doModulePass of PointerAnalysis.cc, and augmentMustAlias.
use crix.Base.{
  ℕ, Bool, true, false, Option, some, ◌>>=◌, for_each, List, [], ◌∷◌, if◌then◌else◌, ◌==◌, insert,
  nat_eq,
}
use crix.Ir.{Ir, Node}
use crix.Worklist.{Turn, push, loop}
use crix.PointerAnalysis.Pairs.{AliasResult, AliasMap, detect_alias_pointers}

-- FuncPAResults: a function without a result has the empty map.
abbrev pub PaResults : Type 0
PaResults = ℕ → AliasMap

abbrev has_no_body : List ℕ → Bool
has_no_body [] = true
has_no_body (b ∷ bs) = false

module _ (ir : Ir) (alias : ℕ → ℕ → AliasResult) (fuel : ℕ) where
  -- The turn for one function.
  unfoldable pub analyze_function : ℕ → PaResults → Option PaResults
  unfolding detect_alias_pointers
  analyze_function f results =
      if has_no_body (ir.blocks f)
      then some results
      else (detect_alias_pointers ir alias fuel f [] >>= λ alias_ptrs.
          some (λ g. if g == f then alias_ptrs else results g))

  -- doModulePass on the functions of a module, which returns false.
  unfoldable pub pass_module : List ℕ → PaResults → Option PaResults
  unfolding analyze_function
  pass_module = for_each analyze_function

-- The pointer that a pointer is made of, if the loop follows it; an alloca is queued itself, and is
-- passed over as processed.
abbrev pub behind : ℕ → Node → List ℕ
behind p (Node.gep po) = po ∷ []
behind p (Node.cast o) = o ∷ []
behind p (Node.alloca n) = p ∷ []
behind p _ = []

abbrev is_offset : Node → Bool
is_offset (Node.gep po) = true
is_offset (Node.cast o) = true
is_offset _ = false

module _ (ir : Ir) where
  -- The loop over EV, whose state is the list of the processed values.
  unfoldable pub augment_body : ℕ → List ℕ → Option (Turn (List ℕ) ℕ)
  augment_body tv pv = some (push (insert tv pv) (behind tv (ir.node tv)))

  unfoldable pub add_users : List ℕ → List ℕ → List ℕ
  add_users [] a_set = a_set
  add_users (u ∷ us) a_set = add_users us (if is_offset (ir.node u) then insert u a_set else a_set)

  -- The loop over PV.
  unfoldable pub add_each : List ℕ → List ℕ → List ℕ
  unfolding add_users
  add_each [] a_set = a_set
  add_each (v ∷ vs) a_set = add_each vs (add_users (ir.users v) (insert v a_set))

  unfoldable pub augment_must_alias : ℕ → ℕ → List ℕ → Option (List ℕ)
  unfolding augment_body add_each
  augment_must_alias fuel p a_set =
      loop (λ v. v) augment_body fuel [] (p ∷ []) [] >>= λ pv. some (add_each pv a_set)
