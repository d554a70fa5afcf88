-- ===== src/SecurityChecks/SameVariables.antt =====
-- findSameVariablesFrom of SecurityChecks.cc: the loads of what the value, or a load found before, is
-- stored to.
use crix.Base.{
  ℕ, Bool, true, false, Option, some, List, [], ◌∷◌, foldl, flat_map, if◌then◌else◌, nat_eq, ◌==◌,
  insert,
}
use crix.Ir.{Ir, Node}
use crix.Worklist.{Turn, push, loop}

module _ (ir : Ir) where
  abbrev is_load : ℕ → Bool
  is_load u = elim (ir.node u) [ Node.load p ↦ true | _ ↦ false ]

  abbrev keep_loads : List ℕ → List ℕ
  keep_loads [] = []
  keep_loads (u ∷ us) = if is_load u then u ∷ keep_loads us else keep_loads us

  -- The loads of the pointer to which a user of `tv` stores it.
  unfoldable pub loads_after : ℕ → ℕ → List ℕ
  loads_after tv u = elim (ir.node u) [
    | Node.store sv sp ↦ if tv == sv then keep_loads (ir.users sp) else []
    | _ ↦ []
  ]

  unfoldable pub same_variable_loads : ℕ → List ℕ
  unfolding loads_after flat_map
  same_variable_loads tv = flat_map (loads_after tv) (ir.users tv)

  unfoldable pub same_variables_body : ℕ → List ℕ → Option (Turn (List ℕ) ℕ)
  unfolding same_variable_loads
  same_variables_body tv vset =
      let new = same_variable_loads tv in some (push (foldl (λ s v. insert v s) vset new) new)

  -- findSameVariablesFrom
  unfoldable pub find_same_variables_from : ℕ → ℕ → List ℕ → Option (List ℕ)
  find_same_variables_from fuel v vset =
      loop (λ x. x) same_variables_body fuel [] (v ∷ []) (insert v vset)
