-- ===== src/CallGraph/Matching.antt =====
-- findCalleesWithType of CallGraph.cc: the targets of an indirect call by the types of its arguments.
use text.Mathlib.Text.{◌==◌ as str_eq}
use crix.Base.{
  ℕ, zero, suc, Bool, true, false, ◌&&◌, ◌||◌, not, Option, none, some, ◌>>=◌, List, [], ◌∷◌,
  if◌then◌else◌, ◌==◌, insert, length, nat_eq,
}
use crix.Ir.{Node}
use crix.CallGraph.{Program, Shape}
use crix.CallGraph.Graph.{Graph}

abbrev pub is_pointer_shape : Shape → Bool
is_pointer_shape (Shape.pointer e) = true
is_pointer_shape _ = false

-- Two structs of one name, or two integers of one width.
abbrev pub same_shape : Shape → Shape → Bool
same_shape (Shape.structure m) (Shape.structure n) = str_eq m n
same_shape (Shape.integer v) (Shape.integer w) = v == w
same_shape _ _ = false

-- What the loop over the arguments of a function comes to: `overrun` reads past those of the call,
-- which may have less where the function takes more.
pub data Match : Type 0 where
  matched mismatched overrun : Match

-- The types that two pointer types lead to while both are pointers.
abbrev pub pointees : Shape → Shape → Option (ℕ × ℕ)
pointees (Shape.pointer d) (Shape.pointer a) = some (d, a)
pointees _ _ = none

module _ (pg : Program) where
  -- while (DefinedTy->isPointerTy() && ActualTy->isPointerTy())
  unfoldable pub strip_both : ℕ → ℕ → ℕ → Option (ℕ × ℕ)
  strip_both zero defined actual = none
  strip_both (suc fuel) defined actual = elim (pointees (pg.shape defined) (pg.shape actual)) [
    | none ↦ some (defined, actual)
    | some (d, a) ↦ strip_both fuel d a
  ]

  -- A universal pointer and a pointer or an integer of its width.
  abbrev pub is_universal_for : ℕ → ℕ → Bool
  is_universal_for p t =
      p == pg.int8_ptr_ty && (is_pointer_shape (pg.shape t) || t == pg.int_ptr_ty)

  -- The tests behind the loop on pointers.
  unfoldable pub stripped_match : ℕ → ℕ → Bool
  stripped_match defined actual =
      same_shape (pg.shape defined) (pg.shape actual)
      || (is_universal_for defined actual || is_universal_for actual defined)

  module _ (fuel : ℕ) where
    -- Does an argument match?
    unfoldable pub types_match : ℕ → ℕ → Option Bool
    unfolding strip_both stripped_match
    types_match defined actual =
        if defined == actual
        then some true
        else (strip_both fuel defined actual >>= λ (d, a). some (stripped_match d a))

    -- Type matching on args, of which `fi` are the function's and `ai` the call's.
    unfoldable pub match_args : List ℕ → List ℕ → Option Match
    unfolding types_match
    match_args [] ai = some Match.matched
    match_args (f ∷ fi) [] = some Match.overrun
    match_args (f ∷ fi) (a ∷ ai) =
        let rest = match_args fi ai in
        types_match (pg.type_of f) (pg.type_of a) >>= λ b. if b then rest else some Match.mismatched

    -- The turn for an address-taken function; the outcome of a set that `overrun` leaves open is
    -- `none` inside.
    unfoldable pub add_if_matched : List ℕ → ℕ → List ℕ → Option (Option (List ℕ))
    unfolding match_args
    add_if_matched args f s =
        let outcome = match_args (pg.ir.args f) args in
        if not (pg.is_var_arg f) && not (length (pg.ir.args f) == length args)
        then some (some s)
        else if pg.is_intrinsic f
        then some (some s)
        else (outcome >>= λ m. some (elim m [
          | Match.matched ↦ some (insert f s)
          | Match.mismatched ↦ some s
          | Match.overrun ↦ none
        ]))

    unfoldable pub add_matched : List ℕ → List ℕ → List ℕ → Option (Option (List ℕ))
    unfolding add_if_matched
    add_matched args [] s = some (some s)
    add_matched args (f ∷ fs) s = add_if_matched args f s >>= λ o. elim o [
      | none ↦ some none
      | some s' ↦ add_matched args fs s'
    ]

    unfoldable pub find_callees_with_type : Graph → ℕ → List ℕ → List ℕ → Option (Option (List ℕ))
    unfolding add_matched
    find_callees_with_type g called args s = elim (pg.ir.node called) [
      | Node.inline_asm ↦ some (some s)
      | _ ↦ add_matched args g.address_taken_funcs s
    ]
