-- ===== src/DataFlow/InFunctionFits.antt =====
-- What findInFuncSourceCV calls and marks for the users of aliases.
use mathlib.Core.List.Memᴰ
use crix.Base.{
  ℕ, ◌≡◌, refl, true, inl, inr, ◌↔◌, List, [], ◌∷◌, Memᴰ, arith, has, nat_eq, Bool-cases, flat_map,
  ◌==◌, ◌||◌, not,
}
use crix.Ir.{Ir, Node}
use crix.Ir.Kinds.{is_instruction, at_index}
use crix.Ir.Calls.{arg_no}
use crix.Context.{Context}
use crix.Walk.{Act, visits, notes}
use crix.Walk.Members.{Memᴰ-visits, Memᴰ-notes, Memᴰ-one}
use crix.DataFlow.InFunction.{Mark, source, variable, in_func_access, in_func_user, in_func_aliases}
use crix.DataFlow.InFunctionSteps.{both_value, value_of, PassesAt}

module _ (ir : Ir) (ctx : Context) where
  -- A user that counts: an instruction in a reached block.
  abbrev pub InReach : List ℕ → ℕ → Type 0
  InReach reach u = (is_instruction ir u ≡ true) × (has (ir.parent u) reach ≡ true)

  -- What the loop body does for a user, where `Stores` and `Passes` say what it is.
  abbrev pub AccessFits : (ℕ → Type 0) → (ℕ → Type 0) → List (Act ℕ Mark) → Type 0
  AccessFits Stores Passes acts =
      ((w : ℕ) → Memᴰ w (visits acts) ↔ Stores w)
      × ((m : Mark) → Memᴰ m (notes acts) ↔ Passes (value_of m))

  abbrev Passes : ℕ → ℕ → Node → ℕ → Type 0
  Passes a u n w =
      (callee : ℕ) × (args : List ℕ) × (n ≡ Node.call callee args)
      × (w ≡ at_index (ir.operands u) (arg_no a args))

  a_call :
      (a u callee : ℕ) (args : List ℕ) (m : Mark)
      → Memᴰ m (
          source (at_index (ir.operands u) (arg_no a args))
          ∷ variable (at_index (ir.operands u) (arg_no a args))
          ∷ [])
        ↔ Passes a u (Node.call callee args) (value_of m)
  a_call a u callee args m =
      let (f, g) = both_value (at_index (ir.operands u) (arg_no a args)) m in
      (
        λ k. (callee, args, refl, f k),
        λ (c, as', e, q). let p : args ≡ as' = ground arith in g (rw p q),
      )

  no_call :
      (a u : ℕ) (n : Node)
      → ((callee : ℕ) (args : List ℕ) → n ≡ Node.call callee args → ⊥)
      → (m : Mark) → Memᴰ m [] ↔ Passes a u n (value_of m)
  no_call a u n other m = (λ k. absurd (Memᴰ.not-nil k), λ (c, as', e, _). absurd (other c as' e))

  access-Fits :
      (a u : ℕ) (n : Node)
      → AccessFits (λ w. n ≡ Node.store w a) (Passes a u n) (in_func_access ir ctx a u n)
  unfolding in_func_access
  access-Fits a u (Node.store sv p) = elim (Bool-cases (a == p)) [
    | inl same ↦
        let q : p ≡ a = ground arith in
        rw same (
          λ w. (λ m. rw ((Memᴰ-one sv w).0 m, q) refl, λ e. Memᴰ.head (ground arith)),
          no_call a u (Node.store sv p) (λ c as' e. cc),
        )
    | inr other ↦ rw other (
      λ w. (λ m. absurd (Memᴰ.not-nil m), λ e. absurd (ground arith)),
      no_call a u (Node.store sv p) (λ c as' e. cc),
    )
  ]
  access-Fits a u (Node.call callee args) =
      (λ w. (λ m. absurd (Memᴰ.not-nil m), λ e. absurd (cc)), a_call a u callee args)
  access-Fits a u n =
      (λ w. (λ m. absurd (Memᴰ.not-nil m), λ e. absurd (cc)), no_call a u n (λ c as' e. cc))

  user-Fits :
      (reach : List ℕ) (a u : ℕ)
      → AccessFits
          (λ w. InReach reach u × (ir.node u ≡ Node.store w a))
          (λ w. InReach reach u × PassesAt ir ctx a u w)
          (in_func_user ir ctx reach a u)
  unfolding in_func_user
  user-Fits reach a u =
      elim (Bool-cases (not (is_instruction ir u) || not (has (ir.parent u) reach))) [
        | inl out ↦ rw out (
          λ w. (λ m. absurd (Memᴰ.not-nil m), λ t. absurd (outside out t.0)),
          λ m. (λ k. absurd (Memᴰ.not-nil k), λ t. absurd (outside out t.0)),
        )
        | inr inside ↦
            let s : InReach reach u = ground arith in
            let (f, g) = access-Fits a u (ir.node u) in
            rw inside (
              λ w. (λ m. (s, (f w).0 m), λ t. (f w).1 t.1),
              λ m. (λ k. (s, (g m).0 k), λ t. (g m).1 t.1),
            )
      ]
    where
      outside :
          (not (is_instruction ir u) || not (has (ir.parent u) reach)) ≡ true → InReach reach u → ⊥
      outside out s = ground arith

  pub aliases-Fits :
      (reach alias_set : List ℕ)
      → AccessFits
          (λ w.
            (a : ℕ) × (u : ℕ) × Memᴰ a alias_set
            × Memᴰ u (ir.users a)
            × (InReach reach u × (ir.node u ≡ Node.store w a)))
          (λ w.
            (a : ℕ) × (u : ℕ) × Memᴰ a alias_set
            × Memᴰ u (ir.users a)
            × (InReach reach u × PassesAt ir ctx a u w))
          (in_func_aliases ir ctx reach alias_set)
  unfolding in_func_aliases
  aliases-Fits reach alias_set =
      let of_alias = λ (a : ℕ). flat_map (in_func_user ir ctx reach a) (ir.users a) in
      (
        λ w. (
          λ m.
              let (a, there, l) = (Memᴰ-visits of_alias alias_set w).0 m in
              let (u, there', l') =
                (Memᴰ-visits (in_func_user ir ctx reach a) (ir.users a) w).0 l in
              (a, u, there, there', ((user-Fits reach a u).0 w).0 l'),
          λ (a, u, there, there', t). (Memᴰ-visits of_alias alias_set w).1 (
            a,
            there,
            (Memᴰ-visits (in_func_user ir ctx reach a) (ir.users a) w).1
                (u, there', ((user-Fits reach a u).0 w).1 t),
          ),
        ),
        λ n. (
          λ m.
              let (a, there, l) = (Memᴰ-notes of_alias alias_set n).0 m in
              let (u, there', l') = (Memᴰ-notes (in_func_user ir ctx reach a) (ir.users a) n).0 l in
              (a, u, there, there', ((user-Fits reach a u).1 n).0 l'),
          λ (a, u, there, there', t). (Memᴰ-notes of_alias alias_set n).1 (
            a,
            there,
            (Memᴰ-notes (in_func_user ir ctx reach a) (ir.users a) n).1
                (u, there', ((user-Fits reach a u).1 n).1 t),
          ),
        ),
      )
