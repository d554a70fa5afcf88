-- ===== src/SecurityChecks/MayReturnSteps.antt =====
-- What mayReturnErr looks for in an instruction, and which functions it looks into from there.
use text.Mathlib.Text.{◌==◌ as str_eq}
use mathlib.Core.List.Memᴰ
use crix.Base.{
  ℕ, ◌⊎◌, Option-cases, ◌≡◌, ◌↔◌, refl, ap, ◌∙◌, Bool, true, false, ◌||◌, some, List, [], ◌∷◌, Memᴰ,
  Memᴰ-cons, arith, nat_eq, >>=-eq-some, Bool-cases, inl, inr, some_inj, subst,
}
use crix.Ir.{Ir, Node}
use crix.Ir.Kinds.{get_called_func_name}
use crix.Context.{Context}
use crix.Worklist.Search.{Sight, found, follow}
use crix.SecurityChecks.ErrnoValues.{IsErrnoValue, is_value_errno_sound, is_value_errno_complete}
use crix.SecurityChecks.Errno.{is_value_errno}
use crix.SecurityChecks.MayReturn.{first_callee, inspect_call, inspect_node, inspect}

module _ (ir : Ir) (ctx : Context) where
  abbrev pub names_error : ℕ → Bool
  names_error i =
      str_eq (get_called_func_name ir i) "ERR_PTR" || str_eq (get_called_func_name ir i) "PTR_ERR"

  -- When an instruction of the function `g` shows an error: it stores an error code, or is a call
  -- whose result is a pointer or that calls ERR_PTR or PTR_ERR directly.
  abbrev pub ShowsError : ℕ → ℕ → Node → Type 0
  ShowsError g i (Node.store sv p) = IsErrnoValue ir g sv
  ShowsError g i (Node.call callee args) =
      (ir.is_pointer i ≡ true)
      ⊎ ((cf : ℕ) × (ir.called_function i ≡ some cf) × (names_error i ≡ true))
  ShowsError g i _ = ⊥

  -- The first callee, if there is one.
  abbrev pub IsFirstCallee : ℕ → ℕ → Type 0
  IsFirstCallee c h = (hs : List ℕ) × (ctx.callees c ≡ h ∷ hs)

  -- The function that an instruction leads into: the first callee of a direct call that shows no
  -- error, or of a call whose result is returned.
  abbrev pub LeadsInto : ℕ → Node → ℕ → Type 0
  LeadsInto i (Node.call callee args) h =
      (ir.is_pointer i ≡ false)
      × (names_error i ≡ false)
      × ((cf : ℕ) × (ir.called_function i ≡ some cf))
      × IsFirstCallee i h
  LeadsInto i (Node.ret (some rv)) h =
      ((callee : ℕ) × (args : List ℕ) × (ir.node rv ≡ Node.call callee args)) × IsFirstCallee rv h
  LeadsInto i _ h = ⊥

  first_callee_iff :
      (c h : ℕ) → Memᴰ h (first_callee ir ctx c) ↔ ((hs : List ℕ) × (ctx.callees c ≡ h ∷ hs))
  first_callee_iff c h = by_callees (ctx.callees c) refl
    where
      by_callees :
          (l : List ℕ)
          → ctx.callees c ≡ l
          → Memᴰ h (elim l [ [] ↦ [] | f ∷ fs ↦ f ∷ [] ])
            ↔ ((hs : List ℕ) × (ctx.callees c ≡ h ∷ hs))
      by_callees [] e = (λ m. absurd (Memᴰ.not-nil m), λ (hs, q). cc)
      by_callees (f ∷ fs) e = (
        λ m. elim ((Memᴰ-cons h f []).0 m) [
          | inl q ↦ (fs, rw q e)
          | inr k ↦ absurd (Memᴰ.not-nil k)
        ],
        λ (hs, q). Memᴰ.head (ground arith),
      )

  -- What the inspection of an instruction shows, against the two.
  abbrev pub Agrees : ℕ → ℕ → Node → Sight → Type 0
  Agrees g i n found = ShowsError g i n
  Agrees g i n (follow fs) = (ShowsError g i n → ⊥) × ((h : ℕ) → Memᴰ h fs ↔ LeadsInto i n h)

  inspect_call-Agrees :
      (g i callee : ℕ) (args : List ℕ) → Agrees g i (Node.call callee args) (inspect_call ir ctx i)
  unfolding inspect_call
  inspect_call-Agrees g i callee args = elim (Bool-cases (ir.is_pointer i)) [
    | inl is ↦ rw is (inl is)
    | inr other ↦ rw other (elim (Option-cases (ir.called_function i)) [
      | inl away ↦ rw away (
        λ c. elim c [ inl p ↦ cc | inr (cf, d, _) ↦ cc ],
        λ h. (λ m. absurd (Memᴰ.not-nil m), λ (_, _, (cf, d), _). cc),
      )
      | inr (cf, direct) ↦ rw direct (elim (Bool-cases (names_error i)) [
        | inl named ↦ rw named (inr (cf, direct, named))
        | inr unnamed ↦ rw unnamed (
          λ c. elim c [ inl p ↦ cc | inr (_, _, n) ↦ cc ],
          λ h. (
            λ m. (other, unnamed, (cf, direct), (first_callee_iff i h).0 m),
            λ l. (first_callee_iff i h).1 (l.3),
          ),
        )
      ])
    ])
  ]

  pub inspect-Agrees :
      (fuel g i : ℕ) (s : Sight) → inspect ir ctx fuel g i ≡ some s → Agrees g i (ir.node i) s
  unfolding inspect inspect_node
  inspect-Agrees fuel g i s h = by_node (ir.node i) h
    where
      returned :
          (rv : ℕ) (m : Node)
          → ir.node rv ≡ m
          → Agrees g i
              (Node.ret (some rv))
              (elim m [ Node.call callee args ↦ follow (first_callee ir ctx rv) | _ ↦ follow [] ])
      returned rv (Node.call callee args) e = (
        λ x. x,
        λ h. (
          λ m. ((callee, args, e), (first_callee_iff rv h).0 m),
          λ l. (first_callee_iff rv h).1 (l.1),
        ),
      )
      returned rv m e =
          (λ x. x, λ h. (λ k. absurd (Memᴰ.not-nil k), λ ((callee, args, q), _). absurd (cc)))

      by_node : (n : Node) → inspect_node ir ctx fuel g i n ≡ some s → Agrees g i n s
      by_node (Node.store sv p) q =
          let (b, e, k) = >>=-eq-some (is_value_errno ir fuel sv g) _ q in
          subst (Agrees g i (Node.store sv p)) (some_inj k) (elim (Bool-cases b) [
            | inl is ↦ rw is (is_value_errno_sound ir fuel sv g (e ∙ ap some is))
            | inr not_so ↦ rw not_so (
              λ c. is_value_errno_complete ir fuel sv g c (e ∙ ap some not_so),
              λ h. (λ m. absurd (Memᴰ.not-nil m), λ x. absurd x),
            )
          ])
      by_node (Node.call callee args) q =
          subst (Agrees g i (Node.call callee args)) (some_inj q)
            (inspect_call-Agrees g i callee args)
      by_node (Node.ret (some rv)) q =
          subst (Agrees g i (Node.ret (some rv))) (some_inj q) (returned rv (ir.node rv) refl)
      by_node n q =
          subst (Agrees g i n) (some_inj q)
            (λ x. x, λ h. (λ m. absurd (Memᴰ.not-nil m), λ x. absurd x))
