-- ===== src/SecurityChecks/ErrnoValues.antt =====
-- What isValueErrno decides: a constant that is, or holds, an error code.
use mathlib.Core.List.Memᴰ
use crix.Base.{
  ℕ, zero, suc, ◌≡◌, ◌≢◌, refl, Bool, true, false, Option, some, List, [], ◌∷◌, Memᴰ, arith, nat_eq,
  ◌==◌, >>=-eq-some, Bool-cases, inl, inr, All, All-mem, All-map, ℤ, some_inj, subst, sym, ap,
}
use crix.Ir.{Ir, Node}
use crix.Ir.Kinds.{null}
use crix.SecurityChecks.Errno.{is_int_errno, any_errno, is_value_errno}

-- The operands of a constant expression.
abbrev pub nested : Node → List ℕ
nested (Node.constant_expr o os) = o ∷ os
nested _ = []

any_errno-true :
    (go : ℕ → Option Bool) (os : List ℕ)
    → any_errno go os ≡ some true
    → (o : ℕ) × Memᴰ o os × (go o ≡ some true)
unfolding any_errno
any_errno-true go [] h = cc
any_errno-true go (o ∷ os) h =
    let (b, e, k) = >>=-eq-some (go o) _ h in
    elim (Bool-cases b) [
      | inl is ↦ (o, Memᴰ.head refl, rw e (ap some is))
      | inr no_code ↦
          let (o', m, q) = any_errno-true go os (rw no_code at k) in (o', Memᴰ.tail m, q)
    ]

any_errno-false :
    (go : ℕ → Option Bool) (os : List ℕ)
    → any_errno go os ≡ some false
    → All (λ o. go o ≡ some false) os
unfolding any_errno
any_errno-false go [] h = tt
any_errno-false go (o ∷ os) h =
    let (b, e, k) = >>=-eq-some (go o) _ h in
    elim (Bool-cases b) [
      | inl is ↦ absurd (cc (rw is at k))
      | inr no_code ↦ (rw e (ap some no_code), any_errno-false go os (rw no_code at k))
    ]

any_errno_total :
    (go : ℕ → Option Bool) (os : List ℕ)
    → All (λ o. (b : Bool) × (go o ≡ some b)) os
    → (b : Bool) × (any_errno go os ≡ some b)
unfolding any_errno
any_errno_total go [] h = (false, refl)
any_errno_total go (o ∷ os) h = elim (Bool-cases h.0.0) [
  | inl is ↦ (true, rw h.0.1 (rw is refl))
  | inr no_code ↦ let (b, e) = any_errno_total go os h.1 in (b, rw h.0.1 (rw no_code e))
]

module _ (ir : Ir) where
  -- An error code, where the value stands in the function `f`: an integer that is one, the null
  -- constant in a function that returns a pointer, or a constant expression with an operand that is.
  pub data IsErrnoValue (f : ℕ) : ℕ → Type 0 where
    code :
        {v : ℕ} {value : ℤ}
        → v ≢ null
        → ir.node v ≡ Node.constant_int value
        → is_int_errno value ≡ true
        → IsErrnoValue f v
    null_pointer :
        {v : ℕ}
        → v ≢ null
        → ir.node v ≡ Node.constant_null
        → ir.returns_pointer f ≡ true
        → IsErrnoValue f v
    in_expression :
        {v o : ℕ} → v ≢ null → Memᴰ o (nested (ir.node v)) → IsErrnoValue f o → IsErrnoValue f v

  -- Constant expressions are nested less deep than `n` under the value.
  abbrev pub NestsBelow : ℕ → ℕ → Type 0
  NestsBelow zero v = true ≡ false
  NestsBelow (suc n) v = All (NestsBelow n) (nested (ir.node v))

  pub is_value_errno_sound :
      (fuel v f : ℕ) → is_value_errno ir fuel v f ≡ some true → IsErrnoValue f v
  unfolding is_value_errno
  is_value_errno_sound zero v f h = cc
  is_value_errno_sound (suc fuel) v f h = elim (Bool-cases (v == null)) [
    | inl is_null ↦ absurd (cc (rw is_null at h))
    | inr there ↦
        by_node (ir.node v) refl (ground arith)
          (λ os q. any_errno-true (λ o. is_value_errno ir fuel o f) os q)
          (λ o q. is_value_errno_sound fuel o f q) (rw there at h)
  ]
    where
      by_node :
          (n : Node)
          → ir.node v ≡ n
          → v ≢ null
          → ((os : List ℕ)
              → any_errno (λ o. is_value_errno ir fuel o f) os ≡ some true
              → (o : ℕ) × Memᴰ o os × (is_value_errno ir fuel o f ≡ some true))
          → ((o : ℕ) → is_value_errno ir fuel o f ≡ some true → IsErrnoValue f o)
          → elim n [
            | Node.constant_int value ↦ some (is_int_errno value)
            | Node.constant_null ↦ some (ir.returns_pointer f)
            | Node.constant_expr o os ↦ any_errno (λ o. is_value_errno ir fuel o f) (o ∷ os)
            | _ ↦ some false
          ]
            ≡ some true
          → IsErrnoValue f v
      by_node (Node.constant_int value) e real operands ih q = IsErrnoValue.code real e (some_inj q)
      by_node Node.constant_null e real operands ih q =
          IsErrnoValue.null_pointer real e (some_inj q)
      by_node (Node.constant_expr o os) e real operands ih q =
          let (o', m, k) = operands (o ∷ os) q in
          IsErrnoValue.in_expression real (subst (λ n. Memᴰ o' (nested n)) (sym e) m) (ih o' k)
      by_node n e real operands ih q = absurd (cc)

  pub is_value_errno_complete :
      (fuel v f : ℕ) → IsErrnoValue f v → is_value_errno ir fuel v f ≢ some false
  unfolding is_value_errno
  is_value_errno_complete zero v f w h = cc
  is_value_errno_complete (suc fuel) v f (IsErrnoValue.code real e is) h =
      let there : (v == null) ≡ false = ground arith in cc (rw (there, e, is) at h)
  is_value_errno_complete (suc fuel) v f (IsErrnoValue.null_pointer real e is) h =
      let there : (v == null) ≡ false = ground arith in cc (rw (there, e, is) at h)
  is_value_errno_complete (suc fuel) v f (IsErrnoValue.in_expression {o} real m w) h =
      let there : (v == null) ≡ false = ground arith in
      by_node (ir.node v) (is_value_errno_complete fuel o f w) m (rw there at h)
    where
      by_node :
          (n : Node)
          → is_value_errno ir fuel o f ≢ some false
          → Memᴰ o (nested n)
          → elim n [
            | Node.constant_int value ↦ some (is_int_errno value)
            | Node.constant_null ↦ some (ir.returns_pointer f)
            | Node.constant_expr o os ↦ any_errno (λ o. is_value_errno ir fuel o f) (o ∷ os)
            | _ ↦ some false
          ]
            ≢ some false
      by_node (Node.constant_expr x xs) ih m q =
          ih (All-mem _ (x ∷ xs) (any_errno-false (λ o. is_value_errno ir fuel o f) (x ∷ xs) q) m)
      by_node n ih m q = Memᴰ.not-nil m

  pub is_value_errno_total :
      (fuel v f : ℕ) → NestsBelow fuel v → (b : Bool) × (is_value_errno ir fuel v f ≡ some b)
  unfolding is_value_errno
  is_value_errno_total zero v f h = absurd (cc)
  is_value_errno_total (suc fuel) v f h = elim (Bool-cases (v == null)) [
    | inl is_null ↦ (false, rw is_null refl)
    | inr there ↦
        let (b, e) = by_node (ir.node v) (
          any_errno_total (λ o. is_value_errno ir fuel o f) (nested (ir.node v))
            (All-map (λ o below. is_value_errno_total fuel o f below) (nested (ir.node v)) h)) in
        (b, rw there e)
  ]
    where
      by_node :
          (n : Node)
          → ((b : Bool) × (any_errno (λ o. is_value_errno ir fuel o f) (nested n) ≡ some b))
          → (b : Bool) × (elim n [
            | Node.constant_int value ↦ some (is_int_errno value)
            | Node.constant_null ↦ some (ir.returns_pointer f)
            | Node.constant_expr o os ↦ any_errno (λ o. is_value_errno ir fuel o f) (o ∷ os)
            | _ ↦ some false
          ]
              ≡ some b)
      by_node (Node.constant_int value) any = (is_int_errno value, refl)
      by_node Node.constant_null any = (ir.returns_pointer f, refl)
      by_node (Node.constant_expr o os) any = any
      by_node n any = (false, refl)
