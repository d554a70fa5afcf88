-- ===== src/Walk/Rules.antt =====
-- What a finished walk has done: an invariant rule, and the closure of what it tracked.
use crix.Base.{
  ℕ, zero, suc, ◌≡◌, Bool, ◌||◌, inl, inr, Option, some, List, [], ◌∷◌, arith, has, insert, nat_eq,
  All, Bool-cases, >>=-eq-some,
}
use crix.Walk.{Trace, Act, visit, note, visits, notes, run_acts, walk}

module _ {ℓ κ μ} {I : Type ℓ} {N : Type κ} {A : Type μ} (key : I → ℕ) (apply : N → A → A)
    (done : A → Bool) (plan : I → Option (List (Act I N))) where
  -- `Good` says which items the walk meets, and `P` is kept by the additions of a good item.
  pub record Keeps {ν ρ} (Good : I → Type ν) (P : A → Type ρ) : Type (ℓ ⊔ κ ⊔ μ ⊔ ν ⊔ ρ) where
    pub stays :
        (i : I) (acts : List (Act I N)) → Good i → plan i ≡ some acts → All Good (visits acts)
    pub adds :
        (i : I) (acts : List (Act I N))
        → Good i
        → plan i ≡ some acts
        → All (λ n. (b : A) → P b → P (apply n b)) (notes acts)

  run_acts_inv {ν ρ} :
      (Good : I → Type ν) (P : A → Type ρ) (go : I → Trace A → Option (Trace A))
      → ((i : I) (t r : Trace A) → Good i → P t.acc → go i t ≡ some r → P r.acc)
      → (acts : List (Act I N)) (t r : Trace A) → All Good (visits acts)
      → All (λ n. (b : A) → P b → P (apply n b)) (notes acts)
      → P t.acc
      → run_acts key apply done plan go acts t ≡ some r
      → P r.acc
  unfolding run_acts
  run_acts_inv Good P go ih [] t r g k p e = ground arith
  run_acts_inv Good P go ih (visit i ∷ acts) t r g k p e =
      let (m, e₁, e₂) = >>=-eq-some (go i t) (run_acts key apply done plan go acts) e in
      run_acts_inv Good P go ih acts m r g.1 k (ih i t m g.0 p e₁) e₂
  run_acts_inv Good P go ih (note n ∷ acts) t r g k p e =
      run_acts_inv Good P go ih acts (record t { acc = apply n t.acc }) r g k.1 (k.0 t.acc p) e

  pub walk_inv {ν ρ} :
      (Good : I → Type ν) (P : A → Type ρ)
      → Keeps Good P
      → (f : ℕ) (i : I) (t r : Trace A) → Good i
      → P t.acc
      → walk key apply done plan f i t ≡ some r
      → P r.acc
  unfolding walk
  walk_inv Good P keep zero i t r g p e = cc
  walk_inv Good P keep (suc f) i t r g p e = elim (Bool-cases (done t.acc || has (key i) t.seen)) [
    | inl stop ↦ let e' : some t ≡ some r = rw (stop, walk) at e in ground arith
    | inr fresh ↦
        let t' : Trace A = record t { seen = insert (key i) t.seen } in
        let (acts, e₁, e₂) =
          >>=-eq-some (plan i)
            (λ acts. run_acts key apply done plan (walk key apply done plan f) acts t')
            (rw (fresh, walk) at e) in
        run_acts_inv Good P (walk key apply done plan f) (walk_inv Good P keep f) acts t' r
          (keep.stays i acts g e₁) (keep.adds i acts g e₁) p e₂
  ]
