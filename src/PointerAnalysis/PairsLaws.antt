-- ===== src/PointerAnalysis/PairsLaws.antt =====
-- The alias map of a function holds the pairs of its accessed pointers that may be aliases.
use mathlib.Core.List.Memᴰ
use crix.Base.{
  ℕ, ◌≤◌, ◌≡◌, ◌≢◌, subst, Bool, true, false, ◌⊎◌, inl, inr, ◌↔◌, some, some_inj, >>=-eq-some,
  for_each, List, [], ◌∷◌, Memᴰ, Memᴰ-cons, arith, if◌then◌else◌, ◌==◌, ==_iff, ltb, length, has,
  has-insert, insert, find, adjust, read, read-adjust, nat_eq, Bool-cases,
}
use crix.Ir.{Ir}
use crix.Ir.Kinds.{instructions}
use crix.PointerAnalysis.Pairs.{
  AliasResult, AliasMap, accessed, are_aliases, alias_pair, alias_row, detect_alias_pointers,
}

module _ (ir : Ir) (alias : ℕ → ℕ → AliasResult) (fuel : ℕ) where
  -- `y` stands in the alias set of `x`.
  abbrev pub Listed : AliasMap → ℕ → ℕ → Type 0
  Listed m x y = has y (read [] x m) ≡ true

  abbrev pub IsPair : ℕ → ℕ → Type 0
  IsPair x y = (x ≢ y) × (are_aliases ir alias fuel x y ≡ some true)

  adjust-Listed :
      (a b : ℕ) (m : AliasMap) (x y : ℕ)
      → Listed (adjust [] a (insert b) m) x y ↔ (Listed m x y ⊎ (x ≡ a) × (y ≡ b))
  adjust-Listed a b m x y =
      ground (arith, read-adjust [] a x (insert b) m, has-insert y b (read [] a m))

  alias_pair_iff :
      (a b : ℕ) (m r : AliasMap) (x y : ℕ)
      → alias_pair ir alias fuel a b m ≡ some r
      → Listed r x y ↔ (Listed m x y ⊎ (x ≡ a) × (y ≡ b) × IsPair x y)
  unfolding alias_pair
  alias_pair_iff a b m r x y h = elim (Bool-cases (a == b)) [
    | inl same ↦
        let q = (==_iff a b).0 same in
        subst (λ s. Listed s x y ↔ (Listed m x y ⊎ (x ≡ a) × (y ≡ b) × IsPair x y))
          (some_inj (rw (same, alias_pair) at h))
          (inl, λ o. elim o [ inl l ↦ l | inr (e, e', w) ↦ absurd (w.0 (rw (e, e') q)) ])
    | inr other ↦
        let (both, e, k) =
          >>=-eq-some (are_aliases ir alias fuel a b) _ (rw (other, alias_pair) at h) in
        by_answer other both e (some_inj k)
  ]
    where
      apart : (a == b) ≡ false → x ≡ a → y ≡ b → x ≢ y
      apart o p q = λ e. ground (arith, ==_iff a b)

      no_pair :
          x ≡ a
          → y ≡ b
          → are_aliases ir alias fuel x y ≡ some true
          → are_aliases ir alias fuel a b ≡ some false
          → ⊥
      no_pair p q w e = let e' : are_aliases ir alias fuel x y ≡ some false = rw (p, q) e in cc

      by_answer :
          (a == b) ≡ false
          → (both : Bool) → are_aliases ir alias fuel a b ≡ some both
          → (if both then adjust [] a (insert b) m else m) ≡ r
          → Listed r x y ↔ (Listed m x y ⊎ (x ≡ a) × (y ≡ b) × IsPair x y)
      by_answer o true e k =
          let (f, g) = adjust-Listed a b m x y in
          subst (λ s. Listed s x y ↔ (Listed m x y ⊎ (x ≡ a) × (y ≡ b) × IsPair x y)) k
            (
              λ l. elim (f l) [
                | inl l ↦ inl l
                | inr (p, q) ↦ inr (p, q, (apart o p q, rw (p, q) e))
              ],
              λ o. elim o [ inl l ↦ g (inl l) | inr (p, q, w) ↦ g (inr (p, q)) ],
            )
      by_answer o false e k =
          subst (λ s. Listed s x y ↔ (Listed m x y ⊎ (x ≡ a) × (y ≡ b) × IsPair x y)) k
            (inl, λ o. elim o [ inl l ↦ l | inr (p, q, w) ↦ absurd (no_pair p q w.1 e) ])

  alias_row_iff :
      (a : ℕ) (bs : List ℕ) (m r : AliasMap) (x y : ℕ)
      → alias_row ir alias fuel bs a m ≡ some r
      → Listed r x y ↔ (Listed m x y ⊎ (x ≡ a) × Memᴰ y bs × IsPair x y)
  alias_row_iff a [] m r x y h =
      subst (λ s. Listed s x y ↔ (Listed m x y ⊎ (x ≡ a) × Memᴰ y [] × IsPair x y)) (some_inj h)
        (inl, λ o. elim o [ inl l ↦ l | inr (p, k, w) ↦ absurd (Memᴰ.not-nil k) ])
  alias_row_iff a (b ∷ bs) m r x y h =
      let (m', e₁, e₂) = >>=-eq-some (alias_pair ir alias fuel a b m) _ h in
      let (f, g) = alias_pair_iff a b m m' x y e₁ in
      let (f', g') = alias_row_iff a bs m' r x y e₂ in
      (
        λ l. elim (f' l) [
          | inl l ↦ elim (f l) [ inl l ↦ inl l | inr (p, q, w) ↦ inr (p, Memᴰ.head q, w) ]
          | inr (p, k, w) ↦ inr (p, Memᴰ.tail k, w)
        ],
        λ o. elim o [
          | inl l ↦ g' (inl (g (inl l)))
          | inr (p, k, w) ↦ elim ((Memᴰ-cons y b bs).0 k) [
            | inl q ↦ g' (inl (g (inr (p, q, w))))
            | inr k ↦ g' (inr (p, k, w))
          ]
        ],
      )

  alias_rows_iff :
      (all rest : List ℕ) (m r : AliasMap) (x y : ℕ)
      → for_each (alias_row ir alias fuel all) rest m ≡ some r
      → Listed r x y ↔ (Listed m x y ⊎ Memᴰ x rest × Memᴰ y all × IsPair x y)
  alias_rows_iff all [] m r x y h =
      subst (λ s. Listed s x y ↔ (Listed m x y ⊎ Memᴰ x [] × Memᴰ y all × IsPair x y)) (some_inj h)
        (inl, λ o. elim o [ inl l ↦ l | inr (p, k, w) ↦ absurd (Memᴰ.not-nil p) ])
  alias_rows_iff all (a ∷ rest) m r x y h =
      let (m', e₁, e₂) = >>=-eq-some (alias_row ir alias fuel all a m) _ h in
      let (f, g) = alias_row_iff a all m m' x y e₁ in
      let (f', g') = alias_rows_iff all rest m' r x y e₂ in
      (
        λ l. elim (f' l) [
          | inl l ↦ elim (f l) [ inl l ↦ inl l | inr (p, k, w) ↦ inr (Memᴰ.head p, k, w) ]
          | inr (p, k, w) ↦ inr (Memᴰ.tail p, k, w)
        ],
        λ o. elim o [
          | inl l ↦ g' (inl (g (inl l)))
          | inr (p, k, w) ↦ elim ((Memᴰ-cons x a rest).0 p) [
            | inl q ↦ g' (inl (g (inr (q, k, w))))
            | inr p ↦ g' (inr (p, k, w))
          ]
        ],
      )

  -- From an empty map, if detectAliasPointers returns for a function with at most 1000 accessed
  -- pointers, a pointer stands in the alias set of another exactly if both are accessed pointers, are
  -- distinct, and the alias test of the first with the second succeeds.
  pub detect_alias_pointers_iff :
      (f : ℕ) (r : AliasMap) (x y : ℕ)
      → length (accessed ir (instructions ir f) []) ≤ 1000
      → detect_alias_pointers ir alias fuel f [] ≡ some r
      → (has y (read [] x r) ≡ true) ↔ (
          Memᴰ x (accessed ir (instructions ir f) [])
          × Memᴰ y (accessed ir (instructions ir f) [])
          × (x ≢ y)
          × (are_aliases ir alias fuel x y ≡ some true))
  unfolding detect_alias_pointers find
  detect_alias_pointers_iff f r x y few h =
      let all = accessed ir (instructions ir f) [] in
      let small : ltb 1000 (length (accessed ir (instructions ir f) [])) ≡ false = ground arith in
      let (to, from) = alias_rows_iff all all [] r x y (rw (small, detect_alias_pointers) at h) in
      (
        λ l. elim (to l) [ inl old ↦ cc | inr (p, q, w) ↦ (p, q, w.0, w.1) ],
        λ (p, q, ne, w). from (inr (p, q, (ne, w))),
      )
