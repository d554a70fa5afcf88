-- ===== src/DataFlow/OrderLaws.antt =====
-- What possibleUseStResult decides.
use mathlib.Core.List.Memᴰ
use crix.Base.{
  ℕ, ◌≡◌, ◌≢◌, refl, sym, ap, Bool, true, false, ◌||◌, ◌⊎◌, inl, inr, ◌↔◌, some, List, [], ◌∷◌,
  ◌++◌, Memᴰ, Memᴰ-cons, arith, nat_eq, ◌==◌, ==_iff, subst, some_inj, Bool-cases,
}
use crix.Ir.{Ir}
use crix.Ir.Kinds.{null}
use crix.Worklist.Search.{found, follow, Reaches, search, search-Post}
use crix.DataFlow.Order.{meets_first, look_for_block, possible_use_st_result}
use crix.DataFlow.ReachLaws.{Route, stay, extend}

-- The store stands in the list, and the instruction not before it.
abbrev pub StandsFirst : ℕ → ℕ → List ℕ → Type 0
StandsFirst inst st is =
    (before : List ℕ) × (after : List ℕ) × (is ≡ before ++ st ∷ after) × (Memᴰ inst before → ⊥)

meets_first_iff :
    (inst st : ℕ) (is : List ℕ) → (meets_first inst st is ≡ true) ↔ StandsFirst inst st is
unfolding meets_first
meets_first_iff inst st [] = (λ h. cc, λ (before, after, e, out). absurd (no_room before after e))
  where
    no_room : (before after : List ℕ) → [] ≡ before ++ st ∷ after → ⊥
    no_room [] after e = cc
    no_room (x ∷ before) after e = cc
meets_first_iff inst st (ii ∷ is) =
    let (f, g) = meets_first_iff inst st is in
    (to f, λ (before, after, e, out). from g before after e out)
  where
    to :
        (meets_first inst st is ≡ true → StandsFirst inst st is)
        → meets_first inst st (ii ∷ is) ≡ true
        → StandsFirst inst st (ii ∷ is)
    to f h = elim (Bool-cases (ii == st)) [
      | inl same ↦ ([], is, ap (λ x. x ∷ is) ((==_iff ii st).0 same), λ m. absurd (Memᴰ.not-nil m))
      | inr other ↦ elim (Bool-cases (ii == inst)) [
        | inl bad ↦ let k : false ≡ true = rw (other, bad, meets_first) at h in cc
        | inr good ↦
            let (before, after, e, out) = f (rw (other, good, meets_first) at h) in
            (
              ii ∷ before,
              after,
              ap (λ xs. ii ∷ xs) e,
              λ m. elim ((Memᴰ-cons inst ii before).0 m) [
                | inl q ↦ ground (arith, ==_iff ii inst)
                | inr k ↦ out k
              ],
            )
      ]
    ]

    from :
        (StandsFirst inst st is → meets_first inst st is ≡ true)
        → (before after : List ℕ) → ii ∷ is ≡ before ++ st ∷ after
        → (Memᴰ inst before → ⊥)
        → meets_first inst st (ii ∷ is) ≡ true
    from g [] after e out = let q : ii ≡ st = ground arith in ground (arith, ==_iff ii st)
    from g (x ∷ before) after e out =
        let q : ii ≡ x = ground arith in
        let p : is ≡ before ++ st ∷ after = ground arith in
        let apart : (ii == inst) ≡ false = elim (Bool-cases (ii == inst)) [
          | inl same ↦ absurd (out (Memᴰ.head (sym ((==_iff x inst).0 (rw (← q) same)))))
          | inr other ↦ other
        ] in
        let rest = g (before, after, p, λ m. out (Memᴰ.tail m)) in ground arith

module _ (ir : Ir) where
  Reaches-Route : (t a : ℕ) {b : ℕ} → Reaches (look_for_block ir t) a b → Route ir.succs a b
  unfolding look_for_block
  Reaches-Route t a Reaches.here = stay
  Reaches-Route t a (Reaches.step {i} {j} {new} r e m) = elim (Bool-cases (i == t)) [
    | inl last ↦ let k : some found ≡ some (follow new) = rw (last, look_for_block) at e in cc
    | inr on ↦
        let k : some (follow (ir.succs i)) ≡ some (follow new) = rw (on, look_for_block) at e in
        let q : new ≡ ir.succs i = ground arith in extend (Reaches-Route t a r) (subst (Memᴰ j) q m)
  ]

  Route-Reaches :
      (t a : ℕ)
      → ((j : ℕ)
          → Reaches (look_for_block ir t) a j
          → (new : List ℕ) × (look_for_block ir t j ≡ some (follow new)))
      → {b : ℕ} → Route ir.succs a b
      → Reaches (look_for_block ir t) a b
  unfolding look_for_block
  Route-Reaches t a all stay = Reaches.here
  Route-Reaches t a all (extend {b} {c} p m) =
      let r = Route-Reaches t a all p in
      let (new, e) = all b r in
      elim (Bool-cases (b == t)) [
        | inl last ↦ let k : some found ≡ some (follow new) = rw (last, look_for_block) at e in cc
        | inr on ↦
            let k : some (follow (ir.succs b)) ≡ some (follow new) = rw (on, look_for_block) at e in
            let q : ir.succs b ≡ new = ground arith in Reaches.step r e (subst (Memᴰ c) q m)
      ]

  search_blocks_iff :
      (fuel t a : ℕ) (answer : Bool)
      → search (look_for_block ir t) fuel a ≡ some answer
      → (answer ≡ true) ↔ Route ir.succs a t
  unfolding look_for_block
  search_blocks_iff fuel t a answer h =
      let post = search-Post (look_for_block ir t) fuel a answer h in
      (
        λ is.
            let (j, r, e) = post.0 is in
            subst (Route ir.succs a) (at_end j e) (Reaches-Route t a r),
        λ p. elim (Bool-cases answer) [
          | inl is ↦ is
          | inr not_so ↦
              let (new, e) = post.1 not_so t (Route-Reaches t a (post.1 not_so) p) in
              absurd (not_followed e)
        ],
      )
    where
      at_end : (j : ℕ) → look_for_block ir t j ≡ some found → j ≡ t
      at_end j e = elim (Bool-cases (j == t)) [
        | inl last ↦ (==_iff j t).0 last
        | inr on ↦
            let k : some (follow (ir.succs j)) ≡ some found = rw (on, look_for_block) at e in cc
      ]

      not_followed : {new : List ℕ} → look_for_block ir t t ≡ some (follow new) → ⊥
      not_followed {new} e =
          let same : (t == t) ≡ true = (==_iff t t).1 refl in
          let k : some found ≡ some (follow new) = rw (same, look_for_block) at e in cc

  -- Of an instruction and a store in blocks that are not null: if possibleUseStResult returns, then
  -- with true exactly when the two share a block in which the store stands and the instruction not
  -- before it, or stand in two blocks and a path of successors leads from the store's block to the
  -- other.
  pub possible_use_st_result_iff :
      (fuel inst st : ℕ) (answer : Bool)
      → ir.parent inst ≢ null
      → ir.parent st ≢ null
      → possible_use_st_result ir fuel inst st ≡ some answer
      → (answer ≡ true) ↔ (
          (ir.parent inst ≡ ir.parent st) × StandsFirst inst st (ir.body (ir.parent inst))
          ⊎ ((ir.parent inst ≢ ir.parent st) × Route ir.succs (ir.parent st) (ir.parent inst)))
  unfolding possible_use_st_result
  possible_use_st_result_iff fuel inst st answer here there h =
      let no_null : (ir.parent inst == null || ir.parent st == null) ≡ false = ground arith in
      elim (Bool-cases (ir.parent inst == ir.parent st)) [
        | inl same ↦
            let q = (==_iff (ir.parent inst) (ir.parent st)).0 same in
            let e : meets_first inst st (ir.body (ir.parent inst)) ≡ answer =
              some_inj (rw (no_null, same, possible_use_st_result) at h) in
            let (f, g) = meets_first_iff inst st (ir.body (ir.parent inst)) in
            (
              λ is. inl (q, f (rw e is)),
              λ o. elim o [ inl (_, s) ↦ rw (← e) (g s) | inr (apart, _) ↦ absurd (apart q) ],
            )
        | inr other ↦
            let apart : ir.parent inst ≢ ir.parent st =
              λ q. ground (arith, ==_iff (ir.parent inst) (ir.parent st)) in
            let (f, g) =
              search_blocks_iff fuel (ir.parent inst) (ir.parent st) answer
                (rw (no_null, other, possible_use_st_result) at h) in
            (
              λ is. inr (apart, f is),
              λ o. elim o [ inl (q, _) ↦ absurd (apart q) | inr (_, p) ↦ g p ],
            )
      ]
