-- ===== src/DataFlow/InFunctionPlan.antt =====
-- The calls and marks of findInFuncSourceCV are its steps back and its marks.
use mathlib.Core.List.Memᴰ
use crix.Base.{
  ℕ, ◌≡◌, refl, sym, ap, true, false, ◌⊎◌, inl, inr, ◌↔◌, some, List, [], ◌∷◌, Memᴰ, Memᴰ-cons,
  Memᴰ-append, arith, nat_eq, subst, Bool-cases, >>=-eq-some, some_inj,
}
use crix.Ir.{Ir, Node}
use crix.Ir.Kinds.{is_constant}
use crix.Context.{Context}
use crix.DataFlow.Aliases.{get_alias_pointers}
use crix.DataFlow.Reach.{collect_pred_reach_blocks}
use crix.DataFlow.ReachLaws.{collect_pred_reach_blocks_iff}
use crix.Walk.{Act, visit, note, visits, notes}
use crix.Walk.Steps.{Describes}
use crix.Walk.Visits.{notes-append}
use crix.Walk.Members.{visits-append, Memᴰ-none, Memᴰ-one, Memᴰ-two}
use crix.DataFlow.InFunction.{
  Mark, source, variable, add_mark, goes_on, visit_incoming, in_func_aliases, in_func_load,
  in_func_node, in_func_acts,
}
use crix.DataFlow.InFunctionSteps.{
  value_of, Split, IsStored, IsPassed, ComesFrom, IsSource, IsVariable, StepsBack, MarksIt, unused,
  only, both,
}
use crix.DataFlow.InFunctionFits.{aliases-Fits}

incoming_iff :
    (incoming : List (ℕ × ℕ)) (w : ℕ)
    → Memᴰ w (visits (visit_incoming incoming)) ↔ ((b : ℕ) × Memᴰ (w, b) incoming)
incoming_iff [] w = (λ m. absurd (Memᴰ.not-nil m), λ (b, m). absurd (Memᴰ.not-nil m))
incoming_iff ((x, bb) ∷ rest) w = (
  λ m. elim ((Memᴰ-cons w x _).0 m) [
    | inl e ↦ (bb, Memᴰ.head (ap (λ y. (y, bb)) e))
    | inr k ↦ let (b, l) = (incoming_iff rest w).0 k in (b, Memᴰ.tail l)
  ],
  λ (b, m). elim ((Memᴰ-cons (w, b) (x, bb) rest).0 m) [
    | inl e ↦ Memᴰ.head (ap (λ (q : ℕ × ℕ). q.0) e)
    | inr k ↦ Memᴰ.tail ((incoming_iff rest w).1 (b, k))
  ],
)

incoming-quiet : (incoming : List (ℕ × ℕ)) → notes (visit_incoming incoming) ≡ []
incoming-quiet [] = refl
incoming-quiet ((x, bb) ∷ rest) = incoming-quiet rest

module _ (ir : Ir) (ctx : Context) where
  abbrev Fits : ℕ → Node → List (Act ℕ Mark) → Type 0
  Fits v n acts =
      ((w : ℕ) → Memᴰ w (visits acts) ↔ ComesFrom ir ctx v n w)
      × ((m : Mark) → Memᴰ m (notes acts) ↔ Split (IsSource ir ctx v n) (IsVariable ir ctx v n) m)

  fits :
      (v : ℕ) (n : Node) {acts acts' : List (Act ℕ Mark)}
      → some acts ≡ some acts'
      → Fits v n acts
      → Fits v n acts'
  fits v n e h = subst (Fits v n) (some_inj e) h

  load-visits :
      (fuel v p : ℕ) (reach : List ℕ) (w : ℕ)
      → collect_pred_reach_blocks ir fuel (ir.parent v) [] ≡ some reach
      → Memᴰ w (visits (in_func_load ir ctx v p reach)) ↔ (IsStored ir ctx v p w ⊎ (w ≡ p))
  unfolding in_func_load
  load-visits fuel v p reach w e =
      let aliases = get_alias_pointers p (ctx.func_pa_results (ir.block_parent (ir.parent v))) in
      let (f, g) = (aliases-Fits ir ctx reach aliases).0 w in
      let q = visits-append (in_func_aliases ir ctx reach aliases) (visit p ∷ []) in
      let path = λ (b : ℕ). collect_pred_reach_blocks_iff ir fuel (ir.parent v) b reach e in
      (
        λ m.
            elim ((Memᴰ-append w (visits (in_func_aliases ir ctx reach aliases)) (p ∷ [])).0
              (subst (Memᴰ w) q m)) [
                | inl k ↦
                    let (a, u, there, there', ((is, inside), is_store)) = f k in
                    inl (a, u, (there, there', is, (path (ir.parent u)).0 inside), is_store)
                | inr k ↦ inr ((Memᴰ-one p w).0 k)
              ],
        λ o. subst (Memᴰ w) (sym q) (elim o [
          | inl (a, u, (there, there', is, way), is_store) ↦
              Memᴰ.append_left (p ∷ [])
                (g (a, u, there, there', ((is, (path (ir.parent u)).1 way), is_store)))
          | inr same ↦
              Memᴰ.append_right (visits (in_func_aliases ir ctx reach aliases)) (Memᴰ.head same)
        ]),
      )

  load-notes :
      (fuel v p : ℕ) (reach : List ℕ) (m : Mark)
      → collect_pred_reach_blocks ir fuel (ir.parent v) [] ≡ some reach
      → Memᴰ m (notes (in_func_load ir ctx v p reach))
        ↔ ((m ≡ variable v) ⊎ IsPassed ir ctx v p (value_of m))
  unfolding in_func_load
  load-notes fuel v p reach m e =
      let aliases = get_alias_pointers p (ctx.func_pa_results (ir.block_parent (ir.parent v))) in
      let (f, g) = (aliases-Fits ir ctx reach aliases).1 m in
      let q = notes-append (in_func_aliases ir ctx reach aliases) (visit p ∷ []) in
      let path = λ (b : ℕ). collect_pred_reach_blocks_iff ir fuel (ir.parent v) b reach e in
      (
        λ k. elim ((Memᴰ-cons m (variable v) _).0 k) [
          | inl same ↦ inl same
          | inr k' ↦
              elim ((Memᴰ-append m (notes (in_func_aliases ir ctx reach aliases)) []).0
                (subst (Memᴰ m) q k')) [
                  | inl l ↦
                      let (a, u, there, there', ((is, inside), call)) = f l in
                      inr (a, u, (there, there', is, (path (ir.parent u)).0 inside), call)
                  | inr l ↦ absurd (Memᴰ.not-nil l)
                ]
        ],
        λ o. elim o [
          | inl same ↦ Memᴰ.head same
          | inr (a, u, (there, there', is, way), call) ↦ Memᴰ.tail (
              subst (Memᴰ m) (sym q) (
                Memᴰ.append_left []
                  (g (a, u, there, there', ((is, (path (ir.parent u)).1 way), call)))))
        ],
      )

  load_marks :
      (fuel v p : ℕ) (reach : List ℕ) (m : Mark)
      → collect_pred_reach_blocks ir fuel (ir.parent v) [] ≡ some reach
      → Memᴰ m (notes (in_func_load ir ctx v p reach))
        ↔ Split (IsPassed ir ctx v p) (λ w. (w ≡ v) ⊎ IsPassed ir ctx v p w) m
  load_marks fuel v p reach (source w) e =
      let (f, g) = load-notes fuel v p reach (source w) e in
      (λ k. elim (f k) [ inl q ↦ absurd (cc) | inr t ↦ t ], λ t. g (inr t))
  load_marks fuel v p reach (variable w) e =
      let (f, g) = load-notes fuel v p reach (variable w) e in
      (
        λ k. elim (f k) [ inl q ↦ inl (ground arith) | inr t ↦ inr t ],
        λ o. g (elim o [ inl q ↦ inl (ap variable q) | inr t ↦ inr t ]),
      )

  node-Fits :
      (fuel v : ℕ) (n : Node) (acts : List (Act ℕ Mark))
      → in_func_node ir ctx fuel v n ≡ some acts
      → Fits v n acts
  unfolding in_func_node
  node-Fits fuel v (Node.argument f) acts e = fits v (Node.argument f) e (Memᴰ-none, both v)
  node-Fits fuel v (Node.alloca o) acts e = fits v (Node.alloca o) e (Memᴰ-none, both v)
  node-Fits fuel v (Node.constant_expr o os) acts e =
      fits v (Node.constant_expr o os) e (Memᴰ-one o, unused)
  node-Fits fuel v (Node.call callee args) acts e =
      fits v (Node.call callee args) e (Memᴰ-none, both v)
  node-Fits fuel v (Node.select c t f) acts e = fits v (Node.select c t f) e (Memᴰ-two t f, only v)
  node-Fits fuel v (Node.gep p) acts e = fits v (Node.gep p) e (Memᴰ-one p, only v)
  node-Fits fuel v (Node.phi incoming) acts e =
      fits v (Node.phi incoming) e
        (incoming_iff incoming, λ m. rw (incoming-quiet incoming) (only v m))
  node-Fits fuel v (Node.load p) acts e =
      let (reach, found, q) =
        >>=-eq-some (collect_pred_reach_blocks ir fuel (ir.parent v) []) _ e in
      fits v (Node.load p) q
        (λ w. load-visits fuel v p reach w found, λ m. load_marks fuel v p reach m found)
  node-Fits fuel v (Node.icmp p a b) acts e = fits v (Node.icmp p a b) e (Memᴰ-none, only v)
  node-Fits fuel v (Node.cast o) acts e = fits v (Node.cast o) e (Memᴰ-one o, only v)
  node-Fits fuel v (Node.extract_value o) acts e =
      fits v (Node.extract_value o) e (Memᴰ-one o, only v)
  node-Fits fuel v (Node.unary o) acts e = fits v (Node.unary o) e (Memᴰ-one o, only v)
  node-Fits fuel v (Node.binary a b) acts e = fits v (Node.binary a b) e (Memᴰ-two a b, only v)
  node-Fits fuel v n acts e = fits v n e (Memᴰ-none, unused)

  abbrev Both : ℕ → List (Act ℕ Mark) → Type 0
  Both v acts =
      ((j : ℕ) → Memᴰ j (visits acts) ↔ StepsBack ir ctx v j)
      × ((n : Mark) → Memᴰ n (notes acts) ↔ MarksIt ir ctx v n)

  -- The plan of the walk is the step back and the marks.
  pub in_func_acts-Fits :
      (fuel : ℕ)
      → Describes add_mark goes_on (in_func_acts ir ctx fuel) (StepsBack ir ctx) (MarksIt ir ctx)
  unfolding in_func_acts
  in_func_acts-Fits fuel v acts e = elim (Bool-cases (is_constant ir v)) [
    | inl is ↦
        let q : some (note (source v) ∷ note (variable v) ∷ []) ≡ some acts = rw is at e in
        subst (Both v) (some_inj q)
          (λ w. (λ m. absurd (Memᴰ.not-nil m), λ (h, _). absurd (cc)), constant_marks is)
    | inr other ↦
        let (f, g) = node-Fits fuel v (ir.node v) acts (rw other at e) in
        (λ w. (λ m. (other, (f w).0 m), λ (_, t). (f w).1 t), λ m. plain_marks other m (g m))
  ]
    where
      constant_marks :
          is_constant ir v ≡ true
          → (m : Mark) → Memᴰ m (source v ∷ variable v ∷ []) ↔ MarksIt ir ctx v m
      constant_marks is (source w) =
          let (f, g) = both v (source w) in
          (λ k. inl (is, f k), λ o. elim o [ inl (_, q) ↦ g q | inr (h, _) ↦ absurd (cc) ])
      constant_marks is (variable w) =
          let (f, g) = both v (variable w) in
          (λ k. inl (is, f k), λ o. elim o [ inl (_, q) ↦ g q | inr (h, _) ↦ absurd (cc) ])

      plain_marks :
          {l : List Mark}
          → is_constant ir v ≡ false
          → (m : Mark)
          → (Memᴰ m l ↔ Split (IsSource ir ctx v (ir.node v)) (IsVariable ir ctx v (ir.node v)) m)
          → Memᴰ m l ↔ MarksIt ir ctx v m
      plain_marks other (source w) (f, g) =
          (λ k. inr (other, f k), λ o. elim o [ inl (h, _) ↦ absurd (cc) | inr (_, t) ↦ g t ])
      plain_marks other (variable w) (f, g) =
          (λ k. inr (other, f k), λ o. elim o [ inl (h, _) ↦ absurd (cc) | inr (_, t) ↦ g t ])
