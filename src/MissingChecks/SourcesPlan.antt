-- ===== src/MissingChecks/SourcesPlan.antt =====
-- The calls and insertions of findSourceCV are its steps back and its origins.
use mathlib.Core.List.Memᴰ
use crix.Base.{
  ℕ, ◌≡◌, refl, sym, ap, true, false, ◌⊎◌, inl, inr, ◌↔◌, some, List, [], ◌∷◌, ◌++◌, Memᴰ,
  Memᴰ-cons, Memᴰ-append, arith, has, insert, nat_eq, subst, Bool-cases, flat_map, ◌==◌,
  >>=-eq-some, some_inj,
}
use crix.Ir.{Ir, Node}
use crix.Ir.Kinds.{is_constant_node}
use crix.Context.{Context}
use crix.DataFlow.Aliases.{get_alias_pointers}
use crix.DataFlow.Reach.{collect_pred_reach_blocks}
use crix.DataFlow.ReachLaws.{collect_pred_reach_blocks_iff}
use crix.Walk.{Act, visit, visits, notes}
use crix.Walk.Steps.{Describes}
use crix.Walk.Visits.{notes-append, notes-flat_map}
use crix.Walk.Members.{visits-append, Memᴰ-visits, Memᴰ-none, Memᴰ-one, Memᴰ-two}
use crix.MissingChecks.Sources.{
  goes_on, if_variable, visit_incoming, stored_source, load_sources, source_node, source_plan,
}
use crix.MissingChecks.SourcesSteps.{IsStored, ComesFrom, IsOrigin}

module _ (ir : Ir) (ctx : Context) where
  abbrev Fits : ℕ → Node → List (Act ℕ ℕ) → Type 0
  Fits v n acts =
      ((w : ℕ) → Memᴰ w (visits acts) ↔ ComesFrom ir ctx v n w)
      × ((w : ℕ) → Memᴰ w (notes acts) ↔ (IsOrigin ir ctx n × (w ≡ v)))

  fits :
      (v : ℕ) (n : Node) {acts acts' : List (Act ℕ ℕ)}
      → some acts ≡ some acts'
      → Fits v n acts
      → Fits v n acts'
  fits v n e h = subst (Fits v n) (some_inj e) h

  not_origin : (w v : ℕ) → Memᴰ w [] ↔ (⊥ × (w ≡ v))
  not_origin w v = (λ m. absurd (Memᴰ.not-nil m), λ (h, _). absurd h)

  origin : (w v : ℕ) → Memᴰ w (v ∷ []) ↔ (Unit {0} × (w ≡ v))
  origin w v = (λ m. (tt, (Memᴰ-one v w).0 m), λ (_, e). Memᴰ.head e)

  incoming_iff :
      (incoming : List (ℕ × ℕ)) (w : ℕ)
      → Memᴰ w (visits (visit_incoming incoming)) ↔ ((b : ℕ) × Memᴰ (w, b) incoming)
  incoming_iff [] w = (λ m. absurd (Memᴰ.not-nil m), λ (b, m). absurd (Memᴰ.not-nil m))
  incoming_iff ((x, bb) ∷ rest) w = (
    λ m. elim ((Memᴰ-cons w x _).0 m) [
      | inl e ↦ (bb, Memᴰ.head (ap (λ y. (y, bb)) e))
      | inr k ↦ let (b, l) = (incoming_iff rest w).0 k in (b, Memᴰ.tail l)
    ],
    λ (b, m). elim ((Memᴰ-cons (w, b) (x, bb) rest).0 m) [
      | inl e ↦ Memᴰ.head (ap (λ (q : ℕ × ℕ). q.0) e)
      | inr k ↦ Memᴰ.tail ((incoming_iff rest w).1 (b, k))
    ],
  )

  incoming-quiet : (incoming : List (ℕ × ℕ)) → notes (visit_incoming incoming) ≡ []
  incoming-quiet [] = refl
  incoming-quiet ((x, bb) ∷ rest) = incoming-quiet rest

  stored_source-quiet :
      (reach : List ℕ) (a u : ℕ) (n : Node) → notes (stored_source ir ctx reach a u n) ≡ []
  unfolding stored_source
  stored_source-quiet reach a u (Node.store sv p) = ground arith
  stored_source-quiet reach a u n = refl

  stored_source_iff :
      (reach : List ℕ) (a u : ℕ) (n : Node) (w : ℕ)
      → Memᴰ w (visits (stored_source ir ctx reach a u n))
        ↔ ((n ≡ Node.store w a) × (has (ir.parent u) reach ≡ true))
  unfolding stored_source
  stored_source_iff reach a u (Node.store sv p) w = elim (Bool-cases (a == p)) [
    | inr other ↦ rw other (λ m. absurd (Memᴰ.not-nil m), λ (e, _). absurd (ground arith))
    | inl same ↦
        let q : p ≡ a = ground arith in
        rw same (elim (Bool-cases (has (ir.parent u) reach)) [
          | inl inside ↦
              rw inside
                (λ m. (rw ((Memᴰ-one sv w).0 m, q) refl, refl), λ (e, _). Memᴰ.head (ground arith))
          | inr out ↦ rw out (λ m. absurd (Memᴰ.not-nil m), λ (_, h). absurd (cc))
        ])
  ]
  stored_source_iff reach a u n w = (λ m. absurd (Memᴰ.not-nil m), λ (e, _). absurd (cc))

  load_sources_iff :
      (fuel v p : ℕ) (reach : List ℕ) (w : ℕ)
      → collect_pred_reach_blocks ir fuel (ir.parent v) [] ≡ some reach
      → Memᴰ w (visits (load_sources ir ctx v p reach)) ↔ (IsStored ir ctx v p w ⊎ (w ≡ p))
  unfolding load_sources
  load_sources_iff fuel v p reach w e =
      let store_of = λ (a u : ℕ). stored_source ir ctx reach a u (ir.node u) in
      let of_alias = λ (a : ℕ). flat_map (store_of a) (ir.users a) in
      let aliases = get_alias_pointers p (ctx.func_pa_results (ir.block_parent (ir.parent v))) in
      let outer = Memᴰ-visits of_alias aliases w in
      let inner = λ (a : ℕ). Memᴰ-visits (store_of a) (ir.users a) w in
      let q = visits-append (flat_map of_alias aliases) (visit p ∷ []) in
      let path = λ (b : ℕ). collect_pred_reach_blocks_iff ir fuel (ir.parent v) b reach e in
      (
        λ m.
            elim ((Memᴰ-append w (visits (flat_map of_alias aliases)) (p ∷ [])).0
              (subst (Memᴰ w) q m)) [
                | inl k ↦
                    let (a, there, l) = outer.0 k in
                    let (u, there', l') = (inner a).0 l in
                    let (is_store, inside) = (stored_source_iff reach a u (ir.node u) w).0 l' in
                    inl (a, u, there, there', is_store, (path (ir.parent u)).0 inside)
                | inr k ↦ inr ((Memᴰ-one p w).0 k)
              ],
        λ o. subst (Memᴰ w) (sym q) (elim o [
          | inl (a, u, there, there', is_store, way) ↦ Memᴰ.append_left (p ∷ []) (
              outer.1 (
                a,
                there,
                (inner a).1 (
                  u,
                  there',
                  (stored_source_iff reach a u (ir.node u) w).1
                      (is_store, (path (ir.parent u)).1 way),
                ),
              ))
          | inr same ↦ Memᴰ.append_right (visits (flat_map of_alias aliases)) (Memᴰ.head same)
        ]),
      )

  load_sources-quiet : (v p : ℕ) (reach : List ℕ) → notes (load_sources ir ctx v p reach) ≡ []
  unfolding load_sources
  load_sources-quiet v p reach =
      let store_of = λ (a u : ℕ). stored_source ir ctx reach a u (ir.node u) in
      let of_alias = λ (a : ℕ). flat_map (store_of a) (ir.users a) in
      let aliases = get_alias_pointers p (ctx.func_pa_results (ir.block_parent (ir.parent v))) in
      rw (notes-append (flat_map of_alias aliases) (visit p ∷ [])) (
        rw
          (notes-flat_map of_alias
            (λ a.
              notes-flat_map (store_of a) (λ u. stored_source-quiet reach a u (ir.node u))
                (ir.users a))
            aliases)
          refl)

  variable_iff :
      (a w : ℕ)
      → Memᴰ w (visits {N = ℕ} (if_variable ir ctx a))
        ↔ ((w ≡ a) × (is_constant_node (ir.node w) ≡ false))
  variable_iff a w = elim (Bool-cases (is_constant_node (ir.node a))) [
    | inl is ↦ rw is (
      λ m. absurd (Memᴰ.not-nil m),
      λ (q, other). let k : is_constant_node (ir.node a) ≡ false = rw (sym q) other in absurd (cc),
    )
    | inr other ↦
        rw other (λ m. let q = (Memᴰ-one a w).0 m in (q, rw q other), λ (q, _). Memᴰ.head q)
  ]

  binary_iff :
      (a b w : ℕ)
      → Memᴰ w (visits {N = ℕ} (if_variable ir ctx a ++ if_variable ir ctx b))
        ↔ (((w ≡ a) ⊎ (w ≡ b)) × (is_constant_node (ir.node w) ≡ false))
  binary_iff a b w =
      let q = visits-append (if_variable ir ctx a) (if_variable ir ctx b) in
      (
        λ m. elim ((Memᴰ-append w (visits (if_variable ir ctx a)) _).0 (subst (Memᴰ w) q m)) [
          | inl k ↦ let (e, v) = (variable_iff a w).0 k in (inl e, v)
          | inr k ↦ let (e, v) = (variable_iff b w).0 k in (inr e, v)
        ],
        λ (o, v). subst (Memᴰ w) (sym q) (elim o [
          | inl e ↦ Memᴰ.append_left (visits (if_variable ir ctx b)) ((variable_iff a w).1 (e, v))
          | inr e ↦ Memᴰ.append_right (visits (if_variable ir ctx a)) ((variable_iff b w).1 (e, v))
        ]),
      )

  binary-quiet : (a b : ℕ) → notes (if_variable ir ctx a ++ if_variable ir ctx b) ≡ []
  binary-quiet a b = ground arith

  source_node-Fits :
      (fuel v : ℕ) (n : Node) (acts : List (Act ℕ ℕ))
      → source_node ir ctx fuel v n ≡ some acts
      → Fits v n acts
  unfolding source_node
  source_node-Fits fuel v (Node.constant_expr o os) acts e =
      fits v (Node.constant_expr o os) e (Memᴰ-one o, λ w. not_origin w v)
  source_node-Fits fuel v (Node.argument f) acts e =
      fits v (Node.argument f) e (Memᴰ-none, λ w. origin w v)
  source_node-Fits fuel v Node.global_variable acts e =
      fits v Node.global_variable e (Memᴰ-none, λ w. origin w v)
  source_node-Fits fuel v (Node.call callee args) acts e =
      fits v (Node.call callee args) e (Memᴰ-none, λ w. origin w v)
  source_node-Fits fuel v (Node.select c t f) acts e =
      fits v (Node.select c t f) e (Memᴰ-two t f, λ w. not_origin w v)
  source_node-Fits fuel v (Node.gep p) acts e =
      fits v (Node.gep p) e (Memᴰ-one p, λ w. not_origin w v)
  source_node-Fits fuel v (Node.phi incoming) acts e =
      fits v (Node.phi incoming) e
        (incoming_iff incoming, λ w. rw (incoming-quiet incoming) (not_origin w v))
  source_node-Fits fuel v (Node.load p) acts e =
      let (reach, found, q) =
        >>=-eq-some (collect_pred_reach_blocks ir fuel (ir.parent v) []) _ e in
      fits v (Node.load p) q (
        λ w. load_sources_iff fuel v p reach w found,
        λ w. rw (load_sources-quiet v p reach) (not_origin w v),
      )
  source_node-Fits fuel v (Node.alloca o) acts e =
      fits v (Node.alloca o) e (Memᴰ-one o, λ w. not_origin w v)
  source_node-Fits fuel v (Node.cast o) acts e =
      fits v (Node.cast o) e (Memᴰ-one o, λ w. not_origin w v)
  source_node-Fits fuel v (Node.extract_value o) acts e =
      fits v (Node.extract_value o) e (Memᴰ-one o, λ w. not_origin w v)
  source_node-Fits fuel v (Node.unary o) acts e =
      fits v (Node.unary o) e (Memᴰ-one o, λ w. not_origin w v)
  source_node-Fits fuel v (Node.binary a b) acts e =
      fits v (Node.binary a b) e (binary_iff a b, λ w. rw (binary-quiet a b) (not_origin w v))
  source_node-Fits fuel v n acts e = fits v n e (Memᴰ-none, λ w. not_origin w v)

  -- The plan of the walk is the step back and the collecting of origins.
  pub source_plan-Fits :
      (fuel : ℕ)
      → Describes insert goes_on
          (source_plan ir ctx fuel)
          (λ v w. ComesFrom ir ctx v (ir.node v) w)
          (λ v w. IsOrigin ir ctx (ir.node v) × (w ≡ v))
  source_plan-Fits fuel v acts e = source_node-Fits fuel v (ir.node v) acts e
