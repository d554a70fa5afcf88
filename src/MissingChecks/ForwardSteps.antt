-- ===== src/MissingChecks/ForwardSteps.antt =====
-- Which users of a value check it for isCheckedForward, and to what values it flows on.
use mathlib.Core.List.Memᴰ
use crix.Base.{
  ℕ, ◌≡◌, refl, sym, Bool, true, false, ◌||◌, ◌↔◌, List, [], ◌∷◌, Memᴰ, arith, has, nat_eq, subst,
  Bool-cases, inl, inr, flat_map, not, if◌then◌else◌, ◌==◌,
}
use crix.Ir.{Ir, Node}
use crix.Ir.Kinds.{is_instruction}
use crix.Context.{Context}
use crix.DataFlow.Aliases.{get_alias_pointers}
use crix.Walk.{visit, visits}
use crix.Walk.Members.{Memᴰ-visits, Memᴰ-none, Memᴰ-one}
use crix.MissingChecks.Model.{SrcUse, Counts, in_modeled_check_set}
use crix.MissingChecks.ForwardLoop.{Agrees}
use crix.MissingChecks.Forward.{
  Hit, Turn, returns, calls, load_user, loads_of, forward_node, forward_user,
}

module _ (ir : Ir) (ctx : Context) (counts : Counts) where
  -- When an instruction `u` that uses a value is a check of it: a comparison in the modelled set of
  -- the source, a switch, a call that is a check of the function, or a return.
  abbrev pub IsCheck : ℕ → SrcUse → ℕ → Node → Type 0
  IsCheck f src u (Node.icmp p a b) = in_modeled_check_set ir u src true counts ≡ true
  IsCheck f src u (Node.fcmp p a b) = in_modeled_check_set ir u src true counts ≡ true
  IsCheck f src u (Node.switch c) = Unit
  IsCheck f src u (Node.ret r) = Unit
  IsCheck f src u (Node.call callee args) = has u (ctx.check_inst_sets f) ≡ true
  IsCheck f src u _ = ⊥

  -- A load of an alias of the pointer.
  abbrev pub IsAliasLoad : ℕ → ℕ → ℕ → Type 0
  IsAliasLoad f p w =
      (a : ℕ) × Memᴰ a (get_alias_pointers p (ctx.func_pa_results f))
      × Memᴰ w (ir.users a)
      × ((q : ℕ) × (ir.node w ≡ Node.load q))

  -- The value `w` that a value `v` flows to through the instruction `u`: what loads an alias of the
  -- pointer that it is stored to, the element pointer of a pointer, and the result of an operation.
  abbrev pub FlowsThrough : ℕ → ℕ → ℕ → Node → ℕ → Type 0
  FlowsThrough f v u (Node.store sv p) w = (v ≡ sv) × IsAliasLoad f p w
  FlowsThrough f v u (Node.gep p) w = (p ≡ v) × (w ≡ u)
  FlowsThrough f v u (Node.phi incoming) w = w ≡ u
  FlowsThrough f v u (Node.alloca o) w = w ≡ u
  FlowsThrough f v u (Node.load p) w = w ≡ u
  FlowsThrough f v u (Node.cast o) w = w ≡ u
  FlowsThrough f v u (Node.extract_value o) w = w ≡ u
  FlowsThrough f v u (Node.unary o) w = w ≡ u
  FlowsThrough f v u (Node.binary a b) w = w ≡ u
  FlowsThrough f v u _ w = ⊥

  -- A user that counts: an instruction in the scope.
  abbrev pub InScope : List ℕ → ℕ → Type 0
  InScope scope u = (is_instruction ir u ≡ true) × (has (ir.parent u) scope ≡ true)

  abbrev pub FlowsTo : ℕ → List ℕ → ℕ → ℕ → Type 0
  FlowsTo f scope v w =
      (u : ℕ) × Memᴰ u (ir.users v) × InScope scope u × FlowsThrough f v u (ir.node u) w

  abbrev pub ChecksIt : ℕ → SrcUse → List ℕ → ℕ → Type 0
  ChecksIt f src scope u = InScope scope u × IsCheck f src u (ir.node u)

  load_user_iff :
      (u w : ℕ)
      → Memᴰ w (visits (load_user ir ctx counts u))
        ↔ ((w ≡ u) × ((q : ℕ) × (ir.node w ≡ Node.load q)))
  unfolding load_user
  load_user_iff u w = by_node (ir.node u) refl
    where
      by_node :
          (n : Node)
          → ir.node u ≡ n
          → Memᴰ w (visits {N = Hit} (elim n [ Node.load p ↦ visit u ∷ [] | _ ↦ [] ]))
            ↔ ((w ≡ u) × ((q : ℕ) × (ir.node w ≡ Node.load q)))
      by_node (Node.load p) e =
          (λ m. let q = (Memᴰ-one u w).0 m in (q, (p, rw q e)), λ (q, _). Memᴰ.head q)
      by_node n e = (λ m. absurd (Memᴰ.not-nil m), λ (q, (p, e')). absurd (cc))

  loads_of_iff : (f p w : ℕ) → Memᴰ w (visits (loads_of ir ctx counts f p)) ↔ IsAliasLoad f p w
  unfolding loads_of
  loads_of_iff f p w =
      let users_of = λ (a : ℕ). flat_map (load_user ir ctx counts) (ir.users a) in
      let outer = Memᴰ-visits users_of (get_alias_pointers p (ctx.func_pa_results f)) w in
      let inner = λ (a : ℕ). Memᴰ-visits (load_user ir ctx counts) (ir.users a) w in
      (
        λ m.
            let (a, k, l) = outer.0 m in
            let (u, k', l') = (inner a).0 l in
            let (q, is_load) = (load_user_iff u w).0 l' in
            (a, k, subst (λ x. Memᴰ x (ir.users a)) (sym q) k', is_load),
        λ (a, k, k', is_load).
            outer.1 (a, k, (inner a).1 (w, k', (load_user_iff w w).1 (refl, is_load))),
      )

  tested : (b : Bool) → Agrees (if b then returns else calls []) (b ≡ true) (λ w. ⊥)
  tested true = refl
  tested false = (λ h. cc, Memᴰ-none)

  forward_node-Agrees :
      (f : ℕ) (src : SrcUse) (v u : ℕ) (n : Node)
      → Agrees (forward_node ir ctx counts f src v u n) (IsCheck f src u n) (FlowsThrough f v u n)
  unfolding forward_node
  forward_node-Agrees f src v u (Node.icmp p a b) =
      tested (in_modeled_check_set ir u src true counts)
  forward_node-Agrees f src v u (Node.fcmp p a b) =
      tested (in_modeled_check_set ir u src true counts)
  forward_node-Agrees f src v u (Node.switch c) = tt
  forward_node-Agrees f src v u (Node.ret r) = tt
  forward_node-Agrees f src v u (Node.call callee args) = tested (has u (ctx.check_inst_sets f))
  forward_node-Agrees f src v u (Node.store sv p) = elim (Bool-cases (v == sv)) [
    | inl same ↦ rw same (
      λ x. x,
      λ w.
          let q : v ≡ sv = ground arith in
          (λ m. (q, (loads_of_iff f p w).0 m), λ t. (loads_of_iff f p w).1 t.1),
    )
    | inr other ↦
        rw other (λ x. x, λ w. (λ m. absurd (Memᴰ.not-nil m), λ (q, _). absurd (ground arith)))
  ]
  forward_node-Agrees f src v u (Node.gep p) = elim (Bool-cases (p == v)) [
    | inl same ↦ rw same (
      λ x. x,
      λ w. let q : p ≡ v = ground arith in (λ m. (q, (Memᴰ-one u w).0 m), λ (_, e). Memᴰ.head e),
    )
    | inr other ↦
        rw other (λ x. x, λ w. (λ m. absurd (Memᴰ.not-nil m), λ (q, _). absurd (ground arith)))
  ]
  forward_node-Agrees f src v u (Node.phi incoming) = (λ x. x, Memᴰ-one u)
  forward_node-Agrees f src v u (Node.alloca o) = (λ x. x, Memᴰ-one u)
  forward_node-Agrees f src v u (Node.load p) = (λ x. x, Memᴰ-one u)
  forward_node-Agrees f src v u (Node.cast o) = (λ x. x, Memᴰ-one u)
  forward_node-Agrees f src v u (Node.extract_value o) = (λ x. x, Memᴰ-one u)
  forward_node-Agrees f src v u (Node.unary o) = (λ x. x, Memᴰ-one u)
  forward_node-Agrees f src v u (Node.binary a b) = (λ x. x, Memᴰ-one u)
  forward_node-Agrees f src v u n = (λ x. x, Memᴰ-none)

  pub forward_user-Agrees :
      (f : ℕ) (src : SrcUse) (scope : List ℕ) (v u : ℕ)
      → Agrees
          (forward_user ir ctx counts f src scope v u)
          (ChecksIt f src scope u)
          (λ w. InScope scope u × FlowsThrough f v u (ir.node u) w)
  unfolding forward_user
  forward_user-Agrees f src scope v u =
      elim (Bool-cases (not (is_instruction ir u) || not (has (ir.parent u) scope))) [
        | inl out ↦ rw out (
          λ (s, _). outside out s,
          λ w. (λ m. absurd (Memᴰ.not-nil m), λ (s, _). absurd (outside out s)),
        )
        | inr inside ↦ rw inside (
            within (ground arith) (forward_node ir ctx counts f src v u (ir.node u))
              (forward_node-Agrees f src v u (ir.node u)))
      ]
    where
      outside :
          (not (is_instruction ir u) || not (has (ir.parent u) scope)) ≡ true → InScope scope u → ⊥
      outside out s = ground arith

      within :
          InScope scope u
          → (t : Turn) → Agrees t (IsCheck f src u (ir.node u)) (FlowsThrough f v u (ir.node u))
          → Agrees t
              (ChecksIt f src scope u)
              (λ w. InScope scope u × FlowsThrough f v u (ir.node u) w)
      within s returns a = (s, a)
      within s (calls acts) a = (λ c. a.0 c.1, λ w. (λ m. (s, (a.1 w).0 m), λ t. (a.1 w).1 t.1))
