-- ===== src/MissingChecks/ForwardLaws.antt =====
-- What isCheckedForward decides.
use crix.Base.{
  ℕ, ◌≡◌, refl, sym, Bool, true, false, ◌||◌, ◌⊎◌, inl, inr, ◌↔◌, some, List, [], Memᴰ, arith, has,
  nat_eq, subst, Bool-cases, some_inj, flat_map, not,
}
use crix.Ir.{Ir, Node}
use crix.Ir.Kinds.{is_instruction}
use crix.DataFlow.Aliases.{get_alias_pointers}
use crix.Context.{Context}
use crix.Walk.{Trace, notes, visits}
use crix.Walk.Steps.{Reached}
use crix.Walk.Visits.{notes-flat_map}
use crix.Walk.Closed.{Lasting}
use crix.Walk.Exact.{Flows, walk-IsWalked}
use crix.MissingChecks.Model.{SrcUse, Counts}
use crix.MissingChecks.ForwardLoop.{
  notes_of, until_returns_iff, returns_iff, until_returns_sound, until_returns_complete,
}
use crix.MissingChecks.ForwardSteps.{FlowsTo, ChecksIt, forward_user-Agrees}
use crix.MissingChecks.Forward.{
  Hit, hit, check_it, is_found, until_returns, loads_of, load_user, forward_node, forward_user,
  forward_acts, is_checked_forward,
}

Checked-Lasting : Lasting check_it is_found (λ (n : Hit) (b : Bool). b ≡ true)
Checked-Lasting = record { now = λ n b. refl; later = λ m n b h. refl; stuck = λ n b h. refl }

fresh_hit : (n m : Hit) (b : Bool) → check_it m b ≡ true → (b ≡ true) ⊎ (n ≡ m)
fresh_hit hit hit b h = inr refl

module _ (ir : Ir) (ctx : Context) (counts : Counts) where
  loads_of-quiet : (f p : ℕ) → notes (loads_of ir ctx counts f p) ≡ []
  unfolding loads_of load_user flat_map
  loads_of-quiet f p =
      notes-flat_map (λ a. flat_map (load_user ir ctx counts) (ir.users a))
        (λ a. notes-flat_map (load_user ir ctx counts) load_quiet (ir.users a))
        (get_alias_pointers p (ctx.func_pa_results f))
    where
      load_quiet : (u : ℕ) → notes (load_user ir ctx counts u) ≡ []
      load_quiet u = grind arith

  forward_node-quiet :
      (f : ℕ) (src : SrcUse) (v u : ℕ) (n : Node)
      → notes_of (forward_node ir ctx counts f src v u n) ≡ []
  unfolding forward_node
  forward_node-quiet f src v u (Node.icmp p a b) = ground arith
  forward_node-quiet f src v u (Node.fcmp p a b) = ground arith
  forward_node-quiet f src v u (Node.call callee args) = ground arith
  forward_node-quiet f src v u (Node.store sv p) = ground (arith, loads_of-quiet f p)
  forward_node-quiet f src v u (Node.gep p) = ground arith
  forward_node-quiet f src v u _ = refl

  forward_user-quiet :
      (f : ℕ) (src : SrcUse) (scope : List ℕ) (v u : ℕ)
      → notes_of (forward_user ir ctx counts f src scope v u) ≡ []
  unfolding forward_user
  forward_user-quiet f src scope v u =
      elim (Bool-cases (not (is_instruction ir u) || not (has (ir.parent u) scope))) [
        | inl out ↦ rw out refl
        | inr inside ↦ rw inside (forward_node-quiet f src v u (ir.node u))
      ]

  -- The values that a value flows to, over any number of steps.
  abbrev pub Flow : ℕ → List ℕ → ℕ → ℕ → Type 0
  Flow f scope = Reached (FlowsTo ir ctx counts f scope)

  -- The values that the walk may come to.
  abbrev Walks : ℕ → SrcUse → List ℕ → ℕ → ℕ → Type 0
  Walks f src scope = Flows check_it is_found (forward_acts ir ctx counts f src scope)

  shown :
      (f : ℕ) (src : SrcUse) (scope : List ℕ) (k : ℕ)
      → Memᴰ hit (notes (until_returns (forward_user ir ctx counts f src scope k) (ir.users k)))
        ↔ ((u : ℕ) × Memᴰ u (ir.users k) × ChecksIt ir ctx counts f src scope u)
  shown f src scope k =
      let is =
        until_returns_iff (forward_user ir ctx counts f src scope k)
          (forward_user-quiet f src scope k) (ir.users k) in
      let at =
        returns_iff (forward_user ir ctx counts f src scope k) _ _
          (forward_user-Agrees ir ctx counts f src scope k) in
      (
        λ m. let (u, there, q) = is.0 m in (u, there, (at u).0 q),
        λ (u, there, c). is.1 (u, there, (at u).1 c),
      )

  Walks-Flow :
      (f : ℕ) (src : SrcUse) (scope : List ℕ) (v : ℕ) {w : ℕ}
      → Walks f src scope v w
      → Flow f scope v w
  unfolding forward_acts
  Walks-Flow f src scope v Flows.here = Reached.here
  Walks-Flow f src scope v (Flows.step {i} {j} w e m) =
      let (u, there, (inside, t)) =
        until_returns_sound (forward_user ir ctx counts f src scope i) _ _
          (forward_user-Agrees ir ctx counts f src scope i) (ir.users i) j
          (subst (λ y. Memᴰ j (visits y)) (sym (some_inj e)) m) in
      Reached.next (Walks-Flow f src scope v w) (u, there, inside, t)

  -- If no value that the walk comes to has a user that checks it, it comes to all.
  Flow-Walks :
      (f : ℕ) (src : SrcUse) (scope : List ℕ) (v : ℕ)
      → ((k : ℕ)
          → Walks f src scope v k
          → (u : ℕ) → Memᴰ u (ir.users k)
          → ChecksIt ir ctx counts f src scope u
          → ⊥)
      → {w : ℕ} → Flow f scope v w
      → Walks f src scope v w
  unfolding forward_acts
  Flow-Walks f src scope v unchecked Reached.here = Flows.here
  Flow-Walks f src scope v unchecked (Reached.next {i} {j} w (u, m, inside, t)) =
      let way = Flow-Walks f src scope v unchecked w in
      Flows.step way refl (
        until_returns_complete (forward_user ir ctx counts f src scope i) _ _
          (forward_user-Agrees ir ctx counts f src scope i) (ir.users i) (unchecked i way) u j m
          (inside, t))

  -- From an empty VSet, if isCheckedForward returns: isChecked is true exactly if some value that the
  -- first one flows to has a user that checks it. Such a user is an instruction in the scope: a
  -- comparison in the modelled set of the source, a switch, a call that is a check of the function, or
  -- a return. Through instructions in the scope, a value flows to what loads an alias of the pointer that it is stored to, to the
  -- element pointer of a pointer, and to the results of phi, alloca, load, cast, extractvalue, unary
  -- and binary instructions that use it.
  pub is_checked_forward_iff :
      (fuel f : ℕ) (src : SrcUse) (v : ℕ) (scope : List ℕ) (r : Trace Bool)
      → is_checked_forward ir ctx counts fuel f src v scope (record { seen = []; acc = false })
        ≡ some r
      → (r.acc ≡ true) ↔ (
          (w : ℕ) × (u : ℕ) × Flow f scope v w
          × Memᴰ u (ir.users w)
          × ChecksIt ir ctx counts f src scope u)
  unfolding is_checked_forward forward_acts
  is_checked_forward_iff fuel f src v scope r h =
      let x =
        walk-IsWalked check_it is_found (forward_acts ir ctx counts f src scope)
          (λ (n : Hit) (b : Bool). b ≡ true) Checked-Lasting fresh_hit fuel v false r h in
      (
        λ k. elim (x.sound_notes hit k) [
          | inl old ↦ cc
          | inr (w, acts, way, e, m) ↦
              let (u, there, c) =
                (shown f src scope w).0 (subst (λ y. Memᴰ hit (notes y)) (sym (some_inj e)) m) in
              (w, u, Walks-Flow f src scope v way, there, c)
        ],
        λ (w, u, flow, there, c). elim (Bool-cases r.acc) [
          | inl is ↦ is
          | inr open' ↦
              let found' =
                λ (k : ℕ) (way : Walks f src scope v k) (u : ℕ) (m : Memᴰ u (ir.users k))
                    (c : ChecksIt ir ctx counts f src scope u).
                  x.complete_notes open' hit (k, _, way, refl, (shown f src scope k).1 (u, m, c)) in
              found' w
                (Flow-Walks f src scope v (λ k way u m c. cc (open', found' k way u m c)) flow) u
                there c
        ],
      )
