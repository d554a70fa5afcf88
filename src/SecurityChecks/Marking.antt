-- ===== src/SecurityChecks/Marking.antt =====
-- The marking loops of SecurityChecks.cc as a whole: they end, and they mark the edges into the
-- blocks that lead to their block over followed predecessors, and no other.
use mathlib.Core.List.Memᴰ
use crix.Base.{
  ℕ, ◌+◌, ◌≤◌, ◌≡◌, refl, sym, ap, ◌∙◌, Bool, true, false, ◌⊎◌, inl, inr, Option, some, List, [],
  ◌∷◌, ◌++◌, Memᴰ, Memᴰ-append, arith, length, has, nat_eq, pair_eq, Bool-cases, All, All-map,
  All-mem, subst, weight_outside,
}
use crix.Ir.{Ir, IsCfg}
use crix.Worklist.{loop}
use crix.Worklist.Total.{loop_total}
use crix.Worklist.Rule.{IsRule, loop_rule}
use crix.SecurityChecks.Flags.{Flags}
use crix.SecurityChecks.Edges.{Edge, EdgeErrMap, edge_flags, edge_of, mark_body}
use crix.SecurityChecks.MarkPreds.{IsUpdate, IsPass, mark_preds-IsPass, marking}

module _ (ir : Ir) (follow : ℕ → Bool) (bb : ℕ) where
  -- A block from which followed predecessors lead backwards to `bb`: the loop works on these.
  pub data LeadsTo : ℕ → Type 0 where
    here : LeadsTo bb
    back : {t p : ℕ} → LeadsTo t → Memᴰ p (ir.preds t) → follow p ≡ true → LeadsTo p

  -- An edge into such a block.
  abbrev pub EntersTo : Edge → Type 0
  EntersTo e = (t p : ℕ) × LeadsTo t × Memᴰ p (ir.preds t) × (e ≡ edge_of ir p t)

-- The blocks that predecessors lead out of a block to lie in `univ`.
abbrev pub IsClosedBack : Ir → List ℕ → Type 0
IsClosedBack ir univ = (b : ℕ) → Memᴰ b univ → All (λ p. Memᴰ p univ) (ir.preds b)

-- Fuel that is enough for a marking loop: its block, and every edge between the blocks once.
abbrev pub edge_fuel : Ir → List ℕ → ℕ
edge_fuel ir univ = 1 + weight_outside (λ b. length (ir.preds b)) [] univ

module _ (ir : Ir) (settled : Flags → Bool) (update : Flags → Flags) (follow : ℕ → Bool)
    (settles : (f : Flags) → settled (update f) ≡ true) (cfg : IsCfg ir) (bb : ℕ) where
  abbrev Settled : EdgeErrMap → Edge → Type 0
  Settled m e = settled (edge_flags e m) ≡ true

  abbrev run : ℕ → List ℕ → List ℕ → EdgeErrMap → Option EdgeErrMap
  run = loop (λ b. b) (mark_body ir settled update follow)

  pub mark_total :
      (univ : List ℕ) (fuel : ℕ) (m : EdgeErrMap)
      → IsClosedBack ir univ
      → Memᴰ bb univ
      → edge_fuel ir univ ≤ fuel
      → (r : EdgeErrMap) × (run fuel [] (bb ∷ []) m ≡ some r)
  unfolding mark_body
  mark_total univ fuel m closed i enough =
      loop_total (λ b. b) (mark_body ir settled update follow) univ (λ b. length (ir.preds b))
        (λ b. Memᴰ b univ)
        (λ b s g.
          let pass = mark_preds-IsPass ir settled update follow settles cfg b s in
          (
            g,
            inr (
              (marking ir settled update follow settles b (ir.preds b) s).0,
              (marking ir settled update follow settles b (ir.preds b) s).1,
              refl,
              All-map (λ p h. All-mem (λ q. Memᴰ q univ) (ir.preds b) (closed b g) h.0)
                  (marking ir settled update follow settles b (ir.preds b) s).1 pass.pushed,
              pass.few,
            ),
          ))
        fuel [] (bb ∷ []) m (omega arith) (i, tt)

  -- Where an edge into a block is marked and its source is followed, the edges into the source are
  -- marked.
  abbrev pub IsClosedMap : EdgeErrMap → Type 0
  IsClosedMap m =
      (t p : ℕ)
      → Memᴰ p (ir.preds t)
      → follow p ≡ true
      → Settled m (edge_of ir p t)
      → (q : ℕ) → Memᴰ q (ir.preds p)
      → Settled m (edge_of ir q p)

  -- What the loop has made of the map `m` that it began with.
  record Inv (m : EdgeErrMap) (seen queue : List ℕ) (s : EdgeErrMap) : Type 0 where
    value :
        (e : Edge)
        → (edge_flags e s ≡ edge_flags e m)
          ⊎ ((settled (edge_flags e m) ≡ false)
              × (edge_flags e s ≡ update (edge_flags e m))
              × EntersTo ir follow bb e)
    root : (has bb seen ≡ true) ⊎ Memᴰ bb queue
    queued : (b : ℕ) → Memᴰ b queue → LeadsTo ir follow bb b
    marked :
        (b : ℕ) → has b seen ≡ true → (p : ℕ) → Memᴰ p (ir.preds b) → Settled s (edge_of ir p b)
    pending :
        (t p : ℕ)
        → Memᴰ p (ir.preds t)
        → follow p ≡ true
        → settled (edge_flags (edge_of ir p t) m) ≡ false
        → Settled s (edge_of ir p t)
        → (has p seen ≡ true) ⊎ Memᴰ p queue

  -- The same without a queue.
  pub record IsMarked (m s : EdgeErrMap) : Type 0 where
    pub value :
        (e : Edge)
        → (edge_flags e s ≡ edge_flags e m)
          ⊎ ((settled (edge_flags e m) ≡ false)
              × (edge_flags e s ≡ update (edge_flags e m))
              × EntersTo ir follow bb e)
    pub root : (p : ℕ) → Memᴰ p (ir.preds bb) → Settled s (edge_of ir p bb)
    pub pending :
        (t p : ℕ)
        → Memᴰ p (ir.preds t)
        → follow p ≡ true
        → settled (edge_flags (edge_of ir p t) m) ≡ false
        → Settled s (edge_of ir p t)
        → (q : ℕ) → Memᴰ q (ir.preds p)
        → Settled s (edge_of ir q p)

  value_trans :
      (m s s' : EdgeErrMap) (b : ℕ) (e : Edge)
      → LeadsTo ir follow bb b
      → ((edge_flags e s ≡ edge_flags e m)
          ⊎ ((settled (edge_flags e m) ≡ false)
              × (edge_flags e s ≡ update (edge_flags e m))
              × EntersTo ir follow bb e))
      → IsUpdate ir settled update follow settles b s s' e
      → (edge_flags e s' ≡ edge_flags e m)
        ⊎ ((settled (edge_flags e m) ≡ false)
            × (edge_flags e s' ≡ update (edge_flags e m))
            × EntersTo ir follow bb e)
  value_trans m s s' b e l (inl a) (inl c) = inl (c ∙ a)
  value_trans m s s' b e l (inr (o, a, w)) (inl c) = inr (o, c ∙ a, w)
  value_trans m s s' b e l (inl a) (inr (o, c, (p, i, q))) =
      inr (ap settled (sym a) ∙ o, c ∙ ap update a, (b, p, l, i, q))
  value_trans m s s' b e l (inr (_, a, _)) (inr (o, _, _)) =
      let shut : settled (edge_flags e s) ≡ true = rw a (settles (edge_flags e m)) in cc

  keeps :
      (s s' : EdgeErrMap) (b : ℕ) (e : Edge)
      → IsUpdate ir settled update follow settles b s s' e
      → Settled s e
      → Settled s' e
  keeps s s' b e (inl a) h = rw a h
  keeps s s' b e (inr (o, _, _)) h = cc

  step_Inv :
      (m s s' : EdgeErrMap) (b : ℕ) (seen queue new : List ℕ)
      → IsPass ir settled update follow settles b s s' new
      → Inv m seen (b ∷ queue) s
      → Inv m (b ∷ seen) (queue ++ new) s'
  step_Inv m s s' b seen queue new pass v =
      let lead = v.queued b (Memᴰ.head refl) in
      record {
        value = λ e. value_trans m s s' b e lead (v.value e) (pass.updates e);
        root = elim v.root [
          | inl old ↦ inl (ground arith)
          | inr (Memᴰ.head e) ↦ inl (has_self e)
          | inr (Memᴰ.tail i) ↦ inr (Memᴰ.append_left new i)
        ];
        queued = λ x i. elim ((Memᴰ-append x queue new).0 i) [
          | inl i ↦ v.queued x (Memᴰ.tail i)
          | inr i ↦
              let (p, f) =
                All-mem (λ p. Memᴰ p (ir.preds b) × (follow p ≡ true)) new pass.pushed i in
              LeadsTo.back lead p f
        ];
        marked = λ x h p i. elim (Bool-cases (has x seen)) [
          | inl old ↦ keeps s s' b (edge_of ir p x) (pass.updates _) (v.marked x old p i)
          | inr fresh ↦
              let e : x ≡ b = ground arith in
              subst (λ y. Settled s' (edge_of ir p y)) (sym e)
                (pass.settled_all p (subst (λ y. Memᴰ p (ir.preds y)) e i))
        ];
        pending = λ t p i f o h. elim (Bool-cases (settled (edge_flags (edge_of ir p t) s))) [
          | inl before ↦ elim (v.pending t p i f o before) [
            | inl old ↦ inl (ground arith)
            | inr (Memᴰ.head e) ↦ inl (has_self e)
            | inr (Memᴰ.tail j) ↦ inr (Memᴰ.append_left new j)
          ]
          | inr fresh ↦ elim (pass.updates (edge_of ir p t)) [
            | inl same ↦ cc (ap settled same)
            | inr (_, _, (q, j, e)) ↦ inr (Memᴰ.append_right queue (pushed t p q i f fresh e))
          ]
        ];
      }
    where
      has_self : {x : ℕ} → x ≡ b → has x (b ∷ seen) ≡ true
      has_self e = ground arith

      pushed :
          (t p q : ℕ)
          → Memᴰ p (ir.preds t)
          → follow p ≡ true
          → settled (edge_flags (edge_of ir p t) s) ≡ false
          → edge_of ir p t ≡ edge_of ir q b
          → Memᴰ p new
      pushed t p q i f fresh e =
          let e' : t ≡ b = ap (λ (x : Edge). x.1) e in
          pass.pushes p (subst (λ y. Memᴰ p (ir.preds y)) e' i) f
            (subst (λ y. settled (edge_flags (edge_of ir p y) s) ≡ false) e' fresh)

  rule :
      (m : EdgeErrMap) → IsRule (λ b. b) (mark_body ir settled update follow) (Inv m) (IsMarked m)
  unfolding mark_body
  rule m = record {
    passes = λ seen i queue s old v. record {
      value = v.value;
      root = shift seen i queue bb old v.root;
      queued = λ b j. v.queued b (Memᴰ.tail j);
      marked = v.marked;
      pending = λ t p j f o h. shift seen i queue p old (v.pending t p j f o h);
    };
    pushes = λ seen i queue s s' new fresh e v.
        let pass = mark_preds-IsPass ir settled update follow settles cfg i s in
        let r = marking ir settled update follow settles i (ir.preds i) s in
        let e₁ : r.0 ≡ s' = ground arith in
        let e₂ : r.1 ≡ new = ground arith in
        step_Inv m s s' i seen queue new
          (subst (λ x. IsPass ir settled update follow settles i s x new) e₁
            (subst (IsPass ir settled update follow settles i s r.0) e₂ pass))
          v;
    returns = λ seen i queue s s' fresh e v. cc;
    ends = λ seen s v. record {
      value = v.value;
      root = λ p i. elim v.root [ inl old ↦ v.marked bb old p i | inr j ↦ absurd (Memᴰ.not-nil j) ];
      pending = λ t p i f o h q j. elim (v.pending t p i f o h) [
        | inl old ↦ v.marked p old q j
        | inr k ↦ absurd (Memᴰ.not-nil k)
      ];
    };
  }
    where
      shift :
          (seen : List ℕ) (i : ℕ) (queue : List ℕ) (x : ℕ)
          → has i seen ≡ true
          → (has x seen ≡ true) ⊎ Memᴰ x (i ∷ queue)
          → (has x seen ≡ true) ⊎ Memᴰ x queue
      shift seen i queue x old (inl h) = inl h
      shift seen i queue x old (inr (Memᴰ.head e)) =
          inl (subst (λ y. has y seen ≡ true) (sym e) old)
      shift seen i queue x old (inr (Memᴰ.tail j)) = inr j

  pub mark-IsMarked :
      (fuel : ℕ) (m r : EdgeErrMap) → run fuel [] (bb ∷ []) m ≡ some r → IsMarked m r
  mark-IsMarked fuel m r e =
      loop_rule (λ b. b) (mark_body ir settled update follow) (rule m) fuel [] (bb ∷ []) m r
        (record {
          value = λ e. inl refl;
          root = inr (Memᴰ.head refl);
          queued = λ b i. start b i;
          marked = λ b h p i. cc;
          pending = λ t p i f o h. cc;
        })
        e
    where
      start : (b : ℕ) → Memᴰ b (bb ∷ []) → LeadsTo ir follow bb b
      start b (Memᴰ.head e) = subst (LeadsTo ir follow bb) (sym e) LeadsTo.here
      start b (Memᴰ.tail i) = absurd (Memᴰ.not-nil i)

  -- The map stays closed, and then the edges into all blocks that lead to `bb` are marked.
  pub IsMarked-IsClosedMap : (m r : EdgeErrMap) → IsClosedMap m → IsMarked m r → IsClosedMap r
  IsMarked-IsClosedMap m r closed k t p i f h q j =
      elim (Bool-cases (settled (edge_flags (edge_of ir p t) m))) [
        | inl old ↦ kept (closed t p i f old q j) (k.value (edge_of ir q p))
        | inr fresh ↦ k.pending t p i f fresh h q j
      ]
    where
      kept :
          {e : Edge}
          → Settled m e
          → ((edge_flags e r ≡ edge_flags e m)
              ⊎ ((settled (edge_flags e m) ≡ false)
                  × (edge_flags e r ≡ update (edge_flags e m))
                  × EntersTo ir follow bb e))
          → Settled r e
      kept h (inl a) = rw a h
      kept h (inr (o, _, _)) = cc

  pub IsMarked-complete :
      (m r : EdgeErrMap)
      → IsClosedMap m
      → IsMarked m r
      → {t : ℕ} → LeadsTo ir follow bb t
      → (p : ℕ) → Memᴰ p (ir.preds t)
      → Settled r (edge_of ir p t)
  IsMarked-complete m r closed k LeadsTo.here p i = k.root p i
  IsMarked-complete m r closed k (LeadsTo.back {t} {p = p'} l j f) p i =
      IsMarked-IsClosedMap m r closed k t p' j f (IsMarked-complete m r closed k l p' j) p i
