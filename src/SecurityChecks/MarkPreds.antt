-- ===== src/SecurityChecks/MarkPreds.antt =====
-- One pass of the marking loops over the predecessors of a block: what it marks, pushes and leaves.
use mathlib.Core.List.Memᴰ
use crix.Base.{
  ℕ, ◌≤◌, ◌≡◌, ◌≢◌, refl, sym, ap, ◌∙◌, Bool, true, false, ◌⊎◌, inl, inr, List, [], ◌∷◌, Memᴰ,
  arith, length, if◌then◌else◌, nat_eq, pair_eq, pair_beq_iff, adjust, touch, read-adjust,
  read-touch, All, All-intro, subst,
}
use crix.Ir.{Ir, IsCfg}
use crix.SecurityChecks.Flags.{Flags, no_flag}
use crix.SecurityChecks.Edges.{Edge, EdgeErrMap, edge_flags, edge_of, mark_preds}

module _ (ir : Ir) (settled : Flags → Bool) (update : Flags → Flags) (follow : ℕ → Bool)
    (settles : (f : Flags) → settled (update f) ≡ true) where
  -- An edge is as it was, or was not settled, leads to `bb`, and has been updated once.
  abbrev pub IsUpdate : ℕ → EdgeErrMap → EdgeErrMap → Edge → Type 0
  IsUpdate bb m m' e =
      (edge_flags e m' ≡ edge_flags e m)
      ⊎ ((settled (edge_flags e m) ≡ false)
          × (edge_flags e m' ≡ update (edge_flags e m))
          × ((p : ℕ) × Memᴰ p (ir.preds bb) × (e ≡ edge_of ir p bb)))

  abbrev one_edge : ℕ → ℕ → EdgeErrMap → EdgeErrMap
  one_edge bb q m =
      if settled (edge_flags (edge_of ir q bb) m)
      then touch no_flag (edge_of ir q bb) m
      else adjust no_flag (edge_of ir q bb) update m

  one_edge-settled :
      (bb q : ℕ) (m : EdgeErrMap) → settled (edge_flags (edge_of ir q bb) (one_edge bb q m)) ≡ true
  one_edge-settled bb q m =
      let e = edge_of ir q bb in
      ground (
        arith,
        read-adjust no_flag e e update m,
        read-touch no_flag e e m,
        pair_beq_iff e e,
        settles (edge_flags e m),
      )

  one_edge-other :
      (bb q : ℕ) (m : EdgeErrMap) (e : Edge)
      → e ≢ edge_of ir q bb
      → edge_flags e (one_edge bb q m) ≡ edge_flags e m
  one_edge-other bb q m e ne = ground (
    arith,
    read-adjust no_flag (edge_of ir q bb) e update m,
    read-touch no_flag (edge_of ir q bb) e m,
    pair_beq_iff e (edge_of ir q bb),
    ne,
  )

  one_edge-cases :
      (bb q : ℕ) (m : EdgeErrMap) (e : Edge)
      → (edge_flags e (one_edge bb q m) ≡ edge_flags e m)
        ⊎ ((e ≡ edge_of ir q bb)
            × (settled (edge_flags e m) ≡ false)
            × (edge_flags e (one_edge bb q m) ≡ update (edge_flags e m)))
  one_edge-cases bb q m e = ground (
    arith,
    read-adjust no_flag (edge_of ir q bb) e update m,
    read-touch no_flag (edge_of ir q bb) e m,
    pair_beq_iff e (edge_of ir q bb),
  )

  abbrev pub IsSettled : EdgeErrMap → Edge → Type 0
  IsSettled m e = settled (edge_flags e m) ≡ true

  -- What is settled stays settled.
  one_edge-keeps :
      (bb q : ℕ) (m : EdgeErrMap) (e : Edge) → IsSettled m e → IsSettled (one_edge bb q m) e
  one_edge-keeps bb q m e h = ground (arith, one_edge-cases bb q m e)

  abbrev pub marking : ℕ → List ℕ → EdgeErrMap → EdgeErrMap × List ℕ
  marking = mark_preds ir settled update follow

  marking-keeps :
      (bb : ℕ) (ps : List ℕ) (m : EdgeErrMap) (e : Edge)
      → IsSettled m e
      → IsSettled (marking bb ps m).0 e
  unfolding mark_preds
  marking-keeps bb [] m e h = h
  marking-keeps bb (q ∷ ps) m e h =
      marking-keeps bb ps (one_edge bb q m) e (one_edge-keeps bb q m e h)

  marking-IsSettled :
      (bb : ℕ) (ps : List ℕ) (m : EdgeErrMap) (p : ℕ)
      → Memᴰ p ps
      → IsSettled (marking bb ps m).0 (edge_of ir p bb)
  unfolding mark_preds
  marking-IsSettled bb [] m p i = absurd (Memᴰ.not-nil i)
  marking-IsSettled bb (q ∷ ps) m p (Memᴰ.head e) =
      marking-keeps bb ps (one_edge bb q m) (edge_of ir p bb) (
        subst (λ x. IsSettled (one_edge bb q m) (edge_of ir x bb)) (sym e)
          (one_edge-settled bb q m))
  marking-IsSettled bb (q ∷ ps) m p (Memᴰ.tail i) = marking-IsSettled bb ps (one_edge bb q m) p i

  marking-IsUpdate :
      (bb : ℕ) (ps : List ℕ) (m : EdgeErrMap) (e : Edge)
      → All (λ p. Memᴰ p (ir.preds bb)) ps
      → IsUpdate bb m (marking bb ps m).0 e
  unfolding mark_preds
  marking-IsUpdate bb [] m e a = inl refl
  marking-IsUpdate bb (q ∷ ps) m e a = elim (one_edge-cases bb q m e) [
    | inl same ↦ elim (marking-IsUpdate bb ps (one_edge bb q m) e a.1) [
      | inl still ↦ inl (still ∙ same)
      | inr (open_then, new, from) ↦ inr (rw (← same) open_then, new ∙ ap update same, from)
    ]
    | inr (at, open_then, new) ↦ elim (marking-IsUpdate bb ps (one_edge bb q m) e a.1) [
      | inl still ↦ inr (open_then, still ∙ new, (q, a.0, at))
      | inr (open_now, _, _) ↦
          let shut : settled (edge_flags e (one_edge bb q m)) ≡ true =
            rw new (settles (edge_flags e m)) in
          cc
    ]
  ]

  marking-few : (bb : ℕ) (ps : List ℕ) (m : EdgeErrMap) → length (marking bb ps m).1 ≤ length ps
  unfolding mark_preds
  marking-few bb [] m = omega arith
  marking-few bb (q ∷ ps) m = ground (arith, marking-few bb ps (one_edge bb q m))

  marking-pushed :
      (bb : ℕ) (ps : List ℕ) (m : EdgeErrMap)
      → All (λ p. Memᴰ p (ir.preds bb)) ps
      → All (λ p. Memᴰ p (ir.preds bb) × (follow p ≡ true)) (marking bb ps m).1
  unfolding mark_preds
  marking-pushed bb [] m a = tt
  marking-pushed bb (q ∷ ps) m a =
      let rest = marking-pushed bb ps (one_edge bb q m) a.1 in ground arith

  edge_of-injective : IsCfg ir → (p q bb : ℕ) → edge_of ir p bb ≡ edge_of ir q bb → p ≡ q
  edge_of-injective cfg p q bb e =
      sym (cfg.parent-terminator p) ∙ ap (λ (x : Edge). ir.parent x.0) e ∙ cfg.parent-terminator q

  mem_rest :
      (skip push : Bool) (p q : ℕ) (rest : List ℕ)
      → Memᴰ p rest
      → Memᴰ p (if skip then rest else if push then q ∷ rest else rest)
  mem_rest true push p q rest i = i
  mem_rest false true p q rest i = Memᴰ.tail i
  mem_rest false false p q rest i = i

  mem_first :
      (p q bb : ℕ) (m : EdgeErrMap) (rest : List ℕ)
      → p ≡ q
      → follow p ≡ true
      → settled (edge_flags (edge_of ir p bb) m) ≡ false
      → Memᴰ p (
          if settled (edge_flags (edge_of ir q bb) m)
          then rest
          else if follow q
          then q ∷ rest
          else rest)
  mem_first p q bb m rest e f h =
      let f' : follow q ≡ true = rw (← e) f in
      let h' : settled (edge_flags (edge_of ir q bb) m) ≡ false = rw (← e) h in
      rw (h', f') (Memᴰ.head e)

  marking-pushes :
      IsCfg ir
      → (bb : ℕ) (ps : List ℕ) (m : EdgeErrMap) (p : ℕ) → Memᴰ p ps
      → follow p ≡ true
      → settled (edge_flags (edge_of ir p bb) m) ≡ false
      → Memᴰ p (marking bb ps m).1
  unfolding mark_preds
  marking-pushes cfg bb [] m p i f h = absurd (Memᴰ.not-nil i)
  marking-pushes cfg bb (q ∷ ps) m p (Memᴰ.head e) f h = mem_first p q bb m _ e f h
  marking-pushes cfg bb (q ∷ ps) m p (Memᴰ.tail i) f h =
      elim (one_edge-cases bb q m (edge_of ir p bb)) [
        | inl same ↦
            mem_rest _ _ p q _
              (marking-pushes cfg bb ps (one_edge bb q m) p i f (ap settled same ∙ h))
        | inr (at, _, _) ↦ mem_first p q bb m _ (edge_of-injective cfg p q bb at) f h
      ]

  -- All that one pass does, for the loop.
  pub record IsPass (bb : ℕ) (m m' : EdgeErrMap) (new : List ℕ) : Type 0 where
    pub updates : (e : Edge) → IsUpdate bb m m' e
    pub settled_all : (p : ℕ) → Memᴰ p (ir.preds bb) → IsSettled m' (edge_of ir p bb)
    pub pushed : All (λ p. Memᴰ p (ir.preds bb) × (follow p ≡ true)) new
    pub pushes :
        (p : ℕ)
        → Memᴰ p (ir.preds bb)
        → follow p ≡ true
        → settled (edge_flags (edge_of ir p bb) m) ≡ false
        → Memᴰ p new
    pub few : length new ≤ length (ir.preds bb)

  pub mark_preds-IsPass :
      IsCfg ir
      → (bb : ℕ) (m : EdgeErrMap)
      → IsPass bb m (marking bb (ir.preds bb) m).0 (marking bb (ir.preds bb) m).1
  mark_preds-IsPass cfg bb m =
      let all = All-intro (λ p. Memᴰ p (ir.preds bb)) (ir.preds bb) (λ p i. i) in
      record {
        updates = λ e. marking-IsUpdate bb (ir.preds bb) m e all;
        settled_all = λ p i. marking-IsSettled bb (ir.preds bb) m p i;
        pushed = marking-pushed bb (ir.preds bb) m all;
        pushes = λ p i f h. marking-pushes cfg bb (ir.preds bb) m p i f h;
        few = marking-few bb (ir.preds bb) m;
      }
