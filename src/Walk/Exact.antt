-- ===== src/Walk/Exact.antt =====
-- A walk over values from an empty set of tracked ones, described by the values that its plan leads
-- to: it tracks no other, and unless its answer cut it short it tracks all and makes all additions.
use crix.Base.{
  ℕ, zero, suc, ◌≡◌, sym, Bool, true, false, ◌||◌, ◌⊎◌, inl, inr, Option, some, List, [], ◌∷◌, Memᴰ,
  arith, has, insert, nat_eq, All, All-intro, All-mem, has-insert, Bool-cases, >>=-eq-some, subst,
  not-has-nil,
}
use crix.Walk.{Trace, Act, visit, note, visits, notes, run_acts, walk}
use crix.Walk.Rules.{Keeps, walk_inv}
use crix.Walk.Closed.{Lasting, IsExpanded, walk-Tracks}

module _ {κ μ} {N : Type κ} {A : Type μ} (apply : N → A → A) (done : A → Bool)
    (plan : ℕ → Option (List (Act ℕ N))) where
  -- The values that a walk from `root` may come to.
  pub data Flows (root : ℕ) : ℕ → Type κ where
    here : Flows root root
    step :
        {i j : ℕ} {acts : List (Act ℕ N)}
        → Flows root i
        → plan i ≡ some acts
        → Memᴰ j (visits acts)
        → Flows root j

  -- A value that the walk may come to, whose plan makes the addition.
  abbrev pub Shows : ℕ → N → Type κ
  Shows root n =
      (k : ℕ) × (acts : List (Act ℕ N)) × Flows root k × (plan k ≡ some acts) × Memᴰ n (notes acts)

  abbrev OnlyGood {ν} : (ℕ → Type ν) → List ℕ → Type ν
  OnlyGood Good seen = (k : ℕ) → has k seen ≡ true → Good k

  run_acts_seen {ν} :
      (Good : ℕ → Type ν) (go : ℕ → Trace A → Option (Trace A))
      → ((i : ℕ) (t r : Trace A)
          → Good i
          → OnlyGood Good t.seen
          → go i t ≡ some r
          → OnlyGood Good r.seen)
      → (acts : List (Act ℕ N)) (t r : Trace A) → All Good (visits acts)
      → OnlyGood Good t.seen
      → run_acts (λ i. i) apply done plan go acts t ≡ some r
      → OnlyGood Good r.seen
  unfolding run_acts
  run_acts_seen Good go ih [] t r g p e =
      let q : t ≡ r = ground arith in subst (λ (x : Trace A). OnlyGood Good x.seen) q p
  run_acts_seen Good go ih (visit i ∷ acts) t r g p e =
      let (m, e₁, e₂) = >>=-eq-some (go i t) (run_acts (λ i. i) apply done plan go acts) e in
      run_acts_seen Good go ih acts m r g.1 (ih i t m g.0 p e₁) e₂
  run_acts_seen Good go ih (note n ∷ acts) t r g p e =
      run_acts_seen Good go ih acts (record t { acc = apply n t.acc }) r g p e

  walk_seen {ν} :
      (Good : ℕ → Type ν)
      → ((i : ℕ) (acts : List (Act ℕ N)) → Good i → plan i ≡ some acts → All Good (visits acts))
      → (f i : ℕ) (t r : Trace A) → Good i
      → OnlyGood Good t.seen
      → walk (λ i. i) apply done plan f i t ≡ some r
      → OnlyGood Good r.seen
  unfolding walk
  walk_seen Good stays zero i t r g p e = cc
  walk_seen Good stays (suc f) i t r g p e = elim (Bool-cases (done t.acc || has i t.seen)) [
    | inl stop ↦
        let e' : some t ≡ some r = rw (stop, walk) at e in
        let q : t ≡ r = ground arith in subst (λ (x : Trace A). OnlyGood Good x.seen) q p
    | inr fresh ↦
        let t' : Trace A = record t { seen = insert i t.seen } in
        let (acts, e₁, e₂) =
          >>=-eq-some (plan i)
            (λ acts. run_acts (λ i. i) apply done plan (walk (λ i. i) apply done plan f) acts t')
            (rw (fresh, walk) at e) in
        run_acts_seen Good (walk (λ i. i) apply done plan f) (walk_seen Good stays f) acts t' r
          (stays i acts g e₁) (with_own g p) e₂
  ]
    where
      with_own : Good i → OnlyGood Good t.seen → OnlyGood Good (insert i t.seen)
      with_own g p k h = elim (Bool-cases (has k t.seen)) [
        | inl old ↦ p k old
        | inr new ↦ let q : i ≡ k = ground (arith, has-insert k i t.seen) in subst Good q g
      ]

  Flows-stays :
      (root i : ℕ) (acts : List (Act ℕ N))
      → Flows root i
      → plan i ≡ some acts
      → All (Flows root) (visits acts)
  Flows-stays root i acts g e = All-intro (Flows root) (visits acts) (λ j m. Flows.step g e m)

  module _ {ρ} (Kept : N → A → Type ρ) (lasting : Lasting apply done Kept)
      (fresh : (n m : N) (a : A) → Kept n (apply m a) → Kept n a ⊎ (n ≡ m)) where
    -- What a walk from `root` that began with the result `start` leaves.
    pub record IsWalked (root : ℕ) (start : A) (r : Trace A) : Type (κ ⊔ μ ⊔ ρ) where
      pub sound : (k : ℕ) → has k r.seen ≡ true → Flows root k
      pub complete : done r.acc ≡ false → (k : ℕ) → Flows root k → has k r.seen ≡ true
      pub planned :
          done r.acc ≡ false
          → (k : ℕ) → Flows root k
          → (acts : List (Act ℕ N)) × (plan k ≡ some acts)
      pub sound_notes : (n : N) → Kept n r.acc → Kept n start ⊎ Shows root n
      pub complete_notes : done r.acc ≡ false → (n : N) → Shows root n → Kept n r.acc
      pub older_notes : (n : N) → Kept n start → Kept n r.acc

    pub walk-IsWalked :
        (f root : ℕ) (start : A) (r : Trace A)
        → walk (λ i. i) apply done plan f root (record { seen = []; acc = start }) ≡ some r
        → IsWalked root start r
    walk-IsWalked f root start r e =
        let (a, own) =
          walk-Tracks (λ i. i) apply done plan (Flows root) Kept lasting (Flows-stays root) f root
            (record { seen = []; acc = start }) r Flows.here e in
        record {
          sound =
              walk_seen (Flows root) (Flows-stays root) f root (record { seen = []; acc = start }) r
                Flows.here (λ k h. not-has-nil k h) e;
          complete = λ d k w. all a.expands d (own d) w;
          planned = λ d k w. has_plan a.expands d (all a.expands d (own d) w);
          sound_notes = λ n.
              walk_inv (λ i. i) apply done plan (Flows root)
                (λ x. Kept n x → Kept n start ⊎ Shows root n) (keeps n) f root
                (record { seen = []; acc = start }) r Flows.here (λ h. inl h) e;
          complete_notes =
              λ d n (k, acts, w, q, m). added a.expands d (all a.expands d (own d) w) q m;
          older_notes = λ n h. a.keeps n h;
        }
      where
        Expands : Type (κ ⊔ ρ)
        Expands =
            (k : ℕ)
            → has k r.seen ≡ true
            → done r.acc ≡ false
            → (has k [] ≡ true) ⊎ IsExpanded (λ i. i) apply done plan (Flows root) Kept r k

        keeps :
            (n : N)
            → Keeps
                (λ i. i)
                apply
                done
                plan
                (Flows root)
                (λ x. Kept n x → Kept n start ⊎ Shows root n)
        keeps n = record {
          stays = Flows-stays root;
          adds = λ i acts w q. All-intro _ (notes acts) (λ m k b p h. elim (fresh n m b h) [
            | inl old ↦ p old
            | inr same ↦ inr (i, acts, w, q, subst (λ x. Memᴰ x (notes acts)) (sym same) k)
          ]);
        }

        all :
            Expands
            → done r.acc ≡ false
            → has root r.seen ≡ true
            → {k : ℕ} → Flows root k
            → has k r.seen ≡ true
        all x d h Flows.here = h
        all x d h (Flows.step {i} {j} {acts} w q m) = elim (x i (all x d h w) d) [
          | inl old ↦ not-has-nil i old
          | inr ex ↦
              let p : plan i ≡ some ex.acts =
                subst (λ y. plan y ≡ some ex.acts) ex.key_eq ex.planned in
              let s : ex.acts ≡ acts = ground arith in
              All-mem (λ y. has y r.seen ≡ true) (visits acts)
                (subst (λ y. All (λ z. has z r.seen ≡ true) (visits y)) s ex.called) m
        ]

        added :
            {k : ℕ} {n : N} {acts : List (Act ℕ N)}
            → Expands
            → done r.acc ≡ false
            → has k r.seen ≡ true
            → plan k ≡ some acts
            → Memᴰ n (notes acts)
            → Kept n r.acc
        added {k} {n} {acts} x d h q m = elim (x k h d) [
          | inl old ↦ not-has-nil k old
          | inr ex ↦
              let p : plan k ≡ some ex.acts =
                subst (λ y. plan y ≡ some ex.acts) ex.key_eq ex.planned in
              let s : ex.acts ≡ acts = ground arith in
              All-mem (λ y. Kept y r.acc) (notes acts)
                (subst (λ y. All (λ z. Kept z r.acc) (notes y)) s ex.added) m
        ]

        has_plan :
            {k : ℕ}
            → Expands
            → done r.acc ≡ false
            → has k r.seen ≡ true
            → (acts : List (Act ℕ N)) × (plan k ≡ some acts)
        has_plan {k} x d h = elim (x k h d) [
          | inl old ↦ absurd (not-has-nil k old)
          | inr ex ↦ (ex.acts, subst (λ y. plan y ≡ some ex.acts) ex.key_eq ex.planned)
        ]
