-- ===== src/Walk/Closed.antt =====
-- The closure of what a walk tracked: unless its answer cut it short, all that a tracked value calls
-- is tracked, and all that it adds has been added.
use crix.Base.{
  ℕ, zero, suc, ◌≡◌, Bool, true, false, ◌||◌, ◌⊎◌, inl, inr, Option, some, List, [], ◌∷◌, arith,
  has, insert, nat_eq, All, All-map, Grows, has-insert, Grows-insert, has-insert_self, Bool-cases,
  >>=-eq-some, subst,
}
use crix.Walk.{Trace, Act, visit, note, visits, notes, run_acts, walk}

-- `Kept n a`: the addition `n` has been made in `a`, and no later one undoes it.
pub record Lasting {ℓ μ ν} {N : Type ℓ} {A : Type μ} (apply : N → A → A) (done : A → Bool)
    (Kept : N → A → Type ν) : Type (ℓ ⊔ μ ⊔ ν) where
  pub now : (n : N) (a : A) → Kept n (apply n a)
  pub later : (m n : N) (a : A) → Kept n a → Kept n (apply m a)
  pub stuck : (n : N) (a : A) → done a ≡ true → done (apply n a) ≡ true

module _ {ℓ κ μ ν ρ} {I : Type ℓ} {N : Type κ} {A : Type μ} (key : I → ℕ) (apply : N → A → A)
    (done : A → Bool) (plan : I → Option (List (Act I N))) (Good : I → Type ν)
    (Kept : N → A → Type ρ) where
  -- The value `k` belongs to an item whose whole plan was carried out.
  pub record IsExpanded (r : Trace A) (k : ℕ) : Type (ℓ ⊔ κ ⊔ ν ⊔ ρ) where
    pub item : I
    pub acts : List (Act I N)
    pub key_eq : key item ≡ k
    pub good : Good item
    pub planned : plan item ≡ some acts
    pub called : All (λ j. has (key j) r.seen ≡ true) (visits acts)
    pub added : All (λ n. Kept n r.acc) (notes acts)

  pub record IsAfter (t r : Trace A) : Type (ℓ ⊔ κ ⊔ ν ⊔ ρ) where
    pub grows : Grows t.seen r.seen
    pub keeps : (n : N) → Kept n t.acc → Kept n r.acc
    pub stops : done t.acc ≡ true → done r.acc ≡ true
    pub expands :
        (k : ℕ) → has k r.seen ≡ true → done r.acc ≡ false → (has k t.seen ≡ true) ⊎ IsExpanded r k

  IsExpanded-IsAfter : {r s : Trace A} {k : ℕ} → IsAfter r s → IsExpanded r k → IsExpanded s k
  IsExpanded-IsAfter {r} {s} a x = record {
    item = x.item;
    acts = x.acts;
    key_eq = x.key_eq;
    good = x.good;
    planned = x.planned;
    called = All-map (λ j h. a.grows (key j) h) (visits x.acts) x.called;
    added = All-map (λ n h. a.keeps n h) (notes x.acts) x.added;
  }

  IsAfter-refl : (t : Trace A) → IsAfter t t
  IsAfter-refl t = record {
    grows = λ k h. h;
    keeps = λ n h. h;
    stops = λ h. h;
    expands = λ k h d. inl h;
  }

  IsAfter-trans : {t r s : Trace A} → IsAfter t r → IsAfter r s → IsAfter t s
  IsAfter-trans {t} {r} {s} a b = record {
    grows = λ k h. b.grows k (a.grows k h);
    keeps = λ n h. b.keeps n (a.keeps n h);
    stops = λ h. b.stops (a.stops h);
    expands = λ k h d. elim (b.expands k h d) [
      | inr x ↦ inr x
      | inl old ↦ elim (a.expands k old (open_before d)) [
        | inl older ↦ inl older
        | inr x ↦ inr (IsExpanded-IsAfter b x)
      ]
    ];
  }
    where
      open_before : done s.acc ≡ false → done r.acc ≡ false
      open_before d = elim (Bool-cases (done r.acc)) [ inr e ↦ e | inl e ↦ cc (b.stops e) ]

  -- What a list of actions leaves: its calls tracked and its additions made.
  record HasRun (acts : List (Act I N)) (t r : Trace A) : Type (ℓ ⊔ κ ⊔ ν ⊔ ρ) where
    after : IsAfter t r
    called : done r.acc ≡ false → All (λ j. has (key j) r.seen ≡ true) (visits acts)
    added : All (λ n. Kept n r.acc) (notes acts)

  module _ (lasting : Lasting apply done Kept)
      (stays : (i : I) (acts : List (Act I N))
        → Good i
        → plan i ≡ some acts
        → All Good (visits acts)) where
    abbrev Tracks : (I → Trace A → Option (Trace A)) → Type (ℓ ⊔ κ ⊔ μ ⊔ ν ⊔ ρ)
    Tracks go =
        (i : I) (t r : Trace A)
        → Good i
        → go i t ≡ some r
        → IsAfter t r × (done r.acc ≡ false → has (key i) r.seen ≡ true)

    IsAfter-note : (n : N) (t : Trace A) → IsAfter t (record t { acc = apply n t.acc })
    IsAfter-note n t = record {
      grows = λ k h. h;
      keeps = λ m h. lasting.later n m t.acc h;
      stops = λ h. lasting.stuck n t.acc h;
      expands = λ k h d. inl h;
    }

    run_acts-HasRun :
        (go : I → Trace A → Option (Trace A))
        → Tracks go
        → (acts : List (Act I N)) (t r : Trace A) → All Good (visits acts)
        → run_acts key apply done plan go acts t ≡ some r
        → HasRun acts t r
    unfolding run_acts
    run_acts-HasRun go ih [] t r g e =
        let p : t ≡ r = ground arith in
        record { after = subst (IsAfter t) p (IsAfter-refl t); called = λ d. tt; added = tt }
    run_acts-HasRun go ih (visit i ∷ acts) t r g e =
        let (m, e₁, e₂) = >>=-eq-some (go i t) (run_acts key apply done plan go acts) e in
        let (a, h) = ih i t m g.0 e₁ in
        let rest = run_acts-HasRun go ih acts m r g.1 e₂ in
        record {
          after = IsAfter-trans a rest.after;
          called = λ d. (rest.after.grows (key i) (h (before d rest.after)), rest.called d);
          added = rest.added;
        }
      where
        before : {m : Trace A} → done r.acc ≡ false → IsAfter m r → done m.acc ≡ false
        before {m} d a = elim (Bool-cases (done m.acc)) [ inr e ↦ e | inl e ↦ cc (a.stops e) ]
    run_acts-HasRun go ih (note n ∷ acts) t r g e =
        let t' : Trace A = record t { acc = apply n t.acc } in
        let rest = run_acts-HasRun go ih acts t' r g e in
        record {
          after = IsAfter-trans (IsAfter-note n t) rest.after;
          called = rest.called;
          added = (rest.after.keeps n (lasting.now n t.acc), rest.added);
        }

    -- The item's own value is new, and its plan has run.
    close :
        (i : I) (acts : List (Act I N)) (t r : Trace A)
        → Good i
        → plan i ≡ some acts
        → HasRun acts (record t { seen = insert (key i) t.seen }) r
        → IsAfter t r
    close i acts t r g e run = record {
      grows = λ k h. run.after.grows k (Grows-insert (key i) t.seen k h);
      keeps = run.after.keeps;
      stops = run.after.stops;
      expands = λ k h d. elim (run.after.expands k h d) [
        | inr x ↦ inr x
        | inl old ↦ elim (Bool-cases (has k t.seen)) [
          | inl older ↦ inl older
          | inr new ↦ inr (record {
            item = i;
            acts = acts;
            key_eq = ground (arith, has-insert k (key i) t.seen);
            good = g;
            planned = e;
            called = run.called d;
            added = run.added;
          })
        ]
      ];
    }

    pub walk-Tracks : (f : ℕ) → Tracks (walk key apply done plan f)
    unfolding walk
    walk-Tracks zero i t r g e = cc
    walk-Tracks (suc f) i t r g e = elim (Bool-cases (done t.acc || has (key i) t.seen)) [
      | inl stop ↦
          let e' : some t ≡ some r = rw (stop, walk) at e in
          let p : t ≡ r = ground arith in (subst (IsAfter t) p (IsAfter-refl t), λ d. ground arith)
      | inr fresh ↦
          let t' : Trace A = record t { seen = insert (key i) t.seen } in
          let (acts, e₁, e₂) =
            >>=-eq-some (plan i)
              (λ acts. run_acts key apply done plan (walk key apply done plan f) acts t')
              (rw (fresh, walk) at e) in
          let run =
            run_acts-HasRun (walk key apply done plan f) (walk-Tracks f) acts t' r
              (stays i acts g e₁) e₂ in
          (close i acts t r g e₁ run, λ d. run.after.grows (key i) (has-insert_self (key i) t.seen))
    ]
