-- ===== src/Walk/Total.antt =====
-- A walk ends: where all that it can reach lies in a finite universe, one round of fuel for each
-- value that is not yet tracked is enough.
use crix.Base.{
  ℕ, zero, suc, ◌<◌, ◌≡◌, refl, Bool, false, ◌||◌, Option, some, List, [], ◌∷◌, Memᴰ, arith, has,
  insert, nat_eq, All, Grows, Grows-insert, has-insert_self, Bool-cases, weight_outside,
  weight_outside-drop, weight_outside_mono, inl, inr,
}
use crix.Walk.{Trace, Act, visit, note, visits, run_acts, walk}

-- How many values of a universe are not tracked.
abbrev pub untracked : List ℕ → List ℕ → ℕ
untracked = weight_outside (λ _. 1)

module _ {ℓ κ μ} {I : Type ℓ} {N : Type κ} {A : Type μ} (key : I → ℕ) (apply : N → A → A)
    (done : A → Bool) (plan : I → Option (List (Act I N))) where
  -- What is known of a run that began at `t`.
  abbrev pub Returns : Option (Trace A) → Trace A → Type μ
  Returns m t = (r : Trace A) × (m ≡ some r) × Grows t.seen r.seen

  -- A part of the plan's items that calls stay in, with a plan for each.
  abbrev pub IsClosedUnder {ν} : List ℕ → (I → Type ν) → Type (ℓ ⊔ κ ⊔ ν)
  IsClosedUnder univ Good =
      (i : I)
      → Good i
      → Memᴰ (key i) univ
        × ((acts : List (Act I N)) × (plan i ≡ some acts) × All Good (visits acts))

  run_acts_total {ν} :
      (univ : List ℕ) (Good : I → Type ν) (n : ℕ) (go : I → Trace A → Option (Trace A))
      → ((i : I) (t : Trace A) → untracked t.seen univ < n → Good i → Returns (go i t) t)
      → (acts : List (Act I N)) (t : Trace A) → untracked t.seen univ < n
      → All Good (visits acts)
      → Returns (run_acts key apply done plan go acts t) t
  unfolding run_acts
  run_acts_total univ Good n go ih [] t h g = (t, refl, λ k e. e)
  run_acts_total univ Good n go ih (visit i ∷ acts) t h g =
      let (r, e, grow) = ih i t h g.0 in
      let less = weight_outside_mono (λ _. 1) t.seen r.seen univ grow in
      let (r', e', grow') = run_acts_total univ Good n go ih acts r (omega arith) g.1 in
      (r', rw e e', λ k m. grow' k (grow k m))
  run_acts_total univ Good n go ih (note m ∷ acts) t h g =
      run_acts_total univ Good n go ih acts (record t { acc = apply m t.acc }) h g

  pub walk_total {ν} :
      (univ : List ℕ) (Good : I → Type ν)
      → IsClosedUnder univ Good
      → (f : ℕ) (i : I) (t : Trace A) → untracked t.seen univ < f
      → Good i
      → Returns (walk key apply done plan f i t) t
  unfolding walk
  walk_total univ Good closed zero i t h g = absurd (omega arith)
  walk_total univ Good closed (suc f) i t h g =
      elim (Bool-cases (done t.acc || has (key i) t.seen)) [
        | inl stop ↦ (t, rw (stop, walk), λ k e. e)
        | inr fresh ↦
            let (inside, (acts, e, good)) = closed i g in
            let t' : Trace A = record t { seen = insert (key i) t.seen } in
            let grow = Grows-insert (key i) t.seen in
            let unseen : has (key i) t.seen ≡ false = ground arith in
            let less =
              weight_outside-drop (λ _. 1) (key i) t.seen (insert (key i) t.seen) univ grow inside
                unseen (has-insert_self (key i) t.seen) in
            let (r, e', grow') =
              run_acts_total univ Good f (walk key apply done plan f)
                (walk_total univ Good closed f) acts t' (omega arith) good in
            (r, rw (fresh, walk) (rw e e'), λ k m. grow' k (grow k m))
      ]
