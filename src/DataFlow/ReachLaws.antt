-- ===== src/DataFlow/ReachLaws.antt =====
-- The reachable blocks of DataFlowAnalysis.cc are the blocks at the ends of paths.
use crix.Base.{
  ℕ, ◌<◌, ◌≡◌, refl, sym, true, inl, ◌↔◌, some, List, [], ◌∷◌, Memᴰ, has, nat_eq, All, >>=-eq-some,
  subst, some_inj,
}
use crix.Ir.{Ir, IsCfg}
use crix.Walk.{visits}
use crix.Walk.Closed.{Lasting}
use crix.Walk.Exact.{Flows, walk-IsWalked}
use crix.Walk.Total.{untracked, walk_total}
use crix.DataFlow.Reach.{
  Nothing, nothing, add_nothing, never, visit_each, each_of, collect_reach_blocks,
  collect_succ_reach_blocks, collect_pred_reach_blocks,
}

-- A path over `next`, of any length.
pub data Route (next : ℕ → List ℕ) (a : ℕ) : ℕ → Type 0 where
  stay : Route next a a
  extend : {b c : ℕ} → Route next a b → Memᴰ c (next b) → Route next a c

pub Route-trans : {next : ℕ → List ℕ} {a b c : ℕ} → Route next a b → Route next b c → Route next a c
Route-trans p Route.stay = p
Route-trans p (Route.extend q m) = Route.extend (Route-trans p q) m

Route-reverse :
    {next back : ℕ → List ℕ}
    → ((x y : ℕ) → Memᴰ y (next x) → Memᴰ x (back y))
    → {a b : ℕ} → Route next a b
    → Route back b a
Route-reverse turn Route.stay = Route.stay
Route-reverse turn (Route.extend {b} {c} p m) =
    Route-trans (Route.extend Route.stay (turn b c m)) (Route-reverse turn p)

visits-visit_each : (bs : List ℕ) → visits (visit_each bs) ≡ bs
visits-visit_each [] = refl
visits-visit_each (b ∷ bs) = rw (visits-visit_each bs)

module _ (next : ℕ → List ℕ) where
  Flows-Route : (a : ℕ) {b : ℕ} → Flows add_nothing never (each_of next) a b → Route next a b
  Flows-Route a Flows.here = Route.stay
  Flows-Route a (Flows.step {i} {j} {acts} w q m) =
      let p : visits acts ≡ next i = rw (← some_inj q, visits-visit_each (next i)) in
      Route.extend (Flows-Route a w) (subst (Memᴰ j) p m)

  Route-Flows : (a : ℕ) {b : ℕ} → Route next a b → Flows add_nothing never (each_of next) a b
  Route-Flows a Route.stay = Flows.here
  Route-Flows a (Route.extend {b} {c} p m) =
      Flows.step (Route-Flows a p) refl (subst (Memᴰ c) (sym (visits-visit_each (next b))) m)

  NothingLasts : Lasting add_nothing never (λ (n : Nothing) (s : Nothing). n ≡ n)
  NothingLasts = record { now = λ n a. refl; later = λ m n a h. h; stuck = λ n a h. h }

  -- From an empty set the walk comes to exactly the blocks at the ends of paths.
  collect_reach_blocks_iff :
      (fuel a b : ℕ) (r : List ℕ)
      → collect_reach_blocks next fuel a [] ≡ some r
      → (has b r ≡ true) ↔ Route next a b
  unfolding collect_reach_blocks
  collect_reach_blocks_iff fuel a b r h =
      let (t, e, q) = >>=-eq-some _ _ h in
      let w =
        walk-IsWalked add_nothing never (each_of next) (λ n s. n ≡ n) NothingLasts
          (λ n m s k. inl k) fuel a nothing t e in
      let p : t.seen ≡ r = some_inj q in
      subst (λ x. (has b x ≡ true) ↔ Route next a b) p
        (λ k. Flows-Route a (w.sound b k), λ k. w.complete refl b (Route-Flows a k))

  -- One unit of fuel for each block of a closed universe that is not in the set is enough.
  collect_reach_blocks_total :
      (univ : List ℕ) (fuel a : ℕ) (s : List ℕ)
      → ((b : ℕ) → Memᴰ b univ → All (λ c. Memᴰ c univ) (next b))
      → Memᴰ a univ
      → untracked s univ < fuel
      → (r : List ℕ) × (collect_reach_blocks next fuel a s ≡ some r)
  unfolding collect_reach_blocks
  collect_reach_blocks_total univ fuel a s closed inside enough =
      let (t, e, grow) =
        walk_total (λ b. b) add_nothing never (each_of next) univ (λ b. Memᴰ b univ)
          (λ i m. (
            m,
            (
              visit_each (next i),
              refl,
              subst (All (λ c. Memᴰ c univ)) (sym (visits-visit_each (next i))) (closed i m),
            ),
          ))
          fuel a (record { seen = s; acc = nothing }) enough inside in
      (t.seen, rw e refl)

module _ (ir : Ir) where
  -- On blocks that are closed under successors and predecessors, with more fuel than blocks that the
  -- set lacks, both walks return, from any set.
  pub collect_reach_blocks_return :
      (univ : List ℕ) (fuel a : ℕ) (s : List ℕ)
      → ((b : ℕ)
          → Memᴰ b univ
          → All (λ c. Memᴰ c univ) (ir.succs b) × All (λ c. Memᴰ c univ) (ir.preds b))
      → Memᴰ a univ
      → untracked s univ < fuel
      → ((r : List ℕ) × (collect_succ_reach_blocks ir fuel a s ≡ some r))
        × ((r : List ℕ) × (collect_pred_reach_blocks ir fuel a s ≡ some r))
  unfolding collect_succ_reach_blocks collect_pred_reach_blocks
  collect_reach_blocks_return univ fuel a s closed inside enough = (
    collect_reach_blocks_total ir.succs univ fuel a s (λ b m. (closed b m).0) inside enough,
    collect_reach_blocks_total ir.preds univ fuel a s (λ b m. (closed b m).1) inside enough,
  )

  pub collect_succ_reach_blocks_iff :
      (fuel a b : ℕ) (r : List ℕ)
      → collect_succ_reach_blocks ir fuel a [] ≡ some r
      → (has b r ≡ true) ↔ Route ir.succs a b
  unfolding collect_succ_reach_blocks
  collect_succ_reach_blocks_iff = collect_reach_blocks_iff ir.succs

  pub collect_pred_reach_blocks_iff :
      (fuel a b : ℕ) (r : List ℕ)
      → collect_pred_reach_blocks ir fuel a [] ≡ some r
      → (has b r ≡ true) ↔ Route ir.preds a b
  unfolding collect_pred_reach_blocks
  collect_pred_reach_blocks_iff = collect_reach_blocks_iff ir.preds

  -- From empty sets, if both walks return: a block is among the predecessors that are reached from a
  -- second one exactly if the second is among the successors that are reached from the first, and
  -- that is if a path of successors leads from the first to the second.
  pub collect_reach_blocks_dual :
      (fuel a b : ℕ) (forward backward : List ℕ)
      → IsCfg ir
      → collect_succ_reach_blocks ir fuel a [] ≡ some forward
      → collect_pred_reach_blocks ir fuel b [] ≡ some backward
      → ((has b forward ≡ true) ↔ (has a backward ≡ true))
        × ((has b forward ≡ true) ↔ Route ir.succs a b)
  collect_reach_blocks_dual fuel a b forward backward cfg h k =
      let (f, f') = collect_succ_reach_blocks_iff fuel a b forward h in
      let (g, g') = collect_pred_reach_blocks_iff fuel b a backward k in
      (
        (
          λ m. g' (Route-reverse (λ x y. (cfg.preds_iff x y).1) (f m)),
          λ m. f' (Route-reverse (λ x y. (cfg.preds_iff y x).0) (g m)),
        ),
        (f, f'),
      )
