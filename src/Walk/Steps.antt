-- ===== src/Walk/Steps.antt =====
-- A walk described by what leads from a value to another and what a value adds, told apart from the
-- plan.
use crix.Base.{
  ℕ, ◌≡◌, false, ◌⊎◌, inl, inr, ◌↔◌, Option, some, List, [], Memᴰ, true, has, nat_eq, Bool,
}
use crix.Walk.{Trace, Act, visits, notes, walk}
use crix.Walk.Closed.{Lasting}
use crix.Walk.Exact.{Flows, walk-IsWalked}

-- The values that steps lead to.
pub data Reached {ν} (Step : ℕ → ℕ → Type ν) (root : ℕ) : ℕ → Type ν where
  here : Reached Step root root
  next : {i j : ℕ} → Reached Step root i → Step i j → Reached Step root j

module _ {κ μ ν} {N : Type κ} {A : Type μ} (apply : N → A → A) (done : A → Bool)
    (plan : ℕ → Option (List (Act ℕ N))) (Step : ℕ → ℕ → Type ν) (Mark : ℕ → N → Type ν) where
  -- The plan calls the walk on what a step leads to, and makes the additions.
  abbrev pub Describes : Type (κ ⊔ ν)
  Describes =
      (i : ℕ) (acts : List (Act ℕ N))
      → plan i ≡ some acts
      → ((j : ℕ) → Memᴰ j (visits acts) ↔ Step i j) × ((n : N) → Memᴰ n (notes acts) ↔ Mark i n)

  abbrev pub Marked : ℕ → N → Type ν
  Marked root n = (k : ℕ) × Reached Step root k × Mark k n

  Flows-Reached :
      Describes → (root : ℕ) {k : ℕ} → Flows apply done plan root k → Reached Step root k
  Flows-Reached d root Flows.here = Reached.here
  Flows-Reached d root (Flows.step {i} {j} {acts} w e m) =
      Reached.next (Flows-Reached d root w) (((d i acts e).0 j).0 m)

  module _ {ρ} (Kept : N → A → Type ρ) (lasting : Lasting apply done Kept)
      (fresh : (n m : N) (a : A) → Kept n (apply m a) → Kept n a ⊎ (n ≡ m)) where
    -- What a walk that began with the result `start` leaves.
    pub record IsTraced (root : ℕ) (start : A) (r : Trace A) : Type (κ ⊔ μ ⊔ ν ⊔ ρ) where
      pub sound : (k : ℕ) → has k r.seen ≡ true → Reached Step root k
      pub complete : done r.acc ≡ false → (k : ℕ) → Reached Step root k → has k r.seen ≡ true
      pub sound_notes : (n : N) → Kept n r.acc → Kept n start ⊎ Marked root n
      pub complete_notes : done r.acc ≡ false → (n : N) → Marked root n → Kept n r.acc
      pub older_notes : (n : N) → Kept n start → Kept n r.acc

    pub walk-IsTraced :
        Describes
        → (f root : ℕ) (start : A) (r : Trace A)
        → walk (λ i. i) apply done plan f root (record { seen = []; acc = start }) ≡ some r
        → IsTraced root start r
    walk-IsTraced d f root start r e =
        let x = walk-IsWalked apply done plan Kept lasting fresh f root start r e in
        record {
          sound = λ k h. Flows-Reached d root (x.sound k h);
          complete = λ open' k w. x.complete open' k (back x.planned x.complete open' w);
          sound_notes = λ n h. elim (x.sound_notes n h) [
            | inl old ↦ inl old
            | inr (k, acts, w, q, m) ↦ inr (k, Flows-Reached d root w, ((d k acts q).1 n).0 m)
          ];
          complete_notes = λ open' n (k, w, mark).
              let way = back x.planned x.complete open' w in
              let (acts, q) = x.planned open' k way in
              x.complete_notes open' n (k, acts, way, q, ((d k acts q).1 n).1 mark);
          older_notes = x.older_notes;
        }
      where
        back :
            (done r.acc ≡ false
              → (k : ℕ) → Flows apply done plan root k
              → (acts : List (Act ℕ N)) × (plan k ≡ some acts))
            → (done r.acc ≡ false → (k : ℕ) → Flows apply done plan root k → has k r.seen ≡ true)
            → done r.acc ≡ false
            → {k : ℕ} → Reached Step root k
            → Flows apply done plan root k
        back planned complete open' Reached.here = Flows.here
        back planned complete open' (Reached.next {i} {j} w s) =
            let way = back planned complete open' w in
            let (acts, q) = planned open' i way in Flows.step way q (((d i acts q).0 j).1 s)
