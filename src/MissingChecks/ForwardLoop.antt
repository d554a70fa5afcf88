-- ===== src/MissingChecks/ForwardLoop.antt =====
-- The loop of isCheckedForward over the users of a value, which returns at the first that checks it.
use mathlib.Core.List.Memᴰ
use crix.Base.{
  ℕ, ◌≡◌, refl, sym, ◌↔◌, List, [], ◌∷◌, ◌++◌, Memᴰ, Memᴰ-cons, Memᴰ-append, inl, inr, subst,
}
use crix.Walk.{note, notes, visits}
use crix.Walk.Visits.{notes-append}
use crix.Walk.Members.{visits-append}
use crix.MissingChecks.Forward.{Hit, hit, Turn, returns, calls, until_returns}

abbrev pub notes_of : Turn → List Hit
notes_of returns = []
notes_of (calls acts) = notes acts

-- Where no turn makes an addition of its own, the loop makes one exactly if a turn returns.
pub until_returns_iff :
    (turn : ℕ → Turn)
    → ((u : ℕ) → notes_of (turn u) ≡ [])
    → (us : List ℕ)
    → Memᴰ hit (notes (until_returns turn us)) ↔ ((u : ℕ) × Memᴰ u us × (turn u ≡ returns))
until_returns_iff turn quiet [] =
    (λ m. absurd (Memᴰ.not-nil m), λ (u, m, e). absurd (Memᴰ.not-nil m))
until_returns_iff turn quiet (u ∷ us) =
    by_turn (turn u) refl (quiet u) (until_returns_iff turn quiet us)
  where
    by_turn :
        (t : Turn)
        → turn u ≡ t
        → notes_of t ≡ []
        → (Memᴰ hit (notes (until_returns turn us)) ↔ ((w : ℕ) × Memᴰ w us × (turn w ≡ returns)))
        → Memᴰ hit (notes (until_returns turn (u ∷ us)))
          ↔ ((w : ℕ) × Memᴰ w (u ∷ us) × (turn w ≡ returns))
    by_turn returns e q ih =
        let p : until_returns turn (u ∷ us) ≡ note hit ∷ [] = rw (e, until_returns) refl in
        (λ m. (u, Memᴰ.head refl, e), λ o. rw (p, notes) (Memᴰ.head refl))
    by_turn (calls acts) e q (f, g) =
        let p : notes (until_returns turn (u ∷ us)) ≡ notes (until_returns turn us) =
          rw (e, until_returns) (rw (notes-append acts (until_returns turn us), q) refl) in
        (
          λ m. let (w, k, h) = f (subst (Memᴰ hit) p m) in (w, Memᴰ.tail k, h),
          λ (w, m, h). elim ((Memᴰ-cons w u us).0 m) [
            | inl same ↦ let k : turn u ≡ returns = subst (λ x. turn x ≡ returns) same h in cc
            | inr k ↦ subst (Memᴰ hit) (sym p) (g (w, k, h))
          ],
        )

-- What a turn does, against what is a check and what the value flows to.
abbrev pub Agrees : Turn → Type 0 → (ℕ → Type 0) → Type 0
Agrees returns Check To = Check
Agrees (calls acts) Check To = (Check → ⊥) × ((w : ℕ) → Memᴰ w (visits acts) ↔ To w)

module _ (turn : ℕ → Turn) (Check : ℕ → Type 0) (To : ℕ → ℕ → Type 0)
    (agrees : (u : ℕ) → Agrees (turn u) (Check u) (To u)) where
  -- A turn returns exactly at a check.
  pub returns_iff : (u : ℕ) → (turn u ≡ returns) ↔ Check u
  returns_iff u = by_turn (turn u) refl (agrees u)
    where
      by_turn : (t : Turn) → turn u ≡ t → Agrees t (Check u) (To u) → (turn u ≡ returns) ↔ Check u
      by_turn returns e a = (λ _. a, λ _. e)
      by_turn (calls acts) e a = (λ q. absurd (cc), λ c. absurd (a.0 c))

  -- The loop calls the walk only on what the value flows to.
  pub until_returns_sound :
      (us : List ℕ) (w : ℕ) → Memᴰ w (visits (until_returns turn us)) → (u : ℕ) × Memᴰ u us × To u w
  until_returns_sound [] w m = absurd (Memᴰ.not-nil m)
  until_returns_sound (u ∷ us) w m = by_turn (turn u) refl (agrees u) (until_returns_sound us w)
    where
      by_turn :
          (t : Turn)
          → turn u ≡ t
          → Agrees t (Check u) (To u)
          → (Memᴰ w (visits (until_returns turn us)) → (x : ℕ) × Memᴰ x us × To x w)
          → (x : ℕ) × Memᴰ x (u ∷ us) × To x w
      by_turn returns e a ih =
          let p : visits (until_returns turn (u ∷ us)) ≡ [] = rw (e, until_returns) refl in
          absurd (Memᴰ.not-nil (subst (Memᴰ w) p m))
      by_turn (calls acts) e a ih =
          let p : visits (until_returns turn (u ∷ us))
              ≡ visits acts ++ visits (until_returns turn us) =
            rw (e, until_returns) (visits-append acts (until_returns turn us)) in
          elim ((Memᴰ-append w (visits acts) (visits (until_returns turn us))).0
            (subst (Memᴰ w) p m)) [
              | inl now ↦ (u, Memᴰ.head refl, (a.1 w).0 now)
              | inr later ↦ let (x, k, t) = ih later in (x, Memᴰ.tail k, t)
            ]

  -- Where none of the users is a check, it calls the walk on all of them.
  pub until_returns_complete :
      (us : List ℕ)
      → ((u : ℕ) → Memᴰ u us → Check u → ⊥)
      → (u w : ℕ) → Memᴰ u us
      → To u w
      → Memᴰ w (visits (until_returns turn us))
  until_returns_complete [] open' u w k t = absurd (Memᴰ.not-nil k)
  until_returns_complete (x ∷ us) open' u w k t =
      by_turn (turn x) refl (agrees x)
        (λ m. until_returns_complete us (λ y l. open' y (Memᴰ.tail l)) u w m t)
    where
      by_turn :
          (s : Turn)
          → turn x ≡ s
          → Agrees s (Check x) (To x)
          → (Memᴰ u us → Memᴰ w (visits (until_returns turn us)))
          → Memᴰ w (visits (until_returns turn (x ∷ us)))
      by_turn returns e a ih = absurd (open' x (Memᴰ.head refl) a)
      by_turn (calls acts) e a ih =
          let p : visits (until_returns turn (x ∷ us))
              ≡ visits acts ++ visits (until_returns turn us) =
            rw (e, until_returns) (visits-append acts (until_returns turn us)) in
          subst (Memᴰ w) (sym p) (elim ((Memᴰ-cons u x us).0 k) [
            | inl same ↦
                Memᴰ.append_left (visits (until_returns turn us))
                  ((a.1 w).1 (subst (λ y. To y w) same t))
            | inr more ↦ Memᴰ.append_right (visits acts) (ih more)
          ])
