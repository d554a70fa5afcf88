-- ===== src/Base/Sets.antt =====
-- `std::set` and `llvm::SmallPtrSet` of pointers, as lists: pointers are numbers, and `insert` keeps
-- the ascending order in which `std::set` is walked. `has` and `count_outside` serve every key type.
use Prim.Native.Nat.{ℕ, ◌+◌, ◌≤◌, compare, Ordering}
use mathlib.Core.Path.{◌≡◌, refl}
use mathlib.Core.Logic.{◌↔◌}
use mathlib.Core.Bool.{Bool, true, false, ◌||◌}
use mathlib.Core.List.{List, [], ◌∷◌, Memᴰ}
use mathlib.Core.List.Memᴰ
use native.Mathlib.Omega.{arith}
use crix.Base.Tests.{◌==◌, if◌then◌else◌, Eq, nat_eq}
use crix.Base.Lists.{Memᴰ-cons}

module _ {ℓ} {K : Type ℓ} ⦃e : Eq K⦄ where
  abbrev pub has : K → List K → Bool
  has k [] = false
  has k (x ∷ xs) = e.beq k x || has k xs

  pub has_iff : (k : K) (xs : List K) → (has k xs ≡ true) ↔ Memᴰ k xs
  has_iff k [] = (λ h. cc, λ m. absurd (Memᴰ.not-nil m))
  has_iff k (x ∷ xs) = ground (arith, e.beq_iff k x, has_iff k xs, Memᴰ-cons k x xs)

  -- The total weight of the keys of a universe that a set has not seen.
  abbrev pub weight_outside : (K → ℕ) → List K → List K → ℕ
  weight_outside w seen [] = 0
  weight_outside w seen (x ∷ xs) = (if has x seen then 0 else w x) + weight_outside w seen xs

  -- Every key of the first set is in the second.
  abbrev pub Grows : List K → List K → Type ℓ
  Grows s t = (k : K) → has k s ≡ true → has k t ≡ true

  pub weight_outside_mono :
      (w : K → ℕ) (s t xs : List K) → Grows s t → weight_outside w t xs ≤ weight_outside w s xs
  weight_outside_mono w s t [] g = omega arith
  weight_outside_mono w s t (x ∷ xs) g = ground (arith, g x, weight_outside_mono w s t xs g)

  -- A key of the universe that is seen for the first time takes its weight away.
  pub weight_outside-drop :
      (w : K → ℕ) (k : K) (s t xs : List K)
      → Grows s t
      → Memᴰ k xs
      → has k s ≡ false
      → has k t ≡ true
      → w k + weight_outside w t xs ≤ weight_outside w s xs
  weight_outside-drop w k s t [] g m h h' = absurd (Memᴰ.not-nil m)
  weight_outside-drop w k s t (x ∷ xs) g (Memᴰ.head q) h h' =
      let fresh : has x s ≡ false = rw (← q) h in
      let now : has x t ≡ true = rw (← q) h' in
      let weight : w k ≡ w x = rw q in ground (arith, weight_outside_mono w s t xs g)
  weight_outside-drop w k s t (x ∷ xs) g (Memᴰ.tail m) h h' =
      ground (arith, g x, weight_outside-drop w k s t xs g m h h')

  pub Grows-cons : (k : K) (s : List K) → Grows s (k ∷ s)
  Grows-cons k s x h = ground arith

  pub has-cons_self : (k : K) (s : List K) → has k (k ∷ s) ≡ true
  has-cons_self k s = ground (arith, e.beq_iff k k)

abbrev pub insert : ℕ → List ℕ → List ℕ
insert a [] = a ∷ []
insert a (x ∷ xs) = elim (compare a x) [
  | Ordering.lt ↦ a ∷ x ∷ xs
  | Ordering.eq ↦ x ∷ xs
  | Ordering.gt ↦ x ∷ insert a xs
]

pub has-insert : (b a : ℕ) (xs : List ℕ) → has b (insert a xs) ≡ (b == a || has b xs)
has-insert b a [] = refl
has-insert b a (x ∷ xs) = ground (arith, has-insert b a xs)

pub Grows-insert : (a : ℕ) (s : List ℕ) → Grows s (insert a s)
Grows-insert a s k h = ground (arith, has-insert k a s)

pub has-insert_self : (a : ℕ) (s : List ℕ) → has a (insert a s) ≡ true
has-insert_self a s = ground (arith, has-insert a a s)

pub not-has-nil {ℓ κ} : {K : Type ℓ} ⦃e : Eq K⦄ {A : Type κ} (k : K) → has k [] ≡ true → A
not-has-nil k h = absurd (cc)
