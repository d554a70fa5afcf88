-- ===== src/Base/Maps.antt =====
-- `std::map` and `llvm::DenseMap` as association lists. `find` is the member function, and
-- `adjust d k g` is `m[k] = g(m[k])`, where `m[k]` inserts the default `d` for a missing key.
use mathlib.Core.Path.{◌≡◌, refl}
use Prim.Native.Nat.{ℕ}
use mathlib.Core.Logic.{inl, inr}
use mathlib.Core.Bool.{Bool, true, false, not, ◌&&◌, ◌||◌}
use mathlib.Core.List.{List, [], ◌∷◌}
use mathlib.Core.Option.{Option, none, some}
use native.Mathlib.Omega.{arith}
use crix.Base.Tests.{if◌then◌else◌, Eq, nat_eq, ◌==◌, Bool-cases}
use crix.Base.Sets.{insert, has, has-insert}

abbrev pub from_option {ℓ} : {V : Type ℓ} → V → Option V → V
from_option d none = d
from_option d (some v) = v

abbrev pub is_some {ℓ} : {V : Type ℓ} → Option V → Bool
is_some none = false
is_some (some v) = true

-- `m[k].insert(v)` on a map to sets, as a function.
abbrev pub insert_at : ℕ → ℕ → (ℕ → List ℕ) → ℕ → List ℕ
insert_at k v m j = if j == k then insert v (m j) else m j

pub has-insert_at :
    (x k v : ℕ) (m : ℕ → List ℕ) (j : ℕ)
    → has x (insert_at k v m j) ≡ ((j == k && x == v) || has x (m j))
has-insert_at x k v m j = elim (Bool-cases (j == k)) [
  | inl same ↦ rw same (has-insert x v (m j))
  | inr other ↦ rw other refl
]

module _ {ℓ κ} {K : Type ℓ} {V : Type κ} ⦃e : Eq K⦄ where
  unfoldable pub find : K → List (K × V) → Option V
  find k [] = none
  find k ((j, v) ∷ m) = if e.beq k j then some v else find k m

  unfoldable pub adjust : V → K → (V → V) → List (K × V) → List (K × V)
  adjust d k g [] = (k, g d) ∷ []
  adjust d k g ((j, v) ∷ m) = if e.beq k j then (j, g v) ∷ m else (j, v) ∷ adjust d k g m

  -- The member function `insert`, which keeps what is there.
  unfoldable pub insert_new : K → V → List (K × V) → List (K × V)
  unfolding find
  insert_new k v m = if is_some (find k m) then m else (k, v) ∷ m

  pub find-insert_new :
      (k j : K) (v : V) (m : List (K × V))
      → find j (insert_new k v m)
        ≡ (if e.beq j k && not (is_some (find k m)) then some v else find j m)
  unfolding find insert_new
  find-insert_new k j v m = elim (Bool-cases (is_some (find k m))) [
    | inl there ↦ rw (there, insert_new) (ground (arith))
    | inr free ↦ rw (free, insert_new) (ground arith)
  ]

  -- The value of `m[k]`.
  abbrev pub read : V → K → List (K × V) → V
  read d k m = from_option d (find k m)

  -- What `m[k]` leaves of the map where it is only read.
  abbrev pub touch : V → K → List (K × V) → List (K × V)
  touch d k m = adjust d k (λ v. v) m

  pub find-adjust :
      (d : V) (k j : K) (g : V → V) (m : List (K × V))
      → find j (adjust d k g m) ≡ (if e.beq j k then some (g (read d k m)) else find j m)
  unfolding find adjust
  find-adjust d k j g [] = refl
  find-adjust d k j g ((i, v) ∷ m) =
      ground (arith, e.beq_iff k i, e.beq_iff j i, e.beq_iff j k, find-adjust d k j g m)

  pub read-adjust :
      (d : V) (k j : K) (g : V → V) (m : List (K × V))
      → read d j (adjust d k g m) ≡ (if e.beq j k then g (read d k m) else read d j m)
  read-adjust d k j g m = ground (arith, find-adjust d k j g m)

  pub read-touch : (d : V) (k j : K) (m : List (K × V)) → read d j (touch d k m) ≡ read d j m
  read-touch d k j m = ground (arith, find-adjust d k j (λ v. v) m, e.beq_iff j k)
