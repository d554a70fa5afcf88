-- ===== src/Walk/Members.antt =====
-- The calls and additions of a plan that is put together from lists.
use mathlib.Core.List.Memᴰ
use crix.Base.{
  ◌≡◌, ◌⊎◌, ◌↔◌, refl, sym, ap, inl, inr, List, [], ◌∷◌, ◌++◌, Memᴰ, Memᴰ-append, Memᴰ-cons,
  flat_map, subst,
}
use crix.Walk.{Act, visit, note, visits, notes}
use crix.Walk.Visits.{notes-append}

-- A list is read part by part: what it has, each part has.
module _ {ℓ κ μ} {X : Type ℓ} {Y : Type κ} {A : Type μ} (read : List X → List Y)
    (nothing : read [] ≡ [])
    (read-append : (xs ys : List X) → read (xs ++ ys) ≡ read xs ++ read ys) where
  Memᴰ-read-flat_map :
      (g : A → List X) (as' : List A) (y : Y)
      → Memᴰ y (read (flat_map g as')) ↔ ((a : A) × Memᴰ a as' × Memᴰ y (read (g a)))
  unfolding flat_map
  Memᴰ-read-flat_map g [] y =
      (λ m. absurd (Memᴰ.not-nil (subst (Memᴰ y) nothing m)), λ (a, k, m). absurd (Memᴰ.not-nil k))
  Memᴰ-read-flat_map g (a ∷ as') y = (
    λ m.
        elim ((Memᴰ-append y (read (g a)) (read (flat_map g as'))).0
          (subst (Memᴰ y) (read-append (g a) (flat_map g as')) m)) [
            | inl here ↦ (a, Memᴰ.head refl, here)
            | inr later ↦
                let (b, k, l) = (Memᴰ-read-flat_map g as' y).0 later in (b, Memᴰ.tail k, l)
          ],
    λ (b, k, l).
        subst (Memᴰ y) (sym (read-append (g a) (flat_map g as'))) (elim ((Memᴰ-cons b a as').0 k) [
          | inl same ↦
              Memᴰ.append_left (read (flat_map g as')) (subst (λ x. Memᴰ y (read (g x))) same l)
          | inr more ↦ Memᴰ.append_right (read (g a)) ((Memᴰ-read-flat_map g as' y).1 (b, more, l))
        ]),
  )

module _ {ℓ κ} {I : Type ℓ} {N : Type κ} where
  pub visits-append : (xs ys : List (Act I N)) → visits (xs ++ ys) ≡ visits xs ++ visits ys
  visits-append [] ys = refl
  visits-append (visit i ∷ xs) ys = ap (λ zs. i ∷ zs) (visits-append xs ys)
  visits-append (note n ∷ xs) ys = visits-append xs ys

  pub Memᴰ-visits {μ} :
      {A : Type μ} (g : A → List (Act I N)) (as' : List A) (i : I)
      → Memᴰ i (visits (flat_map g as')) ↔ ((a : A) × Memᴰ a as' × Memᴰ i (visits (g a)))
  Memᴰ-visits g as' i = Memᴰ-read-flat_map visits refl visits-append g as' i

  pub Memᴰ-notes {μ} :
      {A : Type μ} (g : A → List (Act I N)) (as' : List A) (n : N)
      → Memᴰ n (notes (flat_map g as')) ↔ ((a : A) × Memᴰ a as' × Memᴰ n (notes (g a)))
  Memᴰ-notes g as' n = Memᴰ-read-flat_map notes refl notes-append g as' n

-- Short lists.
pub Memᴰ-none {ℓ} : {A : Type ℓ} (x : A) → Memᴰ x [] ↔ ⊥
Memᴰ-none x = (λ m. Memᴰ.not-nil m, λ h. absurd h)

pub Memᴰ-one {ℓ} : {A : Type ℓ} (a x : A) → Memᴰ x (a ∷ []) ↔ (x ≡ a)
Memᴰ-one a x = (
  λ m. elim ((Memᴰ-cons x a []).0 m) [ inl e ↦ e | inr k ↦ absurd (Memᴰ.not-nil k) ],
  λ e. Memᴰ.head e,
)

pub Memᴰ-two {ℓ} : {A : Type ℓ} (a b x : A) → Memᴰ x (a ∷ b ∷ []) ↔ ((x ≡ a) ⊎ (x ≡ b))
Memᴰ-two a b x = (
  λ m. elim ((Memᴰ-cons x a (b ∷ [])).0 m) [ inl e ↦ inl e | inr k ↦ inr ((Memᴰ-one b x).0 k) ],
  λ o. elim o [ inl e ↦ Memᴰ.head e | inr e ↦ Memᴰ.tail (Memᴰ.head e) ],
)
