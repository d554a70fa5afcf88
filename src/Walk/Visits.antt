-- ===== src/Walk/Visits.antt =====
-- The calls of a walk's plan that is put together from lists, where each stays among some items.
use crix.Base.{◌≡◌, refl, ap, List, [], ◌∷◌, ◌++◌, All, flat_map}
use crix.Walk.{Act, visit, note, visits, notes}

module _ {ℓ κ ν} {I : Type ℓ} {N : Type κ} (Good : I → Type ν) where
  abbrev pub Stay : List (Act I N) → Type ν
  Stay acts = All Good (visits acts)

  pub Stay-append : (xs ys : List (Act I N)) → Stay xs → Stay ys → Stay (xs ++ ys)
  Stay-append [] ys a b = b
  Stay-append (visit i ∷ xs) ys a b = (a.0, Stay-append xs ys a.1 b)
  Stay-append (note n ∷ xs) ys a b = Stay-append xs ys a b

  pub Stay-flat_map {μ ρ} :
      {A : Type μ} (P : A → Type ρ) (g : A → List (Act I N))
      → ((a : A) → P a → Stay (g a))
      → (as' : List A) → All P as'
      → Stay (flat_map g as')
  unfolding flat_map
  Stay-flat_map P g stay [] h = tt
  Stay-flat_map P g stay (a ∷ as') h =
      Stay-append (g a) (flat_map g as') (stay a h.0) (Stay-flat_map P g stay as' h.1)

module _ {ℓ κ} {I : Type ℓ} {N : Type κ} where
  pub notes-append : (xs ys : List (Act I N)) → notes (xs ++ ys) ≡ notes xs ++ notes ys
  notes-append [] ys = refl
  notes-append (visit i ∷ xs) ys = notes-append xs ys
  notes-append (note n ∷ xs) ys = ap (λ zs. n ∷ zs) (notes-append xs ys)

  pub notes-flat_map {μ} :
      {A : Type μ} (g : A → List (Act I N))
      → ((a : A) → notes (g a) ≡ [])
      → (as' : List A) → notes (flat_map g as') ≡ []
  unfolding flat_map
  notes-flat_map g quiet [] = refl
  notes-flat_map g quiet (a ∷ as') =
      rw (notes-append (g a) (flat_map g as'), quiet a, notes-flat_map g quiet as') refl
