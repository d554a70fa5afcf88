-- ===== src/CallGraph/MatchingLaws.antt =====
-- Which types findCalleesWithType takes for the same.
use Prim.Native.String.{String}
use text.Mathlib.TextEquality.{eq_iff}
use crix.Base.{
  ℕ, zero, suc, ◌≡◌, refl, sym, ap, ◌∙◌, Bool, true, false, ◌||◌, none, some, ◌==◌, ==_iff, nat_eq,
  Option-cases, Bool-cases, inl, inr, ◌↔◌, ◌⊎◌, subst, some_inj,
}
use crix.CallGraph.{Program, Shape}
use crix.CallGraph.Matching.{
  is_pointer_shape, same_shape, pointees, strip_both, is_universal_for, stripped_match,
}

pointees-inv :
    (s t : Shape) (d a : ℕ)
    → pointees s t ≡ some (d, a)
    → (s ≡ Shape.pointer d) × (t ≡ Shape.pointer a)
pointees-inv (Shape.pointer x) (Shape.pointer y) d a e =
    let q = some_inj e in (ap (λ p. Shape.pointer p.0) q, ap (λ p. Shape.pointer p.1) q)
pointees-inv (Shape.pointer x) (Shape.integer y) d a e = absurd (cc)
pointees-inv (Shape.pointer x) (Shape.structure y) d a e = absurd (cc)
pointees-inv (Shape.pointer x) Shape.array d a e = absurd (cc)
pointees-inv (Shape.pointer x) Shape.vector d a e = absurd (cc)
pointees-inv (Shape.pointer x) Shape.other_type d a e = absurd (cc)
pointees-inv _ t d a e = absurd (cc)

pointer-inv : (s : Shape) → is_pointer_shape s ≡ true → (e : ℕ) × (s ≡ Shape.pointer e)
pointer-inv (Shape.pointer e) h = (e, refl)
pointer-inv _ h = absurd (cc)

abbrev pointee_of : Shape → ℕ
pointee_of (Shape.pointer e) = e
pointee_of _ = 0

-- Structs of one name, and integers of one width.
pub data SameShape : Shape → Shape → Type 0 where
  structs : (n : String) → SameShape (Shape.structure n) (Shape.structure n)
  integers : (w : ℕ) → SameShape (Shape.integer w) (Shape.integer w)

same_shape-inv : (s t : Shape) → same_shape s t ≡ true → SameShape s t
same_shape-inv (Shape.structure m) (Shape.structure n) h =
    subst (λ x. SameShape (Shape.structure m) (Shape.structure x)) ((eq_iff m n).0 h) (structs m)
same_shape-inv (Shape.integer v) (Shape.integer w) h =
    subst (λ x. SameShape (Shape.integer v) (Shape.integer x)) ((==_iff v w).0 h) (integers v)
same_shape-inv (Shape.structure m) (Shape.integer n) h = absurd (cc)
same_shape-inv (Shape.structure m) (Shape.pointer n) h = absurd (cc)
same_shape-inv (Shape.structure m) Shape.array h = absurd (cc)
same_shape-inv (Shape.structure m) Shape.vector h = absurd (cc)
same_shape-inv (Shape.structure m) Shape.other_type h = absurd (cc)
same_shape-inv (Shape.integer m) (Shape.structure n) h = absurd (cc)
same_shape-inv (Shape.integer m) (Shape.pointer n) h = absurd (cc)
same_shape-inv (Shape.integer m) Shape.array h = absurd (cc)
same_shape-inv (Shape.integer m) Shape.vector h = absurd (cc)
same_shape-inv (Shape.integer m) Shape.other_type h = absurd (cc)
same_shape-inv _ t h = absurd (cc)

SameShape-holds : {s t : Shape} → SameShape s t → same_shape s t ≡ true
SameShape-holds (SameShape.structs n) = (eq_iff n n).1 refl
SameShape-holds (SameShape.integers w) = (==_iff w w).1 refl

module _ (pg : Program) where
  -- The two types that a call and a function may differ in.
  pub data Alike : ℕ → ℕ → Type 0 where
    shapes : {d a : ℕ} → SameShape (pg.shape d) (pg.shape a) → Alike d a
    defined_universal : Alike pg.int8_ptr_ty pg.int_ptr_ty
    actual_universal : Alike pg.int_ptr_ty pg.int8_ptr_ty
    behind :
        {d a : ℕ} (d' a' : ℕ)
        → pg.shape d ≡ Shape.pointer d'
        → pg.shape a ≡ Shape.pointer a'
        → Alike d' a'
        → Alike d a

  -- i8* is a pointer, and the integer of its width is not.
  pub record IsLayout : Type 0 where
    pub pointee : ℕ
    pub width : ℕ
    pub int8_pointer : pg.shape pg.int8_ptr_ty ≡ Shape.pointer pointee
    pub int_ptr : pg.shape pg.int_ptr_ty ≡ Shape.integer width

  or_inv : (a b : Bool) → (a || b) ≡ true → (a ≡ true) ⊎ (b ≡ true)
  or_inv true b h = inl refl
  or_inv false b h = inr h

  or_right : (a b : Bool) → b ≡ true → (a || b) ≡ true
  or_right true b h = refl
  or_right false b h = h

  -- Where one of the two is no pointer.
  universal-inv :
      (p t : ℕ)
      → IsLayout
      → pointees (pg.shape p) (pg.shape t) ≡ none
      → is_universal_for pg p t ≡ true
      → (p ≡ pg.int8_ptr_ty) × (t ≡ pg.int_ptr_ty)
  universal-inv p t l apart h = elim (Bool-cases (p == pg.int8_ptr_ty)) [
    | inr other ↦ absurd (cc (rw other at h))
    | inl same ↦
        let q = (==_iff p pg.int8_ptr_ty).0 same in
        elim (or_inv (is_pointer_shape (pg.shape t)) (t == pg.int_ptr_ty) (rw same at h)) [
          | inr int ↦ (q, (==_iff t pg.int_ptr_ty).0 int)
          | inl pointer ↦
              let (e, k) = pointer-inv (pg.shape t) pointer in
              let shape_p : pg.shape p ≡ Shape.pointer l.pointee = ap pg.shape q ∙ l.int8_pointer in
              absurd (cc (rw (shape_p, k) at apart))
        ]
  ]

  pointees_comm : (s t : Shape) → pointees s t ≡ none → pointees t s ≡ none
  pointees_comm (Shape.pointer x) (Shape.pointer y) h = absurd (cc)
  pointees_comm s (Shape.pointer y) h = refl
  pointees_comm s t h = refl

  stripped_match_iff :
      (d a : ℕ)
      → IsLayout
      → pointees (pg.shape d) (pg.shape a) ≡ none
      → (stripped_match pg d a ≡ true) ↔ Alike d a
  unfolding stripped_match
  stripped_match_iff d a l apart = (sound, λ k. complete d a apart k)
    where
      sound : stripped_match pg d a ≡ true → Alike d a
      sound h =
          elim (or_inv (same_shape (pg.shape d) (pg.shape a))
            (is_universal_for pg d a || is_universal_for pg a d) h) [
              | inl same ↦ shapes (same_shape-inv (pg.shape d) (pg.shape a) same)
              | inr h' ↦ elim (or_inv (is_universal_for pg d a) (is_universal_for pg a d) h') [
                | inl u ↦
                    let (p, q) = universal-inv d a l apart u in
                    subst (λ x. Alike x a) (sym p)
                      (subst (Alike pg.int8_ptr_ty) (sym q) defined_universal)
                | inr u ↦
                    let (p, q) =
                      universal-inv a d l (pointees_comm (pg.shape d) (pg.shape a) apart) u in
                    subst (Alike d) (sym p)
                      (subst (λ x. Alike x pg.int8_ptr_ty) (sym q) actual_universal)
              ]
            ]

      holds : is_universal_for pg pg.int8_ptr_ty pg.int_ptr_ty ≡ true
      holds = rw ((==_iff pg.int8_ptr_ty pg.int8_ptr_ty).1 refl) (
          or_right (is_pointer_shape (pg.shape pg.int_ptr_ty)) (pg.int_ptr_ty == pg.int_ptr_ty)
            ((==_iff pg.int_ptr_ty pg.int_ptr_ty).1 refl))

      complete :
          (d a : ℕ)
          → pointees (pg.shape d) (pg.shape a) ≡ none
          → Alike d a
          → stripped_match pg d a ≡ true
      complete d a apart (Alike.shapes s) = rw (SameShape-holds s, stripped_match) refl
      complete _ _ apart Alike.defined_universal =
          or_right (same_shape (pg.shape pg.int8_ptr_ty) (pg.shape pg.int_ptr_ty))
            (is_universal_for pg pg.int8_ptr_ty pg.int_ptr_ty
              || is_universal_for pg pg.int_ptr_ty pg.int8_ptr_ty)
            (rw holds refl)
      complete _ _ apart Alike.actual_universal =
          or_right (same_shape (pg.shape pg.int_ptr_ty) (pg.shape pg.int8_ptr_ty))
            (is_universal_for pg pg.int_ptr_ty pg.int8_ptr_ty
              || is_universal_for pg pg.int8_ptr_ty pg.int_ptr_ty)
            (or_right (is_universal_for pg pg.int_ptr_ty pg.int8_ptr_ty)
              (is_universal_for pg pg.int8_ptr_ty pg.int_ptr_ty) holds)
      complete d a apart (Alike.behind d' a' p q k) = absurd (cc (rw (p, q) at apart))

  pub strip_both_iff :
      (fuel d a d' a' : ℕ)
      → IsLayout
      → strip_both pg fuel d a ≡ some (d', a')
      → (stripped_match pg d' a' ≡ true) ↔ Alike d a
  unfolding strip_both
  strip_both_iff zero d a d' a' l h = absurd (cc)
  strip_both_iff (suc fuel) d a d' a' l h =
      elim (Option-cases (pointees (pg.shape d) (pg.shape a))) [
        | inl apart ↦
            let q = some_inj (rw (apart, strip_both) at h) in
            subst (λ p. (stripped_match pg p.0 p.1 ≡ true) ↔ Alike d a) q
              (stripped_match_iff d a l apart)
        | inr ((x, y), both) ↦
            let (p, q) = pointees-inv (pg.shape d) (pg.shape a) x y both in
            let (f, g) = strip_both_iff fuel x y d' a' l (rw (both, strip_both) at h) in
            (λ m. behind x y p q (f m), λ k. g (under d a x y p q k))
      ]
    where
      under :
          (d a x y : ℕ)
          → pg.shape d ≡ Shape.pointer x
          → pg.shape a ≡ Shape.pointer y
          → Alike d a
          → Alike x y
      under d a x y p q (Alike.shapes s) =
          let e : same_shape (Shape.pointer x) (pg.shape a) ≡ true =
            subst (λ z. same_shape z (pg.shape a) ≡ true) p (SameShape-holds s) in
          let e' : same_shape (Shape.pointer x) (Shape.pointer y) ≡ true =
            subst (λ z. same_shape (Shape.pointer x) z ≡ true) q e in
          absurd (cc)
      under _ _ x y p q Alike.defined_universal = absurd (cc (sym l.int_ptr ∙ q))
      under _ _ x y p q Alike.actual_universal = absurd (cc (sym l.int_ptr ∙ p))
      under d a x y p q (Alike.behind d' a' p' q' k) =
          let u : d' ≡ x = ap pointee_of (sym p' ∙ p) in
          let v : a' ≡ y = ap pointee_of (sym q' ∙ q) in
          subst (λ z. Alike z y) u (subst (Alike d') v k)
