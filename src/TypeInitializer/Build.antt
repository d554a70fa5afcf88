-- ===== src/TypeInitializer/Build.antt =====
-- BuildTypeStructMap of TypeInitializer.cc as a composition of two maps.
use Prim.Native.String.{String}
use crix.Base.{
  ℕ, ◌≡◌, refl, sym, ap, ◌∙◌, true, false, Option, none, some, ◌>>=◌, List, [], ◌∷◌, find,
  insert_new, find-insert_new, nat_eq, Bool-cases, Option-cases, inl, inr, ◌==◌, ==_iff,
}
use crix.TypeInitializer.{string_eq, build_type_struct_map}

-- A map in which every key has one entry.
abbrev pub KeysOnce : List (ℕ × String) → Type 0
KeysOnce [] = Unit {0}
KeysOnce ((k, v) ∷ m) = (find k m ≡ none) × KeysOnce m

pub KeysOnce-insert_new :
    (k : ℕ) (v : String) (m : List (ℕ × String)) → KeysOnce m → KeysOnce (insert_new k v m)
unfolding insert_new
KeysOnce-insert_new k v m h = elim (Option-cases (find k m)) [
  | inl free ↦ rw (free, insert_new) (free, h)
  | inr (w, there) ↦ rw (there, insert_new) h
]

-- The name of a type: that of the type of the values that share the name of its variable.
abbrev pub named : List (ℕ × String) → List (String × String) → ℕ → Option String
named types vnames t = find t types >>= λ v. find v vnames

abbrev or_else {ℓ} : {A : Type ℓ} → Option A → Option A → Option A
or_else (some a) o = some a
or_else none o = o

or_else-none {ℓ} : {A : Type ℓ} (o : Option A) → or_else o none ≡ o
or_else-none none = refl
or_else-none (some a) = refl

named-head :
    (u t : ℕ) (v : String) (p : List (ℕ × String)) (vnames : List (String × String))
    → (t == u) ≡ true
    → named ((u, v) ∷ p) vnames t ≡ find v vnames
unfolding find
named-head u t v p vnames same = rw same refl

named-tail :
    (u t : ℕ) (v : String) (p : List (ℕ × String)) (vnames : List (String × String))
    → (t == u) ≡ false
    → named ((u, v) ∷ p) vnames t ≡ named p vnames t
unfolding find
named-tail u t v p vnames other = rw other refl

pub find-build :
    (types : List (ℕ × String)) (vnames : List (String × String)) (gt : List (ℕ × String)) (t : ℕ)
    → KeysOnce types
    → find t (build_type_struct_map types vnames gt) ≡ or_else (find t gt) (named types vnames t)
unfolding build_type_struct_map
find-build [] vnames gt t once = sym (or_else-none (find t gt))
find-build ((u, v) ∷ p) vnames gt t once = elim (Option-cases (find v vnames)) [
  | inl unnamed ↦
      rw (unnamed, build_type_struct_map)
        (find-build p vnames gt t once.1 ∙ ap (or_else (find t gt)) (skip unnamed))
  | inr (n, there) ↦
      rw (there, build_type_struct_map)
        (find-build p vnames (insert_new u n gt) t once.1 ∙ add n there)
]
  where
    gone : t ≡ u → find t p ≡ none
    gone e = rw e once.0

    skip : find v vnames ≡ none → named p vnames t ≡ named ((u, v) ∷ p) vnames t
    skip unnamed = elim (Bool-cases (t == u)) [
      | inl same ↦
          ap (λ o. o >>= λ w. find w vnames) (gone ((==_iff t u).0 same))
          ∙ sym (named-head u t v p vnames same ∙ unnamed)
      | inr other ↦ sym (named-tail u t v p vnames other)
    ]

    add :
        (n : String)
        → find v vnames ≡ some n
        → or_else (find t (insert_new u n gt)) (named p vnames t)
          ≡ or_else (find t gt) (named ((u, v) ∷ p) vnames t)
    add n there = elim (Bool-cases (t == u)) [
      | inr other ↦
          let kept : find t (insert_new u n gt) ≡ find t gt =
            find-insert_new u t n gt ∙ rw other refl in
          rw kept (ap (or_else (find t gt)) (sym (named-tail u t v p vnames other)))
      | inl same ↦
          let q = (==_iff t u).0 same in
          elim (Option-cases (find u gt)) [
            | inl free ↦
                let new : find t (insert_new u n gt) ≡ some n =
                  find-insert_new u t n gt ∙ rw same (rw free refl) in
                let old : find t gt ≡ none = rw q free in
                rw new (rw old (sym (named-head u t v p vnames same ∙ there)))
            | inr (w, taken) ↦
                let old : find t gt ≡ some w = rw q taken in
                let kept : find t (insert_new u n gt) ≡ some w =
                  find-insert_new u t n gt ∙ rw same (rw taken old) in
                rw kept (rw old refl)
          ]
    ]
