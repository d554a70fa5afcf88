-- ===== src/SecurityChecks/MayReturnLaws.antt =====
-- mayReturnErr decides whether an instruction that shows an error can be reached over calls.
use mathlib.Core.List.Memᴰ
use crix.Base.{
  ℕ, ◌≡◌, refl, sym, Bool, true, inl, inr, ◌↔◌, Option, none, some, List, [], ◌∷◌, ◌++◌, Memᴰ,
  Memᴰ-append, Memᴰ-cons, arith, subst, Bool-cases,
}
use crix.Ir.{Ir}
use crix.Context.{Context}
use crix.Worklist.Search.{Sight, found, follow, Reaches, search-Post}
use crix.Ir.Kinds.{instructions}
use crix.SecurityChecks.MayReturnSteps.{ShowsError, LeadsInto, inspect-Agrees}
use crix.SecurityChecks.MayReturn.{inspect, then_scan, scan, look_into, may_return_err}

-- Which instructions make a scan find: one that shows it.
scan-found :
    (look : ℕ → Option Sight) (is : List ℕ)
    → scan look is ≡ some found
    → (i : ℕ) × Memᴰ i is × (look i ≡ some found)
unfolding scan
scan-found look [] h = cc
scan-found look (i ∷ is) h = cases (look i) (scan look is) refl refl h (scan-found look is)
  where
    cases :
        (a b : Option Sight)
        → look i ≡ a
        → scan look is ≡ b
        → then_scan a b ≡ some found
        → (scan look is ≡ some found → (j : ℕ) × Memᴰ j is × (look j ≡ some found))
        → (j : ℕ) × Memᴰ j (i ∷ is) × (look j ≡ some found)
    cases none b e e' k ih = cc
    cases (some found) b e e' k ih = (i, Memᴰ.head refl, e)
    cases (some (follow fs)) none e e' k ih = cc
    cases (some (follow fs)) (some found) e e' k ih = let (j, m, q) = ih e' in (j, Memᴰ.tail m, q)
    cases (some (follow fs)) (some (follow gs)) e e' k ih = cc

-- A scan that follows shows the functions that the instructions show, and no other.
abbrev Shown : (ℕ → Option Sight) → List ℕ → List ℕ → Type 0
Shown look is new =
    ((i : ℕ)
      → Memᴰ i is
      → (fs : List ℕ) × (look i ≡ some (follow fs)) × ((g : ℕ) → Memᴰ g fs → Memᴰ g new))
    × ((g : ℕ)
        → Memᴰ g new
        → (i : ℕ) × (fs : List ℕ) × Memᴰ i is × (look i ≡ some (follow fs)) × Memᴰ g fs)

Shown-cons :
    (look : ℕ → Option Sight) (i : ℕ) (is fs new : List ℕ)
    → look i ≡ some (follow fs)
    → Shown look is new
    → Shown look (i ∷ is) (fs ++ new)
Shown-cons look i is fs new e s = (
  λ j m. elim ((Memᴰ-cons j i is).0 m) [
    | inl q ↦ (fs, subst (λ x. look x ≡ some (follow fs)) (sym q) e, λ g k. Memᴰ.append_left new k)
    | inr k ↦ let (gs, e', there) = s.0 j k in (gs, e', λ g l. Memᴰ.append_right fs (there g l))
  ],
  λ g m. elim ((Memᴰ-append g fs new).0 m) [
    | inl k ↦ (i, fs, Memᴰ.head refl, e, k)
    | inr k ↦ let (j, gs, l, e', k') = s.1 g k in (j, gs, Memᴰ.tail l, e', k')
  ],
)

scan-follow :
    (look : ℕ → Option Sight) (is new : List ℕ)
    → scan look is ≡ some (follow new)
    → Shown look is new
unfolding scan
scan-follow look [] new h =
    let q : [] ≡ new = ground arith in
    subst (Shown look []) q (λ i m. absurd (Memᴰ.not-nil m), λ g m. absurd (Memᴰ.not-nil m))
scan-follow look (i ∷ is) new h =
    cases (look i) (scan look is) refl refl h (λ gs. scan-follow look is gs)
  where
    cases :
        (a b : Option Sight)
        → look i ≡ a
        → scan look is ≡ b
        → then_scan a b ≡ some (follow new)
        → ((gs : List ℕ) → scan look is ≡ some (follow gs) → Shown look is gs)
        → Shown look (i ∷ is) new
    cases none b e e' k ih = cc
    cases (some found) b e e' k ih = cc
    cases (some (follow fs)) none e e' k ih = cc
    cases (some (follow fs)) (some found) e e' k ih = cc
    cases (some (follow fs)) (some (follow gs)) e e' k ih =
        let q : fs ++ gs ≡ new = ground arith in
        subst (Shown look (i ∷ is)) q (Shown-cons look i is fs gs e (ih gs e'))

module _ (ir : Ir) (ctx : Context) where
  -- A function that a chain of calls leads to: an instruction of each leads into the next.
  pub data CallChain (f : ℕ) : ℕ → Type 0 where
    here : CallChain f f
    down :
        {g h : ℕ} (i : ℕ)
        → CallChain f g
        → Memᴰ i (instructions ir g)
        → LeadsInto ir ctx i (ir.node i) h
        → CallChain f h

  -- A function with an instruction that shows an error.
  abbrev pub Evidence : ℕ → Type 0
  Evidence g = (i : ℕ) × Memᴰ i (instructions ir g) × ShowsError ir ctx g i (ir.node i)

  Reaches-CallChain : (fuel f : ℕ) {g : ℕ} → Reaches (look_into ir ctx fuel) f g → CallChain f g
  unfolding look_into
  Reaches-CallChain fuel f Reaches.here = CallChain.here
  Reaches-CallChain fuel f (Reaches.step {i = g} {j = h} {new} r e k) =
      let (i, fs, m, q, k') =
        (scan-follow (inspect ir ctx fuel g) (instructions ir g) new e).1 h k in
      CallChain.down i (Reaches-CallChain fuel f r) m
        (((inspect-Agrees ir ctx fuel g i (follow fs) q).1 h).0 k')

  -- If no function that the search came to was an answer, it came to every function of a chain.
  CallChain-Reaches :
      (fuel f : ℕ)
      → ((g : ℕ)
          → Reaches (look_into ir ctx fuel) f g
          → (new : List ℕ) × (look_into ir ctx fuel g ≡ some (follow new)))
      → {g : ℕ} → CallChain f g
      → Reaches (look_into ir ctx fuel) f g
  unfolding look_into
  CallChain-Reaches fuel f all CallChain.here = Reaches.here
  CallChain-Reaches fuel f all (CallChain.down {g} {h} i c m l) =
      let r = CallChain-Reaches fuel f all c in
      let (new, q) = all g r in
      let (fs, e, there) = (scan-follow (inspect ir ctx fuel g) (instructions ir g) new q).0 i m in
      Reaches.step r q (there h (((inspect-Agrees ir ctx fuel g i (follow fs) e).1 h).1 l))

  -- What an answer of mayReturnErr says.
  pub may_return_err_iff :
      (fuel f : ℕ) (answer : Bool)
      → may_return_err ir ctx fuel f ≡ some answer
      → (answer ≡ true) ↔ ((g : ℕ) × CallChain f g × Evidence g)
  unfolding may_return_err look_into
  may_return_err_iff fuel f answer h =
      let post = search-Post (look_into ir ctx fuel) fuel f answer h in
      (
        λ is.
            let (g, r, e) = post.0 is in
            let (i, m, q) = scan-found (inspect ir ctx fuel g) (instructions ir g) e in
            (g, Reaches-CallChain fuel f r, (i, m, inspect-Agrees ir ctx fuel g i found q)),
        λ (g, c, (i, m, shown)). elim (Bool-cases answer) [
          | inl is ↦ is
          | inr not_so ↦
              let all = post.1 not_so in
              let (new, q) = all g (CallChain-Reaches fuel f all c) in
              let (fs, e, _) =
                (scan-follow (inspect ir ctx fuel g) (instructions ir g) new q).0 i m in
              absurd ((inspect-Agrees ir ctx fuel g i (follow fs) e).0 shown)
        ],
      )
