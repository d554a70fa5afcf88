-- ===== src/CallGraph/LayerBounds.antt =====
-- What findCalleesWithMLTA never does: invent a target, lose the last one, or drop a target that
-- every layer allows.
use Prim.Native.String.{String}
use crix.Base.{
  ℕ, ◌≤◌, ◌<◌, ◌≡◌, ◌≢◌, ◌↔◌, sym, Bool, true, false, Option, some, List, [], ◌∷◌, foldl, has,
  nat_eq, arith, List-cases, inl, inr, Grows, All, subst,
}
use crix.CallGraph.{Program}
use crix.CallGraph.Hashes.{call_hash}
use crix.CallGraph.Layers.{TypeMaps, Layer, func_set_intersection, find_callees_with_mlta}
use crix.CallGraph.Narrowing.{has-func_set_intersection, narrow, all_evidence}
use crix.CallGraph.LayerRuns.{FromLayer, Layers, find_callees_with_mlta_return}
use crix.CallGraph.LayerTotal.{IsGrounded, find_callees_with_mlta_lem}

-- A set that came from another by narrowing.
pub record Narrows (fs from : List ℕ) : Type 0 where
  pub inside : Grows fs from
  pub kept : from ≢ [] → fs ≢ []

Narrows-refl : (fs : List ℕ) → Narrows fs fs
Narrows-refl fs = record { inside = λ k h. h; kept = λ h. h }

Narrows-trans : (fs gs hs : List ℕ) → Narrows fs gs → Narrows gs hs → Narrows fs hs
Narrows-trans fs gs hs a b = record {
  inside = λ k h. b.inside k (a.inside k h);
  kept = λ h. a.kept (b.kept h);
}

Narrows-narrow : (fs e : List ℕ) → Narrows (narrow fs e) fs
Narrows-narrow fs e = elim (List-cases (func_set_intersection fs e)) [
  | inl nil ↦ rw nil (Narrows-refl fs)
  | inr (f, rest, both) ↦ rw both (record {
    inside = λ k h. ground (
      arith,
      has-func_set_intersection k fs e,
      let q : has k (func_set_intersection fs e) ≡ true = rw both h in q,
    );
    kept = λ h nil. cc;
  })
]

pub Narrows-foldl : (es : List (List ℕ)) (fs : List ℕ) → Narrows (foldl narrow fs es) fs
Narrows-foldl [] fs = Narrows-refl fs
Narrows-foldl (e ∷ es) fs =
    Narrows-trans (foldl narrow (narrow fs e) es) (narrow fs e) fs (Narrows-foldl es (narrow fs e))
      (Narrows-narrow fs e)

-- A function that the evidence allows stays.
keeps-narrow :
    (f : ℕ) (fs e : List ℕ) → has f fs ≡ true → has f e ≡ true → has f (narrow fs e) ≡ true
keeps-narrow f fs e here there =
    let both : has f (func_set_intersection fs e) ≡ true =
      ground (arith, has-func_set_intersection f fs e) in
    elim (List-cases (func_set_intersection fs e)) [
      | inl nil ↦ rw nil here
      | inr (g, rest, q) ↦ rw q (rw q at both)
    ]

keeps-foldl :
    (f : ℕ) (es : List (List ℕ)) (fs : List ℕ)
    → has f fs ≡ true
    → All (λ e. has f e ≡ true) es
    → has f (foldl narrow fs es) ≡ true
keeps-foldl f [] fs here h = here
keeps-foldl f (e ∷ es) fs here h = keeps-foldl f es (narrow fs e) (keeps-narrow f fs e here h.0) h.1

module _ (pg : Program) (names : ℕ → Option String) (maps : TypeMaps) where
  -- Whenever findCalleesWithMLTA returns: FS holds none but functions of the call's signature, and it
  -- is empty only if there is no such function, which is when the result is false.
  pub find_callees_with_mlta_bounds :
      (depth fuel : ℕ) (sig_funcs : ℕ → List ℕ) (ci called : ℕ) (b : Bool) (fs : List ℕ)
      → find_callees_with_mlta pg names maps depth fuel sig_funcs ci called ≡ some (b, fs)
      → Grows fs (sig_funcs (call_hash pg ci))
        × ((fs ≡ []) ↔ (sig_funcs (call_hash pg ci) ≡ []))
        × ((b ≡ false) ↔ (sig_funcs (call_hash pg ci) ≡ []))
  find_callees_with_mlta_bounds depth fuel sig_funcs ci called b fs h =
      elim (find_callees_with_mlta_return pg names maps depth fuel sig_funcs ci called b fs h) [
        | inl (nil, fails, empty) ↦
            ((λ k q. absurd (cc (rw empty at q))), (λ q. nil, λ q. empty), (λ q. nil, λ q. fails))
        | inr (some_sig, first, ls, from, lays, found, e) ↦
            let n : Narrows fs (sig_funcs (call_hash pg ci)) =
              subst (λ t. Narrows t (sig_funcs (call_hash pg ci))) (sym e)
                (Narrows-foldl (all_evidence pg names maps ls) (sig_funcs (call_hash pg ci))) in
            (
              n.inside,
              (λ q. absurd (n.kept some_sig q), λ q. absurd (some_sig q)),
              (λ q. absurd (cc), λ q. absurd (some_sig q)),
            )
      ]

  -- Under the conditions of a total run: a function of the call's signature that is in every set of
  -- evidence, of each layer down to the first that has escaped, is in FS.
  pub find_callees_with_mlta_keeps :
      (rank : ℕ → ℕ) (grounded : IsGrounded pg rank) (depth fuel : ℕ) (sig_funcs : ℕ → List ℕ)
      (ci called f : ℕ)
      → rank called < depth
      → rank called ≤ fuel
      → has f (sig_funcs (call_hash pg ci)) ≡ true
      → ((first : Option Layer) (ls : List Layer)
          → FromLayer pg called first
          → Layers pg names maps first ls
          → All (λ e. has f e ≡ true) (all_evidence pg names maps ls))
      → (fs : List ℕ) × (find_callees_with_mlta pg names maps depth fuel sig_funcs ci called
          ≡ some (true, fs))
        × (has f fs ≡ true)
  find_callees_with_mlta_keeps rank grounded depth fuel sig_funcs ci called f deep le sig allowed =
      let some_sig : sig_funcs (call_hash pg ci) ≢ [] = λ nil. cc (rw nil at sig) in
      let (first, ls, from, lays, run) =
        find_callees_with_mlta_lem pg rank grounded names maps depth fuel sig_funcs ci called deep
          le some_sig in
      (
        foldl narrow (sig_funcs (call_hash pg ci)) (all_evidence pg names maps ls),
        run,
        keeps-foldl f (all_evidence pg names maps ls) (sig_funcs (call_hash pg ci)) sig
            (allowed first ls from lays),
      )
