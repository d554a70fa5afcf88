-- ===== src/CallGraph/Narrowing.antt =====
-- findCalleesWithMLTA narrows the functions of the first layer by the evidence of a layer at a time.
use Prim.Native.String.{String}
use crix.Base.{
  ℕ, ◌%◌, ◌^◌, ◌≡◌, refl, sym, ap, ◌∙◌, ◌&&◌, ◌||◌, Option, List, [], ◌∷◌, ◌++◌, map, foldl, has,
  has-insert, nat_eq, arith, Bool-cases, inl, inr, insert,
}
use mathlib.Core.List.{foldl-append}
use crix.CallGraph.{Program}
use crix.CallGraph.Hashes.{type_hash, type_idx_hash, hash_idx_hash}
use crix.CallGraph.Layers.{
  TypeMaps, Layer, collect_common, func_set_intersection, or_keep, merge_transits, merge_layer,
}

has-collect :
    (f : ℕ) (fs1 fs2 fs : List ℕ)
    → has f (collect_common fs1 fs2 fs) ≡ (has f fs || (has f fs1 && has f fs2))
unfolding collect_common
has-collect f [] fs2 fs = ground arith
has-collect f (g ∷ fs1) fs2 fs = elim (Bool-cases (has g fs2)) [
  | inl both ↦ rw both (ground (arith, has-collect f fs1 fs2 (insert g fs), has-insert f g fs))
  | inr single ↦ rw single (ground (arith, has-collect f fs1 fs2 fs))
]

pub has-func_set_intersection :
    (f : ℕ) (fs1 fs2 : List ℕ) → has f (func_set_intersection fs1 fs2) ≡ (has f fs1 && has f fs2)
unfolding func_set_intersection
has-func_set_intersection f fs1 fs2 = ground (arith, has-collect f fs1 fs2 [])

-- The functions of a set that the evidence allows, or all where it allows none.
abbrev pub narrow : List ℕ → List ℕ → List ℕ
narrow fs evidence = or_keep (func_set_intersection fs evidence) fs

module _ (pg : Program) (names : ℕ → Option String) (maps : TypeMaps) where
  abbrev pub transit_evidence : Layer → List ℕ → List (List ℕ)
  transit_evidence l hs = map (λ h. maps.type_funcs (hash_idx_hash pg h l.field_idx)) hs

  -- The sets that a layer has to say about the targets: those of the types that transit to its type,
  -- or that of its own type and field where none does.
  abbrev pub evidence_from : Layer → List ℕ → List (List ℕ)
  evidence_from l [] = maps.type_funcs (type_idx_hash pg names l.layer_ty l.field_idx) ∷ []
  evidence_from l (h ∷ hs) = transit_evidence l (h ∷ hs)

  abbrev pub evidence : Layer → List (List ℕ)
  evidence l = evidence_from l (maps.type_transit (type_hash pg names l.layer_ty % 2 ^ 32))

  abbrev pub all_evidence : List Layer → List (List ℕ)
  all_evidence [] = []
  all_evidence (l ∷ ls) = evidence l ++ all_evidence ls

  abbrev settled : List ℕ × List ℕ → List ℕ
  settled s = or_keep s.1 s.0

  or_keep_twice : (fst fs1 : List ℕ) → or_keep fst (or_keep fst fs1) ≡ or_keep fst fs1
  or_keep_twice [] fs1 = refl
  or_keep_twice (f ∷ fst) fs1 = refl

  merge_transits_lem :
      (l : Layer) (hs fs1 fst : List ℕ)
      → or_keep fst fs1 ≡ fs1
      → settled (merge_transits pg names maps l.field_idx hs (fs1, fst))
        ≡ foldl narrow fs1 (transit_evidence l hs)
  unfolding merge_transits
  merge_transits_lem l [] fs1 fst kept = kept
  merge_transits_lem l (h ∷ hs) fs1 fst kept =
      let e = maps.type_funcs (hash_idx_hash pg h l.field_idx) in
      merge_transits_lem l hs (narrow fs1 e) (func_set_intersection fs1 e)
        (or_keep_twice (func_set_intersection fs1 e) fs1)

  merge_from_lem :
      (l : Layer) (hs fs1 : List ℕ)
      → settled (
          merge_transits pg names maps l.field_idx hs (
            fs1,
            func_set_intersection fs1
                (maps.type_funcs (type_idx_hash pg names l.layer_ty l.field_idx)),
          ))
        ≡ foldl narrow fs1 (evidence_from l hs)
  unfolding merge_transits
  merge_from_lem l [] fs1 = refl
  merge_from_lem l (h ∷ hs) fs1 =
      let e = maps.type_funcs (hash_idx_hash pg h l.field_idx) in
      merge_transits_lem l hs (narrow fs1 e) (func_set_intersection fs1 e)
        (or_keep_twice (func_set_intersection fs1 e) fs1)

  -- One turn of the loop narrows FS1 by the evidence of the layer.
  merge_layer_lem :
      (l : Layer) (fs1 : List ℕ) → merge_layer pg names maps l fs1 ≡ foldl narrow fs1 (evidence l)
  unfolding merge_layer
  merge_layer_lem l fs1 =
      merge_from_lem l (maps.type_transit (type_hash pg names l.layer_ty % 2 ^ 32)) fs1

  -- One layer and those after it.
  pub foldl-merge_layer :
      (l : Layer) (fs1 : List ℕ) (ls : List Layer)
      → foldl narrow (merge_layer pg names maps l fs1) (all_evidence ls)
        ≡ foldl narrow fs1 (all_evidence (l ∷ ls))
  foldl-merge_layer l fs1 ls =
      ap (λ fs. foldl narrow fs (all_evidence ls)) (merge_layer_lem l fs1)
      ∙ sym (foldl-append narrow fs1 (evidence l) (all_evidence ls))
