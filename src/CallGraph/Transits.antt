-- ===== src/CallGraph/Transits.antt =====
-- The truncated hash in findCalleesWithMLTA of CallGraph.cc.
use Prim.Native.String.{String}
use crix.Base.{
  ℕ, zero, suc, ◌%◌, ◌^◌, ◌<◌, ◌≡◌, refl, ap, ◌∙◌, true, Option, none, some, ◌>>=◌, List, [], ◌∷◌,
  arith, Bool-cases, Option-cases, List-cases, inl, inr, ℤ,
}
use crix.CallGraph.{Program}
use crix.CallGraph.Hashes.{call_hash, type_hash, type_idx_hash}
use crix.CallGraph.Layers.{
  TypeMaps, Layer, func_set_intersection, or_keep, next_layer_base_type, is_escaped, merge_transits,
  merge_layer, merge_layers, find_callees_with_mlta,
}

module _ (pg : Program) (names : ℕ → Option String) (maps : TypeMaps) (transit : ℕ → List ℕ)
    (same : (k : ℕ) → k < 2 ^ 32 → transit k ≡ maps.type_transit k) where
  abbrev others : TypeMaps
  others = record maps { type_transit = transit }

  transits_same :
      (idx : ℤ) (hs fs1 fst : List ℕ)
      → merge_transits pg names others idx hs (fs1, fst)
        ≡ merge_transits pg names maps idx hs (fs1, fst)
  unfolding merge_transits
  transits_same idx [] fs1 fst = refl
  transits_same idx (h ∷ hs) fs1 fst = transits_same idx hs _ _

  layer_same :
      (l : Layer) (fs1 : List ℕ)
      → merge_layer pg names others l fs1 ≡ merge_layer pg names maps l fs1
  unfolding merge_layer
  layer_same l fs1 =
      let read : transit (type_hash pg names l.layer_ty % 2 ^ 32)
          ≡ maps.type_transit (type_hash pg names l.layer_ty % 2 ^ 32) =
        same (type_hash pg names l.layer_ty % 2 ^ 32) (omega arith) in
      let fst =
        func_set_intersection fs1
          (maps.type_funcs (type_idx_hash pg names l.layer_ty l.field_idx)) in
      ap (λ r. or_keep r.1 r.0)
        (transits_same l.field_idx (transit (type_hash pg names l.layer_ty % 2 ^ 32)) fs1 fst)
      ∙ ap (λ hs. let r = merge_transits pg names maps l.field_idx hs (fs1, fst) in or_keep r.1 r.0)
          read

  escaped_same : (l : Layer) → is_escaped pg names others l ≡ is_escaped pg names maps l
  unfolding is_escaped
  escaped_same l = refl

  layers_same :
      (depth fuel : ℕ) (r : Option Layer) (fs1 : List ℕ)
      → merge_layers pg names others depth fuel r fs1 ≡ merge_layers pg names maps depth fuel r fs1
  unfolding merge_layers
  layers_same depth zero none fs1 = refl
  layers_same depth (suc fuel) none fs1 = refl
  layers_same depth zero (some l) fs1 = refl
  layers_same depth (suc fuel) (some l) fs1 = elim (Bool-cases (is_escaped pg names maps l)) [
    | inl out ↦ rw (escaped_same l ∙ out, merge_layers) refl
    | inr kept ↦
        rw (escaped_same l ∙ kept, merge_layers)
          (elim (Option-cases (next_layer_base_type pg depth l.base)) [
            | inl gone ↦ rw gone refl
            | inr (next, there) ↦ rw there (
                layers_same depth fuel next (merge_layer pg names others l fs1)
                ∙ ap (merge_layers pg names maps depth fuel next) (layer_same l fs1))
          ])
  ]

  -- findCalleesWithMLTA reads typeTransitMap at keys below 2^32 only: with any other map that agrees
  -- with it there, and with any fuel, it has the same result. The keys are 64-bit hashes.
  pub find_callees_with_mlta_transit :
      (depth fuel : ℕ) (sig_funcs : ℕ → List ℕ) (ci called : ℕ)
      → find_callees_with_mlta pg names
          (record maps { type_transit = transit })
          depth
          fuel
          sig_funcs
          ci
          called
        ≡ find_callees_with_mlta pg names maps depth fuel sig_funcs ci called
  unfolding find_callees_with_mlta
  find_callees_with_mlta_transit depth fuel sig_funcs ci called =
      elim (List-cases (sig_funcs (call_hash pg ci))) [
        | inl nil ↦ rw (nil, find_callees_with_mlta) refl
        | inr (f, fs, e) ↦
            rw (e, find_callees_with_mlta)
              (elim (Option-cases (next_layer_base_type pg depth called)) [
                | inl gone ↦ rw gone refl
                | inr (first, there) ↦ rw there (
                    ap (λ m. m >>= λ fs1. some (true, fs1)) (layers_same depth fuel first (f ∷ fs)))
              ])
      ]
