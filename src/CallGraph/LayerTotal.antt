-- ===== src/CallGraph/LayerTotal.antt =====
-- findCalleesWithMLTA ends, and narrows by every layer.
use Prim.Native.String.{String}
use crix.Base.{
  ℕ, zero, suc, ◌≤◌, ◌<◌, ◌≡◌, ◌≢◌, refl, ap, ◌∙◌, true, Option, none, some, List, [], ◌∷◌, foldl,
  nat_eq, arith, Bool-cases, Option-cases, inl, inr, List-cases,
}
use crix.CallGraph.{Program, Gep}
use crix.CallGraph.Hashes.{call_hash}
use crix.CallGraph.Layers.{
  TypeMaps, Layer, unary_operand, gep_layer, next_layer_base_type, is_escaped, merge_layer,
  merge_layers, find_callees_with_mlta,
}
use crix.CallGraph.Narrowing.{narrow, all_evidence, foldl-merge_layer}
use crix.CallGraph.LayerRuns.{FromLayer, Layers, at_gep, through, bottom, end, escaped, layer}

module _ (pg : Program) where
  -- What holds of LLVM's values, as an instruction is no operand of itself but for phi nodes: the
  -- operands of unary instructions and the pointers of GEPs lie deeper.
  pub record IsGrounded (rank : ℕ → ℕ) : Type 0 where
    pub gep_falls : (v : ℕ) (g : Gep) → pg.gep v ≡ some g → rank g.pointer_operand < rank v
    pub unary_falls : (v o : ℕ) → unary_operand (pg.ir.node v) ≡ some o → rank o < rank v

abbrev pub Lower : (ℕ → ℕ) → ℕ → Option Layer → Type 0
Lower rank n none = Unit
Lower rank n (some l) = rank l.base < n

Lower-le : (rank : ℕ → ℕ) (r : Option Layer) (m n : ℕ) → m ≤ n → Lower rank m r → Lower rank n r
Lower-le rank none m n lt h = tt
Lower-le rank (some l) m n lt h = omega arith

module _ (pg : Program) (rank : ℕ → ℕ) (grounded : IsGrounded pg rank) where
  gep_layer-Lower : (v : ℕ) (g : Gep) → pg.gep v ≡ some g → Lower rank (rank v) (gep_layer pg g)
  unfolding gep_layer
  gep_layer-Lower v g e = ground (arith, grounded.gep_falls v g e)

  pub next_layer_total :
      (depth v : ℕ)
      → rank v < depth
      → (r : Option Layer) × (next_layer_base_type pg depth v ≡ some r)
        × FromLayer pg v r
        × Lower rank (rank v) r
  unfolding next_layer_base_type
  next_layer_total zero v h = absurd (omega arith)
  next_layer_total (suc depth) v h = elim (Option-cases (pg.gep v)) [
    | inr (g, e) ↦
        (gep_layer pg g, rw (e, next_layer_base_type) refl, at_gep e, gep_layer-Lower v g e)
    | inl e ↦ elim (Option-cases (unary_operand (pg.ir.node v))) [
      | inl q ↦ (none, rw (e, next_layer_base_type) (rw q refl), bottom e q, tt)
      | inr (o, q) ↦
          let falls = grounded.unary_falls v o q in
          let (r, run, from, low) = next_layer_total depth o (omega arith) in
          (
            r,
            rw (e, next_layer_base_type) (rw q run),
            through e q from,
            Lower-le rank r (rank o) (rank v) (omega arith) low,
          )
    ]
  ]

module _ (pg : Program) (rank : ℕ → ℕ) (grounded : IsGrounded pg rank) (names : ℕ → Option String)
    (maps : TypeMaps) where
  merge_layers_total :
      (depth fuel : ℕ) (r : Option Layer) (fs1 : List ℕ)
      → Lower rank fuel r
      → Lower rank depth r
      → (ls : List Layer) × Layers pg names maps r ls
        × (merge_layers pg names maps depth fuel r fs1
            ≡ some (foldl narrow fs1 (all_evidence pg names maps ls)))
  unfolding merge_layers
  merge_layers_total depth fuel none fs1 low inside = ([], end, refl)
  merge_layers_total depth zero (some l) fs1 low inside = absurd (omega arith)
  merge_layers_total depth (suc fuel) (some l) fs1 low inside =
      elim (Bool-cases (is_escaped pg names maps l)) [
        | inl out ↦ ([], escaped out, rw (out, merge_layers) refl)
        | inr kept ↦
            let (next, run, from, below) = next_layer_total pg rank grounded depth l.base inside in
            let (ls, lays, rest) =
              merge_layers_total depth fuel next (merge_layer pg names maps l fs1)
                (Lower-le rank next (rank l.base) fuel (omega arith) below)
                (Lower-le rank next (rank l.base) depth (omega arith) below) in
            (
              l ∷ ls,
              layer kept from lays,
              rw (kept, merge_layers)
                  (rw run (rest ∙ ap some (foldl-merge_layer pg names maps l fs1 ls))),
            )
      ]

  -- Where the values are grounded by a rank, and with fuel for the rank of the called value:
  -- of a call that has functions of its signature, findCalleesWithMLTA returns true, and leaves
  -- in FS those functions, narrowed in turn by the evidence of each layer from the called value
  -- down to the first layer that has escaped. A set of evidence that none of the functions left
  -- is in leaves them as they are.
  pub find_callees_with_mlta_lem :
      (depth fuel : ℕ) (sig_funcs : ℕ → List ℕ) (ci called : ℕ)
      → rank called < depth
      → rank called ≤ fuel
      → sig_funcs (call_hash pg ci) ≢ []
      → (first : Option Layer) × (ls : List Layer) × FromLayer pg called first
        × Layers pg names maps first ls
        × (find_callees_with_mlta pg names maps depth fuel sig_funcs ci called
            ≡ some
                (true, foldl narrow (sig_funcs (call_hash pg ci)) (all_evidence pg names maps ls)))
  unfolding find_callees_with_mlta
  find_callees_with_mlta_lem depth fuel sig_funcs ci called deep le some_sig =
      elim (List-cases (sig_funcs (call_hash pg ci))) [
        | inl nil ↦ absurd (some_sig nil)
        | inr (f, fs, e) ↦
            let (first, run, from, low) = next_layer_total pg rank grounded depth called deep in
            let (ls, lays, rest) =
              merge_layers_total depth fuel first (f ∷ fs)
                (Lower-le rank first (rank called) fuel le low)
                (Lower-le rank first (rank called) depth (omega arith) low) in
            (first, ls, from, lays, rw (e, find_callees_with_mlta) (rw run (rw rest refl)))
      ]
