-- ===== src/CallGraph/LayerRuns.antt =====
-- The layers that findCalleesWithMLTA goes through, and what it returns.
use Prim.Native.String.{String}
use crix.Base.{
  ℕ, zero, suc, ◌≡◌, ◌≢◌, refl, sym, ap, ◌∙◌, Bool, true, false, Option, none, some, ◌>>=◌, List,
  [], ◌∷◌, foldl, nat_eq, Bool-cases, Option-cases, inl, inr, ◌⊎◌, subst, List-cases, >>=-eq-some,
  some_inj,
}
use crix.CallGraph.{Program, Gep}
use crix.CallGraph.Hashes.{call_hash}
use crix.CallGraph.Layers.{
  TypeMaps, Layer, unary_operand, gep_layer, next_layer_base_type, is_escaped, merge_layer,
  merge_layers, find_callees_with_mlta,
}
use crix.CallGraph.Narrowing.{narrow, all_evidence, foldl-merge_layer}

module _ (pg : Program) where
  -- The layer that a value is taken from, without fuel.
  pub data FromLayer : ℕ → Option Layer → Type 0 where
    at_gep : {v : ℕ} {g : Gep} → pg.gep v ≡ some g → FromLayer v (gep_layer pg g)
    through :
        {v o : ℕ} {r : Option Layer}
        → pg.gep v ≡ none
        → unary_operand (pg.ir.node v) ≡ some o
        → FromLayer o r
        → FromLayer v r
    bottom : {v : ℕ} → pg.gep v ≡ none → unary_operand (pg.ir.node v) ≡ none → FromLayer v none

  next_layer_return :
      (depth v : ℕ) (r : Option Layer) → next_layer_base_type pg depth v ≡ some r → FromLayer v r
  unfolding next_layer_base_type
  next_layer_return zero v r h = cc
  next_layer_return (suc depth) v r h = elim (Option-cases (pg.gep v)) [
    | inr (g, e) ↦
        let q : gep_layer pg g ≡ r = some_inj (rw (e, next_layer_base_type) at h) in
        subst (FromLayer v) q (at_gep e)
    | inl e ↦ elim (Option-cases (unary_operand (pg.ir.node v))) [
      | inl q ↦
          let n : none ≡ r = some_inj (rw q at (rw (e, next_layer_base_type) at h)) in
          subst (FromLayer v) n (bottom e q)
      | inr (o, q) ↦
          through e q (next_layer_return depth o r (rw q at (rw (e, next_layer_base_type) at h)))
    ]
  ]

module _ (pg : Program) (names : ℕ → Option String) (maps : TypeMaps) where
  -- The layers from one on, down to the first that has escaped.
  pub data Layers : Option Layer → List Layer → Type 0 where
    end : Layers none []
    escaped : {l : Layer} → is_escaped pg names maps l ≡ true → Layers (some l) []
    layer :
        {l : Layer} {next : Option Layer} {ls : List Layer}
        → is_escaped pg names maps l ≡ false
        → FromLayer pg l.base next
        → Layers next ls
        → Layers (some l) (l ∷ ls)

  -- A run that returns has narrowed by the layers.
  merge_layers_return :
      (depth fuel : ℕ) (r : Option Layer) (fs1 fs : List ℕ)
      → merge_layers pg names maps depth fuel r fs1 ≡ some fs
      → (ls : List Layer) × Layers r ls × (fs ≡ foldl narrow fs1 (all_evidence pg names maps ls))
  unfolding merge_layers
  merge_layers_return depth zero none fs1 fs h = ([], end, sym (some_inj h))
  merge_layers_return depth (suc fuel) none fs1 fs h = ([], end, sym (some_inj h))
  merge_layers_return depth zero (some l) fs1 fs h = cc
  merge_layers_return depth (suc fuel) (some l) fs1 fs h =
      elim (Bool-cases (is_escaped pg names maps l)) [
        | inl out ↦ ([], escaped out, sym (some_inj (rw (out, merge_layers) at h)))
        | inr kept ↦
            let (next, run, rest) =
              >>=-eq-some (next_layer_base_type pg depth l.base)
                (λ cv. merge_layers pg names maps depth fuel cv (merge_layer pg names maps l fs1))
                (rw (kept, merge_layers) at h) in
            let (ls, lays, e) =
              merge_layers_return depth fuel next (merge_layer pg names maps l fs1) fs rest in
            (
              l ∷ ls,
              layer kept (next_layer_return pg depth l.base next run) lays,
              e ∙ foldl-merge_layer pg names maps l fs1 ls,
            )
      ]

  -- A run of findCalleesWithMLTA that returns found no function of the signature, or has narrowed
  -- those by the evidence of the layers.
  pub find_callees_with_mlta_return :
      (depth fuel : ℕ) (sig_funcs : ℕ → List ℕ) (ci called : ℕ) (b : Bool) (fs : List ℕ)
      → find_callees_with_mlta pg names maps depth fuel sig_funcs ci called ≡ some (b, fs)
      → ((sig_funcs (call_hash pg ci) ≡ []) × (b ≡ false) × (fs ≡ []))
        ⊎ ((sig_funcs (call_hash pg ci) ≢ [])
            × (first : Option Layer) × (ls : List Layer) × FromLayer pg called first
            × Layers first ls
            × (b ≡ true)
            × (fs ≡ foldl narrow (sig_funcs (call_hash pg ci)) (all_evidence pg names maps ls)))
  unfolding find_callees_with_mlta
  find_callees_with_mlta_return depth fuel sig_funcs ci called b fs h =
      elim (List-cases (sig_funcs (call_hash pg ci))) [
        | inl nil ↦
            let q : (false, []) ≡ (b, fs) = some_inj (rw (nil, find_callees_with_mlta) at h) in
            inl (nil, ap (λ p. p.0) (sym q), ap (λ p. p.1) (sym q))
        | inr (f, rest, e) ↦
            let (first, run, h₁) =
              >>=-eq-some (next_layer_base_type pg depth called)
                (λ cv.
                  merge_layers pg names maps depth fuel cv (f ∷ rest) >>= λ fs1. some (true, fs1))
                (rw (e, find_callees_with_mlta) at h) in
            let (fs1, merged, h₂) =
              >>=-eq-some (merge_layers pg names maps depth fuel first (f ∷ rest))
                (λ fs1. some (true, fs1)) h₁ in
            let (ls, lays, narrowed) = merge_layers_return depth fuel first (f ∷ rest) fs1 merged in
            let q : (true, fs1) ≡ (b, fs) = some_inj h₂ in
            inr (
              (λ nil. cc),
              first,
              ls,
              next_layer_return pg depth called first run,
              lays,
              ap (λ p. p.0) (sym q),
              ap (λ p. p.1) (sym q) ∙ narrowed ∙ rw e refl,
            )
      ]
