-- ===== src/SecurityChecks/EdgeCounts.antt =====
-- The edges between the blocks of a function, and how many the bodies of the marking loops queue.
use mathlib.Core.List.Memᴰ
use crix.Base.{
  ℕ, suc, ◌+◌, ◌≤◌, ◌≡◌, refl, sym, ap, Bool, true, false, List, [], ◌∷◌, ◌++◌, Memᴰ, arith, nat_eq,
  pair_eq, length, if◌then◌else◌, subst, All, All-mem, weight_outside, adjust, touch,
}
use crix.Ir.{Ir, IsCfg}
use crix.SecurityChecks.Flags.{Flags, no_flag, must_return_err, update_return_flag}
use crix.SecurityChecks.Edges.{Edge, EdgeErrMap, edge_of}
use crix.SecurityChecks.Propagate.{Item, spread, gather}
use crix.SecurityChecks.Marking.{edge_fuel}

module _ (ir : Ir) where
  abbrev edges_from : ℕ → List ℕ → List Edge
  edges_from b [] = []
  edges_from b (s ∷ ss) = edge_of ir b s ∷ edges_from b ss

  -- All edges out of the blocks.
  abbrev pub edges : List ℕ → List Edge
  edges [] = []
  edges (b ∷ bs) = edges_from b (ir.succs b) ++ edges bs

  mem-edges_from : (b s : ℕ) (ss : List ℕ) → Memᴰ s ss → Memᴰ (edge_of ir b s) (edges_from b ss)
  mem-edges_from b s [] i = absurd (Memᴰ.not-nil i)
  mem-edges_from b s (x ∷ ss) (Memᴰ.head e) = Memᴰ.head (ap (edge_of ir b) e)
  mem-edges_from b s (x ∷ ss) (Memᴰ.tail i) = Memᴰ.tail (mem-edges_from b s ss i)

  pub mem-edges :
      (b s : ℕ) (bs : List ℕ) → Memᴰ b bs → Memᴰ s (ir.succs b) → Memᴰ (edge_of ir b s) (edges bs)
  mem-edges b s [] i j = absurd (Memᴰ.not-nil i)
  mem-edges b s (x ∷ bs) (Memᴰ.head e) j = Memᴰ.append_left (edges bs) (
      subst (λ y. Memᴰ (edge_of ir y s) (edges_from x (ir.succs x))) (sym e)
        (mem-edges_from x s (ir.succs x) (subst (λ y. Memᴰ s (ir.succs y)) e j)))
  mem-edges b s (x ∷ bs) (Memᴰ.tail i) j =
      Memᴰ.append_right (edges_from x (ir.succs x)) (mem-edges b s bs i j)

  -- Rounds that are enough for each of the loops.
  abbrev pub enough_fuel : List ℕ → ℕ
  enough_fuel univ =
      edge_fuel ir univ
      + weight_outside (λ (e : Edge). length (ir.succs e.1)) [] (edges univ)
      + weight_outside (λ (e : Edge). length (ir.preds (ir.parent e.0))) [] (edges univ)

-- The blocks `univ` are closed under predecessors and successors, as those of a function are.
pub record IsClosedBlocks (ir : Ir) (univ : List ℕ) : Type 0 where
  pub back : (b : ℕ) → Memᴰ b univ → All (λ p. Memᴰ p univ) (ir.preds b)
  pub forth : (b : ℕ) → Memᴰ b univ → All (λ s. Memᴰ s univ) (ir.succs b)

module _ (ir : Ir) (cfg : IsCfg ir) (univ : List ℕ) (closed : IsClosedBlocks ir univ) where
  -- An edge between the blocks.
  abbrev pub IsEdge : Edge → Type 0
  IsEdge e = (b s : ℕ) × Memᴰ b univ × Memᴰ s (ir.succs b) × (e ≡ edge_of ir b s)

  pub IsEdge-mem : (e : Edge) → IsEdge e → Memᴰ e (edges ir univ)
  IsEdge-mem e (b, s, i, j, q) =
      subst (λ x. Memᴰ x (edges ir univ)) (sym q) (mem-edges ir b s univ i j)

  abbrev pub AreEdges : List Item → Type 0
  AreEdges = All (λ (i : Item). IsEdge i.0)

  pub spread_few :
      (tb : ℕ) (ss : List ℕ) (f : Flags) (m : EdgeErrMap)
      → Memᴰ tb univ
      → All (λ s. Memᴰ s (ir.succs tb)) ss
      → AreEdges (spread ir tb ss f m).1 × (length (spread ir tb ss f m).1 ≤ length ss)
  unfolding spread
  spread_few tb [] f m i a = (tt, omega arith)
  spread_few tb (s ∷ ss) f m i a = one _ (λ m'. spread_few tb ss f m' i a.1)
    where
      one :
          (same : Bool)
          → ((m' : EdgeErrMap)
              → AreEdges (spread ir tb ss f m').1 × (length (spread ir tb ss f m').1 ≤ length ss))
          → let m' =
              if same
              then touch no_flag (edge_of ir tb s) m
              else adjust no_flag (edge_of ir tb s) (λ g. update_return_flag g f) m in
            AreEdges (
              if same
              then (spread ir tb ss f m').1
              else (edge_of ir tb s, f) ∷ (spread ir tb ss f m').1)
            × (length (
                  if same
                  then (spread ir tb ss f m').1
                  else (edge_of ir tb s, f) ∷ (spread ir tb ss f m').1)
                ≤ suc (length ss))
      one true ih = let (x, y) = ih (touch no_flag (edge_of ir tb s) m) in (x, omega arith)
      one false ih =
          let (x, y) = ih (adjust no_flag (edge_of ir tb s) (λ g. update_return_flag g f) m) in
          (((tb, s, i, a.0, refl), x), omega arith)

  pub gather_few :
      (tb : ℕ) (ps : List ℕ) (m : EdgeErrMap)
      → Memᴰ tb univ
      → All (λ p. Memᴰ p (ir.preds tb)) ps
      → AreEdges (gather ir tb ps m).1 × (length (gather ir tb ps m).1 ≤ length ps)
  unfolding gather
  gather_few tb [] m i a = (tt, omega arith)
  gather_few tb (p ∷ ps) m i a = one _ (λ m'. gather_few tb ps m' i a.1)
    where
      edge : IsEdge (edge_of ir p tb)
      edge = (
        p,
        tb,
        All-mem (λ x. Memᴰ x univ) (ir.preds tb) (closed.back tb i) a.0,
        (cfg.preds_iff p tb).0 a.0,
        refl,
      )

      one :
          (has_must : Bool)
          → ((m' : EdgeErrMap)
              → AreEdges (gather ir tb ps m').1 × (length (gather ir tb ps m').1 ≤ length ps))
          → let m' =
              if has_must
              then touch no_flag (edge_of ir p tb) m
              else adjust no_flag (edge_of ir p tb) (λ g. update_return_flag g must_return_err) m in
            AreEdges (
              if has_must
              then (gather ir tb ps m').1
              else (edge_of ir p tb, must_return_err) ∷ (gather ir tb ps m').1)
            × (length (
                  if has_must
                  then (gather ir tb ps m').1
                  else (edge_of ir p tb, must_return_err) ∷ (gather ir tb ps m').1)
                ≤ suc (length ps))
      one true ih = let (x, y) = ih (touch no_flag (edge_of ir p tb) m) in (x, omega arith)
      one false ih =
          let (x, y) =
            ih (adjust no_flag (edge_of ir p tb) (λ g. update_return_flag g must_return_err) m) in
          ((edge, x), omega arith)
