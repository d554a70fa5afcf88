-- ===== src/MissingChecks/TrackTotal.antt =====
-- The tracking that countSrcUseUnchecks asks for ends.
use Prim.Native.Nat.{compare, Ordering}
use crix.Base.{
  ℕ, zero, suc, ◌<◌, ◌≡◌, refl, Bool, true, false, List, [], ◌∷◌, Memᴰ, All, All-append, has,
  nat_eq, use_eq, if◌then◌else◌, Ends, Ends-bind, Ends-some, Ends-for_each_in, get_elem?, head?,
  from_option, flat_map, insert, arith, weight_outside_mono, for_each, Bool-cases, inl, inr,
}
use crix.Ir.{Ir, Node}
use crix.Ir.Kinds.{null, instructions}
use crix.Context.{Context}
use crix.Walk.{Trace}
use crix.Walk.Total.{untracked}
use crix.DataFlow.Aliases.{get_alias_pointers}
use crix.DataFlow.Reach.{collect_succ_reach_blocks, collect_pred_reach_blocks}
use crix.DataFlow.ReachLaws.{collect_reach_blocks_return}
use crix.MissingChecks.Model.{SrcUse, Counts}
use crix.MissingChecks.Forward.{is_checked_forward}
use crix.MissingChecks.ForwardTotal.{is_checked_forward_total}
use crix.MissingChecks.BackwardTotal.{IsClosedProgram}
use crix.MissingChecks.Unchecks.{add_loads, loads_to_track, track_all, argument_to_track}

-- Values and blocks with all that the counting meets; null is a value, and the block that is looked at
-- in a function without blocks.
pub record HoldsProgram (ir : Ir) (ctx : Context) (values places : List ℕ) : Type 0 where
  pub closed : IsClosedProgram ir ctx values places
  pub users : (v : ℕ) → All (λ u. Memᴰ u values) (ir.users v)
  pub no_value : Memᴰ null values
  pub no_place : Memᴰ null places
  pub formals : (f : ℕ) → All (λ a. Memᴰ a values) (ir.args f)
  pub blocks : (f : ℕ) → All (λ b. Memᴰ b places) (ir.blocks f)
  pub body : (f : ℕ) → All (λ i. Memᴰ i values × Memᴰ (ir.parent i) places) (instructions ir f)

module _ (ir : Ir) (ctx : Context) (fuel : ℕ) (values places : List ℕ)
    (holds : HoldsProgram ir ctx values places) (enough_values : untracked [] values < fuel)
    (enough_places : untracked [] places < fuel) where
  abbrev In : ℕ → Type 0
  In v = Memᴰ v values

  pub get_elem?-All : (xs : List ℕ) (n : ℕ) → All In xs → In (from_option null (get_elem? xs n))
  get_elem?-All [] n h = holds.no_value
  get_elem?-All (x ∷ xs) zero h = h.0
  get_elem?-All (x ∷ xs) (suc n) h = get_elem?-All xs n h.1

  insert-In : (a : ℕ) (xs : List ℕ) → In a → All In xs → All In (insert a xs)
  insert-In a [] k h = (k, tt)
  insert-In a (x ∷ xs) k h = by_order (compare a x) (insert-In a xs k h.1)
    where
      by_order :
          (o : Ordering)
          → All In (insert a xs)
          → All In (elim o as (λ o. List ℕ) [
            | Ordering.lt ↦ a ∷ x ∷ xs
            | Ordering.eq ↦ x ∷ xs
            | Ordering.gt ↦ x ∷ insert a xs
          ])
      by_order Ordering.lt rest = (k, h)
      by_order Ordering.eq rest = h
      by_order Ordering.gt rest = (h.0, rest)

  insert_if-In :
      (b : Bool) (u : ℕ) (s : List ℕ) → In u → All In s → All In (if b then insert u s else s)
  insert_if-In true u s k h = insert-In u s k h
  insert_if-In false u s k h = h

  add_loads-In :
      (reach_bbs us s : List ℕ)
      → All In us
      → All In s
      → All In (add_loads ir ctx fuel reach_bbs us s)
  unfolding add_loads
  add_loads-In reach_bbs [] s h k = k
  add_loads-In reach_bbs (u ∷ us) s h k =
      by_node (ir.node u) refl
        (add_loads-In reach_bbs us (if has (ir.parent u) reach_bbs then insert u s else s) h.1
          (insert_if-In (has (ir.parent u) reach_bbs) u s h.0 k))
        (add_loads-In reach_bbs us s h.1 k)
    where
      by_node :
          (n : Node)
          → ir.node u ≡ n
          → All In (
              add_loads ir ctx fuel reach_bbs us
                (if has (ir.parent u) reach_bbs then insert u s else s))
          → All In (add_loads ir ctx fuel reach_bbs us s)
          → All In (add_loads ir ctx fuel reach_bbs (u ∷ us) s)
      by_node (Node.load p) e added same = rw (e, add_loads) added
      by_node _ e added same = rw (e, add_loads) same

  All-flat_map : (vs : List ℕ) → All In (flat_map ir.users vs)
  unfolding flat_map
  All-flat_map [] = tt
  All-flat_map (v ∷ vs) =
      All-append In (ir.users v) (flat_map ir.users vs) (holds.users v) (All-flat_map vs)

  pub loads_to_track-In :
      (f p : ℕ) (reach_bbs s : List ℕ)
      → All In s
      → All In (loads_to_track ir ctx fuel f p reach_bbs s)
  unfolding loads_to_track
  loads_to_track-In f p reach_bbs s h =
      add_loads-In reach_bbs (flat_map ir.users (get_alias_pointers p (ctx.func_pa_results f))) s
        (All-flat_map (get_alias_pointers p (ctx.func_pa_results f))) h

  pub argument_to_track-In :
      (callee arg : ℕ) (reach_bbs : List ℕ)
      → In arg
      → All In (argument_to_track ir ctx fuel callee arg reach_bbs)
  unfolding argument_to_track
  argument_to_track-In callee arg reach_bbs h = elim (Bool-cases (ir.is_pointer arg)) [
    | inl is ↦
        rw (is, argument_to_track) (loads_to_track-In callee arg reach_bbs (insert arg []) (h, tt))
    | inr is_not ↦ rw (is_not, argument_to_track) (h, tt)
  ]

  pub track_all-Ends :
      (c : Counts) (f : ℕ) (src : SrcUse) (reach_bbs to_track : List ℕ)
      → All In to_track
      → Ends (track_all ir ctx fuel c f src reach_bbs to_track)
  unfolding track_all
  track_all-Ends c f src reach_bbs to_track h =
      Ends-bind
        (for_each (λ tv t. is_checked_forward ir ctx c fuel f src tv reach_bbs t) to_track
          (record { seen = []; acc = false }))
        _
        (Ends-for_each_in In (λ tv t. is_checked_forward ir ctx c fuel f src tv reach_bbs t)
          (λ tv inside t.
            is_checked_forward_total ir ctx c values holds.users fuel f src tv reach_bbs t inside
              (few t))
          to_track h (record { seen = []; acc = false }))
        (λ t. Ends-some t.acc)
    where
      few : (t : Trace Bool) → untracked t.seen values < fuel
      few t =
          let less = weight_outside_mono (λ _. 1) [] t.seen values (λ k e. absurd (cc)) in
          omega arith

  pub reach-Ends :
      (b : ℕ)
      → Memᴰ b places
      → Ends (collect_succ_reach_blocks ir fuel b [])
        × Ends (collect_pred_reach_blocks ir fuel b [])
  reach-Ends b m =
      collect_reach_blocks_return ir places fuel b [] holds.closed.edges m enough_places

  -- Places of a function's entry, and of an instruction.
  pub entry-Memᴰ :
      (bs : List ℕ) → All (λ b. Memᴰ b places) bs → Memᴰ (from_option null (head? bs)) places
  entry-Memᴰ [] h = holds.no_place
  entry-Memᴰ (b ∷ bs) h = h.0
