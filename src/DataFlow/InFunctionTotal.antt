-- ===== src/DataFlow/InFunctionTotal.antt =====
-- findInFuncSourceCV ends.
use crix.Base.{
  ℕ, ◌<◌, ◌≡◌, refl, Bool, true, false, ◌||◌, not, Option, some, List, [], ◌∷◌, Memᴰ, has, nat_eq,
  All, All-intro, flat_map, if◌then◌else◌, ◌==◌, Bool-cases, inl, inr,
}
use crix.Ir.{Ir, Node}
use crix.Ir.Kinds.{is_instruction, is_constant}
use crix.Context.{Context}
use crix.Walk.{Trace, Act, visit}
use crix.Walk.Total.{untracked, walk_total}
use crix.Walk.Visits.{Stay, Stay-append, Stay-flat_map}
use crix.DataFlow.Aliases.{get_alias_pointers}
use crix.DataFlow.ReachLaws.{collect_reach_blocks_return}
use crix.DataFlow.InFunction.{
  Mark, Found, add_mark, goes_on, visit_incoming, in_func_access, in_func_user, in_func_aliases,
  in_func_load, in_func_node, in_func_acts, find_in_func_source_cv,
}

-- The operands of a value that the data may come from.
abbrev pub values_of : List (ℕ × ℕ) → List ℕ
values_of [] = []
values_of ((iv, bb) ∷ rest) = iv ∷ values_of rest

abbrev pub sources_of : Node → List ℕ
sources_of (Node.constant_expr o os) = o ∷ []
sources_of (Node.select c t f) = t ∷ f ∷ []
sources_of (Node.gep p) = p ∷ []
sources_of (Node.phi incoming) = values_of incoming
sources_of (Node.load p) = p ∷ []
sources_of (Node.store sv p) = sv ∷ []
sources_of (Node.cast o) = o ∷ []
sources_of (Node.extract_value o) = o ∷ []
sources_of (Node.unary o) = o ∷ []
sources_of (Node.binary a b) = a ∷ b ∷ []
sources_of _ = []

module _ (ir : Ir) (ctx : Context) (univ : List ℕ)
    (operands_inside : (v : ℕ) → All (λ u. Memᴰ u univ) (sources_of (ir.node v))) where
  abbrev In : ℕ → Type 0
  In v = Memᴰ v univ

  abbrev Anything : ℕ → Type 0
  Anything v = Unit

  abbrev Stays : List (Act ℕ Mark) → Type 0
  Stays = Stay In

  Stays-if :
      (b : Bool) (xs ys : List (Act ℕ Mark)) → Stays xs → Stays ys → Stays (if b then xs else ys)
  Stays-if true xs ys h k = h
  Stays-if false xs ys h k = k

  incoming-Stays :
      (incoming : List (ℕ × ℕ)) → All In (values_of incoming) → Stays (visit_incoming incoming)
  incoming-Stays [] h = tt
  incoming-Stays ((iv, bb) ∷ rest) h = (h.0, incoming-Stays rest h.1)

  access-Stays : (a u : ℕ) (n : Node) → All In (sources_of n) → Stays (in_func_access ir ctx a u n)
  unfolding in_func_access
  access-Stays a u (Node.store svo p) h = Stays-if (a == p) (visit svo ∷ []) [] h tt
  access-Stays a u (Node.call callee args) h = tt
  access-Stays a u _ h = tt

  in_func_user-Stays : (reach_bbs : List ℕ) (a u : ℕ) → Stays (in_func_user ir ctx reach_bbs a u)
  unfolding in_func_user
  in_func_user-Stays reach_bbs a u =
      Stays-if (not (is_instruction ir u) || not (has (ir.parent u) reach_bbs)) []
        (in_func_access ir ctx a u (ir.node u)) tt
        (access-Stays a u (ir.node u) (operands_inside u))

  in_func_load-Stays :
      (v lpo : ℕ) (reach_bbs : List ℕ) → In lpo → Stays (in_func_load ir ctx v lpo reach_bbs)
  unfolding in_func_load in_func_aliases
  in_func_load-Stays v lpo reach_bbs h =
      let aliases = get_alias_pointers lpo (ctx.func_pa_results (ir.block_parent (ir.parent v))) in
      Stay-append In (in_func_aliases ir ctx reach_bbs aliases) (visit lpo ∷ [])
        (Stay-flat_map In Anything (λ a. flat_map (in_func_user ir ctx reach_bbs a) (ir.users a))
          (λ a k.
            Stay-flat_map In Anything (in_func_user ir ctx reach_bbs a)
              (λ u l. in_func_user-Stays reach_bbs a u) (ir.users a)
              (All-intro Anything (ir.users a) (λ u m. tt)))
          aliases (All-intro Anything aliases (λ a m. tt)))
        (h, tt)

  module _ (blocks : List ℕ) (fuel : ℕ)
      (closed : (b : ℕ)
        → Memᴰ b blocks
        → All (λ c. Memᴰ c blocks) (ir.succs b) × All (λ c. Memᴰ c blocks) (ir.preds b))
      (parents_inside : (v : ℕ) → Memᴰ v univ → Memᴰ (ir.parent v) blocks)
      (enough : untracked [] blocks < fuel) where
    abbrev Planned : Option (List (Act ℕ Mark)) → Type 0
    Planned plan = (acts : List (Act ℕ Mark)) × (plan ≡ some acts) × Stays acts

    in_func_node-Planned :
        (v : ℕ) (n : Node) → In v → All In (sources_of n) → Planned (in_func_node ir ctx fuel v n)
    unfolding in_func_node
    in_func_node-Planned v (Node.argument f) i h = (_, refl, tt)
    in_func_node-Planned v (Node.alloca o) i h = (_, refl, tt)
    in_func_node-Planned v (Node.constant_expr o os) i h = (_, refl, h)
    in_func_node-Planned v (Node.call callee args) i h = (_, refl, tt)
    in_func_node-Planned v (Node.select c t f) i h = (_, refl, h)
    in_func_node-Planned v (Node.gep p) i h = (_, refl, h)
    in_func_node-Planned v (Node.phi incoming) i h = (_, refl, incoming-Stays incoming h)
    in_func_node-Planned v (Node.load lpo) i h =
        let (reach_bbs, e) =
          (collect_reach_blocks_return ir blocks fuel (ir.parent v) [] closed (parents_inside v i)
            enough).1 in
        (in_func_load ir ctx v lpo reach_bbs, rw e refl, in_func_load-Stays v lpo reach_bbs h.0)
    in_func_node-Planned v (Node.icmp p a b) i h = (_, refl, tt)
    in_func_node-Planned v (Node.cast o) i h = (_, refl, h)
    in_func_node-Planned v (Node.extract_value o) i h = (_, refl, h)
    in_func_node-Planned v (Node.unary o) i h = (_, refl, h)
    in_func_node-Planned v (Node.binary a b) i h = (_, refl, h)
    in_func_node-Planned v _ i h = ([], refl, tt)

    in_func_acts-Planned : (v : ℕ) → In v → Planned (in_func_acts ir ctx fuel v)
    unfolding in_func_acts
    in_func_acts-Planned v i = elim (Bool-cases (is_constant ir v)) [
      | inl is ↦ rw is (_, refl, tt)
      | inr is_not ↦ rw is_not (in_func_node-Planned v (ir.node v) i (operands_inside v))
    ]

    -- If the operands that data may come from are among some values and the blocks of these values
    -- among some blocks that are closed under successors and predecessors, with more fuel than these
    -- blocks and than the values that TrackedSet lacks, findInFuncSourceCV returns for each of the
    -- values, from any sets.
    pub find_in_func_source_cv_total :
        (v : ℕ) (t : Trace Found)
        → Memᴰ v univ
        → untracked t.seen univ < fuel
        → (r : Trace Found) × (find_in_func_source_cv ir ctx fuel v t ≡ some r)
    unfolding find_in_func_source_cv
    find_in_func_source_cv_total v t inside enough' =
        let (r, e, grow) =
          walk_total (λ v. v) add_mark goes_on (in_func_acts ir ctx fuel) univ In
            (λ i h. (h, in_func_acts-Planned i h)) fuel v t enough' inside in
        (r, e)
