-- ===== src/DataFlow/UsesTotal.antt =====
-- findUses ends.
use crix.Base.{
  ℕ, ◌<◌, ◌≡◌, refl, Bool, true, false, ◌||◌, not, some, List, [], ◌∷◌, Memᴰ, has, nat_eq, All,
  All-intro, flat_map, if◌then◌else◌, ◌==◌, Bool-cases, inl, inr, ℤ, negsuc,
}
use crix.Ir.{Ir, Node}
use crix.Ir.Kinds.{null, is_instruction, is_constant_node}
use crix.Ir.Calls.{arg_no}
use crix.Context.{Context}
use crix.Walk.{Trace, Act, visit, note}
use crix.Walk.Total.{untracked, walk_total}
use crix.Walk.Visits.{Stay, Stay-flat_map}
use crix.DataFlow.Aliases.{get_alias_pointers}
use crix.DataFlow.ReachLaws.{collect_reach_blocks_return}
use crix.DataFlow.Uses.{
  add_use, uses_go_on, alias_user, stored_value, use_node, use_user, use_acts, find_uses,
}

module _ (ir : Ir) (ctx : Context) (univ : List ℕ)
    (users_inside : (v : ℕ) → All (λ u. Memᴰ u univ) (ir.users v)) where
  abbrev In : ℕ → Type 0
  In v = Memᴰ v univ

  abbrev Anything : ℕ → Type 0
  Anything v = Unit

  abbrev Stays : List (Act ℕ (ℕ × ℤ)) → Type 0
  Stays = Stay In

  Stays-if :
      (b : Bool) (xs ys : List (Act ℕ (ℕ × ℤ))) → Stays xs → Stays ys → Stays (if b then xs else ys)
  Stays-if true xs ys h k = h
  Stays-if false xs ys h k = k

  alias_user-Stays : (reach_bbs : List ℕ) (u : ℕ) → In u → Stays (alias_user ir ctx reach_bbs u)
  unfolding alias_user
  alias_user-Stays reach_bbs u h =
      elim (Bool-cases (not (is_instruction ir u) || not (has (ir.parent u) reach_bbs))) [
        | inl out ↦ rw out tt
        | inr inside ↦ rw inside (by_node (ir.node u))
      ]
    where
      by_node : (n : Node) → Stays (elim n [ Node.load p ↦ visit u ∷ [] | _ ↦ [] ])
      by_node (Node.load p) = (h, tt)
      by_node _ = tt

  stored_value-Stays : (reach_bbs : List ℕ) (u p : ℕ) → Stays (stored_value ir ctx reach_bbs u p)
  unfolding stored_value
  stored_value-Stays reach_bbs u p =
      let aliases = get_alias_pointers p (ctx.func_pa_results (ir.block_parent (ir.parent u))) in
      Stay-flat_map In Anything (λ a. flat_map (alias_user ir ctx reach_bbs) (ir.users a))
        (λ a h.
          Stay-flat_map In In (alias_user ir ctx reach_bbs) (alias_user-Stays reach_bbs)
            (ir.users a) (users_inside a))
        aliases (All-intro Anything aliases (λ a m. tt))

  use_node-Stays :
      (reach_bbs : List ℕ) (target u : ℕ) (n : Node)
      → In u
      → Stays (use_node ir ctx reach_bbs target u n)
  unfolding use_node
  use_node-Stays reach_bbs target u (Node.gep p) h =
      Stays-if (has (ir.parent u) reach_bbs)
        (note (u, negsuc 0) ∷ (if p == u then visit u ∷ [] else [])) []
        (Stays-if (p == u) (visit u ∷ []) [] (h, tt) tt) tt
  use_node-Stays reach_bbs target u (Node.load p) h =
      Stays-if (target == p) (if has (ir.parent u) reach_bbs then note (u, negsuc 0) ∷ [] else [])
        (visit u ∷ []) (Stays-if (has (ir.parent u) reach_bbs) (note (u, negsuc 0) ∷ []) [] tt tt)
        (h, tt)
  use_node-Stays reach_bbs target u (Node.store sv p) h =
      Stays-if (target == p) (if has (ir.parent u) reach_bbs then note (u, negsuc 0) ∷ [] else [])
        (stored_value ir ctx reach_bbs u p)
        (Stays-if (has (ir.parent u) reach_bbs) (note (u, negsuc 0) ∷ []) [] tt tt)
        (stored_value-Stays reach_bbs u p)
  use_node-Stays reach_bbs target u (Node.icmp p a b) h =
      Stays-if (has (ir.parent u) reach_bbs) (note (u, negsuc 0) ∷ []) [] tt tt
  use_node-Stays reach_bbs target u (Node.fcmp p a b) h =
      Stays-if (has (ir.parent u) reach_bbs) (note (u, negsuc 0) ∷ []) [] tt tt
  use_node-Stays reach_bbs target u (Node.call callee args) h =
      Stays-if (has (ir.parent u) reach_bbs) (note (u, arg_no target args) ∷ []) [] tt tt
  use_node-Stays reach_bbs target u (Node.binary a b) h =
      Stays-if (is_constant_node (ir.node a) || is_constant_node (ir.node b)) [] (visit u ∷ []) tt
        (h, tt)
  use_node-Stays reach_bbs target u (Node.alloca o) h = (h, tt)
  use_node-Stays reach_bbs target u (Node.cast o) h = (h, tt)
  use_node-Stays reach_bbs target u (Node.unary o) h = (h, tt)
  use_node-Stays reach_bbs target u _ h = tt

  use_user-Stays :
      (reach_bbs : List ℕ) (border target u : ℕ)
      → In u
      → Stays (use_user ir ctx reach_bbs border target u)
  unfolding use_user
  use_user-Stays reach_bbs border target u h =
      Stays-if (not (is_instruction ir u) || u == border) []
        (use_node ir ctx reach_bbs target u (ir.node u)) tt
        (use_node-Stays reach_bbs target u (ir.node u) h)

  -- If all users of values are among some values and the block of the instruction among some blocks
  -- that are closed under successors and predecessors, with more fuel than these blocks and than the
  -- values that Visited lacks, findUses returns for each of the values, from any sets.
  pub find_uses_total :
      (blocks : List ℕ) (fuel border target : ℕ) (t : Trace (List (ℕ × ℤ)))
      → ((b : ℕ)
          → Memᴰ b blocks
          → All (λ c. Memᴰ c blocks) (ir.succs b) × All (λ c. Memᴰ c blocks) (ir.preds b))
      → Memᴰ (ir.parent border) blocks
      → Memᴰ target univ
      → untracked [] blocks < fuel
      → untracked t.seen univ < fuel
      → (r : Trace (List (ℕ × ℤ))) × (find_uses ir ctx fuel border target t ≡ some r)
  unfolding find_uses use_acts
  find_uses_total blocks fuel border target t closed block_inside inside enough enough' =
      let (reach_bbs, e) =
        (collect_reach_blocks_return ir blocks fuel (ir.parent border) [] closed block_inside
          enough).0 in
      elim (Bool-cases (border == null)) [
        | inl no_border ↦ (t, rw (no_border, find_uses) refl)
        | inr there ↦
            let (r, e', grow) =
              walk_total (λ v. v) add_use uses_go_on (use_acts ir ctx fuel border) univ In
                (λ i h. (
                  h,
                  (
                    flat_map (use_user ir ctx reach_bbs border i) (ir.users i),
                    rw (e, use_acts) refl,
                    Stay-flat_map In In (use_user ir ctx reach_bbs border i)
                        (use_user-Stays reach_bbs border i) (ir.users i) (users_inside i),
                  ),
                ))
                fuel target t enough' inside in
            (r, rw (there, find_uses) e')
      ]
