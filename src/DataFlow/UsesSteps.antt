-- ===== src/DataFlow/UsesSteps.antt =====
-- To which values a value flows on for findUses, and which of its users are uses.
use crix.Base.{ℕ, ◌≡◌, ◌≢◌, true, false, Memᴰ, nat_eq, ℤ, negsuc}
use crix.Ir.{Ir, Node}
use crix.Ir.Kinds.{is_instruction, is_constant_node}
use crix.Ir.Calls.{arg_no}
use crix.Context.{Context}
use crix.DataFlow.Aliases.{get_alias_pointers}
use crix.DataFlow.ReachLaws.{Route}

module _ (ir : Ir) (ctx : Context) (border : ℕ) where
  -- An instruction in a block to which a path leads from that of the border.
  abbrev pub IsBehind : ℕ → Type 0
  IsBehind u = Route ir.succs (ir.parent border) (ir.parent u)

  -- Such a load of an alias of the pointer that the store `u` writes to.
  abbrev pub IsLoaded : ℕ → ℕ → ℕ → Type 0
  IsLoaded u p w =
      (a : ℕ) × Memᴰ a (get_alias_pointers p (ctx.func_pa_results (ir.block_parent (ir.parent u))))
      × Memᴰ w (ir.users a)
      × (is_instruction ir w ≡ true)
      × IsBehind w
      × ((q : ℕ) × (ir.node w ≡ Node.load q))

  -- The value `w` that the target flows on to through its user `u`, which is such an instruction.
  abbrev pub FlowsThrough : ℕ → ℕ → Node → ℕ → Type 0
  FlowsThrough target u (Node.gep p) w = IsBehind u × (p ≡ u) × (w ≡ u)
  FlowsThrough target u (Node.load p) w = (target ≢ p) × (w ≡ u)
  FlowsThrough target u (Node.store sv p) w = (target ≢ p) × IsLoaded u p w
  FlowsThrough target u (Node.binary a b) w =
      (is_constant_node (ir.node a) ≡ false) × (is_constant_node (ir.node b) ≡ false) × (w ≡ u)
  FlowsThrough target u (Node.alloca o) w = w ≡ u
  FlowsThrough target u (Node.cast o) w = w ≡ u
  FlowsThrough target u (Node.unary o) w = w ≡ u
  FlowsThrough target u _ w = ⊥

  -- With which argument number the user is a use of the target: none, where it is no call.
  abbrev pub UsesAs : ℕ → Node → ℤ → Type 0
  UsesAs target (Node.gep p) k = k ≡ negsuc 0
  UsesAs target (Node.load p) k = (target ≡ p) × (k ≡ negsuc 0)
  UsesAs target (Node.store sv p) k = (target ≡ p) × (k ≡ negsuc 0)
  UsesAs target (Node.icmp p a b) k = k ≡ negsuc 0
  UsesAs target (Node.fcmp p a b) k = k ≡ negsuc 0
  UsesAs target (Node.call callee args) k = k ≡ arg_no target args
  UsesAs target _ k = ⊥

  -- A user that counts: an instruction other than the border.
  abbrev pub IsUser : ℕ → ℕ → Type 0
  IsUser target u = Memᴰ u (ir.users target) × (is_instruction ir u ≡ true) × (u ≢ border)

  abbrev pub StepsOn : ℕ → ℕ → Type 0
  StepsOn target w = (u : ℕ) × IsUser target u × FlowsThrough target u (ir.node u) w

  abbrev pub IsUse : ℕ → ℕ × ℤ → Type 0
  IsUse target n = IsUser target (n.0) × IsBehind (n.0) × UsesAs target (ir.node (n.0)) (n.1)
