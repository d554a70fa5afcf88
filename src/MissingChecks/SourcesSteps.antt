-- ===== src/MissingChecks/SourcesSteps.antt =====
-- From which values a value comes for findSourceCV of MissingChecks.cc, and which are origins.
use crix.Base.{ℕ, ◌≡◌, false, ◌⊎◌, Memᴰ, nat_eq}
use crix.Ir.{Ir, Node}
use crix.Ir.Kinds.{is_constant_node}
use crix.Context.{Context}
use crix.DataFlow.Aliases.{get_alias_pointers}
use crix.DataFlow.ReachLaws.{Route}

module _ (ir : Ir) (ctx : Context) where
  -- A value that a store to an alias of the pointer writes, in a block from which a path leads to
  -- that of the load.
  abbrev pub IsStored : ℕ → ℕ → ℕ → Type 0
  IsStored v p w =
      (a : ℕ) × (u : ℕ) × Memᴰ a
        (get_alias_pointers p (ctx.func_pa_results (ir.block_parent (ir.parent v))))
      × Memᴰ u (ir.users a)
      × (ir.node u ≡ Node.store w a)
      × Route ir.preds (ir.parent v) (ir.parent u)

  -- The values that a value `v`, which is such a node, comes from.
  abbrev pub ComesFrom : ℕ → Node → ℕ → Type 0
  ComesFrom v (Node.constant_expr o os) w = w ≡ o
  ComesFrom v (Node.select c t f) w = (w ≡ t) ⊎ (w ≡ f)
  ComesFrom v (Node.gep p) w = w ≡ p
  ComesFrom v (Node.phi incoming) w = (b : ℕ) × Memᴰ (w, b) incoming
  ComesFrom v (Node.load p) w = IsStored v p w ⊎ (w ≡ p)
  ComesFrom v (Node.alloca o) w = w ≡ o
  ComesFrom v (Node.cast o) w = w ≡ o
  ComesFrom v (Node.extract_value o) w = w ≡ o
  ComesFrom v (Node.unary o) w = w ≡ o
  ComesFrom v (Node.binary a b) w = ((w ≡ a) ⊎ (w ≡ b)) × (is_constant_node (ir.node w) ≡ false)
  ComesFrom v _ w = ⊥

  -- The values that are collected: arguments, global variables and calls.
  abbrev pub IsOrigin : Node → Type 0
  IsOrigin (Node.argument f) = Unit
  IsOrigin Node.global_variable = Unit
  IsOrigin (Node.call callee args) = Unit
  IsOrigin _ = ⊥
