-- ===== src/DataFlow/InFunctionSteps.antt =====
-- From which values a value comes for findInFuncSourceCV, and what it marks.
use crix.Base.{ℕ, ◌≡◌, ap, true, false, ◌⊎◌, inl, inr, ◌↔◌, List, [], ◌∷◌, Memᴰ, arith, nat_eq}
use crix.Ir.{Ir, Node}
use crix.Ir.Kinds.{is_constant, is_instruction, at_index}
use crix.Ir.Calls.{arg_no}
use crix.Context.{Context}
use crix.DataFlow.Aliases.{get_alias_pointers}
use crix.DataFlow.ReachLaws.{Route}
use crix.Walk.Members.{Memᴰ-none, Memᴰ-one, Memᴰ-two}
use crix.DataFlow.InFunction.{Mark, source, variable}

-- A mark as a source, or as a critical variable.
abbrev pub Split : (ℕ → Type 0) → (ℕ → Type 0) → Mark → Type 0
Split Source Variable (source w) = Source w
Split Source Variable (variable w) = Variable w

pub unused : (m : Mark) → Memᴰ m [] ↔ Split (λ w. ⊥) (λ w. ⊥) m
unused (source w) = Memᴰ-none (source w)
unused (variable w) = Memᴰ-none (variable w)

pub only : (v : ℕ) (m : Mark) → Memᴰ m (variable v ∷ []) ↔ Split (λ w. ⊥) (λ w. w ≡ v) m
only v (source w) = (λ k. let q = (Memᴰ-one (variable v) (source w)).0 k in cc, λ h. absurd h)
only v (variable w) = (
  λ k. let q = (Memᴰ-one (variable v) (variable w)).0 k in ground arith,
  λ e. Memᴰ.head (ap variable e),
)

pub both :
    (v : ℕ) (m : Mark) → Memᴰ m (source v ∷ variable v ∷ []) ↔ Split (λ w. w ≡ v) (λ w. w ≡ v) m
both v (source w) = (
  λ k. elim ((Memᴰ-two (source v) (variable v) (source w)).0 k) [
    | inl q ↦ ground arith
    | inr q ↦ absurd (cc)
  ],
  λ e. Memᴰ.head (ap source e),
)
both v (variable w) = (
  λ k. elim ((Memᴰ-two (source v) (variable v) (variable w)).0 k) [
    | inl q ↦ absurd (cc)
    | inr q ↦ ground arith
  ],
  λ e. Memᴰ.tail (Memᴰ.head (ap variable e)),
)

abbrev pub value_of : Mark → ℕ
value_of (source w) = w
value_of (variable w) = w

pub both_value : (v : ℕ) (m : Mark) → Memᴰ m (source v ∷ variable v ∷ []) ↔ (value_of m ≡ v)
both_value v (source w) = both v (source w)
both_value v (variable w) = both v (variable w)

module _ (ir : Ir) (ctx : Context) where
  -- An instruction that uses an alias of the pointer that the load `v` reads, in a block from which
  -- a path leads to that of the load.
  abbrev pub IsAccess : ℕ → ℕ → ℕ → ℕ → Type 0
  IsAccess v p a u =
      Memᴰ a (get_alias_pointers p (ctx.func_pa_results (ir.block_parent (ir.parent v))))
      × Memᴰ u (ir.users a)
      × (is_instruction ir u ≡ true)
      × Route ir.preds (ir.parent v) (ir.parent u)

  -- What such a store writes, and the argument that stands where such a call has the alias.
  abbrev pub IsStored : ℕ → ℕ → ℕ → Type 0
  IsStored v p w = (a : ℕ) × (u : ℕ) × IsAccess v p a u × (ir.node u ≡ Node.store w a)

  abbrev pub PassesAt : ℕ → ℕ → ℕ → Type 0
  PassesAt a u w =
      (callee : ℕ) × (args : List ℕ) × (ir.node u ≡ Node.call callee args)
      × (w ≡ at_index (ir.operands u) (arg_no a args))

  abbrev pub IsPassed : ℕ → ℕ → ℕ → Type 0
  IsPassed v p w = (a : ℕ) × (u : ℕ) × IsAccess v p a u × PassesAt a u w

  -- The values that a value `v`, which is such a node, comes from.
  abbrev pub ComesFrom : ℕ → Node → ℕ → Type 0
  ComesFrom v (Node.constant_expr o os) w = w ≡ o
  ComesFrom v (Node.select c t f) w = (w ≡ t) ⊎ (w ≡ f)
  ComesFrom v (Node.gep p) w = w ≡ p
  ComesFrom v (Node.phi incoming) w = (b : ℕ) × Memᴰ (w, b) incoming
  ComesFrom v (Node.load p) w = IsStored v p w ⊎ (w ≡ p)
  ComesFrom v (Node.cast o) w = w ≡ o
  ComesFrom v (Node.extract_value o) w = w ≡ o
  ComesFrom v (Node.unary o) w = w ≡ o
  ComesFrom v (Node.binary a b) w = (w ≡ a) ⊎ (w ≡ b)
  ComesFrom v _ w = ⊥

  -- What it marks as a source: an argument, an alloca and a call mark themselves, a load what is
  -- passed for an alias.
  abbrev pub IsSource : ℕ → Node → ℕ → Type 0
  IsSource v (Node.argument f) w = w ≡ v
  IsSource v (Node.alloca o) w = w ≡ v
  IsSource v (Node.call callee args) w = w ≡ v
  IsSource v (Node.load p) w = IsPassed v p w
  IsSource v _ w = ⊥

  -- What it marks as a critical variable: such a node marks itself, a load also what is passed.
  abbrev pub IsVariable : ℕ → Node → ℕ → Type 0
  IsVariable v (Node.argument f) w = w ≡ v
  IsVariable v (Node.alloca o) w = w ≡ v
  IsVariable v (Node.call callee args) w = w ≡ v
  IsVariable v (Node.select c t f) w = w ≡ v
  IsVariable v (Node.gep p) w = w ≡ v
  IsVariable v (Node.phi incoming) w = w ≡ v
  IsVariable v (Node.load p) w = (w ≡ v) ⊎ IsPassed v p w
  IsVariable v (Node.icmp p a b) w = w ≡ v
  IsVariable v (Node.cast o) w = w ≡ v
  IsVariable v (Node.extract_value o) w = w ≡ v
  IsVariable v (Node.unary o) w = w ≡ v
  IsVariable v (Node.binary a b) w = w ≡ v
  IsVariable v _ w = ⊥

  -- One step back, and the marks: a constant has no step, and is both.
  abbrev pub StepsBack : ℕ → ℕ → Type 0
  StepsBack v w = (is_constant ir v ≡ false) × ComesFrom v (ir.node v) w

  abbrev pub OrConstant : (ℕ → Node → ℕ → Type 0) → ℕ → ℕ → Type 0
  OrConstant P v w =
      ((is_constant ir v ≡ true) × (w ≡ v)) ⊎ ((is_constant ir v ≡ false) × P v (ir.node v) w)

  abbrev pub MarksIt : ℕ → Mark → Type 0
  MarksIt v = Split (OrConstant IsSource v) (OrConstant IsVariable v)
