-- ===== src/MissingChecks/BackwardSteps.antt =====
-- Which calls isCheckedBackward makes: to what a value is made of, and to the arguments of callers.
use crix.Base.{
  ℕ, suc, ◌+◌, ◌≡◌, refl, true, false, ◌||◌, not, some, List, [], ◌∷◌, Memᴰ, All-intro, flat_map,
  has, nat_eq, Bool-cases, inl, inr, arith,
}
use crix.Ir.{Ir, Node}
use crix.Ir.Kinds.{is_instruction}
use crix.Ir.Calls.{arg_steps}
use crix.Context.{Context}
use crix.Walk.{Act, visit, notes}
use crix.Walk.Visits.{Stay, Stay-flat_map, notes-flat_map}
use crix.DataFlow.Aliases.{get_alias_pointers}
use crix.DataFlow.Reach.{collect_pred_reach_blocks}
use crix.MissingChecks.Model.{Counts}
use crix.MissingChecks.Forward.{Hit}
use crix.MissingChecks.Backward.{Item, alias_access, on_incoming, backward_node, argument_of}

abbrev pub incoming_values : List (ℕ × ℕ) → List ℕ
incoming_values [] = []
incoming_values ((iv, bb) ∷ rest) = iv ∷ incoming_values rest

-- What an instruction is computed from.
abbrev pub data_operands : Node → List ℕ
data_operands (Node.phi incoming) = incoming_values incoming
data_operands (Node.select c t f) = t ∷ f ∷ []
data_operands (Node.gep p) = p ∷ []
data_operands (Node.alloca o) = o ∷ []
data_operands (Node.cast o) = o ∷ []
data_operands (Node.extract_value o) = o ∷ []
data_operands (Node.unary o) = o ∷ []
data_operands (Node.binary a b) = a ∷ b ∷ []
data_operands _ = []

-- What an access moves: a load itself, and the value that a store writes.
abbrev pub moved : ℕ → Node → List ℕ
moved su (Node.load p) = su ∷ []
moved su (Node.store sv p) = sv ∷ []
moved su _ = []

module _ (ir : Ir) (ctx : Context) (counts : Counts) (fuel : ℕ) where
  -- A value behind the item's, which is such an instruction: an operand, or, behind a load, what an
  -- access in the scope moves through an alias of the pointer.
  pub data HasSource (i : Item) : Node → ℕ → Type 0 where
    of_operand : {n : Node} {w : ℕ} → Memᴰ w (data_operands n) → HasSource i n w
    of_memory :
        {p w : ℕ} (a su : ℕ)
        → Memᴰ a (get_alias_pointers p (ctx.func_pa_results i.function))
        → Memᴰ su (ir.users a)
        → is_instruction ir su ≡ true
        → has (ir.parent su) i.scope ≡ true
        → Memᴰ w (moved su (ir.node su))
        → HasSource i (Node.load p) w

  -- One step back: to such a value, or from an argument to what a caller passes for it, in the scope
  -- of the blocks from which the call is reached, at a greater depth.
  pub data StepsTo (i : Item) : Item → Type 0 where
    to_source : (w : ℕ) → HasSource i (ir.node i.value) w → StepsTo i (record i { value = w })
    to_caller :
        (pf ci n arg : ℕ) (scope : List ℕ)
        → ir.node i.value ≡ Node.argument pf
        → Memᴰ ci (ctx.callers pf)
        → arg_steps i.value (ir.args i.function) ≡ suc n
        → argument_of ir ctx counts n ci ≡ some arg
        → collect_pred_reach_blocks ir fuel (ir.parent ci) [] ≡ some scope
        → StepsTo i (record {
          function = ir.block_parent (ir.parent ci);
          value = arg;
          scope = scope;
          depth = i.depth + 1;
        })

  abbrev pub Steps : Item → List (Act Item Hit) → Type 0
  Steps i = Stay (StepsTo i)

  incoming-Steps :
      (i : Item) (incoming : List (ℕ × ℕ))
      → ((w : ℕ) → Memᴰ w (incoming_values incoming) → StepsTo i (record i { value = w }))
      → Steps i (on_incoming ir ctx counts i incoming)
  incoming-Steps i [] h = tt
  incoming-Steps i ((iv, bb) ∷ rest) h =
      (h iv (Memᴰ.head refl), incoming-Steps i rest (λ w m. h w (Memᴰ.tail m)))

  operand :
      {i : Item} {n : Node} (w : ℕ)
      → ir.node i.value ≡ n
      → Memᴰ w (data_operands n)
      → StepsTo i (record i { value = w })
  operand w e m = to_source w (rw e (of_operand m))

  alias_access-Steps :
      (i : Item) (p a su : ℕ)
      → ir.node i.value ≡ Node.load p
      → Memᴰ a (get_alias_pointers p (ctx.func_pa_results i.function))
      → Memᴰ su (ir.users a)
      → Steps i (alias_access ir ctx counts i su)
  unfolding alias_access
  alias_access-Steps i p a su e ma mu =
      elim (Bool-cases (not (is_instruction ir su) || not (has (ir.parent su) i.scope))) [
        | inl out ↦ rw (out, alias_access) tt
        | inr inside ↦ by_node (ir.node su) refl inside (ground (arith)) (ground (arith))
      ]
    where
      by_node :
          (n : Node)
          → ir.node su ≡ n
          → (not (is_instruction ir su) || not (has (ir.parent su) i.scope)) ≡ false
          → is_instruction ir su ≡ true
          → has (ir.parent su) i.scope ≡ true
          → Steps i (alias_access ir ctx counts i su)
      by_node (Node.load q) k inside is_in in_scope =
          rw (inside, alias_access)
            (rw k (
              to_source su (rw e (of_memory a su ma mu is_in in_scope (rw k (Memᴰ.head refl)))),
              tt,
            ))
      by_node (Node.store sv q) k inside is_in in_scope =
          rw (inside, alias_access)
            (rw k (
              to_source sv (rw e (of_memory a su ma mu is_in in_scope (rw k (Memᴰ.head refl)))),
              tt,
            ))
      by_node _ k inside is_in in_scope = rw (inside, alias_access) (rw k tt)

  pub backward_node-Steps :
      (i : Item) (n : Node) → ir.node i.value ≡ n → Steps i (backward_node ir ctx counts i n)
  unfolding backward_node
  backward_node-Steps i (Node.load p) e =
      Stay-flat_map (StepsTo i)
        (λ a. Memᴰ a (get_alias_pointers p (ctx.func_pa_results i.function)))
        (λ a. flat_map (alias_access ir ctx counts i) (ir.users a))
        (λ a ma.
          Stay-flat_map (StepsTo i) (λ su. Memᴰ su (ir.users a)) (alias_access ir ctx counts i)
            (λ su mu. alias_access-Steps i p a su e ma mu) (ir.users a)
            (All-intro (λ su. Memᴰ su (ir.users a)) (ir.users a) (λ su m. m)))
        (get_alias_pointers p (ctx.func_pa_results i.function))
        (All-intro (λ a. Memᴰ a (get_alias_pointers p (ctx.func_pa_results i.function)))
          (get_alias_pointers p (ctx.func_pa_results i.function)) (λ a m. m))
  backward_node-Steps i (Node.phi incoming) e = incoming-Steps i incoming (λ w m. operand w e m)
  backward_node-Steps i (Node.select c t f) e =
      (operand t e (Memᴰ.head refl), (operand f e (Memᴰ.tail (Memᴰ.head refl)), tt))
  backward_node-Steps i (Node.gep p) e = (operand p e (Memᴰ.head refl), tt)
  backward_node-Steps i (Node.alloca o) e = (operand o e (Memᴰ.head refl), tt)
  backward_node-Steps i (Node.cast o) e = (operand o e (Memᴰ.head refl), tt)
  backward_node-Steps i (Node.extract_value o) e = (operand o e (Memᴰ.head refl), tt)
  backward_node-Steps i (Node.unary o) e = (operand o e (Memᴰ.head refl), tt)
  backward_node-Steps i (Node.binary a b) e =
      (operand a e (Memᴰ.head refl), (operand b e (Memᴰ.tail (Memᴰ.head refl)), tt))
  backward_node-Steps i _ e = tt

  alias_access-quiet : (i : Item) (su : ℕ) → notes (alias_access ir ctx counts i su) ≡ []
  unfolding alias_access
  alias_access-quiet i su =
      elim (Bool-cases (not (is_instruction ir su) || not (has (ir.parent su) i.scope))) [
        | inl out ↦ rw (out, alias_access) refl
        | inr inside ↦ rw (inside, alias_access) (by_node (ir.node su))
      ]
    where
      by_node :
          (n : Node)
          → notes (elim n as (λ n. List (Act Item Hit)) [
            | Node.load p ↦ visit (record i { value = su }) ∷ []
            | Node.store sv p ↦ visit (record i { value = sv }) ∷ []
            | _ ↦ []
          ])
            ≡ []
      by_node (Node.load p) = refl
      by_node (Node.store sv p) = refl
      by_node _ = refl

  incoming-quiet :
      (i : Item) (incoming : List (ℕ × ℕ)) → notes (on_incoming ir ctx counts i incoming) ≡ []
  incoming-quiet i [] = refl
  incoming-quiet i ((iv, bb) ∷ rest) = incoming-quiet i rest

  pub backward_node-quiet : (i : Item) (n : Node) → notes (backward_node ir ctx counts i n) ≡ []
  unfolding backward_node
  backward_node-quiet i (Node.load p) =
      notes-flat_map (λ a. flat_map (alias_access ir ctx counts i) (ir.users a))
        (λ a. notes-flat_map (alias_access ir ctx counts i) (alias_access-quiet i) (ir.users a))
        (get_alias_pointers p (ctx.func_pa_results i.function))
  backward_node-quiet i (Node.phi incoming) = incoming-quiet i incoming
  backward_node-quiet i (Node.select c t f) = refl
  backward_node-quiet i (Node.gep p) = refl
  backward_node-quiet i (Node.alloca o) = refl
  backward_node-quiet i (Node.cast o) = refl
  backward_node-quiet i (Node.extract_value o) = refl
  backward_node-quiet i (Node.unary o) = refl
  backward_node-quiet i (Node.binary a b) = refl
  backward_node-quiet i _ = refl
