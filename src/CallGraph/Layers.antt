-- ===== src/CallGraph/Layers.antt =====
-- nextLayerBaseType and findCalleesWithMLTA of CallGraph.cc: the targets of an indirect call by its
-- signature, narrowed by the types of the objects that the called pointer is loaded from.
use crix.Base.{
  ℕ, zero, suc, ◌+◌, ◌-◌, ◌%◌, ◌^◌, Bool, true, false, ◌&&◌, ◌||◌, Option, none, some, ◌>>=◌, List,
  [], ◌∷◌, ℤ, pos, negsuc, pos_part, neg_part, if◌then◌else◌, ltb, insert, has, nat_eq,
}
use crix.Ir.{Node}
use Prim.Native.String.{String}
use crix.CallGraph.{Program, Gep, is_composite_type, element_type}
use crix.CallGraph.Hashes.{call_hash, type_hash, type_idx_hash, hash_idx_hash}

-- The static maps of CallGraphPass, in which a missing key has the empty set.
pub record TypeMaps : Type 0 where
  pub type_funcs : ℕ → List ℕ
  pub type_confine : ℕ → List ℕ
  pub type_transit : ℕ → List ℕ
  pub type_escape : List ℕ

-- The value, type and field number that nextLayerBaseType returns.
pub record Layer : Type 0 where
  pub base : ℕ
  pub layer_ty : ℕ
  pub field_idx : ℤ

-- An int64_t that is stored in an int.
unfoldable pub to_int32 : ℤ → ℤ
to_int32 z =
    let w = (pos_part z + (2 ^ 32 - neg_part z % 2 ^ 32)) % 2 ^ 32 in
    if ltb w (2 ^ 31) then pos w else negsuc (2 ^ 32 - 1 - w)

-- UnaryInstruction, of which LoadInst is one, with its operand.
abbrev pub unary_operand : Node → Option ℕ
unary_operand (Node.alloca n) = some n
unary_operand (Node.load p) = some p
unary_operand (Node.cast o) = some o
unary_operand (Node.extract_value o) = some o
unary_operand (Node.unary o) = some o
unary_operand _ = none

-- The loop over FS1.
unfoldable pub collect_common : List ℕ → List ℕ → List ℕ → List ℕ
collect_common [] fs2 fs = fs
collect_common (f ∷ fs1) fs2 fs = collect_common fs1 fs2 (if has f fs2 then insert f fs else fs)

-- What it leaves in FS, which it clears first.
unfoldable pub func_set_intersection : List ℕ → List ℕ → List ℕ
unfolding collect_common
func_set_intersection fs1 fs2 = collect_common fs1 fs2 []

-- `if (FST.size() != 0) FS1 = FST;`
abbrev pub or_keep : List ℕ → List ℕ → List ℕ
or_keep [] fs1 = fs1
or_keep (f ∷ fst) fs1 = f ∷ fst

module _ (pg : Program) where
  -- The GEP of a composite object; NULL for one of anything else.
  unfoldable pub gep_layer : Gep → Option Layer
  unfolding to_int32
  gep_layer g =
      let ty = element_type pg (pg.type_of g.pointer_operand) in
      if is_composite_type pg ty && g.constant_indices
      then some
          (record { base = g.pointer_operand; layer_ty = ty; field_idx = to_int32 g.last_index })
      else none

  -- The inner Option is the null pointer.
  unfoldable pub next_layer_base_type : ℕ → ℕ → Option (Option Layer)
  unfolding gep_layer
  next_layer_base_type zero v = none
  next_layer_base_type (suc fuel) v = elim (pg.gep v) [
    | some g ↦ some (gep_layer g)
    | none ↦ elim (unary_operand (pg.ir.node v)) [
      | some o ↦ next_layer_base_type fuel o
      | none ↦ some none
    ]
  ]

  module _ (names : ℕ → Option String) (maps : TypeMaps) where
    -- Step 1
    unfoldable pub is_escaped : Layer → Bool
    is_escaped l =
        has (type_hash pg names l.layer_ty) maps.type_escape
        || has (type_idx_hash pg names l.layer_ty l.field_idx) maps.type_escape

    -- The loop over the types that transit to the layer's: FS1 and FST.
    unfoldable pub merge_transits : ℤ → List ℕ → List ℕ × List ℕ → List ℕ × List ℕ
    unfolding func_set_intersection
    merge_transits idx [] s = s
    merge_transits idx (h ∷ hs) (fs1, fst) =
        let common = func_set_intersection fs1 (maps.type_funcs (hash_idx_hash pg h idx)) in
        merge_transits idx hs (or_keep common fs1, common)

    -- Steps 2 and 3, and the end of step 4. The list LT holds the hash of the layer's type, which an
    -- `unsigned` cuts off, and is not added to.
    unfoldable pub merge_layer : Layer → List ℕ → List ℕ
    unfolding func_set_intersection merge_transits
    merge_layer l fs1 =
        let fst =
          func_set_intersection fs1
            (maps.type_funcs (type_idx_hash pg names l.layer_ty l.field_idx)) in
        let th = type_hash pg names l.layer_ty % 2 ^ 32 in
        let (fs1', fst') = merge_transits l.field_idx (maps.type_transit th) (fs1, fst) in
        or_keep fst' fs1'

    module _ (depth : ℕ) where
      -- while (CV)
      unfoldable pub merge_layers : ℕ → Option Layer → List ℕ → Option (List ℕ)
      unfolding is_escaped merge_layer next_layer_base_type
      merge_layers fuel none fs1 = some fs1
      merge_layers zero (some l) fs1 = none
      merge_layers (suc fuel) (some l) fs1 = elim (is_escaped l) [
        | true ↦ some fs1
        | false ↦
            next_layer_base_type depth l.base >>= λ next. merge_layers fuel next (merge_layer l fs1)
      ]

      -- The result, and FS, which is empty before. `sig_funcs` is sigFuncsMap, and `called` the called
      -- value.
      unfoldable pub find_callees_with_mlta : ℕ → (ℕ → List ℕ) → ℕ → ℕ → Option (Bool × List ℕ)
      unfolding merge_layers next_layer_base_type
      find_callees_with_mlta fuel sig_funcs ci called = elim (sig_funcs (call_hash pg ci)) [
        | [] ↦ some (false, [])
        | f ∷ fs ↦ next_layer_base_type depth called >>= λ first.
            merge_layers fuel first (f ∷ fs) >>= λ fs1. some (true, fs1)
      ]
