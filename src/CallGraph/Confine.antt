-- ===== src/CallGraph/Confine.antt =====
-- typeConfineInInitializer, typeConfineInStore, typeConfineInCast, escapeType and transitType of
-- CallGraph.cc: which functions and types are put into which types, and which types escape.
use Prim.Native.String.{String}
use crix.Base.{
  ℕ, zero, suc, ◌+◌, Bool, true, false, ◌&&◌, ◌||◌, Option, none, some, ◌>>=◌, List, [], ◌∷◌, ◌++◌,
  ℤ, pos, negsuc, int_beq, if◌then◌else◌, insert, insert_at,
}
use crix.Ir.{Node}
use crix.CallGraph.{Program, Shape, is_composite_type, element_type}
use crix.CallGraph.Hashes.{type_hash, type_idx_hash}
use crix.CallGraph.Layers.{TypeMaps, Layer, next_layer_base_type}

-- isa<ConstantPointerNull>
abbrev pub is_null : Node → Bool
is_null Node.constant_null = true
is_null _ = false

abbrev pub is_function : Node → Bool
is_function Node.function = true
is_function _ = false

abbrev pub is_pointer_shape : Shape → Bool
is_pointer_shape (Shape.pointer t) = true
is_pointer_shape _ = false

abbrev pub add_func : ℕ → ℕ → TypeMaps → TypeMaps
add_func key f maps = record maps { type_funcs = insert_at key f maps.type_funcs }

abbrev pub add_confine : ℕ → ℕ → TypeMaps → TypeMaps
add_confine key t maps = record maps { type_confine = insert_at key t maps.type_confine }

-- -1, the default of an index.
abbrev pub no_idx : ℤ
no_idx = negsuc 0

module _ (pg : Program) (names : ℕ → Option String) where
  unfoldable pub escape_type : ℕ → ℤ → TypeMaps → TypeMaps
  escape_type ty idx maps =
      let key =
        if int_beq idx no_idx then type_hash pg names ty else type_idx_hash pg names ty idx in
      record maps { type_escape = insert key maps.type_escape }

  unfoldable pub transit_type : ℕ → ℕ → ℤ → ℤ → TypeMaps → TypeMaps
  transit_type to_ty from_ty to_idx from_idx maps =
      if int_beq to_idx no_idx || int_beq from_idx no_idx
      then record maps {
        type_transit =
            insert_at (type_hash pg names to_ty) (type_hash pg names from_ty) maps.type_transit;
      }
      else record maps {
        type_transit =
            insert_at (type_idx_hash pg names to_ty to_idx)
              (type_idx_hash pg names from_ty from_idx) maps.type_transit;
      }

  -- An operand `o` of the initializer `u`, with its number: the maps, and what is pushed to LU.
  unfoldable pub confine_operand : ℕ → ℕ → ℕ → TypeMaps → TypeMaps × List ℕ
  confine_operand u ono o maps =
      let key = type_idx_hash pg names (pg.type_of u) (pos ono) in
      if is_function (pg.ir.node o)
      then (add_func key o maps, [])
      else if is_composite_type pg (pg.type_of o)
      then (add_confine key (type_hash pg names (pg.type_of o)) maps, o ∷ [])
      else (maps, [])

  unfoldable pub confine_operands : ℕ → ℕ → List ℕ → TypeMaps → TypeMaps × List ℕ
  unfolding confine_operand
  confine_operands u ono [] maps = (maps, [])
  confine_operands u ono (o ∷ os) maps =
      let (maps₁, new) = confine_operand u ono o maps in
      let (maps₂, more) = confine_operands u (ono + 1) os maps₁ in (maps₂, new ++ more)

  -- The loop over LU, which holds `Ini` at first.
  unfoldable pub type_confine_in_initializer : ℕ → List ℕ → TypeMaps → Option TypeMaps
  unfolding confine_operands
  type_confine_in_initializer fuel [] maps = some maps
  type_confine_in_initializer zero (u ∷ lu) maps = none
  type_confine_in_initializer (suc fuel) (u ∷ lu) maps =
      let (maps', new) = confine_operands u 0 (pg.ir.operands u) maps in
      type_confine_in_initializer fuel (lu ++ new) maps'

  -- Case 1: a function is stored.
  abbrev store_function : ℕ → Option Layer → TypeMaps → Bool × TypeMaps
  store_function vo none maps = (false, maps)
  store_function vo (some l) maps =
      (true, add_func (type_idx_hash pg names l.layer_ty l.field_idx) vo maps)

  -- Case 2: a composite object is stored.
  unfoldable pub store_composite : ℕ → ℕ → TypeMaps → Bool × TypeMaps
  unfolding escape_type
  store_composite ep_ty v_ty maps =
      if is_composite_type pg ep_ty
      then (true, add_confine (type_hash pg names ep_ty) (type_hash pg names v_ty) maps)
      else (false, escape_type ep_ty no_idx maps)

  -- Case 3: a pointer is stored.
  abbrev store_pointer : ℕ → Option Layer → TypeMaps → Bool × TypeMaps
  store_pointer ev_ty none maps = (false, maps)
  store_pointer ev_ty (some l) maps =
      if is_composite_type pg ev_ty
      then (
        true,
        add_confine (type_idx_hash pg names l.layer_ty l.field_idx) (type_hash pg names ev_ty) maps,
      )
      else (false, escape_type l.layer_ty l.field_idx maps)

  -- A store of `vo` through `po`.
  unfoldable pub type_confine_in_store : ℕ → ℕ → ℕ → TypeMaps → Option (Bool × TypeMaps)
  unfolding store_composite escape_type next_layer_base_type
  type_confine_in_store depth vo po maps =
      if is_function (pg.ir.node vo)
      then (next_layer_base_type pg depth po >>= λ l. some (store_function vo l maps))
      else if is_composite_type pg (pg.type_of vo)
      then some (store_composite (element_type pg (pg.type_of po)) (pg.type_of vo) maps)
      else if is_null (pg.ir.node vo)
      then some (false, maps)
      else if is_pointer_shape (pg.shape (pg.type_of vo))
      then (next_layer_base_type pg depth po >>= λ l.
          some (store_pointer (element_type pg (pg.type_of vo)) l maps))
      else some (false, maps)

  -- A cast of the operand `from`.
  unfoldable pub type_confine_in_cast : ℕ → ℕ → TypeMaps → Bool × TypeMaps
  unfolding transit_type
  type_confine_in_cast cast from maps =
      let to_ty = pg.type_of cast in
      let from_ty = pg.type_of from in
      let e_to_ty = element_type pg to_ty in
      let e_from_ty = element_type pg from_ty in
      if is_composite_type pg from_ty
      then (true, transit_type to_ty from_ty no_idx no_idx maps)
      else if is_pointer_shape (pg.shape from_ty) && is_pointer_shape (pg.shape to_ty)
      then (if is_composite_type pg e_to_ty && is_composite_type pg e_from_ty
          then (true, transit_type e_to_ty e_from_ty no_idx no_idx maps)
          else (false, maps))
      else (false, maps)
