-- ===== src/CallGraph/Hashes.antt =====
-- The hashes of Common.cc: of a function, a call, a type, and a type with the number of a field.
use Prim.Native.Char.{code}
use Prim.Native.String.{String, ◌++◌, slice}
use text.Mathlib.Text.{◌==◌ as str_eq}
use crix.Base.{
  ℕ, zero, suc, ◌+◌, ◌/◌, ◌%◌, ◌^◌, Bool, true, Option, none, some, ℤ, pos, negsuc, if◌then◌else◌,
  ◌==◌, ltb,
}
use crix.CallGraph.{Program, Shape}

-- remove(begin, end, ' ') with erase
unfoldable pub remove_spaces : String → String
remove_spaces String.[] = String.[]
remove_spaces (String.◌∷◌ c s) =
    if code c == 32 then remove_spaces s else String.◌∷◌ c (remove_spaces s)

abbrev digit : ℕ → String
digit d = slice "0123456789" d (d + 1)

-- The decimal digits of a number, with at least as much fuel as it has digits.
unfoldable pub digits : ℕ → ℕ → String
digits zero n = String.[]
digits (suc fuel) n =
    let front = digits fuel (n / 10) in if ltb n 10 then digit n else front ++ digit (n % 10)

-- std::to_string
unfoldable pub to_string : ℕ → String
unfolding digits
to_string n = digits (suc n) n

unfoldable pub int_to_string : ℤ → String
unfolding to_string
int_to_string (pos n) = to_string n
int_to_string (negsuc n) = "-" ++ to_string (suc n)

module _ (pg : Program) where
  unfoldable pub func_hash : ℕ → Bool → ℕ
  unfolding remove_spaces
  func_hash f with_name =
      let sig = pg.function_type f in
      pg.str_hash (remove_spaces (if with_name then sig ++ pg.ir.name f else sig))

  unfoldable pub call_hash : ℕ → ℕ
  unfolding func_hash remove_spaces
  call_hash ci = elim (pg.ir.called_function ci) [
    | some cf ↦ func_hash cf true
    | none ↦ pg.str_hash (remove_spaces (pg.call_type ci))
  ]

  unfoldable pub handle_simple_ty : ℕ → String
  unfolding to_string
  handle_simple_ty t = to_string (pg.scalar_bits t)

  unfoldable pub expand_struct : ℕ → String
  unfolding to_string
  expand_struct t =
      let ty_size = if pg.is_opaque t then 0 else pg.struct_bits t in
      to_string (pg.num_elements t) ++ "," ++ to_string ty_size

  -- A size_t, with its wrap-around.
  unfoldable pub hash_idx_hash : ℕ → ℤ → ℕ
  unfolding int_to_string
  hash_idx_hash hs idx = (hs + pg.str_hash (int_to_string idx)) % 2 ^ 64

  -- `type_to_tname_map` is TypeToTNameMap, which TypeInitializer.cc fills.
  module _ (type_to_tname_map : ℕ → Option String) where
    unfoldable pub struct_text : ℕ → String → String
    unfolding expand_struct
    struct_text t name =
        if str_eq name ""
        then elim (type_to_tname_map t) [
          | some tname ↦ tname ++ expand_struct t
          | none ↦ expand_struct t
        ]
        else name ++ expand_struct t

    unfoldable pub type_text : ℕ → String
    unfolding struct_text handle_simple_ty
    type_text t = elim (pg.shape t) [
      | Shape.structure name ↦ struct_text t name
      | _ ↦ handle_simple_ty t
    ]

    unfoldable pub type_hash : ℕ → ℕ
    unfolding type_text remove_spaces
    type_hash t = pg.str_hash (remove_spaces (type_text t))

    unfoldable pub type_idx_hash : ℕ → ℤ → ℕ
    unfolding type_hash hash_idx_hash
    type_idx_hash t idx = hash_idx_hash (type_hash t) idx
