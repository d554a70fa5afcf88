-- ===== src/Tests/Aliases.antt =====
-- The aliases of a function that loads from a cast of the pointer that it stores to.
use crix.Base.{
  ℕ, ◌≡◌, ◌≢◌, refl, true, false, ◌↔◌, some, [], ◌∷◌, Memᴰ, arith, has, nat_eq, read, find, adjust,
  flat_map,
}
use crix.Ir.{Ir, Node}
use crix.Ir.Kinds.{instructions}
use crix.Tests.Sample.{f_ir, lookup}
use crix.PointerAnalysis.Pairs.{
  AliasResult, AliasMap, add_accessed, accessed, get_source_pointer, are_aliases, alias_pair,
  detect_alias_pointers,
}
use crix.PointerAnalysis.PairsLaws.{detect_alias_pointers_iff}

abbrev g_ir : Ir
g_ir = record f_ir {
  node = lookup Node.other_value (
      (70, Node.alloca 42) ∷ (54, Node.store 51 70) ∷ (71, Node.cast 70) ∷ (53, Node.load 71) ∷ []);
  is_pointer = lookup false ((70, true) ∷ (71, true) ∷ []);
  body = lookup [] ((10, 70 ∷ 54 ∷ 71 ∷ 53 ∷ []) ∷ []);
}

abbrev unsure : ℕ → ℕ → AliasResult
unsure a b = AliasResult.may_alias

abbrev pairs : AliasMap
pairs = (70, 71 ∷ []) ∷ (71, 70 ∷ []) ∷ []

detect_alias_pointers_example : (has 71 (read [] 70 pairs) ≡ true) ↔ (
    Memᴰ 70 (accessed g_ir (instructions g_ir 1) [])
    × Memᴰ 71 (accessed g_ir (instructions g_ir 1) [])
    × (◌≢◌ {A = ℕ} 70 71)
    × (are_aliases g_ir unsure 9 70 71 ≡ some true))
unfolding detect_alias_pointers alias_pair are_aliases get_source_pointer accessed add_accessed
    instructions flat_map find adjust
detect_alias_pointers_example =
    detect_alias_pointers_iff g_ir unsure 9 1 pairs 70 71 (omega arith) refl
