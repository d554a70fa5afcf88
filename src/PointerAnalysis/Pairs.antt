-- ===== src/PointerAnalysis/Pairs.antt =====
-- collectPointers and detectAliasPointers of PointerAnalysis.cc.
use crix.Base.{
  ℕ, zero, suc, Bool, true, false, ◌&&◌, Option, none, some, ◌>>=◌, for_each, List, [], ◌∷◌,
  if◌then◌else◌, ◌==◌, ltb, length, insert, adjust, nat_eq,
}
use crix.Ir.{Ir, Node}
use crix.Ir.Kinds.{instructions, is_instruction}

-- AliasResult of LLVM.
pub data AliasResult : Type 0 where
  no_alias may_alias partial_alias must_alias : AliasResult

-- PointerAnalysisMap
abbrev pub AliasMap : Type 0
AliasMap = List (ℕ × List ℕ)

module _ (ir : Ir) where
  unfoldable pub is_collected : ℕ → Bool
  is_collected i = elim (ir.node i) [
    | Node.load p ↦ ir.is_pointer i
    | Node.gep p ↦ ir.is_pointer i
    | Node.cast o ↦ ir.is_pointer i
    | _ ↦ false
  ]

  unfoldable pub collect_from : List ℕ → List ℕ → List ℕ
  unfolding is_collected
  collect_from [] p_set = p_set
  collect_from (i ∷ is) p_set = collect_from is (if is_collected i then insert i p_set else p_set)

  unfoldable pub collect_pointers : ℕ → List ℕ → List ℕ
  unfolding collect_from
  collect_pointers f p_set = collect_from (instructions ir f) p_set

  -- The pointer arguments of a call.
  abbrev add_arguments : List ℕ → List ℕ → List ℕ
  add_arguments [] s = s
  add_arguments (a ∷ rest) s = add_arguments rest (if ir.is_pointer a then insert a s else s)

  unfoldable pub add_accessed : Node → List ℕ → List ℕ
  add_accessed (Node.load p) s = insert p s
  add_accessed (Node.store sv p) s = insert p s
  add_accessed (Node.call callee args) s = add_arguments args s
  add_accessed _ s = s

  -- addr1Set
  unfoldable pub accessed : List ℕ → List ℕ → List ℕ
  unfolding add_accessed
  accessed [] s = s
  accessed (i ∷ is) s = accessed is (add_accessed (ir.node i) s)

  -- getSourcePointer, whose list never holds more than the last source pointer.
  unfoldable pub get_source_pointer : ℕ → ℕ → Option ℕ
  get_source_pointer zero p = none
  get_source_pointer (suc fuel) p =
      let behind = λ (uo : ℕ). get_source_pointer fuel uo in
      let unary = λ (uo : ℕ).
        let next = behind uo in if ir.is_pointer uo && is_instruction ir uo then next else some p in
      elim (ir.node p) [
        | Node.gep po ↦ behind po
        | Node.load uo ↦ unary uo
        | Node.cast uo ↦ unary uo
        | Node.extract_value uo ↦ unary uo
        | Node.unary uo ↦ unary uo
        | _ ↦ some p
      ]

  module _ (alias : ℕ → ℕ → AliasResult) (fuel : ℕ) where
    -- `!notAlias` with MUST_ALIAS.
    unfoldable pub are_aliases : ℕ → ℕ → Option Bool
    unfolding get_source_pointer
    are_aliases addr1 addr2 =
        let same_source = get_source_pointer fuel addr1 >>= λ p.
        get_source_pointer fuel addr2 >>= λ q. some (p == q) in
        elim (alias addr1 addr2) [
          | AliasResult.no_alias ↦ some false
          | AliasResult.may_alias ↦ same_source
          | AliasResult.partial_alias ↦ some true
          | AliasResult.must_alias ↦ some true
        ]

    -- The body of the two loops.
    unfoldable pub alias_pair : ℕ → ℕ → AliasMap → Option AliasMap
    unfolding are_aliases
    alias_pair addr1 addr2 m =
        if addr1 == addr2
        then some m
        else (are_aliases addr1 addr2 >>= λ both.
            some (if both then adjust [] addr1 (insert addr2) m else m))

    abbrev pub alias_row : List ℕ → ℕ → AliasMap → Option AliasMap
    alias_row all addr1 m = for_each (alias_pair addr1) all m

    unfoldable pub detect_alias_pointers : ℕ → AliasMap → Option AliasMap
    unfolding accessed alias_pair
    detect_alias_pointers f alias_ptrs =
        let addr1_set = accessed (instructions ir f) [] in
        if ltb 1000 (length addr1_set)
        then some alias_ptrs
        else for_each (alias_row addr1_set) addr1_set alias_ptrs
