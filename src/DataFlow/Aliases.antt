-- ===== src/DataFlow/Aliases.antt =====
-- getAliasPointers of DataFlowAnalysis.cc.
use mathlib.Core.List.Memᴰ
use crix.Base.{
  ℕ, ◌≡◌, true, ◌⊎◌, inl, inr, ◌↔◌, Option, none, some, List, [], ◌∷◌, Memᴰ, Memᴰ-cons, arith, has,
  insert, nat_eq, has-insert, ==_iff,
}

-- aliasAddr.insert of each.
abbrev pub insert_all : List ℕ → List ℕ → List ℕ
insert_all [] s = s
insert_all (x ∷ xs) s = insert_all xs (insert x s)

-- The pointer and, if the map has it, its aliases.
unfoldable pub get_alias_pointers : ℕ → (ℕ → Option (List ℕ)) → List ℕ
get_alias_pointers addr alias_ptrs =
    let alias_addr = insert addr [] in
    elim (alias_ptrs addr) [ none ↦ alias_addr | some aliases ↦ insert_all aliases alias_addr ]

pub has-insert_all :
    (k : ℕ) (xs s : List ℕ) → (has k (insert_all xs s) ≡ true) ↔ (Memᴰ k xs ⊎ (has k s ≡ true))
has-insert_all k [] s = (inr, λ o. elim o [ inl m ↦ absurd (Memᴰ.not-nil m) | inr h ↦ h ])
has-insert_all k (x ∷ xs) s =
    ground (arith, has-insert_all k xs (insert x s), Memᴰ-cons k x xs, has-insert k x s, ==_iff k x)
