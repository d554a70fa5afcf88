-- ===== src/Tests/Sample.antt =====
-- A function with a check, in the shape of
--   int f(void) { int x, v = get_x(); x = v; if (v < 0) WARN(); return x; }
use mathlib.Core.List.Memᴰ
use crix.Base.{
  ℕ, ◌+◌, ◌-◌, refl, sym, true, false, inl, inr, ◌↔◌, none, some, List, [], ◌∷◌, Memᴰ, Memᴰ-cons,
  arith, ltb, ◌==◌, if◌then◌else◌, pos, subst, All,
}
use crix.Ir.{Ir, IsCfg, Node, Predicate}
use crix.Context.{Context}
use crix.SecurityChecks.EdgeCounts.{IsClosedBlocks}

abbrev pub lookup {ℓ} : {A : Type ℓ} → A → List (ℕ × A) → ℕ → A
lookup d [] n = d
lookup d ((k, a) ∷ m) n = if n == k then a else lookup d m n

abbrev pub Edges : Type 0
Edges = List (ℕ × ℕ)

abbrev pub succs_of : Edges → ℕ → List ℕ
succs_of [] p = []
succs_of ((a, b) ∷ es) p = if a == p then b ∷ succs_of es p else succs_of es p

abbrev pub preds_of : Edges → ℕ → List ℕ
preds_of [] b = []
preds_of ((a, c) ∷ es) b = if c == b then a ∷ preds_of es b else preds_of es b

converse : (es : Edges) (p b : ℕ) → Memᴰ p (preds_of es b) ↔ Memᴰ b (succs_of es p)
converse [] p b = (λ m. absurd (Memᴰ.not-nil m), λ m. absurd (Memᴰ.not-nil m))
converse ((a, c) ∷ es) p b =
    ground (arith, converse es p b, Memᴰ-cons p a (preds_of es b), Memᴰ-cons b c (succs_of es p))

abbrev pub edges_of_f : Edges
edges_of_f = (10, 11) ∷ (10, 12) ∷ (11, 13) ∷ (12, 13) ∷ []

-- The terminator of the block b is 1000 + b.
abbrev pub parent_of : ℕ → ℕ
parent_of i =
    if ltb i 1000
    then lookup 0 ((70, 10) ∷ (51, 10) ∷ (54, 10) ∷ (50, 10) ∷ (52, 11) ∷ (53, 13) ∷ []) i
    else i - 1000

abbrev pub f_nodes : List (ℕ × Node)
f_nodes =
    (42, Node.constant_int (pos 0))
    ∷ (60, Node.function)
    ∷ (61, Node.function)
    ∷ (70, Node.alloca 42)
    ∷ (51, Node.call 60 [])
    ∷ (54, Node.store 51 70)
    ∷ (50, Node.icmp Predicate.slt 51 42)
    ∷ (52, Node.call 61 [])
    ∷ (53, Node.load 70)
    ∷ (1010, Node.br (some 50))
    ∷ (1011, Node.br none)
    ∷ (1012, Node.br none)
    ∷ (1013, Node.ret (some 53))
    ∷ []

abbrev pub f_user_lists : List (ℕ × List ℕ)
f_user_lists =
    (42, 70 ∷ 50 ∷ [])
    ∷ (70, 54 ∷ 53 ∷ [])
    ∷ (51, 54 ∷ 50 ∷ [])
    ∷ (50, 1010 ∷ [])
    ∷ (53, 1013 ∷ [])
    ∷ []

abbrev pub f_ir : Ir
f_ir = record {
  node = lookup Node.other_value f_nodes;
  users = lookup [] f_user_lists;
  operands = lookup [] (
      (70, 42 ∷ [])
      ∷ (51, 60 ∷ [])
      ∷ (54, 51 ∷ 70 ∷ [])
      ∷ (50, 51 ∷ 42 ∷ [])
      ∷ (52, 61 ∷ [])
      ∷ (53, 70 ∷ [])
      ∷ []);
  name = lookup "" ((60, "get_x") ∷ (61, "WARN") ∷ (1, "f") ∷ []);
  is_pointer = lookup false ((70, true) ∷ []);
  parent = parent_of;
  block_parent = λ b. 1;
  terminator = λ b. 1000 + b;
  body = lookup [] (
      (10, 70 ∷ 51 ∷ 54 ∷ 50 ∷ 1010 ∷ [])
      ∷ (11, 52 ∷ 1011 ∷ [])
      ∷ (12, 1012 ∷ [])
      ∷ (13, 53 ∷ 1013 ∷ [])
      ∷ []);
  succs = succs_of edges_of_f;
  preds = preds_of edges_of_f;
  blocks = lookup [] ((1, 10 ∷ 11 ∷ 12 ∷ 13 ∷ []) ∷ []);
  args = λ f. [];
  address_taken = λ f. false;
  returns_pointer = λ f. false;
  is_indirect_call = λ c. false;
  is_intrinsic_call = λ c. false;
  called_function = lookup none ((51, some 60) ∷ (52, some 61) ∷ []);
  asm_string = λ v. "";
}

pub f_ir-IsCfg : IsCfg f_ir
f_ir-IsCfg = record {
  preds_iff = λ p b. converse edges_of_f p b;
  parent-terminator = λ b. ground arith;
}

abbrev pub f_context : Context
f_context = record {
  error_handle_funcs = "WARN" ∷ [];
  copy_funcs = [];
  data_fetch_funcs = [];
  callees = lookup [] ((51, 60 ∷ []) ∷ (52, 61 ∷ []) ∷ []);
  callers = lookup [] ((60, 51 ∷ []) ∷ (61, 52 ∷ []) ∷ []);
  unified_func_set = 1 ∷ [];
  func_pa_results = λ f p. none;
  check_inst_sets = lookup [] ((1, 50 ∷ []) ∷ []);
}

abbrev pub f_blocks : List ℕ
f_blocks = 10 ∷ 11 ∷ 12 ∷ 13 ∷ []

by_block : (P : ℕ → Type 0) → P 10 → P 11 → P 12 → P 13 → (b : ℕ) → Memᴰ b f_blocks → P b
by_block P a b c d x m = elim ((Memᴰ-cons x 10 _).0 m) [
  | inl q ↦ subst P (sym q) a
  | inr m ↦ elim ((Memᴰ-cons x 11 _).0 m) [
    | inl q ↦ subst P (sym q) b
    | inr m ↦ elim ((Memᴰ-cons x 12 _).0 m) [
      | inl q ↦ subst P (sym q) c
      | inr m ↦ elim ((Memᴰ-cons x 13 _).0 m) [
        | inl q ↦ subst P (sym q) d
        | inr m ↦ absurd (Memᴰ.not-nil m)
      ]
    ]
  ]
]

abbrev pub In : ℕ → Type 0
In b = Memᴰ b f_blocks

pub in_10 : In 10
in_10 = Memᴰ.head refl

pub in_11 : In 11
in_11 = Memᴰ.tail (Memᴰ.head refl)

pub in_12 : In 12
in_12 = Memᴰ.tail (Memᴰ.tail (Memᴰ.head refl))

pub in_13 : In 13
in_13 = Memᴰ.tail (Memᴰ.tail (Memᴰ.tail (Memᴰ.head refl)))

pub f_closed : IsClosedBlocks f_ir f_blocks
f_closed = record {
  back = by_block (λ b. All In (f_ir.preds b)) tt (in_10, tt) (in_10, tt) (in_11, (in_12, tt));
  forth = by_block (λ b. All In (f_ir.succs b)) (in_11, (in_12, tt)) (in_13, tt) (in_13, tt) tt;
}
