-- ===== src/Tests/Ends.antt =====
-- The walks on the small program end.
use crix.Base.{
  ℕ, ◌≡◌, refl, Bool, true, false, some, List, [], ◌∷◌, Memᴰ, arith, All, All-mem, ◌==◌, has,
  nat_eq, has_iff, negsuc, ℤ, none, Bool-cases, inl, inr,
}
use crix.Ir.{Ir, Node}
use crix.Walk.{Trace}
use crix.Tests.Sample.{f_ir, f_context, lookup, f_nodes, f_user_lists}
use crix.DataFlow.InFunction.{Found, nothing_found, find_in_func_source_cv}
use crix.DataFlow.InFunctionTotal.{sources_of, find_in_func_source_cv_total}
use crix.DataFlow.Backward.{find_sources, perform_backward_analysis}
use crix.DataFlow.BackwardLaws.{phi_loop_none}
use crix.DataFlow.Uses.{find_uses}
use crix.DataFlow.UsesTotal.{find_uses_total}
use crix.MissingChecks.Model.{no_counts}
use crix.MissingChecks.Forward.{is_checked_forward}
use crix.MissingChecks.ForwardTotal.{is_checked_forward_total}

-- The null value stands for none.
abbrev pub values : List ℕ
values = 0 ∷ 52 ∷ 1011 ∷ 1012 ∷ 42 ∷ 51 ∷ 70 ∷ 53 ∷ 54 ∷ 50 ∷ 1010 ∷ 1013 ∷ []

abbrev pub places : List ℕ
places = 0 ∷ 10 ∷ 11 ∷ 12 ∷ 13 ∷ []

-- Membership that computes.
pub listed : (x : ℕ) (xs : List ℕ) → has x xs ≡ true → Memᴰ x xs
listed x xs h = (has_iff x xs).0 h

pub lookup_each {ℓ κ} :
    {A : Type ℓ} (P : A → Type κ) (d : A)
    → P d
    → (m : List (ℕ × A)) → All (λ e. P e.1) m
    → (n : ℕ) → P (lookup d m n)
lookup_each P d p [] h n = p
lookup_each P d p ((k, a) ∷ m) h n = elim (Bool-cases (n == k)) [
  | inl same ↦ rw same h.0
  | inr other ↦ rw other (lookup_each P d p m h.1 n)
]

pub each_listed :
    (xs : List ℕ) (univ : List ℕ) → All (λ x. has x univ ≡ true) xs → All (λ x. Memᴰ x univ) xs
each_listed [] univ h = tt
each_listed (x ∷ xs) univ h = (listed x univ h.0, each_listed xs univ h.1)

pub f_users : (v : ℕ) → All (λ u. Memᴰ u values) (f_ir.users v)
f_users v = each_listed (f_ir.users v) values (
    lookup_each (λ us. All (λ u. has u values ≡ true) us) [] tt f_user_lists
      (
        (refl, (refl, tt)),
        ((refl, (refl, tt)), ((refl, (refl, tt)), ((refl, tt), ((refl, tt), tt)))),
      )
      v)

pub f_operands : (v : ℕ) → All (λ u. Memᴰ u values) (sources_of (f_ir.node v))
f_operands v = each_listed (sources_of (f_ir.node v)) values (
    lookup_each (λ n. All (λ u. has u values ≡ true) (sources_of n)) Node.other_value tt f_nodes
      (
        tt,
        (tt, (tt, (tt, (tt, ((refl, tt), (tt, (tt, ((refl, tt), (tt, (tt, (tt, (tt, tt)))))))))))),
      )
      v)

pub f_places :
    (b : ℕ)
    → Memᴰ b places
    → All (λ c. Memᴰ c places) (f_ir.succs b) × All (λ c. Memᴰ c places) (f_ir.preds b)
f_places b m =
    let (s, p) =
      All-mem
        (λ b.
          All (λ c. has c places ≡ true) (f_ir.succs b)
          × All (λ c. has c places ≡ true) (f_ir.preds b))
        places
        (
          (tt, tt),
          (
            ((refl, (refl, tt)), tt),
            (((refl, tt), (refl, tt)), (((refl, tt), (refl, tt)), ((tt, (refl, (refl, tt))), tt))),
          ),
        )
        m in
    (each_listed (f_ir.succs b) places s, each_listed (f_ir.preds b) places p)

pub f_parents : (v : ℕ) → Memᴰ v values → Memᴰ (f_ir.parent v) places
f_parents v m = listed (f_ir.parent v) places (
    All-mem (λ v. has (f_ir.parent v) places ≡ true) values
      (
        refl,
        (refl, (refl, (refl, (refl, (refl, (refl, (refl, (refl, (refl, (refl, (refl, tt))))))))))),
      )
      m)

find_in_func_source_cv_total_example :
    (r : Trace Found) × (find_in_func_source_cv f_ir f_context 20 53
        (record { seen = []; acc = nothing_found })
      ≡ some r)
find_in_func_source_cv_total_example =
    find_in_func_source_cv_total f_ir f_context values f_operands places 20 f_places f_parents
      (omega arith) 53 (record { seen = []; acc = nothing_found }) (listed 53 values refl)
      (omega arith)

find_uses_total_example :
    (r : Trace (List (ℕ × ℤ))) × (find_uses f_ir f_context 20 50 51 (record { seen = []; acc = [] })
      ≡ some r)
find_uses_total_example =
    find_uses_total f_ir f_context values f_users places 20 50 51 (record { seen = []; acc = [] })
      f_places (listed 10 places refl) (listed 51 values refl) (omega arith) (omega arith)

is_checked_forward_total_example :
    (r : Trace Bool) × (is_checked_forward f_ir f_context no_counts 20 1
        (60, negsuc 0)
        51
        places
        (record { seen = []; acc = false })
      ≡ some r)
is_checked_forward_total_example =
    is_checked_forward_total f_ir f_context no_counts values f_users 20 1 (60, negsuc 0) 51 places
      (record { seen = []; acc = false }) (listed 51 values refl) (omega arith)

-- A loop that keeps a value: the phi 80 of the block 11.
abbrev loop_ir : Ir
loop_ir = record f_ir {
  node = lookup Node.other_value ((80, Node.phi ((80, 11) ∷ (51, 10) ∷ [])) ∷ []);
}

phi_loop_none_example :
    (find_sources loop_ir 100 80 [] ≡ none)
    × (perform_backward_analysis loop_ir 100 1 80 (record { lp_set = []; ci_set = [] }) ≡ none)
phi_loop_none_example =
    phi_loop_none loop_ir 100 1 80 11 ((51, 10) ∷ []) [] (record { lp_set = []; ci_set = [] }) refl
