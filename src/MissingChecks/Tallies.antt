-- ===== src/MissingChecks/Tallies.antt =====
-- The counters of MissingChecks.h for unchecked occurrences and for all, as the values of two numbers.
use crix.Base.{
  ℕ, ◌+◌, ◌%◌, ◌^◌, ◌≤◌, ◌≡◌, Bool, true, false, List, arith, if◌then◌else◌, nat_eq, use_eq,
  use_beq, use_beq_iff, subst, Bool-cases, inl, inr, read, read-adjust,
}
use crix.MissingChecks.Model.{
  SrcUse, Side, Counts, count_up, add_src_uncheck, add_use_uncheck, add_uncheck,
}
use crix.MissingChecks.Unchecks.{count_src, count_use_of}

-- The counters of a key stand for numbers of which the unchecked one is at most the total.
pub record Tally (s : Side) (k : SrcUse) : Type 0 where
  pub unchecks : ℕ
  pub total : ℕ
  pub bounded : unchecks ≤ total
  pub unchecks_eq : read 0 k s.uncheck_count ≡ unchecks % 2 ^ 32
  pub total_eq : read 0 k s.total_count ≡ total % 2 ^ 32

abbrev pub IsTallied : Counts → Type 0
IsTallied c = (k : SrcUse) → Tally c.sources k × Tally c.uses k

up : (n m : ℕ) → n ≡ m % 2 ^ 32 → (n + 1) % 2 ^ 32 ≡ (m + 1) % 2 ^ 32
up n m e = omega arith

-- A counter that stands for a number, after `m[k] += 1`.
read-count_up :
    (k j : SrcUse) (m : List (SrcUse × ℕ)) (n : ℕ)
    → read 0 j m ≡ n % 2 ^ 32
    → read 0 j (count_up k m) ≡ (if use_beq j k then n + 1 else n) % 2 ^ 32
read-count_up k j m n e =
    rw (read-adjust 0 k j (λ n. (n + 1) % 2 ^ 32) m) (elim (Bool-cases (use_beq j k)) [
      | inr other ↦ rw other e
      | inl same ↦
          let q : j ≡ k = (use_beq_iff j k).0 same in
          rw same (up (read 0 k m) n (subst (λ x. read 0 x m ≡ n % 2 ^ 32) q e))
    ])

-- One side after an occurrence of `k`, which is checked or not.
abbrev side_after : SrcUse → ℕ → Bool → Side → Side
side_after k v is_checked s =
    let s' = if is_checked then s else add_uncheck k v s in
    record s' { total_count = count_up k s'.total_count }

side_after-Tally :
    (k : SrcUse) (v : ℕ) (b : Bool) (s : Side)
    → ((j : SrcUse) → Tally s j)
    → (j : SrcUse) → Tally (side_after k v b s) j
unfolding add_uncheck
side_after-Tally k v true s t j = record {
  unchecks = (t j).unchecks;
  total = if use_beq j k then (t j).total + 1 else (t j).total;
  bounded = let h = (t j).bounded in ground arith;
  unchecks_eq = (t j).unchecks_eq;
  total_eq = read-count_up k j s.total_count (t j).total (t j).total_eq;
}
side_after-Tally k v false s t j = record {
  unchecks = if use_beq j k then (t j).unchecks + 1 else (t j).unchecks;
  total = if use_beq j k then (t j).total + 1 else (t j).total;
  bounded = let h = (t j).bounded in ground arith;
  unchecks_eq = read-count_up k j s.uncheck_count (t j).unchecks (t j).unchecks_eq;
  total_eq = read-count_up k j s.total_count (t j).total (t j).total_eq;
}

pub count_src-IsTallied :
    (k : SrcUse) (v : ℕ) (b : Bool) (c : Counts) → IsTallied c → IsTallied (count_src k v b c)
unfolding count_src add_src_uncheck
count_src-IsTallied k v true c t j = (side_after-Tally k v true c.sources (λ i. (t i).0) j, (t j).1)
count_src-IsTallied k v false c t j =
    (side_after-Tally k v false c.sources (λ i. (t i).0) j, (t j).1)

pub count_use_of-IsTallied :
    (k : SrcUse) (v : ℕ) (b : Bool) (c : Counts) → IsTallied c → IsTallied (count_use_of k v b c)
unfolding count_use_of add_use_uncheck
count_use_of-IsTallied k v true c t j = ((t j).0, side_after-Tally k v true c.uses (λ i. (t i).1) j)
count_use_of-IsTallied k v false c t j =
    ((t j).0, side_after-Tally k v false c.uses (λ i. (t i).1) j)
