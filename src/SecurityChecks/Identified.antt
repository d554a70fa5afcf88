-- ===== src/SecurityChecks/Identified.antt =====
-- The security checks that identifySecurityChecks collects.
use mathlib.Core.List.Memᴰ
use crix.Base.{
  ℕ, ◌≤◌, ◌≡◌, ◌≢◌, refl, sym, ap, ◌∙◌, Bool, true, false, ◌||◌, ◌&&◌, not, ◌⊎◌, inl, inr, ◌↔◌,
  some, List, [], ◌∷◌, ◌++◌, Memᴰ, Memᴰ-cons, arith, if◌then◌else◌, nat_eq, pair_eq, ◌==◌, has, ltb,
  length, Bool-cases,
}
use crix.Ir.{Ir, Node}
use crix.Ir.Kinds.{null}
use crix.SecurityChecks.Flags.{Flags}
use crix.SecurityChecks.Edges.{EdgeErrMap, edge_flags}
use crix.SecurityChecks.Identify.{
  SecurityCheck, has_check, add_security_check, count_flags, splits, branch_check, node_condition,
  check_condition, collect_checks,
}

count_flags_iff :
    (test : Flags → Bool) (inst : ℕ) (ss : List ℕ) (m : EdgeErrMap)
    → (ltb 0 (count_flags test inst ss m) ≡ true)
      ↔ ((s : ℕ) × Memᴰ s ss × (test (edge_flags (inst, s) m) ≡ true))
count_flags_iff test inst [] m = (λ h. cc, λ (s, i, h). absurd (Memᴰ.not-nil i))
count_flags_iff test inst (x ∷ ss) m = elim (Bool-cases (test (edge_flags (inst, x) m))) [
  | inl hit ↦ (λ h. (x, Memᴰ.head refl, hit), λ w. ground arith)
  | inr miss ↦
      let ih = count_flags_iff test inst ss m in
      (
        λ h. let (s, i, k) = ih.0 (ground arith) in (s, Memᴰ.tail i, k),
        λ (s, i, k). elim ((Memᴰ-cons s x ss).0 i) [
          | inl e ↦ let k' : test (edge_flags (inst, x) m) ≡ true = rw (← e) k in cc
          | inr j ↦
              let w : ltb 0 (count_flags test inst ss m) ≡ true = ih.1 (s, j, k) in ground arith
        ],
      )
]

-- Two successors of a branch, one over an edge whose flags satisfy a test and one over an edge whose
-- flags do not.
abbrev pub Disagree : (Flags → Bool) → ℕ → List ℕ → EdgeErrMap → Type 0
Disagree test inst ss m =
    ((s : ℕ) × Memᴰ s ss × (test (edge_flags (inst, s) m) ≡ true))
    × ((s : ℕ) × Memᴰ s ss × (test (edge_flags (inst, s) m) ≡ false))

both_iff {ℓ κ} :
    {P : Type ℓ} {Q : Type κ} (a b : Bool)
    → ((a ≡ true) ↔ P)
    → ((b ≡ true) ↔ Q)
    → ((a && b) ≡ true) ↔ (P × Q)
both_iff a b p q = ground arith

either_iff {ℓ κ} :
    {P : Type ℓ} {Q : Type κ} (a b : Bool)
    → ((a ≡ true) ↔ P)
    → ((b ≡ true) ↔ Q)
    → ((a || b) ≡ true) ↔ (P ⊎ Q)
either_iff a b p q = ground arith

not_iff :
    (test : Flags → Bool) (inst : ℕ) (ss : List ℕ) (m : EdgeErrMap)
    → (ltb 0 (count_flags (λ f. not (test f)) inst ss m) ≡ true)
      ↔ ((s : ℕ) × Memᴰ s ss × (test (edge_flags (inst, s) m) ≡ false))
not_iff test inst ss m =
    let iff = count_flags_iff (λ f. not (test f)) inst ss m in
    (λ h. let (s, i, k) = iff.0 h in (s, i, ground arith), λ (s, i, k). iff.1 (s, i, rw k refl))

-- A branch splits its successors exactly when they disagree on Must_Return_Err or on
-- Must_Handle_Err.
splits_iff :
    (ir : Ir) (m : EdgeErrMap) (selects : List ℕ) (inst : ℕ) (ss : List ℕ)
    → (splits ir m selects inst ss ≡ true)
      ↔ (Disagree (λ f. f.returns.must) inst ss m ⊎ Disagree (λ f. f.handles.must) inst ss m)
unfolding splits
splits_iff ir m selects inst ss =
    either_iff _ _
      (both_iff _ _ (count_flags_iff (λ f. f.returns.must) inst ss m)
        (not_iff (λ f. f.returns.must) inst ss m))
      (both_iff _ _ (count_flags_iff (λ f. f.handles.must) inst ss m)
        (not_iff (λ f. f.handles.must) inst ss m))

has_check-append :
    (x : ℕ) (scs : List SecurityCheck) (c : SecurityCheck)
    → has_check x (scs ++ c ∷ []) ≡ (has_check x scs || c.0 == x)
unfolding has_check
has_check-append x [] c = ground arith
has_check-append x (d ∷ scs) c = ground (arith, has_check-append x scs c)

has_check-add :
    (x sc branch : ℕ) (scs : List SecurityCheck)
    → has_check x (add_security_check sc branch scs) ≡ (has_check x scs || sc == x)
unfolding add_security_check
has_check-add x sc branch scs =
    ground (arith, has_check-append x scs (sc, branch), has_check_eq x sc scs)
  where
    has_check_eq :
        (x sc : ℕ) (scs : List SecurityCheck) → sc ≡ x → has_check sc scs ≡ has_check x scs
    has_check_eq x sc scs e = ap (λ y. has_check y scs) e

-- No two checks of a list have one condition.
abbrev pub Distinct : List SecurityCheck → Type 0
Distinct [] = Unit {0}
Distinct (c ∷ cs) = (has_check c.0 cs ≡ false) × Distinct cs

Distinct-append :
    (scs : List SecurityCheck) (c : SecurityCheck)
    → has_check c.0 scs ≡ false
    → Distinct scs
    → Distinct (scs ++ c ∷ [])
unfolding has_check
Distinct-append [] c h d = (refl, tt)
Distinct-append (x ∷ scs) c h d =
    (ground (arith, has_check-append x.0 scs c), Distinct-append scs c (ground arith) d.1)

Distinct-add :
    (sc branch : ℕ) (scs : List SecurityCheck)
    → Distinct scs
    → Distinct (add_security_check sc branch scs)
unfolding add_security_check
Distinct-add sc branch scs d = elim (Bool-cases (has_check sc scs)) [
  | inl old ↦ rw old d
  | inr new ↦ rw new (Distinct-append scs (sc, branch) new d)
]

module _ (ir : Ir) (m : EdgeErrMap) (selects : List ℕ) where
  -- A branch with two successors or more that disagree on Must_Return_Err or Must_Handle_Err.
  abbrev pub SplitsBranch : ℕ → Type 0
  SplitsBranch i =
      let ss = ir.succs (ir.parent i) in
      (2 ≤ length ss)
      × (Disagree (λ f. f.returns.must) i ss m ⊎ Disagree (λ f. f.handles.must) i ss m)

  -- Some instruction of the list has the condition `x` for its check.
  abbrev pub Checked : ℕ → List ℕ → Type 0
  Checked x insts = (i : ℕ) × Memᴰ i insts × (check_condition ir m selects i ≡ x)

  abbrev one_check : ℕ → List SecurityCheck → List SecurityCheck
  one_check inst scs =
      let cond = check_condition ir m selects inst in
      if cond == null then scs else add_security_check cond inst scs

  has_check-one :
      (x inst : ℕ) (scs : List SecurityCheck)
      → x ≢ null
      → (has_check x (one_check inst scs) ≡ true)
        ↔ ((has_check x scs ≡ true) ⊎ (check_condition ir m selects inst ≡ x))
  has_check-one x inst scs ne =
      ground (arith, has_check-add x (check_condition ir m selects inst) inst scs, ne)

  has_check-collect :
      (x : ℕ) (insts : List ℕ) (scs : List SecurityCheck)
      → x ≢ null
      → (has_check x (collect_checks ir m selects insts scs) ≡ true)
        ↔ ((has_check x scs ≡ true) ⊎ Checked x insts)
  unfolding collect_checks
  has_check-collect x [] scs ne =
      (inl, λ o. elim o [ inl h ↦ h | inr (i, j, e) ↦ absurd (Memᴰ.not-nil j) ])
  has_check-collect x (inst ∷ insts) scs ne =
      let rest = has_check-collect x insts (one_check inst scs) ne in
      let one = has_check-one x inst scs ne in
      (
        λ h. elim (rest.0 h) [
          | inl k ↦ elim (one.0 k) [
            | inl old ↦ inl old
            | inr here ↦ inr (inst, Memᴰ.head refl, here)
          ]
          | inr (i, j, e) ↦ inr (i, Memᴰ.tail j, e)
        ],
        λ o. elim o [
          | inl old ↦ rest.1 (inl (one.1 (inl old)))
          | inr (i, j, e) ↦ elim ((Memᴰ-cons i inst insts).0 j) [
            | inl q ↦ rest.1 (inl (one.1 (inr (ap (check_condition ir m selects) (sym q) ∙ e))))
            | inr k ↦ rest.1 (inr (i, k, e))
          ]
        ],
      )

  Distinct-collect :
      (insts : List ℕ) (scs : List SecurityCheck)
      → Distinct scs
      → Distinct (collect_checks ir m selects insts scs)
  unfolding collect_checks
  Distinct-collect [] scs d = d
  Distinct-collect (inst ∷ insts) scs d =
      Distinct-collect insts (one_check inst scs)
        (either _ (Distinct-add (check_condition ir m selects inst) inst scs d))
    where
      either :
          (b : Bool)
          → Distinct (add_security_check (check_condition ir m selects inst) inst scs)
          → Distinct
              (if b then scs else add_security_check (check_condition ir m selects inst) inst scs)
      either true k = d
      either false k = k

  -- What makes an instruction give the condition `x` for a check.
  abbrev pub GivesCheck : ℕ → ℕ → Node → Type 0
  GivesCheck i x (Node.br (some c)) = (c ≡ x) × SplitsBranch i
  GivesCheck i x (Node.switch c) = (c ≡ x) × SplitsBranch i
  GivesCheck i x (Node.select c t e) = (c ≡ x) × (has i selects ≡ true)
  GivesCheck i x _ = ⊥

  branch_check_iff :
      (i x c : ℕ) → x ≢ null → (branch_check ir m selects i c ≡ x) ↔ ((c ≡ x) × SplitsBranch i)
  unfolding branch_check
  branch_check_iff i x c ne = ground (arith, splits_iff ir m selects i (ir.succs (ir.parent i)), ne)

  node_condition_iff :
      (i x : ℕ) (n : Node) → x ≢ null → (node_condition ir m selects i n ≡ x) ↔ GivesCheck i x n
  unfolding node_condition
  node_condition_iff i x (Node.br (some c)) ne = branch_check_iff i x c ne
  node_condition_iff i x (Node.switch c) ne = branch_check_iff i x c ne
  node_condition_iff i x (Node.select c t e) ne = ground (arith, ne)
  node_condition_iff i x _ ne = (λ e. ne (sym e), λ h. absurd h)

  -- From no checks, the collected checks have distinct conditions, and a value that is not null is
  -- among the conditions exactly when some instruction gives it: a branch or switch on it with two
  -- successors or more, over which Must_Return_Err or Must_Handle_Err stands on one edge and not on
  -- another, or a select on it in the set of the selects of error codes.
  pub collect_checks_lem :
      (x : ℕ) (insts : List ℕ)
      → x ≢ null
      → Distinct (collect_checks ir m selects insts [])
        × ((has_check x (collect_checks ir m selects insts []) ≡ true)
            ↔ ((i : ℕ) × Memᴰ i insts × GivesCheck i x (ir.node i)))
  unfolding has_check check_condition
  collect_checks_lem x insts ne =
      let iff = has_check-collect x insts [] ne in
      (
        Distinct-collect insts [] tt,
        (
          λ h. elim (iff.0 h) [
            | inl k ↦ cc k
            | inr (i, j, e) ↦ (i, j, (node_condition_iff i x (ir.node i) ne).0 e)
          ],
          λ (i, j, g). iff.1 (inr (i, j, (node_condition_iff i x (ir.node i) ne).1 g)),
        ),
      )
