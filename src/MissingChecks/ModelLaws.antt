-- ===== src/MissingChecks/ModelLaws.antt =====
-- inModeledCheckSet finds any comparison once one check of the source or use is recorded.
use crix.Base.{
  ℕ, ◌≡◌, refl, sym, ap, ◌∙◌, true, false, ◌||◌, List, [], ◌∷◌, arith, ◌==◌, has, use_eq, use_beq,
  use_beq_iff, find, read, read-adjust, Bool-cases, ==_iff, inl, inr,
}
use crix.Ir.{Ir}
use crix.MissingChecks.Model.{
  ModelSc, SrcUse, has_model, insert_model, insert_key, Side, Counts, no_counts, add_check,
  add_src_check, add_use_check, model_check, in_modeled_check_set,
}

-- The states that the recording of checks can lead to.
pub data Recorded (ir : Ir) : Counts → Type 0 where
  start : Recorded ir no_counts
  of_source :
      {c : Counts} (cmp : ℕ) (k : SrcUse)
      → Recorded ir c
      → Recorded ir (add_src_check k (model_check ir cmp k) c)
  of_use :
      {c : Counts} (cmp : ℕ) (k : SrcUse)
      → Recorded ir c
      → Recorded ir (add_use_check k (model_check ir cmp k) c)

model_check-src_use : (ir : Ir) (cmp : ℕ) (k : SrcUse) → (model_check ir cmp k).src_use ≡ k.0
unfolding model_check
model_check-src_use ir cmp k = ground arith

-- A key is checked exactly if its set has a model of it.
abbrev IsKeyed : Side → Type 0
IsKeyed s =
    (k : SrcUse) (msc : ModelSc)
    → msc.src_use ≡ k.0
    → has_model msc (read [] k s.checks_map) ≡ has k s.checked_set

has_model-insert_model :
    (a b : ModelSc) (xs : List ModelSc)
    → has_model a (insert_model b xs) ≡ (a.src_use == b.src_use || has_model a xs)
has_model-insert_model a b xs = elim (Bool-cases (has_model b xs)) [
  | inr new ↦ rw new refl
  | inl old ↦ rw old (known a b xs old)
]
  where
    known :
        (a b : ModelSc) (xs : List ModelSc)
        → has_model b xs ≡ true
        → has_model a xs ≡ (a.src_use == b.src_use || has_model a xs)
    known a b [] h = cc
    known a b (x ∷ xs) h = ground (arith, known a b xs)

has-insert_key :
    (j k : SrcUse) (s : List SrcUse) → has j (insert_key k s) ≡ (use_beq j k || has j s)
has-insert_key j k s = elim (Bool-cases (has k s)) [
  | inr new ↦ rw new refl
  | inl old ↦ elim (Bool-cases (use_beq j k)) [
    | inl same ↦ let q : j ≡ k = (use_beq_iff j k).0 same in rw old (rw same (rw q old))
    | inr other ↦ rw old (rw other refl)
  ]
]

add_check-IsKeyed :
    (k : SrcUse) (msc : ModelSc) (s : Side)
    → msc.src_use ≡ k.0
    → IsKeyed s
    → IsKeyed (add_check k msc s)
unfolding add_check
add_check-IsKeyed k msc s own v j m e =
    rw (read-adjust [] k j (insert_model msc) s.checks_map, has-insert_key j k s.checked_set)
      (elim (Bool-cases (use_beq j k)) [
        | inr other ↦ rw other (v j m e)
        | inl same ↦
            let q : j.0 ≡ k.0 = ap (λ (x : SrcUse). x.0) ((use_beq_iff j k).0 same) in
            let p : (m.src_use == msc.src_use) ≡ true =
              (==_iff m.src_use msc.src_use).1 (e ∙ q ∙ sym own) in
            rw (same, has_model-insert_model m msc (read [] k s.checks_map), p) refl
      ])

abbrev IsKeyedBoth : Counts → Type 0
IsKeyedBoth c = IsKeyed c.sources × IsKeyed c.uses

Recorded-IsKeyed : (ir : Ir) {c : Counts} → Recorded ir c → IsKeyedBoth c
unfolding add_src_check add_use_check find
Recorded-IsKeyed ir Recorded.start = (λ k m e. refl, λ k m e. refl)
Recorded-IsKeyed ir (Recorded.of_source {c} cmp k r) =
    let (f, g) = Recorded-IsKeyed ir r in
    (add_check-IsKeyed k (model_check ir cmp k) c.sources (model_check-src_use ir cmp k) f, g)
Recorded-IsKeyed ir (Recorded.of_use {c} cmp k r) =
    let (f, g) = Recorded-IsKeyed ir r in
    (f, add_check-IsKeyed k (model_check ir cmp k) c.uses (model_check-src_use ir cmp k) g)

-- In every state that recorded checks lead to, inModeledCheckSet is true exactly for the keys of the
-- checked set, whatever the comparison is, for sources and for uses.
pub in_modeled_check_set_lem :
    (ir : Ir) (cmp : ℕ) (k : SrcUse) (c : Counts)
    → Recorded ir c
    → (in_modeled_check_set ir cmp k true c ≡ has k c.sources.checked_set)
      × (in_modeled_check_set ir cmp k false c ≡ has k c.uses.checked_set)
unfolding in_modeled_check_set
in_modeled_check_set_lem ir cmp k c r =
    let (f, g) = Recorded-IsKeyed ir r in
    let e = model_check-src_use ir cmp k in
    (f k (model_check ir cmp k) e, g k (model_check ir cmp k) e)
