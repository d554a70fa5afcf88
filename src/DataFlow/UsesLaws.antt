-- ===== src/DataFlow/UsesLaws.antt =====
-- What findUses collects.
use mathlib.Core.List.Memᴰ
use crix.Base.{
  ℕ, ◌≡◌, ◌≢◌, refl, sym, true, false, ◌⊎◌, inl, inr, ◌↔◌, some, List, [], Memᴰ, Memᴰ-cons, arith,
  has, has_iff, nat_eq, use_eq, subst, ◌==◌, ℤ, Bool-cases,
}
use crix.Ir.{Ir}
use crix.Ir.Kinds.{null}
use crix.Context.{Context}
use crix.Walk.{Trace}
use crix.Walk.Closed.{Lasting}
use crix.Walk.Steps.{Reached, walk-IsTraced}
use crix.DataFlow.UsesSteps.{StepsOn, IsUse}
use crix.DataFlow.UsesPlan.{use_acts-Describes}
use crix.DataFlow.Uses.{add_use, uses_go_on, use_acts, find_uses}

abbrev Used : ℕ × ℤ → List (ℕ × ℤ) → Type 0
Used u s = Memᴰ u s

Used-add : (u v : ℕ × ℤ) (s : List (ℕ × ℤ)) → Used u (add_use v s) ↔ (Used u s ⊎ (u ≡ v))
Used-add u v s = elim (Bool-cases (has v s)) [
  | inl old ↦
      rw old (
        inl,
        λ o. elim o [ inl m ↦ m | inr q ↦ subst (λ x. Memᴰ x s) (sym q) ((has_iff v s).0 old) ],
      )
  | inr new ↦ rw new (
    λ m. elim ((Memᴰ-cons u v s).0 m) [ inl q ↦ inr q | inr k ↦ inl k ],
    λ o. elim o [ inl m ↦ Memᴰ.tail m | inr q ↦ Memᴰ.head q ],
  )
]

Uses-Lasting : Lasting add_use uses_go_on Used
Uses-Lasting = record {
  now = λ n s. (Used-add n n s).1 (inr refl);
  later = λ m n s h. (Used-add n m s).1 (inl h);
  stuck = λ n s h. h;
}

module _ (ir : Ir) (ctx : Context) where
  -- The values that a value flows on to, over any number of steps.
  abbrev pub FlowsOn : ℕ → ℕ → ℕ → Type 0
  FlowsOn border = Reached (StepsOn ir ctx border)

  -- From empty sets and an instruction that is not null, if findUses returns: it has visited exactly
  -- the values that the target flows on to over any number of steps, and the uses are exactly those of
  -- these values. Only users count that are instructions other than the border. Of a value, an element
  -- pointer, a comparison and a call are uses, and a load and a store if the value is their pointer, where
  -- a path of blocks leads to them from the border; a call has the number of the argument. The value
  -- flows on to a user that is an alloca, a cast, a unary instruction, a binary one without constants, a
  -- load from another pointer, or such an element pointer of itself; and through a store to another
  -- pointer to what loads an alias of that, where a path leads to it from the border.
  pub find_uses_iff :
      (fuel border target w : ℕ) (use' : ℕ × ℤ) (r : Trace (List (ℕ × ℤ)))
      → border ≢ null
      → find_uses ir ctx fuel border target (record { seen = []; acc = [] }) ≡ some r
      → ((has w r.seen ≡ true) ↔ FlowsOn border target w)
        × ((has use' r.acc ≡ true)
            ↔ ((k : ℕ) × FlowsOn border target k × IsUse ir ctx border k use'))
  unfolding find_uses
  find_uses_iff fuel border target w use' r some_border h =
      let there : (border == null) ≡ false = ground arith in
      let x =
        walk-IsTraced add_use uses_go_on (use_acts ir ctx fuel border) _ _ Used Uses-Lasting
          (λ n m s k. (Used-add n m s).0 k) (use_acts-Describes ir ctx fuel border) fuel target [] r
          (rw (there, find_uses) at h) in
      (
        (x.sound w, x.complete refl w),
        (
          λ k. elim (x.sound_notes use' ((has_iff use' r.acc).0 k)) [
            | inl old ↦ absurd (Memᴰ.not-nil old)
            | inr s ↦ s
          ],
          λ s. (has_iff use' r.acc).1 (x.complete_notes refl use' s),
        ),
      )
