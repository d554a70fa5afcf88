-- ===== src/SecurityChecks/FlagLaws.antt =====
-- The updates of error flags bit by bit, and the marks of blocks by checkErrHandle.
use mathlib.Core.List.Memᴰ
use Prim.Native.String.{String}
use crix.Base.{
  ℕ, ◌≡◌, refl, sym, Bool, true, false, ◌||◌, ◌⊎◌, inl, inr, ◌↔◌, List, [], ◌∷◌, Memᴰ, Memᴰ-cons,
  arith, if◌then◌else◌, nat_eq, ◌==◌, Bool-cases, read-adjust, subst,
}
use crix.Ir.{Ir}
use crix.Context.{Context}
use crix.SecurityChecks.Flags.{
  Flags, Half, no_flag, must_handle_err, flags_or, merge_flag, merge_returns, merge_handles,
  merge_returns, merge_handles,
}
use crix.SecurityChecks.Edges.{BbErrMap, bb_flags, mark_bb_err}
use crix.SecurityChecks.ErrHandle.{
  is_handler_call, handle_instructions, handle_blocks, check_err_handle,
}

-- One side of a merge has Must, the other too, or one has May.
abbrev pub BothMust : Half → Half → Type 0
BothMust a b = (a.must ≡ true) × (b.must ≡ true)

abbrev pub SomeMay : Half → Half → Type 0
SomeMay a b = (a.may ≡ true) ⊎ (b.may ≡ true)

merge_returns-may_iff :
    (err new : Half)
    → ((merge_returns err new).may ≡ true) ↔ (SomeMay err new × (BothMust err new → ⊥))
unfolding merge_returns
merge_returns-may_iff err new = ground arith

merge_handles-may_iff :
    (err new : Half)
    → ((merge_handles err new).0.may ≡ true) ↔ (SomeMay err new × (BothMust err new → ⊥))
unfolding merge_handles
merge_handles-may_iff err new = ground arith

merge_handles-never-may : (err new : Half) → (merge_handles err new).1.may ≡ false
unfolding merge_handles
merge_handles-never-may err new = ground arith

or_iff {ℓ κ} :
    {P : Type ℓ} {Q : Type κ} (a b : Bool)
    → ((a ≡ true) ↔ P)
    → ((b ≡ true) ↔ Q)
    → ((a || b) ≡ true) ↔ (P ⊎ Q)
or_iff a b p q = ground arith

-- A merge of two flags never has May_Handle_Err. It has May_Return_Err exactly if, of the return bits
-- or of the handle bits, some side has May and not both have Must.
pub merge_flag_bits :
    (err new : Flags)
    → ((merge_flag err new).handles.may ≡ false)
      × (((merge_flag err new).returns.may ≡ true) ↔ (
          SomeMay err.returns new.returns × (BothMust err.returns new.returns → ⊥)
          ⊎ SomeMay err.handles new.handles × (BothMust err.handles new.handles → ⊥)))
unfolding merge_flag
merge_flag_bits err new = (
  merge_handles-never-may err.handles new.handles,
  or_iff _ _ (merge_returns-may_iff err.returns new.returns)
      (merge_handles-may_iff err.handles new.handles),
)

-- Marking a block adds the bits of the flag to it, and to no other.
pub bb_flags-mark_bb_err :
    (b k : ℕ) (flag : Flags) (m : BbErrMap)
    → bb_flags b (mark_bb_err k flag m)
      ≡ (if b == k then flags_or (bb_flags k m) flag else bb_flags b m)
unfolding mark_bb_err
bb_flags-mark_bb_err b k flag m = ground (
  arith,
  read-adjust no_flag k b (λ old. flags_or old flag) m,
  read-adjust no_flag k b (λ _. flag) m,
)

module _ (ir : Ir) (ctx : Context) (get_source_func_name : ℕ → String) where
  -- A block that calls a function that handles errors.
  abbrev pub CallsHandler : ℕ → Type 0
  CallsHandler b =
      (i : ℕ) × Memᴰ i (ir.body b) × (is_handler_call ir ctx get_source_func_name i ≡ true)

  abbrev CallsHandlerIn : List ℕ → Type 0
  CallsHandlerIn is = (i : ℕ) × Memᴰ i is × (is_handler_call ir ctx get_source_func_name i ≡ true)

  abbrev HandlesIn : BbErrMap → ℕ → Type 0
  HandlesIn m b = (bb_flags b m).handles.must ≡ true

  mark_bb_err-HandlesIn :
      (b k : ℕ) (m : BbErrMap)
      → HandlesIn (mark_bb_err k must_handle_err m) b ↔ (HandlesIn m b ⊎ (b ≡ k))
  mark_bb_err-HandlesIn b k m = ground (arith, bb_flags-mark_bb_err b k must_handle_err m)

  CallsHandlerIn-cons :
      (i : ℕ) (is : List ℕ)
      → CallsHandlerIn (i ∷ is)
        ↔ ((is_handler_call ir ctx get_source_func_name i ≡ true) ⊎ CallsHandlerIn is)
  CallsHandlerIn-cons i is = (
    λ (j, m, h). elim ((Memᴰ-cons j i is).0 m) [
      | inl q ↦ inl (subst (λ x. is_handler_call ir ctx get_source_func_name x ≡ true) q h)
      | inr k ↦ inr (j, k, h)
    ],
    λ o. elim o [ inl h ↦ (i, Memᴰ.head refl, h) | inr (j, m, h) ↦ (j, Memᴰ.tail m, h) ],
  )

  handle_instructions_iff :
      (bb b : ℕ) (is : List ℕ) (m : BbErrMap)
      → HandlesIn (handle_instructions ir ctx get_source_func_name bb is m) b
        ↔ (HandlesIn m b ⊎ (b ≡ bb) × CallsHandlerIn is)
  unfolding handle_instructions
  handle_instructions_iff bb b [] m =
      (inl, λ o. elim o [ inl h ↦ h | inr (q, (j, k, h)) ↦ absurd (Memᴰ.not-nil k) ])
  handle_instructions_iff bb b (i ∷ is) m =
      elim (Bool-cases (is_handler_call ir ctx get_source_func_name i)) [
        | inl yes' ↦
            let (f, g) = handle_instructions_iff bb b is (mark_bb_err bb must_handle_err m) in
            let (to, from) = mark_bb_err-HandlesIn b bb m in
            let (split, join) = CallsHandlerIn-cons i is in
            rw yes' (
              λ h. elim (f h) [
                | inl h ↦ elim (to h) [ inl h ↦ inl h | inr q ↦ inr (q, join (inl yes')) ]
                | inr (q, c) ↦ inr (q, join (inr c))
              ],
              λ o. elim o [ inl h ↦ g (inl (from (inl h))) | inr (q, c) ↦ g (inl (from (inr q))) ],
            )
        | inr no' ↦
            let (f, g) = handle_instructions_iff bb b is m in
            let (split, join) = CallsHandlerIn-cons i is in
            rw no' (
              λ h. elim (f h) [ inl h ↦ inl h | inr (q, c) ↦ inr (q, join (inr c)) ],
              λ o. elim o [
                | inl h ↦ g (inl h)
                | inr (q, c) ↦ elim (split c) [ inl e ↦ cc | inr c ↦ g (inr (q, c)) ]
              ],
            )
      ]

  handle_blocks_iff :
      (b : ℕ) (bbs : List ℕ) (m : BbErrMap)
      → HandlesIn (handle_blocks ir ctx get_source_func_name bbs m) b
        ↔ (HandlesIn m b ⊎ Memᴰ b bbs × CallsHandler b)
  unfolding handle_blocks
  handle_blocks_iff b [] m = (inl, λ o. elim o [ inl h ↦ h | inr (i, c) ↦ absurd (Memᴰ.not-nil i) ])
  handle_blocks_iff b (bb ∷ bbs) m =
      let m' = handle_instructions ir ctx get_source_func_name bb (ir.body bb) m in
      let (f, g) = handle_blocks_iff b bbs m' in
      let (f', g') = handle_instructions_iff bb b (ir.body bb) m in
      (
        λ h. elim (f h) [
          | inl h ↦ elim (f' h) [
            | inl h ↦ inl h
            | inr (q, c) ↦ inr (Memᴰ.head q, subst CallsHandler (sym q) c)
          ]
          | inr (i, c) ↦ inr (Memᴰ.tail i, c)
        ],
        λ o. elim o [
          | inl h ↦ g (inl (g' (inl h)))
          | inr (i, c) ↦ elim ((Memᴰ-cons b bb bbs).0 i) [
            | inl q ↦ g (inl (g' (inr (q, subst CallsHandler q c))))
            | inr k ↦ g (inr (k, c))
          ]
        ],
      )

  -- After checkErrHandle of a function a block has Must_Handle_Err exactly if it had it before, or is
  -- a block of the function that calls a function that handles errors.
  pub check_err_handle_iff :
      (function b : ℕ) (m : BbErrMap)
      → ((bb_flags b (check_err_handle ir ctx get_source_func_name function m)).handles.must ≡ true)
        ↔ (((bb_flags b m).handles.must ≡ true) ⊎ Memᴰ b (ir.blocks function) × CallsHandler b)
  unfolding check_err_handle
  check_err_handle_iff function b m = handle_blocks_iff b (ir.blocks function) m
