-- ===== src/Tests/Security.antt =====
-- The error flags and checks of the small program.
use crix.Base.{
  ℕ, ◌≡◌, refl, Bool, true, false, ◌⊎◌, ◌↔◌, some, List, [], ◌∷◌, Memᴰ, arith, pos, negsuc, ◌<ℤ◌,
  ◌≤◌, ◌<◌, ◌+◌, neg, flat_map, find, adjust,
}
use crix.Tests.Sample.{f_closed, in_10, in_11, in_12, in_13, f_ir, f_ir-IsCfg, f_context, f_blocks}
use crix.SecurityChecks.Flags.{
  Flags, must_handle_err, may_of, no_flag, merge_flag, update_handle_flag,
}
use Prim.Native.String.{String}
use crix.Ir.Kinds.{instructions}
use crix.Worklist.{loop}
use crix.SecurityChecks.Propagate.{mark_all_edges_err_flag, mark_block, mark_returning}
use crix.SecurityChecks.Marking.{EntersTo}
use crix.SecurityChecks.Handled.{follows, mark_all_edges-handled_iff}
use crix.SecurityChecks.MayReturn.{may_return_err}
use crix.SecurityChecks.MayReturnLaws.{CallChain, Evidence}
use crix.SecurityChecks.MayReturnTotal.{IsFiniteProgram, may_return_err_lem}
use crix.SecurityChecks.Errno.{is_int_errno, errno_prefix, low_word, is_int_errno_iff}
use crix.SecurityChecks.ErrHandle.{check_err_handle}
use crix.SecurityChecks.FlagLaws.{
  SomeMay, BothMust, merge_flag_bits, CallsHandler, check_err_handle_iff,
}
use crix.SecurityChecks.Identify.{collect_checks, has_check}
use crix.SecurityChecks.Identified.{Distinct, GivesCheck, collect_checks_lem}
use crix.SecurityChecks.Edges.{
  mark_body, mark_preds, recur_mark_edges_to_err_handle, EdgeErrMap, BbErrMap, edge_flags, bb_flags,
}
use crix.SecurityChecks.Total.{mark_edges_total}

abbrev f_insts : List ℕ
f_insts = 70 ∷ 51 ∷ 54 ∷ 50 ∷ 1010 ∷ 52 ∷ 1011 ∷ 1012 ∷ 53 ∷ 1013 ∷ []

abbrev handling : BbErrMap
handling = (11, must_handle_err) ∷ []

mark_edges_total_example :
    (r : EdgeErrMap) × (mark_all_edges_err_flag f_ir 60 1 handling [] ≡ some r)
unfolding flat_map
mark_edges_total_example =
    mark_edges_total f_ir f_ir-IsCfg f_blocks f_closed 60 1 handling [] (omega arith)
      (in_10, (in_11, (in_12, (in_13, tt))))

abbrev marked : EdgeErrMap
marked = ((1010, 11), must_handle_err) ∷ []

mark_all_edges-handled_example : ((edge_flags (1010, 11) marked).handles.must ≡ true) ↔ (
    (b : ℕ) × Memᴰ b (f_ir.blocks 1)
    × ((bb_flags b handling).handles.must ≡ true)
    × EntersTo f_ir (follows f_ir) b (1010, 11))
unfolding mark_all_edges_err_flag mark_block recur_mark_edges_to_err_handle mark_body mark_preds
    loop find adjust update_handle_flag mark_returning
mark_all_edges-handled_example =
    mark_all_edges-handled_iff f_ir f_ir-IsCfg 60 1 handling marked (1010, 11) refl

-- The function 1, and the two functions without a body that it calls.
f_finite : IsFiniteProgram f_ir f_context 20 (1 ∷ 60 ∷ 61 ∷ [])
unfolding instructions flat_map
f_finite = (
  (
    (tt, (tt, tt)),
    (
      (tt, ((Memᴰ.tail (Memᴰ.head refl), tt), tt)),
      (
        ((tt, tt), (tt, tt)),
        (
          (tt, (tt, tt)),
          (
            (tt, (tt, tt)),
            (
              (tt, ((Memᴰ.tail (Memᴰ.tail (Memᴰ.head refl)), tt), tt)),
              ((tt, (tt, tt)), ((tt, (tt, tt)), ((tt, (tt, tt)), ((tt, (tt, (tt, tt))), tt)))),
            ),
          ),
        ),
      ),
    ),
  ),
  (tt, (tt, tt)),
)

may_return_err_lem_example :
    (answer : Bool) × (may_return_err f_ir f_context 20 1 ≡ some answer)
    × ((answer ≡ true) ↔ ((g : ℕ) × CallChain f_ir f_context 1 g × Evidence f_ir f_context g))
unfolding instructions flat_map
may_return_err_lem_example =
    may_return_err_lem f_ir f_context 20 (1 ∷ 60 ∷ 61 ∷ []) 1 f_finite (Memᴰ.head refl)
      (omega arith)

collect_checks_example :
    Distinct (collect_checks f_ir marked [] f_insts [])
    × ((has_check 50 (collect_checks f_ir marked [] f_insts []) ≡ true)
        ↔ ((i : ℕ) × Memᴰ i f_insts × GivesCheck f_ir marked [] i 50 (f_ir.node i)))
collect_checks_example = collect_checks_lem f_ir marked [] 50 f_insts (λ q. absurd (omega arith))

is_int_errno_example : (is_int_errno (negsuc 21) ≡ true) ↔ (
    (negsuc 4095 <ℤ negsuc 21) × (negsuc 21 <ℤ pos 0)
    ⊎ ((errno_prefix ≤ low_word (negsuc 21)) × (low_word (negsuc 21) < errno_prefix + 4096)
        ⊎ (errno_prefix ≤ low_word (neg (negsuc 21)))
          × (low_word (neg (negsuc 21)) < errno_prefix + 4096)))
is_int_errno_example = is_int_errno_iff (negsuc 21)

abbrev may_handle : Flags
may_handle = record no_flag { handles = may_of }

merge_flag_example :
    ((merge_flag may_handle no_flag).handles.may ≡ false)
    × (((merge_flag may_handle no_flag).returns.may ≡ true) ↔ (
        SomeMay may_handle.returns no_flag.returns
          × (BothMust may_handle.returns no_flag.returns → ⊥)
        ⊎ SomeMay may_handle.handles no_flag.handles
          × (BothMust may_handle.handles no_flag.handles → ⊥)))
merge_flag_example = merge_flag_bits may_handle no_flag

abbrev no_source : ℕ → String
no_source c = ""

check_err_handle_example :
    ((bb_flags 11 (check_err_handle f_ir f_context no_source 1 [])).handles.must ≡ true) ↔ (
      ((bb_flags 11 []).handles.must ≡ true)
      ⊎ Memᴰ 11 (f_ir.blocks 1) × CallsHandler f_ir f_context no_source 11)
check_err_handle_example = check_err_handle_iff f_ir f_context no_source 1 11 []
