-- ===== src/DataFlow/Reach.antt =====
-- collectSuccReachBlocks and collectPredReachBlocks of DataFlowAnalysis.cc. The only state of these
-- walks is the set of blocks that they have come to; `none` is a walk whose fuel ran out.
use crix.Base.{ℕ, Bool, false, Option, some, List, [], ◌∷◌, nat_eq, ◌>>=◌}
use crix.Ir.{Ir}
use crix.Walk.{Act, visit, walk}

-- A walk that adds nothing but the values that it tracks.
pub data Nothing : Type 0 where
  nothing : Nothing

abbrev pub add_nothing : Nothing → Nothing → Nothing
add_nothing n s = s

abbrev pub never : Nothing → Bool
never s = false

-- The calls on each block of a list, in order.
abbrev pub visit_each : List ℕ → List (Act ℕ Nothing)
visit_each [] = []
visit_each (b ∷ bs) = visit b ∷ visit_each bs

abbrev pub each_of : (ℕ → List ℕ) → ℕ → Option (List (Act ℕ Nothing))
each_of next bb = some (visit_each (next bb))

-- The body that the two functions share: return on a block of the set, insert it, and go to the
-- `next` ones.
unfoldable pub collect_reach_blocks : (ℕ → List ℕ) → ℕ → ℕ → List ℕ → Option (List ℕ)
collect_reach_blocks next fuel bb reach_bb =
    walk (λ b. b) add_nothing never (each_of next) fuel bb
      (record { seen = reach_bb; acc = nothing })
    >>= λ t. some t.seen

module _ (ir : Ir) where
  unfoldable pub collect_succ_reach_blocks : ℕ → ℕ → List ℕ → Option (List ℕ)
  collect_succ_reach_blocks = collect_reach_blocks ir.succs

  unfoldable pub collect_pred_reach_blocks : ℕ → ℕ → List ℕ → Option (List ℕ)
  collect_pred_reach_blocks = collect_reach_blocks ir.preds
