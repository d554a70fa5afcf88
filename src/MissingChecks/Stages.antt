-- ===== src/MissingChecks/Stages.antt =====
-- doInitialization, doModulePass and doFinalization of MissingChecks.cc.
use crix.Base.{
  ℕ, ◌+◌, Bool, true, false, Option, some, List, if◌then◌else◌, ◌==◌, leb, ltb, length, has, nat_eq,
  ◌>>=◌, for_each,
}
use crix.Ir.{Ir, Node}
use crix.Context.{Context}
use crix.SecurityChecks.Identify.{max_blocks_support}
use crix.MissingChecks.Model.{Counts}
use crix.MissingChecks.Targets.{count_src_use_checks}
use crix.MissingChecks.Unchecks.{count_src_use_unchecks}

-- CmpInst
abbrev pub is_cmp : Node → Bool
is_cmp (Node.icmp p a b) = true
is_cmp (Node.fcmp p a b) = true
is_cmp _ = false

-- AnalysisStage, MIdx, and the counters.
pub record State : Type 0 where
  pub stage : ℕ
  pub midx : ℕ
  pub counts : Counts

-- MAX_STAGE
abbrev pub max_stage : ℕ
max_stage = 2

unfoldable pub do_initialization : List ℕ → State → Option (Bool × State)
do_initialization functions s = some (false, s)

unfoldable pub do_finalization : List ℕ → State → Option (Bool × State)
do_finalization functions s = some (false, s)

-- What follows the loop over the functions, among `modules` modules.
unfoldable pub next_stage : ℕ → State → Bool × State
next_stage modules s =
    if modules == s.midx
    then (leb (s.stage + 1) max_stage, record s { stage = s.stage + 1; midx = 0 })
    else (false, s)

module _ (ir : Ir) (ctx : Context) (fuel : ℕ) where
  -- A check instruction of stage 1: only a comparison is counted.
  unfoldable pub count_check : ℕ → ℕ → Counts → Option Counts
  unfolding count_src_use_checks
  count_check f sc c =
      if is_cmp (ir.node sc) then count_src_use_checks ir ctx fuel f sc c else some c

  -- The body of the loop for a function that is analysed.
  unfoldable pub stage_body : ℕ → ℕ → Counts → Option Counts
  unfolding count_check count_src_use_unchecks
  stage_body stage f c =
      if stage == 1
      then for_each (count_check f) (ctx.check_inst_sets f) c
      else if stage == 2
      then count_src_use_unchecks ir ctx fuel f c
      else some c

  unfoldable pub stage_function : ℕ → ℕ → Counts → Option Counts
  unfolding stage_body
  stage_function stage f c =
      let n = length (ir.blocks f) in
      if n == 0
      then some c
      else if ltb max_blocks_support n
      then some c
      else if has f ctx.unified_func_set
      then stage_body stage f c
      else some c

  -- A stage on the functions of one module, and on all modules.
  abbrev pub stage_module : ℕ → List ℕ → Counts → Option Counts
  stage_module stage functions c = for_each (stage_function stage) functions c

  abbrev pub stage_modules : ℕ → List (List ℕ) → Counts → Option Counts
  stage_modules stage modules c = for_each (stage_module stage) modules c

  unfoldable pub do_module_pass : ℕ → List ℕ → State → Option (Bool × State)
  unfolding stage_function next_stage
  do_module_pass modules functions s = stage_module s.stage functions s.counts >>= λ c.
      some (next_stage modules (record s { midx = s.midx + 1; counts = c }))
