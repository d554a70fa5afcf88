-- ===== src/SecurityChecks/Identify.antt =====
-- identifySecurityChecks, addSecurityCheck and doModulePass of SecurityChecks.cc.
use Prim.Native.String.{String}
use crix.Base.{
  ℕ, ◌+◌, ◌%◌, ◌^◌, Bool, true, false, ◌||◌, ◌&&◌, not, Option, some, List, [], ◌∷◌, ◌++◌,
  if◌then◌else◌, nat_eq, pair_eq, ◌==◌, has, insert_at, ◌>>=◌, ltb, leb, length, foldl, for_each,
}
use crix.Ir.{Ir, Node}
use crix.Ir.Kinds.{null, instructions}
use crix.Context.{Context}
use crix.SecurityChecks.Flags.{Flags}
use crix.SecurityChecks.Edges.{EdgeErrMap, edge_flags}
use crix.SecurityChecks.ErrHandle.{check_err_handle}
use crix.SecurityChecks.ValueFlow.{check_err_return}
use crix.SecurityChecks.Propagate.{mark_all_edges_err_flag, is_empty}

-- A SecurityCheck: SCheck and SCBranch. Its source location is left out.
abbrev pub SecurityCheck : Type 0
SecurityCheck = ℕ × ℕ

-- addSecurityCheck: the first branch of a condition is kept.
unfoldable pub has_check : ℕ → List SecurityCheck → Bool
has_check sc [] = false
has_check sc (c ∷ cs) = c.0 == sc || has_check sc cs

unfoldable pub add_security_check : ℕ → ℕ → List SecurityCheck → List SecurityCheck
unfolding has_check
add_security_check sc branch scs = if has_check sc scs then scs else scs ++ (sc, branch) ∷ []

-- The number of flags on the outgoing edges of a branch that satisfy a test.
abbrev pub count_flags : (Flags → Bool) → ℕ → List ℕ → EdgeErrMap → ℕ
count_flags test inst [] m = 0
count_flags test inst (s ∷ ss) m =
    (if test (edge_flags (inst, s) m) then 1 else 0) + count_flags test inst ss m

module _ (ir : Ir) (edge_err_map : EdgeErrMap) (err_selects : List ℕ) where
  -- NumMustErrReturn && NumMayErrReturn, or the same of handling.
  unfoldable pub splits : ℕ → List ℕ → Bool
  splits inst succs =
      let num_must_err_return = count_flags (λ f. f.returns.must) inst succs edge_err_map in
      let num_may_err_return = count_flags (λ f. not f.returns.must) inst succs edge_err_map in
      let num_must_err_handle = count_flags (λ f. f.handles.must) inst succs edge_err_map in
      let num_may_err_handle = count_flags (λ f. not f.handles.must) inst succs edge_err_map in
      ltb 0 num_must_err_return && ltb 0 num_may_err_return
      || ltb 0 num_must_err_handle && ltb 0 num_may_err_handle

  -- The condition of a branch or switch of a security check; null if it is none.
  unfoldable pub branch_check : ℕ → ℕ → ℕ
  unfolding splits
  branch_check inst cond =
      let succs = ir.succs (ir.parent inst) in
      if ltb (length succs) 2 then null else if splits inst succs then cond else null

  -- `Cond` at the end of one turn of the loop over the instructions.
  unfoldable pub node_condition : ℕ → Node → ℕ
  unfolding branch_check
  node_condition inst (Node.br (some cond)) = branch_check inst cond
  node_condition inst (Node.switch cond) = branch_check inst cond
  node_condition inst (Node.select cond t e) = if has inst err_selects then cond else null
  node_condition inst _ = null

  unfoldable pub check_condition : ℕ → ℕ
  unfolding node_condition
  check_condition inst = node_condition inst (ir.node inst)

  -- Whether the turn counts a conditional statement.
  unfoldable pub is_conditional : ℕ → Bool
  is_conditional inst = elim (ir.node inst) [
    | Node.br c ↦ leb 2 (length (ir.succs (ir.parent inst)))
    | Node.switch c ↦ leb 2 (length (ir.succs (ir.parent inst)))
    | Node.select c t e ↦ true
    | _ ↦ false
  ]

  unfoldable pub collect_checks : List ℕ → List SecurityCheck → List SecurityCheck
  unfolding check_condition add_security_check
  collect_checks [] scs = scs
  collect_checks (inst ∷ insts) scs =
      let cond = check_condition inst in
      collect_checks insts (if cond == null then scs else add_security_check cond inst scs)

  unfoldable pub count_conditionals : List ℕ → ℕ → ℕ
  unfolding is_conditional
  count_conditionals [] n = n
  count_conditionals (inst ∷ insts) n =
      count_conditionals insts (if is_conditional inst then (n + 1) % 2 ^ 32 else n)

-- NumCondStatements, NumSecurityChecks, CheckInstSets, SecurityCheckSets and ErrSelectInstSet.
pub record Checks : Type 0 where
  pub num_cond_statements : ℕ
  pub num_security_checks : ℕ
  pub check_inst_sets : ℕ → List ℕ
  pub security_check_sets : ℕ → List SecurityCheck
  pub err_selects : List ℕ

-- MAX_BLOCKS_SUPPORT
abbrev pub max_blocks_support : ℕ
max_blocks_support = 500

-- set<SecurityCheck>::insert, ordered by the condition: an equal condition is not replaced.
abbrev pub insert_check : SecurityCheck → List SecurityCheck → List SecurityCheck
insert_check c [] = c ∷ []
insert_check c (x ∷ xs) =
    if ltb c.0 x.0 then c ∷ x ∷ xs else if c.0 == x.0 then x ∷ xs else x ∷ insert_check c xs

module _ (ir : Ir) (ctx : Context) (get_source_func_name : ℕ → String) (fuel : ℕ) where
  -- identifySecurityChecks: the checks of a function, with the updated count of conditional
  -- statements and the updated set of selects.
  unfoldable pub identify_security_checks :
      ℕ → ℕ → List ℕ → Option (List SecurityCheck × ℕ × List ℕ)
  identify_security_checks f count err_selects = do
    w ← check_err_return ir ctx fuel f (record { pv = []; bbs = []; err_selects = err_selects })
    edges ←
        mark_all_edges_err_flag ir fuel f (check_err_handle ir ctx get_source_func_name f w.bbs) []
    some (
        if is_empty edges && is_empty w.err_selects then ([], count, w.err_selects) else (
          collect_checks ir edges w.err_selects (instructions ir f) [],
          count_conditionals ir edges w.err_selects (instructions ir f) count,
          w.err_selects,
        ))

  -- The end of one turn of doModulePass.
  unfoldable pub record_checks : ℕ → List SecurityCheck → Checks → Checks
  record_checks f scs s = record s {
    num_security_checks = (s.num_security_checks + length scs) % 2 ^ 32;
    security_check_sets = λ g.
        if g == f
        then foldl (λ acc c. insert_check c acc) (s.security_check_sets g) scs
        else s.security_check_sets g;
    check_inst_sets = foldl (λ m c. insert_at f c.0 m) s.check_inst_sets scs;
  }

  -- The turn of doModulePass for one function.
  unfoldable pub check_function : ℕ → Checks → Option Checks
  unfolding record_checks
  check_function f s =
      let n = length (ir.blocks f) in
      let found = identify_security_checks f s.num_cond_statements s.err_selects >>= λ r.
      let s' = record s { num_cond_statements = r.1; err_selects = r.2 } in
      some (if is_empty r.0 then s' else record_checks f r.0 s') in
      if n == 0
      then some s
      else if ltb max_blocks_support n
      then some s
      else if has f ctx.unified_func_set
      then found
      else some s

  -- doModulePass over the functions of a module.
  unfoldable pub do_module_pass : List ℕ → Checks → Option Checks
  unfolding check_function
  do_module_pass = for_each check_function
