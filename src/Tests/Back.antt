-- ===== src/Tests/Back.antt =====
-- Tracking the returned value of the small program back to its check.
use crix.Base.{
  ℕ, suc, length, ◌≡◌, refl, Bool, true, false, some, [], List, ◌∷◌, Memᴰ, All, All-mem, All-map,
  flat_map, arith, has, nat_eq, pos,
}
use crix.Ir.{Node}
use crix.Walk.{Trace, walk}
use crix.Tests.Sample.{f_ir, f_context, f_nodes, parent_of}
use crix.Tests.Ends.{
  values, places, listed, lookup_each, each_listed, f_places, f_users, f_operands, f_parents,
}
use crix.DataFlow.Aliases.{get_alias_pointers}
use crix.MissingChecks.Model.{
  in_modeled_check_set, SrcUse, Counts, no_counts, add_use_check, model_check,
}
use crix.MissingChecks.Backward.{Item, backward_acts, is_checked_backward}
use crix.MissingChecks.BackwardSteps.{data_operands, moved}
use crix.MissingChecks.BackwardLaws.{ComesFrom, IsFound, is_checked_backward_sound}
use crix.Ir.Kinds.{instructions}
use crix.MissingChecks.Targets.{checked_operands, node_operands}
use crix.MissingChecks.RunTotal.{HoldsChecks, run_total}
use crix.MissingChecks.Stages.{do_initialization, do_module_pass, do_finalization}
use crix.Analyzer.{run}
use crix.MissingChecks.TrackTotal.{HoldsProgram}
use crix.MissingChecks.BackwardTotal.{IsClosedProgram, passed, is_checked_backward_total}

abbrev a_use : SrcUse
a_use = (60, pos 0)

abbrev use_counts : Counts
use_counts = add_use_check a_use (model_check f_ir 50 a_use) no_counts

abbrev returned : Item
returned = record { function = 1; value = 53; scope = 10 ∷ 11 ∷ 12 ∷ 13 ∷ []; depth = 1 }

abbrev untouched : Trace Bool
untouched = record { seen = []; acc = false }

back_run :
    (r : Trace Bool) × (is_checked_backward f_ir f_context use_counts 9 a_use returned untouched
      ≡ some r)
unfolding is_checked_backward walk backward_acts get_alias_pointers in_modeled_check_set
    add_use_check
back_run = (_, refl)

back_checked : back_run.0.acc ≡ true
unfolding back_run
back_checked = refl

is_checked_backward_sound_example :
    (j : Item) × ComesFrom f_ir f_context use_counts 9 returned j
    × IsFound f_ir f_context use_counts 9 a_use j
is_checked_backward_sound_example =
    is_checked_backward_sound f_ir f_context use_counts 9 a_use returned untouched back_run.0 refl
      back_run.1 back_checked

moved-In : (su : ℕ) → Memᴰ su values → All (λ w. Memᴰ w values) (moved su (f_ir.node su))
moved-In su h =
    lookup_each (λ n. All (λ w. Memᴰ w values) (moved su n)) Node.other_value tt f_nodes
      (
        tt,
        (
          tt,
          (
            tt,
            (
              tt,
              (
                tt,
                ((listed 51 values refl, tt), (tt, (tt, ((h, tt), (tt, (tt, (tt, (tt, tt)))))))),
              ),
            ),
          ),
        ),
      )
      su

f_closed : IsClosedProgram f_ir f_context values places
f_closed = record {
  operands = λ v. each_listed (data_operands (f_ir.node v)) values (
      lookup_each (λ n. All (λ u. has u values ≡ true) (data_operands n)) Node.other_value tt
        f_nodes
        (tt, (tt, (tt, ((refl, tt), (tt, (tt, (tt, (tt, (tt, (tt, (tt, (tt, (tt, tt))))))))))))) v);
  accesses = λ a su m. moved-In su (All-mem (λ u. Memᴰ u values) (f_ir.users a) (f_users a) m);
  arguments = λ ci. each_listed (passed (f_ir.node ci)) values (
      lookup_each (λ n. All (λ u. has u values ≡ true) (passed n)) Node.other_value tt f_nodes
        (tt, (tt, (tt, (tt, (tt, (tt, (tt, (tt, (tt, (tt, (tt, (tt, (tt, tt))))))))))))) ci);
  parents = λ f.
      lookup_each (λ cis. All (λ ci. Memᴰ (f_ir.parent ci) places) cis) [] tt
        ((60, 51 ∷ []) ∷ (61, 52 ∷ []) ∷ [])
        ((listed 10 places refl, tt), ((listed 11 places refl, tt), tt)) f;
  edges = f_places;
}

is_checked_backward_total_example :
    (r : Trace Bool) × (is_checked_backward f_ir f_context use_counts 20 a_use returned untouched
      ≡ some r)
is_checked_backward_total_example =
    is_checked_backward_total f_ir f_context use_counts 20 values places f_closed (omega arith)
      a_use returned untouched (listed 53 values refl) (omega arith)

abbrev Placed : List ℕ → Type 0
Placed is = All (λ i. (has i values ≡ true) × (has (parent_of i) places ≡ true)) is

-- The instructions of a function, of which only 1 has blocks.
placed : (f : ℕ) → Placed (flat_map f_ir.body (f_ir.blocks f))
unfolding flat_map
placed f =
    lookup_each (λ bs. Placed (flat_map f_ir.body bs)) [] tt ((1, 10 ∷ 11 ∷ 12 ∷ 13 ∷ []) ∷ [])
      (
        (
          (refl, refl),
          (
            (refl, refl),
            (
              (refl, refl),
              (
                (refl, refl),
                (
                  (refl, refl),
                  (
                    (refl, refl),
                    ((refl, refl), ((refl, refl), ((refl, refl), ((refl, refl), tt)))),
                  ),
                ),
              ),
            ),
          ),
        ),
        tt,
      )
      f

f_body : (f : ℕ) → All (λ i. Memᴰ i values × Memᴰ (f_ir.parent i) places) (instructions f_ir f)
unfolding instructions
f_body f =
    All-map (λ i (m, p). (listed i values m, listed (parent_of i) places p))
      (flat_map f_ir.body (f_ir.blocks f)) (placed f)

f_holds : HoldsProgram f_ir f_context values places
f_holds = record {
  closed = f_closed;
  users = f_users;
  no_value = listed 0 values refl;
  no_place = listed 0 places refl;
  formals = λ f. tt;
  blocks = λ f.
      lookup_each (λ bs. All (λ b. Memᴰ b places) bs) [] tt ((1, 10 ∷ 11 ∷ 12 ∷ 13 ∷ []) ∷ [])
        (
          (
            listed 10 places refl,
            (listed 11 places refl, (listed 12 places refl, (listed 13 places refl, tt))),
          ),
          tt,
        )
        f;
  body = f_body;
}

f_checks : HoldsChecks f_ir f_context values places
unfolding checked_operands
f_checks = record {
  program = f_holds;
  sources = f_operands;
  parents = f_parents;
  checked = λ v. each_listed (node_operands (f_ir.node v)) values (
      lookup_each (λ n. All (λ u. has u values ≡ true) (node_operands n)) Node.other_value tt
        f_nodes
        (
          tt,
          (
            tt,
            (
              tt,
              (
                (refl, tt),
                (tt, (tt, ((refl, (refl, tt)), (tt, ((refl, tt), (tt, (tt, (tt, (tt, tt))))))))),
              ),
            ),
          ),
        )
        v);
  checks = λ f.
      lookup_each (λ scs. All (λ sc. Memᴰ sc values) scs) [] tt ((1, 50 ∷ []) ∷ [])
        ((listed 50 values refl, tt), tt) f;
}

run_total_example :
    (c' : Counts) × (run
        (suc (suc 1))
        do_initialization
        (do_module_pass f_ir f_context 20 (length {A = List ℕ} ((1 ∷ []) ∷ [])))
        do_finalization
        ((1 ∷ []) ∷ [])
        (record { stage = 1; midx = 0; counts = no_counts })
      ≡ some (record { stage = 3; midx = 0; counts = c' }))
run_total_example =
    run_total f_ir f_context 20 values places f_checks (omega arith) (omega arith) 1 (1 ∷ []) []
      no_counts
