-- ===== src/SecurityChecks/Frames.antt =====
-- The loops that spread return flags leave every handle flag as it was.
use crix.Base.{
  Eq, subst, ap, some_inj, ℕ, ◌≡◌, refl, ◌∙◌, Bool, true, false, Option, some, List, [], ◌∷◌, arith,
  nat_eq, pair_eq, pair_beq_iff, adjust, touch, read-adjust, read-touch, if◌then◌else◌,
}
use crix.Ir.{Ir}
use crix.Worklist.{Turn, stop, push, loop}
use crix.Worklist.Rule.{IsRule, loop_rule}
use crix.SecurityChecks.Flags.{Flags, no_flag, must_return_err, same_half, update_return_flag}
use crix.SecurityChecks.Edges.{
  Edge, EdgeErrMap, edge_flags, edge_of, mark_preds, mark_body, recur_mark_edges_to_err_return,
}
use crix.SecurityChecks.Propagate.{integrate, spread, gather}

pub record SameHandles (m m' : EdgeErrMap) : Type 0 where
  pub at : (e : Edge) → (edge_flags e m').handles ≡ (edge_flags e m).handles

pub SameHandles-refl : (m : EdgeErrMap) → SameHandles m m
SameHandles-refl m = record { at = λ e. refl }

update_return_flag-handles : (f g : Flags) → (update_return_flag f g).handles ≡ f.handles
unfolding update_return_flag
update_return_flag-handles f g = ground arith

pub SameHandles-update :
    (k : Edge) (g : Flags) (m : EdgeErrMap)
    → SameHandles m (adjust no_flag k (λ f. update_return_flag f g) m)
SameHandles-update k g m = record {
  at = λ e. ground (
    arith,
    read-adjust no_flag k e (λ f. update_return_flag f g) m,
    update_return_flag-handles (edge_flags k m) g,
    pair_beq_iff e k,
  );
}

pub SameHandles-touch : (k : Edge) (m : EdgeErrMap) → SameHandles m (touch no_flag k m)
SameHandles-touch k m = record {
  at = λ e. ap (λ (f : Flags). f.handles) (read-touch no_flag k e m);
}

pub SameHandles-trans :
    {m m' m'' : EdgeErrMap} → SameHandles m m' → SameHandles m' m'' → SameHandles m m''
SameHandles-trans a b = record { at = λ e. b.at e ∙ a.at e }

-- One edge, touched or updated.
SameHandles-either :
    (b : Bool) (k : Edge) (g : Flags) (m : EdgeErrMap)
    → SameHandles m
        (if b then touch no_flag k m else adjust no_flag k (λ f. update_return_flag f g) m)
SameHandles-either true k g m = SameHandles-touch k m
SameHandles-either false k g m = SameHandles-update k g m

pub SameHandles-unless :
    (b : Bool) (k : Edge) (m : EdgeErrMap) → SameHandles m (if b then m else touch no_flag k m)
SameHandles-unless true k m = SameHandles-refl m
SameHandles-unless false k m = SameHandles-touch k m

-- What a turn of a loop leaves.
abbrev pub Leaves : {I : Type 0} → EdgeErrMap → Turn EdgeErrMap I → Type 0
Leaves m (stop m') = SameHandles m m'
Leaves m (push m' new) = SameHandles m m'

module _ {I K : Type 0} ⦃eq : Eq K⦄ (key : I → K)
    (body : I → EdgeErrMap → Option (Turn EdgeErrMap I))
    (keeps : (i : I) (m : EdgeErrMap) (turn : Turn EdgeErrMap I)
      → body i m ≡ some turn
      → Leaves m turn) where
  frame_rule :
      (m : EdgeErrMap) → IsRule key body (λ seen queue s. SameHandles m s) (λ s. SameHandles m s)
  frame_rule m = record {
    passes = λ seen i queue s h v. v;
    pushes = λ seen i queue s s' new h e v. SameHandles-trans v (keeps i s (push s' new) e);
    returns = λ seen i queue s s' h e v. SameHandles-trans v (keeps i s (stop s') e);
    ends = λ seen s v. v;
  }

  pub loop-SameHandles :
      (fuel : ℕ) (queue : List I) (m r : EdgeErrMap)
      → loop key body fuel [] queue m ≡ some r
      → SameHandles m r
  loop-SameHandles fuel queue m r e =
      loop_rule key body (frame_rule m) fuel [] queue m r (SameHandles-refl m) e

module _ (ir : Ir) where
  mark_preds-SameHandles :
      (flag : Flags) (follow : ℕ → Bool) (bb : ℕ) (ps : List ℕ) (m : EdgeErrMap)
      → SameHandles m
          (mark_preds ir
            (λ f. same_half f.returns flag.returns)
            (λ f. update_return_flag f flag)
            follow
            bb
            ps
            m).0
  unfolding mark_preds
  mark_preds-SameHandles flag follow bb [] m = SameHandles-refl m
  mark_preds-SameHandles flag follow bb (p ∷ ps) m =
      SameHandles-trans (SameHandles-either _ (edge_of ir p bb) flag m)
        (mark_preds-SameHandles flag follow bb ps _)

  pub to_err_return-SameHandles :
      (fuel bb : ℕ) (flag : Flags) (m r : EdgeErrMap)
      → recur_mark_edges_to_err_return ir fuel bb flag m ≡ some r
      → SameHandles m r
  unfolding recur_mark_edges_to_err_return mark_body
  to_err_return-SameHandles fuel bb flag m r e =
      loop-SameHandles (λ b. b)
        (mark_body ir (λ f. same_half f.returns flag.returns) (λ f. update_return_flag f flag)
          (λ _. true))
        (λ i m turn h.
          subst (Leaves m) (some_inj h) (mark_preds-SameHandles flag (λ _. true) i (ir.preds i) m))
        fuel (bb ∷ []) m r e

  pub integrate-SameHandles :
      (e : Edge) (ps : List ℕ) (f : Flags) (m : EdgeErrMap)
      → SameHandles m (integrate ir e ps f m).1
  unfolding integrate
  integrate-SameHandles e [] f m = SameHandles-refl m
  integrate-SameHandles e (p ∷ ps) f m =
      SameHandles-trans (SameHandles-unless _ (edge_of ir p e.1) m) (integrate-SameHandles e ps _ _)

  pub spread-SameHandles :
      (tb : ℕ) (ss : List ℕ) (f : Flags) (m : EdgeErrMap) → SameHandles m (spread ir tb ss f m).0
  unfolding spread
  spread-SameHandles tb [] f m = SameHandles-refl m
  spread-SameHandles tb (s ∷ ss) f m =
      SameHandles-trans (SameHandles-either _ (edge_of ir tb s) f m) (spread-SameHandles tb ss f _)

  pub gather-SameHandles :
      (tb : ℕ) (ps : List ℕ) (m : EdgeErrMap) → SameHandles m (gather ir tb ps m).0
  unfolding gather
  gather-SameHandles tb [] m = SameHandles-refl m
  gather-SameHandles tb (p ∷ ps) m =
      SameHandles-trans (SameHandles-either _ (edge_of ir p tb) must_return_err m)
        (gather-SameHandles tb ps _)
