-- ===== src/SecurityChecks/Handled.antt =====
-- markAllEdgesErrFlag and the handle flags: Must_Handle_Err stands on the edges from which control
-- runs into an error-handling block without a branch, and on no other.
use mathlib.Core.List.Memᴰ
use crix.Base.{
  ℕ, ◌≡◌, refl, sym, ap, Bool, true, false, ◌⊎◌, inl, inr, ◌↔◌, some, List, [], ◌∷◌, Memᴰ, arith,
  nat_eq, pair_eq, ltb, length, if◌then◌else◌, for_each, >>=-eq-some, subst, some_inj, is_some,
  find, Bool-cases, Memᴰ-cons,
}
use crix.Ir.{Ir, IsCfg}
use crix.SecurityChecks.Flags.{Flags, Half, any, no_flag, must_handle_err, update_handle_flag}
use crix.SecurityChecks.Edges.{
  Edge, EdgeErrMap, BbErrMap, edge_flags, bb_flags, edge_of, recur_mark_edges_to_err_handle,
}
use crix.SecurityChecks.Propagate.{mark_block, mark_all_edges_err_flag}
use crix.SecurityChecks.Marking.{
  EntersTo, IsClosedMap, IsMarked, mark-IsMarked, IsMarked-IsClosedMap, IsMarked-complete,
}
use crix.SecurityChecks.Frames.{SameHandles}
use crix.SecurityChecks.ReturnFrames.{mark_returning-SameHandles}

abbrev pub handled : Flags → Bool
handled f = f.handles.must

pub handle-settles : (f : Flags) → handled (update_handle_flag f must_handle_err) ≡ true
unfolding update_handle_flag
handle-settles f = ground arith

-- The source of an edge is followed backwards unless it branches.
abbrev pub follows : Ir → ℕ → Bool
follows ir p = if ltb 1 (length (ir.succs p)) then false else true

module _ (ir : Ir) (cfg : IsCfg ir) where
  abbrev pub Handled : EdgeErrMap → Edge → Type 0
  Handled m e = (edge_flags e m).handles.must ≡ true

  abbrev Closed : EdgeErrMap → Type 0
  Closed m =
      IsClosedMap ir handled (λ f. update_handle_flag f must_handle_err) (follows ir) handle-settles
        cfg 0 m

  -- `Done bbs done m`: the map after the blocks `done`.
  record IsHandled (bbs : BbErrMap) (done : List ℕ) (m : EdgeErrMap) : Type 0 where
    sound :
        (e : Edge)
        → Handled m e
        → (b : ℕ) × Memᴰ b done
          × ((bb_flags b bbs).handles.must ≡ true)
          × EntersTo ir (follows ir) b e
    complete :
        (b : ℕ)
        → Memᴰ b done
        → (bb_flags b bbs).handles.must ≡ true
        → (e : Edge) → EntersTo ir (follows ir) b e
        → Handled m e
    closed : Closed m

  IsHandled-SameHandles :
      (bbs : BbErrMap) (done : List ℕ) (m m' : EdgeErrMap)
      → SameHandles m m'
      → IsHandled bbs done m
      → IsHandled bbs done m'
  IsHandled-SameHandles bbs done m m' same v = record {
    sound = λ e h. v.sound e (back e h);
    complete = λ b i h e l. on e (v.complete b i h e l);
    closed = λ t p i f h q j. on (edge_of ir q p) (v.closed t p i f (back (edge_of ir p t) h) q j);
  }
    where
      back : (e : Edge) → Handled m' e → Handled m e
      back e h = rw (← ap (λ (x : Half). x.must) (same.at e)) h

      on : (e : Edge) → Handled m e → Handled m' e
      on e h = rw (ap (λ (x : Half). x.must) (same.at e)) h

  -- One more block without Must_Handle_Err.
  IsHandled-skip :
      (bbs : BbErrMap) (done : List ℕ) (b : ℕ) (m : EdgeErrMap)
      → (bb_flags b bbs).handles.must ≡ false
      → IsHandled bbs done m
      → IsHandled bbs (b ∷ done) m
  IsHandled-skip bbs done b m off v = record {
    sound = λ e h. let (x, i, k, l) = v.sound e h in (x, Memᴰ.tail i, k, l);
    complete = λ x i h e l. elim ((Memᴰ-cons x b done).0 i) [
      | inl q ↦ let k : (bb_flags x bbs).handles.must ≡ false = rw q off in cc
      | inr j ↦ v.complete x j h e l
    ];
    closed = v.closed;
  }

  IsHandled-mark :
      (bbs : BbErrMap) (done : List ℕ) (b : ℕ) (m m' : EdgeErrMap)
      → (bb_flags b bbs).handles.must ≡ true
      → IsMarked ir handled
          (λ f. update_handle_flag f must_handle_err)
          (follows ir)
          handle-settles
          cfg
          b
          m
          m'
      → IsHandled bbs done m
      → IsHandled bbs (b ∷ done) m'
  IsHandled-mark bbs done b m m' on k v = record {
    sound = λ e h. elim (k.value e) [
      | inl same ↦ let (x, i, w, l) = v.sound e (rw (← ap handled same) h) in (x, Memᴰ.tail i, w, l)
      | inr (_, _, l) ↦ (b, Memᴰ.head refl, on, l)
    ];
    complete = λ x i h e l. elim ((Memᴰ-cons x b done).0 i) [
      | inl q ↦ new e (subst (λ y. EntersTo ir (follows ir) y e) q l)
      | inr j ↦ kept e (v.complete x j h e l)
    ];
    closed =
        IsMarked-IsClosedMap ir handled (λ f. update_handle_flag f must_handle_err) (follows ir)
          handle-settles cfg b m m' v.closed k;
  }
    where
      kept : (e : Edge) → Handled m e → Handled m' e
      kept e h = elim (k.value e) [ inl same ↦ rw same h | inr (o, _, _) ↦ cc ]

      new : (e : Edge) → EntersTo ir (follows ir) b e → Handled m' e
      new e (t, p, l, i, q) = subst (Handled m') (sym q) (
          IsMarked-complete ir handled (λ f. update_handle_flag f must_handle_err) (follows ir)
            handle-settles cfg b m m' v.closed k l p i)

  mark_block-IsHandled :
      (fuel : ℕ) (bbs : BbErrMap) (done : List ℕ) (b : ℕ) (m r : EdgeErrMap)
      → IsHandled bbs done m
      → mark_block ir fuel bbs b m ≡ some r
      → IsHandled bbs (b ∷ done) r
  unfolding mark_block recur_mark_edges_to_err_handle
  mark_block-IsHandled fuel bbs done b m r v h = elim (Bool-cases (is_some (find b bbs))) [
    | inr absent ↦
        subst (IsHandled bbs (b ∷ done)) (some_inj (rw absent at h))
          (IsHandled-skip bbs done b m (ground arith) v)
    | inl present ↦
        let (m', e₁, e₂) = >>=-eq-some _ _ (rw present at h) in
        let first : IsHandled bbs (b ∷ done) m' = handling m' e₁ in
        elim (Bool-cases (any (bb_flags b bbs).returns)) [
          | inr off ↦ subst (IsHandled bbs (b ∷ done)) (some_inj (rw off at e₂)) first
          | inl on ↦
              IsHandled-SameHandles bbs (b ∷ done) m' r
                (mark_returning-SameHandles ir fuel b (bb_flags b bbs) bbs m' r (rw on at e₂)) first
        ]
  ]
    where
      handling :
          (m' : EdgeErrMap)
          → (if (bb_flags b bbs).handles.must
              then recur_mark_edges_to_err_handle ir fuel b m
              else some m)
            ≡ some m'
          → IsHandled bbs (b ∷ done) m'
      handling m' e = elim (Bool-cases (bb_flags b bbs).handles.must) [
        | inl on ↦
            IsHandled-mark bbs done b m m' on
              (mark-IsMarked ir handled (λ f. update_handle_flag f must_handle_err) (follows ir)
                handle-settles cfg b fuel m m' (rw on at e))
              v
        | inr off ↦
            subst (IsHandled bbs (b ∷ done)) (some_inj (rw off at e))
              (IsHandled-skip bbs done b m off v)
      ]

  blocks-IsHandled :
      (fuel : ℕ) (bbs : BbErrMap) (bs done : List ℕ) (m r : EdgeErrMap)
      → IsHandled bbs done m
      → for_each (mark_block ir fuel bbs) bs m ≡ some r
      → (all : List ℕ) × IsHandled bbs all r × ((b : ℕ) → Memᴰ b all ↔ (Memᴰ b bs ⊎ Memᴰ b done))
  blocks-IsHandled fuel bbs [] done m r v h = (
    done,
    subst (IsHandled bbs done) (some_inj h) v,
    λ b. (inr, λ o. elim o [ inl i ↦ absurd (Memᴰ.not-nil i) | inr i ↦ i ]),
  )
  blocks-IsHandled fuel bbs (b ∷ bs) done m r v h =
      let (m', e₁, e₂) = >>=-eq-some (mark_block ir fuel bbs b m) _ h in
      let (all, w, iff) =
        blocks-IsHandled fuel bbs bs (b ∷ done) m' r
          (mark_block-IsHandled fuel bbs done b m m' v e₁) e₂ in
      (all, w, λ x. ground (arith, iff x, Memᴰ-cons x b bs, Memᴰ-cons x b done))

  start-IsHandled : (bbs : BbErrMap) → IsHandled bbs [] []
  unfolding find
  start-IsHandled bbs = record {
    sound = λ e h. cc;
    complete = λ b i h e l. absurd (Memᴰ.not-nil i);
    closed = λ t p i f h q j. cc;
  }

  -- Of a function whose blocks the run has marked, from a map without edges, an edge has
  -- Must_Handle_Err exactly when some block of the function with Must_Handle_Err is entered over
  -- it: it leads into that block, or into one from which control can only run on towards it,
  -- through blocks that do not branch.
  pub mark_all_edges-handled_iff :
      (fuel function : ℕ) (bbs : BbErrMap) (r : EdgeErrMap) (e : Edge)
      → mark_all_edges_err_flag ir fuel function bbs [] ≡ some r
      → ((edge_flags e r).handles.must ≡ true) ↔ (
          (b : ℕ) × Memᴰ b (ir.blocks function)
          × ((bb_flags b bbs).handles.must ≡ true)
          × EntersTo ir (follows ir) b e)
  unfolding mark_all_edges_err_flag find
  mark_all_edges-handled_iff fuel function [] r e h =
      let none_there : edge_flags e r ≡ no_flag = rw (← some_inj h) refl in
      (λ k. cc, λ (b, i, k, l). cc)
  mark_all_edges-handled_iff fuel function (x ∷ bbs) r e h =
      let (all, v, iff) =
        blocks-IsHandled fuel (x ∷ bbs) (ir.blocks function) [] [] r (start-IsHandled (x ∷ bbs))
          h in
      (
        λ k. let (b, i, on, l) = v.sound e k in (b, from_all b (iff b) i, on, l),
        λ (b, i, on, l). v.complete b ((iff b).1 (inl i)) on e l,
      )
    where
      from_all :
          {all : List ℕ} (b : ℕ)
          → (Memᴰ b all ↔ (Memᴰ b (ir.blocks function) ⊎ Memᴰ b []))
          → Memᴰ b all
          → Memᴰ b (ir.blocks function)
      from_all b iff i = elim (iff.0 i) [ inl j ↦ j | inr j ↦ absurd (Memᴰ.not-nil j) ]
