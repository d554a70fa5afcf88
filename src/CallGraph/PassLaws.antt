-- ===== src/CallGraph/PassLaws.antt =====
-- doModulePass of CallGraph.cc keeps Callers and Callees converse, and leaves at every call the
-- callees that are found for it.
use Prim.Native.String.{String}
use crix.Base.{
  ℕ, ◌≡◌, refl, sym, ap, ◌∙◌, false, ◌&&◌, ◌||◌, Option, some, List, [], ◌∷◌, ◌==◌, has,
  has-insert_at, insert_at, nat_eq, arith, Bool-cases, Option-cases, inl, inr, ◌⊎◌, subst,
  >>=-eq-some, some_inj, ==_iff, ==_refl, ◌≢◌,
}
use crix.Ir.{Node}
use crix.CallGraph.{Program}
use crix.CallGraph.Graph.{Graph}
use crix.CallGraph.Pass.{
  add_callers, resolve, direct_callees, callees_of, record_call, pass_node, pass_instruction,
}

has-add_callers :
    (ci c f : ℕ) (fs : List ℕ) (callers : ℕ → List ℕ)
    → has c (add_callers ci fs callers f) ≡ ((c == ci && has f fs) || has c (callers f))
unfolding add_callers
has-add_callers ci c f [] callers = ground arith
has-add_callers ci c f (g ∷ fs) callers =
    ground
      (arith, has-add_callers ci c f fs (insert_at g ci callers), has-insert_at c g ci callers f)

module _ (pg : Program) (names : ℕ → Option String) (fuel depth : ℕ) where
  -- Two states from which the callees of every call are found alike.
  pub record SameSources (s t : Graph) : Type 0 where
    pub same_callees :
        (ci called : ℕ)
        → callees_of pg names fuel depth t ci called ≡ callees_of pg names fuel depth s ci called
    pub same_set : t.unified_func_set ≡ s.unified_func_set

  -- What holds from the state `s`, in which doModulePass begins, on.
  pub record IsConverse (s t : Graph) : Type 0 where
    pub sources : SameSources s t
    pub dual : (ci f : ℕ) → has ci (t.callers f) ≡ has f (t.callees ci)
    pub own :
        (ci : ℕ)
        → (t.callees ci ≡ [])
          ⊎ ((called : ℕ) × (args : List ℕ) × (pg.ir.node ci ≡ Node.call called args)
              × (callees_of pg names fuel depth s ci called ≡ some (t.callees ci)))

  record_call-SameSources :
      (ci : ℕ) (fs : List ℕ) (t : Graph) (c called : ℕ)
      → callees_of pg names fuel depth (record_call pg ci fs t) c called
        ≡ callees_of pg names fuel depth t c called
  unfolding record_call callees_of direct_callees resolve
  record_call-SameSources ci fs t c called = elim (Option-cases (pg.ir.called_function c)) [
    | inl e ↦ rw e refl
    | inr (cf, e) ↦ rw e refl
  ]

  -- What is found for a call anew is what is there, if anything is.
  own_again :
      (s t : Graph) (ci called : ℕ) (args fs : List ℕ)
      → pg.ir.node ci ≡ Node.call called args
      → callees_of pg names fuel depth s ci called ≡ some fs
      → IsConverse s t
      → (t.callees ci ≡ []) ⊎ (t.callees ci ≡ fs)
  own_again s t ci called args fs is_call found h = elim (h.own ci) [
    | inl nil ↦ inl nil
    | inr (called', args', is_call', found') ↦
        let same : called' ≡ called = cc in inr (some_inj (sym (rw same at found') ∙ found))
  ]

  record_call_dual :
      (ci : ℕ) (fs : List ℕ) (t : Graph) (c f : ℕ)
      → ((c f : ℕ) → has c (t.callers f) ≡ has f (t.callees c))
      → (t.callees ci ≡ []) ⊎ (t.callees ci ≡ fs)
      → has c ((record_call pg ci fs t).callers f) ≡ has f ((record_call pg ci fs t).callees c)
  unfolding record_call
  record_call_dual ci fs t c f dual before = elim (Bool-cases (c == ci)) [
    | inl same ↦
        let e : c ≡ ci = (==_iff c ci).0 same in
        let was : has c (t.callers f) ≡ has f (t.callees ci) =
          dual c f ∙ ap (λ x. has f (t.callees x)) e in
        elim before [
          | inl nil ↦
              let gone : has c (t.callers f) ≡ false = was ∙ ap (has f) nil in
              rw same (ground (arith, has-add_callers ci c f fs t.callers))
          | inr there ↦
              let again : has c (t.callers f) ≡ has f fs = was ∙ ap (has f) there in
              rw same (ground (arith, has-add_callers ci c f fs t.callers))
        ]
    | inr other ↦ rw other (ground (arith, has-add_callers ci c f fs t.callers, dual c f))
  ]

  record_call_own :
      (s t : Graph) (ci called : ℕ) (args fs : List ℕ)
      → pg.ir.node ci ≡ Node.call called args
      → callees_of pg names fuel depth s ci called ≡ some fs
      → IsConverse s t
      → (c : ℕ)
      → ((record_call pg ci fs t).callees c ≡ [])
        ⊎ ((called : ℕ) × (args : List ℕ) × (pg.ir.node c ≡ Node.call called args)
            × (callees_of pg names fuel depth s c called
                ≡ some ((record_call pg ci fs t).callees c)))
  unfolding record_call
  record_call_own s t ci called args fs is_call found h c = elim (Bool-cases (c == ci)) [
    | inl same ↦
        let e : c ≡ ci = (==_iff c ci).0 same in
        rw same (inr (called, args, rw e is_call, rw e found))
    | inr other ↦ rw other (h.own c)
  ]

  record_call-IsConverse :
      (s t : Graph) (ci called : ℕ) (args fs : List ℕ)
      → pg.ir.node ci ≡ Node.call called args
      → callees_of pg names fuel depth t ci called ≡ some fs
      → IsConverse s t
      → IsConverse s (record_call pg ci fs t)
  unfolding record_call
  record_call-IsConverse s t ci called args fs is_call found h =
      let first = sym (h.sources.same_callees ci called) ∙ found in
      record {
        sources = record {
          same_callees = λ c v. record_call-SameSources ci fs t c v ∙ h.sources.same_callees c v;
          same_set = h.sources.same_set;
        };
        dual = λ c f.
            record_call_dual ci fs t c f h.dual (own_again s t ci called args fs is_call first h);
        own = record_call_own s t ci called args fs is_call first h;
      }

  -- An instruction that is a call has the callees that are found for it.
  abbrev pub IsFound : Graph → ℕ → Graph → Type 0
  IsFound s ci t =
      (called : ℕ) (args : List ℕ)
      → pg.ir.node ci ≡ Node.call called args
      → callees_of pg names fuel depth s ci called ≡ some (t.callees ci)

  record_call-IsFound :
      (s t : Graph) (ci called : ℕ) (args fs : List ℕ)
      → pg.ir.node ci ≡ Node.call called args
      → callees_of pg names fuel depth s ci called ≡ some fs
      → IsFound s ci (record_call pg ci fs t)
  unfolding record_call
  record_call-IsFound s t ci called args fs is_call found called' args' is_call' =
      let same : called' ≡ called = cc in rw same (rw (==_refl ci) found)

  record_call_keeps :
      (s t : Graph) (ci called : ℕ) (args fs : List ℕ)
      → pg.ir.node ci ≡ Node.call called args
      → callees_of pg names fuel depth s ci called ≡ some fs
      → (c : ℕ) → IsFound s c t
      → IsFound s c (record_call pg ci fs t)
  unfolding record_call
  record_call_keeps s t ci called args fs is_call found c before called' args' is_call' =
      elim (Bool-cases (c == ci)) [
        | inl same ↦
            let e : c ≡ ci = (==_iff c ci).0 same in
            let same_callee : called' ≡ called = cc (is_call, rw e at is_call') in
            rw same (rw same_callee (rw e found))
        | inr other ↦ rw other (before called' args' is_call')
      ]

  pass_call :
      (i called : ℕ) (args : List ℕ) (t u : Graph)
      → pg.ir.node i ≡ Node.call called args
      → pass_instruction pg names fuel depth i t ≡ some u
      → (fs : List ℕ) × (callees_of pg names fuel depth t i called ≡ some fs)
        × (record_call pg i fs t ≡ u)
  unfolding pass_instruction pass_node
  pass_call i called args t u is_call e =
      let (fs, found, done) =
        >>=-eq-some (callees_of pg names fuel depth t i called) (λ fs. some (record_call pg i fs t))
          (rw is_call at e) in
      (fs, found, some_inj done)

  pass_node_cases :
      (i : ℕ) (n : Node) (s : Graph)
      → ((called : ℕ) × (args : List ℕ) × (n ≡ Node.call called args))
        ⊎ ((pass_node pg names fuel depth i n s ≡ some s)
            × ((called : ℕ) (args : List ℕ) → n ≢ Node.call called args))
  unfolding pass_node
  pass_node_cases i (Node.call called args) s = inl (called, args, refl)
  pass_node_cases i _ s = inr (refl, λ called args e. cc)

  pub pass_instruction-IsConverse :
      (s : Graph) (i : ℕ) (t u : Graph)
      → IsConverse s t
      → pass_instruction pg names fuel depth i t ≡ some u
      → IsConverse s u × IsFound s i u × ((c : ℕ) → IsFound s c t → IsFound s c u)
  unfolding pass_instruction
  pass_instruction-IsConverse s i t u h e = elim (pass_node_cases i (pg.ir.node i) t) [
    | inr (idle, no_call) ↦
        let q : t ≡ u = some_inj (sym idle ∙ e) in
        subst (λ v. IsConverse s v × IsFound s i v × ((c : ℕ) → IsFound s c t → IsFound s c v)) q
          (h, (λ called args is_call. absurd (no_call called args is_call)), λ c found. found)
    | inl (called, args, is_call) ↦
        let (fs, found, e') = pass_call i called args t u is_call e in
        let first = sym (h.sources.same_callees i called) ∙ found in
        subst (λ v. IsConverse s v × IsFound s i v × ((c : ℕ) → IsFound s c t → IsFound s c v)) e'
          (
            record_call-IsConverse s t i called args fs is_call found h,
            record_call-IsFound s t i called args fs is_call first,
            record_call_keeps s t i called args fs is_call first,
          )
  ]
