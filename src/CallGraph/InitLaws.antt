-- ===== src/CallGraph/InitLaws.antt =====
-- What doInitialization of CallGraph.cc leaves: one copy of each function, and the address-taken
-- functions by the hash of their signature.
use crix.Base.{
  ℕ, ◌≡◌, ◌≢◌, refl, sym, ap, ◌∙◌, Bool, true, false, ◌&&◌, ◌||◌, if◌then◌else◌, ◌==◌, has, insert,
  has-insert, has-insert_at, nat_eq, arith, Bool-cases, inl, inr, ◌⊎◌, ==_iff, ==_refl,
}
use crix.Ir.Kinds.{null}
use crix.CallGraph.{Program}
use crix.CallGraph.Hashes.{func_hash}
use crix.CallGraph.Graph.{
  Graph, collect_address_taken, collect_global, unify_function, register_function,
}

or_twice : (a b : Bool) → (a || (a || b)) ≡ (a || b)
or_twice true b = refl
or_twice false b = refl

module _ (pg : Program) where
  abbrev pub name_hash : ℕ → ℕ
  name_hash f = func_hash pg f true

  abbrev pub sig_hash : ℕ → ℕ
  sig_hash f = func_hash pg f false

  -- UnifiedFuncMap and UnifiedFuncSet: the set holds, for each hash that the map has, the function
  -- that it is mapped to, whose hash that is, and no other function.
  pub record IsUnified (s : Graph) : Type 0 where
    pub mapped :
        (h : ℕ)
        → s.unified_func_map h ≢ null
        → (name_hash (s.unified_func_map h) ≡ h)
          × (has (s.unified_func_map h) s.unified_func_set ≡ true)
    pub single :
        (f : ℕ)
        → has f s.unified_func_set ≡ true
        → (s.unified_func_map (name_hash f) ≡ f) × (f ≢ null)

  unify_mapped :
      (f : ℕ) (s : Graph)
      → f ≢ null
      → IsUnified s
      → (h : ℕ) → (if h == name_hash f then f else s.unified_func_map h) ≢ null
      → (name_hash (if h == name_hash f then f else s.unified_func_map h) ≡ h)
        × (has (if h == name_hash f then f else s.unified_func_map h) (insert f s.unified_func_set)
            ≡ true)
  unify_mapped f s real u h there = elim (Bool-cases (h == name_hash f)) [
    | inl same ↦
        let e : h ≡ name_hash f = (==_iff h (name_hash f)).0 same in
        rw same (sym e, ground (arith, has-insert f f s.unified_func_set))
    | inr other ↦
        let (hash, member) = u.mapped h (rw other at there) in
        rw other (hash, ground (arith, has-insert (s.unified_func_map h) f s.unified_func_set))
  ]

  unify_single :
      (f : ℕ) (s : Graph)
      → f ≢ null
      → s.unified_func_map (name_hash f) ≡ null
      → IsUnified s
      → (g : ℕ) → has g (insert f s.unified_func_set) ≡ true
      → ((if name_hash g == name_hash f then f else s.unified_func_map (name_hash g)) ≡ g)
        × (g ≢ null)
  unify_single f s real free u g member = elim (Bool-cases (g == f)) [
    | inl same ↦
        let e : g ≡ f = (==_iff g f).0 same in rw e (rw (==_refl (name_hash f)) (refl, real))
    | inr other ↦
        let old : has g s.unified_func_set ≡ true =
          ground (arith, has-insert g f s.unified_func_set) in
        let (mapped, real_g) = u.single g old in
        elim (Bool-cases (name_hash g == name_hash f)) [
          | inl clash ↦
              let e : name_hash g ≡ name_hash f = (==_iff (name_hash g) (name_hash f)).0 clash in
              absurd (real_g (sym mapped ∙ ap s.unified_func_map e ∙ free))
          | inr apart ↦ rw apart (mapped, real_g)
        ]
  ]

  unify_function-IsUnified :
      (f : ℕ) (s : Graph) → f ≢ null → IsUnified s → IsUnified (unify_function pg f s)
  unfolding unify_function
  unify_function-IsUnified f s real u =
      elim (Bool-cases (s.unified_func_map (name_hash f) == null)) [
        | inl free ↦
            let e = (==_iff (s.unified_func_map (name_hash f)) null).0 free in
            rw (free, unify_function)
              (record { mapped = unify_mapped f s real u; single = unify_single f s real e u })
        | inr taken ↦ rw (taken, unify_function) u
      ]

  pub IsUnified-same :
      (s t : Graph)
      → t.unified_func_map ≡ s.unified_func_map
      → t.unified_func_set ≡ s.unified_func_set
      → IsUnified s
      → IsUnified t
  IsUnified-same s t e q u = record {
    mapped = λ h there.
        let same : t.unified_func_map h ≡ s.unified_func_map h = ap (λ m. m h) e in
        let (hash, member) = u.mapped h (λ nil. there (same ∙ nil)) in
        (ap name_hash same ∙ hash, rw same (rw q member));
    single = λ f member.
        let (mapped, real) = u.single f (rw q at member) in
        (ap (λ m. m (name_hash f)) e ∙ mapped, real);
  }

  -- The other steps of the loop leave the copies alone.
  collect_keeps :
      (f : ℕ) (s : Graph)
      → ((collect_global pg f (collect_address_taken pg f s)).unified_func_map ≡ s.unified_func_map)
        × ((collect_global pg f (collect_address_taken pg f s)).unified_func_set
            ≡ s.unified_func_set)
  unfolding collect_address_taken collect_global
  collect_keeps f s = ground arith

  collect_global-sig : (f : ℕ) (s : Graph) → (collect_global pg f s).sig_funcs ≡ s.sig_funcs
  unfolding collect_global
  collect_global-sig f s = ground arith

  pub register_function-IsUnified :
      (f : ℕ) (s : Graph) → f ≢ null → IsUnified s → IsUnified (register_function pg f s)
  unfolding register_function
  register_function-IsUnified f s real u =
      let collected = collect_global pg f (collect_address_taken pg f s) in
      let (same_map, same_set) = collect_keeps f s in
      unify_function-IsUnified f collected real (IsUnified-same s collected same_map same_set u)

  abbrev pub is_sig_of : ℕ → ℕ → ℕ → Bool
  is_sig_of f g h = g == f && (h == sig_hash f && pg.ir.address_taken f)

  collect_sig :
      (f : ℕ) (s : Graph) (g h : ℕ)
      → has g ((collect_address_taken pg f s).sig_funcs h)
        ≡ (is_sig_of f g h || has g (s.sig_funcs h))
  unfolding collect_address_taken
  collect_sig f s g h = elim (Bool-cases (pg.ir.address_taken f)) [
    | inl taken ↦ rw taken (ground (arith, has-insert_at g (sig_hash f) f s.sig_funcs h))
    | inr not_taken ↦ rw not_taken (ground arith)
  ]

  unify_sig :
      (f : ℕ) (s : Graph) (g h : ℕ)
      → (has g ((unify_function pg f s).sig_funcs h) ≡ has g (s.sig_funcs h))
        ⊎ (has g ((unify_function pg f s).sig_funcs h) ≡ (is_sig_of f g h || has g (s.sig_funcs h)))
  unfolding unify_function
  unify_sig f s g h = elim (Bool-cases (s.unified_func_map (name_hash f) == null)) [
    | inr taken ↦ inl (rw (taken, unify_function) refl)
    | inl free ↦ elim (Bool-cases (pg.ir.address_taken f)) [
      | inr not_taken ↦ inl (rw (free, unify_function) (rw not_taken refl))
      | inl taken ↦ inr (
          rw (free, unify_function)
            (rw taken (ground (arith, has-insert_at g (sig_hash f) f s.sig_funcs h))))
    ]
  ]

  -- The functions by signature are address-taken functions that were registered.
  pub register_sig :
      (f : ℕ) (s : Graph) (g h : ℕ)
      → has g ((register_function pg f s).sig_funcs h)
        ≡ ((g == f && (h == sig_hash f && pg.ir.address_taken f)) || has g (s.sig_funcs h))
  unfolding register_function
  register_sig f s g h =
      let collected = collect_global pg f (collect_address_taken pg f s) in
      let before : has g (collected.sig_funcs h) ≡ (is_sig_of f g h || has g (s.sig_funcs h)) =
        ap (λ m. has g (m h)) (collect_global-sig f (collect_address_taken pg f s))
        ∙ collect_sig f s g h in
      elim (unify_sig f collected g h) [
        | inl same ↦ same ∙ before
        | inr more ↦
            more
            ∙ ap (λ b. is_sig_of f g h || b) before
            ∙ or_twice (is_sig_of f g h) (has g (s.sig_funcs h))
      ]

  pub register_calls :
      (f : ℕ) (s : Graph)
      → ((register_function pg f s).callees ≡ s.callees)
        × ((register_function pg f s).callers ≡ s.callers)
  unfolding register_function collect_address_taken collect_global unify_function
  register_calls f s = ground arith

  unify_map :
      (f : ℕ) (s : Graph)
      → f ≢ null
      → ((h : ℕ) → s.unified_func_map h ≢ null → (unify_function pg f s).unified_func_map h ≢ null)
        × ((unify_function pg f s).unified_func_map (name_hash f) ≢ null)
  unfolding unify_function
  unify_map f s real = elim (Bool-cases (s.unified_func_map (name_hash f) == null)) [
    | inr taken ↦
        rw (taken, unify_function)
          (
            (λ h there. there),
            (λ nil. absurd (cc (taken, (==_iff (s.unified_func_map (name_hash f)) null).1 nil))),
          )
    | inl free ↦
        rw (free, unify_function)
          (
            (λ h there. elim (Bool-cases (h == name_hash f)) [
              | inl same ↦ rw same real
              | inr other ↦ rw other there
            ]),
            rw (==_refl (name_hash f)) real,
          )
  ]

  -- A function that is registered has a copy, and no copy is given up.
  pub register_map :
      (f : ℕ) (s : Graph)
      → f ≢ null
      → ((h : ℕ)
          → s.unified_func_map h ≢ null
          → (register_function pg f s).unified_func_map h ≢ null)
        × ((register_function pg f s).unified_func_map (name_hash f) ≢ null)
  unfolding register_function
  register_map f s real =
      let collected = collect_global pg f (collect_address_taken pg f s) in
      let same : collected.unified_func_map ≡ s.unified_func_map = (collect_keeps f s).0 in
      let (kept, there) = unify_map f collected real in
      ((λ h old. kept h (λ nil. old (sym (ap (λ m. m h) same) ∙ nil))), there)
