-- ===== src/CallGraph/InitRun.antt =====
-- doInitialization of CallGraph.cc over all modules.
use Prim.Native.String.{String}
use crix.Base.{
  ℕ, ◌≡◌, ◌≢◌, refl, sym, ap, ◌∙◌, Bool, true, false, ◌||◌, Option, some, ◌>>=◌, for_each, List, [],
  ◌==◌, has, nat_eq, Bool-cases, inl, inr, All, All-map, IsLoopRule, for_each_rule, subst,
  >>=-eq-some, some_inj, ==_iff, ==_refl,
}
use crix.Ir.Kinds.{instructions, null}
use crix.CallGraph.{Program}
use crix.CallGraph.Layers.{TypeMaps}
use crix.CallGraph.Graph.{
  Module, Graph, is_declaration, confine_instruction, confine_global, register_function,
  initialize_function, initialize_module,
}
use crix.CallGraph.InitLaws.{
  name_hash, sig_hash, IsUnified, IsUnified-same, register_function-IsUnified, is_sig_of,
  register_sig, register_calls, register_map,
}

or_true : (a : Bool) → (a || true) ≡ true
or_true true = refl
or_true false = refl

module _ (pg : Program) where
  -- What holds of the call graph before doModulePass.
  pub record IsInitialized (s : Graph) : Type 0 where
    pub unified : IsUnified pg s
    pub sound :
        (g h : ℕ)
        → has g (s.sig_funcs h) ≡ true
        → (pg.ir.address_taken g ≡ true) × (sig_hash pg g ≡ h) × (is_declaration pg g ≡ false)
    pub no_callees : (c : ℕ) → s.callees c ≡ []
    pub no_callers : (f : ℕ) → s.callers f ≡ []

  -- A function with a body has a copy, and is found by its signature if its address is taken.
  abbrev pub IsRegistered : ℕ → Graph → Type 0
  IsRegistered f s =
      is_declaration pg f ≡ false
      → (s.unified_func_map (name_hash pg f) ≢ null)
        × (pg.ir.address_taken f ≡ true → has f (s.sig_funcs (sig_hash pg f)) ≡ true)

  -- What later turns keep.
  abbrev KeepsFuncs : Graph → Graph → Type 0
  KeepsFuncs s t =
      ((g h : ℕ) → has g (s.sig_funcs h) ≡ true → has g (t.sig_funcs h) ≡ true)
      × ((h : ℕ) → s.unified_func_map h ≢ null → t.unified_func_map h ≢ null)

  with_maps-IsInitialized :
      (s : Graph) (maps : TypeMaps) → IsInitialized s → IsInitialized (record s { maps = maps })
  with_maps-IsInitialized s maps i = record {
    unified = IsUnified-same pg s (record s { maps = maps }) refl refl i.unified;
    sound = i.sound;
    no_callees = i.no_callees;
    no_callers = i.no_callers;
  }

  sig_of_sound :
      (f g h : ℕ)
      → is_declaration pg f ≡ false
      → is_sig_of pg f g h ≡ true
      → (pg.ir.address_taken g ≡ true) × (sig_hash pg g ≡ h) × (is_declaration pg g ≡ false)
  sig_of_sound f g h defined e = elim (Bool-cases (g == f)) [
    | inr other ↦ absurd (cc (rw other at e))
    | inl same ↦
        let q : g ≡ f = (==_iff g f).0 same in
        elim (Bool-cases (h == sig_hash pg f)) [
          | inr off ↦ absurd (cc (rw off at (rw same at e)))
          | inl on ↦
              let p : h ≡ sig_hash pg f = (==_iff h (sig_hash pg f)).0 on in
              rw q (rw on at (rw same at e), sym p, defined)
        ]
  ]

  register_function-IsInitialized :
      (f : ℕ) (s : Graph)
      → f ≢ null
      → is_declaration pg f ≡ false
      → IsInitialized s
      → IsInitialized (register_function pg f s)
  register_function-IsInitialized f s real defined i = record {
    unified = register_function-IsUnified pg f s real i.unified;
    sound = λ g h member. elim (Bool-cases (is_sig_of pg f g h)) [
      | inl new ↦ sig_of_sound f g h defined new
      | inr old ↦
          i.sound g h (
            sym (ap (λ b. b || has g (s.sig_funcs h)) old) ∙ sym (register_sig pg f s g h) ∙ member)
    ];
    no_callees = λ c. ap (λ m. m c) (register_calls pg f s).0 ∙ i.no_callees c;
    no_callers = λ g. ap (λ m. m g) (register_calls pg f s).1 ∙ i.no_callers g;
  }

  register_function-KeepsFuncs :
      (f : ℕ) (s : Graph) → f ≢ null → KeepsFuncs s (register_function pg f s)
  register_function-KeepsFuncs f s real = (
    (λ g h member. register_sig pg f s g h ∙ rw member (or_true (is_sig_of pg f g h))),
    (register_map pg f s real).0,
  )

  register_function-IsRegistered :
      (f : ℕ) (s : Graph) → f ≢ null → IsRegistered f (register_function pg f s)
  register_function-IsRegistered f s real defined = (
    (register_map pg f s real).1,
    λ taken.
        let new : is_sig_of pg f f (sig_hash pg f) ≡ true =
          rw (==_refl f) (rw (==_refl (sig_hash pg f)) taken) in
        register_sig pg f s f (sig_hash pg f)
        ∙ ap (λ b. b || has f (s.sig_funcs (sig_hash pg f))) new,
  )

  -- `null` is no function, so it has no body.
  module _ (names : ℕ → Option String) (fuel depth : ℕ)
      (no_body : is_declaration pg null ≡ true) where
    initialize_defined :
        (f : ℕ) (s : Graph)
        → is_declaration pg f ≡ false
        → initialize_function pg names depth f s ≡ (
            for_each (confine_instruction pg names depth) (instructions pg.ir f) s.maps >>= λ maps.
            some (register_function pg f (record s { maps = maps })))
    unfolding initialize_function
    initialize_defined f s defined = rw (defined, initialize_function) refl

    function_turn :
        (f : ℕ) (s t : Graph)
        → IsInitialized s
        → initialize_function pg names depth f s ≡ some t
        → IsInitialized t × KeepsFuncs s t × IsRegistered f t
    unfolding initialize_function
    function_turn f s t i e = elim (Bool-cases (is_declaration pg f)) [
      | inl declared ↦
          let q : s ≡ t = some_inj (rw (declared, initialize_function) at e) in
          subst (λ u. IsInitialized u × KeepsFuncs s u × IsRegistered f u) q
            (i, ((λ g h member. member), (λ h there. there)), (λ defined. absurd (cc)))
      | inr defined ↦
          let real : f ≢ null = λ nil. cc (rw nil at defined, no_body) in
          let (maps, confined, e') =
            >>=-eq-some
              (for_each (confine_instruction pg names depth) (instructions pg.ir f) s.maps)
              (λ maps. some (register_function pg f (record s { maps = maps })))
              (sym (initialize_defined f s defined) ∙ e) in
          let s' : Graph = record s { maps = maps } in
          subst (λ u. IsInitialized u × KeepsFuncs s u × IsRegistered f u) (some_inj e')
            (
              register_function-IsInitialized f s' real defined (with_maps-IsInitialized s maps i),
              register_function-KeepsFuncs f s' real,
              register_function-IsRegistered f s' real,
            )
    ]

    function_rule :
        IsLoopRule (initialize_function pg names depth) IsInitialized KeepsFuncs IsRegistered
    function_rule = record {
      starts = λ s. ((λ g h member. member), (λ h there. there));
      chains =
          λ s t u k l. ((λ g h member. l.0 g h (k.0 g h member)), (λ h there. l.1 h (k.1 h there)));
      stays = λ f s t k q defined. (
        k.1 (name_hash pg f) (q defined).0,
        (λ taken. k.0 f (sig_hash pg f) ((q defined).1 taken)),
      );
      turns = function_turn;
    }

    module_turn :
        (m : Module) (s t : Graph)
        → IsInitialized s
        → initialize_module pg names fuel depth m s ≡ some t
        → IsInitialized t × KeepsFuncs s t × All (λ f. IsRegistered f t) m.functions
    unfolding initialize_module
    module_turn m s t i e =
        let (maps, confined, e') =
          >>=-eq-some (for_each (confine_global pg names fuel) m.globals s.maps)
            (λ maps.
              for_each (initialize_function pg names depth) m.functions (record s { maps = maps }))
            e in
        for_each_rule (initialize_function pg names depth) IsInitialized KeepsFuncs IsRegistered
          function_rule m.functions (record s { maps = maps }) t (with_maps-IsInitialized s maps i)
          e'

    module_rule :
        IsLoopRule
          (initialize_module pg names fuel depth)
          IsInitialized
          KeepsFuncs
          (λ m s. All (λ f. IsRegistered f s) m.functions)
    module_rule = record {
      starts = function_rule.starts;
      chains = function_rule.chains;
      stays = λ m s t k q. All-map (λ f r. function_rule.stays f s t k r) m.functions q;
      turns = module_turn;
    }

    pub initialize_modules :
        (ms : List Module) (s t : Graph)
        → IsInitialized s
        → for_each (initialize_module pg names fuel depth) ms s ≡ some t
        → IsInitialized t × All (λ m. All (λ f. IsRegistered f t) m.functions) ms
    initialize_modules ms s t i e =
        let (after, keeps, all) =
          for_each_rule (initialize_module pg names fuel depth) IsInitialized KeepsFuncs
            (λ m s. All (λ f. IsRegistered f s) m.functions) module_rule ms s t i e in
        (after, all)
