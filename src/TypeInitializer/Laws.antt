-- ===== src/TypeInitializer/Laws.antt =====
-- The names that TypeInitializer.cc collects, and what it leaves in GlobalTypes.
use Prim.Native.String.{String}
use crix.Base.{
  ℕ, ◌≡◌, ◌↔◌, refl, sym, ap, ◌∙◌, Bool, true, false, not, ◌&&◌, some, for_each, for_each_inv, List,
  [], ◌∷◌, if◌then◌else◌, find, insert_new, find-insert_new, is_some, nat_eq, Bool-cases, inl, inr,
  ◌==◌, ==_iff, subst, some_inj, >>=-eq-some,
}
use crix.CallGraph.{Program, Shape}
use crix.CallGraph.Graph.{Module}
use crix.Ir.Kinds.{instructions, null}
use crix.TypeInitializer.{
  string_eq, TypeNames, has_no_name, name_global_of, name_struct, name_global, name_globals,
  strip_pointers, name_operand, name_instruction, name_function, initialize_types,
  build_type_struct_map,
}
use crix.TypeInitializer.Build.{KeysOnce, KeysOnce-insert_new, find-build}

and_left : (a b : Bool) → (a && b) ≡ true → a ≡ true
and_left true b h = refl
and_left false b h = h

and_right : (a b : Bool) → (a && b) ≡ true → b ≡ true
and_right true b h = h
and_right false b h = cc

-- Where the names in the two maps come from, for a program and the fuel of the peeling of pointers.
module _ (pg : Program) (fuel : ℕ) where
  -- A global variable of that name, of the type, which is a struct without a name.
  abbrev pub IsGlobalOf : ℕ → String → Type 0
  IsGlobalOf t v =
      (gv : ℕ) × (n : String) × (pg.value_type gv ≡ t)
      × (pg.ir.name gv ≡ v)
      × (pg.shape t ≡ Shape.structure n)
      × (has_no_name n ≡ true)

  -- A value of that name whose type, but for pointers, is the struct of the other name.
  abbrev pub IsValueOf : String → String → Type 0
  IsValueOf v n =
      (o t : ℕ) × (pg.ir.name o ≡ v)
      × (strip_pointers pg fuel (pg.type_of o) ≡ some t)
      × (pg.shape t ≡ Shape.structure n)
      × (has_no_name n ≡ false)

  pub record IsNamed (s : TypeNames) : Type 0 where
    pub once : KeysOnce s.type_value_map
    pub globals : (t : ℕ) (v : String) → find t s.type_value_map ≡ some v → IsGlobalOf t v
    pub values : (v n : String) → find v s.vname_to_typename_map ≡ some n → IsValueOf v n

  name_global_of-IsNamed :
      (gv : ℕ) (sh : Shape) (s : TypeNames)
      → pg.shape (pg.value_type gv) ≡ sh
      → IsNamed s
      → IsNamed (name_global_of pg gv sh s)
  unfolding name_global_of
  name_global_of-IsNamed gv (Shape.structure n) s e h =
      elim (Bool-cases (not (has_no_name (pg.ir.name gv)) && has_no_name n)) [
        | inr idle ↦ rw (idle, name_global_of) h
        | inl new ↦
            rw (new, name_global_of)
              (record {
                once =
                    KeysOnce-insert_new (pg.value_type gv) (pg.ir.name gv) s.type_value_map h.once;
                globals = λ t v q. inserted t v new q;
                values = h.values;
              })
      ]
    where
      inserted :
          (t : ℕ) (v : String)
          → (not (has_no_name (pg.ir.name gv)) && has_no_name n) ≡ true
          → find t (insert_new (pg.value_type gv) (pg.ir.name gv) s.type_value_map) ≡ some v
          → IsGlobalOf t v
      inserted t v new q =
          let cases = find-insert_new (pg.value_type gv) t (pg.ir.name gv) s.type_value_map in
          elim (Bool-cases
            (t == pg.value_type gv && not (is_some (find (pg.value_type gv) s.type_value_map)))) [
              | inr old ↦ h.globals t v (rw old at (sym cases ∙ q))
              | inl here ↦
                  let same : t ≡ pg.value_type gv =
                    (==_iff t (pg.value_type gv)).0 (and_left _ _ here) in
                  let name : pg.ir.name gv ≡ v = some_inj (rw here at (sym cases ∙ q)) in
                  (gv, n, sym same, name, ap pg.shape same ∙ e, and_right _ _ new)
            ]
  name_global_of-IsNamed gv _ s e h = h

  name_struct-IsNamed :
      (o t : ℕ) (sh : Shape) (s : TypeNames)
      → strip_pointers pg fuel (pg.type_of o) ≡ some t
      → pg.shape t ≡ sh
      → IsNamed s
      → IsNamed (name_struct pg o sh s)
  unfolding name_struct
  name_struct-IsNamed o t (Shape.structure n) s stripped e h = elim (Bool-cases (has_no_name n)) [
    | inl idle ↦ rw (idle, name_struct) h
    | inr new ↦
        rw (new, name_struct)
          (record { once = h.once; globals = h.globals; values = λ v m q. inserted v m new q })
  ]
    where
      inserted :
          (v m : String)
          → has_no_name n ≡ false
          → find v (insert_new (pg.ir.name o) n s.vname_to_typename_map) ≡ some m
          → IsValueOf v m
      inserted v m new q =
          let cases = find-insert_new (pg.ir.name o) v n s.vname_to_typename_map in
          elim (Bool-cases (
            string_eq.beq v (pg.ir.name o)
            && not (is_some (find (pg.ir.name o) s.vname_to_typename_map)))) [
              | inr old ↦ h.values v m (rw old at (sym cases ∙ q))
              | inl here ↦
                  let same : v ≡ pg.ir.name o =
                    (string_eq.beq_iff v (pg.ir.name o)).0 (and_left _ _ here) in
                  let name : n ≡ m = some_inj (rw here at (sym cases ∙ q)) in
                  (o, t, sym same, stripped, rw (← name) e, rw (← name) new)
            ]
  name_struct-IsNamed o t _ s stripped e h = h

  name_operand-IsNamed :
      (o : ℕ) (s s' : TypeNames) → IsNamed s → name_operand pg fuel o s ≡ some s' → IsNamed s'
  unfolding name_operand
  name_operand-IsNamed o s s' h e = elim (Bool-cases (o == null)) [
    | inl nil ↦ subst IsNamed (some_inj (rw (nil, name_operand) at e)) h
    | inr real ↦ elim (Bool-cases (has_no_name (pg.ir.name o))) [
      | inl blank ↦ subst IsNamed (some_inj (rw blank at (rw (real, name_operand) at e))) h
      | inr has_name ↦
          let (t, stripped, q) =
            >>=-eq-some (strip_pointers pg fuel (pg.type_of o))
              (λ t. some (if t == null then s else name_struct pg o (pg.shape t) s))
              (rw has_name at (rw (real, name_operand) at e)) in
          subst IsNamed (some_inj q) (elim (Bool-cases (t == null)) [
            | inl nil ↦ rw nil h
            | inr there ↦ rw there (name_struct-IsNamed o t (pg.shape t) s stripped refl h)
          ])
    ]
  ]

  name_globals-IsNamed :
      (gvs : List ℕ) (s : TypeNames) → IsNamed s → IsNamed (name_globals pg gvs s)
  unfolding name_globals name_global
  name_globals-IsNamed [] s h = h
  name_globals-IsNamed (gv ∷ gvs) s h =
      name_globals-IsNamed gvs (name_global pg gv s)
        (name_global_of-IsNamed gv (pg.shape (pg.value_type gv)) s refl h)

  name_function-IsNamed :
      (f : ℕ) (s s' : TypeNames) → IsNamed s → name_function pg fuel f s ≡ some s' → IsNamed s'
  unfolding name_function name_instruction
  name_function-IsNamed f s s' h e = elim (Bool-cases (pg.is_intrinsic f)) [
    | inl skipped ↦ subst IsNamed (some_inj (rw (skipped, name_function) at e)) h
    | inr walked ↦
        for_each_inv IsNamed (name_instruction pg fuel)
          (λ i t t' k q.
            for_each_inv IsNamed (name_operand pg fuel) name_operand-IsNamed (pg.ir.operands i) t t'
              k q)
          (instructions pg.ir f) s s' h (rw (walked, name_function) at e)
  ]

  initialize_types-IsNamed :
      (ms : List Module) (s s' : TypeNames)
      → IsNamed s
      → for_each (initialize_types pg fuel) ms s ≡ some s'
      → IsNamed s'
  unfolding initialize_types
  initialize_types-IsNamed ms s s' h e =
      for_each_inv IsNamed (initialize_types pg fuel)
        (λ m t t' k q.
          for_each_inv IsNamed (name_function pg fuel) name_function-IsNamed m.functions
            (name_globals pg m.globals t) t' (name_globals-IsNamed m.globals t k) q)
        ms s s' h e

  -- After doInitialization on all modules from empty maps: BuildTypeStructMap gives a type a name
  -- exactly when TypeValueMap has a variable name for the type and VnameToTypenameMap the other for
  -- that. Then the type is a struct without a name and the type of a global variable, and the name is
  -- that of the struct that some value with the variable's name has, or points to.
  pub build_type_struct_map_lem :
      (ms : List Module) (s : TypeNames) (t : ℕ) (n : String)
      → for_each
          (initialize_types pg fuel)
          ms
          (record { type_value_map = []; vname_to_typename_map = [] })
        ≡ some s
      → ((find t (build_type_struct_map s.type_value_map s.vname_to_typename_map []) ≡ some n) ↔ (
          (v : String) × (find t s.type_value_map ≡ some v)
          × (find v s.vname_to_typename_map ≡ some n)))
        × (find t (build_type_struct_map s.type_value_map s.vname_to_typename_map []) ≡ some n
            → (v : String) × IsGlobalOf t v × IsValueOf v n)
  unfolding find
  build_type_struct_map_lem ms s t n e =
      let h =
        initialize_types-IsNamed ms (record { type_value_map = []; vname_to_typename_map = [] }) s
          empty e in
      let built = find-build s.type_value_map s.vname_to_typename_map [] t h.once in
      let parts =
        λ (q : find t (build_type_struct_map s.type_value_map s.vname_to_typename_map []) ≡ some n).
          >>=-eq-some (find t s.type_value_map) (λ v. find v s.vname_to_typename_map)
            (sym built ∙ q) in
      (
        (parts, λ (v, e₁, e₂). built ∙ rw e₁ e₂),
        λ q. let (v, e₁, e₂) = parts q in (v, h.globals t v e₁, h.values v n e₂),
      )
    where
      empty : IsNamed (record { type_value_map = []; vname_to_typename_map = [] })
      empty = record { once = tt; globals = λ t v q. absurd (cc); values = λ v n q. absurd (cc) }
