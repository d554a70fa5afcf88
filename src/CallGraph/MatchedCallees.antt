-- ===== src/CallGraph/MatchedCallees.antt =====
-- The callees that findCalleesWithType finds.
use mathlib.Core.List.Memᴰ
use crix.Base.{
  ℕ, ◌≡◌, refl, sym, ap, ◌∙◌, Bool, true, false, ◌&&◌, not, Option, none, some, List, [], ◌∷◌, ◌==◌,
  ==_iff, nat_eq, Option-cases, Bool-cases, inl, inr, ◌↔◌, ◌⊎◌, subst, some_inj, >>=-eq-some, arith,
  has, insert, has-insert, length, Memᴰ, Memᴰ-cons, ◌≢◌,
}
use crix.Ir.{Node}
use crix.CallGraph.{Program}
use crix.CallGraph.Graph.{Graph}
use crix.CallGraph.Matching.{
  Match, strip_both, types_match, match_args, add_if_matched, add_matched, find_callees_with_type,
}
use crix.CallGraph.MatchingLaws.{Alike, IsLayout, strip_both_iff}

module _ (pg : Program) (fuel : ℕ) (layout : IsLayout pg) where
  -- A function takes what a call passes.
  abbrev pub Takes : ℕ → ℕ → Type 0
  Takes defined actual = (defined ≡ actual) ⊎ Alike pg defined actual

  types_match_iff : (d a : ℕ) (b : Bool) → types_match pg fuel d a ≡ some b → (b ≡ true) ↔ Takes d a
  unfolding types_match
  types_match_iff d a b h = elim (Bool-cases (d == a)) [
    | inl same ↦
        let q : true ≡ b = some_inj (rw (same, types_match) at h) in
        (λ e. inl ((==_iff d a).0 same), λ k. sym q)
    | inr other ↦
        let ((d', a'), e₁, e₂) =
          >>=-eq-some (strip_both pg fuel d a) _ (rw (other, types_match) at h) in
        let (f, g) = strip_both_iff pg fuel d a d' a' layout e₁ in
        let q = some_inj e₂ in
        (
          λ e. inr (f (q ∙ e)),
          λ k. elim k [ inl same ↦ absurd (ground (arith)) | inr alike ↦ sym q ∙ g alike ],
        )
  ]

  -- Each argument that the function has takes that of the call; more of the call are passed over.
  abbrev pub TakesAll : List ℕ → List ℕ → Type 0
  TakesAll [] ai = Unit
  TakesAll (f ∷ fi) [] = Unit
  TakesAll (f ∷ fi) (a ∷ ai) = Takes (pg.type_of f) (pg.type_of a) × TakesAll fi ai

  match_args_iff :
      (fi ai : List ℕ) (m : Match)
      → match_args pg fuel fi ai ≡ some m
      → m ≢ Match.overrun
      → (m ≡ Match.matched) ↔ TakesAll fi ai
  unfolding match_args
  match_args_iff [] ai m h within = (λ e. tt, λ k. sym (some_inj h))
  match_args_iff (f ∷ fi) [] m h within = absurd (within (sym (some_inj h)))
  match_args_iff (f ∷ fi) (a ∷ ai) m h within =
      let (b, e₁, e₂) = >>=-eq-some (types_match pg fuel (pg.type_of f) (pg.type_of a)) _ h in
      let (p, q) = types_match_iff (pg.type_of f) (pg.type_of a) b e₁ in
      elim (Bool-cases b) [
        | inl fits ↦
            let (p', q') = match_args_iff fi ai m (rw fits at e₂) within in
            (λ e. (p fits, p' e), λ (k, ks). q' ks)
        | inr fails ↦
            let e : Match.mismatched ≡ m = some_inj (rw fails at e₂) in
            (λ k. absurd (cc), λ (k, ks). absurd (cc (q k, fails)))
      ]

  -- A function that the call may reach: it takes the arguments, as many unless it is variadic, and it is
  -- no intrinsic.
  pub record IsTarget (args : List ℕ) (f : ℕ) : Type 0 where
    pub arity : (pg.is_var_arg f ≡ true) ⊎ (length (pg.ir.args f) ≡ length args)
    pub no_intrinsic : pg.is_intrinsic f ≡ false
    pub takes : TakesAll (pg.ir.args f) args

  abbrev Adds : List ℕ → ℕ → List ℕ → List ℕ → Type 0
  Adds args f s s' = (k : ℕ) → (has k s' ≡ true) ↔ ((has k s ≡ true) ⊎ ((k ≡ f) × IsTarget args f))

  Adds-none :
      (args : List ℕ) (f : ℕ) (s s' : List ℕ)
      → (IsTarget args f → true ≡ false)
      → s ≡ s'
      → Adds args f s s'
  Adds-none args f s s' not_target q k =
      subst (λ x. (has k x ≡ true) ↔ ((has k s ≡ true) ⊎ ((k ≡ f) × IsTarget args f))) q
        (inl, λ o. elim o [ inl h ↦ h | inr (_, t) ↦ absurd (cc (not_target t)) ])

  Adds-one :
      (args : List ℕ) (f : ℕ) (s s' : List ℕ) → IsTarget args f → insert f s ≡ s' → Adds args f s s'
  Adds-one args f s s' t q k =
      subst (λ x. (has k x ≡ true) ↔ ((has k s ≡ true) ⊎ ((k ≡ f) × IsTarget args f))) q
        (elim (Bool-cases (k == f)) [
          | inl same ↦ (λ h. inr ((==_iff k f).0 same, t), λ o. has-insert k f s ∙ rw same refl)
          | inr other ↦
              let old : has k (insert f s) ≡ has k s = has-insert k f s ∙ rw other refl in
              (
                λ h. inl (sym old ∙ h),
                λ o. elim o [
                  | inl h ↦ old ∙ h
                  | inr (e, t') ↦ absurd (cc ((==_iff k f).1 e, other))
                ],
              )
        ])

  add_if_matched_iff :
      (args : List ℕ) (f : ℕ) (s s' : List ℕ)
      → add_if_matched pg fuel args f s ≡ some (some s')
      → Adds args f s s'
  unfolding add_if_matched
  add_if_matched_iff args f s s' h =
      elim (Bool-cases (not (pg.is_var_arg f) && not (length (pg.ir.args f) == length args))) [
        | inl arity ↦
            Adds-none args f s s'
              (λ t. ground (arith, t.arity, ==_iff (length (pg.ir.args f)) (length args)))
              (some_inj (some_inj (rw arity at h)))
        | inr fits ↦ elim (Bool-cases (pg.is_intrinsic f)) [
          | inl intrinsic ↦
              Adds-none args f s s' (λ t. absurd (cc (t.no_intrinsic, intrinsic)))
                (some_inj (some_inj (rw intrinsic at (rw fits at h))))
          | inr plain ↦
              let (m, e₁, e₂) =
                >>=-eq-some (match_args pg fuel (pg.ir.args f) args) _
                  (rw plain at (rw fits at h)) in
              by_match m e₁ (ground (arith, ==_iff (length (pg.ir.args f)) (length args))) plain
                (some_inj e₂)
        ]
      ]
    where
      by_match :
          (m : Match)
          → match_args pg fuel (pg.ir.args f) args ≡ some m
          → (pg.is_var_arg f ≡ true) ⊎ (length (pg.ir.args f) ≡ length args)
          → pg.is_intrinsic f ≡ false
          → elim m as (λ m. Option (List ℕ)) [
            | Match.matched ↦ some (insert f s)
            | Match.mismatched ↦ some s
            | Match.overrun ↦ none
          ]
            ≡ some s'
          → Adds args f s s'
      by_match Match.matched e arity plain q =
          Adds-one args f s s'
            (record {
              arity = arity;
              no_intrinsic = plain;
              takes = (match_args_iff (pg.ir.args f) args Match.matched e (λ x. cc)).0 refl;
            })
            (some_inj q)
      by_match Match.mismatched e arity plain q =
          Adds-none args f s s'
            (λ t.
              let k = (match_args_iff (pg.ir.args f) args Match.mismatched e (λ x. cc)).1 t.takes in
              absurd (cc))
            (some_inj q)
      by_match Match.overrun e arity plain q = absurd (cc)

  add_matched_iff :
      (args fs s s' : List ℕ) (k : ℕ)
      → add_matched pg fuel args fs s ≡ some (some s')
      → (has k s' ≡ true) ↔ ((has k s ≡ true) ⊎ (Memᴰ k fs × IsTarget args k))
  unfolding add_matched
  add_matched_iff args [] s s' k h =
      subst (λ x. (has k x ≡ true) ↔ ((has k s ≡ true) ⊎ (Memᴰ k [] × IsTarget args k)))
        (some_inj (some_inj h))
        (inl, λ o. elim o [ inl h ↦ h | inr (m, t) ↦ absurd (Memᴰ.not-nil m) ])
  add_matched_iff args (f ∷ fs) s s' k h =
      let (o, e₁, e₂) = >>=-eq-some (add_if_matched pg fuel args f s) _ h in
      elim (Option-cases o) [
        | inl gone ↦ absurd (cc (some_inj (rw gone at e₂)))
        | inr (m, there) ↦
            let (p, q) = add_if_matched_iff args f s m (e₁ ∙ ap some there) k in
            let (p', q') = add_matched_iff args fs m s' k (rw there at e₂) in
            (
              λ e. elim (p' e) [
                | inl old ↦ elim (p old) [
                  | inl older ↦ inl older
                  | inr (same, t) ↦ inr (Memᴰ.head same, subst (IsTarget args) (sym same) t)
                ]
                | inr (n, t) ↦ inr (Memᴰ.tail n, t)
              ],
              λ c. elim c [
                | inl old ↦ q' (inl (q (inl old)))
                | inr (n, t) ↦ elim ((Memᴰ-cons k f fs).0 n) [
                  | inl same ↦ q' (inl (q (inr (same, subst (IsTarget args) same t))))
                  | inr later ↦ q' (inr (later, t))
                ]
              ],
            )
      ]

  -- If findCalleesWithType ends, without reading past the arguments of the call, for a call that is not
  -- inline assembly: it adds exactly the address-taken functions that are no intrinsics, have as many
  -- arguments as the call or are variadic, and whose arguments have the types of the call's, or types
  -- that, behind equally many pointers, are structs of one name, integers of one width, or i8* and the
  -- integer of its width.
  pub find_callees_with_type_iff :
      (g : Graph) (called k : ℕ) (args s s' : List ℕ)
      → pg.ir.node called ≢ Node.inline_asm
      → find_callees_with_type pg fuel g called args s ≡ some (some s')
      → (has k s' ≡ true) ↔ ((has k s ≡ true) ⊎ (Memᴰ k g.address_taken_funcs × IsTarget args k))
  unfolding find_callees_with_type
  find_callees_with_type_iff g called k args s s' no_asm h = by_node (pg.ir.node called) refl
    where
      by_node :
          (n : Node)
          → pg.ir.node called ≡ n
          → (has k s' ≡ true)
            ↔ ((has k s ≡ true) ⊎ (Memᴰ k g.address_taken_funcs × IsTarget args k))
      by_node Node.inline_asm e = absurd (no_asm e)
      by_node _ e =
          add_matched_iff args g.address_taken_funcs s s' k (rw (e, find_callees_with_type) at h)
