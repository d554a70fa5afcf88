-- ===== src/SecurityChecks/MayReturnTotal.antt =====
-- mayReturnErr returns on a finite program, and what it decides.
use crix.Base.{
  ℕ, suc, ◌+◌, ◌≤◌, ◌≡◌, ◌↔◌, refl, Bool, true, Option, some, List, [], ◌∷◌, ◌++◌, Memᴰ, arith,
  length, length-append, All, All-intro, All-mem, All-append, All-map, subst, weight_outside,
  nat_eq, some_inj, if◌then◌else◌,
}
use crix.Ir.{Ir, Node}
use crix.Ir.Kinds.{instructions}
use crix.Context.{Context}
use crix.Worklist.Search.{Sight, found, follow, follows_to, search_total}
use crix.SecurityChecks.ErrnoValues.{NestsBelow, is_value_errno_total}
use crix.SecurityChecks.MayReturn.{
  first_callee, inspect_node, inspect, inspect_call, then_scan, scan, look_into, may_return_err,
}
use crix.SecurityChecks.MayReturnSteps.{LeadsInto, IsFirstCallee, Agrees, inspect-Agrees}
use crix.SecurityChecks.MayReturnLaws.{CallChain, Evidence, may_return_err_iff}

-- What a look shows is there, is at most one item and only good ones.
abbrev Shortly : (ℕ → Type 0) → ℕ → Option Sight → Type 0
Shortly Good n o =
    (s : Sight) × (o ≡ some s) × (length (follows_to (some s)) ≤ n) × All Good (follows_to (some s))

scan-Shortly :
    (Good : ℕ → Type 0) (look : ℕ → Option Sight) (is : List ℕ)
    → All (λ i. Shortly Good 1 (look i)) is
    → Shortly Good (length is) (scan look is)
unfolding scan
scan-Shortly Good look [] h = (follow [], refl, omega arith, tt)
scan-Shortly Good look (i ∷ is) h = both (look i) (scan look is) h.0 (scan-Shortly Good look is h.1)
  where
    both :
        (a b : Option Sight)
        → Shortly Good 1 a
        → Shortly Good (length is) b
        → Shortly Good (suc (length is)) (then_scan a b)
    both a b (found, e, _, _) t = (found, rw e refl, omega arith, tt)
    both a b (follow fs, e, few, good) (found, e', _, _) = (found, rw (e, e') refl, omega arith, tt)
    both a b (follow fs, e, few, good) (follow gs, e', few', good') = (
      follow (fs ++ gs),
      rw (e, e') refl,
      omega (arith, length-append fs gs),
      All-append Good fs gs good good',
    )

weight_outside_le :
    (w w' : ℕ → ℕ) (univ : List ℕ)
    → All (λ g. w g ≤ w' g) univ
    → weight_outside w [] univ ≤ weight_outside w' [] univ
weight_outside_le w w' [] h = omega arith
weight_outside_le w w' (g ∷ univ) h = ground (arith, h.0, weight_outside_le w w' univ h.1)

abbrev stored : Node → List ℕ
stored (Node.store sv p) = sv ∷ []
stored _ = []

abbrev returned : Node → List ℕ
returned (Node.ret (some rv)) = rv ∷ []
returned _ = []

module _ (ir : Ir) (ctx : Context) (fuel : ℕ) where
  -- A finite list of functions with every callee of their instructions and returned values, in
  -- which stored constant expressions are nested less deep than the fuel.
  abbrev pub IsFiniteProgram : List ℕ → Type 0
  IsFiniteProgram univ =
      All
        (λ g.
          All
            (λ i.
              All (NestsBelow ir fuel) (stored (ir.node i))
              × All (λ c. All (λ h. Memᴰ h univ) (ctx.callees c)) (i ∷ returned (ir.node i)))
            (instructions ir g))
        univ

  first_callee-short : (c : ℕ) → length (first_callee ir ctx c) ≤ 1
  first_callee-short c = ground arith

  inspect_node-short :
      (g i : ℕ) (n : Node) (s : Sight)
      → inspect_node ir ctx fuel g i n ≡ some s
      → length (follows_to (some s)) ≤ 1
  unfolding inspect_node inspect_call
  inspect_node-short g i (Node.store sv p) s h = ground arith
  inspect_node-short g i (Node.call callee args) s h =
      subst (λ x. length (follows_to (some x)) ≤ 1) (some_inj h)
        (ground (arith, first_callee-short i))
  inspect_node-short g i (Node.ret (some rv)) s h =
      subst (λ x. length (follows_to (some x)) ≤ 1) (some_inj h)
        (ground (arith, first_callee-short rv))
  inspect_node-short g i n s h =
      subst (λ x. length (follows_to (some x)) ≤ 1) (some_inj h) (omega arith)

  inspect_node_returns :
      (g i : ℕ) (n : Node)
      → All (NestsBelow ir fuel) (stored n)
      → (s : Sight) × (inspect_node ir ctx fuel g i n ≡ some s)
  unfolding inspect_node
  inspect_node_returns g i (Node.store sv p) below =
      let (b, e) = is_value_errno_total ir fuel sv g below.0 in
      (if b then found else follow [], rw e refl)
  inspect_node_returns g i (Node.ret (some rv)) below = (_, refl)
  inspect_node_returns g i n below = (_, refl)

  first_inside :
      (univ : List ℕ) (c h : ℕ)
      → All (λ x. Memᴰ x univ) (ctx.callees c)
      → IsFirstCallee ir ctx c h
      → Memᴰ h univ
  first_inside univ c h all (hs, e) = (subst (All (λ x. Memᴰ x univ)) e all).0

  leads_inside :
      (univ : List ℕ) (i h : ℕ) (n : Node)
      → All (λ c. All (λ h. Memᴰ h univ) (ctx.callees c)) (i ∷ returned n)
      → LeadsInto ir ctx i n h
      → Memᴰ h univ
  leads_inside univ i h (Node.call callee args) all l = first_inside univ i h all.0 l.3
  leads_inside univ i h (Node.ret (some rv)) all l = first_inside univ rv h all.1.0 l.1
  leads_inside univ i h n all l = absurd l

  inspect-Shortly :
      (univ : List ℕ) (g i : ℕ)
      → All (NestsBelow ir fuel) (stored (ir.node i))
      → All (λ c. All (λ h. Memᴰ h univ) (ctx.callees c)) (i ∷ returned (ir.node i))
      → Shortly (λ h. Memᴰ h univ) 1 (inspect ir ctx fuel g i)
  unfolding inspect
  inspect-Shortly univ g i below inside =
      let (s, e) = inspect_node_returns g i (ir.node i) below in
      (s, e, inspect_node-short g i (ir.node i) s e, all s (inspect-Agrees ir ctx fuel g i s e))
    where
      all :
          (s : Sight)
          → Agrees ir ctx g i (ir.node i) s
          → All (λ h. Memᴰ h univ) (follows_to (some s))
      all found a = tt
      all (follow fs) a =
          All-intro _ fs (λ h m. leads_inside univ i h (ir.node i) inside ((a.1 h).0 m))

  look_into-Shortly :
      (univ : List ℕ) (g : ℕ)
      → IsFiniteProgram univ
      → Memᴰ g univ
      → Shortly (λ h. Memᴰ h univ) (length (instructions ir g)) (look_into ir ctx fuel g)
  unfolding look_into
  look_into-Shortly univ g finite m =
      scan-Shortly (λ h. Memᴰ h univ) (inspect ir ctx fuel g) (instructions ir g)
        (All-map (λ i (below, inside). inspect-Shortly univ g i below inside) (instructions ir g)
          (All-mem _ univ finite m))

  -- Where a list of functions has the callees of all its calls, and stored constant expressions in
  -- it are nested less deep than the fuel, and with fuel beyond its instructions: mayReturnErr
  -- returns for a function of it, and with true exactly when a chain of calls leads from the function
  -- to one with an instruction that shows an error. An instruction shows one if it stores an error
  -- code, is a call whose result is a pointer, or calls ERR_PTR or PTR_ERR directly; it leads into the
  -- first callee if it is another direct call, and into that of a call whose result it returns.
  pub may_return_err_lem :
      (univ : List ℕ) (f : ℕ)
      → IsFiniteProgram univ
      → Memᴰ f univ
      → 1 + weight_outside (λ g. length (instructions ir g)) [] univ ≤ fuel
      → (answer : Bool) × (may_return_err ir ctx fuel f ≡ some answer)
        × ((answer ≡ true) ↔ ((g : ℕ) × CallChain ir ctx f g × Evidence ir ctx g))
  unfolding may_return_err
  may_return_err_lem univ f finite inside enough =
      let shortly = λ (g : ℕ) (m : Memᴰ g univ). look_into-Shortly univ g finite m in
      let less =
        weight_outside_le (λ g. length (follows_to (look_into ir ctx fuel g)))
          (λ g. length (instructions ir g)) univ
          (All-intro _ univ (λ g m. let (s, e, few, _) = shortly g m in rw e few)) in
      let (answer, e) =
        search_total (look_into ir ctx fuel) univ fuel f
          (λ g m. let (s, e, _, good) = shortly g m in (s, e, good)) inside (omega arith) in
      (answer, e, may_return_err_iff ir ctx fuel f answer e)
