-- ===== src/MissingChecks/ForwardTotal.antt =====
-- isCheckedForward ends.
use crix.Base.{
  ℕ, ◌<◌, ◌≡◌, refl, Bool, true, false, ◌||◌, not, some, List, [], ◌∷◌, Memᴰ, has, nat_eq, All,
  All-intro, flat_map, if◌then◌else◌, ◌==◌, Bool-cases, inl, inr,
}
use crix.Ir.{Ir, Node}
use crix.Ir.Kinds.{is_instruction}
use crix.Context.{Context}
use crix.Walk.{Trace, Act, visit}
use crix.Walk.Total.{untracked, walk_total}
use crix.Walk.Visits.{Stay, Stay-append, Stay-flat_map}
use crix.DataFlow.Aliases.{get_alias_pointers}
use crix.MissingChecks.Model.{SrcUse, Counts}
use crix.MissingChecks.Forward.{
  Hit, check_it, is_found, Turn, returns, calls, until_returns, load_user, loads_of, forward_node,
  forward_user, forward_acts, is_checked_forward,
}

module _ (ir : Ir) (ctx : Context) (counts : Counts) (univ : List ℕ)
    (users_inside : (v : ℕ) → All (λ u. Memᴰ u univ) (ir.users v)) where
  abbrev In : ℕ → Type 0
  In v = Memᴰ v univ

  abbrev Anything : ℕ → Type 0
  Anything v = Unit

  abbrev TurnStays : Turn → Type 0
  TurnStays returns = Unit
  TurnStays (calls acts) = Stay In acts

  until_returns-Stay :
      (turn : ℕ → Turn)
      → ((u : ℕ) → In u → TurnStays (turn u))
      → (us : List ℕ) → All In us
      → Stay In (until_returns turn us)
  until_returns-Stay turn stay [] h = tt
  until_returns-Stay turn stay (u ∷ us) h =
      by_turn (turn u) refl (stay u h.0) (until_returns-Stay turn stay us h.1)
    where
      by_turn :
          (t : Turn)
          → turn u ≡ t
          → TurnStays t
          → Stay In (until_returns turn us)
          → Stay In (until_returns turn (u ∷ us))
      by_turn returns e s rest = rw (e, until_returns) tt
      by_turn (calls acts) e s rest =
          rw (e, until_returns) (Stay-append In acts (until_returns turn us) s rest)

  load_user-Stay : (u : ℕ) → In u → Stay In (load_user ir ctx counts u)
  unfolding load_user
  load_user-Stay u h = by_node (ir.node u) refl
    where
      by_node : (n : Node) → ir.node u ≡ n → Stay In (load_user ir ctx counts u)
      by_node (Node.load p) e = rw (e, load_user) (h, tt)
      by_node _ e = rw (e, load_user) tt

  loads_of-Stay : (f p : ℕ) → Stay In (loads_of ir ctx counts f p)
  unfolding loads_of
  loads_of-Stay f p =
      Stay-flat_map In Anything (λ a. flat_map (load_user ir ctx counts) (ir.users a))
        (λ a h.
          Stay-flat_map In In (load_user ir ctx counts) load_user-Stay (ir.users a)
            (users_inside a))
        (get_alias_pointers p (ctx.func_pa_results f))
        (All-intro Anything (get_alias_pointers p (ctx.func_pa_results f)) (λ a m. tt))

  if_returns : (b : Bool) → TurnStays (if b then returns else calls [])
  if_returns true = tt
  if_returns false = tt

  if_calls :
      (b : Bool) (acts : List (Act ℕ Hit))
      → Stay In acts
      → TurnStays (if b then calls acts else calls [])
  if_calls true acts h = h
  if_calls false acts h = tt

  forward_node-Stays :
      (f : ℕ) (src : SrcUse) (v u : ℕ) (n : Node)
      → In u
      → TurnStays (forward_node ir ctx counts f src v u n)
  unfolding forward_node
  forward_node-Stays f src v u (Node.icmp p a b) h = if_returns _
  forward_node-Stays f src v u (Node.fcmp p a b) h = if_returns _
  forward_node-Stays f src v u (Node.call callee args) h = if_returns _
  forward_node-Stays f src v u (Node.store sv p) h =
      if_calls (v == sv) (loads_of ir ctx counts f p) (loads_of-Stay f p)
  forward_node-Stays f src v u (Node.gep p) h = if_calls (p == v) (visit u ∷ []) (h, tt)
  forward_node-Stays f src v u (Node.phi incoming) h = (h, tt)
  forward_node-Stays f src v u (Node.alloca o) h = (h, tt)
  forward_node-Stays f src v u (Node.load p) h = (h, tt)
  forward_node-Stays f src v u (Node.cast o) h = (h, tt)
  forward_node-Stays f src v u (Node.extract_value o) h = (h, tt)
  forward_node-Stays f src v u (Node.unary o) h = (h, tt)
  forward_node-Stays f src v u (Node.binary a b) h = (h, tt)
  forward_node-Stays f src v u _ h = tt

  forward_user-Stays :
      (f : ℕ) (src : SrcUse) (scope : List ℕ) (v u : ℕ)
      → In u
      → TurnStays (forward_user ir ctx counts f src scope v u)
  unfolding forward_user
  forward_user-Stays f src scope v u h =
      elim (Bool-cases (not (is_instruction ir u) || not (has (ir.parent u) scope))) [
        | inl out ↦ rw out tt
        | inr inside ↦ rw inside (forward_node-Stays f src v u (ir.node u) h)
      ]

  -- If all users of values are among some values, with more fuel than the values of these that VSet
  -- lacks, isCheckedForward returns for each of them, from any VSet and isChecked.
  pub is_checked_forward_total :
      (fuel f : ℕ) (src : SrcUse) (v : ℕ) (scope : List ℕ) (t : Trace Bool)
      → Memᴰ v univ
      → untracked t.seen univ < fuel
      → (r : Trace Bool) × (is_checked_forward ir ctx counts fuel f src v scope t ≡ some r)
  unfolding is_checked_forward forward_acts
  is_checked_forward_total fuel f src v scope t inside enough =
      let (r, e, grow) =
        walk_total (λ v. v) check_it is_found (forward_acts ir ctx counts f src scope) univ In
          (λ i h. (
            h,
            (
              until_returns (forward_user ir ctx counts f src scope i) (ir.users i),
              refl,
              until_returns-Stay (forward_user ir ctx counts f src scope i)
                  (λ u k. forward_user-Stays f src scope i u k) (ir.users i) (users_inside i),
            ),
          ))
          fuel v t enough inside in
      (r, e)
