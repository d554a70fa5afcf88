-- ===== src/Worklist/Search.antt =====
-- A worklist loop that looks for something: it returns true at the first item that shows it, and
-- false once the queue is empty. It decides reachability, and ends on a finite universe.
use mathlib.Core.List.Memᴰ
use crix.Base.{
  ℕ, ◌+◌, ◌≤◌, ◌≡◌, refl, sym, Bool, true, false, ◌⊎◌, inl, inr, ◌↔◌, Option, none, some, List, [],
  ◌∷◌, ◌++◌, Memᴰ, Memᴰ-append, arith, length, has, nat_eq, ◌>>=◌, >>=-eq-some, All, subst,
  Bool-cases, weight_outside,
}
use crix.Worklist.{Turn, stop, push, loop}
use crix.Worklist.Total.{loop_total}
use crix.Worklist.Rule.{IsRule, loop_rule}

-- What one item shows: what is looked for, or the items to look at next.
pub data Sight : Type 0 where
  found : Sight
  follow : List ℕ → Sight

abbrev pub follows_to : Option Sight → List ℕ
follows_to none = []
follows_to (some found) = []
follows_to (some (follow new)) = new

module _ (look : ℕ → Option Sight) where
  abbrev turn_of : Bool → Sight → Turn Bool ℕ
  turn_of answer found = stop true
  turn_of answer (follow new) = push answer new

  unfoldable pub search_body : ℕ → Bool → Option (Turn Bool ℕ)
  search_body i answer = look i >>= λ s. some (turn_of answer s)

  unfoldable pub search : ℕ → ℕ → Option Bool
  search fuel root = loop (λ i. i) search_body fuel [] (root ∷ []) false

  -- The items that the search may come to.
  pub data Reaches (root : ℕ) : ℕ → Type 0 where
    here : Reaches root root
    step :
        {i j : ℕ} {new : List ℕ}
        → Reaches root i
        → look i ≡ some (follow new)
        → Memᴰ j new
        → Reaches root j

  record Inv (root : ℕ) (seen queue : List ℕ) (answer : Bool) : Type 0 where
    no_answer : answer ≡ false
    queued : (i : ℕ) → Memᴰ i queue → Reaches root i
    looked :
        (i : ℕ)
        → has i seen ≡ true
        → (new : List ℕ) × (look i ≡ some (follow new))
          × ((j : ℕ) → Memᴰ j new → (has j seen ≡ true) ⊎ Memᴰ j queue)
    started : (has root seen ≡ true) ⊎ Memᴰ root queue

  abbrev pub Post : ℕ → Bool → Type 0
  Post root answer =
      (answer ≡ true → (j : ℕ) × Reaches root j × (look j ≡ some found))
      × (answer ≡ false → (j : ℕ) → Reaches root j → (new : List ℕ) × (look j ≡ some (follow new)))

  turn_push :
      (i : ℕ) (answer answer' : Bool) (new : List ℕ)
      → search_body i answer ≡ some (push answer' new)
      → (answer ≡ answer') × (look i ≡ some (follow new))
  unfolding search_body
  turn_push i answer answer' new h = let (s, e, k) = >>=-eq-some (look i) _ h in by_sight s e k
    where
      by_sight :
          (s : Sight)
          → look i ≡ some s
          → some (turn_of answer s) ≡ some (push answer' new)
          → (answer ≡ answer') × (look i ≡ some (follow new))
      by_sight found e k = cc
      by_sight (follow new') e k =
          let q : new' ≡ new = ground arith in
          (ground arith, subst (λ x. look i ≡ some (follow x)) q e)

  turn_stop :
      (i : ℕ) (answer answer' : Bool)
      → search_body i answer ≡ some (stop answer')
      → (answer' ≡ true) × (look i ≡ some found)
  unfolding search_body
  turn_stop i answer answer' h = let (s, e, k) = >>=-eq-some (look i) _ h in by_sight s e k
    where
      by_sight :
          (s : Sight)
          → look i ≡ some s
          → some (turn_of answer s) ≡ some (stop answer')
          → (answer' ≡ true) × (look i ≡ some found)
      by_sight found e k = (ground arith, e)
      by_sight (follow new') e k = cc

  -- Where an item that waited is processed, each that was seen or waits is still so.
  moved :
      (i : ℕ) (seen queue new : List ℕ) (j : ℕ)
      → (has j seen ≡ true) ⊎ Memᴰ j (i ∷ queue)
      → (has j (i ∷ seen) ≡ true) ⊎ Memᴰ j (queue ++ new)
  moved i seen queue new j (inl h) = inl (ground arith)
  moved i seen queue new j (inr (Memᴰ.head e)) = inl (ground arith)
  moved i seen queue new j (inr (Memᴰ.tail k)) = inr (Memᴰ.append_left new k)

  passed :
      (i : ℕ) (seen queue : List ℕ) (j : ℕ)
      → has i seen ≡ true
      → (has j seen ≡ true) ⊎ Memᴰ j (i ∷ queue)
      → (has j seen ≡ true) ⊎ Memᴰ j queue
  passed i seen queue j old (inl h) = inl h
  passed i seen queue j old (inr (Memᴰ.head e)) = inl (subst (λ x. has x seen ≡ true) (sym e) old)
  passed i seen queue j old (inr (Memᴰ.tail k)) = inr k

  push_Inv :
      (root i : ℕ) (seen queue new : List ℕ) (answer : Bool)
      → look i ≡ some (follow new)
      → Inv root seen (i ∷ queue) answer
      → Inv root (i ∷ seen) (queue ++ new) answer
  push_Inv root i seen queue new answer e v = record {
    no_answer = v.no_answer;
    queued = λ j k. elim ((Memᴰ-append j queue new).0 k) [
      | inl k ↦ v.queued j (Memᴰ.tail k)
      | inr k ↦ Reaches.step (v.queued i (Memᴰ.head refl)) e k
    ];
    looked = λ j h. elim (Bool-cases (has j seen)) [
      | inl old ↦
          let (news, e', there) = v.looked j old in
          (news, e', λ x k. moved i seen queue new x (there x k))
      | inr fresh ↦
          let q : j ≡ i = ground arith in
          (
            new,
            subst (λ x. look x ≡ some (follow new)) (sym q) e,
            λ x k. inr (Memᴰ.append_right queue k),
          )
    ];
    started = moved i seen queue new root v.started;
  }

  rule : (root : ℕ) → IsRule (λ i. i) search_body (Inv root) (Post root)
  rule root = record {
    passes = λ seen i queue s old v. record {
      no_answer = v.no_answer;
      queued = λ j k. v.queued j (Memᴰ.tail k);
      looked = λ j h.
          let (new, e, there) = v.looked j h in
          (new, e, λ x k. passed i seen queue x old (there x k));
      started = passed i seen queue root old v.started;
    };
    pushes = λ seen i queue s s' new fresh h v.
        let (q, e) = turn_push i s s' new h in
        subst (Inv root (i ∷ seen) (queue ++ new)) q (push_Inv root i seen queue new s e v);
    returns = λ seen i queue s s' fresh h v.
        let (q, e) = turn_stop i s s' h in (λ _. (i, v.queued i (Memᴰ.head refl), e), λ no. cc);
    ends = λ seen s v. (
      λ yes'. cc (v.no_answer),
      λ _ j r. let (new, e, _) = v.looked j (all seen s v r) in (new, e),
    );
  }
    where
      all :
          (seen : List ℕ) (s : Bool)
          → Inv root seen [] s
          → {j : ℕ} → Reaches root j
          → has j seen ≡ true
      all seen s v Reaches.here = elim v.started [ inl h ↦ h | inr k ↦ absurd (Memᴰ.not-nil k) ]
      all seen s v (Reaches.step {i} {j} {new} r e k) =
          let (new', e', there) = v.looked i (all seen s v r) in
          let q : new ≡ new' = ground arith in
          elim (there j (subst (Memᴰ j) q k)) [ inl h ↦ h | inr k ↦ absurd (Memᴰ.not-nil k) ]

  pub search-Post :
      (fuel root : ℕ) (answer : Bool) → search fuel root ≡ some answer → Post root answer
  unfolding search
  search-Post fuel root answer h =
      loop_rule (λ i. i) search_body (rule root) fuel [] (root ∷ []) false answer
        (record {
          no_answer = refl;
          queued = λ j k. start j k;
          looked = λ j h. cc;
          started = inr (Memᴰ.head refl);
        })
        h
    where
      start : (j : ℕ) → Memᴰ j (root ∷ []) → Reaches root j
      start j (Memᴰ.head e) = subst (Reaches root) (sym e) Reaches.here
      start j (Memᴰ.tail k) = absurd (Memᴰ.not-nil k)

  -- The answer is true exactly when an item that shows it can be reached.
  pub search_iff :
      (fuel root : ℕ) (answer : Bool)
      → search fuel root ≡ some answer
      → (answer ≡ true) ↔ ((j : ℕ) × Reaches root j × (look j ≡ some found))
  search_iff fuel root answer h =
      let post = search-Post fuel root answer h in
      (
        post.0,
        λ (j, r, e). elim (Bool-cases answer) [
          | inl is ↦ is
          | inr not_so ↦ let (new, e') = post.1 not_so j r in cc
        ],
      )

  -- Every look at an item of a finite universe ends, and leads to items of it.
  abbrev pub StaysIn : List ℕ → Type 0
  StaysIn univ =
      (i : ℕ)
      → Memᴰ i univ
      → (s : Sight) × (look i ≡ some s) × All (λ j. Memᴰ j univ) (follows_to (some s))

  abbrev pub search_fuel : List ℕ → ℕ
  search_fuel univ = 1 + weight_outside (λ i. length (follows_to (look i))) [] univ

  pub search_total :
      (univ : List ℕ) (fuel root : ℕ)
      → StaysIn univ
      → Memᴰ root univ
      → search_fuel univ ≤ fuel
      → (answer : Bool) × (search fuel root ≡ some answer)
  unfolding search search_body
  search_total univ fuel root stays inside enough =
      loop_total (λ i. i) search_body univ (λ i. length (follows_to (look i))) (λ i. Memᴰ i univ)
        (λ i s g. (g, bounded i s (stays i g))) fuel [] (root ∷ []) false (omega arith) (inside, tt)
    where
      bounded :
          (i : ℕ) (s : Bool)
          → ((x : Sight) × (look i ≡ some x) × All (λ j. Memᴰ j univ) (follows_to (some x)))
          → ((s' : Bool) × (search_body i s ≡ some (stop s')))
            ⊎ ((s' : Bool) × (new : List ℕ) × (search_body i s ≡ some (push s' new))
                × All (λ j. Memᴰ j univ) new
                × (length new ≤ length (follows_to (look i))))
      bounded i s (found, e, good) = inl (true, rw e)
      bounded i s (follow new, e, good) = inr (s, new, rw e, good, rw e (omega arith))
