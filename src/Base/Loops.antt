-- ===== src/Base/Loops.antt =====
-- Loops whose bodies may lack fuel: that they end, and a rule for loops whose turns each establish a
-- fact that later turns keep.
use mathlib.Core.Path.{◌≡◌, refl, subst}
use mathlib.Core.List.{List, [], ◌∷◌}
use mathlib.Core.Bool.{Bool, true, false}
use mathlib.Core.Option.{Option, some}
use crix.Base.Tests.{◌>>=◌, >>=-eq-some, for_each, some_inj, if◌then◌else◌}
use crix.Base.Lists.{All}

-- The run ends with a result.
abbrev pub Ends {ℓ} : {A : Type ℓ} → Option A → Type ℓ
Ends {A} o = (a : A) × (o ≡ some a)

pub Ends-bind {ℓ κ} :
    {A : Type ℓ} {B : Type κ} (m : Option A) (f : A → Option B)
    → Ends m
    → ((a : A) → Ends (f a))
    → Ends (m >>= f)
Ends-bind m f (a, e) h = let (b, q) = h a in (b, rw e q)

pub Ends-if {ℓ} :
    {A : Type ℓ} (b : Bool) {x y : Option A} → Ends x → Ends y → Ends (if b then x else y)
Ends-if true hx hy = hx
Ends-if false hx hy = hy

pub Ends-some {ℓ} : {A : Type ℓ} (a : A) → Ends (some a)
Ends-some a = (a, refl)

pub Ends-for_each {ℓ κ} :
    {A : Type ℓ} {S : Type κ} (body : A → S → Option S)
    → ((x : A) (s : S) → Ends (body x s))
    → (xs : List A) (s : S) → Ends (for_each body xs s)
Ends-for_each body h [] s = (s, refl)
Ends-for_each body h (x ∷ xs) s =
    Ends-bind (body x s) (for_each body xs) (h x s) (λ t. Ends-for_each body h xs t)

-- An invariant `P`, a relation `K` between earlier and later states, and the fact `Q` of each turn.
pub record IsLoopRule {ℓ κ μ ν ξ} {A : Type ℓ} {S : Type κ} (body : A → S → Option S)
    (P : S → Type μ) (K : S → S → Type ν) (Q : A → S → Type ξ) : Type (ℓ ⊔ κ ⊔ μ ⊔ ν ⊔ ξ) where
  pub starts : (s : S) → K s s
  pub chains : (s t u : S) → K s t → K t u → K s u
  pub stays : (x : A) (s t : S) → K s t → Q x s → Q x t
  pub turns : (x : A) (s t : S) → P s → body x s ≡ some t → P t × K s t × Q x t

pub for_each_rule {ℓ κ μ ν ξ} :
    {A : Type ℓ} {S : Type κ} (body : A → S → Option S) (P : S → Type μ) (K : S → S → Type ν)
    (Q : A → S → Type ξ)
    → IsLoopRule body P K Q
    → (xs : List A) (s t : S) → P s
    → for_each body xs s ≡ some t
    → P t × K s t × All (λ x. Q x t) xs
for_each_rule body P K Q rule [] s t p e =
    subst (λ v. P v × K s v × Unit) (some_inj e) (p, rule.starts s, tt)
for_each_rule body P K Q rule (x ∷ xs) s t p e =
    let (m, e₁, e₂) = >>=-eq-some (body x s) (for_each body xs) e in
    let (pm, km, qm) = rule.turns x s m p e₁ in
    let (pt, kt, qs) = for_each_rule body P K Q rule xs m t pm e₂ in
    (pt, rule.chains s m t km kt, (rule.stays x m t kt qm, qs))

-- A loop that changes nothing.
pub for_each_idle {ℓ κ} :
    {A : Type ℓ} {S : Type κ} (xs : List A) (s : S) → for_each (λ x t. some t) xs s ≡ some s
for_each_idle [] s = refl
for_each_idle (x ∷ xs) s = for_each_idle xs s

-- Where the bodies on the elements at hand end.
pub Ends-for_each_in {ℓ κ μ} :
    {A : Type ℓ} {S : Type κ} (P : A → Type μ) (body : A → S → Option S)
    → ((x : A) → P x → (s : S) → Ends (body x s))
    → (xs : List A) → All P xs
    → (s : S) → Ends (for_each body xs s)
Ends-for_each_in P body h [] all s = (s, refl)
Ends-for_each_in P body h (x ∷ xs) all s =
    Ends-bind (body x s) (for_each body xs) (h x all.0 s)
      (λ t. Ends-for_each_in P body h xs all.1 t)
