-- ===== src/MissingChecks/Keeps.antt =====
-- Properties of the counters of MissingChecks.cc that an operation keeps.
use crix.Base.{
  ℕ, ◌≡◌, Bool, true, false, Option, some, List, if◌then◌else◌, ◌>>=◌, >>=-eq-some, some_inj, subst,
  for_each, for_each_inv,
}
use crix.MissingChecks.Model.{Counts}

module _ (P : Counts → Type 0) where
  -- An operation that keeps a property of the counters if it returns.
  abbrev pub Keeps : (Counts → Option Counts) → Type 0
  Keeps g = (c c' : Counts) → P c → g c ≡ some c' → P c'

  -- Under a test whose other branch changes nothing.
  pub Keeps-if :
      (g : Counts → Option Counts) (b : Bool) → Keeps g → Keeps (λ c. if b then g c else some c)
  Keeps-if g true k c c' t h = k c c' t h
  Keeps-if g false k c c' t h = subst P (some_inj h) t

  pub Keeps-unless :
      (g : Counts → Option Counts) (b : Bool) → Keeps g → Keeps (λ c. if b then some c else g c)
  Keeps-unless g true k c c' t h = subst P (some_inj h) t
  Keeps-unless g false k c c' t h = k c c' t h

  pub Keeps-each :
      (body : ℕ → Counts → Option Counts)
      → ((x : ℕ) → Keeps (body x))
      → (xs : List ℕ) → Keeps (for_each body xs)
  Keeps-each body keeps xs c c' t h =
      for_each_inv P body (λ x c c' t h. keeps x c c' t h) xs c c' t h

  -- What a run that returns ends with, after a step that returns.
  pub after_step {ℓ} :
      {A : Type ℓ} (m : Option A) (k : A → Option Counts) (c' : Counts)
      → ((a : A) → k a ≡ some c' → P c')
      → (m >>= k) ≡ some c'
      → P c'
  after_step m k c' g h = let (a, e, h') = >>=-eq-some m k h in g a h'
