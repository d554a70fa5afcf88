-- ===== src/SecurityChecks/Errno.antt =====
-- isValueErrno of SecurityChecks.cc, with ERRNO_TYPE 2.
use crix.Base.{
  ℕ, zero, suc, ◌+◌, ◌-◌, ◌*◌, ◌/◌, ◌%◌, ◌^◌, ◌≤◌, ◌<◌, ◌≡◌, ◌⊎◌, ◌↔◌, Bool, true, false, ◌||◌,
  ◌&&◌, Option, none, some, List, [], ◌∷◌, arith, ◌==◌, ltb_ℤ, ℤ, pos, negsuc, neg, ◌<ℤ◌,
  if◌then◌else◌, ◌>>=◌,
}
use crix.Ir.{Ir, Node}
use crix.Ir.Kinds.{null}

abbrev pub errno_prefix : ℕ
errno_prefix = 0x4cedb000

-- The low 32 bits of a 64-bit integer in two's complement.
abbrev pub low_word : ℤ → ℕ
low_word (pos n) = n % 2 ^ 32
low_word (negsuc n) = 2 ^ 32 - 1 - n % 2 ^ 32

-- is_errno: ERRNO_MASK is the unsigned 0xfffff000, so `x & ERRNO_MASK` is the low word with its low
-- twelve bits cleared.
unfoldable pub is_errno : ℤ → Bool
is_errno x = low_word x / 4096 * 4096 == errno_prefix

-- The test of a ConstantInt.
unfoldable pub is_int_errno : ℤ → Bool
unfolding is_errno
is_int_errno value =
    is_errno (neg value) || is_errno value || (ltb_ℤ (negsuc 4095) value && ltb_ℤ value (pos 0))

-- A constant expression is searched down its operands.
unfoldable pub any_errno : (ℕ → Option Bool) → List ℕ → Option Bool
any_errno go [] = some false
any_errno go (o ∷ os) = go o >>= λ b. if b then some true else any_errno go os

module _ (ir : Ir) where
  -- isValueErrno(V, F); the fuel bounds the nesting of constant expressions.
  unfoldable pub is_value_errno : ℕ → ℕ → ℕ → Option Bool
  unfolding is_int_errno any_errno
  is_value_errno zero v f = none
  is_value_errno (suc fuel) v f =
      let nested = λ (o : ℕ). is_value_errno fuel o f in
      if v == null then some false else elim (ir.node v) [
        | Node.constant_int value ↦ some (is_int_errno value)
        | Node.constant_null ↦ some (ir.returns_pointer f)
        | Node.constant_expr o os ↦ any_errno nested (o ∷ os)
        | _ ↦ some false
      ]

masked_iff :
    (w : ℕ)
    → ((w / 4096 * 4096 == errno_prefix) ≡ true) ↔ ((errno_prefix ≤ w) × (w < errno_prefix + 4096))
masked_iff w = ground arith

or_iff {ℓ κ μ} :
    {P : Type ℓ} {Q : Type κ} {R : Type μ} (a b c : Bool)
    → ((a ≡ true) ↔ P)
    → ((b ≡ true) ↔ Q)
    → ((c ≡ true) ↔ R)
    → ((a || b || c) ≡ true) ↔ (R ⊎ (Q ⊎ P))
or_iff a b c p q r = ground arith

small_iff :
    (v : ℤ)
    → ((ltb_ℤ (negsuc 4095) v && ltb_ℤ v (pos 0)) ≡ true) ↔ ((negsuc 4095 <ℤ v) × (v <ℤ pos 0))
small_iff v = ground arith

-- A constant integer is an error code exactly when it lies between -4095 and -1, or the low word of
-- it or of its negation lies in the 4096 numbers from 0x4cedb000 on.
pub is_int_errno_iff :
    (value : ℤ)
    → (is_int_errno value ≡ true) ↔ (
        (negsuc 4095 <ℤ value) × (value <ℤ pos 0)
        ⊎ ((errno_prefix ≤ low_word value) × (low_word value < errno_prefix + 4096)
            ⊎ (errno_prefix ≤ low_word (neg value)) × (low_word (neg value) < errno_prefix + 4096)))
unfolding is_int_errno
is_int_errno_iff value =
    or_iff _ _ _ (masked_iff (low_word (neg value))) (masked_iff (low_word value)) (small_iff value)
