-- ===== src/Ir/Calls.antt =====
-- Arguments of calls: the `int8_t` argument numbers that the passes compute, and the tables of
-- functions by name.
use Prim.Native.String.{String}
use text.Mathlib.Text.{◌==◌ as str_eq}
use crix.Base.{
  ℕ, ◌+◌, ◌-◌, ◌%◌, Bool, true, false, ◌||◌, Option, none, some, List, [], ◌∷◌, ℤ, pos, negsuc,
  if◌then◌else◌, ◌==◌, ltb,
}

-- How often the loop over the arguments runs `++ArgNo`: it breaks at the value, if it is there.
abbrev pub arg_steps : ℕ → List ℕ → ℕ
arg_steps v [] = 0
arg_steps v (a ∷ as') = if v == a then 1 else 1 + arg_steps v as'

-- An int8_t that began at -1, after so many increments.
unfoldable pub int8_after : ℕ → ℤ
int8_after n = let w = (n + 255) % 256 in if ltb w 128 then pos w else negsuc (255 - w)

-- The number of the argument that a value is: that of the last argument if it is none.
unfoldable pub arg_no : ℕ → List ℕ → ℤ
unfolding int8_after
arg_no v args = int8_after (arg_steps v args)

-- std::map::find of a name.
abbrev pub find_name {ℓ} : {A : Type ℓ} → String → List (String × A) → Option A
find_name s [] = none
find_name s ((k, a) ∷ m) = if str_eq s k then some a else find_name s m

abbrev pub starts_with : String → String → Bool
starts_with String.[] s = true
starts_with (String.◌∷◌ c p) String.[] = false
starts_with (String.◌∷◌ c p) (String.◌∷◌ d s) =
    if str_eq (String.◌∷◌ c String.[]) (String.◌∷◌ d String.[]) then starts_with p s else false

-- StringRef::contains
abbrev pub contains : String → String → Bool
contains p String.[] = starts_with p String.[]
contains p (String.◌∷◌ c s) = starts_with p (String.◌∷◌ c s) || contains p s
