-- ===== src/SecurityChecks/Flags.antt =====
-- The error flags of SecurityChecks.h and the updates of SecurityChecks.cc on them. An `int` that
-- holds a set of the nine ErrFlag bits is a record: the low half (ERR_RETURN_MASK), the high half
-- (ERR_HANDLE_MASK) and Completed_Flag. So `x & mask` is a field, and
-- `(x & ~mask) | (y & mask)` replaces a field.
use crix.Base.{Bool, true, false, ◌&&◌, ◌||◌, not, if◌then◌else◌}

-- Four bits: Must_…_Err, May_…_Err and the two reserved ones.
pub record Half : Type 0 where
  pub must : Bool
  pub may : Bool
  pub reserved1 : Bool
  pub reserved2 : Bool

pub record Flags : Type 0 where
  pub returns : Half
  pub handles : Half
  pub completed : Bool

abbrev pub none_of : Half
none_of = record { must = false; may = false; reserved1 = false; reserved2 = false }

abbrev pub must_of : Half
must_of = record { must = true; may = false; reserved1 = false; reserved2 = false }

abbrev pub may_of : Half
may_of = record { must = false; may = true; reserved1 = false; reserved2 = false }

abbrev pub no_flag : Flags
no_flag = record { returns = none_of; handles = none_of; completed = false }

abbrev pub must_return_err : Flags
must_return_err = record no_flag { returns = must_of }

abbrev pub may_return_err : Flags
may_return_err = record no_flag { returns = may_of }

abbrev pub must_handle_err : Flags
must_handle_err = record no_flag { handles = must_of }

-- `x & mask` as a condition.
abbrev pub any : Half → Bool
any h = h.must || h.may || h.reserved1 || h.reserved2

abbrev pub same_bit : Bool → Bool → Bool
same_bit true b = b
same_bit false b = not b

-- `(x & mask) == (y & mask)`
abbrev pub same_half : Half → Half → Bool
same_half a b =
    same_bit a.must b.must
    && same_bit a.may b.may
    && same_bit a.reserved1 b.reserved1
    && same_bit a.reserved2 b.reserved2

abbrev pub half_or : Half → Half → Half
half_or a b = record {
  must = a.must || b.must;
  may = a.may || b.may;
  reserved1 = a.reserved1 || b.reserved1;
  reserved2 = a.reserved2 || b.reserved2;
}

-- `x | y`
abbrev pub flags_or : Flags → Flags → Flags
flags_or x y = record {
  returns = half_or x.returns y.returns;
  handles = half_or x.handles y.handles;
  completed = x.completed || y.completed;
}

unfoldable pub update_return_flag : Flags → Flags → Flags
update_return_flag err new = if any new.returns then record err { returns = new.returns } else err

unfoldable pub update_handle_flag : Flags → Flags → Flags
update_handle_flag err new =
    if err.handles.must
    then err
    else if any new.handles
    then record err { handles = new.handles }
    else err

-- The first ladder of mergeFlag, which sets bits of the low half.
unfoldable pub merge_returns : Half → Half → Half
merge_returns err new =
    if err.must && new.must
    then must_of
    else if err.may || new.may
    then may_of
    else if not (any err)
    then new
    else err

-- The second ladder: `(returns, handles)`, the bits that it sets in each half. Its second branch sets
-- May_Return_Err.
unfoldable pub merge_handles : Half → Half → Half × Half
merge_handles err new =
    if err.must && new.must
    then (none_of, must_of)
    else if err.may || new.may
    then (may_of, none_of)
    else if not (any err)
    then (none_of, new)
    else (none_of, err)

unfoldable pub merge_flag : Flags → Flags → Flags
unfolding merge_returns merge_handles
merge_flag err new = record {
  returns =
      half_or (merge_returns err.returns new.returns) (merge_handles err.handles new.handles).0;
  handles = (merge_handles err.handles new.handles).1;
  completed = false;
}
