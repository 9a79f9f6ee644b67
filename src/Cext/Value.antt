-- ===== src/Cext/Value.antt =====
-- source/cext_value.c, with the getters of include/cext/value.h.
pub mod Laws
pub mod Strings
pub mod Uses
use Prim.Native.Nat.{bit_and, bit_or}
use cplr.Base.{
  ℕ, ◌+◌, ◌-◌, ◌*◌, ◌%◌, ◌^◌, Bool, true, false, ◌&&◌, Option, none, some, ltb, ◌==◌, if◌then◌else◌,
}
use cplr.Base.Outcome.{Outcome, done, crash, aborts, ◌>>=◌}
use cplr.Base.Text.{Text}
use cplr.State.Context.{Ptr, null}
use cplr.Cext.Types.{
  Simple, bool, char, short, int, long, longlong, int8, int16, int32, int64, off, ssize, type_code,
  field_width, arg_width, vtf_pointer, vtm_owned, vtm_static, vteq_mask, vt_pointer, vt_string,
  has_flag,
}
use cplr.Cext.Memory.{Value, Memory, Allocator, cext_ptrfree, strdup}

abbrev pub empty_value : Value
empty_value = record { type = 0; payload = 0 }

-- The `memset` leaves an empty value.
unfoldable pub value_clear : Value → Memory → Outcome (Value × Memory)
unfolding cext_ptrfree
value_clear v m =
    if has_flag v.type vtf_pointer && has_flag v.type vtm_owned
    then (do (_, m') ← cext_ptrfree v.payload m; done (empty_value, m'))
    else done (empty_value, m)

unfoldable pub value_has_type : Value → ℕ → Bool
value_has_type v t = bit_and v.type vteq_mask == bit_and t vteq_mask

-- `value_assert_type` in front of what a getter does.
unfoldable pub asserted {ℓ} : {A : Type ℓ} → Value → ℕ → Outcome A → Outcome A
unfolding value_has_type
asserted v t k = if value_has_type v t then k else aborts

-- The signed types.
abbrev pub is_signed : Simple → Bool
is_signed char = true
is_signed short = true
is_signed int = true
is_signed long = true
is_signed longlong = true
is_signed int8 = true
is_signed int16 = true
is_signed int32 = true
is_signed int64 = true
is_signed off = true
is_signed ssize = true
is_signed _ = false

-- The bits of a signed number of `w` bits in `w'` bits.
unfoldable pub sign_extend : (w w' : ℕ) → ℕ → ℕ
sign_extend w w' x = if ltb (2 * x) (2 ^ w) then x else x + 2 ^ w' - 2 ^ w

-- The conversion of a number, given by its bits, to the type of the argument.
unfoldable pub as_arg : Simple → ℕ → ℕ
as_arg bool x = if x == 0 then 0 else 1
as_arg k x = x % 2 ^ arg_width k

-- The argument in the type of the field.
unfoldable pub stored : Simple → ℕ → ℕ
unfolding sign_extend as_arg
stored k x =
    if is_signed k then sign_extend (arg_width k) (field_width k) (as_arg k x) else as_arg k x

-- `VALUE_SIMPLE_DEFINE_SETTER`
unfoldable pub value_set : Simple → Value → ℕ → Memory → Outcome (Value × Memory)
unfolding value_clear stored
value_set k v x m = do
  (_, m') ← value_clear v m
  done (record { type = type_code k; payload = stored k x }, m')

-- `VALUE_SIMPLE_INLINE_GETTER`
unfoldable pub value_get : Simple → Value → Outcome ℕ
unfolding asserted
value_get k v = asserted v (type_code k) (done (v.payload % 2 ^ arg_width k))

unfoldable value_get_type : Value → ℕ
value_get_type v = v.type

unfoldable pub value_get_ptr : Value → Outcome Ptr
unfolding asserted
value_get_ptr v = asserted v vt_pointer (done v.payload)

unfoldable pub value_get_str : Value → Outcome Ptr
unfolding asserted
value_get_str v = asserted v vt_string (done v.payload)

-- `ptr_fault`
unfoldable pub ptr_fault : Ptr → Memory → Outcome (Ptr × Memory)
ptr_fault p m = aborts

-- The setters for an address that is owned or is not.
unfoldable pub set_owned : ℕ → Value → Ptr → Memory → Outcome (Value × Memory)
unfolding value_clear
set_owned vtype v p m = do
  (_, m') ← value_clear v m
  done (record { type = bit_or vtype vtm_owned; payload = p }, m')

unfoldable pub set_static : ℕ → Value → Ptr → Memory → Outcome (Value × Memory)
unfolding value_clear
set_static vtype v p m = do
  (_, m') ← value_clear v m
  done (record { type = bit_or vtype vtm_static; payload = p }, m')

-- The setters that clone, by the function that the type is defined with.
unfoldable pub set_cloned :
    (Ptr → Memory → Outcome (Ptr × Memory)) → ℕ → Value → Ptr → Memory → Outcome (Value × Memory)
unfolding value_clear
set_cloned clone vtype v p m = do
  (_, m') ← value_clear v m
  (q, m'') ← clone p m'
  done (record { type = bit_or vtype vtm_owned; payload = q }, m'')

unfoldable pub value_set_ptr : Value → Ptr → Memory → Outcome (Value × Memory)
unfolding set_cloned ptr_fault
value_set_ptr = set_cloned ptr_fault vt_pointer

unfoldable pub value_ref_ptr : Value → Memory → Outcome (Ptr × Memory)
unfolding asserted ptr_fault
value_ref_ptr v m = asserted v vt_pointer (ptr_fault v.payload m)

module _ (A : Allocator) where
  unfoldable pub value_set_str : Value → Ptr → Memory → Outcome (Value × Memory)
  unfolding set_cloned strdup
  value_set_str = set_cloned (strdup A) vt_string

  unfoldable pub value_ref_str : Value → Memory → Outcome (Ptr × Memory)
  unfolding asserted strdup
  value_ref_str v m = asserted v vt_string (strdup A v.payload m)

  unfoldable pub value_clone : Value → Memory → Outcome (Value × Memory)
  unfolding value_has_type strdup
  value_clone v m =
      if value_has_type v vt_string
      then (do
        (p, m') ← strdup A v.payload m
        done (record { type = bit_or v.type vtm_owned; payload = p }, m'))
      else if has_flag v.type vtf_pointer && has_flag v.type vtm_owned
      then aborts
      else done (v, m)
