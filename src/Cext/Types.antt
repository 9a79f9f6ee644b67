-- ===== src/Cext/Types.antt =====
-- The types of values of include/cext/value.h.
use Prim.Native.Nat.{bit_and}
use cplr.Base.{ℕ, Bool, true, false, ◌==◌}

-- The types that are no pointers, `VT_BOOL` to `VT_SSIZE`.
pub data Simple : Type 0 where
  bool char short ushort int uint long ulong longlong ulonglong : Simple
  int8 int16 int32 int64 uint8 uint16 uint32 uint64 : Simple
  float double off size ssize : Simple

abbrev pub type_code : Simple → ℕ
type_code bool = 2
type_code char = 3
type_code short = 4
type_code ushort = 5
type_code int = 6
type_code uint = 7
type_code long = 8
type_code ulong = 9
type_code longlong = 10
type_code ulonglong = 11
type_code int8 = 12
type_code int16 = 13
type_code int32 = 14
type_code int64 = 15
type_code uint8 = 16
type_code uint16 = 17
type_code uint32 = 18
type_code uint64 = 19
type_code float = 20
type_code double = 21
type_code off = 22
type_code size = 23
type_code ssize = 24

-- The bits of the field in the union, where `int` has 32 bits and `long` has 64.
abbrev pub field_width : Simple → ℕ
field_width bool = 1
field_width char = 8
field_width short = 16
field_width ushort = 16
field_width int = 32
field_width uint = 32
field_width int8 = 8
field_width int16 = 16
field_width int32 = 32
field_width uint8 = 8
field_width uint16 = 16
field_width uint32 = 32
field_width float = 32
field_width _ = 64

-- The bits of the argument of the setter and of the result of the getter.
abbrev pub arg_width : Simple → ℕ
arg_width long = 16
arg_width k = field_width k

-- The masks and flags.
abbrev pub vtf_pointer : ℕ
vtf_pointer = 0x10000

abbrev pub vtm_owned : ℕ
vtm_owned = 0x1000000

abbrev pub vtm_static : ℕ
vtm_static = 0x2000000

abbrev pub vteq_mask : ℕ
vteq_mask = 0xFFFFFF

-- `VT_VOID | VTF_POINTER`
abbrev pub vt_pointer : ℕ
vt_pointer = 0x10001

-- `VT_CHAR | VTF_ARRAYZ`
abbrev pub vt_string : ℕ
vt_string = 0x70003

-- `type & flag`
abbrev pub has_flag : ℕ → ℕ → Bool
has_flag type flag = elim (bit_and type flag == 0) [ true ↦ false | false ↦ true ]
