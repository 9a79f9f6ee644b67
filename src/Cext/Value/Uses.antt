-- ===== src/Cext/Value/Uses.antt =====
-- A value that is set and cleared in any order, by the functions of source/cext_value.c.
pub mod Made
pub mod Sound
use Prim.Native.Nat.{bit_and}
use cplr.Base.{
  ℕ, ◌<◌, ◌≡◌, ◌≢◌, refl, sym, ap, subst, ◌∙◌, Bool, true, false, Option, none, some, List, [], ◌∷◌,
  All, Bool-cases, inl, inr, ◌==◌, if◌then◌else◌, arith,
}
use cplr.Base.Outcome.{Outcome, done, aborts, ◌>>=◌, Returns, returns, Returns-bind, Returns-mono}
use cplr.Base.Text.{Text}
use cplr.State.Context.{Ptr, null}
use cplr.Cext.Types
use cplr.Cext.Types.{Simple, type_code, vteq_mask, vt_string, vt_pointer, vtf_pointer, has_flag}
use cplr.Cext.Memory.{
  Value, Memory, Cell, heap_text, static_text, Allocator, lookup, write, lookup-write,
  lookup-write_self, read_text, strdup,
}
use cplr.Cext.Value.{
  empty_value, value_clear, value_set, stored, as_arg, value_get, value_get_str, value_get_ptr,
  value_set_str, set_owned, set_static, asserted, value_has_type,
}
use cplr.Cext.Value.Laws.{masked, value_get-stored}
use cplr.Cext.Value.Strings.{
  Kind, owned, static, string_value, text_cell, value_clear-string, malloc_apart,
  read_text-text_cell,
}

-- What is done with a value: it is cleared, or set to a number, to a copy of a string, to a new
-- string that it owns from then on, to a string that is not allocated, or to an address.
pub data Use : Type 0 where
  cleared : Use
  number : Simple → ℕ → Use
  copied given : Ptr → Text → Use
  literal : Ptr → Text → Use
  address : Ptr → Use

-- What a value is seen to be.
pub data View : Type 0 where
  nothing : View
  number : Simple → ℕ → View
  text : Text → View
  address : Ptr → View

-- What is seen behind a use, whatever the value has been.
abbrev pub seen : Use → View
seen cleared = nothing
seen (number k x) = number k x
seen (copied p s) = text s
seen (given p s) = text s
seen (literal p s) = text s
seen (address p) = address p

abbrev pub last_seen : View → List Use → View
last_seen w [] = w
last_seen w (o ∷ os) = last_seen (seen o) os

-- The strings are there.
abbrev pub Readable : Memory → Use → Type 0
Readable m (copied p s) = (k : Kind) × (lookup p m ≡ some (text_cell k s))
Readable m (given p s) = (k : Kind) × (lookup p m ≡ some (text_cell k s))
Readable m (literal p s) = (p ≢ null) × (lookup p m ≡ some (static_text s))
Readable m _ = Unit

module _ (A : Allocator) where
  -- The setters; the caller makes the string that it gives away.
  unfoldable pub use_value : Use → Value → Memory → Outcome (Value × Memory)
  unfolding value_clear value_set value_set_str set_owned set_static strdup
  use_value cleared v m = value_clear v m
  use_value (number k x) v m = value_set k v x m
  use_value (copied p s) v m = value_set_str A v p m
  use_value (given p s) v m = do (q, m') ← strdup A p m; set_owned vt_string v q m'
  use_value (literal p s) v m = set_static vt_string v p m
  use_value (address p) v m = set_static vt_pointer v p m

  unfoldable pub use_values : List Use → Value → Memory → Outcome (Value × Memory)
  unfolding use_value
  use_values [] v m = done (v, m)
  use_values (o ∷ os) v m = do (v', m') ← use_value o v m; use_values os v' m'

-- What the getters give.
abbrev pub number_of : Simple → View → Outcome ℕ
number_of j (number k x) = if type_code k == type_code j then done (as_arg k x) else aborts
number_of j _ = aborts

abbrev pub text_of : View → Outcome Text
text_of (text s) = done s
text_of _ = aborts

abbrev pub address_of : View → Outcome Ptr
address_of (address p) = done p
address_of _ = aborts

-- A value that is what it is seen to be, and owns nothing but its string.
pub record Typed (m₀ : Memory) (w : View) (x : Value × Memory) : Type 0 where
  pub numbers : (j : Simple) → value_get j x.0 ≡ number_of j w
  pub texts : (do p ← value_get_str x.0; read_text p x.1) ≡ text_of w
  pub addresses : value_get_ptr x.0 ≡ address_of w
  pub clears :
      Returns
        (λ (u, m). (u ≡ empty_value) × ((a : Ptr) → lookup a m ≡ lookup a m₀))
        (value_clear x.0 x.1)
