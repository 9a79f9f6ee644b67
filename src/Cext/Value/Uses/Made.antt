-- ===== src/Cext/Value/Uses/Made.antt =====
-- The values that come out of the setters, and what the getters make of them.
use Prim.Native.Nat.{bit_and}
use cplr.Base.{
  ℕ, ◌<◌, ◌≡◌, ◌≢◌, refl, sym, ap, ◌∙◌, true, false, none, some, Bool-cases, inl, inr, ◌==◌, arith,
}
use cplr.Base.Outcome.{Outcome, aborts, ◌>>=◌, Returns, returns}
use cplr.Base.Text.{Text}
use cplr.State.Context.{Ptr, null}
use cplr.Cext.Types
use cplr.Cext.Types.{Simple, type_code, vteq_mask, vt_string, vt_pointer, vtf_pointer, has_flag}
use cplr.Cext.Memory.{Value, Memory, heap_text, static_text, lookup, write, read_text}
use cplr.Cext.Value.{
  empty_value, value_clear, stored, value_get, value_get_str, value_get_ptr, asserted,
  value_has_type,
}
use cplr.Cext.Value.Laws.{masked, value_get-stored}
use cplr.Cext.Value.Strings.{owned, static, string_value, value_clear-string, read_text-text_cell}
use cplr.Cext.Value.Uses.{number, address, View, nothing, text, Typed}

type_code_bounds : (k : Simple) → (1 < type_code k) × (type_code k < 25)
type_code_bounds Types.bool = ground arith
type_code_bounds k = ground arith

pub no_pointer : (k : Simple) → has_flag (type_code k) vtf_pointer ≡ false
no_pointer Types.bool = refl
no_pointer k = ground arith

abbrev pub Same : (m₀ m : Memory) → Type 0
Same m₀ m = (a : Ptr) → lookup a m ≡ lookup a m₀

-- The values that there are.
pub data Made (m₀ : Memory) : View → Value × Memory → Type 0 where
  as_nothing : {m : Memory} → Same m₀ m → Made m₀ nothing (empty_value, m)
  as_number :
      {m : Memory} (k : Simple) (x : ℕ)
      → Same m₀ m
      → Made m₀ (number k x) (record { type = type_code k; payload = stored k x }, m)
  as_static :
      {m : Memory} (p : Ptr) (s : Text)
      → p ≢ null
      → lookup p m₀ ≡ some (static_text s)
      → Same m₀ m
      → Made m₀ (text s) (string_value static p, m)
  as_owned :
      {m : Memory} (p : Ptr) (s : Text)
      → p ≢ null
      → lookup p m₀ ≡ none
      → lookup p m ≡ some (heap_text s)
      → ((a : Ptr) → a ≢ p → lookup a m ≡ lookup a m₀)
      → Made m₀ (text s) (string_value owned p, m)
  as_address :
      {m : Memory} (p : Ptr)
      → Same m₀ m
      → Made m₀ (address p) (record { type = 0x2010001; payload = p }, m)

eq_of : (a b : Ptr) → (a == b) ≡ true → a ≡ b
eq_of a b h = ground arith

-- A write to an address that was not in use is undone by giving it back.
pub given_back :
    (m₀ m : Memory) (p : Ptr)
    → lookup p m₀ ≡ none
    → ((a : Ptr) → a ≢ p → lookup a m ≡ lookup a m₀)
    → Same m₀ (write p none m)
given_back m₀ m p e h a = elim (Bool-cases (a == p)) [
  | inl here ↦ rw here (sym e ∙ ap (λ a. lookup a m₀) (sym (eq_of a p here)))
  | inr other ↦ rw other (h a (ground arith))
]

pub Made-clears :
    (m₀ : Memory) (w : View) (v : Value) (m : Memory)
    → Made m₀ w (v, m)
    → Returns (λ (u, m'). (u ≡ empty_value) × Same m₀ m') (value_clear v m)
unfolding value_clear
Made-clears m₀ w v m (as_nothing h) = returns (refl, h)
Made-clears m₀ w v m (as_number k x h) = rw (no_pointer k) (returns (refl, h))
Made-clears m₀ w v m (as_static p s ne e h) = returns (refl, h)
Made-clears m₀ w v m (as_owned p s ne e there h) =
    rw (value_clear-string m p s owned ne there) (returns (refl, given_back m₀ m p e h))
Made-clears m₀ w v m (as_address p h) = returns (refl, h)

not_zero : (k : Simple) → (0 == type_code k) ≡ false
not_zero k = let b = type_code_bounds k in ground arith

not_code : (k : Simple) (c : ℕ) → 24 < c → (c == type_code k) ≡ false
not_code k c h = let b = type_code_bounds k in ground arith

other_code : (k : Simple) (c : ℕ) → 24 < c → (type_code k == c) ≡ false
other_code k c h = let b = type_code_bounds k in ground arith

other_number :
    (j : Simple) (t p : ℕ)
    → (bit_and t vteq_mask == type_code j) ≡ false
    → value_get j (record { type = t; payload = p }) ≡ aborts
unfolding value_get asserted value_has_type
other_number j t p h = rw (masked j, h) refl

other_text :
    (k : Simple) (x : ℕ) → value_get_str (record { type = type_code k; payload = x }) ≡ aborts
unfolding value_get_str asserted value_has_type
other_text k x = rw (masked k, other_code k 0x70003 (omega arith)) refl

other_address :
    (k : Simple) (x : ℕ) → value_get_ptr (record { type = type_code k; payload = x }) ≡ aborts
unfolding value_get_ptr asserted value_has_type
other_address k x = rw (masked k, other_code k 0x10001 (omega arith)) refl

pub getters_of :
    (m₀ : Memory) (w : View) (v : Value) (m : Memory) → Made m₀ w (v, m) → Typed m₀ w (v, m)
unfolding value_get_str value_get_ptr asserted value_has_type
getters_of m₀ w v m (as_nothing h) = record {
  numbers = λ j. other_number j 0 0 (not_zero j);
  texts = refl;
  addresses = refl;
  clears = Made-clears m₀ w v m (as_nothing h);
}
getters_of m₀ w v m (as_number k x h) = record {
  numbers = λ j. value_get-stored j k x;
  texts = ap (λ (o : Outcome Ptr). o >>= (λ p. read_text p m)) (other_text k (stored k x));
  addresses = other_address k (stored k x);
  clears = Made-clears m₀ w v m (as_number k x h);
}
getters_of m₀ w v m (as_static p s ne e h) = record {
  numbers = λ j. other_number j 0x2070003 p (not_code j 0x70003 (omega arith));
  texts = read_text-text_cell m p s static (h p ∙ e);
  addresses = refl;
  clears = Made-clears m₀ w v m (as_static p s ne e h);
}
getters_of m₀ w v m (as_owned p s ne e there h) = record {
  numbers = λ j. other_number j 0x1070003 p (not_code j 0x70003 (omega arith));
  texts = read_text-text_cell m p s owned there;
  addresses = refl;
  clears = Made-clears m₀ w v m (as_owned p s ne e there h);
}
getters_of m₀ w v m (as_address p h) = record {
  numbers = λ j. other_number j 0x2010001 p (not_code j 0x10001 (omega arith));
  texts = refl;
  addresses = refl;
  clears = Made-clears m₀ w v m (as_address p h);
}
