-- ===== src/Cext/Value/Strings.antt =====
-- The values that are strings.
use cplr.Base.{ℕ, ◌≡◌, ◌≢◌, refl, Bool, true, false, none, some, arith}
use cplr.Base.Outcome.{done, ◌>>=◌, Returns, returns}
use cplr.Base.Text.{Text}
use cplr.State.Context.{Ptr, null}
use cplr.Cext.Memory.{
  Value, Memory, Cell, heap_text, static_text, Allocator, lookup, write, free, cext_ptrfree,
  read_text, strdup,
}
use cplr.Cext.Value.{
  empty_value, value_clear, value_has_type, asserted, value_get_str, value_set_str, value_clone,
}

-- Strings that are owned, that are not, and copies of those that are not, which keep the flag
-- for a static string beside the one for an owned string.
pub data Kind : Type 0 where
  owned static copied : Kind

abbrev pub type_of : Kind → ℕ
type_of owned = 0x1070003
type_of static = 0x2070003
type_of copied = 0x3070003

abbrev pub is_owned : Kind → Bool
is_owned static = false
is_owned _ = true

abbrev pub copy_of : Kind → Kind
copy_of owned = owned
copy_of _ = copied

abbrev pub string_value : Kind → Ptr → Value
string_value k p = record { type = type_of k; payload = p }

abbrev pub text_cell : Kind → Text → Cell
text_cell static s = static_text s
text_cell _ s = heap_text s

-- What memory is after a value's string has been given back.
abbrev pub without : Kind → Ptr → Memory → Memory
without static p m = m
without _ p m = write p none m

module _ (m : Memory) (p : Ptr) (s : Text) where
  pub read_text-text_cell : (k : Kind) → lookup p m ≡ some (text_cell k s) → read_text p m ≡ done s
  unfolding read_text
  read_text-text_cell owned e = rw e refl
  read_text-text_cell static e = rw e refl
  read_text-text_cell copied e = rw e refl

  free_text : p ≢ null → lookup p m ≡ some (heap_text s) → free p m ≡ done (write p none m)
  unfolding free
  free_text ne e = rw (e) (ground arith)

  pub value_clear-string :
      (k : Kind)
      → p ≢ null
      → lookup p m ≡ some (text_cell k s)
      → value_clear (string_value k p) m ≡ done (empty_value, without k p m)
  unfolding value_clear cext_ptrfree
  value_clear-string owned ne e = rw (free_text ne e) refl
  value_clear-string static ne e = refl
  value_clear-string copied ne e = rw (free_text ne e) refl

pub value_get_str-string : (k : Kind) (p : Ptr) → value_get_str (string_value k p) ≡ done p
unfolding value_get_str asserted value_has_type
value_get_str-string owned p = refl
value_get_str-string static p = refl
value_get_str-string copied p = refl

-- An address in use is not the one that `malloc` returns.
pub malloc_apart :
    (A : Allocator) (m : Memory) (p : Ptr) {c : Cell} → lookup p m ≡ some c → p ≢ A.malloc m
malloc_apart A m p e h = cc (A.malloc_unused m)

module _ (A : Allocator) (m : Memory) (p : Ptr) (s : Text) where
  strdup_lem :
      (k : Kind)
      → lookup p m ≡ some (text_cell k s)
      → strdup A p m ≡ done (A.malloc m, write (A.malloc m) (some (heap_text s)) m)
  unfolding strdup
  strdup_lem k e = rw (read_text-text_cell m p s k e) refl

  pub value_clone-string :
      (k : Kind)
      → lookup p m ≡ some (text_cell k s)
      → value_clone A (string_value k p) m
        ≡ done (string_value (copy_of k) (A.malloc m), write (A.malloc m) (some (heap_text s)) m)
  unfolding value_clone value_has_type
  value_clone-string owned e = rw (strdup_lem owned e) refl
  value_clone-string static e = rw (strdup_lem static e) refl
  value_clone-string copied e = rw (strdup_lem copied e) refl

  -- A string that is set by copying is given back by the clearing, and then every address holds
  -- what it held.
  value_set_str-value_clear :
      (k : Kind)
      → lookup p m ≡ some (text_cell k s)
      → Returns
          (λ m₂. (a : Ptr) → lookup a m₂ ≡ lookup a m)
          (do (v, m₁) ← value_set_str A empty_value p m; (_, m₂) ← value_clear v m₁; done m₂)
  unfolding value_set_str
  value_set_str-value_clear k e =
      let q = A.malloc m in
      let m₁ = write q (some (heap_text s)) m in
      let there : lookup q m₁ ≡ some (heap_text s) = ground arith in
      let unused = A.malloc_unused m in
      rw (strdup_lem k e, value_clear-string m₁ q s owned (A.malloc_ne_null m) there)
        (returns (λ a. ground arith))
