-- ===== src/Cext/Value/Uses/Sound.antt =====
-- Setters and clearing in any order.
use cplr.Base.{
  ◌≡◌, ◌≢◌, refl, sym, ap, subst, ◌∙◌, Option, none, some, List, [], ◌∷◌, All, ◌==◌, if◌then◌else◌,
  arith,
}
use cplr.Base.Outcome.{Returns, returns, Returns-bind, Returns-mono}
use cplr.Base.Text.{Text}
use cplr.State.Context.{Ptr, null}
use cplr.Cext.Memory.{
  Value, Memory, Cell, heap_text, Allocator, lookup, write, lookup-write, lookup-write_self, strdup,
}
use cplr.Cext.Value.{empty_value, value_clear, value_set, value_set_str, set_owned, set_static}
use cplr.Cext.Value.Strings.{
  Kind, owned, string_value, text_cell, value_clear-string, read_text-text_cell,
}
use cplr.Cext.Value.Uses.{
  Use, cleared, number, copied, given, literal, address, View, nothing, text, seen, last_seen,
  Readable, use_value, use_values, Typed,
}
use cplr.Cext.Value.Uses.Made.{
  Same, Made, as_nothing, as_number, as_static, as_owned, as_address, given_back, Made-clears,
  no_pointer, getters_of,
}

module _ (A : Allocator) (m₀ : Memory) where
  -- What is allocated for a string.
  fresh_text :
      (p : Ptr) (s : Text) (m : Memory) (k : Kind)
      → lookup p m₀ ≡ some (text_cell k s)
      → Same m₀ m
      → Returns
          (λ (q, m'). (q ≢ null) × (lookup q m₀ ≡ none) × (m' ≡ write q (some (heap_text s)) m))
          (strdup A p m)
  unfolding strdup
  fresh_text p s m k e h =
      rw (read_text-text_cell m p s k (h p ∙ e))
        (returns (A.malloc_ne_null m, sym (h (A.malloc m)) ∙ A.malloc_unused m, refl))

  owns_fresh :
      (q : Ptr) (s : Text) (m : Memory)
      → q ≢ null
      → lookup q m₀ ≡ none
      → Same m₀ m
      → Made m₀ (text s) (string_value owned q, write q (some (heap_text s)) m)
  owns_fresh q s m ne e h =
      as_owned q s ne e (lookup-write_self q (some (heap_text s)) m)
        λ a apart. lookup-write a q (some (heap_text s)) m apart ∙ h a

  -- What is in use is not the string of the value.
  Made-kept :
      (p : Ptr) (w : View) (v : Value) (m : Memory)
      → Made m₀ w (v, m)
      → lookup p m₀ ≢ none
      → lookup p m ≡ lookup p m₀
  Made-kept p w v m (as_nothing h) used = h p
  Made-kept p w v m (as_number k x h) used = h p
  Made-kept p w v m (as_static q s ne e h) used = h p
  Made-kept p w v m (as_owned q s ne e there h) used = h p (λ i. used (ap (λ a. lookup a m₀) i ∙ e))
  Made-kept p w v m (as_address q h) used = h p

  -- The string of a value is given back beside a new one.
  clears_beside :
      (q : Ptr) (s : Text) (w : View) (v : Value) (m : Memory)
      → q ≢ null
      → lookup q m ≡ none
      → Made m₀ w (v, m)
      → Returns
          (λ (u, m'). Made m₀ (text s) (string_value owned q, m'))
          (value_clear v (write q (some (heap_text s)) m))
  unfolding value_clear
  clears_beside q s w v m ne e (as_nothing h) = returns (owns_fresh q s m ne (sym (h q) ∙ e) h)
  clears_beside q s w v m ne e (as_number k x h) =
      rw (no_pointer k) (returns (owns_fresh q s m ne (sym (h q) ∙ e) h))
  clears_beside q s w v m ne e (as_static p t ne' e' h) =
      returns (owns_fresh q s m ne (sym (h q) ∙ e) h)
  clears_beside q s w v m ne e (as_owned p t ne' e' there h) =
      let apart : q ≢ p = λ i. cc in
      let m₁ = write q (some (heap_text s)) m in
      let there' : lookup p m₁ ≡ some (heap_text t) = ground arith in
      rw (value_clear-string m₁ p t owned ne' there') (
        returns (
          as_owned q s ne (sym (h q apart) ∙ e) (ground arith) λ a o.
            ap (λ (o : Option Cell). if a == p then none else o)
              (lookup-write a q (some (heap_text s)) m o)
            ∙ given_back m₀ m p e' h a))
  clears_beside q s w v m ne e (as_address p h) = returns (owns_fresh q s m ne (sym (h q) ∙ e) h)

  use_value-Made :
      (o : Use) (w : View) (v : Value) (m : Memory)
      → Readable m₀ o
      → Made m₀ w (v, m)
      → Returns (Made m₀ (seen o)) (use_value A o v m)
  unfolding use_value value_set value_set_str set_static set_owned strdup
  use_value-Made cleared w v m r h =
      Returns-mono (Made-clears m₀ w v m h)
        λ (u, m') (e, k). subst (λ u. Made m₀ nothing (u, m')) (sym e) (as_nothing k)
  use_value-Made (number n x) w v m r h =
      Returns-bind (Made-clears m₀ w v m h) λ (u, m') (e, k). returns (as_number n x k)
  use_value-Made (copied p s) w v m (kind, t) h =
      Returns-bind (Made-clears m₀ w v m h) λ (u, m') (e, k).
        Returns-bind (fresh_text p s m' kind t k) λ (q, m'') (ne, unused, i). returns (
          subst (λ z. Made m₀ (text s) (string_value owned q, z)) (sym i)
            (owns_fresh q s m' ne unused k))
  use_value-Made (given p s) w v m (kind, t) h =
      rw (read_text-text_cell m p s kind (Made-kept p w v m h (λ i. cc) ∙ t)) (
        Returns-bind (clears_beside (A.malloc m) s w v m (A.malloc_ne_null m) (A.malloc_unused m) h)
          λ (u, m') k. returns k)
  use_value-Made (literal p s) w v m (ne, t) h =
      Returns-bind (Made-clears m₀ w v m h) λ (u, m') (e, k). returns (as_static p s ne t k)
  use_value-Made (address p) w v m r h =
      Returns-bind (Made-clears m₀ w v m h) λ (u, m') (e, k). returns (as_address p k)

  use_values-Made :
      (os : List Use) (w : View) (v : Value) (m : Memory)
      → All (Readable m₀) os
      → Made m₀ w (v, m)
      → Returns (Made m₀ (last_seen w os)) (use_values A os v m)
  unfolding use_values
  use_values-Made [] w v m r h = returns h
  use_values-Made (o ∷ os) w v m (r, rs) h =
      Returns-bind (use_value-Made o w v m r h)
        λ (v', m') h'. use_values-Made os (seen o) v' m' rs h'

  -- Whatever is done with an empty value, setters and clearing in any order and the strings in
  -- memory before, returns. A getter then gives what the last setter has been given, if it is of
  -- its type, and else aborts, and clearing the value leaves memory as it was at the beginning.
  pub use_values-Typed :
      (os : List Use)
      → All (Readable m₀) os
      → Returns (Typed m₀ (last_seen nothing os)) (use_values A os empty_value m₀)
  use_values-Typed os r =
      Returns-mono (use_values-Made os nothing empty_value m₀ r (as_nothing (λ a. refl)))
        λ (v, m) h. getters_of m₀ (last_seen nothing os) v m h
