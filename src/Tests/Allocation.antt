-- ===== src/Tests/Allocation.antt =====
-- An allocator that takes the address behind all that have been written.
use cplr.Base.{◌+◌, ◌<◌, ◌≡◌, ◌≢◌, refl, none, [], ◌∷◌, ltb, if◌then◌else◌, arith}
use cplr.State.Context.{Ptr, null}
use cplr.Cext.Memory.{Memory, Allocator, lookup}

abbrev pub top : Memory → Ptr
top [] = 0
top ((p, c) ∷ m) = let t = top m in if ltb t p then p else t

above_top : (a : Ptr) (m : Memory) → top m < a → lookup a m ≡ none
above_top a [] h = refl
above_top a ((p, c) ∷ m) h = ground (arith, above_top a m)

pub next_ne_null : (m : Memory) → top m + 1 ≢ null
next_ne_null m = omega arith

pub next_unused : (m : Memory) → lookup (top m + 1) m ≡ none
next_unused m = above_top (top m + 1) m (omega arith)

abbrev pub bump : Allocator
bump = record {
  malloc = λ m. top m + 1;
  malloc_ne_null = next_ne_null;
  malloc_unused = next_unused;
}
