-- ===== src/Cext/Memory.antt =====
-- Memory, and source/cext_memory.c. A function that cannot allocate ends the program by `abort`,
-- so allocation is one that succeeds.
use cplr.Base.{ℕ, ◌≡◌, ◌≢◌, Option, none, some, List, [], ◌∷◌, ◌==◌, if◌then◌else◌, arith}
use cplr.Base.Outcome.{Outcome, done, crash, aborts, ◌>>=◌}
use cplr.Base.Text.{Text}
use cplr.State.Context.{Ptr, null}

-- `value_t`: the type, and the bits of the union.
pub record Value : Type 0 where
  pub type : ℕ
  pub payload : ℕ

-- `ln_t`
pub record Node : Type 0 where
  pub head : Ptr
  pub next : Ptr
  pub prev : Ptr
  pub v : Value

-- What an address can hold: a string, a node or a `struct cplr` that is allocated, or a string that
-- is not. The fields of a piler stand beside its block.
pub data Cell : Type 0 where
  heap_text : Text → Cell
  static_text : Text → Cell
  node : Node → Cell
  piler : Cell

-- The writes to memory, the last one first; `none` is a block that is given back.
abbrev pub Memory : Type 0
Memory = List (Ptr × Option Cell)

abbrev pub lookup : Ptr → Memory → Option Cell
lookup a [] = none
lookup a ((p, c) ∷ m) = if a == p then c else lookup a m

abbrev pub write : Ptr → Option Cell → Memory → Memory
write p c m = (p, c) ∷ m

pub lookup-write_self : (p : Ptr) (c : Option Cell) (m : Memory) → lookup p (write p c m) ≡ c
lookup-write_self p c m = ground arith

pub lookup-write :
    (a p : Ptr) (c : Option Cell) (m : Memory) → a ≢ p → lookup a (write p c m) ≡ lookup a m
lookup-write a p c m h = ground arith

-- `malloc`, which gives an address that is not in use.
pub record Allocator : Type 0 where
  pub malloc : Memory → Ptr
  pub malloc_ne_null : (m : Memory) → malloc m ≢ null
  pub malloc_unused : (m : Memory) → lookup (malloc m) m ≡ none

abbrev pub freed : Ptr → Memory → Option Cell → Outcome Memory
freed p m (some (heap_text s)) = done (write p none m)
freed p m (some (node n)) = done (write p none m)
freed p m (some piler) = done (write p none m)
freed p m _ = crash

-- `free`, which does nothing for NULL and is undefined for what is not allocated.
unfoldable pub free : Ptr → Memory → Outcome Memory
free p m = if p == null then done m else freed p m (lookup p m)

unfoldable pub cext_free : Ptr → Memory → Outcome Memory
unfolding free
cext_free p m = if p == null then aborts else free p m

unfoldable pub cext_lfree : Ptr → Memory → Outcome Memory
unfolding free
cext_lfree p m = if p == null then done m else free p m

-- The functions on a pointer in a variable return what they leave in it.
unfoldable pub cext_ptrfree : Ptr → Memory → Outcome (Ptr × Memory)
unfolding free
cext_ptrfree p m = do m' ← free p m; done (null, m')

-- `none` is a variable at NULL.
unfoldable pub cext_xptrfree : Option Ptr → Memory → Outcome (Ptr × Memory)
unfolding cext_ptrfree
cext_xptrfree none m = aborts
cext_xptrfree (some p) m = if p == null then aborts else cext_ptrfree p m

unfoldable pub cext_lptrfree : Option Ptr → Memory → Outcome (Ptr × Memory)
unfolding free
cext_lptrfree none m = aborts
cext_lptrfree (some p) m = if p == null then done (p, m) else do m' ← free p m; done (null, m')

-- The string at an address, undefined where there is none.
abbrev pub text_in : Option Cell → Outcome Text
text_in (some (heap_text s)) = done s
text_in (some (static_text s)) = done s
text_in _ = crash

unfoldable pub read_text : Ptr → Memory → Outcome Text
read_text p m = text_in (lookup p m)

-- The node at an address.
abbrev pub node_in : Option Cell → Outcome Node
node_in (some (node n)) = done n
node_in _ = crash

unfoldable pub read_node : Ptr → Memory → Outcome Node
read_node p m = node_in (lookup p m)

-- A node that is all zero.
abbrev pub empty_node : Node
empty_node = record { head = null; next = null; prev = null; v = record { type = 0; payload = 0 } }

module _ (A : Allocator) where
  unfoldable pub strdup : Ptr → Memory → Outcome (Ptr × Memory)
  unfolding read_text
  strdup p m = do s ← read_text p m; done (A.malloc m, write (A.malloc m) (some (heap_text s)) m)

  -- `cext_calloc(1, sizeof(ln_t))`
  unfoldable pub calloc_node : Memory → Ptr × Memory
  calloc_node m = (A.malloc m, write (A.malloc m) (some (node empty_node)) m)
