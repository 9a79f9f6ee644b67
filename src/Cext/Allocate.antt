-- ===== src/Cext/Allocate.antt =====
-- The functions of source/cext_memory.c that allocate, with the macro of include/cext/memory.h, and
-- source/cext_abort.c, whose functions print a message and end the process.
use cplr.Base.{ℕ, ◌++◌, ◌==◌, if◌then◌else◌}
use cplr.Base.Outcome.{Outcome, done, aborts}
use cplr.Base.Text.{Text, lit}
use cplr.Base.Decimal.{decimal}
use cplr.State.Context.{Ptr, null}
use cplr.Cext.Memory.{Memory}

-- `malloc`, `calloc` and `realloc`, which may return NULL.
record LibcAllocator : Type 0 where
  malloc : ℕ → Memory → Ptr × Memory
  calloc : (n size : ℕ) → Memory → Ptr × Memory
  realloc : Ptr → ℕ → Memory → Ptr × Memory

-- The message is what the format makes of its arguments.
unfoldable cext_aborts {ℓ} : {A : Type ℓ} → Text → Outcome A
cext_aborts msg = aborts

unfoldable cext_abortf {ℓ} : {A : Type ℓ} → Text → Outcome A
cext_abortf msg = aborts

-- `CEXT_VOIDPTR_NOTNULL` behind the call.
unfoldable voidptr_notnull : Ptr × Memory → Text → Outcome (Ptr × Memory)
unfolding cext_abortf
voidptr_notnull (p, m) msg = if p == null then cext_abortf msg else done (p, m)

module _ (L : LibcAllocator) where
  unfoldable cext_malloc : ℕ → Memory → Outcome (Ptr × Memory)
  unfolding voidptr_notnull
  cext_malloc s m =
      voidptr_notnull (L.malloc s m) (lit "Allocation of size " ++ (decimal s ++ lit " failed"))

  unfoldable cext_calloc : (n s : ℕ) → Memory → Outcome (Ptr × Memory)
  unfolding voidptr_notnull
  cext_calloc n s m = voidptr_notnull (L.calloc n s m) (
      lit "Allocation of "
      ++ (decimal n ++ (lit " objects of size " ++ (decimal s ++ lit " failed"))))

  -- How an address is printed is left to the library.
  unfoldable cext_realloc : (print_pointer : Ptr → Text) → Ptr → ℕ → Memory → Outcome (Ptr × Memory)
  unfolding voidptr_notnull
  cext_realloc print_pointer p s m = voidptr_notnull (L.realloc p s m) (
      lit "Reallocation of "
      ++ (print_pointer p ++ (lit " to size " ++ (decimal s ++ lit " failed"))))
