-- ===== src/State/Chain.antt =====
-- The pilers in memory, `cplr_chain` and `cplr_free` of source/cplr_state.c, and
-- source/cplr_symbols.c.
use cplr.Base.{ℕ, zero, suc, ◌+◌, false, Option, none, some, [], ◌==◌, if◌then◌else◌}
use cplr.Base.Outcome.{Outcome, done, crash, out_of_fuel, ◌>>=◌}
use cplr.State.Context.{Cplr, Ptr, null}
use cplr.State.Enums.{Flags}
use cplr.State.Clone.{cplr_clone}

-- The pilers that are allocated.
abbrev pub Store : Type 0 → Type 0
Store T = Ptr → Option (Cplr T)

-- The flags that `cplr_chain` takes away.
abbrev pub reset_flags : Flags → Flags
reset_flags f = record f {
  prepared = false;
  compiled = false;
  loaded = false;
  executed = false;
  finished = false;
}

module _ {T : Type 0} where
  unfoldable pub write : Store T → Ptr → Option (Cplr T) → Store T
  write s p c a = if a == p then c else s a

  -- `*p`, undefined at `NULL` and at memory that is not allocated.
  unfoldable pub load : Store T → Ptr → Outcome (Cplr T)
  load s p = if p == null then crash else elim (s p) [ none ↦ crash | some c ↦ done c ]

  -- The link to the piler before, the reset flags and the cleared piles.
  abbrev pub chained : Ptr → Cplr T → Cplr T → Cplr T
  chained at c n = record n {
    c_index = c.c_index + 1;
    c_first = c.c_first;
    c_prev = at;
    flag = reset_flags n.flag;
    srcs = [];
    tlfs = [];
    stms = [];
    befs = [];
    afts = [];
  }

  -- `cplr_chain`: `fresh` is the address that the allocation returns.
  unfoldable pub cplr_chain : (fresh at : Ptr) → Store T → Outcome (Store T)
  unfolding write load cplr_clone
  cplr_chain fresh at s = do
    c ← load s at
    n ← cplr_clone fresh c
    done (write (write s fresh (some (chained at c n))) at (some (record c { c_next = fresh })))

  -- `cplr_free`: the compiler, the buffers and the piles belong to the piler and go with it.
  unfoldable pub cplr_free : Ptr → Store T → Outcome (Store T)
  unfolding write load
  cplr_free at s = do _ ← load s at; done (write s at none)

  -- The loop of `cplr_find_syms`, which goes back along the chain to a loaded piler.
  unfoldable pub cplr_find_syms : ℕ → Ptr → Store T → Outcome (Option T)
  unfolding load
  cplr_find_syms zero at s = out_of_fuel
  cplr_find_syms (suc k) at s =
      if at == null
      then done none
      else do c ← load s at; if c.flag.loaded then done c.tcc else cplr_find_syms k c.c_prev s
