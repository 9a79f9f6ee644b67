-- ===== src/State/Struct.antt =====
-- `struct cplr` in memory: the piles are list heads inside it, and the strings and nodes are blocks
-- of their own. `cplr_free`, `cplr_clone` and `cplr_chain` of source/cplr_state.c on them.
pub mod Frame
pub mod Free
pub mod Copy
pub mod Refines
pub mod Parts
pub mod Chain
pub mod Walks
pub mod Extend
pub mod Grow
pub mod Steps
pub mod Layers
use cplr.Base.{ℕ, ◌+◌, ◌*◌, Bool, some, List, [], ◌∷◌, ◌==◌, if◌then◌else◌}
use cplr.Base.Outcome.{Outcome, done, ◌>>=◌}
use cplr.State.Context.{Ptr, null}
use cplr.Cext.Memory.{Memory, piler, Allocator, write, cext_free, cext_lptrfree}
use cplr.Cext.List.{Head, l_init, l_clear, l_clone}

-- The fields of type `lh_t`.
pub data Pile : Type 0 where
  optf optm : Pile
  defdef defsys sysdirs incdirs libdirs defs syss incs libs pkgs tlds : Pile
  srcs tlfs stms befs afts : Pile

-- The place of a field among them.
abbrev pub pile_number : Pile → ℕ
pile_number optf = 0
pile_number optm = 1
pile_number defdef = 2
pile_number defsys = 3
pile_number sysdirs = 4
pile_number incdirs = 5
pile_number libdirs = 6
pile_number defs = 7
pile_number syss = 8
pile_number incs = 9
pile_number libs = 10
pile_number pkgs = 11
pile_number tlds = 12
pile_number srcs = 13
pile_number tlfs = 14
pile_number stms = 15
pile_number befs = 16
pile_number afts = 17

-- `&c->pile`, on a 64-bit machine.
abbrev pub head_at : Ptr → Pile → Ptr
head_at self p = self + (144 + 24 * pile_number p)

abbrev pub Heads : Type 0
Heads = Pile → Head

-- The fields that point to blocks.
pub record Fields : Type 0 where
  pub out : Ptr
  pub g_codebuf : Ptr
  pub g_dumpbuf : Ptr
  pub heads : Heads

abbrev pub same_pile : Pile → Pile → Bool
same_pile p q = pile_number p == pile_number q

abbrev pub set_head : Pile → Head → Heads → Heads
set_head p h hs q = if same_pile q p then h else hs q

-- The calls of `l_clear`, one after the other.
unfoldable pub clear_piles : ℕ → List Pile → Heads → Memory → Outcome (Heads × Memory)
unfolding l_clear
clear_piles k [] hs m = done (hs, m)
clear_piles k (p ∷ ps) hs m = do (h, m') ← l_clear k (hs p) m; clear_piles k ps (set_head p h hs) m'

-- The calls of `cext_lptrfree`.
unfoldable pub free_texts : List Ptr → Memory → Outcome Memory
unfolding cext_lptrfree
free_texts [] m = done m
free_texts (p ∷ ps) m = do (_, m') ← cext_lptrfree (some p) m; free_texts ps m'

-- The piles that `cplr_free` clears and `cplr_clone` copies, in the order of the calls.
abbrev pub managed : List Pile
managed =
    defdef ∷ defsys ∷ sysdirs ∷ incdirs ∷ libdirs ∷ defs ∷ syss ∷ incs ∷ libs ∷ pkgs ∷ srcs ∷ tlds
    ∷ tlfs ∷ stms ∷ befs ∷ afts ∷ []

-- `cplr_free` behind `tcc_delete`.
unfoldable pub free_piler : ℕ → Ptr → Fields → Memory → Outcome Memory
unfolding free_texts clear_piles cext_free
free_piler k self c m = do
  m₁ ← free_texts (c.out ∷ c.g_codebuf ∷ c.g_dumpbuf ∷ []) m
  (_, m₂) ← clear_piles k managed c.heads m₁
  cext_free self m₂

-- The piles that `cplr_chain` clears in the new piler.
abbrev pub volatile : List Pile
volatile = srcs ∷ tlfs ∷ stms ∷ befs ∷ afts ∷ []

-- The fields of a piler that is all zero.
abbrev pub no_fields : Fields
no_fields = record { out = null; g_codebuf = null; g_dumpbuf = null; heads = λ p. l_init }

module _ (A : Allocator) where
  -- The block of `cplr_new`.
  unfoldable pub calloc_piler : Memory → Ptr × Memory
  calloc_piler m = (A.malloc m, write (A.malloc m) (some piler) m)

  -- The calls of `l_clone`: from `src` to the piler `r`.
  unfoldable pub clone_piles :
      ℕ → List Pile → (r : Ptr) → (src dst : Heads) → Memory → Outcome (Heads × Memory)
  unfolding l_clone
  clone_piles k [] r src dst m = done (dst, m)
  clone_piles k (p ∷ ps) r src dst m = do
    (h, m') ← l_clone A k (head_at r p) (src p) m
    clone_piles k ps r src (set_head p h dst) m'

  -- `cplr_clone`, as far as blocks go.
  unfoldable pub clone_piler : ℕ → Fields → Memory → Outcome ((Ptr × Fields) × Memory)
  unfolding calloc_piler clone_piles
  clone_piler k c m = do
    let (r, m₁) = calloc_piler m
    (hs, m₂) ← clone_piles k managed r c.heads no_fields.heads m₁
    done ((r, record no_fields { heads = hs }), m₂)

  -- `cplr_chain`, as far as blocks go.
  unfoldable pub chain_piler : ℕ → Fields → Memory → Outcome ((Ptr × Fields) × Memory)
  unfolding clone_piler clear_piles
  chain_piler k c m = do
    ((n, d), m₁) ← clone_piler k c m
    (hs, m₂) ← clear_piles k volatile d.heads m₁
    done ((n, record d { heads = hs }), m₂)
