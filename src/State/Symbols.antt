-- ===== src/State/Symbols.antt =====
-- source/cplr_symbols.c: where `cplr_find_syms` stops on its way back along the chain.
use cplr.Base.{
  ℕ, zero, suc, ◌<◌, ◌≡◌, ◌≢◌, false, Option, none, some, List, [], ◌∷◌, arith, ◌==◌, if◌then◌else◌,
  length,
}
use cplr.Base.Outcome.{done}
use cplr.State.Context.{Cplr, Ptr, null}
use cplr.State.Chain.{Store, cplr_find_syms}

-- From `p` the links to the piler before lead through the pilers `cs`, the newest first.
pub data Back {T : Type 0} (s : Store T) : Ptr → List (Cplr T) → Type 0 where
  start : {p : Ptr} → p ≡ null → Back s p []
  back :
      {p : Ptr} {c : Cplr T} {cs : List (Cplr T)}
      → p ≢ null
      → s p ≡ some c
      → Back s c.c_prev cs
      → Back s p (c ∷ cs)

module _ {T : Type 0} where
  -- The compiler of the newest loaded piler.
  pub newest_loaded : List (Cplr T) → Option T
  newest_loaded [] = none
  newest_loaded (c ∷ cs) = if c.flag.loaded then c.tcc else newest_loaded cs

  -- On a chain of any length, with more fuel than there are pilers, `cplr_find_syms` returns the
  -- compiler of the newest loaded piler, and NULL if none is loaded.
  pub cplr_find_syms-newest_loaded :
      (k : ℕ) {s : Store T} {p : Ptr} {cs : List (Cplr T)}
      → Back s p cs
      → length cs < k
      → cplr_find_syms k p s ≡ done (newest_loaded cs)
  unfolding cplr_find_syms newest_loaded
  cplr_find_syms-newest_loaded zero b h = absurd (omega arith)
  cplr_find_syms-newest_loaded (suc k) (start e) h = ground arith
  cplr_find_syms-newest_loaded (suc k) {s} (back {p} ne e b) h =
      let nz : (p == null) ≡ false = ground arith in
      rw (nz, e) (ground (arith, cplr_find_syms-newest_loaded k b))
