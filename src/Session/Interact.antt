-- ===== src/Session/Interact.antt =====
-- `cplr_interact`, with the lines of `readline` as a parameter. The history is left out.
use cplr.Base.{ℕ, zero, suc, ◌-◌, Option, none, some, List, [], ◌∷◌, is_empty, ◌==◌, if◌then◌else◌}
use cplr.Base.Outcome.{Outcome, done, out_of_fuel, ◌>>=◌}
use cplr.Base.Text.{Text}
use cplr.State.Context.{Cplr, Ptr, null}
use cplr.State.Chain.{Store, write, load, cplr_chain, cplr_free}
use cplr.Tcc.{Tcc}
use cplr.Host.{Host}
use cplr.Command.Line.{cplr_command}

-- A line that `readline` returns, and the address that an allocation of a piler returns then.
pub record Event : Type 0 where
  pub line : Text
  pub fresh : Ptr

module _ (H : Host) (K : Tcc) where
  -- `c->c_prev ? c->c_prev->tcc : NULL`, which compilation looks at.
  unfoldable pub tcc_before : Cplr K.State → Store K.State → Outcome (Option K.State)
  unfolding load
  tcc_before c s = if c.c_prev == null then done none else do p ← load s c.c_prev; done p.tcc

  -- `cplr_command(c, line)` on the piler at an address.
  unfoldable pub command_at : Ptr → Text → Store K.State → Outcome (ℕ × Store K.State)
  unfolding load write tcc_before
  command_at at line s = do
    c ← load s at
    prev ← tcc_before c s
    (r, c') ← cplr_command H K prev line c
    done (r, write s at (some c'))

  -- A new piler when the last one is loaded.
  unfoldable pub next_piler : Event → Ptr → Store K.State → Outcome (Ptr × Store K.State)
  unfolding load cplr_chain
  next_piler e at s = do
    c ← load s at
    if c.flag.loaded then (do s' ← cplr_chain e.fresh at s; done (e.fresh, s')) else done (at, s)

  -- The loop over the lines: the result, the last piler and the pilers in memory.
  unfoldable pub command_loop :
      List Event → Ptr → Store K.State → Outcome (ℕ × (Ptr × Store K.State))
  unfolding next_piler command_at
  command_loop [] at s = done (0, (at, s))
  command_loop (e ∷ es) at s = do
    (at', s₁) ← next_piler e at s
    let ignored = command_loop es at' s₁ in
        if is_empty e.line then ignored else (do
          (r, s₂) ← command_at at' e.line s₁
          let rest = command_loop es at' s₂ in if r == 0 then rest else done (r - 1, (at', s₂)))

  -- The loop that frees the chain behind the piler `b`.
  unfoldable pub free_chain : ℕ → (b at : Ptr) → Store K.State → Outcome (Store K.State)
  unfolding load cplr_free
  free_chain zero b at s = out_of_fuel
  free_chain (suc k) b at s =
      if at == b
      then done s
      else (do c ← load s at; s' ← cplr_free at s; free_chain k b c.c_prev s')

  unfoldable pub cplr_interact : ℕ → List Event → Ptr → Store K.State → Outcome (ℕ × Store K.State)
  unfolding command_loop free_chain
  cplr_interact fuel es b s = do
    (ret, (at, s')) ← command_loop es b s
    s'' ← free_chain fuel b at s'
    done (ret, s'')
