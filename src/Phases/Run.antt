-- ===== src/Phases/Run.antt =====
-- `cplr_run`: prepare, generate, compile and execute.
use cplr.Base.{ℕ, zero, suc, Option, if◌then◌else◌}
use cplr.Base.Outcome.{Outcome, done, ◌>>=◌, and_then}
use cplr.State.Context.{Cplr}
use cplr.Tcc.{Tcc}
use cplr.Host.{Host}
use cplr.Generate.Phase.{cplr_generate}
use cplr.Phases.Prepare.{cplr_prepare}
use cplr.Phases.Compile.{cplr_compile}
use cplr.Phases.Execute.{cplr_execute}

module _ (H : Host) (K : Tcc) (prev : Option K.State) where
  -- A phase that fails ends the run with 1.
  abbrev pub or_fail : Outcome (ℕ × Cplr K.State) → Outcome (ℕ × Cplr K.State)
  or_fail m = do (r, c) ← m; elim r [ zero ↦ done (0, c) | suc _ ↦ done (1, c) ]

  unfoldable pub run_prepare : Cplr K.State → Outcome (ℕ × Cplr K.State)
  run_prepare c = if c.flag.prepared then done (0, c) else or_fail (cplr_prepare H K c)

  unfoldable pub run_compile : Cplr K.State → Outcome (ℕ × Cplr K.State)
  run_compile c =
      if c.flag.compiled then done (0, c) else or_fail (cplr_compile K prev (cplr_generate c))

  unfoldable pub run_execute : Cplr K.State → Outcome (ℕ × Cplr K.State)
  run_execute c = if c.flag.norun then done (0, c) else cplr_execute H K c

  unfoldable pub cplr_run : Cplr K.State → Outcome (ℕ × Cplr K.State)
  unfolding run_prepare run_compile run_execute
  cplr_run c = and_then (run_prepare c) (λ c'. and_then (run_compile c') run_execute)
