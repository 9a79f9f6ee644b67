-- ===== src/Phases/Execute.antt =====
-- `cplr_execute`.
use cplr.Base.{
  ℕ, ◌+◌, ◌-◌, true, false, Option, none, some, List, [], ◌∷◌, ◌==◌, if◌then◌else◌, drop,
}
use cplr.Base.Outcome.{Outcome, done, crash, exits, out_of_fuel, ◌>>=◌}
use cplr.Base.Text.{Text, lit}
use cplr.State.Enums.{cc, libtcc}
use cplr.State.Context.{Cplr}
use cplr.Tcc.{Tcc}
use cplr.Phases.Errors.{note_errors}
use cplr.Host.{Host, Wait, failed, reaped, Fork, no_fork, in_child, in_parent}

-- The loop over `waitpid`: the status of the child, or `none` where the source gives up.
unfoldable pub wait_for : ℕ → List Wait → Outcome (Option ℕ)
wait_for p [] = out_of_fuel
wait_for p (failed true ∷ ws) = wait_for p ws
wait_for p (failed false ∷ ws) = done none
wait_for p (reaped pid status ∷ ws) =
    let rest = wait_for p ws in if pid == p then done (some status) else rest

module _ (H : Host) (K : Tcc) where
  -- `1 + (c->argc - c->argp)` and the vector with "c" in front.
  unfoldable pub program_argc : Cplr K.State → ℕ
  program_argc c = 1 + (c.argc - c.argp)

  unfoldable pub program_argv : Cplr K.State → List Text
  program_argv c = lit "c" ∷ drop c.argp c.argv

  -- The call of the backend: the result 1 where there is none.
  unfoldable pub run_backend : Cplr K.State → Outcome (ℕ × Cplr K.State)
  unfolding program_argc program_argv
  run_backend c = elim c.backend [
    | cc ↦ done (1, c)
    | libtcc ↦ elim c.tcc [
      | none ↦ crash
      | some t ↦ (do
        (t', r) ← K.run t (program_argc c) (program_argv c)
        done (r, note_errors K (record c { tcc = some t' })))
    ]
  ]

  abbrev pub set_finished : Cplr K.State → Cplr K.State
  set_finished c = record c { flag = record c.flag { finished = true } }

  -- The part under `c->flag & CPLR_FLAG_FORK`.
  unfoldable pub forked : Cplr K.State → Fork → Outcome (ℕ × Cplr K.State)
  unfolding wait_for run_backend
  forked c no_fork = done (1, c)
  forked c in_child = do (r, _) ← run_backend c; exits r
  forked c (in_parent p waits) = do
    status ← wait_for p waits
    elim status [ none ↦ done (1, c) | some rc ↦ done (rc, c) ]

  unfoldable pub cplr_execute : Cplr K.State → Outcome (ℕ × Cplr K.State)
  unfolding forked run_backend
  cplr_execute c =
      let c' = record c { flag = record c.flag { executed = true } } in
      if c'.flag.fork
      then forked c' H.fork
      else (do (r, c'') ← run_backend c'; done (r, set_finished c''))
