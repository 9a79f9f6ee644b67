-- ===== src/Phases/Steps.antt =====
-- Helpers for the sequence of the phases: steps one after the other, and a backend that is run.
use cplr.Base.{ℕ, ◌≡◌, ap, ◌∙◌, Bool, true, false, Option, none, some, if◌then◌else◌}
use cplr.Base.Outcome.{Outcome, done, crash, ◌>>=◌}
use cplr.State.Enums.{Backend, libtcc}
use cplr.State.Context.{Cplr}
use cplr.Phases.Errors.{note_errors}
use cplr.Tcc.{Tcc}
use cplr.Host.{Host}
use cplr.Phases.Execute.{program_argc, program_argv, run_backend}

pub if_no {ℓ κ} :
    {A : Type ℓ} (P : A → Type κ) {b : Bool} (x : A) {y : A}
    → b ≡ false
    → P y
    → P (if b then x else y)
if_no P {b = true} x e p = cc
if_no P {b = false} x e p = p

pub if_yes {ℓ κ} :
    {A : Type ℓ} (P : A → Type κ) {x : A} (y : A) {b : Bool}
    → b ≡ true
    → P x
    → P (if b then x else y)
if_yes P y {b = true} e p = p
if_yes P y {b = false} e p = cc

pub run_backend-run :
    (H : Host) (K : Tcc) (c : Cplr K.State) {t : K.State}
    → c.backend ≡ libtcc
    → c.tcc ≡ some t
    → run_backend H K c ≡ (do
      (t', r) ← K.run t (program_argc H K c) (program_argv H K c)
      done (r, note_errors K (record c { tcc = some t' })))
unfolding run_backend
run_backend-run H K c b e =
    ap
      (λ k. elim k as (λ _. Outcome (ℕ × Cplr K.State)) [
        | Backend.cc ↦ done (1, c)
        | libtcc ↦ called c.tcc
      ])
      b
    ∙ ap called e
  where
    called : Option K.State → Outcome (ℕ × Cplr K.State)
    called none = crash
    called (some t) = do
      (t', r) ← K.run t (program_argc H K c) (program_argv H K c)
      done (r, note_errors K (record c { tcc = some t' }))
