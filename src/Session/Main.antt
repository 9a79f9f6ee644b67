-- ===== src/Session/Main.antt =====
-- `main` of source/cplr_main.c, with what `isatty` says as parameters. The history is left out.
use cplr.Base.{ℕ, zero, suc, Bool, true, ◌&&◌, none, some, List, is_empty, ◌==◌, if◌then◌else◌}
use cplr.Base.Outcome.{Outcome, done, ◌>>=◌}
use cplr.Base.Text.{Text}
use cplr.State.Context.{Cplr, Ptr, cplr_new, cplr_empty}
use cplr.State.Chain.{Store, write, cplr_free}
use cplr.Tcc.{Tcc}
use cplr.Host.{Host}
use cplr.Optparse.Options.{Getopt, cplr_optparse}
use cplr.Defaults.{cplr_defaults}
use cplr.Phases.Run.{cplr_run}
use cplr.Session.Interact.{Event, cplr_interact}

module _ (H : Host) (K : Tcc) (fuel : ℕ) (es : List Event) (self : Ptr) (s : Store K.State) where
  -- The part behind `done`.
  unfoldable pub main_done : ℕ → Store K.State → Outcome (ℕ × Store K.State)
  unfolding cplr_free
  main_done ret s' = do s'' ← cplr_free self s'; done (ret, s'')

  -- The interactor, if it is wanted.
  unfoldable pub main_interact : ℕ → Cplr K.State → Outcome (ℕ × Store K.State)
  unfolding main_done cplr_interact write
  main_interact ret c =
      if c.flag.interactive
      then (do
        (ret', s') ← cplr_interact H K fuel es self (write s self (some c))
        main_done ret' s')
      else main_done ret (write s self (some c))

  -- The run of what the command line has piled up.
  unfoldable pub main_run : Cplr K.State → Outcome (ℕ × Store K.State)
  unfolding cplr_empty main_done main_interact write
  main_run c = if cplr_empty c then main_interact 1 c else (do
    (ret, c') ← cplr_run H K none c
    if ret == 0 then main_interact 0 c' else main_done ret (write s self (some c')))

  -- The switch to an interactive session.
  unfoldable pub main_mode : (tty_in tty_out : Bool) → Cplr K.State → Cplr K.State
  main_mode tty_in tty_out c =
      if is_empty c.stms && (tty_in && tty_out)
      then record c { flag = record c.flag { interactive = true } }
      else c

  -- The part behind the options, by their result.
  unfoldable pub main_options :
      (tty_in tty_out : Bool) → ℕ × Cplr K.State → Outcome (ℕ × Store K.State)
  unfolding main_done main_run main_mode cplr_defaults write
  main_options tty_in tty_out (zero, c) =
      let (r, c') = if c.flag.nodefaults then (0, c) else cplr_defaults c in
      if r == 0
      then main_run (main_mode tty_in tty_out c')
      else main_done 1 (write s self (some c'))
  main_options tty_in tty_out (suc r, c) =
      main_done (if suc r == 2 then 0 else 1) (write s self (some c))

  unfoldable pub main :
      (tty_in tty_out : Bool) → Getopt → ℕ → List Text → Outcome (ℕ × Store K.State)
  unfolding main_options cplr_optparse
  main tty_in tty_out getopt argc argv =
      main_options tty_in tty_out (cplr_optparse getopt argc argv (cplr_new self))
