-- ===== src/Tests/CommandRuns.antt =====
-- Command lines and defaults.
use cplr.Base.{ℕ, ◌≡◌, refl, List, [], ◌∷◌}
use cplr.Base.{none}
use cplr.Base.Text.{Text, lit, is_space, is_cntrl}
use cplr.State.Context.{Cplr}
use cplr.State.Enums.{linux}
use cplr.Optparse.Options.{Opt, argument, machine_flag, program_args, ended, found, cplr_optparse}
use cplr.Optparse.Piles.{founds, Filled, ends_with, cplr_optparse-Filled, cplr_optparse-ends_with}
use cplr.Defaults.{defaults_for, cplr_defaults, cplr_defaults-defaults_for}
use cplr.Base.Outcome.{done}
use cplr.Host.{Host, no_fork}
use cplr.Command.Line.{cplr_command, cplr_command_internal}
use cplr.Command.Prefixes.{toplevel, cplr_command-piled}
use cplr.Tests.Setup.{recorder, with_compiler}

abbrev line : List (Opt × (Text × ℕ))
line = (argument, (lit "f()", 2)) ∷ (machine_flag, (lit "32", 3)) ∷ (argument, (lit "g()", 4)) ∷ []

abbrev words : List Text
words = lit "cplr" ∷ lit "f()" ∷ lit "-m32" ∷ lit "g()" ∷ lit "--" ∷ lit "x" ∷ []

cplr_optparse-Filled_example :
    (y : Cplr (List Text)) × (cplr_optparse (founds line (ended 4)) 4 words with_compiler ≡ (0, y))
    × (y.argp ≡ 4)
    × Filled with_compiler line y
cplr_optparse-Filled_example =
    cplr_optparse-Filled line 4 4 words with_compiler (refl, (refl, (refl, tt)))

cplr_optparse-ends_with_example :
    (y : Cplr (List Text)) × (cplr_optparse
        (founds line (found program_args [] 5 (ended 5)))
        6
        words
        with_compiler
      ≡ (ends_with program_args, y))
    × (ends_with program_args ≡ 0 → y.argp ≡ 5)
    × Filled with_compiler line y
cplr_optparse-ends_with_example =
    cplr_optparse-ends_with line program_args [] 5 (ended 5) 6 words with_compiler
      (refl, (refl, (refl, tt))) refl

abbrev for_linux : Cplr (List Text)
for_linux = record with_compiler { target = linux; defsys = lit "a.h" ∷ [] }

cplr_defaults-defaults_for_example : cplr_defaults for_linux ≡ (0, defaults_for linux for_linux)
cplr_defaults-defaults_for_example = cplr_defaults-defaults_for for_linux

abbrev host : Host
host = record {
  system = λ command. none;
  popen = λ command. none;
  getenv_libdir = none;
  configured_libdir = none;
  fork = no_fork;
}

cplr_command-piled_example :
    cplr_command host recorder none (lit " ^int f(){}") with_compiler
    ≡ done (0, record with_compiler { tlfs = lit "int f(){}" ∷ [] })
unfolding is_space is_cntrl
cplr_command-piled_example =
    cplr_command-piled host recorder none toplevel (lit " ") (lit "int f(){}") with_compiler
      (refl, tt) (λ e. cc)

quits : cplr_command_internal (lit " q\t now") with_compiler ≡ (1, with_compiler)
unfolding cplr_command_internal
quits = refl

unknown_fails : (cplr_command_internal (lit "quit") with_compiler).0 ≡ 1
unfolding cplr_command_internal
unknown_fails = refl
