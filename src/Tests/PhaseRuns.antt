-- ===== src/Tests/PhaseRuns.antt =====
-- Package queries, the phases, and the tests on strings.
use cplr.Base.{◌≡◌, refl, true, false, some, List, [], ◌∷◌, ◌++◌, map, arith}
use cplr.Base.Outcome.{exits, done, Returns}
use cplr.Base.Text.{Text, lit}
use cplr.State.Context.{Cplr}
use cplr.Tcc.{Tcc}
use cplr.Host.{failed, reaped}
use cplr.Package.Totality.{Ready}
use cplr.Package.Query.{cpkg_retrieve}
use cplr.Package.Retrieve.{cpkg_retrieve-line}
use cplr.Phases.Prepare.{with_tcc, prepare_rest, set_prepared, cplr_prepare}
use cplr.Phases.Calls.{options, file_calls, perform, prepare_rest-perform}
use cplr.Phases.Prepares.{cplr_prepare-Ready}
use cplr.Phases.Errors.{note_errors}
use cplr.Phases.Symbols.{
  Reserved, underscore, entry_point, nothing, leave, keep, Reserved-is_builtin,
  cplr_compile-symbols,
}
use cplr.Phases.Compile.{is_builtin, cplr_compile}
use cplr.Phases.Execute.{cplr_execute}
use cplr.Phases.Waits.{cplr_execute-child}
use cplr.Tests.Setup.{host, host-Prints, recorder, with_compiler, with_piles}

cpkg_retrieve-line_example : cpkg_retrieve host (lit "a") (lit "--libs") ≡ done (some (lit "-la"))
cpkg_retrieve-line_example =
    cpkg_retrieve-line host (lit "a") (lit "--libs") (lit "-la") refl
      ((omega arith), ((omega arith), ((omega arith), tt)))

abbrev with_package : Cplr (List Text)
with_package = record with_piles { pkgs = lit "a" ∷ []; defs = some (lit "-DX") ∷ [] }

-- libtcc has something to report.
abbrev noisy : Tcc
noisy = record recorder { reports = λ t. true }

cplr_prepare-Ready_example :
    Returns
      (λ (r, x).
        (y : Cplr (List Text)) × (x ≡ set_prepared host noisy (note_errors noisy y))
        × Ready noisy with_package y)
      (cplr_prepare host noisy with_package)
cplr_prepare-Ready_example =
    cplr_prepare-Ready host noisy host-Prints with_package refl refl (refl, tt)

abbrev with_dirs : Cplr (List Text)
with_dirs = record with_compiler {
  defs = some (lit "-DX") ∷ [];
  incdirs = lit "inc" ∷ [];
  libs = lit "m" ∷ [];
}

prepare_rest-perform_example :
    prepare_rest host recorder with_dirs (some [])
    ≡ done (
        with_tcc host recorder with_dirs (
          perform recorder
            (map options [] ++ (map options (lit "-DX" ∷ []) ++ file_calls with_dirs))
            []))
prepare_rest-perform_example = prepare_rest-perform host recorder with_dirs (lit "-DX" ∷ []) [] refl

abbrev generated : Cplr (List Text)
generated = record with_compiler { g_codebuf = some (lit "int x;") }

-- `_start` and `main` are reserved, `count` is not.
count-not-Reserved : ¬ Reserved (lit "count")
unfolding is_builtin
count-not-Reserved r = let h : false ≡ true = Reserved-is_builtin r in cc

cplr_compile-symbols_example :
    cplr_compile noisy (some []) generated
    ≡ done (
      0,
      record generated {
        tccerr = true;
        tcc = some (lit "int x;" ∷ lit "count" ∷ []);
        flag = record generated.flag { compiled = true; loaded = true };
      },
    )
cplr_compile-symbols_example =
    cplr_compile-symbols noisy generated [] [] (lit "int x;") ((lit "count", 3) ∷ []) refl refl refl
      refl (leave (underscore (lit "start")) (leave entry_point (keep count-not-Reserved nothing)))

abbrev forking : Cplr (List Text)
forking = record with_compiler { flag = record with_compiler.flag { fork = true } }

cplr_execute-child_example :
    cplr_execute host recorder forking
    ≡ done (3, record forking { flag = record forking.flag { executed = true } })
cplr_execute-child_example =
    cplr_execute-child host recorder forking 7 3 (failed true ∷ reaped 5 1 ∷ []) [] refl refl
      (refl, ((omega arith), tt))

-- A program that calls `exit(3)` ends the process.
abbrev exiting : Tcc
exiting = record recorder { run = λ t argc argv. exits 3 }

program_exits : cplr_execute host exiting generated ≡ exits 3
unfolding cplr_execute
program_exits = refl
