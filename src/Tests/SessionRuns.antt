-- ===== src/Tests/SessionRuns.antt =====
-- A session, and the whole program.
use cplr.Base.{true, none, some, List, [], ◌∷◌, ◌==◌, if◌then◌else◌}
use cplr.Base.Text.{Text, lit}
use cplr.State.Context.{Cplr}
use cplr.State.Chain.{Store}
use cplr.Optparse.Options.{Getopt, argument, define, ended, found}
use cplr.Phases.Ends.{Ends}
use cplr.Session.Interact.{Event}
use cplr.Tests.Setup.{with_compiler}

-- A piler whose preparation is done.
abbrev ready : Cplr (List Text)
ready = record with_compiler { flag = record with_compiler.flag { prepared = true } }

abbrev one : Store (List Text)
one p = if p == 1 then some ready else none

-- A statement that is run, an empty line, another one, and the end.
abbrev lines : List Event
lines =
    (record { line = lit "f()"; fresh = 2 })
    ∷ (record { line = []; fresh = 3 })
    ∷ (record { line = lit "g()"; fresh = 4 })
    ∷ (record { line = lit "\\q"; fresh = 5 })
    ∷ []

abbrev nothing : Store (List Text)
nothing p = none

abbrev command_line : Getopt
command_line = found argument (lit "f()") 2 (found define (lit "X=1") 3 (ended 3))
