-- ===== src/Tests/HelpRuns.antt =====
-- The help of the program `cplr`.
use cplr.Base.{◌≡◌, refl, some}
use cplr.Base.Text.{lit}
use cplr.Optparse.Help.{help_row, show_version}

help_of_dump :
    help_row
      (record { name = some (lit "dump"); has_arg = 0; val = b'd' })
      (lit "increase dump level")
    ≡ lit "  -d, --dump      \tincrease dump level\n"
unfolding help_row
help_of_dump = refl

version_line : show_version (lit "1.0") (some (lit "abc")) ≡ lit "cplr 1.0\nGit revision abc\n"
unfolding show_version
version_line = refl
