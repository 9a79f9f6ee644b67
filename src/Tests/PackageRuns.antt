-- ===== src/Tests/PackageRuns.antt =====
-- `cplr_pkgconfig_add` on outputs of pkg-config.
use cplr.Base.{◌≡◌, refl, some, List, [], ◌∷◌, arith}
use cplr.Base.Outcome.{done, Returns}
use cplr.Base.Text.{Text, lit, is_space, is_graph}
use cplr.Tests.Setup.{recorder, with_compiler}
use cplr.Package.Scan.{takes_text, add_option, cplr_pkgconfig_add}
use cplr.Package.Options.{PkgOption, incdir, lib, pthread, Lists, last, option, space, apply_all}
use cplr.Package.RoundTrip.{cplr_pkgconfig_add-Lists}
use cplr.Package.Totality.{Ended, cplr_pkgconfig_add-Ended}
use cplr.Package.Separate.{cplr_pkgconfig_add-separate}

abbrev output : Text
output = lit "-I/opt/x  -pthread -lm"

abbrev options : List PkgOption
options = incdir (lit "/opt/x") ∷ pthread ∷ lib (lit "m") ∷ []

output-Lists : Lists output options
unfolding is_space is_graph
output-Lists =
    option (incdir (lit "/opt/x")) 32
      ((refl, (refl, (refl, (refl, (refl, (refl, tt)))))), omega arith) refl refl
      (space 32 refl refl
        (option pthread 32 tt refl refl (last (lib (lit "m")) ((refl, tt), omega arith) refl)))

cplr_pkgconfig_add-Lists_example :
    cplr_pkgconfig_add recorder output with_compiler
    ≡ done (0, apply_all recorder options with_compiler)
cplr_pkgconfig_add-Lists_example = cplr_pkgconfig_add-Lists recorder with_compiler output-Lists refl

output_run : apply_all recorder options with_compiler ≡ record with_compiler {
  incdirs = lit "/opt/x" ∷ [];
  libs = lit "m" ∷ [];
  tcc = some (lit "-pthread" ∷ []);
}
unfolding apply_all
output_run = refl

cplr_pkgconfig_add-Ended_example :
    Returns
      (Ended recorder with_compiler)
      (cplr_pkgconfig_add recorder (lit "-lm -U x") with_compiler)
cplr_pkgconfig_add-Ended_example =
    cplr_pkgconfig_add-Ended recorder (lit "-lm -U x") with_compiler refl

cplr_pkgconfig_add-separate_example :
    cplr_pkgconfig_add recorder (lit "-I /opt/x") with_compiler
    ≡ done (1, add_option recorder b'I' [] with_compiler)
cplr_pkgconfig_add-separate_example =
    cplr_pkgconfig_add-separate recorder b'I' 32 b'/' (lit "opt/x") with_compiler
      (unfold takes_text in refl) (unfold is_space in refl) (omega arith) (unfold is_space in refl)
