-- ===== src/Tests/DumpRuns.antt =====
-- A dump of twelve bytes, to a filter that takes every byte.
use cplr.Base.{◌≡◌, ◌⊎◌, refl, false, none, some, List, [], ◌++◌, arith, length, take, take_all}
use cplr.Base.Outcome.{Outcome, exits, Returns}
use cplr.Base.Text.{Text, lit}
use cplr.State.Context.{Cplr}
use cplr.Generate.Dump.{Pipes, ShortWrite, generate_dump, generate_dump-received}
use cplr.Generate.Phase.{cplr_generate}
use cplr.Generate.Program.{program, section_text, section_text_down}
use cplr.Generate.Shown.{generate_dump-program}
use cplr.Tests.Setup.{with_compiler, with_piles}

abbrev open_pipes : Pipes
open_pipes = record {
  Stream = Text;
  popen = λ filter. some [];
  fwrite = λ t s. (length t, s ++ t);
  pclose = λ s. s;
}

abbrev with_dump : Cplr (List Text)
with_dump = record with_compiler { dump = 1; g_dumpbuf = some (lit "int main() {") }

dump_received :
    generate_dump open_pipes 13 none with_dump ≡ Outcome.done (some (lit "int main() {"))
unfolding generate_dump
dump_received = refl

takes_all : (t s : Text) → s ++ t ≡ s ++ take (length t) t
takes_all t s = rw (take_all (length t) t (omega arith)) refl

generate_dump-received_example :
    ((generate_dump open_pipes 13 none with_dump ≡ exits 1)
      × ShortWrite open_pipes (λ s. s) (lit "int main() {"))
    ⊎ Returns
        (λ o. (s : Text) × (o ≡ some s) × (s ≡ lit "int main() {"))
        (generate_dump open_pipes 13 none with_dump)
generate_dump-received_example =
    generate_dump-received open_pipes (λ s. s) (λ t s. ((omega arith), takes_all t s)) (λ s. refl)
      13 none with_dump (omega arith) refl refl refl (omega arith)

-- The bytes of the program are counted by its text.
program_size : length (program with_piles false) ≡ 178
unfolding program section_text section_text_down
program_size = refl

generate_dump-program_example :
    ((generate_dump open_pipes 1000 none (cplr_generate with_piles) ≡ exits 1)
      × ShortWrite open_pipes (λ s. s) (program with_piles false))
    ⊎ Returns
        (λ o. (s : Text) × (o ≡ some s) × (s ≡ program with_piles false))
        (generate_dump open_pipes 1000 none (cplr_generate with_piles))
generate_dump-program_example =
    generate_dump-program open_pipes (λ s. s) (λ t s. ((omega arith), takes_all t s)) (λ s. refl)
      1000 none with_piles refl (omega arith) refl refl (omega (arith, program_size))
