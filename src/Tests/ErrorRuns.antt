-- ===== src/Tests/ErrorRuns.antt =====
-- Two messages of a compiler.
use cplr.Base.{ℕ, ◌≡◌, ◌++◌, refl, true, some, List, [], ◌∷◌, arith}
use cplr.Base.Outcome.{Returns}
use cplr.Base.Text.{Text, lit}
use cplr.State.Context.{Ptr, cplr_new}
use cplr.Cext.Memory.{Memory, heap_text, lookup}
use cplr.Phases.Errors.{report_all}
use cplr.Phases.Errors.Reports.{all_shown, report_all-shown}
use cplr.Tests.Allocation.{bump}

abbrev messages : List (Ptr × Text)
messages = (5, lit "a:1: error\n\nb") ∷ (6, lit "warning\n") ∷ []

abbrev memory : Memory
memory =
    (5, some (heap_text (lit "a:1: error\n\nb"))) ∷ (6, some (heap_text (lit "warning\n"))) ∷ []

messages_shown : all_shown messages ≡ lit "  a:1: error\n  b\n  warning\n"
messages_shown = refl

report_all-shown_example :
    Returns
      (λ ((out, d), m').
        (out ≡ lit "Compiler condition:\n" ++ all_shown messages)
        × (d ≡ record (cplr_new {T = ℕ} 1) { tccerr = true })
        × ((a : Ptr) → lookup a m' ≡ lookup a memory))
      (report_all bump 20 (cplr_new {T = ℕ} 1) (5 ∷ 6 ∷ []) memory)
report_all-shown_example =
    report_all-shown bump 20 messages (cplr_new 1) memory
      ((refl, (λ i. cc), omega arith), ((refl, (λ i. cc), omega arith), tt))
