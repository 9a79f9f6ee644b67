-- ===== src/Tests/ListingRuns.antt =====
-- What the commands print for a piler, and behind the piler that is chained to it.
use cplr.Base.{◌≡◌, refl, true, none, some, List, [], ◌∷◌, ◌++◌, arith, ◌==◌, if◌then◌else◌}
use cplr.Base.Outcome.{done, Returns}
use cplr.Base.Text.{Text, lit}
use cplr.Base.Decimal.{decimal}
use cplr.State.Context.{Cplr}
use cplr.State.Chain.{Store, cplr_chain}
use cplr.State.Enums.{no_flags}
use cplr.Command.Print.{
  cmd_list_text, cmd_stat_text, cmd_opts_text, opts_line, help_lines, list_piler, stat_line,
  shown_symbols,
}
use cplr.Session.Listing.{Trail, last, lines_of, cmd_list_text-cplr_chain, cmd_stat_text-cplr_chain}
use cplr.Tests.Setup.{with_piles}

-- One piler, whose code has been generated.
abbrev generated : Cplr (List Text)
generated = record with_piles { flag = record no_flags { generated = true } }

abbrev one : Store (List Text)
one p = if p == 1 then some generated else none

abbrev trail : Trail one 1 1 (generated ∷ [])
trail = last refl (omega arith) refl refl

list_of_one :
    list_piler generated
    ≡ lit "c0-i: math.h\nc0s0: int i\nc0s1: puts(\"x\")\nc0a0: b()\nc0a1: a()\n"
unfolding list_piler decimal
list_of_one = refl

stat_of_one : cmd_stat_text 2 generated one ≡ done (lit "c0: generated\n")
unfolding cmd_stat_text decimal
stat_of_one = refl

-- The two flags have the same word.
same_options :
    opts_line (record no_flags { nocompile = true }) ≡ opts_line (record no_flags { norun = true })
unfolding opts_line
same_options = refl

opts_of_one : cmd_opts_text generated one ≡ done (lit "opts:\n")
unfolding cmd_opts_text
opts_of_one = refl

help_of_quit : help_lines ((lit "q", lit "Quit") ∷ []) ≡ lit "  \\q    Quit\n"
unfolding help_lines
help_of_quit = refl

symbols_of_one :
    shown_symbols ((lit "f", 1) ∷ (lit "_x", 2) ∷ (lit "g@plt", 3) ∷ []) ≡ (lit "f", 1) ∷ []
unfolding shown_symbols
symbols_of_one = refl

cmd_list_text-cplr_chain_example :
    Returns
      (λ s'.
        (d : Cplr (List Text)) × (s' 2 ≡ some d)
        × (cmd_list_text 2 generated one ≡ done (lines_of list_piler (generated ∷ [])))
        × (cmd_list_text 3 d s' ≡ cmd_list_text 2 generated one))
      (cplr_chain 2 1 one)
cmd_list_text-cplr_chain_example =
    cmd_list_text-cplr_chain 2 1 one 2 (omega arith) refl (omega arith) refl tt trail (omega arith)

cmd_stat_text-cplr_chain_example :
    Returns
      (λ s'.
        (d : Cplr (List Text)) × (s' 2 ≡ some d)
        × (cmd_stat_text 2 generated one ≡ done (lines_of stat_line (generated ∷ [])))
        × (cmd_stat_text 3 d s'
            ≡ done (lines_of stat_line (generated ∷ []) ++ lit "c1: generated\n")))
      (cplr_chain 2 1 one)
unfolding decimal
cmd_stat_text-cplr_chain_example =
    cmd_stat_text-cplr_chain 2 1 one 2 (omega arith) refl (omega arith) refl tt trail (omega arith)
