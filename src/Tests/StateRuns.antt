-- ===== src/Tests/StateRuns.antt =====
-- Chains of pilers.
use cplr.Base.{◌≡◌, refl, none, some, List, [], ◌∷◌, arith, ◌==◌, if◌then◌else◌, true}
use cplr.Base.Outcome.{done, crash, Returns}
use cplr.Base.Text.{Text, lit}
use cplr.State.Context.{Cplr}
use cplr.State.Chain.{Store, cplr_chain, cplr_find_syms}
use cplr.State.Laws.{Chains, cplr_chain-Chains, cplr_chain-crash}
use cplr.State.Symbols.{start, back, newest_loaded, cplr_find_syms-newest_loaded}
use cplr.Tests.Setup.{with_compiler, with_piles}

-- One piler, at the address 1.
abbrev one : Store (List Text)
one p = if p == 1 then some with_piles else none

cplr_chain-Chains_example : Returns (Chains 2 1 with_piles one) (cplr_chain 2 1 one)
cplr_chain-Chains_example = cplr_chain-Chains 2 1 one (omega arith) refl (omega arith) tt

abbrev with_null : Cplr (List Text)
with_null = record with_piles { defs = some (lit "-DX") ∷ none ∷ [] }

abbrev bad : Store (List Text)
bad p = if p == 1 then some with_null else none

cplr_chain-crash_example : cplr_chain 2 1 bad ≡ crash
cplr_chain-crash_example =
    cplr_chain-crash 2 1 bad {c = with_null} (some (lit "-DX") ∷ []) [] (omega arith) refl refl

abbrev loaded : Cplr (List Text)
loaded = record with_compiler { flag = record with_compiler.flag { loaded = true } }

abbrev next_one : Cplr (List Text)
next_one = record with_piles { c_prev = 1 }

abbrev two : Store (List Text)
two p = if p == 1 then some loaded else if p == 2 then some next_one else none

cplr_find_syms-newest_loaded_example :
    cplr_find_syms 3 2 two ≡ done (newest_loaded (next_one ∷ loaded ∷ []))
cplr_find_syms-newest_loaded_example =
    cplr_find_syms-newest_loaded 3
      (back {c = next_one} (omega arith) refl (back {c = loaded} (omega arith) refl (start refl)))
      (omega arith)
