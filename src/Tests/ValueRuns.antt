-- ===== src/Tests/ValueRuns.antt =====
-- A value that is set several times.
use cplr.Base.{List, some, [], ◌∷◌, ◌≡◌, refl, arith}
use cplr.Base.Outcome.{done, ◌>>=◌, Returns}
use cplr.Base.Text.{lit}
use cplr.Cext.Types
use cplr.Cext.Memory.{Memory, heap_text, static_text, read_text}
use cplr.Cext.Value.{empty_value, value_get_str}
use cplr.Cext.Value.Strings.{owned, static}
use cplr.Cext.Value.Uses.{
  Use, cleared, number, copied, given, literal, address, text, Typed, use_values,
}
use cplr.Cext.Value.Uses.Sound.{use_values-Typed}
use cplr.Tests.Allocation.{bump}

-- An allocated string at 5, and a literal at 6.
abbrev memory : Memory
memory = (5, some (heap_text (lit "ab"))) ∷ (6, some (static_text (lit "xyz"))) ∷ []

abbrev uses : List Use
uses =
    copied 5 (lit "ab")
    ∷ given 5 (lit "ab")
    ∷ literal 6 (lit "xyz")
    ∷ number Types.long 70000
    ∷ address 5
    ∷ cleared
    ∷ given 6 (lit "xyz")
    ∷ []

uses_run :
    (do (v, m) ← use_values bump uses empty_value memory; p ← value_get_str v; read_text p m)
    ≡ done (lit "xyz")
unfolding use_values value_get_str
uses_run = refl

use_values-Typed_example :
    Returns (Typed memory (text (lit "xyz"))) (use_values bump uses empty_value memory)
use_values-Typed_example =
    use_values-Typed bump memory uses (
      (owned, refl),
      ((owned, refl), ((omega arith, refl), (tt, (tt, (tt, ((static, refl), tt)))))),
    )
