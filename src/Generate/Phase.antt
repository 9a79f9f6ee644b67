-- ===== src/Generate/Phase.antt =====
-- `cplr_generate`: the streams and buffers around `cplr_generate_code`. The report of the sizes stands
-- beside it, `cplr_generate_dump` stands in Dump, and the other messages of the phase are left
-- out; they change nothing of the piler. That the filter of the dump takes every byte is taken for
-- granted here.
use cplr.Base.{ℕ, true, false, Option, none, some, [], ◌++◌, length, ltb, if◌then◌else◌}
use cplr.Base.Text.{Text, lit}
use cplr.Base.Decimal.{decimal}
use cplr.State.Context.{Cplr}
use cplr.Generate.Sections.{generate_code}

-- `strlen` of a buffer, 0 for NULL.
abbrev size_of : Option Text → ℕ
size_of none = 0
size_of (some s) = length s

module _ {T : Type 0} where
  unfoldable pub generate_open : Cplr T → Cplr T
  generate_open c = record c {
    g_codebuf = some [];
    g_code = true;
    g_dumpbuf = if ltb 0 c.dump then some [] else c.g_dumpbuf;
    g_dump = if ltb 0 c.dump then true else c.g_dump;
  }

  unfoldable pub generate_close : Cplr T → Cplr T
  generate_close c = record c { g_code = false; g_dump = false }

  unfoldable pub generate_free : Cplr T → Cplr T
  generate_free c = record c { g_codebuf = none; g_dumpbuf = none }

  unfoldable pub generate_finish : Cplr T → Cplr T
  generate_finish c = record c { g_prevfile = none }

  -- What is printed of the sizes of the buffers.
  unfoldable generate_report : Cplr T → Text
  generate_report c =
      if ltb 0 c.verbosity
      then lit "Generated: "
        ++ (decimal (size_of c.g_codebuf)
            ++ (lit " bytes code, " ++ (decimal (size_of c.g_dumpbuf) ++ lit " bytes dump\n")))
      else []

  unfoldable pub cplr_generate : Cplr T → Cplr T
  unfolding generate_open generate_close generate_free generate_finish
  cplr_generate c =
      let ready = generate_open (generate_free (generate_close c)) in
      let written = generate_finish (generate_close (generate_code ready)) in
      record written { flag = record written.flag { generated = true } }
