-- ===== src/Tests/GenerateRuns.antt =====
-- `cplr_generate` on a few piles.
use cplr.Base.{◌≡◌, refl, false}
use cplr.Base.Text.{lit}
use cplr.Base.Decimal.{decimal}
use cplr.Generate.Emit.{line_directive}
use cplr.Generate.Phase.{cplr_generate}
use cplr.Generate.Sections.{item_name}
use cplr.Generate.Program.{program, section_text, section_text_down}
use cplr.Generate.Correct.{generated_from, cplr_generate-program}
use cplr.Tests.Setup.{with_piles}

cplr_generate-program_example :
    cplr_generate with_piles ≡ generated_from with_piles (cplr_generate with_piles)
cplr_generate-program_example = cplr_generate-program with_piles refl

-- The dump at level 1.
program_run :
    program with_piles false
    ≡ lit
        "/* include */\n#include <math.h>\n/* main */\nint main(int argc, char **argv) {\n\tint ret = 0;\n/* statements */\n\tint i;\n\tputs(\"x\");\n/* after */\n\tb();\n\ta();\n/* done */\n\treturn ret;\n}\n"
unfolding program section_text section_text_down
program_run = refl

-- One item of the code.
directive_run :
    line_directive 1 (item_name (lit "statements") 12) ≡ lit "#line 1 \"statements_12\"\n"
unfolding line_directive item_name decimal
directive_run = refl
