-- ===== src/Generate/Program.antt =====
-- The program text that the piles stand for, written without the state of the generator.
-- `lines` says whether the `#line` directives are in it.
use mathlib.Core.List.{reverse}
use cplr.Base.{ℕ, ◌+◌, ◌-◌, Bool, List, [], ◌∷◌, ◌++◌, if◌then◌else◌, length, is_empty}
use cplr.Base.Text.{Text, lit}
use cplr.State.Context.{Cplr}
use cplr.Generate.Emit.{line_directive}
use cplr.Generate.Sections.{
  Format, format, item_name, include_format, toplevel_format, statement_format,
}

abbrev pub comment_text : Text → Text
comment_text text = lit "/* " ++ (text ++ lit " */\n")

abbrev pub placed : Bool → ℕ → Text → Text → Text
placed lines line file text = (if lines then line_directive line file else []) ++ text

module _ (lines : Bool) (name : Text) (fmt : Format) where
  abbrev pub item : ℕ → Text → Text
  item i x = placed lines 1 (item_name name i) (format fmt x)

  -- The items from number `i` on.
  unfoldable pub items : ℕ → List Text → Text
  items i [] = []
  items i (x ∷ xs) = item i x ++ items (i + 1) xs

  -- The items from number `i` down.
  unfoldable pub items_down : ℕ → List Text → Text
  items_down i [] = []
  items_down i (x ∷ xs) = item i x ++ items_down (i - 1) xs

  unfoldable pub section_text : List Text → Text
  unfolding items
  section_text xs = if is_empty xs then [] else comment_text name ++ items 0 xs

  unfoldable pub section_text_down : List Text → Text
  unfolding items_down
  section_text_down xs =
      if is_empty xs then [] else comment_text name ++ items_down (length xs) (reverse xs)

unfoldable pub main_head_text : Bool → Text
main_head_text lines =
    comment_text (lit "main")
    ++ (placed lines 186 (lit "internal") (lit "int main(int argc, char **argv) {\n")
        ++ lit "\tint ret = 0;\n")

unfoldable pub main_tail_text : Bool → Text
main_tail_text lines =
    comment_text (lit "done")
    ++ (placed lines 201 (lit "internal") (lit "\treturn ret;\n") ++ lit "}\n")

module _ {T : Type 0} where
  unfoldable pub toplevel_text : Cplr T → Bool → Text
  toplevel_text c lines =
      section_text lines (lit "defsysinclude") include_format c.defsys
      ++ (section_text lines (lit "sysinclude") include_format c.syss
          ++ (section_text lines (lit "include") include_format c.incs
              ++ (section_text lines (lit "declarations") toplevel_format c.tlds
                  ++ (section_text lines (lit "definition") toplevel_format c.tlds
                      ++ section_text lines (lit "toplevel") toplevel_format c.tlfs))))

  unfoldable pub main_body_text : Cplr T → Bool → Text
  main_body_text c lines =
      section_text lines (lit "before") statement_format c.befs
      ++ (section_text lines (lit "statements") statement_format c.stms
          ++ section_text_down lines (lit "after") statement_format c.afts)

  unfoldable pub program : Cplr T → Bool → Text
  unfolding toplevel_text main_head_text main_body_text main_tail_text
  program c lines =
      toplevel_text c lines
      ++ (main_head_text lines ++ (main_body_text c lines ++ main_tail_text lines))
