-- ===== src/Generate/Sections.antt =====
-- `cplr_generate_section` and `cplr_generate_code`.
use mathlib.Core.List.{reverse}
use cplr.Base.{ℕ, ◌+◌, ◌-◌, Bool, true, false, List, [], ◌∷◌, ◌++◌, if◌then◌else◌, length, is_empty}
use cplr.Base.Text.{Text, lit}
use cplr.Base.Decimal.{decimal}
use cplr.State.Enums.{preproc, statement}
use cplr.State.Context.{Cplr}
use cplr.Generate.Emit.{emit, emit_comment, emit_internal}

-- `snprintf(fn, sizeof(fn), "%s_%d", name, i)`. The names of the sections have at most 13
-- characters and an `int` has at most 10 digits, so the 64 characters of `fn` hold it.
unfoldable pub item_name : Text → ℕ → Text
item_name name i = name ++ (b'_' ∷ decimal i)

-- A format with one `%s`: the text before it and the text behind it.
abbrev pub Format : Type 0
Format = Text × Text

abbrev pub format : Format → Text → Text
format (before, after) s = before ++ (s ++ after)

module _ {T : Type 0} (name : Text) (fmt : Format) where
  -- The loop over `L_FORWARD`.
  unfoldable pub forward_items : ℕ → List Text → Cplr T → Cplr T
  unfolding emit item_name
  forward_items i [] c = c
  forward_items i (x ∷ xs) c =
      forward_items (i + 1) xs (emit preproc (item_name name i) 1 (format fmt x) c)

  -- The loop over `L_BACKWARDS`: the list is given from its end.
  unfoldable pub backward_items : ℕ → List Text → Cplr T → Cplr T
  unfolding emit item_name
  backward_items i [] c = c
  backward_items i (x ∷ xs) c =
      backward_items (i - 1) xs (emit statement (item_name name i) 1 (format fmt x) c)

  unfoldable pub generate_section : (backwards : Bool) → List Text → Cplr T → Cplr T
  unfolding forward_items backward_items emit_comment
  generate_section true list c = backward_items (length list) (reverse list) (emit_comment name c)
  generate_section false list c = forward_items 0 list (emit_comment name c)

  -- `if(!l_empty(list)) { cplr_generate_section(...); }`
  unfoldable pub section_if_any : (backwards : Bool) → List Text → Cplr T → Cplr T
  unfolding generate_section
  section_if_any backwards list c = if is_empty list then c else generate_section backwards list c

abbrev pub include_format : Format
include_format = (lit "#include <", lit ">\n")

abbrev pub toplevel_format : Format
toplevel_format = ([], lit ";\n")

abbrev pub statement_format : Format
statement_format = (lit "\t", lit ";\n")

module _ {T : Type 0} where
  -- The sections in front of `main`.
  unfoldable pub generate_toplevel : Cplr T → Cplr T
  unfolding section_if_any
  generate_toplevel c₀ =
      let c₁ = section_if_any (lit "defsysinclude") include_format false c₀.defsys c₀ in
      let c₂ = section_if_any (lit "sysinclude") include_format false c₁.syss c₁ in
      let c₃ = section_if_any (lit "include") include_format false c₂.incs c₂ in
      let c₄ = section_if_any (lit "declarations") toplevel_format false c₃.tlds c₃ in
      let c₅ = section_if_any (lit "definition") toplevel_format false c₄.tlds c₄ in
      section_if_any (lit "toplevel") toplevel_format false c₅.tlfs c₅

  -- The comment and the two lines that open `main`; the line numbers are those of the calls.
  unfoldable pub main_head : Cplr T → Cplr T
  unfolding emit_comment emit_internal
  main_head c₀ =
      let c₁ = emit_comment (lit "main") c₀ in
      let c₂ = emit_internal 186 (lit "int main(int argc, char **argv) {\n") c₁ in
      emit_internal 187 (lit "\tint ret = 0;\n") c₂

  -- The sections within `main`.
  unfoldable pub main_body : Cplr T → Cplr T
  unfolding section_if_any
  main_body c₀ =
      let c₁ = section_if_any (lit "before") statement_format false c₀.befs c₀ in
      let c₂ = section_if_any (lit "statements") statement_format false c₁.stms c₁ in
      section_if_any (lit "after") statement_format true c₂.afts c₂

  -- The comment and the two lines that close `main`.
  unfoldable pub main_tail : Cplr T → Cplr T
  unfolding emit_comment emit_internal
  main_tail c₀ =
      let c₁ = emit_comment (lit "done") c₀ in
      let c₂ = emit_internal 201 (lit "\treturn ret;\n") c₁ in emit_internal 202 (lit "}\n") c₂

  unfoldable pub generate_code : Cplr T → Cplr T
  unfolding generate_toplevel main_head main_body main_tail
  generate_code c = main_tail (main_body (main_head (generate_toplevel c)))
