-- ===== src/Generate/Labeled.antt =====
-- `cplr_generate_labeled` of source/cplr_generate.c, which nothing calls: a section whose format
-- takes the number of the item in front of its text.
use mathlib.Core.List.{reverse}
use cplr.Base.{ℕ, ◌+◌, ◌-◌, Bool, true, false, List, [], ◌∷◌, ◌++◌, length}
use cplr.Base.Text.{Text}
use cplr.Base.Decimal.{decimal}
use cplr.State.Enums.{preproc, statement}
use cplr.State.Context.{Cplr}
use cplr.Generate.Emit.{emit, emit_comment}
use cplr.Generate.Sections.{Format, format, item_name}

-- A format with a `%d` and then a `%s`: the text before the number, and the rest.
abbrev LabelFormat : Type 0
LabelFormat = Text × Format

abbrev label_format : LabelFormat → ℕ → Text → Text
label_format (before, rest) j s = before ++ (decimal j ++ format rest s)

module _ {T : Type 0} (name : Text) (fmt : LabelFormat) where
  unfoldable forward_labeled : (i j : ℕ) → List Text → Cplr T → Cplr T
  unfolding emit item_name
  forward_labeled i j [] c = c
  forward_labeled i j (x ∷ xs) c =
      forward_labeled (i + 1) (j + 1) xs
        (emit preproc (item_name name i) 1 (label_format fmt j x) c)

  unfoldable backward_labeled : (i j : ℕ) → List Text → Cplr T → Cplr T
  unfolding emit item_name
  backward_labeled i j [] c = c
  backward_labeled i j (x ∷ xs) c =
      backward_labeled (i - 1) (j + 1) xs
        (emit statement (item_name name i) 1 (label_format fmt j x) c)

  unfoldable generate_labeled : (backwards : Bool) → List Text → Cplr T → Cplr T
  unfolding forward_labeled backward_labeled emit_comment
  generate_labeled true list c =
      backward_labeled (length list) 0 (reverse list) (emit_comment name c)
  generate_labeled false list c = forward_labeled 0 0 list (emit_comment name c)
