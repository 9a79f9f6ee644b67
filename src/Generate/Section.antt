-- ===== src/Generate/Section.antt =====
-- One section of the program: its text, the files it names, and the line behind it.
use mathlib.Core.List.{reverse}
use cplr.Base.{ℕ, ◌≡◌, inr, refl, Bool, true, false, List, [], ◌∷◌, arith, length}
use cplr.Base.Text.{Text, lit}
use cplr.State.Enums.{internal}
use cplr.State.Context.{Cplr}
use cplr.Generate.Emit.{emit_comment, need_line, other_file}
use cplr.Generate.Sections.{item_name, Format, section_if_any}
use cplr.Generate.Program.{section_text, section_text_down}
use cplr.Generate.Printed.{Prints, Prints-nil, Prints-trans}
use cplr.Generate.Lines.{stem, contains, within, within-cons, other_file-within}
use cplr.Generate.Items.{
  length-reverse, emit_comment-Prints, forward_items-Prints, backward_items-Prints,
  forward_items-Within, backward_items-Within, forward_items-Outside, backward_items-Outside,
}

abbrev pub section_of : (backwards lines : Bool) → Text → Format → List Text → Text
section_of false lines name fmt xs = section_text lines name fmt xs
section_of true lines name fmt xs = section_text_down lines name fmt xs

module _ {T : Type 0} where
  pub emit_comment-fields :
      (text : Text) (c : Cplr T)
      → ((emit_comment text c).g_prevfile ≡ c.g_prevfile)
        × ((emit_comment text c).g_state ≡ c.g_state)
        × ((emit_comment text c).g_prevline ≡ c.g_prevline)
  unfolding emit_comment
  emit_comment-fields text c = (refl, refl, refl)

  module _ (name : Text) (fmt : Format) (names : List Text)
      (stems : (i : ℕ) → stem (item_name name i) ≡ name) (new : contains name names ≡ false) where
    fresh :
        (c : Cplr T)
        → within names c.g_prevfile ≡ true
        → (j : ℕ) → other_file (emit_comment name c).g_prevfile (item_name name j) ≡ true
    fresh c w j =
        rw (emit_comment-fields name c).0
          (other_file-within names c.g_prevfile (item_name name j) w (rw (stems j) new))

    commented :
        (c : Cplr T)
        → within names c.g_prevfile ≡ true
        → within (name ∷ names) (emit_comment name c).g_prevfile ≡ true
    commented c w = rw (emit_comment-fields name c).0 (within-cons name names c.g_prevfile w)

    -- A section that has not been yet.
    pub section_if_any-Prints :
        (backwards : Bool) (xs : List Text) (c : Cplr T)
        → within names c.g_prevfile ≡ true
        → Prints c
            (section_if_any name fmt backwards xs c)
            (λ lines. section_of backwards lines name fmt xs)
    section_if_any-Prints false [] c w = unfold section_if_any section_text in Prints-nil c
    section_if_any-Prints true [] c w = unfold section_if_any section_text_down in Prints-nil c
    section_if_any-Prints false (x ∷ xs) c w =
        unfold section_if_any section_text in
        (Prints-trans c _ _ _ _ (emit_comment-Prints name c)
          (forward_items-Prints name fmt 0 (x ∷ xs) (emit_comment name c) λ j h. fresh c w j))
    section_if_any-Prints true (x ∷ xs) c w =
        unfold section_if_any section_text_down in
        (Prints-trans c _ _ _ _ (emit_comment-Prints name c) (
          backward_items-Prints name fmt (length (x ∷ xs)) (reverse (x ∷ xs)) (emit_comment name c)
            (omega (arith, length-reverse (x ∷ xs))) λ j h. fresh c w j))

    pub section_if_any-within :
        (backwards : Bool) (xs : List Text) (c : Cplr T)
        → within names c.g_prevfile ≡ true
        → within (name ∷ names) (section_if_any name fmt backwards xs c).g_prevfile ≡ true
    section_if_any-within false [] c w =
        unfold section_if_any in within-cons name names c.g_prevfile w
    section_if_any-within true [] c w =
        unfold section_if_any in within-cons name names c.g_prevfile w
    section_if_any-within false (x ∷ xs) c w =
        unfold section_if_any in
        (forward_items-Within name fmt names stems 0 (x ∷ xs) (emit_comment name c) (commented c w))
    section_if_any-within true (x ∷ xs) c w =
        unfold section_if_any in
        (backward_items-Within name fmt names stems (length (x ∷ xs)) (reverse (x ∷ xs))
          (emit_comment name c) (commented c w))

    -- Behind a section, the next line of `main` itself gets a directive, if it got one before.
    pub section_if_any-need_line :
        (backwards : Bool) (xs : List Text) (c : Cplr T) (line : ℕ)
        → need_line c internal (lit "internal") line ≡ true
        → need_line (section_if_any name fmt backwards xs c) internal (lit "internal") line ≡ true
    section_if_any-need_line false [] c line h = unfold section_if_any in h
    section_if_any-need_line true [] c line h = unfold section_if_any in h
    section_if_any-need_line false (x ∷ xs) c line h =
        unfold section_if_any need_line in
        rw (forward_items-Outside name fmt 0 (x ∷ xs) (emit_comment name c) (inr (omega arith)))
    section_if_any-need_line true (x ∷ xs) c line h =
        unfold section_if_any need_line in
        rw (
          backward_items-Outside name fmt (length (x ∷ xs)) (reverse (x ∷ xs)) (emit_comment name c)
            (inr (omega (arith, length-reverse (x ∷ xs)))))
