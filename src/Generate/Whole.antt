-- ===== src/Generate/Whole.antt =====
-- `cplr_generate` against the program text: the sections one after another.
use cplr.Base.{ℕ, ◌≡◌, refl, ap, Bool, true, false, ◌&&◌, none, List, [], ◌∷◌, ◌++◌, append_assoc}
use cplr.Base.Text.{Text, lit, text_eq}
use cplr.State.Enums.{internal}
use cplr.State.Context.{Cplr}
use cplr.Generate.Emit.{emit_comment, emit_internal, need_line}
use cplr.Generate.Sections.{
  item_name, Format, section_if_any, generate_toplevel, main_head, include_format, toplevel_format,
}
use cplr.Generate.Program.{placed, main_head_text, toplevel_text}
use cplr.Generate.Printed.{Prints, Prints-nil, Prints-trans, Prints-eq, emit-Prints}
use cplr.Generate.Lines.{stem, contains, within, other_file-within, need_line-other_file}
use cplr.Generate.Items.{emit_comment-Prints}
use cplr.Generate.Section.{
  section_of, emit_comment-fields, section_if_any-Prints, section_if_any-within,
}

-- The names of the sections in front of `main`, the last one first.
abbrev pub toplevel_names : List Text
toplevel_names =
    lit "toplevel"
    ∷ lit "definition"
    ∷ lit "declarations"
    ∷ lit "include"
    ∷ lit "sysinclude"
    ∷ lit "defsysinclude"
    ∷ []

module _ {T : Type 0} where
  -- From `c₀` to `c` the text `f` has been printed, and the last file is of one of the names.
  pub record Upto (c₀ c : Cplr T) (names : List Text) (f : Bool → Text) : Type 0 where
    pub prints : Prints c₀ c f
    pub last_file : within names c.g_prevfile ≡ true

  pub section-Upto :
      (name : Text) (fmt : Format) (names : List Text)
      → ((i : ℕ) → stem (item_name name i) ≡ name)
      → contains name names ≡ false
      → (backwards : Bool) (c₀ c : Cplr T) (f : Bool → Text) (xs ys : List Text) → xs ≡ ys
      → Upto c₀ c names f
      → Upto c₀
          (section_if_any name fmt backwards xs c)
          (name ∷ names)
          (λ lines. f lines ++ section_of backwards lines name fmt ys)
  section-Upto name fmt names stems new backwards c₀ c f xs ys e u = record {
    prints =
        Prints-eq c₀ _ _ _ (λ lines. ap (λ zs. f lines ++ section_of backwards lines name fmt zs) e)
          (Prints-trans c₀ c _ f _ u.prints
            (section_if_any-Prints name fmt names stems new backwards xs c u.last_file));
    last_file = section_if_any-within name fmt names stems new backwards xs c u.last_file;
  }

  Upto-start :
      (c : Cplr T) (names : List Text)
      → within names c.g_prevfile ≡ true
      → Upto c c names (λ lines. [])
  Upto-start c names w = record { prints = Prints-nil c; last_file = w }

  pub Upto-eq :
      (c₀ c : Cplr T) (names : List Text) (f g : Bool → Text)
      → ((lines : Bool) → f lines ≡ g lines)
      → Upto c₀ c names f
      → Upto c₀ c names g
  Upto-eq c₀ c names f g e u = record {
    prints = Prints-eq c₀ c f g e u.prints;
    last_file = u.last_file;
  }

  pub generate_toplevel-Upto :
      (c : Cplr T)
      → c.g_prevfile ≡ none
      → Upto c (generate_toplevel c) toplevel_names (toplevel_text c)
  unfolding generate_toplevel toplevel_text item_name stem contains within
  generate_toplevel-Upto c h =
      let u1 =
        section-Upto (lit "defsysinclude") include_format ([]) (λ i. refl) refl false c _ _ _
          c.defsys (refl) (Upto-start c [] (rw h)) in
      let u2 =
        section-Upto (lit "sysinclude") include_format (lit "defsysinclude" ∷ []) (λ i. refl) refl
          false c _ _ _ c.syss (ap (λ (x : Cplr T). x.syss) u1.prints.frame) u1 in
      let u3 =
        section-Upto (lit "include") include_format (lit "sysinclude" ∷ lit "defsysinclude" ∷ [])
          (λ i. refl) refl false c _ _ _ c.incs (ap (λ (x : Cplr T). x.incs) u2.prints.frame) u2 in
      let u4 =
        section-Upto (lit "declarations") toplevel_format
          (lit "include" ∷ lit "sysinclude" ∷ lit "defsysinclude" ∷ []) (λ i. refl) refl false c _ _
          _ c.tlds (ap (λ (x : Cplr T). x.tlds) u3.prints.frame) u3 in
      let u5 =
        section-Upto (lit "definition") toplevel_format
          (lit "declarations" ∷ lit "include" ∷ lit "sysinclude" ∷ lit "defsysinclude" ∷ [])
          (λ i. refl) refl false c _ _ _ c.tlds (ap (λ (x : Cplr T). x.tlds) u4.prints.frame) u4 in
      Upto-eq c _ _ _ _ (λ lines. simp append_assoc)
        (section-Upto (lit "toplevel") toplevel_format
          (lit "definition"
            ∷ lit "declarations"
            ∷ lit "include"
            ∷ lit "sysinclude"
            ∷ lit "defsysinclude"
            ∷ [])
          (λ i. refl) refl false c _ _ _ c.tlfs (ap (λ (x : Cplr T). x.tlfs) u5.prints.frame) u5)

  pub emit_internal-Prints :
      (line : ℕ) (text : Text) (c : Cplr T)
      → need_line c internal (lit "internal") line ≡ true
      → Prints c (emit_internal line text c) (λ lines. placed lines line (lit "internal") text)
  unfolding emit_internal
  emit_internal-Prints line text c n =
      Prints-eq c _ _ _ (λ lines. ap (λ need. placed (need && lines) line (lit "internal") text) n)
        (emit-Prints internal (lit "internal") line text c)

  pub emit_internal_next-Prints :
      (line : ℕ) (text : Text) (c : Cplr T)
      → need_line c internal (lit "internal") line ≡ false
      → Prints c (emit_internal line text c) (λ lines. text)
  unfolding emit_internal
  emit_internal_next-Prints line text c n =
      Prints-eq c _ _ _ (λ lines. ap (λ need. placed (need && lines) line (lit "internal") text) n)
        (emit-Prints internal (lit "internal") line text c)

  -- The two lines that open `main`.
  pub main_head-Upto :
      (c₀ c : Cplr T) (f : Bool → Text)
      → Upto c₀ c toplevel_names f
      → Upto c₀
          (main_head c)
          (lit "internal" ∷ toplevel_names)
          (λ lines. f lines ++ main_head_text lines)
  unfolding main_head main_head_text text_eq
  main_head-Upto c₀ c f u =
      let c₁ = emit_comment (lit "main") c in
      let c₂ = emit_internal 186 (lit "int main(int argc, char **argv) {\n") c₁ in
      let first : need_line c₁ internal (lit "internal") 186 ≡ true =
        need_line-other_file c₁ internal (lit "internal") 186 refl (
          rw (emit_comment-fields (lit "main") c).0 (
            other_file-within toplevel_names c.g_prevfile (lit "internal") u.last_file
              (unfold contains stem in refl))) in
      let next : need_line c₂ internal (lit "internal") 187 ≡ false =
        unfold emit_internal emit_comment in refl in
      record {
        prints =
            Prints-eq c₀ _ _ _ (λ lines. simp append_assoc)
              (Prints-trans c₀ c₂ _ _ _
                (Prints-trans c₀ c₁ _ _ _
                  (Prints-trans c₀ c _ _ _ u.prints (emit_comment-Prints (lit "main") c))
                  (emit_internal-Prints 186 (lit "int main(int argc, char **argv) {\n") c₁ first))
                (emit_internal_next-Prints 187 (lit "\tint ret = 0;\n") c₂ next));
        last_file = unfold emit_internal emit_comment within in refl;
      }
