-- ===== src/Generate/Correct.antt =====
-- `cplr_generate` writes the program that the piles stand for.
use cplr.Base.{
  ◌≡◌, ◌∙◌, refl, ap, Bool, true, false, Option, none, some, [], ◌∷◌, ◌++◌, if◌then◌else◌, is_some,
  ltb, append_assoc,
}
use cplr.Base.Text.{Text, lit, text_eq}
use cplr.State.Enums.{internal}
use cplr.State.Context.{Cplr}
use cplr.Generate.Emit.{emit_comment, emit_internal, need_line}
use cplr.Generate.Sections.{
  item_name, section_if_any, generate_toplevel, main_head, generate_code, statement_format,
}
use cplr.Generate.Program.{toplevel_text}
use cplr.Generate.Printed.{Prints, Prints-trans, Prints-eq, Streams, append?-if}
use cplr.Generate.Lines.{stem, contains}
use cplr.Generate.Items.{emit_comment-Prints}
use cplr.Generate.Section.{section_if_any-need_line}
use cplr.Generate.Program.{main_body_text, main_tail_text, program}
use cplr.Generate.Sections.{main_body, main_tail}
use cplr.Generate.Whole.{
  Upto, toplevel_names, section-Upto, generate_toplevel-Upto, emit_internal-Prints,
  emit_internal_next-Prints, main_head-Upto,
}
use cplr.Generate.Phase.{cplr_generate, generate_open, generate_close, generate_free}

module _ {T : Type 0} where
  -- The line of the `return` gets a directive.
  abbrev NeedLine : Cplr T → Type 0
  NeedLine c = need_line c internal (lit "internal") 201 ≡ true

  main_head-NeedLine : (c : Cplr T) → NeedLine (main_head c)
  unfolding main_head text_eq
  main_head-NeedLine c = refl

  main_body-Upto :
      (c₀ c : Cplr T) (f : Bool → Text)
      → Upto c₀ c (lit "internal" ∷ toplevel_names) f
      → NeedLine c
      → Prints c₀ (main_body c) (λ lines. f lines ++ main_body_text c₀ lines)
        × NeedLine (main_body c)
  unfolding item_name stem contains main_body main_body_text
  main_body-Upto c₀ c f u n =
      let names = lit "internal" ∷ toplevel_names in
      let c₁ = section_if_any (lit "before") statement_format false c.befs c in
      let u₁ =
        section-Upto (lit "before") statement_format names (λ i. refl) refl false c₀ c f c.befs
          c₀.befs (ap (λ (x : Cplr T). x.befs) u.prints.frame) u in
      let n₁ =
        section_if_any-need_line (lit "before") statement_format names (λ i. refl) refl false c.befs
          c 201 n in
      let names₁ = lit "before" ∷ names in
      let c₂ = section_if_any (lit "statements") statement_format false c₁.stms c₁ in
      let u₂ =
        section-Upto (lit "statements") statement_format names₁ (λ i. refl) refl false c₀ c₁ _
          c₁.stms c₀.stms (ap (λ (x : Cplr T). x.stms) u₁.prints.frame) u₁ in
      let n₂ =
        section_if_any-need_line (lit "statements") statement_format names₁ (λ i. refl) refl false
          c₁.stms c₁ 201 n₁ in
      let names₂ = lit "statements" ∷ names₁ in
      let u₃ =
        section-Upto (lit "after") statement_format names₂ (λ i. refl) refl true c₀ c₂ _ c₂.afts
          c₀.afts (ap (λ (x : Cplr T). x.afts) u₂.prints.frame) u₂ in
      let n₃ =
        section_if_any-need_line (lit "after") statement_format names₂ (λ i. refl) refl true c₂.afts
          c₂ 201 n₂ in
      (Prints-eq c₀ _ _ _ (λ lines. simp append_assoc) u₃.prints, n₃)

  main_tail-Prints : (c : Cplr T) → NeedLine c → Prints c (main_tail c) main_tail_text
  unfolding main_tail main_tail_text text_eq
  main_tail-Prints c n =
      let c₁ = emit_comment (lit "done") c in
      let c₂ = emit_internal 201 (lit "\treturn ret;\n") c₁ in
      let first : need_line c₁ internal (lit "internal") 201 ≡ true =
        unfold emit_comment need_line in n in
      let next : need_line c₂ internal (lit "internal") 202 ≡ false =
        unfold emit_internal emit_comment in refl in
      Prints-trans c c₁ _ _ _ (emit_comment-Prints (lit "done") c) (
        Prints-trans c₁ c₂ _ _ _ (emit_internal-Prints 201 (lit "\treturn ret;\n") c₁ first)
          (emit_internal_next-Prints 202 (lit "}\n") c₂ next))

  generate_code-Prints : (c : Cplr T) → c.g_prevfile ≡ none → Prints c (generate_code c) (program c)
  unfolding program generate_code
  generate_code-Prints c h =
      let top = generate_toplevel c in
      let head = main_head-Upto c top (toplevel_text c) (generate_toplevel-Upto c h) in
      let (body, n) = main_body-Upto c (main_head top) _ head (main_head-NeedLine top) in
      Prints-eq c _ _ _ (λ lines. simp append_assoc)
        (Prints-trans c (main_body (main_head top)) _ _ _ body
          (main_tail-Prints (main_body (main_head top)) n))

  -- The piler behind the generator, for the texts that it has written.
  abbrev pub generated_from : Cplr T → Cplr T → Cplr T
  generated_from c x = record c {
    flag = record c.flag { generated = true };
    g_state = x.g_state;
    g_prevline = x.g_prevline;
    g_prevfile = none;
    g_code = false;
    g_dump = false;
    g_codebuf = some (program c true);
    g_dumpbuf = if ltb 0 c.dump then some (program c (ltb 1 c.dump)) else none;
  }

  ready : Cplr T → Cplr T
  ready c = generate_open (generate_free (generate_close c))

  ready-Streams : (c : Cplr T) → Streams (ready c) [] (if ltb 0 c.dump then some [] else none)
  unfolding ready generate_open generate_free generate_close
  ready-Streams c = record {
    code_open = refl;
    code_is = refl;
    dump_open = opens (ltb 0 c.dump);
    dump_is = refl;
  }
    where
      opens :
          (b : Bool)
          → (if b then true else false) ≡ is_some {A = Text} (if b then some [] else none)
      opens true = refl
      opens false = refl

  -- `cplr_generate` of a piler that no last file is left in: the code buffer holds the program
  -- that the piles stand for, with a `#line` directive wherever the file or the line is not the
  -- next one. Without a dump level there is no dump; the dump is the program without directives
  -- at level 1 and the same text as the code from level 2 on. Both streams are closed, the last
  -- file is forgotten, the flag is set, and but for the generator's own state nothing else changes.
  pub cplr_generate-program :
      (c : Cplr T) → c.g_prevfile ≡ none → cplr_generate c ≡ generated_from c (cplr_generate c)
  unfolding cplr_generate ready program
  cplr_generate-program c h =
      let x = generate_code (ready c) in
      let p = generate_code-Prints (ready c) h in
      let s = p.streams _ _ (ready-Streams c) in
      let final : Option Text → Option Text → Cplr T = λ code dump. record c {
        flag = record c.flag { generated = true };
        g_state = x.g_state;
        g_prevline = x.g_prevline;
        g_prevfile = none;
        g_code = false;
        g_dump = false;
        g_codebuf = code;
        g_dumpbuf = dump;
      } in
      ap
        (λ (y : Cplr T). record y {
          flag = record y.flag { generated = true };
          g_prevfile = none;
          g_code = false;
          g_dump = false;
        })
        p.frame
      ∙ ap (λ b. final b x.g_dumpbuf) s.code_is
      ∙ ap (final (some (program c true)))
          (s.dump_is ∙ append?-if (ltb 0 c.dump) (program c (ltb 1 c.dump)))
