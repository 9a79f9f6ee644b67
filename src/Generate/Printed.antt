-- ===== src/Generate/Printed.antt =====
-- What a part of the generator writes, as a text that may have its `#line` directives or not, and
-- what it leaves alone.
use cplr.Base.{
  ℕ, ◌≡◌, ◌∙◌, refl, sym, ap, append_assoc, append-nil, Bool, true, false, ◌&&◌, Option, none, some,
  [], ◌++◌, ltb, if◌then◌else◌, is_some, if_elim,
}
use mathlib.Core.Path.{fun_ext}
use cplr.Base.Text.{Text}
use cplr.State.Enums.{GState, comment, same_gstate}
use cplr.State.Context.{Cplr}
use cplr.Generate.Emit.{emit, emit_text, emit_state, need_line, line_directive, stream_write}
use cplr.Generate.Program.{placed}

abbrev pub append? : Option Text → Text → Option Text
append? none t = none
append? (some s) t = some (s ++ t)

pub append?-if :
    (b : Bool) (t : Text) → append? (if b then some [] else none) t ≡ (if b then some t else none)
append?-if true t = refl
append?-if false t = refl

append?-append : (d : Option Text) (s t : Text) → append? (append? d s) t ≡ append? d (s ++ t)
append?-append none s t = refl
append?-append (some d) s t = ap some (append_assoc d s t)

stream_write-append? : (d : Option Text) (t : Text) → stream_write (is_some d) t d ≡ append? d t
unfolding stream_write
stream_write-append? none t = refl
stream_write-append? (some d) t = refl

is_some-append? : (d : Option Text) (t : Text) → is_some d ≡ is_some (append? d t)
is_some-append? none t = refl
is_some-append? (some d) t = refl

append?-nil : (d : Option Text) → d ≡ append? d []
append?-nil none = refl
append?-nil (some d) = ap some (sym (append-nil d))

if_and_true :
    (b : Bool) (code sline text : Text)
    → some (code ++ ((if b then sline else []) ++ text))
      ≡ some (code ++ ((if b && true then sline else []) ++ text))
if_and_true true code sline text = refl
if_and_true false code sline text = refl

module _ {T : Type 0} where
  -- The code stream is open over a buffer, and the dump stream is open if there is a dump.
  pub record Streams (c : Cplr T) (code : Text) (dump : Option Text) : Type 0 where
    pub code_open : c.g_code ≡ true
    pub code_is : c.g_codebuf ≡ some code
    pub dump_open : c.g_dump ≡ is_some dump
    pub dump_is : c.g_dumpbuf ≡ dump

  -- `c'` comes from `c` by writing `f`, with its directives to the code, and to the dump as the
  -- dump level says. Only the streams' buffers and the generator's own fields differ.
  pub record Prints (c c' : Cplr T) (f : Bool → Text) : Type 0 where
    pub streams :
        (code : Text) (dump : Option Text)
        → Streams c code dump
        → Streams c' (code ++ f true) (append? dump (f (ltb 1 c.dump)))
    pub frame : c' ≡ record c {
      g_state = c'.g_state;
      g_prevline = c'.g_prevline;
      g_prevfile = c'.g_prevfile;
      g_codebuf = c'.g_codebuf;
      g_dumpbuf = c'.g_dumpbuf;
    }

  pub Prints-nil : (c : Cplr T) → Prints c c (λ lines. [])
  Prints-nil c = record {
    streams = λ code dump s. record {
      code_open = s.code_open;
      code_is = s.code_is ∙ ap some (sym (append-nil code));
      dump_open = s.dump_open ∙ is_some-append? dump [];
      dump_is = s.dump_is ∙ append?-nil dump;
    };
    frame = refl;
  }

  pub Prints-trans :
      (a b c : Cplr T) (f g : Bool → Text)
      → Prints a b f
      → Prints b c g
      → Prints a c (λ lines. f lines ++ g lines)
  Prints-trans a b c f g p q = record {
    streams = λ code dump s.
        let t = q.streams _ _ (p.streams code dump s) in
        let same : b.dump ≡ a.dump = ap (λ (x : Cplr T). x.dump) p.frame in
        record {
          code_open = t.code_open;
          code_is = t.code_is ∙ ap some (append_assoc code (f true) (g true));
          dump_open =
              t.dump_open
              ∙ sym (is_some-append? _ _)
              ∙ sym (is_some-append? dump _)
              ∙ is_some-append? dump _;
          dump_is =
              t.dump_is
              ∙ ap (λ n. append? (append? dump (f (ltb 1 a.dump))) (g (ltb 1 n))) same
              ∙ append?-append dump _ _;
        };
    frame =
        q.frame
        ∙ ap
            (λ (x : Cplr T). record x {
              g_state = c.g_state;
              g_prevline = c.g_prevline;
              g_prevfile = c.g_prevfile;
              g_codebuf = c.g_codebuf;
              g_dumpbuf = c.g_dumpbuf;
            })
            p.frame;
  }

  pub Prints-eq :
      (a b : Cplr T) (f g : Bool → Text)
      → ((lines : Bool) → f lines ≡ g lines)
      → Prints a b f
      → Prints a b g
  Prints-eq a b f g e p = rw (fun_ext e) at p

  emit_text-Prints :
      (need : Bool) (sline text : Text) (c : Cplr T)
      → Prints c
          (emit_text need sline text c)
          (λ lines. (if need && lines then sline else []) ++ text)
  unfolding emit_text
  emit_text-Prints need sline text c = record {
    streams = λ code dump s. record {
      code_open = s.code_open;
      code_is =
          rw (s.code_open, s.code_is) (unfold stream_write in if_and_true need code sline text);
      dump_open = s.dump_open ∙ is_some-append? dump _;
      dump_is = rw (s.dump_open, s.dump_is) (stream_write-append? dump _);
    };
    frame = refl;
  }

  emit_state-Prints :
      (nstate : GState) (file : Text) (line : ℕ) (c x : Cplr T) (f : Bool → Text)
      → Prints c x f
      → Prints c (emit_state nstate file line x) f
  unfolding emit_state
  emit_state-Prints nstate file line c x f p =
      if_elim (λ y. Prints c y f) (same_gstate nstate comment) p
        (record {
          streams = λ code dump s.
              let t = p.streams code dump s in
              record {
                code_open = t.code_open;
                code_is = t.code_is;
                dump_open = t.dump_open;
                dump_is = t.dump_is;
              };
          frame =
              ap
                (λ (y : Cplr T). record y {
                  g_state = nstate;
                  g_prevline = line;
                  g_prevfile = some file;
                })
                p.frame;
        })

  pub emit-Prints :
      (nstate : GState) (file : Text) (line : ℕ) (text : Text) (c : Cplr T)
      → Prints c
          (emit nstate file line text c)
          (λ lines. placed (need_line c nstate file line && lines) line file text)
  unfolding emit
  emit-Prints nstate file line text c =
      emit_state-Prints nstate file line c _ _
        (emit_text-Prints (need_line c nstate file line) (line_directive line file) text c)
