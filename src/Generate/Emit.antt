-- ===== src/Generate/Emit.antt =====
-- `cplr_emit` and the macros over it. `file` and `line` are where the text comes from, `text` is
-- what `vmsprintf` makes of the format and its arguments.
use cplr.Base.{
  ℕ, ◌+◌, Bool, true, false, not, ◌&&◌, Option, none, some, [], ◌++◌, ◌==◌, ltb, if◌then◌else◌,
}
use cplr.Base.Text.{Text, lit, text_eq}
use cplr.Base.Decimal.{decimal}
use cplr.State.Enums.{GState, comment, internal, preproc, same_gstate}
use cplr.State.Context.{Cplr}

-- `c->g_prevfile == NULL || strcmp(c->g_prevfile, file) != 0`
unfoldable pub other_file : Option Text → Text → Bool
other_file none file = true
other_file (some prev) file = not (text_eq prev file)

-- `#line %d "%s"\n`
unfoldable pub line_directive : ℕ → Text → Text
line_directive line file = lit "#line " ++ (decimal line ++ (lit " \"" ++ (file ++ lit "\"\n")))

-- Writing to a stream that is open puts the text behind what its buffer holds
-- (`code_stream_write` and `dump_stream_write`); a NULL stream is not written to.
unfoldable pub stream_write : (open_stream : Bool) → Text → Option Text → Option Text
stream_write true text (some buffer) = some (buffer ++ text)
stream_write _ text buffer = buffer

module _ {T : Type 0} where
  -- The value of `needline`.
  unfoldable pub need_line : Cplr T → GState → Text → ℕ → Bool
  unfolding other_file
  need_line c nstate file line =
      if same_gstate nstate comment
      then false
      else if not (same_gstate c.g_state nstate)
      then true
      else if other_file c.g_prevfile file
      then true
      else if same_gstate nstate preproc
      then false
      else not (c.g_prevline == 0) && not (line == c.g_prevline + 1)

  -- The writes to the two streams.
  unfoldable pub emit_text : Bool → Text → Text → Cplr T → Cplr T
  unfolding stream_write
  emit_text need sline text c = record c {
    g_codebuf = stream_write c.g_code ((if need then sline else []) ++ text) c.g_codebuf;
    g_dumpbuf =
        stream_write c.g_dump ((if need && ltb 1 c.dump then sline else []) ++ text) c.g_dumpbuf;
  }

  -- What the next call compares with.
  unfoldable pub emit_state : GState → Text → ℕ → Cplr T → Cplr T
  emit_state nstate file line c =
      if same_gstate nstate comment
      then c
      else record c { g_state = nstate; g_prevline = line; g_prevfile = some file }

  unfoldable pub emit : GState → Text → ℕ → Text → Cplr T → Cplr T
  unfolding need_line emit_text emit_state line_directive
  emit nstate file line text c =
      emit_state nstate file line
        (emit_text (need_line c nstate file line) (line_directive line file) text c)

  -- `CPLR_EMIT_COMMENT`, whose file is NULL and is not read.
  unfoldable pub emit_comment : Text → Cplr T → Cplr T
  unfolding emit
  emit_comment text c = emit comment [] 1 (lit "/* " ++ (text ++ lit " */\n")) c

  -- `CPLR_EMIT_INTERNAL`, with the `__LINE__` of the call.
  unfoldable pub emit_internal : ℕ → Text → Cplr T → Cplr T
  unfolding emit
  emit_internal line text c = emit internal (lit "internal") line text c
