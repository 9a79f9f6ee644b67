-- ===== src/Phases/Compile.antt =====
-- `cplr_compile`. `prev` is the compiler of the piler before, if there is one with a compiler.
use cplr.Base.{ℕ, Bool, true, ◌||◌, Option, none, some, List, [], ◌∷◌, ◌==◌, if◌then◌else◌}
use cplr.Base.Outcome.{Outcome, done, crash}
use cplr.Base.Text.{Text, lit, text_eq, begins_with}
use cplr.Cext.Strings.{strprefix, strsuffix}
use cplr.State.Enums.{cc, libtcc}
use cplr.State.Context.{Cplr}
use cplr.Tcc.{Tcc}
use cplr.Phases.Errors.{note_errors}

-- The symbols that `cplr_tcc_redefsym_cb` leaves out.
unfoldable pub is_builtin : Text → Bool
unfolding text_eq begins_with strprefix strsuffix
is_builtin name =
    begins_with name (lit "_")
    || (text_eq name (lit "main")
        || (text_eq name (lit "exit")
            || (text_eq name (lit "atexit")
                || (text_eq name (lit "on_exit")
                    || (strprefix name (lit "tcc_") || strsuffix name (lit "@plt"))))))

module _ (K : Tcc) where
  -- `cplr_tcc_redefsym_cb`
  unfoldable pub redefine_symbol : Text × ℕ → K.State → K.State
  unfolding is_builtin
  redefine_symbol (name, val) t = if is_builtin name then t else (K.add_symbol t name val).0

  -- `tcc_list_symbols` with that callback.
  unfoldable pub redefine_symbols : List (Text × ℕ) → K.State → K.State
  unfolding redefine_symbol
  redefine_symbols [] t = t
  redefine_symbols (sym ∷ syms) t = redefine_symbols syms (redefine_symbol sym t)

  abbrev pub redefine_from : Option K.State → K.State → K.State
  redefine_from none t = t
  redefine_from (some prev) t = redefine_symbols (K.list_symbols prev) t

  -- The part behind a compilation that succeeds. What libtcc reports is noted at the end.
  unfoldable pub compile_output : Cplr K.State → K.State → Option Text → ℕ × Cplr K.State
  compile_output c t none =
      (0, record c { tcc = some t; flag = record c.flag { compiled = true; loaded = true } })
  compile_output c t (some out) =
      let (t', r) = K.output_file t out in
      (
        if r == 0 then 0 else 1,
        record c { tcc = some t'; flag = record c.flag { compiled = true } },
      )

  unfoldable pub compile_with : Option K.State → Cplr K.State → K.State → Text → ℕ × Cplr K.State
  unfolding redefine_symbols compile_output
  compile_with prev c t code =
      let (t', r) = K.compile_string t code in
      if r == 0
      then compile_output c (redefine_from prev t') c.out
      else (1, record c { tcc = some t' })

  unfoldable pub cplr_tcc_compile : Option K.State → Cplr K.State → Outcome (ℕ × Cplr K.State)
  unfolding compile_with
  cplr_tcc_compile prev c = elim c.tcc [
    | none ↦ crash
    | some t ↦ elim c.g_codebuf [
      | none ↦ crash
      | some code ↦ (let (r, c') = compile_with prev c t code in done (r, note_errors K c'))
    ]
  ]

  unfoldable pub cplr_compile : Option K.State → Cplr K.State → Outcome (ℕ × Cplr K.State)
  unfolding cplr_tcc_compile
  cplr_compile prev c = elim c.backend [ cc ↦ done (0, c) | libtcc ↦ cplr_tcc_compile prev c ]
