-- ===== src/Command/Line.antt =====
-- `cplr_command` and `cplr_command_internal`. What commands print stands in Print; what `system`
-- does is left out, and its result is not used.
use cplr.Base.{
  ℕ, Bool, ◌||◌, Option, none, some, List, [], ◌∷◌, snoc, is_empty, ◌==◌, if◌then◌else◌,
}
use cplr.Base.Outcome.{Outcome, done, ◌>>=◌}
use cplr.Base.Text.{Text, lit, text_eq, is_space, is_cntrl}
use cplr.State.Context.{Cplr}
use cplr.Tcc.{Tcc}
use cplr.Host.{Host}
use cplr.Generate.Phase.{cplr_generate}
use cplr.Phases.Run.{cplr_run}

-- The functions of the table of commands.
pub data Handler : Type 0 where
  cmd_list cmd_syms cmd_dump cmd_opts cmd_stat cmd_help cmd_quit : Handler

abbrev pub commands : List (Text × Handler)
commands =
    (lit "l", cmd_list)
    ∷ (lit "y", cmd_syms)
    ∷ (lit "d", cmd_dump)
    ∷ (lit "o", cmd_opts)
    ∷ (lit "s", cmd_stat)
    ∷ (lit "?", cmd_help)
    ∷ (lit "q", cmd_quit)
    ∷ []

-- " \t\r\n"
unfoldable pub is_separator : ℕ → Bool
is_separator c = (c == 32) || ((c == 9) || ((c == 13) || (c == 10)))

-- The tokens of `strtok_r`, where `token` is what has been read of the first one.
unfoldable pub tokens : (token : Text) → Text → List Text
unfolding is_separator
tokens [] [] = []
tokens (a ∷ token) [] = (a ∷ token) ∷ []
tokens token (c ∷ line) =
    let begun = tokens (snoc token c) line in
    let rest = tokens [] line in
    if is_separator c then (if is_empty token then rest else token ∷ rest) else begun

-- The loop over the table.
unfoldable pub find_command : Text → List (Text × Handler) → Option Handler
unfolding text_eq
find_command cmd [] = none
find_command cmd ((name, handler) ∷ cs) =
    let rest = find_command cmd cs in if text_eq name cmd then some handler else rest

-- `while(*line && (isspace(*line) || iscntrl(*line))) line++`
unfoldable pub skip_blank : Text → Text
unfolding is_space is_cntrl
skip_blank [] = []
skip_blank (c ∷ line) =
    let rest = skip_blank line in if is_space c || is_cntrl c then rest else c ∷ line

module _ {T : Type 0} where
  -- The handlers; only that of the dump changes the piler.
  unfoldable pub run_handler : Handler → Cplr T → ℕ × Cplr T
  run_handler cmd_dump c =
      let c' = cplr_generate (record c { dump = 1 }) in (0, record c' { dump = c.dump })
  run_handler cmd_quit c = (1, c)
  run_handler _ c = (0, c)

  unfoldable pub cplr_command_internal : Text → Cplr T → ℕ × Cplr T
  unfolding tokens find_command run_handler
  cplr_command_internal line c =
      let ret : ℕ = if c.flag.interactive then 0 else 1 in
      elim (tokens [] line) [
        | [] ↦ (ret, c)
        | cmd ∷ _ ↦ elim (find_command cmd commands) [
          | none ↦ (ret, c)
          | some handler ↦ run_handler handler c
        ]
      ]

module _ (H : Host) (K : Tcc) (prev : Option K.State) where
  -- The run behind the switch, whose result is only reported.
  unfoldable pub run_pile : Cplr K.State → Outcome (ℕ × Cplr K.State)
  run_pile c = do (res, c') ← cplr_run H K prev c; done (0, c')

  -- The switch on the first character of a line that is not empty.
  unfoldable pub dispatch_line : ℕ → Text → Cplr K.State → Outcome (ℕ × Cplr K.State)
  unfolding cplr_command_internal run_pile
  dispatch_line first text c =
      if first == b'?'
      then done (0, c)
      else if first == b'\\'
      then done (cplr_command_internal text c)
      else if first == b'!'
      then done (0, c)
      else if first == b'@'
      then done (0, record c { tlds = snoc c.tlds text })
      else if first == b'^'
      then done (0, record c { tlfs = snoc c.tlfs text })
      else if first == b'<'
      then done (0, record c { befs = snoc c.befs text })
      else if first == b'>'
      then done (0, record c { afts = snoc c.afts text })
      else if first == b'.'
      then (if is_empty text then run_pile c else done (0, record c { stms = snoc c.stms text }))
      else run_pile (record c { stms = snoc c.stms (first ∷ text) })

  unfoldable pub cplr_command : Text → Cplr K.State → Outcome (ℕ × Cplr K.State)
  unfolding skip_blank dispatch_line
  cplr_command line c = elim (skip_blank line) [
    | [] ↦ done (0, c)
    | first ∷ text ↦ dispatch_line first text c
  ]
