-- ===== src/Command/Keeps.antt =====
-- Every line leaves a piler that can go on.
use cplr.Base.{
  ℕ, ◌≤◌, ◌≡◌, sym, ap, ◌∙◌, Bool, true, false, Option, none, some, List, [], ◌∷◌, snoc, is_empty,
  arith, ◌==◌, if◌then◌else◌, if_elim,
}
use cplr.Base.Outcome.{Outcome, done}
use cplr.Base.Text.{Text}
use cplr.State.Context.{Cplr}
use cplr.Tcc.{Tcc}
use cplr.Host.{Host}
use cplr.Generate.Phase.{cplr_generate}
use cplr.Generate.Correct.{cplr_generate-program}
use cplr.Phases.Prepares.{Prints}
use cplr.Phases.Ends.{Ends, ends, Ends-bind}
use cplr.Phases.Sound.{links, Usable, generated-Settled}
use cplr.Phases.Sequence.{cplr_run-Compiled}
use cplr.Command.Line.{
  Handler, cmd_list, cmd_syms, cmd_dump, cmd_opts, cmd_stat, cmd_help, cmd_quit, commands, tokens,
  find_command, skip_blank, run_handler, cplr_command_internal, run_pile, dispatch_line,
  cplr_command,
}

module _ (H : Host) (K : Tcc) (prev : Option K.State) (prints : Prints H) {t : K.State}
    (new : K.new ≡ some t) where
  -- A usable piler at its place, and a result of 0 or 1.
  abbrev pub Kept : Cplr K.State → ℕ × Cplr K.State → Type 0
  Kept c (r, y) = Usable K (links c) y × (r ≤ 1)

  run_handler-Kept :
      (h : Handler) (c : Cplr K.State) → Usable K (links c) c → Kept c (run_handler h c)
  unfolding run_handler
  run_handler-Kept cmd_dump c (ready, s) =
      let d : Cplr K.State = record c { dump = 1 } in
      let e = cplr_generate-program d s.2 in
      let (b, f, p, n, k) = generated-Settled (links c) d (cplr_generate d) e s in
      (
        (
          (λ h.
              let (t, i) = ready (sym (ap (λ x. x.flag.prepared) e) ∙ h) in
              (t, ap (λ x. x.tcc) e ∙ i)),
          (b, f, p, n, k),
        ),
        omega arith,
      )
  run_handler-Kept cmd_quit c u = (u, omega arith)
  run_handler-Kept cmd_list c u = (u, omega arith)
  run_handler-Kept cmd_syms c u = (u, omega arith)
  run_handler-Kept cmd_opts c u = (u, omega arith)
  run_handler-Kept cmd_stat c u = (u, omega arith)
  run_handler-Kept cmd_help c u = (u, omega arith)

  internal-Kept :
      (line : Text) (c : Cplr K.State)
      → Usable K (links c) c
      → Kept c (cplr_command_internal line c)
  unfolding cplr_command_internal
  internal-Kept line c u = go (tokens [] line)
    where
      small : (b : Bool) → (if b then 0 else 1) ≤ 1
      small true = omega arith
      small false = omega arith

      found :
          (o : Option Handler)
          → Kept c (elim o as (λ _. ℕ × Cplr K.State) [
            | none ↦ (if c.flag.interactive then 0 else 1, c)
            | some handler ↦ run_handler handler c
          ])
      found none = (u, small c.flag.interactive)
      found (some h) = run_handler-Kept h c u

      go :
          (ts : List Text)
          → Kept c (elim ts as (λ _. ℕ × Cplr K.State) [
            | [] ↦ (if c.flag.interactive then 0 else 1, c)
            | cmd ∷ _ ↦ elim (find_command cmd commands) [
              | none ↦ (if c.flag.interactive then 0 else 1, c)
              | some handler ↦ run_handler handler c
            ]
          ])
      go [] = (u, small c.flag.interactive)
      go (cmd ∷ _) = found (find_command cmd commands)

  run_pile-Kept : (c : Cplr K.State) → Usable K (links c) c → Ends K (Kept c) (run_pile H K prev c)
  unfolding run_pile
  run_pile-Kept c u =
      Ends-bind (cplr_run-Compiled H K prev prints c new u)
        λ (r, y) ((h, p, s), k). ends (((λ _. h), s), omega arith)

  dispatch_line-Kept :
      (first : ℕ) (text : Text) (c : Cplr K.State)
      → Usable K (links c) c
      → Ends K (Kept c) (dispatch_line H K prev first text c)
  unfolding dispatch_line
  dispatch_line-Kept first text c u =
      let P = Ends K (Kept c) in
      if_elim P (first == b'?') (ends (u, omega arith)) (
        if_elim P (first == b'\\') (ends (internal-Kept text c u)) (
          if_elim P (first == b'!') (ends (u, omega arith)) (
            if_elim P (first == b'@') (ends (u, omega arith)) (
              if_elim P (first == b'^') (ends (u, omega arith)) (
                if_elim P (first == b'<') (ends (u, omega arith)) (
                  if_elim P (first == b'>') (ends (u, omega arith)) (
                    if_elim P (first == b'.')
                      (if_elim P (is_empty text) (run_pile-Kept c u) (ends (u, omega arith)))
                      (run_pile-Kept (record c { stms = snoc c.stms (first ∷ text) }) u))))))))

  pub cplr_command-Kept :
      (line : Text) (c : Cplr K.State)
      → Usable K (links c) c
      → Ends K (Kept c) (cplr_command H K prev line c)
  unfolding cplr_command
  cplr_command-Kept line c u = go (skip_blank line)
    where
      go :
          (s : Text)
          → Ends K (Kept c) (elim s as (λ _. Outcome (ℕ × Cplr K.State)) [
            | [] ↦ done (0, c)
            | first ∷ text ↦ dispatch_line H K prev first text c
          ])
      go [] = ends (u, omega arith)
      go (first ∷ text) = dispatch_line-Kept first text c u
