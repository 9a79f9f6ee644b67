-- ===== src/Phases/Sound.antt =====
-- What a run keeps of a piler, phase by phase.
use cplr.Base.{
  ℕ, zero, suc, ◌≡◌, ◌≢◌, refl, sym, ap, ◌∙◌, subst, Bool-cases, inl, inr, true, false, Option,
  none, some, ◌==◌, if_elim,
}
use cplr.Base.Outcome.{Outcome, done, ◌>>=◌, Returns, returns, Returns-mono}
use cplr.Base.Text.{Text}
use cplr.State.Enums.{libtcc}
use cplr.State.Context.{Cplr, Ptr}
use cplr.State.Laws.{NoNull}
use cplr.Phases.Errors.{note_errors}
use cplr.Phases.Ends.{Ends, ends, Ends-bind, run-Ends}
use cplr.Tcc.{Tcc}
use cplr.Host.{Host}
use cplr.Package.Totality.{Ready, HasCompiler}
use cplr.Generate.Phase.{cplr_generate}
use cplr.Generate.Correct.{cplr_generate-program, generated_from}
use cplr.Phases.Prepare.{set_prepared}
use cplr.Phases.Prepares.{Prints, NoNull-Adds, cplr_prepare-Ready}
use cplr.Phases.Compile.{compile_output, compile_with, cplr_compile}
use cplr.Phases.Symbols.{cplr_compile-compile_with}
use cplr.Phases.Execute.{cplr_execute, program_argc, program_argv}
use cplr.Phases.Steps.{if_no, if_yes, run_backend-run}
use cplr.Phases.Run.{or_fail, run_prepare, run_compile, run_execute}

-- The links of a piler in its chain.
abbrev pub links : {T : Type 0} → Cplr T → Ptr × (Ptr × (Ptr × ℕ))
links c = (c.c_first, (c.c_prev, (c.c_next, c.c_index)))

-- A piler for libtcc that does not fork, with no last file and no definition that is NULL, at
-- its place in the chain.
abbrev pub Settled : {T : Type 0} → Ptr × (Ptr × (Ptr × ℕ)) → Cplr T → Type 0
Settled l x =
    (x.backend ≡ libtcc)
    × (x.flag.fork ≡ false)
    × (x.g_prevfile ≡ none)
    × NoNull x.defs
    × (links x ≡ l)

module _ (K : Tcc) (l : Ptr × (Ptr × (Ptr × ℕ))) where
  -- Such a piler behind its preparation.
  abbrev pub Sound : Cplr K.State → Type 0
  Sound x = HasCompiler K x × (x.flag.prepared ≡ true) × Settled l x

  -- Such a piler, prepared or not.
  abbrev pub Usable : Cplr K.State → Type 0
  Usable x = (x.flag.prepared ≡ true → HasCompiler K x) × Settled l x

  abbrev pub Prepared : ℕ × Cplr K.State → Type 0
  Prepared (r, x) = Sound x × (r ≢ 0 → r ≡ 1)

  abbrev pub Compiled : ℕ × Cplr K.State → Type 0
  Compiled (r, x) = Sound x × (x.flag.compiled ≡ false → r ≡ 1)

pub generated-Settled :
    {T : Type 0} (l : Ptr × (Ptr × (Ptr × ℕ))) (x z : Cplr T)
    → z ≡ generated_from x z
    → Settled l x
    → Settled l z
generated-Settled l x z e (b, f, p, n, k) = (
  ap (λ z. z.backend) e ∙ b,
  ap (λ z. z.flag.fork) e ∙ f,
  ap (λ z. z.g_prevfile) e,
  subst NoNull (sym (ap (λ z. z.defs) e)) n,
  ap links e ∙ k,
)

module _ (H : Host) (K : Tcc) (prev : Option K.State) (l : Ptr × (Ptr × (Ptr × ℕ))) where
  or_fail-Prepared :
      {m : Outcome (ℕ × Cplr K.State)}
      → Returns (λ (r, x). Sound K l x) m
      → Returns (Prepared K l) (or_fail H K prev m)
  or_fail-Prepared (returns {a = (zero, x)} p) = returns (p, λ h. absurd (h refl))
  or_fail-Prepared (returns {a = (suc r, x)} p) = returns (p, λ h. refl)

  Ready-Sound :
      (c y x : Cplr K.State)
      → Settled l c
      → x ≡ set_prepared H K (note_errors K y)
      → Ready K c y
      → Sound K l x
  Ready-Sound c y x (b, f, p, n, k) e (g, (t, h)) = (
    (t, ap (λ x. x.tcc) e ∙ h),
    ap (λ x. x.flag.prepared) e,
    (
      ap (λ x. x.backend) e ∙ (ap (λ x. x.backend) g.rest ∙ b),
      ap (λ x. x.flag.fork) e ∙ (ap (λ x. x.flag.fork) g.rest ∙ f),
      ap (λ x. x.g_prevfile) e ∙ (ap (λ x. x.g_prevfile) g.rest ∙ p),
      subst NoNull (sym (ap (λ x. x.defs) e)) (NoNull-Adds c.defs y.defs n g.defs),
      ap links e ∙ (ap links g.rest ∙ k),
    ),
  )

  pub run_prepare-Prepared :
      Prints H
      → (c : Cplr K.State) {t : K.State} → K.new ≡ some t
      → Usable K l c
      → Returns (Prepared K l) (run_prepare H K prev c)
  unfolding run_prepare
  run_prepare-Prepared prints c n (ready, s) = elim (Bool-cases c.flag.prepared) [
    | inl old ↦
        if_yes (Returns (Prepared K l)) _ old (returns ((ready old, old, s), λ h. absurd (h refl)))
    | inr new ↦ if_no (Returns (Prepared K l)) _ new (
        or_fail-Prepared (
          Returns-mono (cplr_prepare-Ready H K prints c n s.0 s.3)
            λ (r, x) (y, e, g). Ready-Sound c y x s e g))
  ]

  compile_output-Compiled :
      (x : Cplr K.State) (t : K.State) (out : Option Text)
      → Sound K l x
      → Compiled K l (compile_output K x t out)
  unfolding compile_output
  compile_output-Compiled x t none (h, p, s) = (((t, refl), p, s), λ h. cc)
  compile_output-Compiled x t (some out) (h, p, s) = (((_, refl), p, s), λ h. cc)

  compile_with-Compiled :
      (x : Cplr K.State) (t : K.State) (code : Text)
      → Sound K l x
      → Compiled K l (compile_with K prev x t code)
  unfolding compile_with
  compile_with-Compiled x t code (h, p, s) =
      if_elim (Compiled K l) ((K.compile_string t code).1 == 0)
        (compile_output-Compiled x _ x.out (h, p, s)) (((_, refl), p, s), λ h. refl)

  cplr_compile-Compiled :
      (z : Cplr K.State) {code : Text}
      → Sound K l z
      → z.g_codebuf ≡ some code
      → Returns (Compiled K l) (cplr_compile K prev z)
  cplr_compile-Compiled z {code} (h, p, s) e = rw (cplr_compile-compile_with K z prev s.0 h.1 e) (
      returns {a = (let (r, x) = compile_with K prev z h.0 code in (r, note_errors K x))}
        (compile_with-Compiled z h.0 code (h, p, s)))

  generated-Sound : (x z : Cplr K.State) → z ≡ generated_from x z → Sound K l x → Sound K l z
  generated-Sound x z e ((t, h), p, s) =
      ((t, ap (λ z. z.tcc) e ∙ h), ap (λ z. z.flag.prepared) e ∙ p, generated-Settled l x z e s)

  or_fail-Compiled :
      {m : Outcome (ℕ × Cplr K.State)}
      → Returns (Compiled K l) m
      → Returns (Compiled K l) (or_fail H K prev m)
  or_fail-Compiled (returns {a = (zero, x)} p) = returns p
  or_fail-Compiled (returns {a = (suc r, x)} p) = returns (p.0, λ h. refl)

  pub run_compile-Compiled :
      (x : Cplr K.State) → Sound K l x → Returns (Compiled K l) (run_compile H K prev x)
  unfolding run_compile
  run_compile-Compiled x s = elim (Bool-cases x.flag.compiled) [
    | inl old ↦ if_yes (Returns (Compiled K l)) _ old (returns (s, λ new. cc))
    | inr new ↦
        let e = cplr_generate-program x s.2.2 in
        if_no (Returns (Compiled K l)) _ new (
          or_fail-Compiled (
            cplr_compile-Compiled (cplr_generate x) (generated-Sound x (cplr_generate x) e s)
              (ap (λ z. z.g_codebuf) e)))
  ]

  called-Compiled :
      (x : Cplr K.State) (t : K.State)
      → Sound K l x
      → x.flag.compiled ≢ false
      → Ends K (Compiled K l) (do
        (t', r) ← K.run t (program_argc H K x) (program_argv H K x)
        done (r, note_errors K (record x { tcc = some t' })))
  called-Compiled x t (e, p, s) h =
      Ends-bind (run-Ends K t (program_argc H K x) (program_argv H K x))
        λ (t', r) _. ends (((t', refl), p, s), λ u. absurd (h u))

  pub run_execute-Compiled :
      (w : Cplr K.State)
      → Sound K l w
      → w.flag.compiled ≢ false
      → Ends K (Compiled K l) (run_execute H K prev w)
  unfolding run_execute cplr_execute
  run_execute-Compiled w ((t, e), p, s) h =
      let x : Cplr K.State = record w { flag = record w.flag { executed = true } } in
      if_elim (Ends K (Compiled K l)) w.flag.norun (ends (((t, e), p, s), λ u. absurd (h u))) (
        if_no (Ends K (Compiled K l)) _ s.1 (
          rw (run_backend-run H K x s.0 e)
            (Ends-bind (called-Compiled x t ((t, e), p, s) h) λ (r, y) c. ends c)))
