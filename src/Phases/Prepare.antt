-- ===== src/Phases/Prepare.antt =====
-- `cplr_prepare`, where what libtcc reports to `cplr_tcc_error` is noted at the end. A call of libtcc that is tested leads to `goto out` with 1 if it fails.
use cplr.Base.{ℕ, zero, suc, true, Option, none, some, List, [], ◌∷◌, ◌==◌, if◌then◌else◌}
use cplr.Base.Outcome.{Outcome, done, crash, ◌>>=◌, and_then}
use cplr.Base.Text.{Text, lit}
use cplr.State.Enums.{cc, libtcc}
use cplr.State.Context.{Cplr}
use cplr.Phases.Errors.{note_errors}
use cplr.Tcc.{Tcc, OutputType, memory, exe}
use cplr.Host.{Host}
use cplr.Package.Query.{cplr_pkgconfig_prepare}

module _ (H : Host) (K : Tcc) where
  -- `cplr_tcc_prepare_libdir`
  unfoldable pub prepare_libdir : K.State → K.State
  prepare_libdir t = elim H.getenv_libdir [
    | some dir ↦ K.set_lib_path t dir
    | none ↦ elim H.configured_libdir [ some dir ↦ K.set_lib_path t dir | none ↦ t ]
  ]

  -- The loop over the packages; each may add to the piles.
  unfoldable pub prepare_packages : List Text → Cplr K.State → Outcome (ℕ × Cplr K.State)
  prepare_packages [] c = done (0, c)
  prepare_packages (name ∷ names) c = do
    (r, c') ← cplr_pkgconfig_prepare H K c name
    elim r [ zero ↦ prepare_packages names c' | suc _ ↦ done (1, c') ]

  -- The result of a function is not tested.
  unfoldable pub set_all : List Text → K.State → K.State
  set_all [] t = t
  set_all (s ∷ ss) t = set_all ss (K.set_options t s).0

  -- A NULL among the strings is passed on to libtcc.
  unfoldable pub set_all_defs : List (Option Text) → K.State → Outcome K.State
  set_all_defs [] t = done t
  set_all_defs (none ∷ ss) t = crash
  set_all_defs (some s ∷ ss) t = set_all_defs ss (K.set_options t s).0

  -- A loop that ends the phase at the first failure: whether it went through, and the compiler.
  unfoldable pub add_all : (K.State → Text → K.State × ℕ) → List Text → K.State → ℕ × K.State
  add_all f [] t = (0, t)
  add_all f (s ∷ ss) t =
      let (t', r) = f t s in let rest = add_all f ss t' in if r == 0 then rest else (1, t')

  abbrev pub step : ℕ × K.State → (K.State → ℕ × K.State) → ℕ × K.State
  step (zero, t) f = f t
  step (suc r, t) f = (suc r, t)

  -- The part behind the definitions: directories, libraries and sources.
  unfoldable pub add_files : Cplr K.State → K.State → ℕ × K.State
  unfolding add_all
  add_files c t = step (add_all K.add_sysinclude_path c.sysdirs t) λ t.
      step (add_all K.add_include_path c.incdirs t) λ t.
        step (add_all K.add_include_path (lit "." ∷ []) t) λ t.
          step (add_all K.add_library_path c.libdirs t) λ t.
            step (add_all K.add_library_path (lit "." ∷ []) t)
              λ t. step (add_all K.add_library c.libs t) λ t. add_all K.add_file c.srcs t

  abbrev pub with_tcc : Cplr K.State → ℕ × K.State → ℕ × Cplr K.State
  with_tcc c (r, t) = (r, record c { tcc = some t })

  -- The part behind the packages.
  unfoldable pub prepare_rest : Cplr K.State → Option K.State → Outcome (ℕ × Cplr K.State)
  unfolding set_all set_all_defs add_files
  prepare_rest c none = crash
  prepare_rest c (some t) = do
    t' ← set_all_defs c.defs (set_all c.defdef t)
    done (with_tcc c (add_files c t'))

  -- The part behind `tcc_new`, whose NULL is reported and then used.
  unfoldable pub prepare_new : Cplr K.State → Option K.State → Outcome (ℕ × Cplr K.State)
  unfolding prepare_libdir prepare_packages prepare_rest
  prepare_new c none = crash
  prepare_new c (some t) =
      let otype : OutputType = elim c.out [ none ↦ memory | some _ ↦ exe ] in
      let (t', r) = K.set_output_type (K.set_error_func (prepare_libdir t)) otype in
      if r == 0
      then and_then
          (prepare_packages c.pkgs (record c { tcc = some (K.set_options t' (lit "-Wall")).0 }))
          (λ c'. prepare_rest c' c'.tcc)
      else done (1, record c { tcc = some t' })

  unfoldable pub cplr_tcc_prepare : Cplr K.State → Outcome (ℕ × Cplr K.State)
  unfolding prepare_new
  cplr_tcc_prepare c = do (r, c') ← prepare_new c K.new; done (r, note_errors K c')

  abbrev pub set_prepared : Cplr K.State → Cplr K.State
  set_prepared c = record c { flag = record c.flag { prepared = true } }

  unfoldable pub cplr_prepare : Cplr K.State → Outcome (ℕ × Cplr K.State)
  unfolding cplr_tcc_prepare
  cplr_prepare c = do
    (r, c') ← elim c.backend [ libtcc ↦ cplr_tcc_prepare c | cc ↦ done (1, c) ]
    done (r, set_prepared c')
