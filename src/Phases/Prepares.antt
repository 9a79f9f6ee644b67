-- ===== src/Phases/Prepares.antt =====
-- Preparation returns, and what it leaves of the piler.
use cplr.Base.{
  ℕ, zero, suc, ◌≡◌, ◌≢◌, refl, ap, ◌∙◌, Option, none, some, List, [], ◌∷◌, ◌++◌, ◌==◌, if_elim,
  map, leb, length,
}
use cplr.Base.Outcome.{
  Outcome, done, ◌>>=◌, Returns, returns, Returns-bind, Returns-mono, Returns-and_then,
}
use cplr.Base.Text.{Text, lit}
use cplr.State.Enums.{Backend, libtcc}
use cplr.State.Context.{Cplr}
use cplr.State.Laws.{NoNull}
use cplr.Phases.Errors.{note_errors}
use cplr.Tcc.{Tcc, OutputType, memory, exe}
use cplr.Host.{Host}
use cplr.Package.Totality.{
  Extends-refl, Adds, Adds-refl, grown, Grows-refl, Grows-trans, HasCompiler, Ready,
  cplr_pkgconfig_add-Ended,
}
use cplr.Package.Query.{cpkg_exists, retrieved, cpkg_retrieve, use_options, cplr_pkgconfig_prepare}
use cplr.Phases.Prepare.{
  prepare_packages, prepare_libdir, set_all, set_all_defs, add_files, prepare_rest, prepare_new,
  cplr_tcc_prepare, set_prepared, cplr_prepare,
}

-- pkg-config prints at least one byte, such as a newline, whenever it can be started.
abbrev pub Prints : Host → Type 0
Prints H = (command : Text) → H.popen command ≢ some []

pub NoNull-Adds : (xs ys : List (Option Text)) → NoNull xs → Adds xs ys → NoNull ys
NoNull-Adds xs ys h (zs, e) = rw e (go xs h)
  where
    added : (zs : List Text) → NoNull (map some zs)
    added = elim [ [] ↦ tt | z ∷ (zs → ih) ↦ (refl, ih) ]

    go : (xs : List (Option Text)) → NoNull xs → NoNull (xs ++ map some zs)
    go = elim [ [] ↦ λ h. added zs | x ∷ (xs → ih) ↦ λ h. (h.0, ih h.1) ]

module _ (H : Host) (K : Tcc) (prints : Prints H) where
  abbrev ReadyAfter : Cplr K.State → ℕ × Cplr K.State → Type 0
  ReadyAfter c (r, c') = Ready K c c'

  with_tcc-Ready : (c : Cplr K.State) (t : K.State) → Ready K c (record c { tcc = some t })
  with_tcc-Ready c t = (
    grown K c (some t) (Adds-refl c.defs) (Extends-refl c.incdirs) (Extends-refl c.libdirs)
        (Extends-refl c.libs),
    (t, refl),
  )

  Ready-trans : (a b c : Cplr K.State) → Ready K a b → Ready K b c → Ready K a c
  Ready-trans a b c g h = (Grows-trans K a b c g.0 h.0, h.1)

  use_options-Ready :
      (s : Text) (c : Cplr K.State) (o : Option K.State) {t : K.State}
      → o ≡ some t
      → Returns (ReadyAfter c) (use_options H K s c o)
  unfolding use_options
  use_options-Ready s c none e = cc
  use_options-Ready s c (some t) e =
      let t' = (K.set_options t s).0 in
      Returns-bind (cplr_pkgconfig_add-Ended K s (record c { tcc = some t' }) {d = t'} refl)
        λ (r, c') (l, g).
          returns (Ready-trans c (record c { tcc = some t' }) c' (with_tcc-Ready c t') g)

  retrieved-Returns : (s : Text) → s ≢ [] → Returns (λ _. Unit {0}) (retrieved H s)
  unfolding retrieved
  retrieved-Returns [] h = absurd (h refl)
  retrieved-Returns (x ∷ s) h =
      if_elim (Returns (λ _. Unit {0})) (leb 1024 (length (x ∷ s))) (returns tt) (returns tt)

  cpkg_retrieve-Returns : (name what : Text) → Returns (λ _. Unit {0}) (cpkg_retrieve H name what)
  unfolding cpkg_retrieve
  cpkg_retrieve-Returns name what = go (H.popen command) refl
    where
      command : Text
      command = lit "pkg-config " ++ (what ++ (lit " " ++ name))

      go :
          (o : Option Text)
          → H.popen command ≡ o
          → Returns (λ _. Unit {0}) (elim o [ none ↦ done none | some output ↦ retrieved H output ])
      go none e = returns tt
      go (some output) e = retrieved-Returns output (λ empty. prints command (e ∙ ap some empty))

  cplr_pkgconfig_prepare-Ready :
      (name : Text) (c : Cplr K.State)
      → HasCompiler K c
      → Returns (ReadyAfter c) (cplr_pkgconfig_prepare H K c name)
  unfolding cplr_pkgconfig_prepare
  cplr_pkgconfig_prepare-Ready name c (t, e) =
      if_elim (Returns (ReadyAfter c)) (cpkg_exists H name)
        (Returns-bind (cpkg_retrieve-Returns name (lit "--cflags --libs")) (λ found _. go found))
        (returns (Grows-refl K c, (t, e)))
    where
      go :
          (found : Option Text)
          → Returns
              (ReadyAfter c)
              (elim found [ none ↦ done (1, c) | some s ↦ use_options H K s c c.tcc ])
      go none = returns (Grows-refl K c, (t, e))
      go (some s) = use_options-Ready s c c.tcc e

  prepare_packages-Ready :
      (names : List Text) (c : Cplr K.State)
      → HasCompiler K c
      → Returns (ReadyAfter c) (prepare_packages H K names c)
  unfolding prepare_packages
  prepare_packages-Ready [] c h = returns (Grows-refl K c, h)
  prepare_packages-Ready (name ∷ names) c h =
      Returns-bind (cplr_pkgconfig_prepare-Ready name c h)
        λ (r, c') g. next r c' g (prepare_packages-Ready names c' g.1)
    where
      next :
          (r : ℕ) (c' : Cplr K.State)
          → Ready K c c'
          → Returns (ReadyAfter c') (prepare_packages H K names c')
          → Returns
              (ReadyAfter c)
              (elim r [ zero ↦ prepare_packages H K names c' | suc _ ↦ done (1, c') ])
      next zero c' g m = Returns-mono m (λ (r, d) k. Ready-trans c c' d g k)
      next (suc r) c' g m = returns g

  set_all_defs-Returns :
      (ss : List (Option Text)) (t : K.State)
      → NoNull ss
      → Returns (λ _. Unit {0}) (set_all_defs H K ss t)
  unfolding set_all_defs
  set_all_defs-Returns [] t h = returns tt
  set_all_defs-Returns (none ∷ ss) t h = cc (h.0)
  set_all_defs-Returns (some s ∷ ss) t h = set_all_defs-Returns ss _ h.1

  prepare_rest-Ready :
      (c : Cplr K.State) (o : Option K.State) {t : K.State}
      → o ≡ some t
      → NoNull c.defs
      → Returns (ReadyAfter c) (prepare_rest H K c o)
  unfolding prepare_rest
  prepare_rest-Ready c none e h = cc
  prepare_rest-Ready c (some t) e h =
      Returns-bind (set_all_defs-Returns c.defs (set_all H K c.defdef t) h)
        λ t' _. returns (with_tcc-Ready c (add_files H K c t').1)

  prepare_new-Ready :
      (c : Cplr K.State) {t : K.State} (o : Option K.State)
      → o ≡ some t
      → NoNull c.defs
      → Returns (ReadyAfter c) (prepare_new H K c o)
  unfolding prepare_new
  prepare_new-Ready c none e h = cc
  prepare_new-Ready c (some t) e h =
      let otype : OutputType = elim c.out [ none ↦ memory | some _ ↦ exe ] in
      let (t', r) = K.set_output_type (K.set_error_func (prepare_libdir H K t)) otype in
      let d : Cplr K.State = record c { tcc = some (K.set_options t' (lit "-Wall")).0 } in
      if_elim (Returns (ReadyAfter c)) (r == 0)
        (Returns-and_then (Ready K d) (Ready K c) (prepare_packages-Ready c.pkgs d (_, refl))
          (λ x g. Ready-trans c d x (with_tcc-Ready c _) g)
          (λ x g.
            Returns-mono (prepare_rest-Ready x x.tcc g.1.1 (NoNull-Adds c.defs x.defs h g.0.defs))
              (λ (n, y) k. Ready-trans c x y (Ready-trans c d x (with_tcc-Ready c _) g) k)))
        (returns (with_tcc-Ready c t'))

  noted_after :
      (c : Cplr K.State) {t : K.State}
      → K.new ≡ some t
      → NoNull c.defs
      → Returns
          (λ (r, x). (y : Cplr K.State) × (x ≡ note_errors K y) × Ready K c y)
          (cplr_tcc_prepare H K c)
  unfolding cplr_tcc_prepare
  noted_after c e h = Returns-bind (prepare_new-Ready c K.new e h) λ (r, y) g. returns (y, refl, g)

  -- Preparation of a piler for libtcc, where `tcc_new` gives a compiler, no definition is NULL
  -- and pkg-config prints something: it returns, also if a step fails; the piler has a compiler
  -- and counts as prepared, the definitions have only got strings that are not NULL, and besides
  -- the directories, the libraries and the flag for reported errors, which is set if libtcc has
  -- reported any, nothing else has changed.
  pub cplr_prepare-Ready :
      (c : Cplr K.State) {t : K.State}
      → K.new ≡ some t
      → c.backend ≡ libtcc
      → NoNull c.defs
      → Returns
          (λ (r, x). (y : Cplr K.State) × (x ≡ set_prepared H K (note_errors K y)) × Ready K c y)
          (cplr_prepare H K c)
  unfolding cplr_prepare
  cplr_prepare-Ready c e b h = go c.backend b
    where
      go :
          (k : Backend)
          → k ≡ libtcc
          → Returns
              (λ (r, x).
                (y : Cplr K.State) × (x ≡ set_prepared H K (note_errors K y)) × Ready K c y)
              (do
                (r, y) ← elim k as (λ _. Outcome (ℕ × Cplr K.State)) [
                  | libtcc ↦ cplr_tcc_prepare H K c
                  | Backend.cc ↦ done (1, c)
                ]
                done (r, set_prepared H K y))
      go libtcc b =
          Returns-bind (noted_after c e h)
            λ (r, x) (y, i, g). returns (y, ap (set_prepared H K) i, g)
      go Backend.cc b = cc
