-- ===== src/Phases/Calls.antt =====
-- Preparation behind the packages, as a list of calls of libtcc.
use cplr.Base.{
  ℕ, ◌≡◌, refl, sym, ap, ◌∙◌, Bool, true, false, some, List, [], ◌∷◌, ◌++◌, map, ◌==◌,
  if◌then◌else◌,
}
use cplr.Base.Outcome.{done}
use cplr.Base.Text.{Text, lit}
use cplr.State.Context.{Cplr}
use cplr.Tcc.{Tcc}
use cplr.Phases.Prepare.{set_all, set_all_defs, add_all, step, add_files, with_tcc, prepare_rest}
use cplr.Host.{Host}

-- The functions that are called, each with its argument.
pub data Call : Type 0 where
  options sysinclude include_dir library_dir library file : Text → Call

-- The calls in the order of the piles; the current directory comes after the given ones.
abbrev pub file_calls : {T : Type 0} → Cplr T → List Call
file_calls c =
    map sysinclude c.sysdirs
    ++ (map include_dir c.incdirs
        ++ (include_dir (lit ".")
            ∷ (map library_dir c.libdirs
                ++ (library_dir (lit ".") ∷ (map library c.libs ++ map file c.srcs)))))

module _ (K : Tcc) where
  -- One call, and whether its result ends the phase.
  abbrev pub call : Call → K.State → K.State × ℕ
  call (options s) t = ((K.set_options t s).0, 0)
  call (sysinclude s) t = K.add_sysinclude_path t s
  call (include_dir s) t = K.add_include_path t s
  call (library_dir s) t = K.add_library_path t s
  call (library s) t = K.add_library t s
  call (file s) t = K.add_file t s

  -- The calls one by one, until one fails.
  abbrev pub perform : List Call → K.State → ℕ × K.State
  perform [] t = (0, t)
  perform (x ∷ xs) t =
      let (t', r) = call x t in let rest = perform xs t' in if r == 0 then rest else (1, t')

module _ (H : Host) (K : Tcc) where
  step-if :
      (b : Bool) (m : ℕ × K.State) (t : K.State) (f : K.State → ℕ × K.State)
      → (if b then step H K m f else (1, t)) ≡ step H K (if b then m else (1, t)) f
  step-if true m t f = refl
  step-if false m t f = refl

  -- A loop and what comes after it.
  perform-group :
      (wrap : Text → Call) (ss : List Text) (ys : List Call) (f : K.State → ℕ × K.State)
      → ((t : K.State) → f t ≡ perform K ys t)
      → (t : K.State)
      → step H K (add_all H K (λ t s. call K (wrap s) t) ss t) f ≡ perform K (map wrap ss ++ ys) t
  unfolding add_all
  perform-group wrap [] ys f e t = e t
  perform-group wrap (s ∷ ss) ys f e t =
      let (t', r) = call K (wrap s) t in
      sym (step-if (r == 0) (add_all H K (λ t s. call K (wrap s) t) ss t') t' f)
      ∙ ap (λ m. if r == 0 then m else (1, t')) (perform-group wrap ss ys f e t')

  add_files-perform :
      (c : Cplr K.State) (t : K.State) → add_files H K c t ≡ perform K (file_calls c) t
  unfolding add_files add_all
  add_files-perform c =
      let last = map file c.srcs in
      let libs = map library c.libs ++ last in
      let here = library_dir (lit ".") ∷ libs in
      let libdirs = map library_dir c.libdirs ++ here in
      let near = include_dir (lit ".") ∷ libdirs in
      perform-group sysinclude c.sysdirs (map include_dir c.incdirs ++ near) _ (
        perform-group include_dir c.incdirs near _ (
          perform-group include_dir (lit "." ∷ []) libdirs _ (
            perform-group library_dir c.libdirs here _ (
              perform-group library_dir (lit "." ∷ []) libs _
                (perform-group library c.libs last _ (files c.srcs))))))
    where
      files :
          (ss : List Text) (t : K.State) → add_all H K K.add_file ss t ≡ perform K (map file ss) t
      files [] t = refl
      files (s ∷ ss) t =
          let (t', r) = K.add_file t s in ap (λ m. if r == 0 then m else (1, t')) (files ss t')

  perform-options :
      (ss : List Text) (ys : List Call) (t : K.State)
      → perform K (map options ss ++ ys) t ≡ perform K ys (set_all H K ss t)
  unfolding set_all
  perform-options [] ys t = refl
  perform-options (s ∷ ss) ys t = perform-options ss ys (K.set_options t s).0

  set_all_defs-map :
      (ss : List Text) (t : K.State) → set_all_defs H K (map some ss) t ≡ done (set_all H K ss t)
  unfolding set_all set_all_defs
  set_all_defs-map [] t = refl
  set_all_defs-map (s ∷ ss) t = set_all_defs-map ss (K.set_options t s).0

  -- Behind the packages, with definitions that are not NULL, the compiler gets the default
  -- definitions, the definitions, and then the directories, the libraries and the sources in
  -- the order of their piles, up to the first call whose failure is tested; the phase has the
  -- result 1 if there is one and else 0, and the piler only gets the new state of its compiler.
  pub prepare_rest-perform :
      (c : Cplr K.State) (defs : List Text) (t : K.State)
      → c.defs ≡ map some defs
      → prepare_rest H K c (some t)
        ≡ done (
            with_tcc H K c
              (perform K (map options c.defdef ++ (map options defs ++ file_calls c)) t))
  unfolding prepare_rest
  prepare_rest-perform c defs t e =
      rw (e, set_all_defs-map, perform-options, perform-options, add_files-perform) refl
