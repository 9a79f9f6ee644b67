-- ===== src/Phases/Symbols.antt =====
-- Compilation, and the symbols that a piler takes over from the one before it.
use cplr.Base.{
  ℕ, ◌≡◌, refl, sym, subst, ap, ◌∙◌, ◌||◌, ◌++◌, Bool-cases, inl, inr, Bool, true, false, Option,
  none, some, List, [], ◌∷◌, ◌==◌, if◌then◌else◌,
}
use cplr.Base.Outcome.{Outcome, done, crash}
use cplr.Base.Text.{Text, lit, text_eq, text_eq_iff, begins_with}
use cplr.Cext.Strings.{strprefix, strprefix_iff, strsuffix_iff, begins_with-split}
use cplr.State.Enums.{Backend, libtcc}
use cplr.State.Context.{Cplr}
use cplr.Tcc.{Tcc}
use cplr.Phases.Errors.{note_errors}
use cplr.Phases.Compile.{
  is_builtin, redefine_symbol, redefine_symbols, compile_output, compile_with, cplr_tcc_compile,
  cplr_compile,
}

-- The names that the program must not take over: those that start with an underscore, `main`, the
-- functions for the end of a process, those of libtcc, and entries of the linkage table.
pub data Reserved : Text → Type 0 where
  underscore : (rest : Text) → Reserved (lit "_" ++ rest)
  entry_point : Reserved (lit "main")
  exit : Reserved (lit "exit")
  atexit : Reserved (lit "atexit")
  on_exit : Reserved (lit "on_exit")
  of_libtcc : (rest : Text) → Reserved (lit "tcc_" ++ rest)
  linkage : (rest : Text) → Reserved (rest ++ lit "@plt")

-- What is left of a list of symbols without the reserved ones.
pub data Unreserved : List (Text × ℕ) → List (Text × ℕ) → Type 0 where
  nothing : Unreserved [] []
  leave :
      {name : Text} {val : ℕ} {syms ks : List (Text × ℕ)}
      → Reserved name
      → Unreserved syms ks
      → Unreserved ((name, val) ∷ syms) ks
  keep :
      {name : Text} {val : ℕ} {syms ks : List (Text × ℕ)}
      → ¬ Reserved name
      → Unreserved syms ks
      → Unreserved ((name, val) ∷ syms) ((name, val) ∷ ks)

or_right : (a b : Bool) → b ≡ true → (a || b) ≡ true
or_right true b h = refl
or_right false b h = h

pub Reserved-is_builtin : {name : Text} → Reserved name → is_builtin name ≡ true
unfolding is_builtin
Reserved-is_builtin (underscore rest) = refl
Reserved-is_builtin entry_point = refl
Reserved-is_builtin exit = refl
Reserved-is_builtin atexit = refl
Reserved-is_builtin on_exit = refl
Reserved-is_builtin (of_libtcc rest) = refl
Reserved-is_builtin (linkage rest) =
    let name = rest ++ lit "@plt" in
    or_right (begins_with name (lit "_")) _ (
      or_right (text_eq name (lit "main")) _ (
        or_right (text_eq name (lit "exit")) _ (
          or_right (text_eq name (lit "atexit")) _ (
            or_right (text_eq name (lit "on_exit")) _ (
              or_right (strprefix name (lit "tcc_")) _
                ((strsuffix_iff name (lit "@plt")).1 (rest, refl)))))))

-- One of two tests holds.
either : {P : Type 0} (a b : Bool) → (a || b) ≡ true → (a ≡ true → P) → (b ≡ true → P) → P
either true b h f g = f refl
either false b h f g = g h

is_builtin-Reserved : (name : Text) → is_builtin name ≡ true → Reserved name
unfolding is_builtin
is_builtin-Reserved name h =
    let R = λ (s : Text) (r : Reserved s) (e : text_eq name s ≡ true).
      subst Reserved (sym ((text_eq_iff name s).0 e)) r in
    either (begins_with name (lit "_")) _ h
      (λ e.
        let (rest, k) = begins_with-split name (lit "_") e in
        subst Reserved (sym k) (underscore rest))
      λ h. either (text_eq name (lit "main")) _ h (R (lit "main") entry_point) λ h.
        either (text_eq name (lit "exit")) _ h (R (lit "exit") exit) λ h.
          either (text_eq name (lit "atexit")) _ h (R (lit "atexit") atexit) λ h.
            either (text_eq name (lit "on_exit")) _ h (R (lit "on_exit") on_exit) λ h.
              either (strprefix name (lit "tcc_")) _ h
                (λ e.
                  let (rest, k) = (strprefix_iff name (lit "tcc_")).0 e in
                  subst Reserved (sym k) (of_libtcc rest))
                λ e.
                  let (rest, k) = (strsuffix_iff name (lit "@plt")).0 e in
                  subst Reserved (sym k) (linkage rest)

module _ (K : Tcc) where
  abbrev pub add_symbols : List (Text × ℕ) → K.State → K.State
  add_symbols [] t = t
  add_symbols ((name, val) ∷ syms) t = add_symbols syms (K.add_symbol t name val).0

  redefine_symbols-add_symbols :
      {syms ks : List (Text × ℕ)} (t : K.State)
      → Unreserved syms ks
      → redefine_symbols K syms t ≡ add_symbols ks t
  unfolding redefine_symbols redefine_symbol
  redefine_symbols-add_symbols t nothing = refl
  redefine_symbols-add_symbols t (leave {name = name} {val = val} {syms = syms} r more) =
      rw (Reserved-is_builtin r) (redefine_symbols-add_symbols t more)
  redefine_symbols-add_symbols t (keep {name = name} {val = val} {syms = syms} r more) =
      elim (Bool-cases (is_builtin name)) [
        | inl h ↦ absurd (r (is_builtin-Reserved name h))
        | inr h ↦ rw h (redefine_symbols-add_symbols (K.add_symbol t name val).0 more)
      ]

  pub cplr_compile-compile_with :
      (c : Cplr K.State) (prev : Option K.State) {t : K.State} {code : Text}
      → c.backend ≡ libtcc
      → c.tcc ≡ some t
      → c.g_codebuf ≡ some code
      → cplr_compile K prev c
        ≡ done (let (r, c') = compile_with K prev c t code in (r, note_errors K c'))
  unfolding cplr_compile cplr_tcc_compile
  cplr_compile-compile_with c prev {t} b e g =
      ap
        (λ k. elim k as (λ _. Outcome (ℕ × Cplr K.State)) [
          | libtcc ↦ cplr_tcc_compile K prev c
          | Backend.cc ↦ done (0, c)
        ])
        b
      ∙ (ap
            (λ o. elim o as (λ _. Outcome (ℕ × Cplr K.State)) [
              | none ↦ crash
              | some t ↦ elim c.g_codebuf [
                | none ↦ crash
                | some code ↦
                    (let (r, c') = compile_with K prev c t code in done (r, note_errors K c'))
              ]
            ])
            e
          ∙ ap
              (λ o. elim o as (λ _. Outcome (ℕ × Cplr K.State)) [
                | none ↦ crash
                | some code ↦
                    (let (r, c') = compile_with K prev c t code in done (r, note_errors K c'))
              ])
              g)

  -- Compilation in memory by libtcc, behind a piler with a compiler: the compiler takes the
  -- generated code; if that fails the result is 1. Else it gets each symbol of the compiler before,
  -- in their order, but none that is reserved: one that starts with an underscore, with `tcc_`, or
  -- ends with `@plt`, or is `main`, `exit`, `atexit` or `on_exit`; the result is 0, and the piler
  -- counts as compiled and loaded. The piler has the compiler's new state, the flag for reported
  -- errors is set if libtcc reported any, and all else is as before.
  pub cplr_compile-symbols :
      (c : Cplr K.State) (prev t : K.State) (code : Text) (ks : List (Text × ℕ))
      → c.backend ≡ libtcc
      → c.tcc ≡ some t
      → c.g_codebuf ≡ some code
      → c.out ≡ none
      → Unreserved (K.list_symbols prev) ks
      → cplr_compile K (some prev) c
        ≡ done (
            let (t', r) = K.compile_string t code in
            if r == 0
            then (
              0,
              note_errors K (record c {
                tcc = some (add_symbols ks t');
                flag = record c.flag { compiled = true; loaded = true };
              }),
            )
            else (1, note_errors K (record c { tcc = some t' })))
  unfolding compile_with compile_output
  cplr_compile-symbols c prev t code ks b e g o kept =
      cplr_compile-compile_with c (some prev) b e g
      ∙ ap done (
          (ap
              (λ out.
                compiled (compile_output K c (redefine_symbols K (K.list_symbols prev) t') out))
              o
            ∙ ap (λ t. compiled (0, loaded t)) (redefine_symbols-add_symbols t' kept))
          ∙ both ((K.compile_string t code).1 == 0))
    where
      t' : K.State
      t' = (K.compile_string t code).0

      loaded : K.State → Cplr K.State
      loaded t = record c { tcc = some t; flag = record c.flag { compiled = true; loaded = true } }

      noted : ℕ × Cplr K.State → ℕ × Cplr K.State
      noted (r, c) = (r, note_errors K c)

      compiled : ℕ × Cplr K.State → ℕ × Cplr K.State
      compiled x =
          noted (if (K.compile_string t code).1 == 0 then x else (1, record c { tcc = some t' }))

      both :
          (b : Bool)
          → noted (if b then (0, loaded (add_symbols ks t')) else (1, record c { tcc = some t' }))
            ≡ (if b
                then noted (0, loaded (add_symbols ks t'))
                else noted (1, record c { tcc = some t' }))
      both true = refl
      both false = refl
