-- ===== src/Package/Scan.antt =====
-- `cplr_pkgconfig_add` of source/cplr_package.c. The pointer `o` into the text is what is left
-- from it on, and `opt` is `none` where the source has 0.
use cplr.Base.{
  ℕ, zero, suc, ◌+◌, Bool, true, false, ◌&&◌, ◌||◌, Option, none, some, [], ◌∷◌, ◌==◌,
  if◌then◌else◌, length, snoc, drop,
}
use cplr.Base.Outcome.{Outcome, done, crash, out_of_fuel}
use cplr.Base.Text.{Text, lit, begins_with, is_space, is_graph}
use cplr.State.Context.{Cplr}
use cplr.Tcc.{Tcc}

-- `while(*o && isgraph(*o)) o++`: the text that is passed, and the text from `o` on.
unfoldable pub take_graph : Text → Text
unfolding is_graph
take_graph [] = []
take_graph (c ∷ o) = if is_graph c then c ∷ take_graph o else []

unfoldable pub skip_graph : Text → Text
unfolding is_graph
skip_graph [] = []
skip_graph (c ∷ o) = if is_graph c then skip_graph o else c ∷ o

-- `while(*o && isspace(*o)) o++`
unfoldable pub skip_space : Text → Text
unfolding is_space
skip_space [] = []
skip_space (c ∷ o) = if is_space c then skip_space o else c ∷ o

-- The letters of the first four cases of the switch on `n`.
unfoldable pub takes_text : ℕ → Bool
takes_text n = (n == b'D') || (n == b'I') || (n == b'L') || (n == b'l')

module _ (K : Tcc) where
  -- The switch on `opt`.
  unfoldable pub add_option : ℕ → Text → Cplr K.State → Cplr K.State
  add_option opt s c =
      if (opt == b'D') || (opt == b'U')
      then record c { defs = snoc c.defs (some (b'-' ∷ opt ∷ s)) }
      else if opt == b'I'
      then record c { incdirs = snoc c.incdirs s }
      else if opt == b'L'
      then record c { libdirs = snoc c.libdirs s }
      else if opt == b'l'
      then record c { libs = snoc c.libs s }
      else c

  -- How one round of the loop ends: by `return`, by a call through a NULL compiler, or at the
  -- loop's condition, with the variables of the loop.
  pub data Round : Type 0 where
    stop : ℕ → Cplr K.State → Round
    fault : Round
    next : (o : Text) (dash : Bool) (opt : Option ℕ) → Cplr K.State → Round

  -- `tcc_set_options(c->tcc, "-pthread")`
  abbrev pub with_pthread : (o : Text) → Cplr K.State → Option K.State → Round
  with_pthread o c none = fault
  with_pthread o c (some t) =
      next o false none (record c { tcc = some (K.set_options t (lit "-pthread")).0 })

  -- The branch under `dash`, at the character `n` with `o` behind it.
  unfoldable pub dash_round : ℕ → Text → Cplr K.State → Round
  unfolding takes_text skip_space skip_graph begins_with
  dash_round n o c =
      if takes_text n
      then next (skip_space (n ∷ o)) false (some n) c
      else if (n == b'p') && begins_with (n ∷ o) (lit "pthread")
      then with_pthread (drop 6 (n ∷ o)) c c.tcc
      else next (skip_graph (n ∷ o)) false none c

  -- The last branch, between options.
  unfoldable pub plain_round : ℕ → Text → Cplr K.State → Round
  unfolding is_space
  plain_round n o c =
      if n == b'-'
      then next (n ∷ o) true none c
      else if is_space n
      then next (n ∷ o) false none c
      else stop 1 c

  -- The body of the loop at a character that is not the end.
  unfoldable pub round : ℕ → Text → Bool → Option ℕ → Cplr K.State → Round
  unfolding add_option dash_round plain_round take_graph
  round n o dash (some opt) c =
      next (skip_graph (n ∷ o)) dash none (add_option opt (take_graph (n ∷ o)) c)
  round n o true none c = dash_round n o c
  round n o false none c = plain_round n o c

  -- The loop, and the condition `*o++` behind the body.
  unfoldable pub scan : ℕ → Text → Bool → Option ℕ → Cplr K.State → Outcome (ℕ × Cplr K.State)
  unfolding round
  scan zero o dash opt c = out_of_fuel
  scan (suc k) [] dash opt c = done (0, c)
  scan (suc k) (n ∷ o) dash opt c = elim (round n o dash opt c) [
    | stop r c' ↦ done (r, c')
    | fault ↦ crash
    | next [] dash' opt' c' ↦ done (0, c')
    | next (_ ∷ o') dash' opt' c' ↦ scan k o' dash' opt' c'
  ]

  -- A round passes at least one character, so this fuel is enough.
  unfoldable pub cplr_pkgconfig_add : Text → Cplr K.State → Outcome (ℕ × Cplr K.State)
  unfolding scan
  cplr_pkgconfig_add args c = scan (length args + 1) args false none c
