-- ===== src/Package/Totality.antt =====
-- `cplr_pkgconfig_add` on any text: it ends, and only adds to four piles and to the compiler.
use mathlib.Core.List.{map-append}
use cplr.Base.{
  ℕ, zero, suc, ◌+◌, ◌≤◌, ◌<◌, ◌≡◌, ◌∙◌, refl, sym, ap, append-nil, append_assoc, map, Bool, true,
  false, ◌&&◌, Option, none, some, List, [], ◌∷◌, ◌++◌, arith, ◌==◌, length, drop, if_elim,
}
use cplr.Base.Outcome.{done, crash, Returns, returns, Returns-mono}
use cplr.Base.Text.{Text, lit, begins_with, is_space}
use cplr.State.Context.{Cplr}
use cplr.Tcc.{Tcc}
use cplr.Package.Scan.{
  skip_graph, skip_space, takes_text, add_option, Round, stop, fault, next, with_pthread, round,
  scan, cplr_pkgconfig_add,
}

-- `ys` is `xs` with more at the end.
abbrev pub Extends {ℓ} : {A : Type ℓ} → List A → List A → Type ℓ
Extends xs ys = (zs : List _) × (ys ≡ xs ++ zs)

pub Extends-refl {ℓ} : {A : Type ℓ} (xs : List A) → Extends xs xs
Extends-refl xs = ([], sym (append-nil xs))

Extends-trans {ℓ} : {A : Type ℓ} (xs ys zs : List A) → Extends xs ys → Extends ys zs → Extends xs zs
Extends-trans xs ys zs (a, e) (b, f) = (a ++ b, rw (f, e) (append_assoc xs a b))

-- `ys` is `xs` with strings at the end, none of them NULL.
abbrev pub Adds {ℓ} : {A : Type ℓ} → List (Option A) → List (Option A) → Type ℓ
Adds xs ys = (zs : List _) × (ys ≡ xs ++ map some zs)

pub Adds-refl {ℓ} : {A : Type ℓ} (xs : List (Option A)) → Adds xs xs
Adds-refl xs = ([], sym (append-nil xs))

Adds-trans {ℓ} : {A : Type ℓ} (xs ys zs : List (Option A)) → Adds xs ys → Adds ys zs → Adds xs zs
Adds-trans xs ys zs (a, e) (b, f) =
    (a ++ b, rw (f, e) (append_assoc xs (map some a) (map some b) ∙ rw map-append))

length-skip_graph : (t : Text) → length (skip_graph t) ≤ length t
unfolding skip_graph
length-skip_graph [] = omega arith
length-skip_graph (c ∷ t) = ground (arith, length-skip_graph t)

length-skip_space : (t : Text) → length (skip_space t) ≤ length t
unfolding skip_space
length-skip_space [] = omega arith
length-skip_space (c ∷ t) = ground (arith, length-skip_space t)

length-drop : (n : ℕ) (t : Text) → length (drop n t) ≤ length t
length-drop zero t = omega arith
length-drop (suc n) [] = omega arith
length-drop (suc n) (c ∷ t) = omega (arith, length-drop n t)

module _ (K : Tcc) where
  -- `c'` is `c` with more definitions, directories and libraries and another compiler state.
  pub record Grows (c c' : Cplr K.State) : Type 0 where
    pub defs : Adds c.defs c'.defs
    pub incdirs : Extends c.incdirs c'.incdirs
    pub libdirs : Extends c.libdirs c'.libdirs
    pub libs : Extends c.libs c'.libs
    pub rest : c' ≡ record c {
      defs = c'.defs;
      incdirs = c'.incdirs;
      libdirs = c'.libdirs;
      libs = c'.libs;
      tcc = c'.tcc;
    }

  pub Grows-trans : (a b c : Cplr K.State) → Grows a b → Grows b c → Grows a c
  Grows-trans a b c g h = record {
    defs = Adds-trans a.defs b.defs c.defs g.defs h.defs;
    incdirs = Extends-trans a.incdirs b.incdirs c.incdirs g.incdirs h.incdirs;
    libdirs = Extends-trans a.libdirs b.libdirs c.libdirs g.libdirs h.libdirs;
    libs = Extends-trans a.libs b.libs c.libs g.libs h.libs;
    rest =
        h.rest
        ∙ ap
            (λ (x : Cplr K.State). record x {
              defs = c.defs;
              incdirs = c.incdirs;
              libdirs = c.libdirs;
              libs = c.libs;
              tcc = c.tcc;
            })
            g.rest;
  }

  abbrev pub HasCompiler : Cplr K.State → Type 0
  HasCompiler c = (d : K.State) × (c.tcc ≡ some d)

  abbrev pub Ready : Cplr K.State → Cplr K.State → Type 0
  Ready c c' = Grows c c' × HasCompiler c'

  pub grown :
      (c : Cplr K.State) {ds : List (Option Text)} {is ls bs : List Text} (t : Option K.State)
      → Adds c.defs ds
      → Extends c.incdirs is
      → Extends c.libdirs ls
      → Extends c.libs bs
      → Grows c (record c { defs = ds; incdirs = is; libdirs = ls; libs = bs; tcc = t })
  grown c t d i l b = record { defs = d; incdirs = i; libdirs = l; libs = b; rest = refl }

  pub Grows-refl : (c : Cplr K.State) → Grows c c
  Grows-refl c =
      grown c c.tcc (Adds-refl c.defs) (Extends-refl c.incdirs) (Extends-refl c.libdirs)
        (Extends-refl c.libs)

  add_option-Ready :
      (n : ℕ) (s : Text) (c : Cplr K.State) → HasCompiler c → Ready c (add_option K n s c)
  unfolding add_option
  add_option-Ready n s c h =
      if_elim (Ready c) _ (grown c c.tcc (_ ∷ [], refl) i l b, h)
        (if_elim (Ready c) _ (grown c c.tcc d (s ∷ [], refl) l b, h)
          (if_elim (Ready c) _ (grown c c.tcc d i (s ∷ [], refl) b, h)
            (if_elim (Ready c) _ (grown c c.tcc d i l (s ∷ [], refl), h) (Grows-refl c, h))))
    where
      d : Adds c.defs c.defs
      d = Adds-refl c.defs

      i : Extends c.incdirs c.incdirs
      i = Extends-refl c.incdirs

      l : Extends c.libdirs c.libdirs
      l = Extends-refl c.libdirs

      b : Extends c.libs c.libs
      b = Extends-refl c.libs

  -- A round that starts with `len` characters before the end.
  abbrev RoundOk : ℕ → Cplr K.State → Round K → Type 0
  RoundOk len c (stop r c') = (r ≡ 1) × Ready c c'
  RoundOk len c fault = ⊥
  RoundOk len c (next o dash opt c') = (length o ≤ len) × Ready c c'

  with_pthread-RoundOk :
      (len : ℕ) (o : Text) (c : Cplr K.State) (t : Option K.State) {d : K.State}
      → t ≡ some d
      → length o ≤ len
      → RoundOk len c (with_pthread K o c t)
  with_pthread-RoundOk len o c none e h = cc
  with_pthread-RoundOk len o c (some t) e h = (
    h,
    (
      grown c (some _) (Adds-refl c.defs) (Extends-refl c.incdirs) (Extends-refl c.libdirs)
          (Extends-refl c.libs),
      (_, refl),
    ),
  )

  round-RoundOk :
      (n : ℕ) (o : Text) (dash : Bool) (opt : Option ℕ) (c : Cplr K.State)
      → HasCompiler c
      → RoundOk (suc (length o)) c (round K n o dash opt c)
  unfolding round
  round-RoundOk n o dash (some opt) c h = (length-skip_graph (n ∷ o), add_option-Ready opt _ c h)
  round-RoundOk n o true none c (d, h) =
      if_elim (RoundOk (suc (length o)) c) (takes_text n)
        (length-skip_space (n ∷ o), (Grows-refl c, (d, h)))
        (if_elim (RoundOk (suc (length o)) c) ((n == b'p') && begins_with (n ∷ o) (lit "pthread"))
          {y = next (skip_graph (n ∷ o)) false none c}
          (with_pthread-RoundOk _ (drop 6 (n ∷ o)) c c.tcc h (length-drop 6 (n ∷ o)))
          (length-skip_graph (n ∷ o), (Grows-refl c, (d, h))))
  round-RoundOk n o false none c h =
      if_elim (RoundOk (suc (length o)) c) (n == b'-') {x = next (n ∷ o) true none c}
        (omega arith, (Grows-refl c, h))
        (if_elim (RoundOk (suc (length o)) c) (is_space n) {x = next (n ∷ o) false none c}
          {y = stop 1 c} (omega arith, (Grows-refl c, h)) (refl, (Grows-refl c, h)))

  abbrev pub Ended : Cplr K.State → ℕ × Cplr K.State → Type 0
  Ended c (r, c') = (r ≤ 1) × Ready c c'

  -- The loop behind a round, where `scan` returns for any shorter text.
  scan-Ended :
      (k : ℕ) (o : Text) (dash : Bool) (opt : Option ℕ) (c : Cplr K.State)
      → HasCompiler c
      → length o < k
      → Returns (Ended c) (scan K k o dash opt c)
  unfolding scan
  scan-Ended zero o dash opt c h f = absurd (omega arith)
  scan-Ended (suc k) [] dash opt c h f = returns (omega arith, (Grows-refl c, h))
  scan-Ended (suc k) (n ∷ o) dash opt c h f =
      go (round K n o dash opt c) (round-RoundOk n o dash opt c h) (scan-Ended k)
    where
      go :
          (r : Round K)
          → RoundOk (suc (length o)) c r
          → ((o : Text) (dash : Bool) (opt : Option ℕ) (c : Cplr K.State)
              → HasCompiler c
              → length o < k
              → Returns (Ended c) (scan K k o dash opt c))
          → Returns (Ended c) (elim r [
            | stop r c' ↦ done (r, c')
            | fault ↦ crash
            | next [] dash' opt' c' ↦ done (0, c')
            | next (_ ∷ o') dash' opt' c' ↦ scan K k o' dash' opt' c'
          ])
      go (stop r c') (e, g) ih = returns (omega arith, g)
      go fault e ih = elim e [ ]
      go (next [] dash' opt' c') (e, g) ih = returns (omega arith, g)
      go (next (_ ∷ o') dash' opt' c') (e, (g, h')) ih =
          Returns-mono (ih o' dash' opt' c' h' (omega arith))
            (λ (r, b) (l, (g', q)). (l, (Grows-trans c c' b g g', q)))

  -- For any text at all, and a piler with a compiler: `cplr_pkgconfig_add` ends with 0 or 1, and
  -- also where it gives up, the piler has only got more definitions, directories and libraries at
  -- the ends of their piles, and another state of its compiler.
  pub cplr_pkgconfig_add-Ended :
      (args : Text) (c : Cplr K.State) {d : K.State}
      → c.tcc ≡ some d
      → Returns (Ended c) (cplr_pkgconfig_add K args c)
  unfolding cplr_pkgconfig_add
  cplr_pkgconfig_add-Ended args c h =
      scan-Ended (length args + 1) args false none c (_, h) (omega arith)
