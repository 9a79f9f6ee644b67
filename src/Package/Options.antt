-- ===== src/Package/Options.antt =====
-- What `cplr_pkgconfig_add` does with the options of a package, stated on the options: any text
-- that is made of them with white space between.
use cplr.Base.{
  ℕ, suc, ◌<◌, ◌≡◌, refl, ap, Bool, true, false, ◌&&◌, none, some, List, [], ◌∷◌, ◌++◌, arith,
  if◌then◌else◌, length, snoc, All,
}
use cplr.Base.Text.{Text, lit, begins_with, is_space, is_graph}
use cplr.State.Context.{Cplr}
use cplr.Tcc.{Tcc}
use cplr.Package.Scan.{take_graph, skip_graph, skip_space, takes_text}

-- An option of the output of pkg-config. `other` has its letter and the rest of its word.
pub data PkgOption : Type 0 where
  define incdir libdir lib : Text → PkgOption
  pthread : PkgOption
  other : ℕ → Text → PkgOption

abbrev pub render : PkgOption → Text
render (define s) = b'-' ∷ b'D' ∷ s
render (incdir s) = b'-' ∷ b'I' ∷ s
render (libdir s) = b'-' ∷ b'L' ∷ s
render (lib s) = b'-' ∷ b'l' ∷ s
render pthread = lit "-pthread"
render (other n s) = b'-' ∷ n ∷ s

abbrev pub IsWord : Text → Type 0
IsWord = All (λ c. is_graph c ≡ true)

-- A word with at least one character.
abbrev pub IsArgument : Text → Type 0
IsArgument s = IsWord s × (0 < length s)

abbrev pub IsOption : PkgOption → Type 0
IsOption (define s) = IsArgument s
IsOption (incdir s) = IsArgument s
IsOption (libdir s) = IsArgument s
IsOption (lib s) = IsArgument s
IsOption pthread = Unit
IsOption (other n s) =
    IsWord (n ∷ s) × (takes_text n ≡ false) × (begins_with (n ∷ s) (lit "pthread") ≡ false)

-- The text is made of the options, each behind any white space and in front of at least one
-- white space or the end.
pub data Lists : Text → List PkgOption → Type 0 where
  end : {t : Text} → t ≡ [] → Lists t []
  space :
      {t u : Text} {os : List PkgOption} (c : ℕ)
      → is_space c ≡ true
      → t ≡ c ∷ u
      → Lists u os
      → Lists t os
  last : {t : Text} (o : PkgOption) → IsOption o → t ≡ render o → Lists t (o ∷ [])
  option :
      {t u : Text} {os : List PkgOption} (o : PkgOption) (c : ℕ)
      → IsOption o
      → is_space c ≡ true
      → t ≡ render o ++ c ∷ u
      → Lists u os
      → Lists t (o ∷ os)

-- The text ends or goes on with white space.
abbrev pub Ends : Text → Type 0
Ends [] = Unit
Ends (c ∷ _) = is_space c ≡ true

pub skip_graph_end : (t : Text) → Ends t → (skip_graph t ≡ t) × (take_graph t ≡ [])
unfolding skip_graph take_graph is_space
skip_graph_end [] h = (refl, refl)
skip_graph_end (c ∷ t) h = ground arith

pub graph_word :
    (s t : Text) → IsWord s → Ends t → (skip_graph (s ++ t) ≡ t) × (take_graph (s ++ t) ≡ s)
unfolding skip_graph take_graph
graph_word [] t w e = skip_graph_end t e
graph_word (c ∷ s) t w e = ground (arith, graph_word s t w.1 e)

pub skip_space_letter : (n : ℕ) (o : Text) → takes_text n ≡ true → skip_space (n ∷ o) ≡ n ∷ o
unfolding skip_space takes_text
skip_space_letter n o h = ground arith

-- A prefix with no white space does not run over the end of a word.
pub begins_end : (t p : Text) (c : ℕ) → is_graph c ≡ true → Ends t → begins_with t (c ∷ p) ≡ false
unfolding begins_with is_graph is_space
begins_end [] p c h e = refl
begins_end (d ∷ t) p c h e = ground arith

pub begins_word :
    (s t p : Text) → IsWord p → Ends t → begins_with s p ≡ false → begins_with (s ++ t) p ≡ false
unfolding begins_with
begins_word s t [] w e h = cc
begins_word [] t (c ∷ p) w e h = begins_end t p c w.0 e
begins_word (a ∷ s) t (c ∷ p) w e h = ground (arith, begins_word s t p w.1 e)

pub pthread-IsWord : IsWord (lit "pthread")
unfolding is_graph
pthread-IsWord = (refl, (refl, (refl, (refl, (refl, (refl, (refl, tt)))))))

pub begins_pthread :
    (s t : Text)
    → Ends t
    → begins_with s (lit "pthread") ≡ false
    → begins_with (s ++ t) (lit "pthread") ≡ false
begins_pthread s t e h = begins_word s t (lit "pthread") pthread-IsWord e h

pub if_and_false {ℓ} : {A : Type ℓ} (b : Bool) (x y : A) → (if b && false then x else y) ≡ y
if_and_false true x y = refl
if_and_false false x y = refl

pub space_fuel : {k x : ℕ} {t u : Text} → t ≡ x ∷ u → length t < suc k → length u < k
space_fuel {t} e h = omega (arith, ap length e)

module _ (K : Tcc) where
  -- What an option does to the piler.
  abbrev pub apply : PkgOption → Cplr K.State → Cplr K.State
  apply (define s) c = record c { defs = snoc c.defs (some (b'-' ∷ b'D' ∷ s)) }
  apply (incdir s) c = record c { incdirs = snoc c.incdirs s }
  apply (libdir s) c = record c { libdirs = snoc c.libdirs s }
  apply (lib s) c = record c { libs = snoc c.libs s }
  apply pthread c = elim c.tcc [
    | none ↦ c
    | some t ↦ record c { tcc = some (K.set_options t (lit "-pthread")).0 }
  ]
  apply (other n s) c = c

  unfoldable pub apply_all : List PkgOption → Cplr K.State → Cplr K.State
  apply_all [] c = c
  apply_all (o ∷ os) c = apply_all os (apply o c)
