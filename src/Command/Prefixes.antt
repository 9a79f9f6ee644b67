-- ===== src/Command/Prefixes.antt =====
-- The prefixes of a line, and the piles that they stand for.
use cplr.Base.{ℕ, ◌≡◌, ◌≢◌, refl, ap, ◌∙◌, true, false, ◌||◌, Option, [], ◌∷◌, ◌++◌, snoc, All}
use cplr.Base.Outcome.{Outcome, done}
use cplr.Base.Text.{Text, is_space, is_cntrl}
use cplr.State.Context.{Cplr}
use cplr.Tcc.{Tcc}
use cplr.Host.{Host}
use cplr.Command.Line.{skip_blank, dispatch_line, cplr_command}

-- The prefixes of a line that is only piled up.
pub data Prefix : Type 0 where
  declaration toplevel before after statement : Prefix

abbrev pub mark : Prefix → ℕ
mark declaration = b'@'
mark toplevel = b'^'
mark before = b'<'
mark after = b'>'
mark statement = b'.'

abbrev pub piled : {T : Type 0} → Prefix → Text → Cplr T → Cplr T
piled declaration text c = record c { tlds = snoc c.tlds text }
piled toplevel text c = record c { tlfs = snoc c.tlfs text }
piled before text c = record c { befs = snoc c.befs text }
piled after text c = record c { afts = snoc c.afts text }
piled statement text c = record c { stms = snoc c.stms text }

-- White space and control characters.
abbrev pub Blank : Text → Type 0
Blank = All (λ c. (is_space c || is_cntrl c) ≡ true)

skip_blank-append :
    (blanks : Text) (c : ℕ) (text : Text)
    → Blank blanks
    → (is_space c || is_cntrl c) ≡ false
    → skip_blank (blanks ++ (c ∷ text)) ≡ c ∷ text
unfolding skip_blank
skip_blank-append [] c text h k = rw k refl
skip_blank-append (b ∷ blanks) c text h k = rw (h.0) (skip_blank-append blanks c text h.1 k)

module _ (H : Host) (K : Tcc) (prev : Option K.State) where
  cplr_command-dispatch_line :
      (blanks : Text) (first : ℕ) (text : Text) (c : Cplr K.State)
      → Blank blanks
      → (is_space first || is_cntrl first) ≡ false
      → cplr_command H K prev (blanks ++ (first ∷ text)) c ≡ dispatch_line H K prev first text c
  unfolding cplr_command
  cplr_command-dispatch_line blanks first text c h k =
      ap
        (λ s. elim s as (λ _. Outcome (ℕ × Cplr K.State)) [
          | [] ↦ done (0, c)
          | first ∷ text ↦ dispatch_line H K prev first text c
        ])
        (skip_blank-append blanks first text h k)

  -- A line that begins, behind blanks, with the prefix of a pile and has more text puts that text
  -- at the end of the pile, changes nothing else, runs nothing and returns 0.
  pub cplr_command-piled :
      (p : Prefix) (blanks text : Text) (c : Cplr K.State)
      → Blank blanks
      → text ≢ []
      → cplr_command H K prev (blanks ++ (mark p ∷ text)) c ≡ done (0, piled p text c)
  unfolding is_space is_cntrl dispatch_line
  cplr_command-piled p blanks text c h k =
      cplr_command-dispatch_line blanks (mark p) text c h (visible p) ∙ go p text k
    where
      visible : (p : Prefix) → (is_space (mark p) || is_cntrl (mark p)) ≡ false
      visible declaration = refl
      visible toplevel = refl
      visible before = refl
      visible after = refl
      visible statement = refl

      go :
          (p : Prefix) (text : Text)
          → text ≢ []
          → dispatch_line H K prev (mark p) text c ≡ done (0, piled p text c)
      go p [] k = absurd (k refl)
      go declaration (a ∷ text) k = refl
      go toplevel (a ∷ text) k = refl
      go before (a ∷ text) k = refl
      go after (a ∷ text) k = refl
      go statement (a ∷ text) k = refl
