-- ===== src/Package/Query.antt =====
-- source/cpkg.c, and `cplr_pkgconfig_prepare` of source/cplr_package.c.
use cplr.Base.{ℕ, Bool, false, Option, none, some, [], ◌∷◌, ◌++◌, ◌==◌, leb, if◌then◌else◌, length}
use cplr.Base.Outcome.{Outcome, done, crash, ◌>>=◌}
use cplr.Base.Text.{Text, lit}
use cplr.State.Context.{Cplr}
use cplr.Tcc.{Tcc}
use cplr.Host.{Host}
use cplr.Package.Scan.{cplr_pkgconfig_add}

-- What the string functions see of the bytes in a buffer.
unfoldable pub until_nul : Text → Text
until_nul [] = []
until_nul (c ∷ s) = if c == 0 then [] else c ∷ until_nul s

-- The last byte goes if it is a newline.
unfoldable pub cut_newline : Text → Text
cut_newline [] = []
cut_newline (c ∷ []) = if c == b'\n' then [] else c ∷ []
cut_newline (c ∷ d ∷ s) = c ∷ cut_newline (d ∷ s)

module _ (H : Host) where
  unfoldable pub cpkg_exists : Text → Bool
  cpkg_exists name = elim (H.system (lit "pkg-config --exists " ++ name)) [
    | none ↦ false
    | some res ↦ res == 0
  ]

  -- The text that `fread` finds, in a buffer of 1024 bytes. With no text at all the byte in front
  -- of the buffer is read.
  unfoldable pub retrieved : Text → Outcome (Option Text)
  unfolding until_nul cut_newline
  retrieved [] = crash
  retrieved (c ∷ s) =
      if leb 1024 (length (c ∷ s)) then done none else done (some (until_nul (cut_newline (c ∷ s))))

  unfoldable pub cpkg_retrieve : Text → Text → Outcome (Option Text)
  unfolding retrieved
  cpkg_retrieve name what = elim (H.popen (lit "pkg-config " ++ (what ++ (lit " " ++ name)))) [
    | none ↦ done none
    | some output ↦ retrieved output
  ]

  module _ (K : Tcc) where
    -- The options go to the compiler and then to the piles.
    unfoldable pub use_options : Text → Cplr K.State → Option K.State → Outcome (ℕ × Cplr K.State)
    use_options s c none = crash
    use_options s c (some t) = do
      (r, c') ← cplr_pkgconfig_add K s (record c { tcc = some (K.set_options t s).0 })
      done (if r == 0 then 0 else 1, c')

    unfoldable pub cplr_pkgconfig_prepare : Cplr K.State → Text → Outcome (ℕ × Cplr K.State)
    unfolding cpkg_exists cpkg_retrieve use_options
    cplr_pkgconfig_prepare c name =
        if cpkg_exists name
        then (do
          found ← cpkg_retrieve name (lit "--cflags --libs")
          elim found [ none ↦ done (1, c) | some s ↦ use_options s c c.tcc ])
        else done (1, c)
