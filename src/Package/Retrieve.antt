-- ===== src/Package/Retrieve.antt =====
-- What `cpkg_retrieve` makes of a line.
use cplr.Base.{
  ℕ, ◌≡◌, ◌≢◌, refl, ap, ◌∙◌, Option, none, some, [], ◌∷◌, ◌++◌, arith, leb, if◌then◌else◌, length,
  length-append, All, snoc,
}
use cplr.Base.Outcome.{Outcome, done}
use cplr.Base.Text.{Text, lit}
use cplr.Host.{Host}
use cplr.Package.Query.{until_nul, cut_newline, retrieved, cpkg_retrieve}

-- No byte is the NUL that ends a string.
abbrev pub NoNul : Text → Type 0
NoNul = All (λ c. c ≢ 0)

until_nul-NoNul : (s : Text) → NoNul s → until_nul s ≡ s
unfolding until_nul
until_nul-NoNul [] h = refl
until_nul-NoNul (c ∷ s) h = ground (arith, h.0, until_nul-NoNul s h.1)

cut_newline-line : (s : Text) → cut_newline (snoc s b'\n') ≡ s
unfolding cut_newline
cut_newline-line [] = refl
cut_newline-line (c ∷ []) = refl
cut_newline-line (c ∷ d ∷ s) = ap (◌∷◌ c) (cut_newline-line (d ∷ s))

module _ (H : Host) where
  retrieved-eq :
      (c : ℕ) (s : Text)
      → retrieved H (c ∷ s)
        ≡ done (if leb 1024 (length (c ∷ s)) then none else some (until_nul (cut_newline (c ∷ s))))
  unfolding retrieved
  retrieved-eq c s = ground arith

  retrieved-line :
      (s : Text)
      → NoNul s
      → retrieved H (snoc s b'\n') ≡ done (if leb 1023 (length s) then none else some s)
  unfolding retrieved
  retrieved-line [] h = refl
  retrieved-line (c ∷ s) h =
      let len = length-append (c ∷ s) (b'\n' ∷ []) in
      let long : leb 1024 (length (snoc (c ∷ s) b'\n')) ≡ leb 1023 (length (c ∷ s)) =
        ground (arith, len) in
      retrieved-eq c (snoc s b'\n')
      ∙ rw (long, cut_newline-line (c ∷ s), until_nul-NoNul (c ∷ s) h) refl

  -- When pkg-config prints one line without a NUL, `cpkg_retrieve` returns it without the
  -- newline if it has at most 1022 bytes, so that with its newline it does not fill the buffer of
  -- 1024 bytes, and else NULL.
  pub cpkg_retrieve-line :
      (name what s : Text)
      → H.popen (lit "pkg-config " ++ (what ++ (lit " " ++ name))) ≡ some (snoc s b'\n')
      → NoNul s
      → cpkg_retrieve H name what ≡ done (if leb 1023 (length s) then none else some s)
  unfolding cpkg_retrieve
  cpkg_retrieve-line name what s e h =
      ap
        (λ o. elim o as (λ _. Outcome (Option Text)) [
          | none ↦ done none
          | some output ↦ retrieved H output
        ])
        e
      ∙ retrieved-line s h
