-- ===== src/Generate/Lines.antt =====
-- When `cplr_emit` writes a `#line` directive: the names of the files tell the items apart.
use cplr.Base.{
  ℕ, ◌≡◌, ◌≢◌, refl, ap, Bool, true, false, ◌||◌, Option, none, some, List, [], ◌∷◌, ◌++◌, arith,
  ◌==◌, if◌then◌else◌, Bool-cases, inl, inr,
}
use cplr.Base.Text.{Text, text_eq, text_eq_sound, text_eq_refl}
use cplr.Base.Decimal.{decimal, decimal-injective}
use cplr.State.Enums.{GState, comment, same_gstate}
use cplr.State.Context.{Cplr}
use cplr.Generate.Emit.{need_line, other_file}
use cplr.Generate.Sections.{item_name}

-- The name of the section of an item: its file name up to the underscore.
unfoldable pub stem : Text → Text
stem [] = []
stem (c ∷ s) = if c == b'_' then [] else c ∷ stem s

unfoldable pub contains : Text → List Text → Bool
unfolding text_eq
contains s [] = false
contains s (t ∷ ts) = text_eq s t || contains s ts

-- The last file, if there was one, belongs to one of the sections.
unfoldable pub within : List Text → Option Text → Bool
unfolding contains stem
within names none = true
within names (some file) = contains (stem file) names

pub within-cons :
    (name : Text) (names : List Text) (p : Option Text)
    → within names p ≡ true
    → within (name ∷ names) p ≡ true
unfolding within
within-cons name names none h = refl
within-cons name names (some f) h = ground (arith, h)

pub within-head :
    (name file : Text) (names : List Text)
    → stem file ≡ name
    → within (name ∷ names) (some file) ≡ true
within-head name file names e = unfold within in rw (e, text_eq_refl name)

-- A file of a section that has not been yet is another file.
pub other_file-within :
    (names : List Text) (p : Option Text) (file : Text)
    → within names p ≡ true
    → contains (stem file) names ≡ false
    → other_file p file ≡ true
unfolding other_file within
other_file-within names none file h n = refl
other_file-within names (some g) file h n = elim (Bool-cases (text_eq g file)) [
  | inl same ↦
      let e : contains (stem g) names ≡ contains (stem file) names =
        ap (λ f. contains (stem f) names) (text_eq_sound g file same) in
      cc
  | inr differ ↦ rw differ
]

append-cancel : (s t u : Text) → s ++ t ≡ s ++ u → t ≡ u
append-cancel [] t u e = e
append-cancel (x ∷ s) t u e = append-cancel s t u (cc)

pub item_name-injective : (name : Text) (i j : ℕ) → item_name name i ≡ item_name name j → i ≡ j
unfolding item_name
item_name-injective name i j e =
    let e' : b'_' ∷ decimal i ≡ b'_' ∷ decimal j = append-cancel name _ _ e in
    decimal-injective i j (cc)

pub other_file-item_name :
    (name : Text) (i j : ℕ) → i ≢ j → other_file (some (item_name name i)) (item_name name j) ≡ true
unfolding other_file
other_file-item_name name i j ne =
    elim (Bool-cases (text_eq (item_name name i) (item_name name j))) [
      | inl same ↦ absurd (ne (item_name-injective name i j (text_eq_sound _ _ same)))
      | inr differ ↦ rw differ
    ]

module _ {T : Type 0} where
  -- A directive is written wherever the file is another one, unless for a comment.
  pub need_line-other_file :
      (c : Cplr T) (nstate : GState) (file : Text) (line : ℕ)
      → same_gstate nstate comment ≡ false
      → other_file c.g_prevfile file ≡ true
      → need_line c nstate file line ≡ true
  need_line-other_file c nstate file line n o = elim (Bool-cases (same_gstate c.g_state nstate)) [
    | inl same ↦ unfold need_line in rw (n, same, o)
    | inr differ ↦ unfold need_line in rw (n, differ)
  ]
