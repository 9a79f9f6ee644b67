-- ===== src/Generate/Items.antt =====
-- The loops of `cplr_generate_section` print their items, each under its own `#line` directive.
use mathlib.Core.List.{reverse, reverse-cons}
use cplr.Base.{
  ℕ, ◌+◌, ◌-◌, ◌≤◌, ◌<◌, ◌≡◌, ◌≢◌, ◌∙◌, ◌⊎◌, inl, inr, refl, ap, true, false, some, List, [], ◌∷◌,
  arith, length, length-append,
}
use cplr.Base.Text.{Text}
use cplr.State.Enums.{GState, comment, internal, preproc, statement, same_gstate}
use cplr.State.Context.{Cplr}
use cplr.Generate.Emit.{emit, emit_comment, need_line, other_file}
use cplr.Generate.Sections.{item_name, Format, format, forward_items, backward_items}
use cplr.Generate.Program.{placed, comment_text, items, items_down}
use cplr.Generate.Printed.{Prints, Prints-nil, Prints-trans, emit-Prints}
use cplr.Generate.Lines.{stem, within, within-head, other_file-item_name, need_line-other_file}

pub length-reverse {ℓ} : {A : Type ℓ} (xs : List A) → length (reverse xs) ≡ length xs
length-reverse [] = refl
length-reverse (x ∷ xs) =
    ap length (reverse-cons x xs)
    ∙ length-append (reverse xs) (x ∷ [])
    ∙ omega (arith, length-reverse xs)

module _ {T : Type 0} where
  -- The last file and the state after an item.
  pub emit_prevfile :
      (nstate : GState) (file : Text) (line : ℕ) (text : Text) (c : Cplr T)
      → same_gstate nstate comment ≡ false
      → ((emit nstate file line text c).g_prevfile ≡ some file)
        × ((emit nstate file line text c).g_state ≡ nstate)
  unfolding emit
  emit_prevfile nstate file line text c n = rw n (refl, refl)

  -- An item whose file is another one.
  emit-item :
      (nstate : GState) (file : Text) (text : Text) (c : Cplr T)
      → same_gstate nstate comment ≡ false
      → other_file c.g_prevfile file ≡ true
      → Prints c (emit nstate file 1 text c) (λ lines. placed lines 1 file text)
  emit-item nstate file text c n o =
      rw (need_line-other_file c nstate file 1 n o) at (emit-Prints nstate file 1 text c)

  pub emit_comment-Prints :
      (text : Text) (c : Cplr T) → Prints c (emit_comment text c) (λ lines. comment_text text)
  emit_comment-Prints text c =
      unfold emit_comment need_line in (emit-Prints comment [] 1 (comment_text text) c)

  module _ (name : Text) (fmt : Format) where
    -- No file of the numbers that `P` allows is the last file.
    abbrev pub Unused : (ℕ → Type 0) → Cplr T → Type 0
    Unused P c = (j : ℕ) → P j → other_file c.g_prevfile (item_name name j) ≡ true

    used_up :
        (nstate : GState) (i j : ℕ) (text : Text) (c : Cplr T)
        → same_gstate nstate comment ≡ false
        → i ≢ j
        → other_file (emit nstate (item_name name i) 1 text c).g_prevfile (item_name name j) ≡ true
    used_up nstate i j text c n ne =
        rw (emit_prevfile nstate (item_name name i) 1 text c n).0 (other_file-item_name name i j ne)

    pub forward_items-Prints :
        (i : ℕ) (xs : List Text) (c : Cplr T)
        → Unused (λ j. i ≤ j) c
        → Prints c (forward_items name fmt i xs c) (λ lines. items lines name fmt i xs)
    unfolding forward_items items
    forward_items-Prints i [] c u = Prints-nil c
    forward_items-Prints i (x ∷ xs) c u =
        Prints-trans c _ _ _ _
          (emit-item preproc (item_name name i) (format fmt x) c refl (u i (omega arith)))
          (forward_items-Prints (i + 1) xs _
            λ j h. used_up preproc i j (format fmt x) c refl (omega arith))

    pub backward_items-Prints :
        (i : ℕ) (xs : List Text) (c : Cplr T)
        → length xs ≤ i
        → Unused (λ j. j ≤ i) c
        → Prints c (backward_items name fmt i xs c) (λ lines. items_down lines name fmt i xs)
    unfolding backward_items items_down
    backward_items-Prints i [] c h u = Prints-nil c
    backward_items-Prints i (x ∷ xs) c h u =
        Prints-trans c _ _ _ _
          (emit-item statement (item_name name i) (format fmt x) c refl (u i (omega arith)))
          (backward_items-Prints (i - 1) xs _ (omega arith)
            λ j l. used_up statement i j (format fmt x) c refl (omega arith))

    -- Whether the generator is not within `main`'s own lines.
    abbrev pub Outside : Cplr T → Type 0
    Outside c = same_gstate c.g_state internal ≡ false

    module _ (names : List Text) (stems : (i : ℕ) → stem (item_name name i) ≡ name) where
      abbrev Within : Cplr T → Type 0
      Within c = within (name ∷ names) c.g_prevfile ≡ true

      emit-Within :
          (nstate : GState) (i : ℕ) (text : Text) (c : Cplr T)
          → same_gstate nstate comment ≡ false
          → Within (emit nstate (item_name name i) 1 text c)
      emit-Within nstate i text c n =
          rw (emit_prevfile nstate (item_name name i) 1 text c n).0
            (within-head name (item_name name i) names (stems i))

      pub forward_items-Within :
          (i : ℕ) (xs : List Text) (c : Cplr T) → Within c → Within (forward_items name fmt i xs c)
      unfolding forward_items
      forward_items-Within i [] c w = w
      forward_items-Within i (x ∷ xs) c w =
          forward_items-Within (i + 1) xs _ (emit-Within preproc i (format fmt x) c refl)

      pub backward_items-Within :
          (i : ℕ) (xs : List Text) (c : Cplr T) → Within c → Within (backward_items name fmt i xs c)
      unfolding backward_items
      backward_items-Within i [] c w = w
      backward_items-Within i (x ∷ xs) c w =
          backward_items-Within (i - 1) xs _ (emit-Within statement i (format fmt x) c refl)

    emit-Outside :
        (nstate : GState) (i : ℕ) (text : Text) (c : Cplr T)
        → same_gstate nstate comment ≡ false
        → same_gstate nstate internal ≡ false
        → Outside (emit nstate (item_name name i) 1 text c)
    emit-Outside nstate i text c n o = rw (emit_prevfile nstate (item_name name i) 1 text c n).1 o

    pub forward_items-Outside :
        (i : ℕ) (xs : List Text) (c : Cplr T)
        → Outside c ⊎ (0 < length xs)
        → Outside (forward_items name fmt i xs c)
    unfolding forward_items
    forward_items-Outside i [] c (inl o) = o
    forward_items-Outside i [] c (inr h) = absurd (omega arith)
    forward_items-Outside i (x ∷ xs) c h =
        forward_items-Outside (i + 1) xs _ (inl (emit-Outside preproc i (format fmt x) c refl refl))

    pub backward_items-Outside :
        (i : ℕ) (xs : List Text) (c : Cplr T)
        → Outside c ⊎ (0 < length xs)
        → Outside (backward_items name fmt i xs c)
    unfolding backward_items
    backward_items-Outside i [] c (inl o) = o
    backward_items-Outside i [] c (inr h) = absurd (omega arith)
    backward_items-Outside i (x ∷ xs) c h =
        backward_items-Outside (i - 1) xs _
          (inl (emit-Outside statement i (format fmt x) c refl refl))
