-- ===== src/Phases/Errors/Lines.antt =====
-- The lines that are printed of one message.
use cplr.Base.{
  ℕ, zero, suc, ◌<◌, ◌≤◌, ◌≡◌, ◌≢◌, ◌⊎◌, inl, inr, refl, sym, ap, ◌∙◌, Bool-cases, true, false,
  none, some, List, [], ◌∷◌, ◌++◌, append-nil, length, ◌==◌, if◌then◌else◌, arith,
}
use cplr.Base.Outcome.{done}
use cplr.Base.Text.{Text}
use cplr.Phases.Errors.{skip_newlines, to_newline, strtok, error_line, print_lines, print_message}

-- The lines of a text, the empty ones included.
abbrev onto_first : ℕ → List Text → List Text
onto_first a [] = (a ∷ []) ∷ []
onto_first a (l ∷ ls) = (a ∷ l) ∷ ls

abbrev pub split_lines : Text → List Text
split_lines [] = [] ∷ []
split_lines (a ∷ s) = if a == 10 then [] ∷ split_lines s else onto_first a (split_lines s)

abbrev pub filled : List Text → List Text
filled [] = []
filled ([] ∷ ls) = filled ls
filled ((a ∷ l) ∷ ls) = (a ∷ l) ∷ filled ls

abbrev pub indented : List Text → Text
indented [] = []
indented (l ∷ ls) = error_line l ++ indented ls

-- The lines of a message that are not empty, indented.
abbrev pub shown : Text → Text
shown s = indented (filled (split_lines s))

record Token (s : Text) : Type 0 where
  more : List Text
  splits : split_lines s ≡ (to_newline s).0 ∷ more
  behind : filled more ≡ filled (split_lines (to_newline s).1)
  shorter : length (to_newline s).1 ≤ length s

to_newline-Token : (s : Text) → Token s
unfolding to_newline
to_newline-Token [] = record { more = []; splits = refl; behind = refl; shorter = omega arith }
to_newline-Token (a ∷ s) = elim (Bool-cases (a == 10)) [
  | inl ends ↦ record {
    more = split_lines s;
    splits = rw ends refl;
    behind = rw ends refl;
    shorter = rw ends (omega arith);
  }
  | inr goes ↦
      let t = to_newline-Token s in
      record {
        more = t.more;
        splits = rw (goes, t.splits) refl;
        behind = rw goes t.behind;
        shorter = rw goes (omega (arith, t.shorter));
      }
]

behind_newline : (a : ℕ) (s : Text) → (a == 10) ≡ true → strtok (a ∷ s) ≡ strtok s
unfolding strtok skip_newlines
behind_newline a s h = rw (strtok, h) refl

before_newline :
    (a : ℕ) (s : Text)
    → (a == 10) ≡ false
    → strtok (a ∷ s) ≡ some (a ∷ (to_newline s).0, (to_newline s).1)
unfolding strtok skip_newlines to_newline
before_newline a s h = rw (strtok, h) (rw h refl)

strtok_lem :
    (s : Text)
    → ((strtok s ≡ none) × (filled (split_lines s) ≡ []))
      ⊎ ((t r : Text) × (strtok s ≡ some (t, r))
          × (filled (split_lines s) ≡ t ∷ filled (split_lines r))
          × (length r < length s))
unfolding strtok skip_newlines
strtok_lem [] = inl (refl, refl)
strtok_lem (a ∷ s) = elim (Bool-cases (a == 10)) [
  | inl ends ↦ elim (strtok_lem s) [
    | inl (e, n) ↦ inl (behind_newline a s ends ∙ e, rw ends n)
    | inr (t, r, e, n, l) ↦ inr (t, r, behind_newline a s ends ∙ e, rw ends n, omega (arith, l))
  ]
  | inr goes ↦
      let k = to_newline-Token s in
      inr (
        a ∷ (to_newline s).0,
        (to_newline s).1,
        before_newline a s goes,
        rw (goes, k.splits) (ap (λ ls. (a ∷ (to_newline s).0) ∷ ls) k.behind),
        omega (arith, k.shorter),
      )
]

print_lines_lem :
    (k : ℕ) (cur save : Text)
    → length save < k
    → print_lines k cur save ≡ done (error_line cur ++ shown save)
unfolding print_lines
print_lines_lem zero cur save h = absurd (omega arith)
print_lines_lem (suc k) cur save h = elim (strtok_lem save) [
  | inl (e, n) ↦ rw (print_lines, e, n) (ap (λ t. done t) (sym (append-nil (error_line cur))))
  | inr (t, r, e, n, l) ↦ rw (print_lines, e, n, print_lines_lem k t r (omega (arith, l))) refl
]

pub print_message_lem :
    (k : ℕ) (s : Text)
    → filled (split_lines s) ≢ []
    → length s < k
    → print_message k s ≡ done (shown s)
unfolding print_message
print_message_lem k s some_line h = elim (strtok_lem s) [
  | inl (e, n) ↦ absurd (some_line n)
  | inr (t, r, e, n, l) ↦ rw (print_message, e, n, print_lines_lem k t r (omega (arith, l))) refl
]
