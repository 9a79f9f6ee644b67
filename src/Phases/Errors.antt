-- ===== src/Phases/Errors.antt =====
-- `cplr_tcc_error` of source/cplr_prepare.c, the function that libtcc calls with a message.
pub mod Lines
pub mod Reports
use cplr.Base.{
  Bool, false, ◌||◌, ℕ, zero, suc, true, Option, none, some, List, [], ◌∷◌, ◌++◌, ◌==◌,
  if◌then◌else◌,
}
use cplr.Base.Outcome.{Outcome, done, crash, out_of_fuel, ◌>>=◌}
use cplr.Base.Text.{Text, lit}
use cplr.State.Context.{Cplr, Ptr}
use cplr.Tcc.{Tcc}
use cplr.Cext.Memory.{Memory, Allocator, strdup, read_text, cext_free}

abbrev reported : (K : Tcc) → Option K.State → Bool
reported K none = false
reported K (some t) = K.reports t

-- What `cplr_tcc_error` does to the piler when libtcc reports something in the calls of a phase: the
-- flag is set. The function only reads it to print its heading once.
abbrev pub note_errors : (K : Tcc) → Cplr K.State → Cplr K.State
note_errors K c = record c { tccerr = c.tccerr || reported K c.tcc }

-- `strtok_r` for newlines, on what is left of a text: it skips them, and none is left when the text
-- ends there; else it returns the text in front of the next one and what is behind that.
unfoldable pub skip_newlines : Text → Text
skip_newlines [] = []
skip_newlines (a ∷ s) = let rest = skip_newlines s in if a == 10 then rest else a ∷ s

unfoldable pub to_newline : Text → Text × Text
to_newline [] = ([], [])
to_newline (a ∷ s) = let rest = to_newline s in if a == 10 then ([], s) else (a ∷ rest.0, rest.1)

unfoldable pub strtok : Text → Option (Text × Text)
unfolding skip_newlines to_newline
strtok s = elim (skip_newlines s) [ [] ↦ none | a ∷ t ↦ some (to_newline (a ∷ t)) ]

-- `"  %s\n"`
abbrev pub error_line : Text → Text
error_line s = lit "  " ++ (s ++ (10 ∷ []))

-- The loop: a line is printed before the next one is asked for.
unfoldable pub print_lines : ℕ → (cur save : Text) → Outcome Text
unfolding strtok
print_lines zero cur save = out_of_fuel
print_lines (suc k) cur save = elim (strtok save) [
  | none ↦ done (error_line cur)
  | some (next, save') ↦ (do rest ← print_lines k next save'; done (error_line cur ++ rest))
]

-- The first line, where NULL, which `fprintf` must not be given, is taken like any other.
unfoldable pub print_message : ℕ → Text → Outcome Text
unfolding strtok print_lines
print_message k s = elim (strtok s) [ none ↦ crash | some (cur, save) ↦ print_lines k cur save ]

abbrev pub heading : Text
heading = lit "Compiler condition:\n"

module _ {T : Type 0} (A : Allocator) where
  -- What is printed, and the piler; the message is at `p`.
  unfoldable pub cplr_tcc_error : ℕ → Cplr T → Ptr → Memory → Outcome ((Text × Cplr T) × Memory)
  unfolding strdup read_text cext_free print_message
  cplr_tcc_error k c p m = do
    (clone, m₁) ← strdup A p m
    s ← read_text clone m₁
    out ← print_message k s
    m₂ ← cext_free clone m₁
    done (((if c.tccerr then out else heading ++ out), record c { tccerr = true }), m₂)

  -- The messages of a compiler, one after the other.
  unfoldable pub report_all : ℕ → Cplr T → List Ptr → Memory → Outcome ((Text × Cplr T) × Memory)
  unfolding cplr_tcc_error
  report_all k c [] m = done (([], c), m)
  report_all k c (p ∷ ps) m = do
    ((out, c'), m₁) ← cplr_tcc_error k c p m
    ((rest, d), m₂) ← report_all k c' ps m₁
    done ((out ++ rest, d), m₂)
