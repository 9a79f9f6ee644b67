-- ===== src/Optparse/Help.antt =====
-- What `cplr_optparse` prints for help, herald and version: the tables and the functions in front
-- of it in source/cplr_optparse.c.
use cplr.Base.{
  ℕ, zero, suc, ◌+◌, ◌≤◌, ◌≡◌, refl, sym, ap, ◌∙◌, Option, none, some, List, [], ◌∷◌, ◌++◌, snoc,
  length, length-append, append_assoc, arith,
}
use cplr.Base.Outcome.{Outcome, done, crash, ◌>>=◌}
use cplr.Base.Text.{Text, lit}
use cplr.State.Context.{Cplr}

-- `struct option`: the name, if there is one, whether there is an argument, and the letter.
pub record LongOpt : Type 0 where
  pub name : Option Text
  pub has_arg : ℕ
  pub val : ℕ

abbrev named : Text → ℕ → LongOpt
named s v = record { name = some s; has_arg = 0; val = v }

abbrev unnamed : ℕ → ℕ → LongOpt
unnamed n v = record { name = none; has_arg = n; val = v }

-- The rows in front of the last one, which is empty.
abbrev pub longopts : List LongOpt
longopts =
    named (lit "help") b'h'
    ∷ named (lit "herald") b'H'
    ∷ named (lit "version") b'V'
    ∷ named (lit "verbose") b'v'
    ∷ named (lit "dump") b'd'
    ∷ named (lit "noexec") b'n'
    ∷ named (lit "pristine") b'p'
    ∷ named (lit "interactive") b'y'
    ∷ unnamed 1 b'f'
    ∷ unnamed 1 b'm'
    ∷ unnamed 1 b'D'
    ∷ unnamed 1 b'U'
    ∷ unnamed 1 b'I'
    ∷ unnamed 1 b'i'
    ∷ unnamed 1 b'X'
    ∷ unnamed 1 b'x'
    ∷ unnamed 1 b'L'
    ∷ unnamed 1 b'l'
    ∷ unnamed 1 b'P'
    ∷ unnamed 1 b'b'
    ∷ unnamed 1 b'a'
    ∷ unnamed 1 b't'
    ∷ unnamed 1 b's'
    ∷ unnamed 1 b'o'
    ∷ unnamed 0 b'-'
    ∷ []

abbrev pub longhelp : List Text
longhelp =
    lit "show help message"
    ∷ lit "show herald message"
    ∷ lit "show version string"
    ∷ lit "increase verbosity level"
    ∷ lit "increase dump level"
    ∷ lit "inhibit execution"
    ∷ lit "inhibit defaults"
    ∷ lit "run interactor"
    ∷ lit "compiler option"
    ∷ lit "machine option"
    ∷ lit "define cpp symbol"
    ∷ lit "undefine cpp symbol"
    ∷ lit "add include directory"
    ∷ lit "add include"
    ∷ lit "add system include directory"
    ∷ lit "add system include"
    ∷ lit "add library directory"
    ∷ lit "add library"
    ∷ lit "add package"
    ∷ lit "add before statement"
    ∷ lit "add after statement"
    ∷ lit "add toplevel statement"
    ∷ lit "input file (source, object, archive)"
    ∷ lit "output file (executable, object, source, assembly)"
    ∷ lit "begin program arguments"
    ∷ []

-- `%-10s`
abbrev pad : ℕ → Text → Text
pad zero s = s
pad (suc n) [] = b' ' ∷ pad n []
pad (suc n) (a ∷ s) = a ∷ pad n s

-- The line for an option.
unfoldable pub help_row : LongOpt → Text → Text
help_row o help =
    lit "  -"
    ++ (o.val ∷ elim o.name as (λ _. Text) [
      | some s ↦ lit ", --" ++ (pad 10 s ++ (lit "\t" ++ (help ++ lit "\n")))
      | none ↦ lit "\t\t\t" ++ (help ++ lit "\n")
    ])

abbrev row_at : ℕ → List LongOpt → Option LongOpt
row_at i [] = none
row_at zero (o ∷ os) = some o
row_at (suc i) (o ∷ os) = row_at i os

-- A row of the table and what is printed after it.
abbrev row_then : Option LongOpt → Text → Outcome Text → Outcome Text
row_then none help further = crash
row_then (some o) help further = do rest ← further; done (help_row o help ++ rest)

-- The loop over `longhelp`, which reads `longopts` at the same place.
unfoldable pub help_rows : List LongOpt → ℕ → List Text → Outcome Text
unfolding help_row
help_rows opts i [] = done []
help_rows opts i (help ∷ helps) = row_then (row_at i opts) help (help_rows opts (i + 1) helps)

-- `argv[0]`
abbrev pub program_name : List Text → Outcome Text
program_name [] = crash
program_name (s ∷ _) = done s

unfoldable pub show_summary : Text → Text
show_summary name =
    lit "Usage: "
    ++ (name ++ lit " [options] <statement>...\nThe C piler: a tool for executing C code\n\n")

unfoldable pub show_help : {T : Type 0} → Cplr T → Outcome Text
unfolding show_summary help_rows
show_help c = do
  name ← program_name c.argv
  rows ← help_rows longopts 0 longhelp
  done (show_summary name ++ (rows ++ lit "\n"))

unfoldable pub show_copyright : Text
show_copyright =
    lit
      "Copyright (C) 2020-2023 Ingo Albrecht <cplr@promovicz.org>.\nLicensed under the GNU General Public License version 3 or later.\nSee package file COPYING or https://www.gnu.org/licenses/.\n\n"

-- `basename` may change its argument: `left` is what it leaves there.
unfoldable pub show_herald : (left : Text → Text) → {T : Type 0} → Cplr T → Outcome Text
unfolding show_summary show_copyright
show_herald left c = do
  name ← program_name c.argv
  done (
      show_summary (left name)
      ++ (lit
            "Invented around the ides of October anno MMXX.\n\nMay this be as useful for you as it is for me.\n\n"
          ++ show_copyright))

-- The version and the revision are set by the build.
unfoldable pub show_version : (version : Text) → (revision : Option Text) → Text
show_version version none = lit "cplr " ++ (version ++ lit "\n")
show_version version (some revision) =
    lit "cplr " ++ (version ++ (lit "\nGit revision " ++ (revision ++ lit "\n")))

-- A line for each help, with the option of the same place.
abbrev pub rows_of : List LongOpt → List Text → Text
rows_of (o ∷ opts) (help ∷ helps) = help_row o help ++ rows_of opts helps
rows_of _ _ = []

row_at-append :
    (before : List LongOpt) (o : LongOpt) (opts : List LongOpt)
    → row_at (length before) (before ++ (o ∷ opts)) ≡ some o
row_at-append [] o opts = refl
row_at-append (b ∷ before) o opts = row_at-append before o opts

help_rows-rows_of :
    (before opts : List LongOpt) (helps : List Text)
    → length helps ≤ length opts
    → help_rows (before ++ opts) (length before) helps ≡ done (rows_of opts helps)
unfolding help_rows
help_rows-rows_of before [] [] h = refl
help_rows-rows_of before (o ∷ opts) [] h = refl
help_rows-rows_of before [] (help ∷ helps) h = absurd (omega arith)
help_rows-rows_of before (o ∷ opts) (help ∷ helps) h =
    let further = help_rows-rows_of (snoc before o) opts helps (omega arith) in
    let place : length (snoc before o) ≡ length before + 1 = length-append before (o ∷ []) in
    let same = append_assoc before (o ∷ []) opts in
    let rest : help_rows (before ++ (o ∷ opts)) (length before + 1) helps
        ≡ done (rows_of opts helps) =
      sym (ap (λ os. help_rows os (length before + 1) helps) same)
      ∙ (sym (ap (λ i. help_rows (snoc before o ++ opts) i helps) place) ∙ further) in
    rw (row_at-append before o opts, rest) refl

-- With a name of the program, the help is printed, a line for each option with its own text.
show_help-rows_of :
    {T : Type 0} (c : Cplr T) (name : Text) (args : List Text)
    → c.argv ≡ name ∷ args
    → show_help c ≡ done (show_summary name ++ (rows_of longopts longhelp ++ lit "\n"))
unfolding show_help
show_help-rows_of c name args e =
    let rows = help_rows-rows_of [] longopts longhelp (omega arith) in
    ap
      (λ argv. program_name argv >>= λ name.
        help_rows longopts 0 longhelp >>= λ rows. done (show_summary name ++ (rows ++ lit "\n")))
      e
    ∙ ap (λ o. o >>= λ rows. done (show_summary name ++ (rows ++ lit "\n"))) rows
