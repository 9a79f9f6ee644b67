-- ===== src/Command/Print.antt =====
-- What the commands on the pilers print: the part of source/cplr_command.c behind "Printing".
use mathlib.Core.List.{reverse}
use cplr.Base.{
  ℕ, zero, suc, ◌+◌, Bool, true, false, not, ◌||◌, Option, none, some, List, [], ◌∷◌, ◌++◌,
  is_empty, ◌==◌, if◌then◌else◌,
}
use cplr.Base.Outcome.{Outcome, done, out_of_fuel, ◌>>=◌}
use cplr.Base.Text.{Text, lit, begins_with}
use cplr.Base.Decimal.{decimal}
use cplr.Cext.Strings.{strprefix, strsuffix}
use cplr.State.Enums.{Flags}
use cplr.State.Context.{Cplr, Ptr, null, cplr_empty}
use cplr.State.Chain.{Store, load, cplr_find_syms}
use cplr.Tcc.{Tcc}

-- The loop over a pile: a compact one is on a line, else each string has a line with its number.
unfoldable pub print_items : (index : ℕ) → Text → (compact : Bool) → ℕ → List Text → Text
print_items index name compact i [] = []
print_items index name compact i (x ∷ xs) =
    let rest = print_items index name compact (i + 1) xs in
    if compact
    then (b' ' ∷ x) ++ rest
    else (b'c' ∷ decimal index) ++ (name ++ (decimal i ++ (lit ": " ++ (x ++ (b'\n' ∷ rest)))))

-- `print_pile`; its result is not used.
unfoldable pub print_pile : (index : ℕ) → Text → List Text → (compact backwards : Bool) → Text
unfolding print_items
print_pile index name list compact backwards =
    let items = print_items index name compact 0 (if backwards then reverse list else list) in
    if is_empty list
    then []
    else if compact
    then (b'c' ∷ decimal index) ++ ((b'-' ∷ name) ++ (b':' ∷ (items ++ lit "\n")))
    else items

-- The word for a flag that is set.
abbrev pub word : Bool → Text → Text
word true s = b' ' ∷ s
word false s = []

unfoldable pub opts_line : Flags → Text
opts_line f =
    lit "opts:"
    ++ (word f.nodefaults (lit "nodefaults")
        ++ (word f.nocompile (lit "norun")
            ++ (word f.nolink (lit "nolink")
                ++ (word f.norun (lit "norun")
                    ++ (word f.fork (lit "fork")
                        ++ (word f.interactive (lit "interactive") ++ lit "\n"))))))

-- `%-4s`
unfoldable pub left_4 : Text → Text
left_4 (a ∷ b ∷ c ∷ d ∷ s) = a ∷ b ∷ c ∷ d ∷ s
left_4 (a ∷ b ∷ c ∷ []) = a ∷ b ∷ c ∷ lit " "
left_4 (a ∷ b ∷ []) = a ∷ b ∷ lit "  "
left_4 (a ∷ []) = a ∷ lit "   "
left_4 [] = lit "    "

-- The names and helps of the table of commands.
abbrev pub command_helps : List (Text × Text)
command_helps =
    (lit "l", lit "List code")
    ∷ (lit "y", lit "List syms")
    ∷ (lit "d", lit "Show dump")
    ∷ (lit "o", lit "Show opts")
    ∷ (lit "s", lit "Show stat")
    ∷ (lit "?", lit "Show help")
    ∷ (lit "q", lit "Quit")
    ∷ []

unfoldable pub help_lines : List (Text × Text) → Text
unfolding left_4
help_lines [] = []
help_lines ((name, help) ∷ cs) =
    lit "  \\" ++ (left_4 name ++ ((b' ' ∷ help) ++ (b'\n' ∷ help_lines cs)))

unfoldable pub print_help : Text
unfolding help_lines
print_help =
    lit "\nPrefixes: \n"
    ++ (lit "  \\C    Piler command\n"
        ++ (lit "  !C    System command\n"
            ++ (lit "  @S    Push declaration\n"
                ++ (lit "  ^S    Push toplevel\n"
                    ++ (lit "  <S    Push before\n"
                        ++ (lit "  >S    Push after\n"
                            ++ (lit "  .S    Push statement\n"
                                ++ (lit "  .     Run the pile\n"
                                    ++ (lit "  S     Push and run\n"
                                        ++ (lit "  ?     Show help\n\nCommands: \n"
                                            ++ (help_lines command_helps ++ lit "\n")))))))))))

-- The symbols that `cmd_syms_print_cb` passes over.
unfoldable pub is_hidden : Text → Bool
unfolding begins_with strprefix strsuffix
is_hidden name =
    begins_with name (lit "_") || (strprefix name (lit "tcc_") || strsuffix name (lit "@plt"))

unfoldable pub shown_symbols : List (Text × ℕ) → List (Text × ℕ)
unfolding is_hidden
shown_symbols [] = []
shown_symbols ((name, val) ∷ syms) =
    let rest = shown_symbols syms in if is_hidden name then rest else (name, val) ∷ rest

module _ {T : Type 0} where
  unfoldable pub print_piles : Cplr T → Text
  unfolding print_pile
  print_piles c =
      let pile = print_pile c.c_index in
      pile (lit "p") c.pkgs true false
      ++ (pile (lit "L") c.libdirs true false
          ++ (pile (lit "I") c.incdirs true false
              ++ (pile (lit "l") c.libs true false
                  ++ (pile (lit "i") c.incs true false
                      ++ (pile (lit "s") c.srcs true false
                          ++ (pile (lit "d") c.tlds true false
                              ++ (pile (lit "t") c.tlfs false false
                                  ++ (pile (lit "b") c.befs false false
                                      ++ (pile (lit "s") c.stms false false
                                          ++ pile (lit "a") c.afts false true)))))))))

  -- The options are those of the first piler.
  unfoldable pub cmd_opts_text : Cplr T → Store T → Outcome Text
  unfolding load opts_line
  cmd_opts_text c s = do first ← load s c.c_first; done (opts_line first.flag)

  -- The line of `cmd_stat` for a piler.
  unfoldable pub stat_line : Cplr T → Text
  stat_line c =
      (b'c' ∷ decimal c.c_index)
      ++ (b':'
          ∷ (word c.flag.generated (lit "generated")
              ++ (word c.flag.prepared (lit "prepared")
                  ++ (word c.flag.compiled (lit "compiled")
                      ++ (word c.flag.executed (lit "executed")
                          ++ (word c.flag.finished (lit "finished") ++ lit "\n"))))))

  -- The loop over the pilers from `cur` on, and what it prints for each.
  unfoldable pub print_each : (Cplr T → Text) → ℕ → (cur : Ptr) → Store T → Outcome Text
  unfolding load
  print_each line zero cur s = out_of_fuel
  print_each line (suc k) cur s =
      if cur == null
      then done []
      else (do c ← load s cur; rest ← print_each line k c.c_next s; done (line c ++ rest))

  -- What is printed for a piler by `cmd_list`.
  unfoldable pub list_piler : Cplr T → Text
  unfolding cplr_empty print_piles
  list_piler cur = if not (cplr_empty cur) then print_piles cur else []

  unfoldable pub cmd_list_text : ℕ → Cplr T → Store T → Outcome Text
  unfolding print_each list_piler
  cmd_list_text k c s = print_each list_piler k c.c_first s

  unfoldable pub cmd_stat_text : ℕ → Cplr T → Store T → Outcome Text
  unfolding print_each stat_line
  cmd_stat_text k c s = print_each stat_line k c.c_first s

-- `none` is the message that there are no symbols. How an address is printed is left out.
unfoldable pub cmd_syms_shown :
    (K : Tcc) → ℕ → (at : Ptr) → Store K.State → Outcome (Option (List (Text × ℕ)))
unfolding cplr_find_syms shown_symbols
cmd_syms_shown K k at s = do
  tc ← cplr_find_syms k at s
  done (elim tc as (λ _. Option (List (Text × ℕ))) [
    | none ↦ none
    | some t ↦ some (shown_symbols (K.list_symbols t))
  ])
