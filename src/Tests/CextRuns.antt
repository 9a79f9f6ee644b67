-- ===== src/Tests/CextRuns.antt =====
-- Values, strings and lists in a small memory.
use cplr.Base.{◌≡◌, refl, none, some, [], ◌∷◌, arith}
use cplr.Base.Outcome.{done, ◌>>=◌, Returns}
use cplr.Base.Text.{lit}
use cplr.State.Context.{null}
use cplr.Cext.Types
use cplr.Cext.Memory.{Memory, Value, heap_text, static_text, node}
use cplr.Cext.Value.{as_arg, empty_value, value_clear, value_get, value_set}
use cplr.Cext.Value.Laws.{value_get-value_set}
use cplr.Cext.Value.Strings.{owned, string_value}
use cplr.Cext.List.{Head, l_append_str_static, l_append_str_owned, l_clear}
use cplr.Cext.List.Shape.{Entry, IsList, node_of}
use cplr.Cext.List.Piles.{Appends, l_append_str_static-Appends, l_append_str_owned-Appends}
use cplr.Cext.List.Clear.{Cleared, l_clear-Cleared}
use cplr.Tests.Allocation.{bump}

-- An allocated string at 5, and a literal at 6.
abbrev two_texts : Memory
two_texts = (5, some (heap_text (lit "ab"))) ∷ (6, some (static_text (lit "xyz"))) ∷ []

abbrev owner : Value
owner = string_value owned 5

owner_clears : value_clear owner two_texts ≡ done (empty_value, (5, none) ∷ two_texts)
unfolding value_clear
owner_clears = refl

-- 70000 does not fit a `short`: the setter of `long` keeps 4464. The string that the value has owned is given back.
value_get-value_set_example :
    (do (u, _) ← value_set Types.long owner 70000 two_texts; value_get Types.long u) ≡ done 4464
unfolding as_arg
value_get-value_set_example =
    value_get-value_set two_texts owner owner_clears Types.long Types.long 70000

-- The list at 1 with a node at 7, for the string at 5.
abbrev entry : Entry
entry = record { place = 7; kind = owned; str = 5; text = lit "ab" }

abbrev with_list : Memory
with_list = (7, some (node (node_of 1 null null entry))) ∷ two_texts

abbrev one_node : Head
one_node = record { count = 1; first = 7; last = 7 }

with_list-IsList : IsList with_list 1 one_node (entry ∷ [])
with_list-IsList = record {
  counted = refl;
  begins = refl;
  ends = refl;
  linked = ((omega arith), refl, (omega arith), refl, tt);
  apart = (refl, (λ o. refl), tt);
}

l_append_str_static-Appends_example :
    Returns
      (Appends with_list 1 one_node (lit "ab" ∷ []) (lit "xyz") 8)
      (l_append_str_static bump 1 one_node 6 with_list)
l_append_str_static-Appends_example =
    l_append_str_static-Appends bump with_list 1 one_node (lit "ab" ∷ []) (entry ∷ [])
      (with_list-IsList, refl) 6 (lit "xyz") (omega arith) refl

abbrev with_another : Memory
with_another = (9, some (heap_text (lit "c"))) ∷ with_list

with_another-IsList : IsList with_another 1 one_node (entry ∷ [])
with_another-IsList = record {
  counted = refl;
  begins = refl;
  ends = refl;
  linked = ((omega arith), refl, (omega arith), refl, tt);
  apart = (refl, (λ o. refl), tt);
}

l_append_str_owned-Appends_example :
    Returns
      (Appends with_another 1 one_node (lit "ab" ∷ []) (lit "c") 10)
      (l_append_str_owned bump 1 one_node 9 with_another)
l_append_str_owned-Appends_example =
    l_append_str_owned-Appends bump with_another 1 one_node (lit "ab" ∷ []) (entry ∷ [])
      (with_another-IsList, refl) 9 (lit "c") (omega arith) refl refl

l_clear-Cleared_example :
    Returns
      (λ (lh', m').
        (lh' ≡ record { count = 0; first = null; last = null })
        × Cleared 1 with_list (entry ∷ []) m')
      (l_clear 2 one_node with_list)
l_clear-Cleared_example =
    l_clear-Cleared 1 2 with_list one_node (entry ∷ []) with_list-IsList (omega arith)
