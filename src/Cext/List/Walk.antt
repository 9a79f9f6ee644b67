-- ===== src/Cext/List/Walk.antt =====
-- The loops over the nodes of a list, `L_FORWARD` and `L_BACKWARDS` of include/cext/list.h, as the
-- program has them: each node's value is read by `value_get_str`.
use mathlib.Core.List.{reverse, reverse-cons}
use cplr.Base.{
  ℕ, zero, suc, ◌+◌, ◌-◌, ◌<◌, ◌≡◌, refl, sym, ap, ◌∙◌, List, [], ◌∷◌, ◌++◌, append-nil,
  append_assoc, length, arith, ◌==◌, false, if◌then◌else◌,
}
use cplr.Base.Outcome.{Outcome, done, out_of_fuel, ◌>>=◌}
use cplr.Base.Text.{Text}
use cplr.State.Context.{Ptr, null}
use cplr.Cext.Memory.{Memory, Node, read_node, read_text}
use cplr.Cext.Value.{value_get_str}
use cplr.Cext.Value.Strings.{value_get_str-string, read_text-text_cell}
use cplr.Cext.List.{Head}
use cplr.Cext.List.Shape.{Entry, Linked, IsList, texts, first_of, last_of}

-- The texts that the body of the loop is given, by the field that leads to the next node.
unfoldable pub walk : (Node → Ptr) → ℕ → Ptr → Memory → Outcome (List Text)
unfolding read_node value_get_str read_text
walk step zero p m = out_of_fuel
walk step (suc k) p m = if p == null then done [] else (do
  n ← read_node p m
  q ← value_get_str n.v
  s ← read_text q m
  rest ← walk step k (step n) m
  done (s ∷ rest))

unfoldable pub l_forward : ℕ → Head → Memory → Outcome (List Text)
unfolding walk
l_forward k lh m = walk (λ (n : Node). n.next) k lh.first m

unfoldable pub l_backwards : ℕ → Head → Memory → Outcome (List Text)
unfolding walk
l_backwards k lh m = walk (λ (n : Node). n.prev) k lh.last m

module _ (m : Memory) (at : Ptr) where
  forward_lem :
      (k : ℕ) (prev : Ptr) (es : List Entry)
      → Linked m at prev null es
      → length es < k
      → walk (λ (n : Node). n.next) k (first_of es null) m ≡ done (texts es)
  unfolding walk read_node
  forward_lem zero prev es l h = absurd (omega arith)
  forward_lem (suc k) prev [] l h = refl
  forward_lem (suc k) prev (e ∷ es) (n, p, s, t, l) h =
      let not_null : (e.place == null) ≡ false = ground arith in
      rw
        (
          not_null,
          p,
          value_get_str-string e.kind e.str,
          read_text-text_cell m e.str e.text e.kind t,
          forward_lem k e.place es l (omega arith),
        )
        refl

  -- From the last of the entries back to what is in front of them.
  backward_lem :
      (k : ℕ) (prev stop : Ptr) (es : List Entry) (ss : List Text)
      → Linked m at prev stop es
      → walk (λ (n : Node). n.prev) k prev m ≡ done ss
      → walk (λ (n : Node). n.prev) (length es + k) (last_of prev es) m
        ≡ done (reverse (texts es) ++ ss)
  unfolding walk read_node
  backward_lem k prev stop [] ss l h =
      let none_more : 0 + k ≡ k = omega arith in
      ap (λ i. walk (λ (n : Node). n.prev) i prev m) none_more ∙ h
  backward_lem k prev stop (e ∷ es) ss (n, p, s, t, l) h =
      let not_null : (e.place == null) ≡ false = ground arith in
      let here : walk (λ (n : Node). n.prev) (suc k) e.place m ≡ done (e.text ∷ ss) =
        rw
          (
            not_null,
            p,
            value_get_str-string e.kind e.str,
            read_text-text_cell m e.str e.text e.kind t,
            h,
          )
          refl in
      let fuel : length es + suc k ≡ length (e ∷ es) + k = omega arith in
      ap (λ i. walk (λ (n : Node). n.prev) i (last_of e.place es) m) (sym fuel)
      ∙ (backward_lem (suc k) e.place stop es (e.text ∷ ss) l here
          ∙ ap (λ ts. done ts)
              (sym (
                ap (λ ts. ts ++ ss) (reverse-cons e.text (texts es))
                ∙ append_assoc (reverse (texts es)) (e.text ∷ []) ss)))

  -- With more fuel than nodes, the loops over a list of strings return, and give their texts in
  -- their order and in the other one.
  pub l_forward-l_backwards :
      (k : ℕ) (lh : Head) (es : List Entry)
      → IsList m at lh es
      → length es < k
      → (l_forward k lh m ≡ done (texts es)) × (l_backwards k lh m ≡ done (reverse (texts es)))
  unfolding l_forward l_backwards walk
  l_forward-l_backwards k lh es l h =
      let fuel : k ≡ length es + suc (k - length es - 1) = omega arith in
      (
        ap (λ p. walk (λ (n : Node). n.next) k p m) l.begins ∙ forward_lem k null es l.linked h,
        ap (λ p. walk (λ (n : Node). n.prev) k p m) l.ends
            ∙ (ap (λ i. walk (λ (n : Node). n.prev) i (last_of null es) m) fuel
                ∙ (backward_lem (suc (k - length es - 1)) null null es [] l.linked refl
                    ∙ ap (λ ts. done ts) (append-nil (reverse (texts es))))),
      )
