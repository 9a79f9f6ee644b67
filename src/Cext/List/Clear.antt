-- ===== src/Cext/List/Clear.antt =====
-- Clearing a list in memory gives back each node and each string that is owned, once.
use cplr.Base.{
  ℕ, zero, suc, ◌<◌, ◌≡◌, refl, ap, ◌∙◌, Bool, true, false, ◌&&◌, ◌||◌, Option, none, some, List,
  [], ◌∷◌, length, ◌==◌, arith, if◌then◌else◌,
}
use cplr.Base.Outcome.{Returns, returns, Returns-bind, Returns-mono}
use cplr.State.Context.{Ptr, null}
use cplr.Cext.Memory.{Node, Memory, Cell, node, lookup, write, read_node}
use cplr.Cext.Value.{empty_value}
use cplr.Cext.Value.Strings.{
  Kind, owned, static, copied, is_owned, text_cell, without, value_clear-string,
}
use cplr.Cext.List.{Head, clear_nodes, l_clear}
use cplr.Cext.List.Shape.{
  Entry, first_of, node_of, Linked, owns, Apart, IsList, Linked-write, reaches-block,
}

module _ (at : Ptr) where
  -- The string of the first entry is given back.
  Linked-without :
      (m : Memory) (prev : Ptr) (e : Entry) (es : List Entry)
      → Linked m at e.place null es
      → lookup e.str m ≡ some (text_cell e.kind e.text)
      → (is_owned e.kind ≡ true → owns es e.str ≡ false)
      → Linked (without e.kind e.str m) at e.place null es
  Linked-without m prev e es l t h = go e.kind t h
    where
      go :
          (k : Kind)
          → lookup e.str m ≡ some (text_cell k e.text)
          → (is_owned k ≡ true → owns es e.str ≡ false)
          → Linked (without k e.str m) at e.place null es
      go owned t h =
          Linked-write m at null e.place es e.str none
            (reaches-block m at null e.place es e.str l t (λ s i. cc) (h refl)) l
      go static t h = l
      go copied t h =
          Linked-write m at null e.place es e.str none
            (reaches-block m at null e.place es e.str l t (λ s i. cc) (h refl)) l

  -- The memory behind one round of the loop.
  abbrev after_round : Node → Entry → Memory → Memory
  after_round n e m =
      write e.place none
        (write e.place (some (node (record n { v = empty_value }))) (without e.kind e.str m))

  lookup-after_round :
      (n : Node) (e : Entry) (m : Memory) (a : Ptr)
      → lookup a (after_round n e m)
        ≡ (if (a == e.place) || (is_owned e.kind && (a == e.str)) then none else lookup a m)
  lookup-after_round n e m a = go e.kind
    where
      go :
          (k : Kind)
          → lookup a (
              write e.place none
                (write e.place (some (node (record n { v = empty_value }))) (without k e.str m)))
            ≡ (if (a == e.place) || (is_owned k && (a == e.str)) then none else lookup a m)
      go owned = ground arith
      go static = ground arith
      go copied = ground arith

  if_more :
      (x y b : Bool) (c : Option Cell)
      → (if b then none else (if x || y then none else c)) ≡ (if x || (y || b) then none else c)
  if_more true y true c = refl
  if_more true y false c = refl
  if_more false true true c = refl
  if_more false true false c = refl
  if_more false false b c = refl

  -- Each block of the entries is given back, and all other memory is as it was.
  abbrev pub Cleared : Memory → List Entry → Memory → Type 0
  Cleared m es m' = (a : Ptr) → lookup a m' ≡ (if owns es a then none else lookup a m)

  clear_nodes-Cleared :
      (k : ℕ) (m : Memory) (prev : Ptr) (es : List Entry)
      → Linked m at prev null es
      → Apart es
      → length es < k
      → Returns (Cleared m es) (clear_nodes k (first_of es null) m)
  unfolding clear_nodes read_node
  clear_nodes-Cleared zero m prev es l h lt = absurd (omega arith)
  clear_nodes-Cleared (suc k) m prev [] l h lt = returns (λ a. refl)
  clear_nodes-Cleared (suc k) m prev (e ∷ es) (n, p, s, t, l) h lt =
      let round = node_of at prev (first_of es null) e in
      let m₂ =
        write e.place (some (node (record round { v = empty_value }))) (without e.kind e.str m) in
      let l₁ = Linked-without m prev e es l t h.1 in
      let out = reaches-block m at null e.place es e.place l p (λ s i. cc) h.0 in
      let l₂ =
        Linked-write (without e.kind e.str m) at null e.place es e.place
          (some (node (record round { v = empty_value }))) out l₁ in
      let l₃ = Linked-write m₂ at null e.place es e.place none out l₂ in
      let not_null : (e.place == null) ≡ false = ground arith in
      let clears = value_clear-string m e.str e.text e.kind s t in
      let same : (e.place == e.place) ≡ true = ground arith in
      rw (not_null, p, clears, same)
        (Returns-mono
          (clear_nodes-Cleared k (write e.place none m₂) e.place es l₃ h.2 (omega arith))
          λ m' c a.
            c a
            ∙ (ap (λ (o : Option Cell). if owns es a then none else o)
                  (lookup-after_round round e m a)
                ∙ if_more (a == e.place) (is_owned e.kind && (a == e.str)) (owns es a)
                    (lookup a m)))

  -- With more fuel than nodes, `l_clear` of a list of strings returns: the head is that of an
  -- empty list, each node and each string that is owned is given back, no block twice, and all
  -- other memory is as it was.
  pub l_clear-Cleared :
      (k : ℕ) (m : Memory) (lh : Head) (es : List Entry)
      → IsList m at lh es
      → length es < k
      → Returns
          (λ (lh', m'). (lh' ≡ record { count = 0; first = null; last = null }) × Cleared m es m')
          (l_clear k lh m)
  unfolding l_clear
  l_clear-Cleared k m lh es l lt =
      rw l.begins (
        Returns-bind (clear_nodes-Cleared k m null es l.linked l.apart lt)
          λ m' c. returns (refl, c))
