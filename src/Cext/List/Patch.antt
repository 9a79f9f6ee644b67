-- ===== src/Cext/List/Patch.antt =====
-- One node more in a copy of a list: the link that leads to it.
use cplr.Base.{
  ◌≡◌, ◌≢◌, refl, sym, ap, ◌∙◌, true, false, Option, none, some, List, [], ◌∷◌, ◌==◌, arith,
  if◌then◌else◌,
}
use cplr.Base.Outcome.{done, Returns, returns}
use cplr.Base.Text.{Text}
use cplr.State.Context.{Ptr, null}
use cplr.Cext.Memory.{
  Memory, Cell, heap_text, node, lookup, write, lookup-write, lookup-write_self, read_node,
  Allocator, empty_node,
}
use cplr.Cext.Value.Strings.{Kind, owned, static, copied, text_cell, copy_of}
use cplr.Cext.List.{set_next}
use cplr.Cext.List.Shape.{
  Entry, last_of, Linked, owns, Apart, Linked-write, reaches-unused, owns_ne,
}
use cplr.Cext.List.Append.{relink, last_of-ne-null}
use cplr.Cext.List.Piles.{owns-reaches}

-- What is in use stays as it is.
abbrev pub Keeps : Memory → Memory → Type 0
Keeps m₀ m = (a : Ptr) → lookup a m₀ ≢ none → lookup a m ≡ lookup a m₀

pub cell_ne_none : {o : Option Cell} {c : Cell} → o ≡ some c → o ≢ none
cell_ne_none e n = cc

pub Linked-Keeps :
    (m₀ m : Memory) (at prev stop : Ptr) (es : List Entry)
    → Keeps m₀ m
    → Linked m₀ at prev stop es
    → Linked m at prev stop es
Linked-Keeps m₀ m at prev stop [] k l = tt
Linked-Keeps m₀ m at prev stop (e ∷ es) k (n, p, s, t, l) = (
  n,
  k e.place (cell_ne_none p) ∙ p,
  s,
  k e.str (cell_ne_none t) ∙ t,
  Linked-Keeps m₀ m at e.place stop es k l,
)

-- The nodes that have been copied so far.
pub record Copied (m₀ m : Memory) (at : Ptr) (fs : List Entry) : Type 0 where
  pub linked : Linked m at null null fs
  pub apart : Apart fs
  pub kept : Keeps m₀ m
  pub fresh : (a : Ptr) → owns fs a ≡ true → lookup a m₀ ≡ none
  pub rest : (a : Ptr) → owns fs a ≡ false → lookup a m ≡ lookup a m₀

-- The link to the node that has been allocated for the next copy.
pub record Patched (m₀ m : Memory) (at p : Ptr) (fs : List Entry) (m₃ : Memory) : Type 0 where
  pub linked : Linked m₃ at null p fs
  pub new : lookup p m₃ ≡ some (node (record empty_node { head = at; prev = last_of null fs }))
  pub kept : Keeps m₀ m₃
  pub rest : (a : Ptr) → a ≢ p → owns fs a ≡ false → lookup a m₃ ≡ lookup a m₀

pub text_cell-copy_of : (k : Kind) (s : Text) → text_cell (copy_of k) s ≡ heap_text s
text_cell-copy_of owned s = refl
text_cell-copy_of static s = refl
text_cell-copy_of copied s = refl

owns-Keeps :
    (m₀ m : Memory) (fs : List Entry) (b : Ptr) (x : Cell)
    → ((a : Ptr) → owns fs a ≡ true → lookup a m₀ ≡ none)
    → owns fs b ≡ true
    → Keeps m₀ m
    → Keeps m₀ (write b (some x) m)
owns-Keeps m₀ m fs b x fresh mine k a h =
    lookup-write a b (some x) m (λ i. h (fresh a (ap (owns fs) i ∙ mine))) ∙ k a h

pub unused-Keeps :
    (m₀ m : Memory) (b : Ptr) (x : Cell)
    → lookup b m₀ ≡ none
    → Keeps m₀ m
    → Keeps m₀ (write b (some x) m)
unused-Keeps m₀ m b x unused k a h =
    lookup-write a b (some x) m (λ i. h (ap (λ a. lookup a m₀) i ∙ unused)) ∙ k a h

-- What is not in use now was not in use before.
pub unused_before : (m₀ m : Memory) (b : Ptr) → Keeps m₀ m → lookup b m ≡ none → lookup b m₀ ≡ none
unused_before m₀ m b k u = go (lookup b m₀) refl
  where
    go : (o : Option Cell) → lookup b m₀ ≡ o → lookup b m₀ ≡ none
    go none e = e
    go (some c) e = absurd (cell_ne_none e (sym (k b (cell_ne_none e)) ∙ u))

module _ (A : Allocator) (m₀ : Memory) (at : Ptr) where
  pub patch :
      (m : Memory) (fs : List Entry)
      → Copied m₀ m at fs
      → Returns (Patched m₀ m at (A.malloc m) fs) (
          if last_of null fs == null
          then done (
              write
                (A.malloc m)
                (some (node (record empty_node { head = at; prev = last_of null fs })))
                (write (A.malloc m) (some (node empty_node)) m))
          else set_next (last_of null fs) (A.malloc m) (
              write
                (A.malloc m)
                (some (node (record empty_node { head = at; prev = last_of null fs })))
                (write (A.malloc m) (some (node empty_node)) m)))
  unfolding set_next read_node
  patch m [] c =
      let p = A.malloc m in
      let unused = unused_before m₀ m p c.kept (A.malloc_unused m) in
      let m₁ = write p (some (node empty_node)) m in
      let x = node (record empty_node { head = at; prev = null }) in
      returns (record {
        linked = tt;
        new = lookup-write_self p (some x) m₁;
        kept = unused-Keeps m₀ m₁ p x unused (unused-Keeps m₀ m p (node empty_node) unused c.kept);
        rest = λ a h o.
            lookup-write a p (some x) m₁ h
            ∙ (lookup-write a p (some (node empty_node)) m h ∙ c.rest a o);
      })
  patch m (f ∷ fs) c =
      let p = A.malloc m in
      let last = last_of f.place fs in
      let unused = unused_before m₀ m p c.kept (A.malloc_unused m) in
      let m₁ = write p (some (node empty_node)) m in
      let x = node (record empty_node { head = at; prev = last }) in
      let m₂ = write p (some x) m₁ in
      let far = reaches-unused m at null null (f ∷ fs) p c.linked (A.malloc_unused m) in
      let l₂ =
        Linked-write m₁ at null null (f ∷ fs) p (some x) far
          (Linked-write m at null null (f ∷ fs) p (some (node empty_node)) far c.linked) in
      let r = relink m₂ at null p null f fs l₂ c.apart in
      let not_null : (last == null) ≡ false =
        ground (arith, last_of-ne-null m at null null f fs c.linked) in
      let y = node (record r.n { next = p }) in
      let apart = owns_ne (f ∷ fs) p last (owns-reaches (f ∷ fs) p far) r.mine in
      rw (not_null, r.found)
        (returns (record {
          linked = r.relinked;
          new = lookup-write p last (some y) m₂ apart ∙ lookup-write_self p (some x) m₁;
          kept =
              owns-Keeps m₀ m₂ (f ∷ fs) last y c.fresh r.mine (
                unused-Keeps m₀ m₁ p x unused
                  (unused-Keeps m₀ m p (node empty_node) unused c.kept));
          rest = λ a h o.
              lookup-write a last (some y) m₂ (owns_ne (f ∷ fs) a last o r.mine)
              ∙ (lookup-write a p (some x) m₁ h
                  ∙ (lookup-write a p (some (node empty_node)) m h ∙ c.rest a o));
        }))
