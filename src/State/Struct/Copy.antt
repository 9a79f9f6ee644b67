-- ===== src/State/Struct/Copy.antt =====
-- Copying piles from one piler in memory to another.
use cplr.Base.{
  ℕ, ◌≡◌, ◌≢◌, refl, sym, ap, ◌∙◌, subst, Bool, true, false, none, List, [], ◌∷◌, Bool-cases, inl,
  inr, arith, if◌then◌else◌,
}
use cplr.Base.Outcome.{Returns, returns, Returns-bind, Returns-mono}
use cplr.State.Context.{Ptr, null}
use cplr.Cext.Memory.{Memory, lookup, Allocator}
use cplr.Cext.List.{Head}
use cplr.Cext.List.Shape.{Entry, owns, IsList, texts}
use cplr.Cext.List.Patch.{Keeps, cell_ne_none, Linked-Keeps}
use cplr.Cext.List.Clone.{IsCopy, l_clone-IsCopy}
use cplr.State.Struct.{Pile, Heads, same_pile, set_head, head_at, clone_piles}
use cplr.State.Struct.Frame.{
  Blocks, owned_by, among_piles, distinct, ApartPiles, Short, owns-IsBlock, Piles,
}

pub IsList-Keeps :
    (m m' : Memory) (at : Ptr) (lh : Head) (es : List Entry)
    → Keeps m m'
    → IsList m at lh es
    → IsList m' at lh es
IsList-Keeps m m' at lh es k l = record {
  counted = l.counted;
  begins = l.begins;
  ends = l.ends;
  linked = Linked-Keeps m m' at null null es k l.linked;
  apart = l.apart;
}

pub Piles-Keeps :
    (self : Ptr) (es : Blocks) (m m' : Memory) (hs : Heads) (ps : List Pile)
    → Keeps m m'
    → Piles self es m hs ps
    → Piles self es m' hs ps
Piles-Keeps self es m m' hs [] k l = tt
Piles-Keeps self es m m' hs (p ∷ ps) k (l, ls) =
    (IsList-Keeps m m' (head_at self p) (hs p) (es p) k l, Piles-Keeps self es m m' hs ps k ls)

abbrev pub set_blocks : Pile → List Entry → Blocks → Blocks
set_blocks p e gs q = if same_pile q p then e else gs q

abbrev pub SameTexts : Blocks → Blocks → List Pile → Type 0
SameTexts es gs [] = Unit
SameTexts es gs (p ∷ ps) = (texts (gs p) ≡ texts (es p)) × SameTexts es gs ps

-- Copies of some piles, in blocks that were not in use; all else is as it was.
pub record CopiedPiles (r : Ptr) (es : Blocks) (m : Memory) (dst : Heads) (gs₀ : Blocks)
    (ps : List Pile) (x : Heads × Memory) : Type 0 where
  pub gs : Blocks
  pub piles : Piles r gs x.1 x.0 ps
  pub apart : ApartPiles gs ps
  pub same : SameTexts es gs ps
  pub fresh : (a : Ptr) → owned_by gs ps a ≡ true → lookup a m ≡ none
  pub rest : (a : Ptr) → owned_by gs ps a ≡ false → lookup a x.1 ≡ lookup a m
  pub other_blocks : (q : Pile) → among_piles ps q ≡ false → gs q ≡ gs₀ q
  pub other_heads : (q : Pile) → among_piles ps q ≡ false → x.0 q ≡ dst q

-- New blocks leave what is in use.
pub fresh-Keeps :
    (f : Ptr → Bool) (m m' : Memory)
    → ((a : Ptr) → f a ≡ true → lookup a m ≡ none)
    → ((a : Ptr) → f a ≡ false → lookup a m' ≡ lookup a m)
    → Keeps m m'
fresh-Keeps f m m' fresh rest a used = elim (Bool-cases (f a)) [
  | inl new ↦ absurd (used (fresh a new))
  | inr old ↦ rest a old
]

pub used_out :
    (f : Ptr → Bool) (m : Memory) (a : Ptr)
    → ((a : Ptr) → f a ≡ true → lookup a m ≡ none)
    → lookup a m ≢ none
    → f a ≡ false
used_out f m a fresh used = elim (Bool-cases (f a)) [
  | inl new ↦ absurd (used (fresh a new))
  | inr old ↦ old
]

module _ (A : Allocator) (self r : Ptr) (es : Blocks) (k : ℕ) (src : Heads) where
  -- A pile that is copied in front of the others.
  copied_more :
      (p : Pile) (ps : List Pile) (m m₁ : Memory) (dst : Heads) (gs₀ : Blocks) (h : Head)
      (x : Heads × Memory)
      → among_piles ps p ≡ false
      → (c : IsCopy A m (head_at r p) (texts (es p)) (h, m₁))
      → CopiedPiles r es m₁ (set_head p h dst) (set_blocks p c.gs gs₀) ps x
      → CopiedPiles r es m dst gs₀ (p ∷ ps) x
  copied_more p ps m m₁ dst gs₀ h x out c o =
      let self_same : same_pile p p ≡ true = ground arith in
      let mine : o.gs p ≡ c.gs = o.other_blocks p out ∙ rw self_same refl in
      let head : x.0 p ≡ h = o.other_heads p out ∙ rw self_same refl in
      let l = c.stands.0 in
      let keeps = fresh-Keeps (owned_by o.gs ps) m₁ x.1 o.fresh o.rest in
      record {
        gs = o.gs;
        piles = (
          subst (λ (y : Head × List Entry). IsList x.1 (head_at r p) y.0 y.1)
              (λ i. (sym head i, sym mine i)) (IsList-Keeps m₁ x.1 (head_at r p) h c.gs keeps l),
          o.piles,
        );
        apart = (
          (λ a b.
              let block =
                owns-IsBlock m₁ (head_at r p) null null c.gs a l.linked
                  (sym (ap (λ g. owns g a) mine) ∙ b) in
              used_out (owned_by o.gs ps) m₁ a o.fresh (cell_ne_none block.found)),
          o.apart,
        );
        same = (ap texts mine ∙ c.stands.1, o.same);
        fresh = λ a b. elim (Bool-cases (owns c.gs a)) [
          | inl new ↦ c.fresh a new
          | inr old ↦
              let there : owned_by o.gs ps a ≡ true = ground (arith, ap (λ g. owns g a) mine) in
              sym (c.rest a old) ∙ o.fresh a there
        ];
        rest = λ a b.
            let first : owns c.gs a ≡ false = ground (arith, ap (λ g. owns g a) mine) in
            o.rest a (ground arith) ∙ c.rest a first;
        other_blocks = λ q b.
            let apart : same_pile q p ≡ false = ground arith in
            o.other_blocks q (ground arith) ∙ rw apart refl;
        other_heads = λ q b.
            let apart : same_pile q p ≡ false = ground arith in
            o.other_heads q (ground arith) ∙ rw apart refl;
      }

  pub clone_piles-CopiedPiles :
      (ps : List Pile) (dst : Heads) (gs₀ : Blocks) (m : Memory)
      → Short k es ps
      → distinct ps ≡ true
      → Piles self es m src ps
      → Returns (CopiedPiles r es m dst gs₀ ps) (clone_piles A k ps r src dst m)
  unfolding clone_piles
  clone_piles-CopiedPiles [] dst gs₀ m short d l = returns (record {
    gs = gs₀;
    piles = tt;
    apart = tt;
    same = tt;
    fresh = λ a h. cc;
    rest = λ a h. refl;
    other_blocks = λ q h. refl;
    other_heads = λ q h. refl;
  })
  clone_piles-CopiedPiles (p ∷ ps) dst gs₀ m (enough, short) d (l, ls) =
      Returns-bind
        (l_clone-IsCopy A m (head_at r p) k (head_at self p) (src p) (texts (es p)) (es p) (l, refl)
          enough)
        λ (h, m₁) (c, kept).
          Returns-mono
            (clone_piles-CopiedPiles ps (set_head p h dst) (set_blocks p c.gs gs₀) m₁ short
              (ground arith) (Piles-Keeps self es m m₁ src ps c.kept ls))
            λ x o. copied_more p ps m m₁ dst gs₀ h x (ground arith) c o
