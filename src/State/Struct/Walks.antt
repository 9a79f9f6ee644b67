-- ===== src/State/Struct/Walks.antt =====
-- What the loops of the program see of a piler in memory.
use mathlib.Core.List.{reverse}
use cplr.Base.{
  ℕ, zero, suc, ◌<◌, ◌≡◌, refl, sym, ap, ◌∙◌, subst, true, Bool-cases, inl, inr, some, List, [],
  ◌∷◌, map, length, arith,
}
use cplr.Base.Outcome.{done}
use cplr.Base.Text.{Text}
use cplr.State.Context.{Cplr, Ptr}
use cplr.Cext.Memory.{Memory}
use cplr.Cext.List.Shape.{IsList, texts}
use cplr.Cext.List.Walk.{l_forward, l_backwards, l_forward-l_backwards}
use cplr.State.Struct
use cplr.State.Struct.{Pile, Heads, Fields, pile_number, same_pile, head_at, managed}
use cplr.State.Struct.Frame.{Blocks, among_piles, Short, Piles}
use cplr.State.Struct.Free.{IsHeld}
use cplr.State.Struct.Refines.{pile_of, StandFor}

-- The piles in the order of their numbers.
abbrev piles_in_order : List Pile
piles_in_order =
    Struct.optf ∷ Struct.optm ∷ Struct.defdef ∷ Struct.defsys ∷ Struct.sysdirs ∷ Struct.incdirs
    ∷ Struct.libdirs ∷ Struct.defs ∷ Struct.syss ∷ Struct.incs ∷ Struct.libs ∷ Struct.pkgs
    ∷ Struct.tlds ∷ Struct.srcs ∷ Struct.tlfs ∷ Struct.stms ∷ Struct.befs ∷ Struct.afts ∷ []

abbrev nth_pile : ℕ → List Pile → Pile
nth_pile n [] = Struct.optf
nth_pile zero (p ∷ ps) = p
nth_pile (suc n) (p ∷ ps) = nth_pile n ps

abbrev pile_at : ℕ → Pile
pile_at n = nth_pile n piles_in_order

pile_at-pile_number : (p : Pile) → pile_at (pile_number p) ≡ p
pile_at-pile_number Struct.optf = refl
pile_at-pile_number Struct.optm = refl
pile_at-pile_number Struct.defdef = refl
pile_at-pile_number Struct.defsys = refl
pile_at-pile_number Struct.sysdirs = refl
pile_at-pile_number Struct.incdirs = refl
pile_at-pile_number Struct.libdirs = refl
pile_at-pile_number Struct.defs = refl
pile_at-pile_number Struct.syss = refl
pile_at-pile_number Struct.incs = refl
pile_at-pile_number Struct.libs = refl
pile_at-pile_number Struct.pkgs = refl
pile_at-pile_number Struct.tlds = refl
pile_at-pile_number Struct.srcs = refl
pile_at-pile_number Struct.tlfs = refl
pile_at-pile_number Struct.stms = refl
pile_at-pile_number Struct.befs = refl
pile_at-pile_number Struct.afts = refl

pub same_pile_eq : (p q : Pile) → same_pile p q ≡ true → p ≡ q
same_pile_eq p q h =
    let e : pile_number p ≡ pile_number q = ground arith in
    sym (pile_at-pile_number p) ∙ (ap pile_at e ∙ pile_at-pile_number q)

module _ {T : Type 0} (d : Cplr T) (m : Memory) (self : Ptr) (es : Blocks) (hs : Heads)
    (k : ℕ) where
  -- One of the piles.
  one_of :
      (ps : List Pile) (p : Pile)
      → among_piles ps p ≡ true
      → Piles self es m hs ps
      → StandFor d es ps
      → Short k es ps
      → IsList m (head_at self p) (hs p) (es p)
        × (map some (texts (es p)) ≡ pile_of d p)
        × (length (es p) < k)
  one_of [] p h l s o = absurd (cc)
  one_of (q ∷ ps) p h (l, ls) (s, ss) (o, os) = elim (Bool-cases (same_pile p q)) [
    | inl same ↦
        subst
          (λ p.
            IsList m (head_at self p) (hs p) (es p)
            × (map some (texts (es p)) ≡ pile_of d p)
            × (length (es p) < k))
          (sym (same_pile_eq p q same)) (l, s, o)
    | inr other ↦ one_of ps p (ground arith) ls ss os
  ]

module _ {T : Type 0} (m : Memory) (self : Ptr) (c : Fields) (es : Blocks)
    (h : IsHeld m self c es) where
  -- Of a piler in memory that stands for a record, with more fuel than nodes in any pile, a loop over
  -- a pile that `cplr_free` clears returns: forwards it gives the pile of the record, and
  -- backwards the same the other way round.
  pub walk-StandFor :
      (d : Cplr T) (k : ℕ) (p : Pile)
      → StandFor d es managed
      → Short k es managed
      → among_piles managed p ≡ true
      → (ts : List Text) × (l_forward k (c.heads p) m ≡ done ts)
        × (l_backwards k (c.heads p) m ≡ done (reverse ts))
        × (map some ts ≡ pile_of d p)
  walk-StandFor d k p s short among =
      let (l, e, o) = one_of d m self es c.heads k managed p among h.piles s short in
      let (f, b) = l_forward-l_backwards m (head_at self p) k (c.heads p) (es p) l o in
      (texts (es p), f, b, e)
