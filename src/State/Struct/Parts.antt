-- ===== src/State/Struct/Parts.antt =====
-- Some of the piles of a piler, and the others.
use cplr.Base.{
  ℕ, ◌≡◌, refl, ◌∙◌, Bool, true, false, not, ◌||◌, List, [], ◌∷◌, Bool-cases, inl, inr, arith,
  if◌then◌else◌,
}
use cplr.State.Context.{Ptr, null}
use cplr.Cext.Memory.{Memory}
use cplr.Cext.List.{l_init}
use cplr.Cext.List.Shape.{owns, IsList}
use cplr.State.Struct.{Pile, Heads, head_at}
use cplr.State.Struct.Frame.{Blocks, owned_by, ApartPiles, Short, Piles, IsBlock, owns-IsBlock}

module _ (f : Pile → Bool) where
  -- The piles that meet the test.
  abbrev pub keep : List Pile → List Pile
  keep [] = []
  keep (p ∷ ps) = if f p then p ∷ keep ps else keep ps

  -- The blocks without those of the piles that meet the test.
  abbrev pub cut : Blocks → Blocks
  cut es q = if f q then [] else es q

  pub owned_by-keep :
      (es : Blocks) (ps : List Pile) (a : Ptr)
      → owned_by es ps a ≡ false
      → owned_by es (keep ps) a ≡ false
  owned_by-keep es [] a h = refl
  owned_by-keep es (p ∷ ps) a h = elim (Bool-cases (f p)) [
    | inl yes' ↦ rw yes' (let r = owned_by-keep es ps a (ground arith) in ground arith)
    | inr no' ↦ rw no' (owned_by-keep es ps a (ground arith))
  ]

  pub Piles-keep :
      (self : Ptr) (es : Blocks) (m : Memory) (hs : Heads) (ps : List Pile)
      → Piles self es m hs ps
      → Piles self es m hs (keep ps)
  Piles-keep self es m hs [] l = tt
  Piles-keep self es m hs (p ∷ ps) (l, ls) = elim (Bool-cases (f p)) [
    | inl yes' ↦ rw yes' (l, Piles-keep self es m hs ps ls)
    | inr no' ↦ rw no' (Piles-keep self es m hs ps ls)
  ]

  pub Short-keep : (k : ℕ) (es : Blocks) (ps : List Pile) → Short k es ps → Short k es (keep ps)
  Short-keep k es [] l = tt
  Short-keep k es (p ∷ ps) (l, ls) = elim (Bool-cases (f p)) [
    | inl yes' ↦ rw yes' (l, Short-keep k es ps ls)
    | inr no' ↦ rw no' (Short-keep k es ps ls)
  ]

  pub ApartPiles-keep : (es : Blocks) (ps : List Pile) → ApartPiles es ps → ApartPiles es (keep ps)
  ApartPiles-keep es [] l = tt
  ApartPiles-keep es (p ∷ ps) (l, ls) = elim (Bool-cases (f p)) [
    | inl yes' ↦ rw yes' ((λ a h. owned_by-keep es ps a (l a h)), ApartPiles-keep es ps ls)
    | inr no' ↦ rw no' (ApartPiles-keep es ps ls)
  ]

  pub owned_by-cut :
      (es : Blocks) (ps : List Pile) (a : Ptr)
      → owned_by es ps a ≡ false
      → owned_by (cut es) ps a ≡ false
  owned_by-cut es [] a h = refl
  owned_by-cut es (p ∷ ps) a h = elim (Bool-cases (f p)) [
    | inl yes' ↦ rw yes' (owned_by-cut es ps a (ground arith))
    | inr no' ↦ rw no' (let r = owned_by-cut es ps a (ground arith) in ground arith)
  ]

  -- What is in neither part of the piles is in none.
  pub owned_by-parts :
      (es : Blocks) (ps : List Pile) (a : Ptr)
      → owned_by (cut es) ps a ≡ false
      → owned_by es (keep ps) a ≡ false
      → owned_by es ps a ≡ false
  owned_by-parts es [] a h k = refl
  owned_by-parts es (p ∷ ps) a h k = elim (Bool-cases (f p)) [
    | inl yes' ↦
        let h' : owned_by (cut es) ps a ≡ false = rw yes' at h in
        let k' : (owns (es p) a || owned_by es (keep ps) a) ≡ false = rw yes' at k in
        let rest = owned_by-parts es ps a h' (ground arith) in ground arith
    | inr no' ↦
        let h' : (owns (es p) a || owned_by (cut es) ps a) ≡ false = rw no' at h in
        let k' : owned_by es (keep ps) a ≡ false = rw no' at k in
        let rest = owned_by-parts es ps a (ground arith) k' in ground arith
  ]

  pub Short-cut : (k : ℕ) (es : Blocks) (ps : List Pile) → Short k es ps → Short k (cut es) ps
  Short-cut k es [] l = tt
  Short-cut k es (p ∷ ps) (l, ls) = elim (Bool-cases (f p)) [
    | inl yes' ↦ rw yes' (omega arith, Short-cut k es ps ls)
    | inr no' ↦ rw no' (l, Short-cut k es ps ls)
  ]

  pub ApartPiles-cut : (es : Blocks) (ps : List Pile) → ApartPiles es ps → ApartPiles (cut es) ps
  ApartPiles-cut es [] l = tt
  ApartPiles-cut es (p ∷ ps) (l, ls) = elim (Bool-cases (f p)) [
    | inl yes' ↦ rw yes' ((λ a h. cc), ApartPiles-cut es ps ls)
    | inr no' ↦ rw no' ((λ a h. owned_by-cut es ps a (l a h)), ApartPiles-cut es ps ls)
  ]

module _ (f : Pile → Bool) where
  -- The piles that do not meet the test.
  abbrev pub drop_piles : List Pile → List Pile
  drop_piles = keep (λ q. not (f q))

  -- What some piles own, the others do not.
  pub keep-apart :
      (es : Blocks) (ps : List Pile) (a : Ptr)
      → ApartPiles es ps
      → owned_by es (keep f ps) a ≡ true
      → owned_by es (drop_piles ps) a ≡ false
  keep-apart es [] a l h = refl
  keep-apart es (p ∷ ps) a (l, ls) h = elim (Bool-cases (f p)) [
    | inl yes' ↦
        let h' : (owns (es p) a || owned_by es (keep f ps) a) ≡ true = rw yes' at h in
        rw yes' (elim (Bool-cases (owns (es p) a)) [
          | inl mine ↦ owned_by-keep (λ q. not (f q)) es ps a (l a mine)
          | inr other ↦ keep-apart es ps a ls (ground arith)
        ])
    | inr no' ↦
        let h' : owned_by es (keep f ps) a ≡ true = rw no' at h in
        rw no' (elim (Bool-cases (owns (es p) a)) [
          | inl mine ↦ cc (owned_by-keep f es ps a (l a mine))
          | inr other ↦ rw other (keep-apart es ps a ls h')
        ])
  ]

  empty-IsList : (m : Memory) (at : Ptr) → IsList m at l_init []
  unfolding l_init
  empty-IsList m at = record { counted = refl; begins = refl; ends = refl; linked = tt; apart = tt }

  -- The piles where the heads of those that meet the test have been emptied.
  pub Piles-cut :
      (self : Ptr) (es : Blocks) (m : Memory) (hs hs' : Heads) (ps : List Pile)
      → ((q : Pile) → hs' q ≡ (if f q then l_init else hs q))
      → Piles self es m hs (drop_piles ps)
      → Piles self (cut f es) m hs' ps
  Piles-cut self es m hs hs' [] e l = tt
  Piles-cut self es m hs hs' (p ∷ ps) e l = elim (Bool-cases (f p)) [
    | inl yes' ↦
        let l' : Piles self es m hs (drop_piles ps) = rw yes' at l in
        let head : hs' p ≡ l_init = e p ∙ rw yes' refl in
        rw (head, yes') (empty-IsList m (head_at self p), Piles-cut self es m hs hs' ps e l')
    | inr no' ↦
        let l' : IsList m (head_at self p) (hs p) (es p) × Piles self es m hs (drop_piles ps) =
          rw no' at l in
        let head : hs' p ≡ hs p = e p ∙ rw no' refl in
        rw (head, no') (l'.0, Piles-cut self es m hs hs' ps e l'.1)
  ]

-- What the piles own are blocks.
pub owned_by-IsBlock :
    (self : Ptr) (es : Blocks) (m : Memory) (hs : Heads) (ps : List Pile) (a : Ptr)
    → Piles self es m hs ps
    → owned_by es ps a ≡ true
    → IsBlock m a
owned_by-IsBlock self es m hs [] a l h = absurd (ground arith)
owned_by-IsBlock self es m hs (p ∷ ps) a (l, ls) h = elim (Bool-cases (owns (es p) a)) [
  | inl mine ↦ owns-IsBlock m (head_at self p) null null (es p) a l.linked mine
  | inr other ↦ owned_by-IsBlock self es m hs ps a ls (ground arith)
]
