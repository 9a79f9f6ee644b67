-- ===== src/State/Struct/Extend.antt =====
-- One of the piles of a piler, and a pile that gets more blocks.
use cplr.Base.{
  ℕ, suc, ◌+◌, ◌≡◌, refl, sym, ap, subst, Bool, true, false, ◌&&◌, ◌||◌, List, [], ◌∷◌, length,
  Bool-cases, inl, inr, arith,
}
use cplr.State.Context.{Ptr}
use cplr.Cext.Memory.{Memory}
use cplr.Cext.List.Shape.{Entry, owns, IsList}
use cplr.State.Struct.{Pile, Heads, same_pile, head_at}
use cplr.State.Struct.Frame.{Blocks, owned_by, among_piles, distinct, ApartPiles, Short, Piles}
use cplr.State.Struct.Copy.{set_blocks}
use cplr.State.Struct.Walks.{same_pile_eq}

pub among_owns :
    (es : Blocks) (ps : List Pile) (p : Pile) (a : Ptr)
    → among_piles ps p ≡ true
    → owned_by es ps a ≡ false
    → owns (es p) a ≡ false
among_owns es [] p a h o = cc
among_owns es (q ∷ ps) p a h o = elim (Bool-cases (same_pile p q)) [
  | inl same ↦ subst (λ p. owns (es p) a ≡ false) (sym (same_pile_eq p q same)) (ground arith)
  | inr other ↦ among_owns es ps p a (ground arith) (ground arith)
]

pub pile_in :
    (self : Ptr) (es : Blocks) (m : Memory) (hs : Heads) (ps : List Pile) (p : Pile)
    → among_piles ps p ≡ true
    → Piles self es m hs ps
    → IsList m (head_at self p) (hs p) (es p)
pile_in self es m hs [] p h l = absurd (cc)
pile_in self es m hs (q ∷ ps) p h (l, ls) = elim (Bool-cases (same_pile p q)) [
  | inl same ↦ subst (λ p. IsList m (head_at self p) (hs p) (es p)) (sym (same_pile_eq p q same)) l
  | inr other ↦ pile_in self es m hs ps p (ground arith) ls
]

pub Piles-all :
    (self : Ptr) (es : Blocks) (m : Memory) (hs : Heads) (ps : List Pile)
    → ((p : Pile) → among_piles ps p ≡ true → IsList m (head_at self p) (hs p) (es p))
    → Piles self es m hs ps
Piles-all self es m hs [] h = tt
Piles-all self es m hs (p ∷ ps) h =
    (h p (ground arith), Piles-all self es m hs ps (λ q k. h q (ground arith)))

module _ (gs : Blocks) (p : Pile) (more : List Entry) (new : Ptr → Bool)
    (adds : (a : Ptr) → owns more a ≡ (owns (gs p) a || new a)) where
  pub owned_by-set_blocks :
      (ps : List Pile) (a : Ptr)
      → owned_by (set_blocks p more gs) ps a ≡ (owned_by gs ps a || (among_piles ps p && new a))
  owned_by-set_blocks [] a = refl
  owned_by-set_blocks (r ∷ ps) a = elim (Bool-cases (same_pile r p)) [
    | inl same ↦
        let i = same_pile_eq r p same in
        let rest = owned_by-set_blocks ps a in
        let back : same_pile p r ≡ true = ground arith in
        let mine : owns (gs r) a ≡ owns (gs p) a = ap (λ q. owns (gs q) a) i in
        let it = adds a in rw same (ground arith)
    | inr other ↦
        let rest = owned_by-set_blocks ps a in
        let back : same_pile p r ≡ false = ground arith in rw other (ground arith)
  ]

  pub ApartPiles-set_blocks :
      (ps : List Pile)
      → distinct ps ≡ true
      → ((a : Ptr) → new a ≡ true → owned_by gs ps a ≡ false)
      → ApartPiles gs ps
      → ApartPiles (set_blocks p more gs) ps
  ApartPiles-set_blocks [] d n l = tt
  ApartPiles-set_blocks (r ∷ ps) d n (l, ls) = (
    (λ a b.
        let it = adds a in
        let whole = owned_by-set_blocks ps a in
        let far = n a in
        let near = l a in
        elim (Bool-cases (same_pile r p)) [
          | inl same ↦
              let i = same_pile_eq r p same in
              let mine : owns (gs r) a ≡ owns (gs p) a = ap (λ q. owns (gs q) a) i in
              let b' : owns more a ≡ true = rw same at b in
              let once : among_piles ps p ≡ false =
                subst (λ q. among_piles ps q ≡ false) i (ground arith) in
              ground arith
          | inr other ↦ let b' : owns (gs r) a ≡ true = rw other at b in ground arith
        ]),
    ApartPiles-set_blocks ps (ground arith) (λ a h. let far = n a h in ground arith) ls,
  )

  pub Short-set_blocks :
      (k : ℕ) (ps : List Pile)
      → length more ≡ length (gs p) + 1
      → Short k gs ps
      → Short (suc k) (set_blocks p more gs) ps
  Short-set_blocks k [] e l = tt
  Short-set_blocks k (r ∷ ps) e (l, ls) = elim (Bool-cases (same_pile r p)) [
    | inl same ↦
        let i : length (gs r) ≡ length (gs p) = ap (λ q. length (gs q)) (same_pile_eq r p same) in
        rw same (omega arith, Short-set_blocks k ps e ls)
    | inr other ↦ rw other (omega arith, Short-set_blocks k ps e ls)
  ]

pub apart_pair :
    (es : Blocks) (ps : List Pile) (p r : Pile) (a : Ptr)
    → ApartPiles es ps
    → among_piles ps p ≡ true
    → among_piles ps r ≡ true
    → same_pile r p ≡ false
    → owns (es p) a ≡ true
    → owns (es r) a ≡ false
apart_pair es [] p r a l h k d o = absurd (cc)
apart_pair es (q ∷ ps) p r a (l, ls) h k d o = elim (Bool-cases (same_pile p q)) [
  | inl first ↦
      let i = same_pile_eq p q first in
      let mine : owns (es q) a ≡ true = subst (λ p. owns (es p) a ≡ true) i o in
      among_owns es ps r a (ground arith) (l a mine)
  | inr later ↦ elim (Bool-cases (same_pile r q)) [
    | inl first ↦
        let i = same_pile_eq r q first in
        elim (Bool-cases (owns (es r) a)) [
          | inl both ↦
              let out =
                among_owns es ps p a (ground arith)
                  (l a (subst (λ r. owns (es r) a ≡ true) i both)) in
              absurd (cc)
          | inr none' ↦ none'
        ]
    | inr second ↦ apart_pair es ps p r a ls (ground arith) (ground arith) d o
  ]
]
