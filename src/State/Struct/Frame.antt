-- ===== src/State/Struct/Frame.antt =====
-- The piles of a piler in memory, and what leaves them as they are.
use cplr.Base.{
  ℕ, ◌<◌, length, ◌≡◌, ◌≢◌, refl, ap, ◌∙◌, Bool, true, false, not, ◌&&◌, ◌||◌, some, List, [], ◌∷◌,
  Bool-cases, inl, inr, arith, ◌==◌,
}
use cplr.State.Context.{Ptr, null}
use cplr.Cext.Memory.{Memory, Cell, heap_text, static_text, node, piler, lookup}
use cplr.Cext.Value.Strings.{Kind, owned, static, copied, is_owned, text_cell}
use cplr.Cext.List.{Head}
use cplr.Cext.List.Shape.{Entry, Linked, owns, reaches, IsList, reaches-block}
use cplr.State.Struct.{Pile, Heads, same_pile, set_head, head_at}

-- The nodes and strings of each pile.
abbrev pub Blocks : Type 0
Blocks = Pile → List Entry

abbrev pub owned_by : Blocks → List Pile → Ptr → Bool
owned_by es [] a = false
owned_by es (p ∷ ps) a = owns (es p) a || owned_by es ps a

abbrev pub among_piles : List Pile → Pile → Bool
among_piles [] q = false
among_piles (p ∷ ps) q = same_pile q p || among_piles ps q

abbrev pub distinct : List Pile → Bool
distinct [] = true
distinct (p ∷ ps) = not (among_piles ps p) && distinct ps

-- No block belongs to two piles.
abbrev pub ApartPiles : Blocks → List Pile → Type 0
ApartPiles es [] = Unit
ApartPiles es (p ∷ ps) =
    ((a : Ptr) → owns (es p) a ≡ true → owned_by es ps a ≡ false) × ApartPiles es ps

-- The fuel is more than the length of each pile.
abbrev pub Short : ℕ → Blocks → List Pile → Type 0
Short k es [] = Unit
Short k es (p ∷ ps) = (length (es p) < k) × Short k es ps

-- A block that is allocated.
pub record IsBlock (m : Memory) (a : Ptr) : Type 0 where
  pub cell : Cell
  pub found : lookup a m ≡ some cell
  pub not_static : (s : List ℕ) → cell ≢ static_text s
  pub not_piler : cell ≢ piler

module _ (m : Memory) (at stop : Ptr) where
  -- What the entries own are blocks.
  pub owns-IsBlock :
      (prev : Ptr) (es : List Entry) (a : Ptr)
      → Linked m at prev stop es
      → owns es a ≡ true
      → IsBlock m a
  owns-IsBlock prev [] a l h = absurd (cc)
  owns-IsBlock prev (e ∷ es) a (n, p, s, t, l) h = elim (Bool-cases (a == e.place)) [
    | inl here ↦
        let i : a ≡ e.place = ground arith in
        record {
          cell = node _;
          found = ap (λ a. lookup a m) i ∙ p;
          not_static = λ s i. cc;
          not_piler = λ i. cc;
        }
    | inr other ↦ elim (Bool-cases (owns es a)) [
      | inl more ↦ owns-IsBlock e.place es a l more
      | inr last ↦ text e.kind t (ground arith)
    ]
  ]
    where
      text :
          (k : Kind)
          → lookup e.str m ≡ some (text_cell k e.text)
          → (is_owned k && (a == e.str)) ≡ true
          → IsBlock m a
      text owned t h =
          let i : a ≡ e.str = ground arith in
          record {
            cell = heap_text e.text;
            found = ap (λ a. lookup a m) i ∙ t;
            not_static = λ s i. cc;
            not_piler = λ i. cc;
          }
      text static t h = absurd (cc)
      text copied t h =
          let i : a ≡ e.str = ground arith in
          record {
            cell = heap_text e.text;
            found = ap (λ a. lookup a m) i ∙ t;
            not_static = λ s i. cc;
            not_piler = λ i. cc;
          }

module _ (m m' : Memory) (f : Ptr → Bool)
    (same : (a : Ptr) → f a ≡ false → lookup a m' ≡ lookup a m) where
  pub Linked-frame :
      (at prev stop : Ptr) (es : List Entry)
      → ((a : Ptr) → reaches es a ≡ true → f a ≡ false)
      → Linked m at prev stop es
      → Linked m' at prev stop es
  Linked-frame at prev stop [] out l = tt
  Linked-frame at prev stop (e ∷ es) out (n, p, s, t, l) = (
    n,
    same e.place (out e.place (ground arith)) ∙ p,
    s,
    same e.str (out e.str (ground arith)) ∙ t,
    Linked-frame at e.place stop es (λ a h. out a (ground arith)) l,
  )

  -- A list stays when blocks change that it does not own.
  IsList-frame :
      (at : Ptr) (lh : Head) (es : List Entry)
      → ((a : Ptr) → f a ≡ true → IsBlock m a)
      → ((a : Ptr) → f a ≡ true → owns es a ≡ false)
      → IsList m at lh es
      → IsList m' at lh es
  IsList-frame at lh es blocks apart l = record {
    counted = l.counted;
    begins = l.begins;
    ends = l.ends;
    linked =
        Linked-frame at null null es
          (λ a h. elim (Bool-cases (f a)) [
            | inl changed ↦
                let b = blocks a changed in
                let far =
                  reaches-block m at null null es a l.linked b.found b.not_static
                    (apart a changed) in
                absurd (cc)
            | inr kept ↦ kept
          ])
          l.linked;
    apart = l.apart;
  }

module _ (self : Ptr) (es : Blocks) where
  -- Each pile is a list in memory.
  abbrev pub Piles : Memory → Heads → List Pile → Type 0
  Piles m hs [] = Unit
  Piles m hs (p ∷ ps) = IsList m (head_at self p) (hs p) (es p) × Piles m hs ps

  pub Piles-frame :
      (m m' : Memory) (f : Ptr → Bool) (hs : Heads) (ps : List Pile)
      → ((a : Ptr) → f a ≡ false → lookup a m' ≡ lookup a m)
      → ((a : Ptr) → f a ≡ true → IsBlock m a)
      → ((a : Ptr) → f a ≡ true → owned_by es ps a ≡ false)
      → Piles m hs ps
      → Piles m' hs ps
  Piles-frame m m' f hs [] same blocks apart l = tt
  Piles-frame m m' f hs (p ∷ ps) same blocks apart (l, ls) = (
    IsList-frame m m' f same (head_at self p) (hs p) (es p) blocks (λ a h. ground (arith, apart a))
        l,
    Piles-frame m m' f hs ps same blocks (λ a h. ground (arith, apart a)) ls,
  )

  -- Another head for a pile that is not among them.
  pub Piles-set_head :
      (m : Memory) (p : Pile) (h : Head) (hs : Heads) (ps : List Pile)
      → among_piles ps p ≡ false
      → Piles m hs ps
      → Piles m (set_head p h hs) ps
  Piles-set_head m p h hs [] out l = tt
  Piles-set_head m p h hs (q ∷ ps) out (l, ls) =
      let other : same_pile q p ≡ false = ground arith in
      (rw other l, Piles-set_head m p h hs ps (ground arith) ls)

  -- The block of a piler is in no pile.
  pub piler_out :
      (m : Memory) (hs : Heads) (ps : List Pile) (a : Ptr)
      → Piles m hs ps
      → lookup a m ≡ some piler
      → owned_by es ps a ≡ false
  piler_out m hs [] a l e = refl
  piler_out m hs (p ∷ ps) a (l, ls) e = elim (Bool-cases (owns (es p) a)) [
    | inl mine ↦
        let b = owns-IsBlock m (head_at self p) null null (es p) a l.linked mine in
        absurd (b.not_piler (cc (b.found)))
    | inr other ↦ rw other (piler_out m hs ps a ls e)
  ]
