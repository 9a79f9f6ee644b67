-- ===== src/State/Struct/Free.antt =====
-- Clearing piles, and freeing a piler, in memory.
use cplr.Base.{
  ℕ, ◌≡◌, ◌≢◌, ◌⊎◌, refl, ap, ◌∙◌, Bool, true, false, not, ◌&&◌, ◌||◌, Option, none, some, List, [],
  ◌∷◌, Bool-cases, inl, inr, arith, ◌==◌, if◌then◌else◌,
}
use cplr.Base.Outcome.{Returns, returns, Returns-bind, Returns-mono}
use cplr.Base.Text.{Text}
use cplr.State.Context.{Ptr, null}
use cplr.Cext.Memory.{
  Memory, Cell, heap_text, piler, lookup, write, lookup-write, free, cext_free, cext_lptrfree,
}
use cplr.Cext.List.{Head, l_init}
use cplr.Cext.List.Shape.{owns}
use cplr.Cext.List.Clear.{l_clear-Cleared}
use cplr.State.Struct.{
  Pile, Heads, Fields, same_pile, set_head, head_at, clear_piles, free_texts, managed, free_piler,
}
use cplr.State.Struct.Frame.{
  Blocks, owned_by, among_piles, distinct, ApartPiles, Short, owns-IsBlock, Piles, Piles-frame,
  Piles-set_head, piler_out,
}

-- Only the blocks of `f` are given back.
abbrev pub Gives : (Ptr → Bool) → Memory → Memory → Type 0
Gives f m m' = (a : Ptr) → lookup a m' ≡ (if f a then none else lookup a m)

pub Gives-both :
    (f g : Ptr → Bool) (m₀ m₁ m₂ : Memory)
    → Gives f m₀ m₁
    → Gives g m₁ m₂
    → Gives (λ a. f a || g a) m₀ m₂
Gives-both f g m₀ m₁ m₂ h k a =
    k a
    ∙ (ap (λ (o : Option Cell). if g a then none else o) (h a) ∙ joined (f a) (g a) (lookup a m₀))
  where
    joined :
        (x y : Bool) (o : Option Cell)
        → (if y then none else (if x then none else o)) ≡ (if x || y then none else o)
    joined true true o = refl
    joined true false o = refl
    joined false y o = refl

pub Gives-else :
    (f : Ptr → Bool) (m m' : Memory)
    → Gives f m m'
    → (a : Ptr) → f a ≡ false
    → lookup a m' ≡ lookup a m
Gives-else f m m' g a h = g a ∙ ap (λ (b : Bool). if b then none else lookup a m) h

heads_both :
    (h i o : Head) (x y : Bool)
    → h ≡ i
    → (if y then i else (if x then h else o)) ≡ (if x || y then i else o)
heads_both h i o true true e = refl
heads_both h i o true false e = e
heads_both h i o false y e = refl

module _ (self : Ptr) (es : Blocks) where
  -- What clearing some piles leaves: empty heads, and memory without their blocks.
  pub record ClearedPiles (m : Memory) (hs : Heads) (ps : List Pile) (x : Heads × Memory)
      : Type 0 where
    pub heads : (q : Pile) → x.0 q ≡ (if among_piles ps q then l_init else hs q)
    pub gives : Gives (owned_by es ps) m x.1

  pub clear_piles-ClearedPiles :
      (k : ℕ) (ps : List Pile) (hs : Heads) (m : Memory)
      → Short k es ps
      → distinct ps ≡ true
      → ApartPiles es ps
      → Piles self es m hs ps
      → Returns (ClearedPiles m hs ps) (clear_piles k ps hs m)
  unfolding clear_piles l_init
  clear_piles-ClearedPiles k [] hs m short d h l =
      returns (record { heads = λ q. refl; gives = λ a. refl })
  clear_piles-ClearedPiles k (p ∷ ps) hs m (enough, short) d (h, hr) (l, ls) =
      Returns-bind (l_clear-Cleared (head_at self p) k m (hs p) (es p) l enough) λ (i, m₁) (e, c).
        let kept =
          Piles-frame self es m m₁ (owns (es p)) hs ps (Gives-else (owns (es p)) m m₁ c)
            (λ a o. owns-IsBlock m (head_at self p) null null (es p) a l.linked o) h ls in
        Returns-mono
          (clear_piles-ClearedPiles k ps (set_head p i hs) m₁ short (ground arith) hr
            (Piles-set_head self es m₁ p i hs ps (ground arith) kept))
          λ (hs', m₂) r. record {
            heads =
                λ q. r.heads q ∙ heads_both i l_init (hs q) (same_pile q p) (among_piles ps q) e;
            gives = Gives-both (owns (es p)) (owned_by es ps) m m₁ m₂ c r.gives;
          }

abbrev pub among : List Ptr → Ptr → Bool
among [] a = false
among (p ∷ ps) a = (a == p) || among ps a

-- Each is NULL or an allocated string of its own.
abbrev pub HeldTexts : Memory → List Ptr → Type 0
HeldTexts m [] = Unit
HeldTexts m (p ∷ ps) =
    ((p ≡ null) ⊎ ((s : Text) × (lookup p m ≡ some (heap_text s)) × (among ps p ≡ false)))
    × HeldTexts m ps

HeldTexts-write :
    (m : Memory) (a : Ptr) (c : Option Cell) (ps : List Ptr)
    → a ≢ null
    → among ps a ≡ false
    → HeldTexts m ps
    → HeldTexts (write a c m) ps
HeldTexts-write m a c [] ne h t = tt
HeldTexts-write m a c (p ∷ ps) ne h (inl e, ts) =
    (inl e, HeldTexts-write m a c ps ne (ground arith) ts)
HeldTexts-write m a c (p ∷ ps) ne h (inr (s, e, o), ts) = (
  inr (s, lookup-write p a c m (ground arith) ∙ e, o),
  HeldTexts-write m a c ps ne (ground arith) ts,
)

-- The strings that are not NULL.
abbrev pub held : List Ptr → Ptr → Bool
held ps a = not (a == null) && among ps a

free_texts-Gives :
    (ps : List Ptr) (m : Memory) → HeldTexts m ps → Returns (Gives (held ps) m) (free_texts ps m)
unfolding free_texts cext_lptrfree
free_texts-Gives [] m t = returns (λ a. ground arith)
free_texts-Gives (p ∷ ps) m (inl e, ts) =
    rw (ap (λ p. p == null) e)
      (Returns-mono (free_texts-Gives ps m ts) λ m' g a. g a ∙ ground arith)
free_texts-Gives (p ∷ ps) m (inr (s, e, o), ts) = elim (Bool-cases (p == null)) [
  | inl nil ↦ rw nil (Returns-mono (free_texts-Gives ps m ts) λ m' g a. g a ∙ ground arith)
  | inr ne ↦
      rw (ne, e)
        (Returns-mono
          (free_texts-Gives ps (write p none m) (HeldTexts-write m p none ps (ground arith) o ts))
          λ m' g a. g a ∙ ground arith)
]

-- The strings of a piler.
abbrev pub texts_of : Fields → List Ptr
texts_of c = c.out ∷ c.g_codebuf ∷ c.g_dumpbuf ∷ []

-- A piler at `self` with its blocks, none of which is there twice.
pub record IsHeld (m : Memory) (self : Ptr) (c : Fields) (es : Blocks) : Type 0 where
  pub self_ne_null : self ≢ null
  pub block : lookup self m ≡ some piler
  pub texts : HeldTexts m (texts_of c)
  pub piles : Piles self es m c.heads managed
  pub apart : ApartPiles es managed
  pub texts_out : (a : Ptr) → held (texts_of c) a ≡ true → owned_by es managed a ≡ false

-- All that a piler holds.
abbrev pub holds : Ptr → Fields → Blocks → Ptr → Bool
holds self c es a = (held (texts_of c) a || owned_by es managed a) || (a == self)

pub held-IsBlock :
    (ps : List Ptr) (m : Memory) (a : Ptr)
    → HeldTexts m ps
    → held ps a ≡ true
    → (s : Text) × (lookup a m ≡ some (heap_text s))
held-IsBlock [] m a t h = absurd (ground arith)
held-IsBlock (p ∷ ps) m a (t, ts) h = elim (Bool-cases (a == p)) [
  | inl here ↦
      let i : a ≡ p = ground arith in
      elim t [
        | inl nil ↦ absurd (ground (arith, nil))
        | inr (s, e, o) ↦ (s, ap (λ a. lookup a m) i ∙ e)
      ]
  | inr other ↦ held-IsBlock ps m a ts (ground arith)
]

module _ (m : Memory) (self : Ptr) (c : Fields) (es : Blocks) (h : IsHeld m self c es) where
  -- With more fuel than nodes in any pile, `cplr_free` gives back the piler's block, its strings
  -- and all nodes and strings of the piles that it clears, each once, and all other memory is as
  -- it was: so are the blocks of `optf` and `optm`, which it does not clear.
  pub free_piler-Gives :
      (k : ℕ) → Short k es managed → Returns (Gives (holds self c es) m) (free_piler k self c m)
  unfolding free_piler cext_free free
  free_piler-Gives k enough = Returns-bind (free_texts-Gives (texts_of c) m h.texts) λ m₁ g₁.
      let piles₁ =
        Piles-frame self es m m₁ (held (texts_of c)) c.heads managed
          (Gives-else (held (texts_of c)) m m₁ g₁)
          (λ a o.
            let (s, e) = held-IsBlock (texts_of c) m a h.texts o in
            record { cell = heap_text s; found = e; not_static = λ s i. cc; not_piler = λ i. cc })
          h.texts_out h.piles in
      Returns-bind
        (clear_piles-ClearedPiles self es k managed c.heads m₁ enough refl h.apart piles₁)
        λ (hs, m₂) r.
          let g₂ = Gives-both (held (texts_of c)) (owned_by es managed) m m₁ m₂ g₁ r.gives in
          let out : (held (texts_of c) self || owned_by es managed self) ≡ false =
            rw (piler_out self es m c.heads managed self h.piles h.block)
              (text_out (held (texts_of c) self) refl) in
          let left : lookup self m₂ ≡ some piler =
            Gives-else (λ a. held (texts_of c) a || owned_by es managed a) m m₂ g₂ self out
            ∙ h.block in
          let nz : (self == null) ≡ false = ground (arith, h.self_ne_null) in
          rw (nz, left)
            (returns {a = write self none m₂} (
              Gives-both (λ a. held (texts_of c) a || owned_by es managed a) (λ a. a == self) m m₂
                (write self none m₂) g₂ (λ a. ground arith)))
    where
      text_out : (b : Bool) → held (texts_of c) self ≡ b → (b || false) ≡ false
      text_out true e = let (s, t) = held-IsBlock (texts_of c) m self h.texts e in cc (h.block)
      text_out false e = refl
