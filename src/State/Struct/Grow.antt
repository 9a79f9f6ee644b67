-- ===== src/State/Struct/Grow.antt =====
-- A text more in a pile of a piler in memory, as the commands of source/cplr_command.c put it there.
use cplr.Base.{
  ℕ, suc, ◌≡◌, ◌≢◌, refl, sym, ap, ◌∙◌, subst, Bool, true, false, ◌&&◌, ◌||◌, none, some, List, [],
  ◌∷◌, snoc, length-append, Bool-cases, inl, inr, ◌==◌, arith,
}
use cplr.Base.Outcome.{Outcome, done, ◌>>=◌, Returns, returns, Returns-bind}
use cplr.Base.Text.{Text}
use cplr.State.Context.{Ptr, null}
use cplr.Cext.Memory.{Memory, heap_text, lookup, write, lookup-write, lookup-write_self, Allocator}
use cplr.Cext.Value.Strings.{owned}
use cplr.Cext.List.{Head, l_append_str_owned}
use cplr.Cext.List.Shape.{Entry, owns, IsList, owns-snoc, reaches-unused, reaches-block}
use cplr.Cext.List.Piles.{l_append_str_owned-Entry}
use cplr.Cext.List.Patch.{Keeps, cell_ne_none}
use cplr.State.Struct.{Pile, Fields, managed, same_pile, set_head, head_at}
use cplr.State.Struct.Frame.{
  Blocks, owned_by, among_piles, Short, owns-IsBlock, Linked-frame, piler_out,
}
use cplr.State.Struct.Free.{IsHeld, HeldTexts, held, texts_of, holds, held-IsBlock}
use cplr.State.Struct.Copy.{set_blocks}
use cplr.State.Struct.Refines.{IsHeld-Keeps}
use cplr.State.Struct.Parts.{owned_by-IsBlock}
use cplr.State.Struct.Walks.{same_pile_eq}
use cplr.State.Struct.Extend.{
  among_owns, pile_in, Piles-all, apart_pair, owned_by-set_blocks, ApartPiles-set_blocks,
  Short-set_blocks,
}

-- `l_append_str_owned(&c->pile, strdup(text))`
unfoldable pub pile_up :
    Allocator → (self : Ptr) → Pile → Text → Fields → Memory → Outcome (Fields × Memory)
unfolding l_append_str_owned
pile_up A self p t c m = do
  let s = A.malloc m
  (h, m') ← l_append_str_owned A (head_at self p) (c.heads p) s (write s (some (heap_text t)) m)
  done (record c { heads = set_head p h c.heads }, m')

-- Strings stay where memory is as it was.
HeldTexts-frame :
    (m m' : Memory) (ps : List Ptr)
    → ((a : Ptr) → held ps a ≡ true → lookup a m' ≡ lookup a m)
    → HeldTexts m ps
    → HeldTexts m' ps
HeldTexts-frame m m' [] same t = tt
HeldTexts-frame m m' (p ∷ ps) same (inl e, ts) =
    (inl e, HeldTexts-frame m m' ps (λ a h. same a (ground arith)) ts)
HeldTexts-frame m m' (p ∷ ps) same (inr (s, e, o), ts) = elim (Bool-cases (p == null)) [
  | inl nil ↦ (inl (ground arith), HeldTexts-frame m m' ps (λ a h. same a (ground arith)) ts)
  | inr there ↦ (
    inr (s, same p (ground arith) ∙ e, o),
    HeldTexts-frame m m' ps (λ a h. same a (ground arith)) ts,
  )
]

-- A piler whose blocks are those of before, and new ones.
pub record IsGrown (self : Ptr) (m : Memory) (c : Fields) (gs : Blocks) (x : Fields × Memory)
    : Type 0 where
  pub more : Blocks
  pub held_by : IsHeld x.1 self x.0 more
  pub short : (k : ℕ) → Short k gs managed → Short (suc k) more managed
  pub fresh :
      (a : Ptr) → holds self x.0 more a ≡ true → holds self c gs a ≡ false → lookup a m ≡ none
  pub kept : (a : Ptr) → holds self c gs a ≡ true → holds self x.0 more a ≡ true
  pub rest : (a : Ptr) → holds self x.0 more a ≡ false → lookup a x.1 ≡ lookup a m

eq_of : (a b : Ptr) → (a == b) ≡ true → a ≡ b
eq_of a b h = ground arith

-- What is held, where the piles have `y` and then `y'`.
module _ (x y y' z i n : Bool) (w : y' ≡ (y || (i && n))) (e : i ≡ true) where
  more_fresh : ((x || y') || z) ≡ true → ((x || y) || z) ≡ false → n ≡ true
  more_fresh a b = ground arith

  more_kept : ((x || y) || z) ≡ true → ((x || y') || z) ≡ true
  more_kept a = ground arith

  more_rest : ((x || y') || z) ≡ false → (n ≡ false) × (y ≡ false)
  more_rest a = (ground arith, ground arith)

-- What is left when an entry of new blocks has been appended to a pile.
module _ (self : Ptr) (p : Pile) (c : Fields) (m : Memory) (gs : Blocks) (h : IsHeld m self c gs)
    (inside : among_piles managed p ≡ true) (q s : Ptr) (t : Text) (hd : Head) (m₂ : Memory) where
  abbrev new : Ptr → Bool
  new a = (a == q) || (a == s)

  abbrev added : List Entry
  added = snoc (gs p) (record { place = q; kind = owned; str = s; text = t })

  adds : (a : Ptr) → owns added a ≡ (owns (gs p) a || new a)
  adds a = owns-snoc (gs p) (record { place = q; kind = owned; str = s; text = t }) a ∙ ground arith

  module _ (unused : (a : Ptr) → new a ≡ true → lookup a m ≡ none)
      (change : (a : Ptr) → new a ≡ false → owns (gs p) a ≡ false → lookup a m₂ ≡ lookup a m)
      (list : IsList m₂ (head_at self p) hd added) where
    used_old : (a : Ptr) → lookup a m ≢ none → new a ≡ false
    used_old a used = elim (Bool-cases (new a)) [
      | inl fresh ↦ absurd (used (unused a fresh))
      | inr old ↦ old
    ]

    unowned : (a : Ptr) → new a ≡ true → owned_by gs managed a ≡ false
    unowned a n = elim (Bool-cases (owned_by gs managed a)) [
      | inl mine ↦
          let b = owned_by-IsBlock self gs m c.heads managed a h.piles mine in
          absurd (cell_ne_none b.found (unused a n))
      | inr out ↦ out
    ]

    -- A pile that is not appended to.
    other_pile :
        (r : Pile)
        → among_piles managed r ≡ true
        → same_pile r p ≡ false
        → IsList m₂ (head_at self r) (c.heads r) (gs r)
    other_pile r k other =
        let l = pile_in self gs m c.heads managed r k h.piles in
        let mine = pile_in self gs m c.heads managed p inside h.piles in
        record {
          counted = l.counted;
          begins = l.begins;
          ends = l.ends;
          linked =
              Linked-frame m m₂ (λ a. new a || owns (gs p) a)
                (λ a b. change a (ground arith) (ground arith)) (head_at self r) null null (gs r)
                (λ a b. elim (Bool-cases (new a)) [
                  | inl n ↦ cc (
                    b,
                    reaches-unused m (head_at self r) null null (gs r) a l.linked (unused a n),
                  )
                  | inr old ↦ elim (Bool-cases (owns (gs p) a)) [
                    | inl o ↦
                        let block =
                          owns-IsBlock m (head_at self p) null null (gs p) a mine.linked o in
                        cc (
                          b,
                          reaches-block m (head_at self r) null null (gs r) a l.linked block.found
                              block.not_static
                              (apart_pair gs managed p r a h.apart inside k other o),
                        )
                    | inr o ↦ rw (old, o) refl
                  ]
                ])
                l.linked;
          apart = l.apart;
        }

    grown-IsHeld :
        IsHeld m₂ self (record c { heads = set_head p hd c.heads }) (set_blocks p added gs)
    grown-IsHeld =
        let whole = owned_by-set_blocks gs p added new adds managed in
        let text_used : (a : Ptr) → held (texts_of c) a ≡ true → new a ≡ false = λ a b.
          let (u, e) = held-IsBlock (texts_of c) m a h.texts b in used_old a (cell_ne_none e) in
        record {
          self_ne_null = h.self_ne_null;
          block =
              change self (used_old self (cell_ne_none h.block)) (
                among_owns gs managed p self inside
                  (piler_out self gs m c.heads managed self h.piles h.block))
              ∙ h.block;
          texts =
              HeldTexts-frame m m₂ (texts_of c)
                (λ a b.
                  change a (text_used a b) (among_owns gs managed p a inside (h.texts_out a b)))
                h.texts;
          piles = Piles-all self (set_blocks p added gs) m₂ (set_head p hd c.heads) managed (λ r k.
              elim (Bool-cases (same_pile r p)) [
                | inl same ↦ rw same (
                    subst (λ r. IsList m₂ (head_at self r) hd added) (sym (same_pile_eq r p same))
                      list)
                | inr other ↦ rw other (other_pile r k other)
              ]);
          apart = ApartPiles-set_blocks gs p added new adds managed refl unowned h.apart;
          texts_out = λ a b. whole a ∙ rw (h.texts_out a b, text_used a b) (ground arith);
        }

    more-IsGrown : IsGrown self m c gs (record c { heads = set_head p hd c.heads }, m₂)
    more-IsGrown =
        let whole = λ (a : Ptr). owned_by-set_blocks gs p added new adds managed a in
        record {
          more = set_blocks p added gs;
          held_by = grown-IsHeld;
          short = λ k l. Short-set_blocks gs p added new adds k managed (length-append (gs p) _) l;
          fresh = λ a b d. unused a (
              more_fresh (held (texts_of c) a) (owned_by gs managed a)
                (owned_by (set_blocks p added gs) managed a) (a == self) (among_piles managed p)
                (new a) (whole a) inside b d);
          kept = λ a b.
              more_kept (held (texts_of c) a) (owned_by gs managed a)
                (owned_by (set_blocks p added gs) managed a) (a == self) (among_piles managed p)
                (new a) (whole a) inside b;
          rest = λ a b.
              let (old, out) =
                more_rest (held (texts_of c) a) (owned_by gs managed a)
                  (owned_by (set_blocks p added gs) managed a) (a == self) (among_piles managed p)
                  (new a) (whole a) inside b in
              change a old (among_owns gs managed p a inside out);
        }

module _ (A : Allocator) (self : Ptr) (p : Pile) (t : Text) (c : Fields) (m : Memory) (gs : Blocks)
    (h : IsHeld m self c gs) (inside : among_piles managed p ≡ true) where
  pub pile_up-IsGrown : Returns (IsGrown self m c gs) (pile_up A self p t c m)
  unfolding pile_up
  pile_up-IsGrown =
      let s = A.malloc m in
      let m₁ = write s (some (heap_text t)) m in
      let keeps : Keeps m m₁ = λ a used.
        lookup-write a s (some (heap_text t)) m
          (λ i. used (ap (λ a. lookup a m) i ∙ A.malloc_unused m)) in
      let h₁ = IsHeld-Keeps m m₁ self c gs keeps h in
      let q = A.malloc m₁ in
      let e : Entry = record { place = q; kind = owned; str = s; text = t } in
      let unused_s : owned_by gs managed s ≡ false = elim (Bool-cases (owned_by gs managed s)) [
        | inl mine ↦
            let b = owned_by-IsBlock self gs m c.heads managed s h.piles mine in
            absurd (cell_ne_none b.found (A.malloc_unused m))
        | inr out ↦ out
      ] in
      let lh = c.heads p in
      let l = pile_in self gs m₁ c.heads managed p inside h₁.piles in
      Returns-bind
        (l_append_str_owned-Entry A m₁ (head_at self p) lh (gs p) l s t (A.malloc_ne_null m)
          (lookup-write_self s (some (heap_text t)) m) (among_owns gs managed p s inside unused_s))
        λ (hd, m₂) a'. returns {a = (record c { heads = set_head p hd c.heads }, m₂)} (
          more-IsGrown self p c m gs h inside q s t hd m₂
            (λ a n. elim (Bool-cases (a == s)) [
              | inl here ↦ ap (λ a. lookup a m) (eq_of a s here) ∙ A.malloc_unused m
              | inr there ↦
                  sym (lookup-write a s (some (heap_text t)) m (ground arith))
                  ∙ (ap (λ a. lookup a m₁) (eq_of a q (ground arith)) ∙ A.malloc_unused m₁)
            ])
            (λ a n o.
              a'.rest a (ground arith) o ∙ lookup-write a s (some (heap_text t)) m (ground arith))
            a'.list)
