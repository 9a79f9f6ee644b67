-- ===== src/State/Struct/Layers.antt =====
-- Pilers that are chained one behind the other, and freed again.
use cplr.Base.{
  ℕ, suc, ◌≡◌, refl, sym, ap, ◌∙◌, Bool, true, false, none, List, [], ◌∷◌, Bool-cases, inl, inr,
  if◌then◌else◌, arith,
}
use cplr.Base.Outcome.{Returns, returns, Returns-bind}
use cplr.State.Context.{Ptr}
use cplr.Cext.Memory.{Memory, lookup, Allocator}
use cplr.State.Struct.{Fields, Pile, managed, volatile, chain_piler}
use cplr.State.Struct.Frame.{Blocks, among_piles, Short}
use cplr.State.Struct.Grow.{IsGrown, pile_up-IsGrown}
use cplr.Base.{All, length, ◌+◌, ◌≤◌}
use cplr.State.Struct.Free.{Gives-else, IsHeld, holds, free_piler-Gives, clear_piles-ClearedPiles}
use cplr.State.Struct.Refines.{clone_piler-IsClone, same-Short, IsHeld-Keeps}
use cplr.State.Struct.Parts.{cut, Piles-keep, Short-keep, Short-cut, ApartPiles-keep}
use cplr.State.Struct.Chain.{is_volatile, emptied-IsHeld, emptied-IsNew}
use cplr.State.Struct.Steps.{
  Pilers, Step, chain, piled, session_steps, free_pilers, chained_session,
}

-- A piler on top of a memory, in blocks that are not in use there; all else is as it is there.
record IsLayer (k : ℕ) (m : Memory) (x : (Ptr × Fields) × Memory) : Type 0 where
  gs : Blocks
  held_by : IsHeld x.1 x.0.0 x.0.1 gs
  short : Short k gs managed
  fresh : (a : Ptr) → holds x.0.0 x.0.1 gs a ≡ true → lookup a m ≡ none
  rest : (a : Ptr) → holds x.0.0 x.0.1 gs a ≡ false → lookup a x.1 ≡ lookup a m

module _ (A : Allocator) (k : ℕ) where
  chain_piler-IsLayer :
      (m : Memory) (self : Ptr) (c : Fields) (es : Blocks)
      → IsHeld m self c es
      → (j : ℕ) → Short k es managed
      → Short j es managed
      → Returns (IsLayer j m) (chain_piler A k c m)
  unfolding chain_piler
  chain_piler-IsLayer m self c es h j short short' =
      Returns-bind (clone_piler-IsClone A m self c es h k short) λ ((r, cf), m₁) o.
        let from = same-Short k es o.gs managed o.same short in
        Returns-bind
          (clear_piles-ClearedPiles r o.gs k volatile cf.heads m₁
            (Short-keep is_volatile k o.gs managed from) refl
            (ApartPiles-keep is_volatile o.gs managed o.held_by.apart)
            (Piles-keep is_volatile r o.gs m₁ cf.heads managed o.held_by.piles))
          λ (hs, m₂) x.
            let (e₁, e₂, e₃) = o.no_texts in
            let new = emptied-IsNew r cf m m₁ m₂ o.gs hs e₁ e₂ e₃ o.fresh o.rest x in
            returns {a = ((r, record cf { heads = hs }), m₂)} (record {
              gs = cut is_volatile o.gs;
              held_by = emptied-IsHeld r cf m₁ m₂ o.gs hs o.held_by e₁ e₂ e₃ x;
              short =
                  Short-cut is_volatile j o.gs managed (same-Short j es o.gs managed o.same short');
              fresh = new.0;
              rest = new.1;
            })

Short-raised : (j k : ℕ) (es : Blocks) (ps : List Pile) → j ≤ k → Short j es ps → Short k es ps
Short-raised j k es [] e s = tt
Short-raised j k es (p ∷ ps) e (s, ss) = (omega arith, Short-raised j k es ps e ss)

raised :
    (j k : ℕ) (m : Memory) (x : (Ptr × Fields) × Memory) → j ≤ k → IsLayer j m x → IsLayer k m x
raised j k m x e t = record {
  gs = t.gs;
  held_by = t.held_by;
  short = Short-raised j k t.gs managed e t.short;
  fresh = t.fresh;
  rest = t.rest;
}

-- Its piles may grow.
grown-IsLayer :
    (j : ℕ) (below : Memory) (n : Ptr) (c : Fields) (m : Memory) (x : Fields × Memory)
    → (t : IsLayer j below ((n, c), m)) → IsGrown n m c t.gs x
    → IsLayer (suc j) below ((n, x.0), x.1)
grown-IsLayer j below n c m x t g = record {
  gs = g.more;
  held_by = g.held_by;
  short = g.short j t.short;
  fresh = λ a b. elim (Bool-cases (holds n c t.gs a)) [
    | inl mine ↦ t.fresh a mine
    | inr other ↦ sym (t.rest a other) ∙ g.fresh a b other
  ];
  rest = λ a b. elim (Bool-cases (holds n c t.gs a)) [
    | inl mine ↦ absurd (cc (b, g.kept a mine))
    | inr other ↦ g.rest a b ∙ t.rest a other
  ];
}

-- A step on a pile that `cplr_free` clears.
abbrev pub IsManaged : Step → Type 0
IsManaged chain = Unit
IsManaged (piled p t) = among_piles managed p ≡ true

module _ (k : ℕ) (m₀ : Memory) where
  -- Each piler on top of the memory that is below it.
  abbrev Layers : Pilers → Memory → Type 0
  Layers [] m = (a : Ptr) → lookup a m ≡ lookup a m₀
  Layers (x ∷ ps) m = (m' : Memory) × Layers ps m' × IsLayer k m' (x, m)

  Layers-same :
      (ps : Pilers) (m m' : Memory)
      → ((a : Ptr) → lookup a m' ≡ lookup a m)
      → Layers ps m
      → Layers ps m'
  Layers-same [] m m' same l = λ a. same a ∙ l a
  Layers-same (x ∷ ps) m m' same (below, l, t) = (
    below,
    l,
    record {
      gs = t.gs;
      held_by = IsHeld-Keeps m m' x.0 x.1 t.gs (λ a used. same a) t.held_by;
      short = t.short;
      fresh = t.fresh;
      rest = λ a b. same a ∙ t.rest a b;
    },
  )

  free_pilers-Layers :
      (ps : Pilers) (m : Memory)
      → Layers ps m
      → Returns (λ m'. (a : Ptr) → lookup a m' ≡ lookup a m₀) (free_pilers k ps m)
  unfolding free_pilers
  free_pilers-Layers [] m l = returns l
  free_pilers-Layers ((n, c) ∷ ps) m (below, l, t) =
      Returns-bind (free_piler-Gives m n c t.gs t.held_by k t.short) λ m₁ g.
        free_pilers-Layers ps m₁ (
          Layers-same ps below m₁
            (λ a. elim (Bool-cases (holds n c t.gs a)) [
              | inl mine ↦
                  g a
                  ∙ (ap (λ (b : Bool). if b then none else lookup a m) mine ∙ sym (t.fresh a mine))
              | inr other ↦ Gives-else (holds n c t.gs) m m₁ g a other ∙ t.rest a other
            ])
            l)

  session_steps-Layers :
      (A : Allocator) (ss : List Step) (j : ℕ) (n : Ptr) (c : Fields) (ps : Pilers)
      (m below : Memory)
      → All IsManaged ss
      → j + length ss ≤ k
      → Layers ps below
      → IsLayer j below ((n, c), m)
      → Returns (λ (qs, m'). Layers qs m') (session_steps A k ss n c ps m)
  unfolding session_steps
  session_steps-Layers A [] j n c ps m below a e l t =
      returns (below, l, raised j k below ((n, c), m) (omega arith) t)
  session_steps-Layers A (chain ∷ ss) j n c ps m below (_, a) e l t =
      let up = raised j k below ((n, c), m) (omega arith) t in
      Returns-bind
        (chain_piler-IsLayer A k m n c t.gs t.held_by j
          (Short-raised j k t.gs managed (omega arith) t.short) t.short)
        λ ((n', c'), m') t'.
          session_steps-Layers A ss j n' c' ((n, c) ∷ ps) m' m a (omega arith) (below, l, up) t'
  session_steps-Layers A (piled p s ∷ ss) j n c ps m below (inside, a) e l t =
      Returns-bind (pile_up-IsGrown A n p s c m t.gs t.held_by inside) λ (c', m') g.
        session_steps-Layers A ss (suc j) n c' ps m' below a (omega arith) l
          (grown-IsLayer j below n c m (c', m') t g)

-- A session that begins with a chain, with more fuel than nodes in any pile of its piler and steps
-- together: whatever is chained and piled up, on piles that `cplr_free` clears, it returns, and when
-- all new pilers have been freed, the last one first, memory is as it was.
pub chained_session-restores :
    (A : Allocator) (m : Memory) (self : Ptr) (c : Fields) (es : Blocks)
    → IsHeld m self c es
    → (j k : ℕ) (ss : List Step) → Short j es managed
    → j + length ss ≤ k
    → All IsManaged ss
    → Returns (λ m'. (a : Ptr) → lookup a m' ≡ lookup a m) (chained_session A k ss c m)
unfolding chained_session
chained_session-restores A m self c es h j k ss short e a =
    Returns-bind
      (chain_piler-IsLayer A k m self c es h j (Short-raised j k es managed (omega arith) short)
        short)
      λ ((n, d), m₁) t.
        Returns-bind (session_steps-Layers k m A ss j n d [] m₁ m a e (λ a. refl) t)
          λ (ps, m₂) l. free_pilers-Layers k m ps m₂ l
