-- ===== src/State/Struct/Refines.antt =====
-- `cplr_clone` in memory against `cplr_clone` on the lists of texts, and the way back by `cplr_free`.
use cplr.Base.{
  ℕ, ◌≡◌, ◌≢◌, refl, sym, ap, ◌∙◌, subst, Bool, true, false, ◌||◌, Option, none, some, List, [],
  ◌∷◌, map, Bool-cases, inl, inr, arith, ◌==◌, if◌then◌else◌,
}
use cplr.Base.Outcome.{◌>>=◌, Returns, returns, Returns-bind, Returns-mono}
use cplr.Base.Text.{Text}
use cplr.State.Context.{Cplr, Ptr, null}
use cplr.State.Laws.{NoNull}
use cplr.Cext.Memory.{Memory, piler, lookup, write, lookup-write, lookup-write_self, Allocator}
use cplr.Cext.List.{l_init}
use cplr.Cext.List.Shape.{texts}
use cplr.Cext.List.Patch.{Keeps, cell_ne_none}
use cplr.Cext.List.Clone.{texts-length}
use cplr.State.Struct.{
  Pile, Fields, no_fields, managed, calloc_piler, clone_piler, free_piler, optf, optm, defdef,
  defsys, sysdirs, incdirs, libdirs, defs, syss, incs, libs, pkgs, tlds, srcs, tlfs, stms, befs,
  afts,
}
use cplr.State.Struct.Frame.{Blocks, owned_by, Short}
use cplr.State.Struct.Free.{HeldTexts, held, texts_of, IsHeld, holds, free_piler-Gives}
use cplr.State.Struct.Copy.{SameTexts, Piles-Keeps, fresh-Keeps, clone_piles-CopiedPiles}

-- The texts of a pile in the record of a piler.
abbrev pub pile_of : {T : Type 0} → Cplr T → Pile → List (Option Text)
pile_of c optf = map some c.optf
pile_of c optm = map some c.optm
pile_of c defdef = map some c.defdef
pile_of c defsys = map some c.defsys
pile_of c sysdirs = map some c.sysdirs
pile_of c incdirs = map some c.incdirs
pile_of c libdirs = map some c.libdirs
pile_of c defs = c.defs
pile_of c syss = map some c.syss
pile_of c incs = map some c.incs
pile_of c libs = map some c.libs
pile_of c pkgs = map some c.pkgs
pile_of c tlds = map some c.tlds
pile_of c srcs = map some c.srcs
pile_of c tlfs = map some c.tlfs
pile_of c stms = map some c.stms
pile_of c befs = map some c.befs
pile_of c afts = map some c.afts

-- The lists in memory stand for the piles of the record.
abbrev pub StandFor : {T : Type 0} → Cplr T → Blocks → List Pile → Type 0
StandFor c es [] = Unit
StandFor c es (p ∷ ps) = (map some (texts (es p)) ≡ pile_of c p) × StandFor c es ps

pub same-StandFor :
    {T : Type 0} (c : Cplr T) (es gs : Blocks) (ps : List Pile)
    → SameTexts es gs ps
    → StandFor c es ps
    → StandFor c gs ps
same-StandFor c es gs [] s h = tt
same-StandFor c es gs (p ∷ ps) (s, ss) (h, hs) =
    (ap (map some) s ∙ h, same-StandFor c es gs ps ss hs)

pub same-Short :
    (k : ℕ) (es gs : Blocks) (ps : List Pile) → SameTexts es gs ps → Short k es ps → Short k gs ps
same-Short k es gs [] s h = tt
same-Short k es gs (p ∷ ps) (s, ss) (h, hs) =
    (omega (arith, texts-length (gs p) (es p) s), same-Short k es gs ps ss hs)

pub NoNull-map : (ts : List Text) (ds : List (Option Text)) → map some ts ≡ ds → NoNull ds
NoNull-map ts ds e = subst NoNull e (go ts)
  where
    go : (ts : List Text) → NoNull (map some ts)
    go = elim [ [] ↦ tt | t ∷ (ts → ih) ↦ (refl, ih) ]

pub IsHeld-Keeps :
    (m m' : Memory) (self : Ptr) (c : Fields) (es : Blocks)
    → Keeps m m'
    → IsHeld m self c es
    → IsHeld m' self c es
IsHeld-Keeps m m' self c es k h = record {
  self_ne_null = h.self_ne_null;
  block = k self (cell_ne_none h.block) ∙ h.block;
  texts = texts_kept (texts_of c) h.texts;
  piles = Piles-Keeps self es m m' c.heads managed k h.piles;
  apart = h.apart;
  texts_out = h.texts_out;
}
  where
    texts_kept : (ps : List Ptr) → HeldTexts m ps → HeldTexts m' ps
    texts_kept [] t = tt
    texts_kept (p ∷ ps) (inl e, ts) = (inl e, texts_kept ps ts)
    texts_kept (p ∷ ps) (inr (s, e, o), ts) =
        (inr (s, k p (cell_ne_none e) ∙ e, o), texts_kept ps ts)

pub held_nulls : (a : Ptr) → held (null ∷ null ∷ null ∷ []) a ≡ false
held_nulls a = ground arith

ne_of : (a b : Ptr) → (a == b) ≡ false → a ≢ b
ne_of a b h = ground arith

eq_of : (a b : Ptr) → (a == b) ≡ true → a ≡ b
eq_of a b h = ground arith

middle : {x y z : Bool} → x ≡ false → z ≡ false → ((x || y) || z) ≡ true → y ≡ true
middle {x} {y} {z} e f h = ground arith

pub none_of : (x y z : Bool) → ((x || y) || z) ≡ false → (y ≡ false) × (z ≡ false)
none_of x y z h = ground arith

-- The piler at `r` stands in blocks that were not in use in `m`, and the others are as in `m`.
abbrev pub IsNew : Memory → Ptr → Fields → Blocks → Memory → Type 0
IsNew m r cf gs m' =
    ((a : Ptr) → holds r cf gs a ≡ true → lookup a m ≡ none)
    × ((a : Ptr) → holds r cf gs a ≡ false → lookup a m' ≡ lookup a m)

-- A piler that has been copied: blocks that were not in use, and nothing else has changed.
pub record IsClone (m : Memory) (es : Blocks) (x : (Ptr × Fields) × Memory) : Type 0 where
  pub gs : Blocks
  pub held_by : IsHeld x.1 x.0.0 x.0.1 gs
  pub no_texts : (x.0.1.out ≡ null) × (x.0.1.g_codebuf ≡ null) × (x.0.1.g_dumpbuf ≡ null)
  pub same : SameTexts es gs managed
  pub heads_optf : x.0.1.heads optf ≡ l_init
  pub heads_optm : x.0.1.heads optm ≡ l_init
  pub empty_optf : gs optf ≡ []
  pub empty_optm : gs optm ≡ []
  pub fresh : (a : Ptr) → holds x.0.0 x.0.1 gs a ≡ true → lookup a m ≡ none
  pub rest : (a : Ptr) → holds x.0.0 x.0.1 gs a ≡ false → lookup a x.1 ≡ lookup a m

module _ (A : Allocator) (m : Memory) (self : Ptr) (c : Fields) (es : Blocks)
    (h : IsHeld m self c es) (k : ℕ) (short : Short k es managed) where
  pub clone_piler-IsClone : Returns (IsClone m es) (clone_piler A k c m)
  unfolding clone_piler calloc_piler
  clone_piler-IsClone =
      let r = A.malloc m in
      let m₁ = write r (some piler) m in
      let first : Keeps m m₁ = λ a used.
        lookup-write a r (some piler) m (λ i. used (ap (λ a. lookup a m) i ∙ A.malloc_unused m)) in
      Returns-bind
        (clone_piles-CopiedPiles A self r es k c.heads managed no_fields.heads (λ p. []) m₁ short
          refl (Piles-Keeps self es m m₁ c.heads managed first h.piles))
        λ (hs, m₂) o.
          let kept = fresh-Keeps (owned_by o.gs managed) m₁ m₂ o.fresh o.rest in
          let there = lookup-write_self r (some piler) m in
          returns {a = ((r, record no_fields { heads = hs }), m₂)} (record {
            gs = o.gs;
            held_by = record {
              self_ne_null = A.malloc_ne_null m;
              block = kept r (cell_ne_none there) ∙ there;
              texts = (inl refl, (inl refl, (inl refl, tt)));
              piles = o.piles;
              apart = o.apart;
              texts_out = λ a b. cc (held_nulls a);
            };
            no_texts = (refl, refl, refl);
            same = o.same;
            heads_optf = o.other_heads optf refl;
            heads_optm = o.other_heads optm refl;
            empty_optf = o.other_blocks optf refl;
            empty_optm = o.other_blocks optm refl;
            fresh = λ a b. elim (Bool-cases (a == r)) [
              | inl here ↦ let i = eq_of a r here in ap (λ a. lookup a m) i ∙ A.malloc_unused m
              | inr other ↦
                  sym (lookup-write a r (some piler) m (ne_of a r other))
                  ∙ o.fresh a (middle (held_nulls a) other b)
            ];
            rest = λ a b.
                let (out, apart) = none_of _ (owned_by o.gs managed a) (a == r) b in
                o.rest a out ∙ lookup-write a r (some piler) m (ne_of a r apart);
          })

  -- A copy that is freed again leaves memory as it was.
  clone_piler-free_piler :
      Returns
        (λ m₂. (a : Ptr) → lookup a m₂ ≡ lookup a m)
        (do ((r, cf), m₁) ← clone_piler A k c m; free_piler k r cf m₁)
  clone_piler-free_piler = Returns-bind clone_piler-IsClone λ ((r, cf), m₁) o.
      Returns-mono
        (free_piler-Gives m₁ r cf o.gs o.held_by k (same-Short k es o.gs managed o.same short))
        λ m₂ g a. elim (Bool-cases (holds r cf o.gs a)) [
          | inl mine ↦
              g a ∙ (ap (λ (b : Bool). if b then none else lookup a m₁) mine ∙ sym (o.fresh a mine))
          | inr other ↦
              g a ∙ (ap (λ (b : Bool). if b then none else lookup a m₁) other ∙ o.rest a other)
        ]
