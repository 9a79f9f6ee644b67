-- ===== src/State/Struct/Chain.antt =====
-- `cplr_chain` in memory against `cplr_chain` on the lists of texts.
use cplr.Base.{
  ◌≡◌, sym, arith, ◌||◌, List, none, inr, Bool-cases, if◌then◌else◌, ap, ◌∙◌, Bool, ◌==◌, true,
  false, [], ◌∷◌, inl,
}
use cplr.State.Context.{Ptr, null}
use cplr.Cext.Memory.{lookup, Memory}
use cplr.Cext.List.Shape.{texts}
use cplr.State.Struct.{Pile, Heads, Fields, managed, volatile}
use cplr.State.Struct.Frame.{Blocks, owned_by, among_piles, Piles-frame, piler_out}
use cplr.State.Struct.Free.{Gives-else, IsHeld, held, holds, ClearedPiles}
use cplr.State.Struct.Refines.{IsNew, none_of, held_nulls}
use cplr.State.Struct.Parts.{
  keep, cut, owned_by-cut, owned_by-parts, owned_by-keep, drop_piles, Piles-keep, ApartPiles-cut,
  keep-apart, Piles-cut, owned_by-IsBlock,
}

-- The test for the piles that are cleared.
abbrev pub is_volatile : Pile → Bool
is_volatile = among_piles volatile

-- The copy with its volatile piles emptied.
pub emptied-IsHeld :
    (r : Ptr) (cf : Fields) (m₁ m₂ : Memory) (gs : Blocks) (hs : Heads)
    → IsHeld m₁ r cf gs
    → cf.out ≡ null
    → cf.g_codebuf ≡ null
    → cf.g_dumpbuf ≡ null
    → ClearedPiles r gs m₁ cf.heads volatile (hs, m₂)
    → IsHeld m₂ r (record cf { heads = hs }) (cut is_volatile gs)
emptied-IsHeld r cf m₁ m₂ gs hs o e₁ e₂ e₃ x =
    let nothing : (a : Ptr) → held (cf.out ∷ cf.g_codebuf ∷ cf.g_dumpbuf ∷ []) a ≡ false =
      λ a. rw (e₁, e₂, e₃) (held_nulls a) in
    let vol = Piles-keep is_volatile r gs m₁ cf.heads managed o.piles in
    let same = Gives-else (owned_by gs volatile) m₁ m₂ x.gives in
    let stable =
      Piles-frame r gs m₁ m₂ (owned_by gs volatile) cf.heads (drop_piles is_volatile managed) same
        (λ a b. owned_by-IsBlock r gs m₁ cf.heads volatile a vol b)
        (λ a b. keep-apart is_volatile gs managed a o.apart b)
        (Piles-keep (λ q. elim (is_volatile q) [ true ↦ false | false ↦ true ]) r gs m₁ cf.heads
          managed o.piles) in
    record {
      self_ne_null = o.self_ne_null;
      block = same r (piler_out r gs m₁ cf.heads volatile r vol o.block) ∙ o.block;
      texts = (inl e₁, (inl e₂, (inl e₃, tt)));
      piles = Piles-cut is_volatile r gs m₂ cf.heads hs managed x.heads stable;
      apart = ApartPiles-cut is_volatile gs managed o.apart;
      texts_out = λ a b. cc (nothing a);
    }

none_more : {x y z : Bool} → x ≡ false → y ≡ false → z ≡ false → ((x || y) || z) ≡ false
none_more {x} {y} {z} e f g = ground arith

some_more : (x : Bool) {y : Bool} (z : Bool) → y ≡ true → ((x || y) || z) ≡ true
some_more x {y} z e = ground arith

kept_some :
    (es : Blocks) (ps : List Pile) (a : Ptr)
    → owned_by es (keep is_volatile ps) a ≡ true
    → owned_by es ps a ≡ true
kept_some es ps a h = elim (Bool-cases (owned_by es ps a)) [
  | inl there ↦ there
  | inr out ↦ cc (h, owned_by-keep is_volatile es ps a out)
]

-- Its blocks were not in use before the copy, and all others are as they were.
pub emptied-IsNew :
    (r : Ptr) (cf : Fields) (m m₁ m₂ : Memory) (gs : Blocks) (hs : Heads)
    → cf.out ≡ null
    → cf.g_codebuf ≡ null
    → cf.g_dumpbuf ≡ null
    → ((a : Ptr) → holds r cf gs a ≡ true → lookup a m ≡ none)
    → ((a : Ptr) → holds r cf gs a ≡ false → lookup a m₁ ≡ lookup a m)
    → ClearedPiles r gs m₁ cf.heads volatile (hs, m₂)
    → IsNew m r (record cf { heads = hs }) (cut is_volatile gs) m₂
emptied-IsNew r cf m m₁ m₂ gs hs e₁ e₂ e₃ fresh rest x = (
  (λ a b. elim (Bool-cases (holds r cf gs a)) [
    | inl mine ↦ fresh a mine
    | inr other ↦
        let (out, apart) = none_of (texts_at a) (owned_by gs managed a) (a == r) other in
        absurd (cc (b, none_more (no_texts a) (owned_by-cut is_volatile gs managed a out) apart))
  ]),
  λ a b.
      let (out, apart) =
        none_of (texts_at a) (owned_by (cut is_volatile gs) managed a) (a == r) b in
      elim (Bool-cases (owned_by gs volatile a)) [
        | inl cleared ↦
            x.gives a
            ∙ (ap (λ (b : Bool). if b then none else lookup a m₁) cleared
                ∙ sym (fresh a (some_more (texts_at a) (a == r) (kept_some gs managed a cleared))))
        | inr kept ↦
            Gives-else (owned_by gs volatile) m₁ m₂ x.gives a kept
            ∙ rest a
                (none_more (no_texts a) (owned_by-parts is_volatile gs managed a out kept) apart)
      ],
)
  where
    texts_at : Ptr → Bool
    texts_at a = held (cf.out ∷ cf.g_codebuf ∷ cf.g_dumpbuf ∷ []) a

    no_texts : (a : Ptr) → texts_at a ≡ false
    no_texts a = rw (e₁, e₂, e₃) (held_nulls a)
