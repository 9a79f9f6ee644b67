-- ===== src/Cext/List/Clone.antt =====
-- A copy of a list in memory stands for the same texts, in blocks of its own.
use cplr.Base.{
  ℕ, zero, suc, ◌<◌, ◌≡◌, ◌≢◌, refl, sym, ap, ◌∙◌, subst, true, false, none, some, List, [], ◌∷◌,
  ◌++◌, snoc, length, append-nil, append_assoc, ◌==◌, arith, if◌then◌else◌, Bool-cases, inl, inr,
}
use cplr.Base.Outcome.{Returns, returns, Returns-bind}
use cplr.Base.Text.{Text}
use cplr.State.Context.{Ptr, null}
use cplr.Cext.Memory.{
  Memory, heap_text, node, lookup, write, lookup-write, lookup-write_self, read_node, Allocator,
  calloc_node,
}
use cplr.Cext.Value.Strings.{
  Kind, owned, static, copied, is_owned, copy_of, malloc_apart, value_clone-string,
}
use cplr.Cext.List.{Head, set_value, clone_nodes, l_clone}
use cplr.Cext.List.Shape.{
  Entry, first_of, last_of, node_of, Linked, owns, reaches, texts, Linked-write, reaches-unused,
  Linked-snoc, Apart-snoc, last_of-snoc, texts-snoc, owns-snoc,
}
use cplr.Cext.List.Piles.{Stands, owns-reaches}
use cplr.Cext.List.Patch.{
  Keeps, cell_ne_none, Linked-Keeps, Copied, Patched, text_cell-copy_of, unused-Keeps,
  unused_before, patch,
}

is_owned-copy_of : (k : Kind) → is_owned (copy_of k) ≡ true
is_owned-copy_of owned = refl
is_owned-copy_of static = refl
is_owned-copy_of copied = refl

first_kept :
    (m : Memory) (at : Ptr) (fs : List Entry) (f : Entry)
    → Linked m at null null fs
    → (if first_of fs null == null then f.place else first_of fs null) ≡ first_of (snoc fs f) null
first_kept m at [] f l = refl
first_kept m at (g ∷ fs) f l =
    let not_null : (g.place == null) ≡ false = ground (arith, l.0) in rw not_null refl

length-texts : (es : List Entry) → length (texts es) ≡ length es
length-texts [] = refl
length-texts (e ∷ es) = ap suc (length-texts es)

pub texts-length : (es gs : List Entry) → texts es ≡ texts gs → length es ≡ length gs
texts-length es gs e = sym (length-texts es) ∙ (ap length e ∙ length-texts gs)

module _ (A : Allocator) (m₀ : Memory) (at : Ptr) where
  -- The copy of an entry.
  abbrev copy : (p : Ptr) → Entry → Memory → Entry
  copy p e m₃ = record { place = p; kind = copy_of e.kind; str = A.malloc m₃; text = e.text }

  -- The memory with the copy of an entry.
  abbrev with_copy : (p prev : Ptr) → Entry → Memory → Memory
  with_copy p prev e m₃ =
      write p (some (node (node_of at prev null (copy p e m₃))))
        (write (A.malloc m₃) (some (heap_text e.text)) m₃)

  attach :
      (m m₃ : Memory) (p : Ptr) (fs : List Entry) (e : Entry)
      → p ≢ null
      → lookup p m₀ ≡ none
      → reaches fs p ≡ false
      → Copied m₀ m at fs
      → Patched m₀ m at p fs m₃
      → Copied m₀ (with_copy p (last_of null fs) e m₃) at (snoc fs (copy p e m₃))
  attach m m₃ p fs e ne unused far c pt =
      let q = A.malloc m₃ in
      let f = copy p e m₃ in
      let x = node (node_of at (last_of null fs) null f) in
      let m₄ = write q (some (heap_text e.text)) m₃ in
      let q_far = reaches-unused m₃ at p null fs q pt.linked (A.malloc_unused m₃) in
      let apart : q ≢ p = λ i. malloc_apart A m₃ p pt.new (sym i) in
      let q_unused = unused_before m₀ m₃ q pt.kept (A.malloc_unused m₃) in
      let p_out = owns-reaches fs p far in
      let q_out = owns-reaches fs q q_far in
      record {
        linked =
            Linked-snoc (write p (some x) m₄) at null null fs f
              (Linked-write m₄ at p null fs p (some x) far
                (Linked-write m₃ at p null fs q (some (heap_text e.text)) q_far pt.linked))
              (
                ne,
                lookup-write_self p (some x) m₄,
                A.malloc_ne_null m₃,
                lookup-write q p (some x) m₄ apart
                    ∙ (lookup-write_self q (some (heap_text e.text)) m₃
                        ∙ ap some (sym (text_cell-copy_of e.kind e.text))),
                tt,
              );
        apart = Apart-snoc fs f c.apart p_out (λ o. q_out);
        kept =
            unused-Keeps m₀ m₄ p x unused
              (unused-Keeps m₀ m₃ q (heap_text e.text) q_unused pt.kept);
        fresh = λ a h. elim (Bool-cases (owns fs a)) [
          | inl old ↦ c.fresh a old
          | inr new ↦
              let is_new = sym (owns-snoc fs f a) ∙ h in
              elim (Bool-cases (a == p)) [
                | inl here ↦ let i : a ≡ p = ground arith in ap (λ a. lookup a m₀) i ∙ unused
                | inr other ↦ let i : a ≡ q = ground arith in ap (λ a. lookup a m₀) i ∙ q_unused
              ]
        ];
        rest = λ a h.
            let out = sym (owns-snoc fs f a) ∙ h in
            let mine = is_owned-copy_of e.kind in
            let a_ne_p : a ≢ p = ground arith in
            let a_ne_q : a ≢ q = ground arith in
            lookup-write a p (some x) m₄ a_ne_p
            ∙ (lookup-write a q (some (heap_text e.text)) m₃ a_ne_q
                ∙ pt.rest a a_ne_p (ground arith));
      }

  -- What the loop leaves: the entries of the copy, which are for the texts given.
  record Cloned (ts : List Text) (x : (Ptr × Ptr) × Memory) : Type 0 where
    gs : List Entry
    copies : Copied m₀ x.1 at gs
    begins : x.0.0 ≡ first_of gs null
    ends : x.0.1 ≡ last_of null gs
    same : texts gs ≡ ts

  clone_nodes-Cloned :
      (k : ℕ) (at₀ prev : Ptr) (es fs : List Entry) (m : Memory)
      → Linked m₀ at₀ prev null es
      → Copied m₀ m at fs
      → length es < k
      → Returns
          (Cloned (texts fs ++ texts es))
          (clone_nodes A k at (first_of es null) (first_of fs null) (last_of null fs) m)
  unfolding clone_nodes calloc_node read_node set_value
  clone_nodes-Cloned zero at₀ prev es fs m l c lt = absurd (omega arith)
  clone_nodes-Cloned (suc k) at₀ prev [] fs m l c lt = returns (record {
    gs = fs;
    copies = c;
    begins = refl;
    ends = refl;
    same = sym (append-nil (texts fs));
  })
  clone_nodes-Cloned (suc k) at₀ prev (e ∷ es) fs m (n, i, s, t, l) c lt =
      let p = A.malloc m in
      let not_null : (e.place == null) ≡ false = ground arith in
      let far = reaches-unused m at null null fs p c.linked (A.malloc_unused m) in
      let unused = unused_before m₀ m p c.kept (A.malloc_unused m) in
      rw not_null (
        Returns-bind (patch A m₀ at m fs c) λ m₃ pt.
          let q = A.malloc m₃ in
          let f = copy p e m₃ in
          let here = pt.kept e.place (cell_ne_none i) ∙ i in
          let text = pt.kept e.str (cell_ne_none t) ∙ t in
          let apart = malloc_apart A m₃ p pt.new in
          let still = lookup-write p q (some (heap_text e.text)) m₃ apart ∙ pt.new in
          rw
            (
              here,
              value_clone-string A m₃ e.str e.text e.kind text,
              still,
              first_kept m at fs f c.linked,
            )
            (subst
              (λ ts. Returns (Cloned ts) (
                clone_nodes A k at (first_of es null) (first_of (snoc fs f) null) p
                  (with_copy p (last_of null fs) e m₃)))
              (ap (λ ts. ts ++ texts es) (texts-snoc fs f)
                ∙ append_assoc (texts fs) (e.text ∷ []) (texts es))
              (subst
                (λ last. Returns (Cloned (texts (snoc fs f) ++ texts es)) (
                  clone_nodes A k at (first_of es null) (first_of (snoc fs f) null) last
                    (with_copy p (last_of null fs) e m₃)))
                (last_of-snoc null fs f)
                (clone_nodes-Cloned k at₀ e.place es (snoc fs f)
                  (with_copy p (last_of null fs) e m₃) l
                  (attach m m₃ p fs e (A.malloc_ne_null m) unused far c pt) (omega arith)))))

  -- A copy of the list: it stands for the texts, in blocks that were not in use, and all else
  -- is as it was.
  pub record IsCopy (ts : List Text) (x : Head × Memory) : Type 0 where
    pub gs : List Entry
    pub stands : Stands x.1 at x.0 ts gs
    pub fresh : (a : Ptr) → owns gs a ≡ true → lookup a m₀ ≡ none
    pub kept : Keeps m₀ x.1
    pub rest : (a : Ptr) → owns gs a ≡ false → lookup a x.1 ≡ lookup a m₀

  pub l_clone-IsCopy :
      (k : ℕ) (at₀ : Ptr) (lh : Head) (ss : List Text) (es : List Entry)
      → Stands m₀ at₀ lh ss es
      → length es < k
      → Returns (λ x. IsCopy ss x × Stands x.1 at₀ lh ss es) (l_clone A k at lh m₀)
  unfolding l_clone
  l_clone-IsCopy k at₀ lh ss es (l, e) lt =
      Returns-bind
        (subst (λ p. Returns (Cloned (texts es)) (clone_nodes A k at p null null m₀)) (sym l.begins)
          (clone_nodes-Cloned k at₀ null es [] m₀ l.linked
            (record {
              linked = tt;
              apart = tt;
              kept = λ a h. refl;
              fresh = λ a h. cc;
              rest = λ a o. refl;
            })
            lt))
        λ x c. returns (
          record {
            gs = c.gs;
            stands = (
              record {
                counted = l.counted ∙ texts-length es c.gs (sym c.same);
                begins = c.begins;
                ends = c.ends;
                linked = c.copies.linked;
                apart = c.copies.apart;
              },
              c.same ∙ e,
            );
            fresh = c.copies.fresh;
            kept = c.copies.kept;
            rest = c.copies.rest;
          },
          (
            record {
              counted = l.counted;
              begins = l.begins;
              ends = l.ends;
              linked = Linked-Keeps m₀ x.1 at₀ null null es c.copies.kept l.linked;
              apart = l.apart;
            },
            e,
          ),
        )
