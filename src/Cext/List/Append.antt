-- ===== src/Cext/List/Append.antt =====
-- Appending to a list in memory appends to the list of texts.
use cplr.Base.{
  subst, ◌+◌, ◌≡◌, ◌≢◌, refl, sym, ap, ◌∙◌, true, false, some, List, [], ◌∷◌, snoc, length-append,
  ◌==◌, arith, if◌then◌else◌,
}
use cplr.Base.Outcome.{done, Returns, returns}
use cplr.State.Context.{Ptr, null}
use cplr.Cext.Memory.{
  Node, Memory, node, lookup, write, lookup-write, lookup-write_self, read_node, empty_node,
}
use cplr.Cext.Value.Strings.{is_owned, string_value, text_cell}
use cplr.Cext.List.{Head, set_next, l_append}
use cplr.Cext.List.Shape.{
  Entry, last_of, node_of, Linked, owns, Apart, IsList, Linked-write, reaches-block, owns_ne,
  node_ne_text, Linked-snoc, Apart-snoc, last_of-snoc,
}

owns-cons : (e : Entry) (a : Ptr) (es : List Entry) → owns es a ≡ true → owns (e ∷ es) a ≡ true
owns-cons e a es h = ground arith

-- The last node with another link, and the entries with it.
pub record Relinked (m : Memory) (at prev q : Ptr) (e : Entry) (es : List Entry) (last : Ptr)
    : Type 0 where
  pub n : Node
  pub found : lookup last m ≡ some (node n)
  pub mine : owns (e ∷ es) last ≡ true
  pub relinked : Linked (write last (some (node (record n { next = q }))) m) at prev q (e ∷ es)

module _ (m : Memory) (at stop q : Ptr) where
  pub relink :
      (prev : Ptr) (e : Entry) (es : List Entry)
      → Linked m at prev stop (e ∷ es)
      → Apart (e ∷ es)
      → Relinked m at prev q e es (last_of e.place es)
  relink prev e [] (n, p, s, t, l) h = record {
    n = _;
    found = p;
    mine = ground arith;
    relinked = (n, ground arith, s, ground arith, tt);
  }
  relink prev e (f ∷ es) (n, p, s, t, l) h =
      let r = relink e.place f es l h.2 in
      let last = last_of f.place es in
      let c = some (node (record r.n { next = q })) in
      let c' : e.place ≢ last = owns_ne (f ∷ es) e.place last h.0 r.mine in
      let d : e.str ≢ last = λ i. node_ne_text m last e.str e.text e.kind r.found t (sym i) in
      record {
        n = r.n;
        found = r.found;
        mine = owns-cons e last (f ∷ es) r.mine;
        relinked = (
          n,
          lookup-write e.place last c m c' ∙ p,
          s,
          lookup-write e.str last c m d ∙ t,
          r.relinked,
        );
      }

pub last_of-ne-null :
    (m : Memory) (at prev stop : Ptr) (e : Entry) (es : List Entry)
    → Linked m at prev stop (e ∷ es)
    → last_of e.place es ≢ null
last_of-ne-null m at prev stop e [] l = l.0
last_of-ne-null m at prev stop e (f ∷ es) l = last_of-ne-null m at e.place stop f es l.4

l_append_lem :
    (at : Ptr) (lh : Head) (p : Ptr) (m : Memory) {n n' : Node}
    → lookup p m ≡ some (node n)
    → lh.last ≢ null
    → lookup lh.last (write p (some (node (record n { head = at; prev = lh.last }))) m)
      ≡ some (node n')
    → l_append at lh p m
      ≡ done (
        record { count = lh.count + 1; first = if lh.first == null then p else lh.first; last = p },
        write lh.last
            (some (node (record n' { next = p })))
            (write p (some (node (record n { head = at; prev = lh.last }))) m),
      )
unfolding l_append set_next read_node
l_append_lem at lh p m e ne k =
    let not_null : (lh.last == null) ≡ false = ground arith in rw (e, not_null, k) refl

-- What appending an entry leaves.
pub record Appended (m : Memory) (at : Ptr) (lh : Head) (es : List Entry) (e : Entry)
    (x : Head × Memory) : Type 0 where
  pub list : IsList x.1 at x.0 (snoc es e)
  pub others : (a : Ptr) → a ≢ e.place → a ≢ lh.last → lookup a x.1 ≡ lookup a m
  pub rest : (a : Ptr) → a ≢ e.place → owns es a ≡ false → lookup a x.1 ≡ lookup a m

-- A node with a string that the list has not got yet.
pub record IsNew (m : Memory) (es : List Entry) (e : Entry) : Type 0 where
  pub place_ne_null : e.place ≢ null
  pub node_at : lookup e.place m ≡ some (node (record empty_node { v = string_value e.kind e.str }))
  pub str_ne_null : e.str ≢ null
  pub text_at : lookup e.str m ≡ some (text_cell e.kind e.text)
  pub place_out : owns es e.place ≡ false
  pub str_out : is_owned e.kind ≡ true → owns es e.str ≡ false

module _ (m : Memory) (at : Ptr) where
  first_kept :
      (lh : Head) (f : Entry) (es : List Entry) (e : Entry)
      → IsList m at lh (f ∷ es)
      → (if lh.first == null then e.place else lh.first) ≡ f.place
  first_kept lh f es e l =
      let not_null : (lh.first == null) ≡ false = ground (arith, l.begins, l.linked.0) in
      rw not_null l.begins

  pub append_to :
      (lh : Head) (es : List Entry) (e : Entry)
      → IsList m at lh es
      → IsNew m es e
      → Returns (Appended m at lh es e) (l_append at lh e.place m)
  unfolding l_append read_node
  append_to lh [] e l new =
      let at_place = lookup-write_self e.place (some (node (node_of at null null e))) m in
      let c' : e.str ≢ e.place =
        λ i. node_ne_text m e.place e.str e.text e.kind new.node_at new.text_at (sym i) in
      let text_at =
        lookup-write e.str e.place (some (node (node_of at null null e))) m c' ∙ new.text_at in
      rw (new.node_at, l.ends)
        (returns (record {
          list = record {
            counted = rw l.counted refl;
            begins = rw l.begins refl;
            ends = refl;
            linked = (new.place_ne_null, at_place, new.str_ne_null, text_at, tt);
            apart = (refl, (λ o. refl), tt);
          };
          others = λ a h k. lookup-write a e.place _ m h;
          rest = λ a h k. lookup-write a e.place _ m h;
        }))
  append_to lh (f ∷ es) e l new =
      let last = lh.last in
      let c = some (node (node_of at last null e)) in
      let m₁ = write e.place c m in
      let out =
        reaches-block m at null null (f ∷ es) e.place l.linked new.node_at (λ s i. cc)
          new.place_out in
      let r = subst (Relinked m₁ at null e.place f es) (sym l.ends) (
        relink m₁ at null e.place null f es
          (Linked-write m at null null (f ∷ es) e.place c out l.linked) l.apart) in
      let d = some (node (record r.n { next = e.place })) in
      let c' : e.str ≢ e.place =
        λ i. node_ne_text m e.place e.str e.text e.kind new.node_at new.text_at (sym i) in
      let text₁ = lookup-write e.str e.place c m c' ∙ new.text_at in
      let d' : e.str ≢ last = λ i. node_ne_text m₁ last e.str e.text e.kind r.found text₁ (sym i) in
      let apart = owns_ne (f ∷ es) e.place last new.place_out r.mine in
      let last_ne : last ≢ null =
        λ i. last_of-ne-null m at null null f es l.linked (sym l.ends ∙ i) in
      rw (l_append_lem at lh e.place m new.node_at last_ne r.found) (
        returns (record {
          list = record {
            counted = ap (λ n. n + 1) l.counted ∙ sym (length-append (f ∷ es) (e ∷ []));
            begins = first_kept lh f es e l;
            ends = sym (last_of-snoc null (f ∷ es) e);
            linked = Linked-snoc (write last d m₁) at null null (f ∷ es) e r.relinked (
              new.place_ne_null,
              lookup-write e.place last d m₁ apart
                  ∙ lookup-write_self e.place c m
                  ∙ ap (λ prev. some (node (node_of at prev null e))) l.ends,
              new.str_ne_null,
              lookup-write e.str last d m₁ d' ∙ text₁,
              tt,
            );
            apart = Apart-snoc (f ∷ es) e l.apart new.place_out new.str_out;
          };
          others = λ a h k. lookup-write a last d m₁ k ∙ lookup-write a e.place c m h;
          rest = λ a h k.
              lookup-write a last d m₁ (owns_ne (f ∷ es) a last k r.mine)
              ∙ lookup-write a e.place c m h;
        }))
