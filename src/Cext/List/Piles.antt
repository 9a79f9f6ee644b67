-- ===== src/Cext/List/Piles.antt =====
-- A list of strings in memory stands for the list of their texts.
use cplr.Base.{subst, ◌≡◌, ◌≢◌, refl, ◌∙◌, true, false, Option, some, List, [], ◌∷◌, snoc, arith}
use cplr.Base.Outcome.{Outcome, done, Returns, Returns-mono}
use cplr.Base.Text.{Text}
use cplr.State.Context.{Ptr, null}
use cplr.Cext.Types.{vt_string}
use cplr.Cext.Memory.{
  Value, Memory, Cell, heap_text, static_text, node, lookup, write, lookup-write, lookup-write_self,
  read_node, Allocator, empty_node, calloc_node,
}
use cplr.Cext.Value.{empty_value, value_clear, set_owned, set_static}
use cplr.Cext.Value.Strings.{Kind, owned, static, is_owned, string_value, text_cell, malloc_apart}
use cplr.Cext.List.{Head, set_value, append_value, l_append_str_owned, l_append_str_static}
use cplr.Cext.List.Shape.{
  Entry, owns, reaches, IsList, texts, Linked-write, reaches-unused, texts-snoc,
}
use cplr.Cext.List.Append.{Appended, append_to}

-- The list at `at` stands for the texts; `es` are its nodes and strings.
abbrev pub Stands : Memory → (at : Ptr) → Head → List Text → List Entry → Type 0
Stands m at lh ss es = IsList m at lh es × (texts es ≡ ss)

pub IsList-write :
    (m : Memory) (at : Ptr) (lh : Head) (es : List Entry) (a : Ptr) (c : Option Cell)
    → reaches es a ≡ false
    → IsList m at lh es
    → IsList (write a c m) at lh es
IsList-write m at lh es a c h l = record {
  counted = l.counted;
  begins = l.begins;
  ends = l.ends;
  linked = Linked-write m at null null es a c h l.linked;
  apart = l.apart;
}

pub owns-reaches : (es : List Entry) (a : Ptr) → reaches es a ≡ false → owns es a ≡ false
owns-reaches [] a h = refl
owns-reaches (e ∷ es) a h = ground (arith, owns-reaches es a)

-- Appending `t`: what the list stands for then, and the memory that is left as it was.
pub record Appends (m : Memory) (at : Ptr) (lh : Head) (ss : List Text) (t : Text) (p : Ptr)
    (x : Head × Memory) : Type 0 where
  pub stands : (es : List Entry) × Stands x.1 at x.0 (snoc ss t) es
  pub others : (a : Ptr) → a ≢ p → a ≢ lh.last → lookup a x.1 ≡ lookup a m

module _ (A : Allocator) (m : Memory) (at : Ptr) (lh : Head) (es : List Entry)
    (l : IsList m at lh es) where
  -- A node that is allocated, and then its value.
  append_value-Entry :
      (k : Kind) (s : Ptr) (t : Text) (setter : Value → Memory → Outcome (Value × Memory))
      → s ≢ null
      → lookup s m ≡ some (text_cell k t)
      → (is_owned k ≡ true → owns es s ≡ false)
      → ((m₁ : Memory) → setter empty_value m₁ ≡ done (string_value k s, m₁))
      → Returns
          (Appended m at lh es (record { place = A.malloc m; kind = k; str = s; text = t }))
          (append_value A setter at lh m)
  unfolding append_value calloc_node set_value read_node
  append_value-Entry k s t setter s_ne text out sets =
      let p = A.malloc m in
      let e : Entry = record { place = p; kind = k; str = s; text = t } in
      let n = record empty_node { v = string_value k s } in
      let m₁ = write p (some (node empty_node)) m in
      let m₃ = write p (some (node n)) m₁ in
      let far = reaches-unused m at null null es p l.linked (A.malloc_unused m) in
      let l₃ =
        IsList-write m₁ at lh es p (some (node n)) far
          (IsList-write m at lh es p (some (node empty_node)) far l) in
      let apart = malloc_apart A m s text in
      let text₃ =
        lookup-write s p (some (node n)) m₁ apart
        ∙ lookup-write s p (some (node empty_node)) m apart
        ∙ text in
      rw (sets m₁, lookup-write_self p (some (node empty_node)) m)
        (Returns-mono
          (append_to m₃ at lh es e l₃ (record {
            place_ne_null = A.malloc_ne_null m;
            node_at = lookup-write_self p (some (node n)) m₁;
            str_ne_null = s_ne;
            text_at = text₃;
            place_out = owns-reaches es p far;
            str_out = out;
          }))
          λ x a.
            let before : (b : Ptr) → b ≢ p → lookup b m₃ ≡ lookup b m = λ b h.
              lookup-write b p (some (node n)) m₁ h
              ∙ lookup-write b p (some (node empty_node)) m h in
            record {
              list = a.list;
              others = λ b h i. a.others b h i ∙ before b h;
              rest = λ b h i. a.rest b h i ∙ before b h;
            })

  append_value-Appended :
      (k : Kind) (s : Ptr) (t : Text) (setter : Value → Memory → Outcome (Value × Memory))
      → s ≢ null
      → lookup s m ≡ some (text_cell k t)
      → (is_owned k ≡ true → owns es s ≡ false)
      → ((m₁ : Memory) → setter empty_value m₁ ≡ done (string_value k s, m₁))
      → Returns (Appends m at lh (texts es) t (A.malloc m)) (append_value A setter at lh m)
  append_value-Appended k s t setter s_ne text out sets =
      let e : Entry = record { place = A.malloc m; kind = k; str = s; text = t } in
      Returns-mono (append_value-Entry k s t setter s_ne text out sets)
        λ x a. record { stands = (snoc es e, (a.list, texts-snoc es e)); others = a.others }

  -- The entry that is appended for an allocated string that no entry owns yet.
  pub l_append_str_owned-Entry :
      (s : Ptr) (t : Text)
      → s ≢ null
      → lookup s m ≡ some (heap_text t)
      → owns es s ≡ false
      → Returns
          (Appended m at lh es (record { place = A.malloc m; kind = owned; str = s; text = t }))
          (l_append_str_owned A at lh s m)
  unfolding l_append_str_owned set_owned value_clear
  l_append_str_owned-Entry s t ne e out =
      append_value-Entry owned s t (λ v. set_owned vt_string v s) ne e (λ o. out) (λ m₁. refl)

module _ (A : Allocator) (m : Memory) (at : Ptr) (lh : Head) (ss : List Text) (es : List Entry)
    (l : Stands m at lh ss es) where
  -- Appending a string that is not allocated, such as a literal or an argument: the list stands
  -- for its texts with the new one at the end, and but for the new node and the node that was the
  -- last all memory is as it was.
  pub l_append_str_static-Appends :
      (s : Ptr) (t : Text)
      → s ≢ null
      → lookup s m ≡ some (static_text t)
      → Returns (Appends m at lh ss t (A.malloc m)) (l_append_str_static A at lh s m)
  unfolding l_append_str_static set_static value_clear
  l_append_str_static-Appends s t ne e =
      subst (λ ss. Returns (Appends m at lh ss t (A.malloc m)) (l_append_str_static A at lh s m))
        l.1
        (append_value-Appended A m at lh es l.0 static s t (λ v. set_static vt_string v s) ne e
          (λ o. cc) (λ m₁. refl))

  -- Appending a string that is allocated and that no entry owns yet, in the same way.
  pub l_append_str_owned-Appends :
      (s : Ptr) (t : Text)
      → s ≢ null
      → lookup s m ≡ some (heap_text t)
      → owns es s ≡ false
      → Returns (Appends m at lh ss t (A.malloc m)) (l_append_str_owned A at lh s m)
  unfolding l_append_str_owned set_owned value_clear
  l_append_str_owned-Appends s t ne e out =
      subst (λ ss. Returns (Appends m at lh ss t (A.malloc m)) (l_append_str_owned A at lh s m)) l.1
        (append_value-Appended A m at lh es l.0 owned s t (λ v. set_owned vt_string v s) ne e
          (λ o. out) (λ m₁. refl))
