-- ===== src/Cext/List/Shape.antt =====
-- What a list of strings is in memory.
use cplr.Base.{
  ◌≡◌, ◌≢◌, refl, ap, Bool, true, false, ◌&&◌, ◌||◌, Option, none, some, List, [], ◌∷◌, snoc,
  length, map, ◌==◌, arith,
}
use cplr.Base.Text.{Text}
use cplr.State.Context.{Ptr, null}
use cplr.Cext.Memory.{Node, Memory, Cell, static_text, node, lookup, write}
use cplr.Cext.Value.Strings.{Kind, owned, static, copied, is_owned, string_value, text_cell}
use cplr.Cext.List.{Head}

-- A node with its string.
pub record Entry : Type 0 where
  pub place : Ptr
  pub kind : Kind
  pub str : Ptr
  pub text : Text

abbrev pub first_of : List Entry → Ptr → Ptr
first_of [] stop = stop
first_of (e ∷ es) stop = e.place

abbrev pub last_of : Ptr → List Entry → Ptr
last_of prev [] = prev
last_of prev (e ∷ es) = last_of e.place es

abbrev pub node_of : (at prev next : Ptr) → Entry → Node
node_of at prev next e = record {
  head = at;
  next = next;
  prev = prev;
  v = string_value e.kind e.str;
}

-- From `prev` to `stop` the links lead through the entries, there and back.
abbrev pub Linked : Memory → (at prev stop : Ptr) → List Entry → Type 0
Linked m at prev stop [] = Unit
Linked m at prev stop (e ∷ es) =
    (e.place ≢ null)
    × (lookup e.place m ≡ some (node (node_of at prev (first_of es stop) e)))
    × (e.str ≢ null)
    × (lookup e.str m ≡ some (text_cell e.kind e.text))
    × Linked m at e.place stop es

-- The blocks that belong to the entries.
abbrev pub owns : List Entry → Ptr → Bool
owns [] a = false
owns (e ∷ es) a = (a == e.place) || ((is_owned e.kind && (a == e.str)) || owns es a)

-- The same with the strings that do not.
abbrev pub reaches : List Entry → Ptr → Bool
reaches [] a = false
reaches (e ∷ es) a = (a == e.place) || ((a == e.str) || reaches es a)

-- No block belongs to two entries.
abbrev pub Apart : List Entry → Type 0
Apart [] = Unit
Apart (e ∷ es) =
    (owns es e.place ≡ false) × (is_owned e.kind ≡ true → owns es e.str ≡ false) × Apart es

pub record IsList (m : Memory) (at : Ptr) (lh : Head) (es : List Entry) : Type 0 where
  pub counted : lh.count ≡ length es
  pub begins : lh.first ≡ first_of es null
  pub ends : lh.last ≡ last_of null es
  pub linked : Linked m at null null es
  pub apart : Apart es

abbrev pub texts : List Entry → List Text
texts = map (λ (e : Entry). e.text)

pub owns_ne : (es : List Entry) (a b : Ptr) → owns es a ≡ false → owns es b ≡ true → a ≢ b
owns_ne es a b h k e = cc (ap (owns es) e)

pub node_ne_text :
    (m : Memory) (a b : Ptr) {n : Node} (s : Text) (k : Kind)
    → lookup a m ≡ some (node n)
    → lookup b m ≡ some (text_cell k s)
    → a ≢ b
node_ne_text m a b s owned h t e = cc
node_ne_text m a b s static h t e = cc
node_ne_text m a b s copied h t e = cc

module _ (m : Memory) (at stop : Ptr) where
  -- A write to an address that the entries do not reach.
  pub Linked-write :
      (prev : Ptr) (es : List Entry) (a : Ptr) (c : Option Cell)
      → reaches es a ≡ false
      → Linked m at prev stop es
      → Linked (write a c m) at prev stop es
  Linked-write prev [] a c h l = tt
  Linked-write prev (e ∷ es) a c h (n, p, s, t, l) =
      (n, ground arith, s, ground arith, Linked-write e.place es a c (ground arith) l)

  -- Memory that is not in use is not reached.
  pub reaches-unused :
      (prev : Ptr) (es : List Entry) (a : Ptr)
      → Linked m at prev stop es
      → lookup a m ≡ none
      → reaches es a ≡ false
  reaches-unused prev [] a l u = refl
  reaches-unused prev (e ∷ es) a (n, p, s, t, l) u = ground (arith, reaches-unused e.place es a l u)

  -- A node, or an allocated string, that belongs to none of the entries is not reached.
  pub reaches-block :
      (prev : Ptr) (es : List Entry) (a : Ptr) {c : Cell}
      → Linked m at prev stop es
      → lookup a m ≡ some c
      → ((s : Text) → c ≢ static_text s)
      → owns es a ≡ false
      → reaches es a ≡ false
  reaches-block prev [] a l u d h = refl
  reaches-block prev (e ∷ es) a {c} (n, p, s, t, l) u d h =
      go e.kind t (reaches-block e.place es a l u d (ground arith)) h
    where
      go :
          (k : Kind)
          → lookup e.str m ≡ some (text_cell k e.text)
          → reaches es a ≡ false
          → ((a == e.place) || ((is_owned k && (a == e.str)) || owns es a)) ≡ false
          → reaches (e ∷ es) a ≡ false
      go owned t r h = ground arith
      go static t r h = ground (arith, d e.text)
      go copied t r h = ground arith

  -- An entry more at the end.
  pub Linked-snoc :
      (prev : Ptr) (es : List Entry) (e : Entry)
      → Linked m at prev e.place es
      → Linked m at (last_of prev es) stop (e ∷ [])
      → Linked m at prev stop (snoc es e)
  Linked-snoc prev [] e l k = k
  Linked-snoc prev (f ∷ es) e (n, p, s, t, l) k =
      (n, rw (first_of-snoc es e) p, s, t, Linked-snoc f.place es e l k)
    where
      first_of-snoc :
          (es : List Entry) (e : Entry) → first_of (snoc es e) stop ≡ first_of es e.place
      first_of-snoc [] e = refl
      first_of-snoc (f ∷ es) e = refl

pub owns-snoc :
    (es : List Entry) (e : Entry) (a : Ptr) → owns (snoc es e) a ≡ (owns es a || owns (e ∷ []) a)
owns-snoc [] e a = refl
owns-snoc (f ∷ es) e a = rw (owns-snoc es e a) (ground arith)

pub Apart-snoc :
    (es : List Entry) (e : Entry)
    → Apart es
    → owns es e.place ≡ false
    → (is_owned e.kind ≡ true → owns es e.str ≡ false)
    → Apart (snoc es e)
Apart-snoc [] e h p s = (refl, (λ _. refl), tt)
Apart-snoc (f ∷ es) e (hp, hs, h) p s = (
  rw (owns-snoc es e f.place) (ground arith),
  (λ o. rw (owns-snoc es e f.str) (ground (arith, hs o))),
  Apart-snoc es e h (ground arith) (λ o. ground (arith, s o)),
)

pub last_of-snoc : (prev : Ptr) (es : List Entry) (e : Entry) → last_of prev (snoc es e) ≡ e.place
last_of-snoc prev [] e = refl
last_of-snoc prev (f ∷ es) e = last_of-snoc f.place es e

pub texts-snoc : (es : List Entry) (e : Entry) → texts (snoc es e) ≡ snoc (texts es) e.text
texts-snoc [] e = refl
texts-snoc (f ∷ es) e = ap (◌∷◌ f.text) (texts-snoc es e)
