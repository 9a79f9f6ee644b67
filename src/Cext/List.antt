-- ===== src/Cext/List.antt =====
-- include/cext/list.h and source/cext_list.c: lists of values, doubly linked.
pub mod Shape
pub mod Append
pub mod Piles
pub mod Clear
pub mod Patch
pub mod Clone
pub mod Walk
use cplr.Base.{ℕ, zero, suc, ◌+◌, Bool, true, false, Option, none, some, ◌==◌, if◌then◌else◌}
use cplr.Base.Outcome.{Outcome, done, crash, out_of_fuel, ◌>>=◌}
use cplr.State.Context.{Ptr, null}
use cplr.Cext.Types.{vt_string}
use cplr.Cext.Memory.{
  Value, Node, Memory, node, Allocator, lookup, write, cext_free, read_node, empty_node,
  calloc_node,
}
use cplr.Cext.Value.{empty_value, value_clear, value_clone, value_set_str, set_owned, set_static}

-- `struct lh`
pub record Head : Type 0 where
  pub count : ℕ
  pub first : Ptr
  pub last : Ptr

unfoldable pub l_init : Head
l_init = record { count = 0; first = null; last = null }

unfoldable pub l_empty : Head → Bool
l_empty lh = lh.count == 0

unfoldable pub l_size : Head → ℕ
l_size lh = lh.count

-- An assignment to a field of the node at an address.
unfoldable pub set_next : Ptr → Ptr → Memory → Outcome Memory
unfolding read_node
set_next p q m = do n ← read_node p m; done (write p (some (node (record n { next = q }))) m)

-- The loop of `l_clear`: the value of each node, and then the node.
unfoldable pub clear_nodes : ℕ → Ptr → Memory → Outcome Memory
unfolding read_node value_clear cext_free
clear_nodes zero p m = out_of_fuel
clear_nodes (suc k) p m = if p == null then done m else (do
  n ← read_node p m
  (v, m₁) ← value_clear n.v m
  m₂ ← cext_free p (write p (some (node (record n { v = v }))) m₁)
  clear_nodes k n.next m₂)

unfoldable pub l_clear : ℕ → Head → Memory → Outcome (Head × Memory)
unfolding clear_nodes
l_clear k lh m = do
  m' ← clear_nodes k lh.first m
  done (record { count = 0; first = null; last = null }, m')

-- `l_append`: the list's head is at the address `at`.
unfoldable pub l_append : (at : Ptr) → Head → Ptr → Memory → Outcome (Head × Memory)
unfolding read_node set_next
l_append at lh p m = do
  n ← read_node p m
  m₁ ←
      if lh.last == null
      then done (write p (some (node (record n { head = at }))) m)
      else set_next lh.last p (write p (some (node (record n { head = at; prev = lh.last }))) m)
  done (
    record { count = lh.count + 1; first = if lh.first == null then p else lh.first; last = p },
    m₁,
  )

-- The assignment of a value to the node at an address.
unfoldable pub set_value : Ptr → Value → Memory → Outcome Memory
unfolding read_node
set_value p v m = do n ← read_node p m; done (write p (some (node (record n { v = v }))) m)

module _ (A : Allocator) where
  -- A new node with the value that a setter leaves, appended to the list.
  unfoldable pub append_value :
      (Value → Memory → Outcome (Value × Memory))
      → (at : Ptr) → Head
      → Memory
      → Outcome (Head × Memory)
  unfolding calloc_node set_value l_append
  append_value setter at lh m = do
    let (p, m₁) = calloc_node A m
    (v, m₂) ← setter empty_value m₁
    m₃ ← set_value p v m₂
    l_append at lh p m₃

  unfoldable pub l_append_str : (at : Ptr) → Head → Ptr → Memory → Outcome (Head × Memory)
  unfolding append_value value_set_str
  l_append_str at lh s m = append_value (λ v. value_set_str A v s) at lh m

  unfoldable pub l_append_str_owned : (at : Ptr) → Head → Ptr → Memory → Outcome (Head × Memory)
  unfolding append_value set_owned
  l_append_str_owned at lh s m = append_value (λ v. set_owned vt_string v s) at lh m

  unfoldable pub l_append_str_static : (at : Ptr) → Head → Ptr → Memory → Outcome (Head × Memory)
  unfolding append_value set_static
  l_append_str_static at lh s m = append_value (λ v. set_static vt_string v s) at lh m

  -- The loop of `l_clone`, with the variables `fdst` and `ndst`.
  unfoldable pub clone_nodes :
      ℕ → (at : Ptr) → (nsrc fdst ndst : Ptr) → Memory → Outcome ((Ptr × Ptr) × Memory)
  unfolding read_node calloc_node set_next set_value value_clone
  clone_nodes zero at nsrc fdst ndst m = out_of_fuel
  clone_nodes (suc k) at nsrc fdst ndst m = if nsrc == null then done ((fdst, ndst), m) else (do
    let (p, m₁) = calloc_node A m
    let m₂ = write p (some (node (record empty_node { head = at; prev = ndst }))) m₁
    m₃ ← if ndst == null then done m₂ else set_next ndst p m₂
    n ← read_node nsrc m₃
    (v, m₄) ← value_clone A n.v m₃
    m₅ ← set_value p v m₄
    clone_nodes k at n.next (if fdst == null then p else fdst) p m₅)

  unfoldable pub l_clone : ℕ → (at : Ptr) → Head → Memory → Outcome (Head × Memory)
  unfolding clone_nodes
  l_clone k at lsrc m = do
    ((first, last), m') ← clone_nodes k at lsrc.first null null m
    done (record { count = lsrc.count; first = first; last = last }, m')
