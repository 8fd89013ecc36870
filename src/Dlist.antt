-- ===== src/Dlist.antt =====
-- client/lib/dlist.c, the doubly linked list: `dlist_init`, `dlist_preappend` (and `dlist_insert`, which is
-- it), `dlist_append`, `dlist_delete_tail` and `dlist_size`.
-- Memory is a function from addresses to nodes, and `next_free` the address that `malloc` gives next; the
-- address 0 is NULL. `malloc` does not fail, and a freed node keeps its contents.
pub mod Chain
pub mod Listed
pub mod Pushed
pub mod Popped
use tcbackup.Prelude.{
  ℕ, zero, suc, ◌+◌, ◌-◌, ◌*◌, ◌/◌, ◌%◌, ◌^◌, ◌≤◌, ◌<◌, ◌≡◌, refl, sym, ap, ap₂, ◌∙◌, ◌≢◌, ◌↔◌, ◌⊎◌,
  inl, inr, Bool, true, false, ◌&&◌, ◌||◌, not, Option, none, some, List, [], ◌∷◌, ◌++◌, map, arith,
  Bytes, bytes_eq, length, take, drop, replicate, set, get_or, length-append, length-take,
  length-drop, length-replicate, take-append-drop, take_all, take_front, drop_front, drop-drop, ltb,
  leb, ◌==◌, if◌then◌else◌, tests, Bool-cases, Option-cases, All,
}

pub record Node : Type 0 where
  pub element : ℕ
  pub prev : ℕ
  pub next : ℕ

pub record Nodes : Type 0 where
  pub nodes : ℕ → Node
  pub next_free : ℕ

pub record Dlist : Type 0 where
  pub head : ℕ
  pub tail : ℕ
  pub size : ℕ

unfoldable pub put_node : ℕ → Node → (ℕ → Node) → ℕ → Node
put_node address node nodes p = if p == address then node else nodes p

-- The new node has the next free address.
unfoldable pub generate_node : ℕ → Nodes → Nodes
unfolding put_node
generate_node element m = record {
  nodes = put_node m.next_free (record { element = element; prev = 0; next = 0 }) m.nodes;
  next_free = m.next_free + 1;
}

unfoldable pub set_prev : ℕ → ℕ → Nodes → Nodes
unfolding put_node
set_prev address p m = record m {
  nodes = put_node address (record (m.nodes address) { prev = p }) m.nodes;
}

unfoldable pub set_next : ℕ → ℕ → Nodes → Nodes
unfolding put_node
set_next address p m = record m {
  nodes = put_node address (record (m.nodes address) { next = p }) m.nodes;
}

unfoldable pub dlist_init : Dlist
dlist_init = record { head = 0; tail = 0; size = 0 }

unfoldable pub dlist_preappend : ℕ → Dlist → Nodes → Dlist × Nodes
unfolding generate_node set_prev set_next
dlist_preappend item list m =
    let p = m.next_free in
    let m' = generate_node item m in
    let empty = list.head == 0 in
    (
      record { head = p; tail = if empty then p else list.tail; size = list.size + 1 },
      if empty then m' else set_next p list.head (set_prev list.head p m'),
    )

unfoldable pub dlist_append : ℕ → Dlist → Nodes → Dlist × Nodes
unfolding generate_node set_prev set_next
dlist_append item list m =
    let p = m.next_free in
    let m' = generate_node item m in
    let empty = list.head == 0 in
    (
      record { head = if empty then p else list.head; tail = p; size = list.size + 1 },
      if empty then m' else set_prev p list.tail (set_next list.tail p m'),
    )

-- The element, or NULL of an empty list.
unfoldable pub dlist_delete_tail : Dlist → Nodes → ℕ × Dlist × Nodes
unfolding set_next
dlist_delete_tail list m =
    let node = m.nodes list.tail in
    if list.head == 0
    then (0, list, m)
    else if node.prev == 0
    then (node.element, record { head = 0; tail = 0; size = list.size - 1 }, m)
    else (
      node.element,
      record list { tail = node.prev; size = list.size - 1 },
      set_next node.prev 0 m,
    )

unfoldable pub dlist_size : Dlist → ℕ
dlist_size list = list.size
