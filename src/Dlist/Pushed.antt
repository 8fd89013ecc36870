-- ===== src/Dlist/Pushed.antt =====
-- client/lib/dlist.c: adding an element at either end of the doubly linked list.
use tcbackup.Prelude.{
  ℕ, ◌≡◌, refl, sym, ap, ◌∙◌, true, false, List, [], ◌∷◌, ◌++◌, arith, length-append, ◌==◌, ==_iff,
}
use mathlib.Core.Path.{subst}
use tcbackup.Dlist.{Nodes, Dlist, generate_node, set_prev, set_next, dlist_preappend, dlist_append}
use tcbackup.Dlist.Chain.{Entry, IsChain, last_or-snoc}
use tcbackup.Dlist.Listed.{
  IsNodes, IsDlist, elements, head_pos, single, front-IsChain, back-IsChain,
}

preappended :
    (item : ℕ) (list : Dlist) (m : Nodes) (es : List Entry)
    → IsNodes m list es
    → IsNodes
        (dlist_preappend item list m).1
        (dlist_preappend item list m).0
        ((m.next_free, item) ∷ es)
unfolding dlist_preappend generate_node set_next set_prev
preappended item list m [] h =
    let empty : (list.head == 0) ≡ true = (==_iff list.head 0).1 h.first in
    rw (empty, dlist_preappend)
      (record {
        chain = single m item h.allocated;
        first = refl;
        last = refl;
        counted = omega (arith, h.counted);
        allocated = omega arith;
      })
preappended item list m (e ∷ es) h =
    let some_left : (list.head == 0) ≡ false =
      ground (arith, h.first, head_pos m 0 e es 0 h.chain) in
    rw (some_left, dlist_preappend)
      (record {
        chain =
            subst
              (λ a.
                IsChain (set_next m.next_free a (set_prev a m.next_free (generate_node item m))) 0
                  ((m.next_free, item) ∷ e ∷ es) 0)
              (sym h.first) (front-IsChain m item e es h.allocated h.chain);
        first = refl;
        last = h.last;
        counted = omega (arith, h.counted);
        allocated = omega arith;
      })

appended :
    (item : ℕ) (list : Dlist) (m : Nodes) (es : List Entry)
    → IsNodes m list es
    → IsNodes
        (dlist_append item list m).1
        (dlist_append item list m).0
        (es ++ (m.next_free, item) ∷ [])
unfolding dlist_append generate_node set_next set_prev
appended item list m [] h =
    let empty : (list.head == 0) ≡ true = (==_iff list.head 0).1 h.first in
    rw (empty, dlist_append)
      (record {
        chain = single m item h.allocated;
        first = refl;
        last = refl;
        counted = omega (arith, h.counted);
        allocated = omega arith;
      })
appended item list m (e ∷ es) h =
    let some_left : (list.head == 0) ≡ false =
      ground (arith, h.first, head_pos m 0 e es 0 h.chain) in
    rw (some_left, dlist_append)
      (record {
        chain =
            subst
              (λ a.
                IsChain (set_prev m.next_free a (set_next a m.next_free (generate_node item m))) 0
                  ((e ∷ es) ++ (m.next_free, item) ∷ []) 0)
              (sym h.last) (back-IsChain m item e es h.allocated h.chain);
        first = h.first;
        last = sym (last_or-snoc 0 (e ∷ es) (m.next_free, item));
        counted = omega (arith, h.counted, length-append es ((m.next_free, item) ∷ []));
        allocated = omega arith;
      })

elements-snoc : (es : List Entry) (f : Entry) → elements (es ++ f ∷ []) ≡ elements es ++ f.1 ∷ []
elements-snoc [] f = refl
elements-snoc (e ∷ es) f = ap (◌∷◌ (e.1)) (elements-snoc es f)

-- Where the doubly linked list in memory is a list, it is the list with the element in front of it
-- after dlist_preappend.
pub dlist_preappend-IsDlist :
    (item : ℕ) (m : Nodes) (list : Dlist) (xs : List ℕ)
    → IsDlist m list xs
    → IsDlist (dlist_preappend item list m).1 (dlist_preappend item list m).0 (item ∷ xs)
unfolding IsDlist
dlist_preappend-IsDlist item m list xs (es, h, e) =
    ((m.next_free, item) ∷ es, preappended item list m es h, ap (◌∷◌ item) e)

-- Where the doubly linked list in memory is a list, it is the list with the element at its end
-- after dlist_append.
pub dlist_append-IsDlist :
    (item : ℕ) (m : Nodes) (list : Dlist) (xs : List ℕ)
    → IsDlist m list xs
    → IsDlist (dlist_append item list m).1 (dlist_append item list m).0 (xs ++ item ∷ [])
unfolding IsDlist
dlist_append-IsDlist item m list xs (es, h, e) = (
  es ++ (m.next_free, item) ∷ [],
  appended item list m es h,
  elements-snoc es (m.next_free, item) ∙ ap (λ l. l ++ item ∷ []) e,
)
