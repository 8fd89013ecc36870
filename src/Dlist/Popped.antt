-- ===== src/Dlist/Popped.antt =====
-- client/lib/dlist.c: taking the last element off the doubly linked list.
use tcbackup.Prelude.{
  ℕ, ◌≡◌, refl, sym, ap, ap₂, ◌∙◌, true, false, List, [], ◌∷◌, ◌++◌, arith, length, drop, get_or,
  length-append, ◌==◌, ==_iff,
}
use mathlib.Core.Path.{subst}
use tcbackup.Dlist.{Nodes, Dlist, set_next, dlist_delete_tail}
use tcbackup.Dlist.Chain.{
  Entry, last_or, IsChain, set_next-IsChain, last_or-pos, IsChain-front, last_or-snoc,
}
use tcbackup.Dlist.Listed.{IsNodes, IsDlist, elements, head_pos}

-- Without its last node.
shortened :
    (list : Dlist) (m : Nodes) (es : List Entry) (f : Entry)
    → IsNodes m list (es ++ f ∷ [])
    → ((dlist_delete_tail list m).0 ≡ f.1)
      × IsNodes (dlist_delete_tail list m).2 (dlist_delete_tail list m).1 es
unfolding dlist_delete_tail set_next IsChain
shortened list m [] f h =
    let (front, node) = IsChain-front m 0 [] f 0 h.chain in
    let last_node = ap m.nodes (h.last ∙ last_or-snoc 0 [] f) ∙ node in
    let some_left : (list.head == 0) ≡ false =
      ground (arith, h.first, head_pos m 0 f [] 0 h.chain) in
    let only : ((m.nodes list.tail).prev == 0) ≡ true =
      (==_iff (m.nodes list.tail).prev 0).1 (ap (λ n. n.prev) last_node) in
    rw (some_left, dlist_delete_tail)
      (rw (only, dlist_delete_tail)
        (
          ap (λ n. n.element) last_node,
          record {
            chain = front;
            first = refl;
            last = refl;
            counted = omega (arith, h.counted);
            allocated = h.allocated;
          },
        ))
shortened list m (e ∷ es) f h =
    let (front, node) = IsChain-front m 0 (e ∷ es) f 0 h.chain in
    let last_node = ap m.nodes (h.last ∙ last_or-snoc 0 (e ∷ es) f) ∙ node in
    let before : (m.nodes list.tail).prev ≡ last_or 0 (e ∷ es) = ap (λ n. n.prev) last_node in
    let some_left : (list.head == 0) ≡ false =
      ground (arith, h.first, head_pos m 0 e (es ++ f ∷ []) 0 h.chain) in
    let more : ((m.nodes list.tail).prev == 0) ≡ false =
      ground (arith, before, last_or-pos m 0 e es f.0 front) in
    rw (some_left, dlist_delete_tail)
      (rw (more, dlist_delete_tail)
        (
          ap (λ n. n.element) last_node,
          record {
            chain =
                subst (λ a. IsChain (set_next a 0 m) 0 (e ∷ es) 0) (sym before)
                  (set_next-IsChain m 0 e es f.0 0 front);
            first = h.first;
            last = before;
            counted = omega (arith, h.counted, length-append es (f ∷ []));
            allocated = h.allocated;
          },
        ))

-- A list with an end has nodes with an end.
snoc_nodes :
    (es : List Entry) (xs : List ℕ) (x : ℕ)
    → elements es ≡ xs ++ x ∷ []
    → (fs : List Entry) × (f : Entry) × (es ≡ fs ++ f ∷ []) × (elements fs ≡ xs) × (f.1 ≡ x)
snoc_nodes [] xs x e = absurd (omega (arith, ap length e, length-append xs (x ∷ [])))
snoc_nodes (e ∷ []) [] x h = ([], e, refl, refl, ap (λ l. get_or l 0 0) h)
snoc_nodes (e ∷ f ∷ es) [] x h = absurd (omega (arith, ap length h))
snoc_nodes (e ∷ es) (y ∷ xs) x h =
    let (fs, f, split, front, last) = snoc_nodes es xs x (ap (drop 1) h) in
    (e ∷ fs, f, ap (◌∷◌ e) split, ap₂ ◌∷◌ (ap (λ l. get_or l 0 0) h) front, last)

-- Where the doubly linked list in memory is a list with an end, dlist_delete_tail gives its last
-- element, and what it leaves is the list without it.
pub dlist_delete_tail-IsDlist :
    (m : Nodes) (list : Dlist) (xs : List ℕ) (x : ℕ)
    → IsDlist m list (xs ++ x ∷ [])
    → ((dlist_delete_tail list m).0 ≡ x)
      × IsDlist (dlist_delete_tail list m).2 (dlist_delete_tail list m).1 xs
unfolding IsDlist
dlist_delete_tail-IsDlist m list xs x (es, h, e) =
    let (fs, f, split, front, last) = snoc_nodes es xs x e in
    let (got, rest) = shortened list m fs f (subst (IsNodes m list) split h) in
    (got ∙ last, (fs, rest, front))
