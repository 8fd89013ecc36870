-- ===== src/Dlist/Listed.antt =====
-- client/lib/dlist.c: the doubly linked list is a list.
use tcbackup.Prelude.{
  ℕ, ◌<◌, ◌≡◌, refl, sym, ap, ◌∙◌, ◌≢◌, List, [], ◌∷◌, ◌++◌, map, arith, length, All,
}
use tcbackup.Dlist.{Node, Nodes, Dlist, put_node, generate_node, set_prev, set_next, dlist_init}
use tcbackup.Dlist.Chain.{
  Entry, head_or, last_or, IsChain, put_node_here, put_node_other, IsChain-same, set_next-IsChain,
  set_prev-IsChain, IsChain-old, IsChain-snoc, with_next, with_prev,
}

-- The list in this memory, with these nodes.
pub record IsNodes (m : Nodes) (list : Dlist) (es : List Entry) : Type 0 where
  pub chain : IsChain m 0 es 0
  pub first : list.head ≡ head_or 0 es
  pub last : list.tail ≡ last_or 0 es
  pub counted : list.size ≡ length es
  pub allocated : 0 < m.next_free

abbrev pub elements : List Entry → List ℕ
elements = map (λ e. e.1)

-- The list in this memory is this list.
unfoldable pub IsDlist : Nodes → Dlist → List ℕ → Type 0
IsDlist m list xs = (es : List Entry) × IsNodes m list es × (elements es ≡ xs)

pub dlist_init-IsDlist : (m : Nodes) → 0 < m.next_free → IsDlist m dlist_init []
unfolding IsDlist IsChain dlist_init
dlist_init-IsDlist m free =
    ([], record { chain = tt; first = refl; last = refl; counted = refl; allocated = free }, refl)

old_ne : (es : List Entry) (p : ℕ) → All (λ e. e.0 < p) es → All (λ e. p ≢ e.0) es
old_ne [] p h = tt
old_ne (e ∷ es) p h = ((λ same. absurd (omega (arith, same, h.0))), old_ne es p h.1)

-- Nodes that are not written to.
unwritten :
    (es : List Entry) (p : ℕ) (node : Node) (nodes : ℕ → Node)
    → All (λ e. p ≢ e.0) es
    → All (λ e. put_node p node nodes e.0 ≡ nodes e.0) es
unwritten [] p node nodes h = tt
unwritten (e ∷ es) p node nodes h =
    (put_node_other p e.0 node nodes (λ same. h.0 (sym same)), unwritten es p node nodes h.1)

pub head_pos :
    (m : Nodes) (prev : ℕ) (e : Entry) (es : List Entry) (end : ℕ)
    → IsChain m prev (e ∷ es) end
    → 0 < e.0
unfolding IsChain
head_pos m prev e es end h = h.0

generate_node-IsChain :
    (m : Nodes) (item prev : ℕ) (es : List Entry) (end : ℕ)
    → IsChain m prev es end
    → IsChain (generate_node item m) prev es end
unfolding generate_node
generate_node-IsChain m item prev es end h =
    IsChain-same m (generate_node item m) prev es end (omega arith)
      (unwritten es m.next_free _ m.nodes (old_ne es m.next_free (IsChain-old m prev es end h))) h

-- The new node alone.
pub single :
    (m : Nodes) (item : ℕ)
    → 0 < m.next_free
    → IsChain (generate_node item m) 0 ((m.next_free, item) ∷ []) 0
unfolding IsChain generate_node
single m item free = (free, omega arith, put_node_here m.next_free _ m.nodes, tt, tt)

ne_flip : (es : List Entry) (p : ℕ) → All (λ e. p ≢ e.0) es → All (λ e. e.0 ≢ p) es
ne_flip [] p h = tt
ne_flip (e ∷ es) p h = ((λ same. h.0 (sym same)), ne_flip es p h.1)

last_or-old :
    (p prev : ℕ) (e : Entry) (es : List Entry)
    → All (λ f. f.0 < p) (e ∷ es)
    → last_or prev (e ∷ es) < p
last_or-old p prev e [] h = h.0
last_or-old p prev e (f ∷ es) h = last_or-old p e.0 f es h.1

module _ (m : Nodes) (item : ℕ) (e : Entry) (es : List Entry) (free : 0 < m.next_free)
    (h : IsChain m 0 (e ∷ es) 0) where
  olds : All (λ f. m.next_free ≢ f.0) (e ∷ es)
  olds = old_ne (e ∷ es) m.next_free (IsChain-old m 0 (e ∷ es) 0 h)

  pub front-IsChain :
      IsChain
        (set_next m.next_free e.0 (set_prev e.0 m.next_free (generate_node item m)))
        0
        ((m.next_free, item) ∷ e ∷ es)
        0
  unfolding IsChain generate_node set_next set_prev
  front-IsChain =
      let m1 = generate_node item m in
      let m2 = set_prev e.0 m.next_free m1 in
      let kept =
        set_prev-IsChain m1 0 m.next_free e es 0 (generate_node-IsChain m item 0 (e ∷ es) 0 h) in
      (
        free,
        omega arith,
        put_node_here m.next_free _ m2.nodes
            ∙ ap (with_next e.0) (
                put_node_other e.0 m.next_free _ m1.nodes olds.0
                ∙ put_node_here m.next_free _ m.nodes),
        ne_flip (e ∷ es) m.next_free olds,
        IsChain-same m2 (set_next m.next_free e.0 m2) m.next_free (e ∷ es) 0 (omega arith)
            (unwritten (e ∷ es) m.next_free _ m2.nodes olds) kept,
      )

  pub back-IsChain :
      IsChain
        (set_prev m.next_free
          (last_or 0 (e ∷ es))
          (set_next (last_or 0 (e ∷ es)) m.next_free (generate_node item m)))
        0
        ((e ∷ es) ++ (m.next_free, item) ∷ [])
        0
  unfolding IsChain generate_node set_next set_prev
  back-IsChain =
      let t = last_or 0 (e ∷ es) in
      let m1 = generate_node item m in
      let m2 = set_next t m.next_free m1 in
      let m3 = set_prev m.next_free t m2 in
      let older : t < m.next_free = last_or-old m.next_free 0 e es (IsChain-old m 0 (e ∷ es) 0 h) in
      let kept =
        set_next-IsChain m1 0 e es 0 m.next_free (generate_node-IsChain m item 0 (e ∷ es) 0 h) in
      IsChain-snoc m3 0 (e ∷ es) (m.next_free, item) 0
        (IsChain-same m2 m3 0 (e ∷ es) m.next_free (omega arith)
          (unwritten (e ∷ es) m.next_free _ m2.nodes olds) kept)
        (
          free,
          omega arith,
          put_node_here m.next_free _ m2.nodes
              ∙ ap (with_prev t) (
                  put_node_other t m.next_free _ m1.nodes
                    (λ same. absurd (omega (arith, same, older)))
                  ∙ put_node_here m.next_free _ m.nodes),
          tt,
          tt,
        )
        olds
