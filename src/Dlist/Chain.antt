-- ===== src/Dlist/Chain.antt =====
-- client/lib/dlist.c: nodes linked in both directions, and what writes to a node leave of them.
use tcbackup.Prelude.{
  ℕ, ◌≤◌, ◌<◌, ◌≡◌, refl, sym, ap, ◌∙◌, ◌≢◌, inl, inr, List, [], ◌∷◌, ◌++◌, arith, ◌==◌, Bool-cases,
  All, ==_iff, ==_iff,
}
use tcbackup.Dlist.{Node, Nodes, put_node, set_prev, set_next}

-- An address and what its node holds.
abbrev pub Entry : Type 0
Entry = ℕ × ℕ

abbrev pub head_or : ℕ → List Entry → ℕ
head_or end [] = end
head_or end (e ∷ es) = e.0

abbrev pub last_or : ℕ → List Entry → ℕ
last_or prev [] = prev
last_or prev (e ∷ es) = last_or (e.0) es

-- The nodes lead to one another in both directions, from one before them to one behind them.
unfoldable pub IsChain : Nodes → ℕ → List Entry → ℕ → Type 0
IsChain m prev [] end = Unit
IsChain m prev (e ∷ es) end =
    (0 < e.0)
    × (e.0 < m.next_free)
    × (m.nodes e.0 ≡ record { element = e.1; prev = prev; next = head_or end es })
    × All (λ f. f.0 ≢ e.0) es
    × IsChain m e.0 es end

pub put_node_here : (p : ℕ) (node : Node) (nodes : ℕ → Node) → put_node p node nodes p ≡ node
unfolding put_node
put_node_here p node nodes = rw ((==_iff p p).1 refl) refl

pub put_node_other :
    (address p : ℕ) (node : Node) (nodes : ℕ → Node)
    → p ≢ address
    → put_node address node nodes p ≡ nodes p
unfolding put_node
put_node_other address p node nodes ne = elim (Bool-cases (p == address)) [
  | inl e ↦ absurd (ne ((==_iff p address).0 e))
  | inr e ↦ rw e refl
]

-- Other nodes may change.
pub IsChain-same :
    (m m' : Nodes) (prev : ℕ) (es : List Entry) (end : ℕ)
    → m.next_free ≤ m'.next_free
    → All (λ e. m'.nodes e.0 ≡ m.nodes e.0) es
    → IsChain m prev es end
    → IsChain m' prev es end
unfolding IsChain
IsChain-same m m' prev [] end more same h = tt
IsChain-same m m' prev (e ∷ es) end more (here, same) (pos, old, node, apart, h) =
    (pos, omega (arith, more, old), here ∙ node, apart, IsChain-same m m' e.0 es end more same h)

abbrev pub with_next : ℕ → Node → Node
with_next p node = record node { next = p }

abbrev pub with_prev : ℕ → Node → Node
with_prev p node = record node { prev = p }

-- The last node is led on to another one.
pub set_next-IsChain :
    (m : Nodes) (prev : ℕ) (e : Entry) (es : List Entry) (end p : ℕ)
    → IsChain m prev (e ∷ es) end
    → IsChain (set_next (last_or prev (e ∷ es)) p m) prev (e ∷ es) p
unfolding IsChain set_next
set_next-IsChain m prev e [] end p (pos, old, node, apart, h) =
    (pos, old, put_node_here e.0 _ m.nodes ∙ ap (with_next p) node, tt, tt)
set_next-IsChain m prev e (f ∷ es) end p (pos, old, node, apart, h) = (
  pos,
  old,
  put_node_other (last_or f.0 es) e.0 _ m.nodes (λ same. last_apart f es apart (sym same)) ∙ node,
  apart,
  set_next-IsChain m e.0 f es end p h,
)
  where
    last_apart :
        (f : Entry) (es : List Entry) → All (λ g. g.0 ≢ e.0) (f ∷ es) → last_or f.0 es ≢ e.0
    last_apart f [] apart = apart.0
    last_apart f (g ∷ es) apart = last_apart g es apart.1

-- The first node is led back to another one.
pub set_prev-IsChain :
    (m : Nodes) (prev p : ℕ) (e : Entry) (es : List Entry) (end : ℕ)
    → IsChain m prev (e ∷ es) end
    → IsChain (set_prev e.0 p m) p (e ∷ es) end
unfolding IsChain set_prev
set_prev-IsChain m prev p e es end (pos, old, node, apart, h) = (
  pos,
  old,
  put_node_here e.0 _ m.nodes ∙ ap (with_prev p) node,
  apart,
  IsChain-same m _ e.0 es end (omega arith) (others es apart) h,
)
  where
    others :
        (es : List Entry)
        → All (λ f. f.0 ≢ e.0) es
        → All (λ f. put_node e.0 (record (m.nodes e.0) { prev = p }) m.nodes f.0 ≡ m.nodes f.0) es
    others [] apart = tt
    others (f ∷ es) apart = (put_node_other e.0 f.0 _ m.nodes apart.0, others es apart.1)

-- All addresses are below the next free one.
pub IsChain-old :
    (m : Nodes) (prev : ℕ) (es : List Entry) (end : ℕ)
    → IsChain m prev es end
    → All (λ e. e.0 < m.next_free) es
unfolding IsChain
IsChain-old m prev [] end h = tt
IsChain-old m prev (e ∷ es) end h = (h.1, IsChain-old m e.0 es end h.4)

pub last_or-pos :
    (m : Nodes) (prev : ℕ) (e : Entry) (es : List Entry) (end : ℕ)
    → IsChain m prev (e ∷ es) end
    → 0 < last_or prev (e ∷ es)
unfolding IsChain
last_or-pos m prev e [] end h = h.0
last_or-pos m prev e (f ∷ es) end h = last_or-pos m e.0 f es end h.4

All-snoc_ne :
    (es : List Entry) (f : Entry) (a : ℕ)
    → All (λ e. e.0 ≢ a) es
    → f.0 ≢ a
    → All (λ e. e.0 ≢ a) (es ++ f ∷ [])
All-snoc_ne [] f a h ne = (ne, tt)
All-snoc_ne (e ∷ es) f a h ne = (h.0, All-snoc_ne es f a h.1 ne)

-- A chain up to a node and that node.
pub IsChain-snoc :
    (m : Nodes) (prev : ℕ) (es : List Entry) (f : Entry) (end : ℕ)
    → IsChain m prev es f.0
    → IsChain m (last_or prev es) (f ∷ []) end
    → All (λ e. f.0 ≢ e.0) es
    → IsChain m prev (es ++ f ∷ []) end
unfolding IsChain
IsChain-snoc m prev [] f end h last apart = last
IsChain-snoc m prev (e ∷ []) f end (pos, old, node, tt, h) last (ne, apart) =
    (pos, old, node, (ne, tt), last)
IsChain-snoc m prev (e ∷ g ∷ es) f end (pos, old, node, others, h) last (ne, apart) = (
  pos,
  old,
  node,
  All-snoc_ne (g ∷ es) f e.0 others ne,
  IsChain-snoc m e.0 (g ∷ es) f end h last apart,
)

All-front :
    (es : List Entry) (f : Entry) (a : ℕ)
    → All (λ e. e.0 ≢ a) (es ++ f ∷ [])
    → All (λ e. e.0 ≢ a) es
All-front [] f a h = tt
All-front (e ∷ es) f a h = (h.0, All-front es f a h.1)

-- And back.
pub IsChain-front :
    (m : Nodes) (prev : ℕ) (es : List Entry) (f : Entry) (end : ℕ)
    → IsChain m prev (es ++ f ∷ []) end
    → IsChain m prev es f.0
      × (m.nodes f.0 ≡ record { element = f.1; prev = last_or prev es; next = end })
unfolding IsChain
IsChain-front m prev [] f end h = (tt, h.2)
IsChain-front m prev (e ∷ []) f end (pos, old, node, others, h) = ((pos, old, node, tt, tt), h.2)
IsChain-front m prev (e ∷ g ∷ es) f end (pos, old, node, others, h) =
    let (front, last) = IsChain-front m e.0 (g ∷ es) f end h in
    ((pos, old, node, All-front (g ∷ es) f e.0 others, front), last)

pub last_or-snoc : (prev : ℕ) (es : List Entry) (f : Entry) → last_or prev (es ++ f ∷ []) ≡ f.0
last_or-snoc prev [] f = refl
last_or-snoc prev (e ∷ es) f = last_or-snoc e.0 es f
