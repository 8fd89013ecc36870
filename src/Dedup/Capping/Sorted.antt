-- ===== src/Dedup/Capping/Sorted.antt =====
-- The order in which `sort_segments` links the segments.
use tcbackup.HashTable.Chain.{count}
use tcbackup.Dedup.Capping.{link_node, link_nodes}
use tcbackup.Prelude.{
  ℕ, ◌+◌, ◌≤◌, ◌≡◌, refl, List, [], ◌∷◌, Bytes, bytes_eq, All, arith, if◌then◌else◌, ltb, ltb-false,
  length, Bool-cases, inl, inr,
}

-- No node has a greater length than the nodes before it.
abbrev pub IsSorted : List (Bytes × ℕ) → Type 0
IsSorted [] = Unit
IsSorted (p ∷ ps) = All (λ q. q.1 ≤ p.1) ps × IsSorted ps

All-link_node :
    (P : Bytes × ℕ → Type 0) (rn : Bytes × ℕ) (ps : List (Bytes × ℕ))
    → P rn
    → All P ps
    → All P (link_node rn ps)
unfolding link_node
All-link_node P rn [] h k = (h, tt)
All-link_node P rn (p ∷ ps) h k = elim (Bool-cases (ltb p.1 rn.1)) [
  | inl e ↦ rw e (h, k)
  | inr e ↦ rw e (k.0, All-link_node P rn ps h k.1)
]

All-below :
    (n m : ℕ) (ps : List (Bytes × ℕ)) → n ≤ m → All (λ q. q.1 ≤ n) ps → All (λ q. q.1 ≤ m) ps
All-below n m [] h k = tt
All-below n m (p ∷ ps) h k = (omega (arith, h, k.0), All-below n m ps h k.1)

link_node-IsSorted :
    (rn : Bytes × ℕ) (ps : List (Bytes × ℕ)) → IsSorted ps → IsSorted (link_node rn ps)
unfolding link_node
link_node-IsSorted rn [] h = (tt, tt)
link_node-IsSorted rn (p ∷ ps) h = elim (Bool-cases (ltb p.1 rn.1)) [
  | inl e ↦
      let less : p.1 ≤ rn.1 = ground (arith, e) in rw e ((less, All-below p.1 rn.1 ps less h.0), h)
  | inr e ↦ rw e (
    All-link_node (λ q. q.1 ≤ p.1) rn ps (omega (arith, ltb-false _ _ e)) h.0,
    link_node-IsSorted rn ps h.1,
  )
]

count-link_node :
    (q : Bytes) (rn : Bytes × ℕ) (ps : List (Bytes × ℕ))
    → (count q (link_node rn ps) ≡ (if bytes_eq q rn.0 then 1 else 0) + count q ps)
unfolding link_node count
count-link_node q rn [] = refl
count-link_node q rn (p ∷ ps) = elim (Bool-cases (ltb p.1 rn.1)) [
  | inl e ↦ rw e refl
  | inr e ↦ rw e (omega (arith, count-link_node q rn ps))
]

length-link_node :
    (rn : Bytes × ℕ) (ps : List (Bytes × ℕ)) → length (link_node rn ps) ≡ length ps + 1
unfolding link_node
length-link_node rn [] = omega arith
length-link_node rn (p ∷ ps) = elim (Bool-cases (ltb p.1 rn.1)) [
  | inl e ↦ rw e (omega arith)
  | inr e ↦ rw e (omega (arith, length-link_node rn ps))
]

-- Linking nodes into a list sorted by falling lengths gives a sorted list that holds as many nodes
-- as both did, in all and of each address.
pub link_nodes-IsSorted :
    (rns head : List (Bytes × ℕ))
    → IsSorted head
    → IsSorted (link_nodes rns head)
      × (length (link_nodes rns head) ≡ length rns + length head)
      × ((q : Bytes) → count q (link_nodes rns head) ≡ count q rns + count q head)
unfolding link_nodes count
link_nodes-IsSorted [] head h = (h, omega arith, λ q. omega arith)
link_nodes-IsSorted (rn ∷ rns) head h =
    let rest = link_nodes-IsSorted rns (link_node rn head) (link_node-IsSorted rn head h) in
    (
      rest.0,
      omega (arith, rest.1, length-link_node rn head),
      λ q. omega (arith, rest.2 q, count-link_node q rn head),
    )
