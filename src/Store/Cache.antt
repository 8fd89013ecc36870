-- ===== src/Store/Cache.antt =====
-- The restore cache of client/src/container.c: a list of containers, the last used first.
use tcbackup.Container.{Container, init_container}
use tcbackup.Prelude.{
  ℕ, zero, suc, ◌+◌, ◌≤◌, ◌≡◌, refl, ap, ◌∙◌, Bool, true, false, Option, none, some, List, [], ◌∷◌,
  Bytes, bytes_eq, bytes_eq_iff, if◌then◌else◌, map, length, take, take_all, All, sym, arith,
}

-- `init_cache`: as many empty containers as the cache is long, each with its own name.
unfoldable pub init_cache : (ℕ → Bytes) → ℕ → ℕ → List Container
init_cache container_name counter zero = []
init_cache container_name counter (suc n) =
    init_container (container_name (counter + 1)) ∷ init_cache container_name (counter + 1) n

-- The walk of `search_cache`: the node with the name, taken out of the list.
unfoldable pub take_node : Bytes → List Container → Option (Container × List Container)
take_node name [] = none
take_node name (p ∷ cache) = elim (bytes_eq p.name name) [
  | true ↦ some (p, cache)
  | false ↦ elim (take_node name cache) [ none ↦ none | some (q, rest) ↦ some (q, p ∷ rest) ]
]

-- All nodes but the last, whose container gives way to a new one.
unfoldable pub drop_last : List Container → List Container
drop_last [] = []
drop_last (p ∷ []) = []
drop_last (p ∷ q ∷ cache) = p ∷ drop_last (q ∷ cache)

-- `search_cache`: a hit moves the node to the front; a miss moves the last node there, with a
-- new container in it. The cache has a node, as the program's size of it is above 0.
unfoldable pub search_cache : Bytes → Container → List Container → Bool × List Container
unfolding take_node drop_last
search_cache name fresh cache = elim (take_node name cache) [
  | some (p, rest) ↦ (true, p ∷ rest)
  | none ↦ (false, fresh ∷ drop_last cache)
]

abbrev pub names : List Container → List Bytes
names = map (λ c. c.name)

-- The list without the first occurrence of a name.
unfoldable pub without : Bytes → List Bytes → List Bytes
without name [] = []
without name (n ∷ ns) = if bytes_eq n name then ns else n ∷ without name ns

length-without-le : (name : Bytes) (ns : List Bytes) → length (without name ns) ≤ length ns
unfolding without
length-without-le name [] = omega arith
length-without-le name (n ∷ ns) = ground (arith, length-without-le name ns)

-- A hit has the name, and the others keep their order; a miss means that no node has the name.
abbrev IsFound : Bytes → List Container → Option (Container × List Container) → Type 0
IsFound name cache none = without name (names cache) ≡ names cache
IsFound name cache (some (p, rest)) =
    (p.name ≡ name) × (names rest ≡ without name (names cache)) × (length cache ≡ suc (length rest))

take_node-IsFound :
    (name : Bytes) (cache : List Container) → IsFound name cache (take_node name cache)
unfolding take_node without
take_node-IsFound name [] = refl
take_node-IsFound name (q ∷ cache) =
    go (bytes_eq q.name name) refl (take_node name cache) (take_node-IsFound name cache)
  where
    go :
        (b : Bool) (e : bytes_eq q.name name ≡ b) (o : Option (Container × List Container))
        → IsFound name cache o
        → IsFound name (q ∷ cache) (elim b [
          | true ↦ some (q, cache)
          | false ↦ elim o [ none ↦ none | some (p, rest) ↦ some (p, q ∷ rest) ]
        ])
    go true e o h = ((bytes_eq_iff q.name name).0 e, rw e refl, refl)
    go false e none h = rw e (ap (◌∷◌ q.name) h)
    go false e (some (p, rest)) h = (h.0, rw e (ap (◌∷◌ q.name) h.1), omega (arith, h.2))

names-drop_last :
    (p : Container) (cache : List Container)
    → names (drop_last (p ∷ cache)) ≡ take (length cache) (names (p ∷ cache))
unfolding drop_last
names-drop_last p [] = refl
names-drop_last p (q ∷ cache) = ap (◌∷◌ p.name) (names-drop_last q cache)

length-drop_last :
    (p : Container) (cache : List Container) → length (drop_last (p ∷ cache)) ≡ length cache
unfolding drop_last
length-drop_last p [] = refl
length-drop_last p (q ∷ cache) = omega (arith, length-drop_last q cache)

length-names : (cache : List Container) → length (names cache) ≡ length cache
length-names [] = refl
length-names (p ∷ cache) = ap suc (length-names cache)

-- After a search: the found container or the new one, and behind it the others in their order, cut to
-- the length that the cache had without its first.
abbrev pub IsMoved : Bytes → Container → List Bytes → ℕ → Bool × List Container → Type 0
IsMoved name fresh ns n (hit, []) = ⊥
IsMoved name fresh ns n (true, p ∷ rest) =
    (p.name ≡ name) × (names rest ≡ take n (without name ns)) × (length rest ≡ n)
IsMoved name fresh ns n (false, p ∷ rest) =
    (p ≡ fresh) × (names rest ≡ take n (without name ns)) × (length rest ≡ n)

module _ (name : Bytes) (fresh p : Container) (cache : List Container) where
  pub search_cache-IsMoved :
      IsMoved name fresh (names (p ∷ cache)) (length cache) (search_cache name fresh (p ∷ cache))
  unfolding search_cache
  search_cache-IsMoved = go (take_node name (p ∷ cache)) (take_node-IsFound name (p ∷ cache))
    where
      go :
          (o : Option (Container × List Container))
          → IsFound name (p ∷ cache) o
          → IsMoved name fresh (names (p ∷ cache)) (length cache) (elim o [
            | some (q, rest) ↦ (true, q ∷ rest)
            | none ↦ (false, fresh ∷ drop_last (p ∷ cache))
          ])
      go none h = (
        refl,
        names-drop_last p cache ∙ sym (ap (take (length cache)) h),
        length-drop_last p cache,
      )
      go (some (q, rest)) h = (
        h.0,
        h.1
            ∙ sym (
                take_all (length cache) (without name (names (p ∷ cache)))
                  (omega (arith, h.2, ap length h.1, length-names rest))),
        omega (arith, h.2),
      )

-- What holds of all cached containers holds of those that a search leaves there.
abbrev pub OnSearch : (Container → Type 0) → Bytes → Container → Bool × List Container → Type 0
OnSearch P name fresh (hit, []) = ⊥
OnSearch P name fresh (true, p ∷ rest) = (p.name ≡ name) × P p × All P rest
OnSearch P name fresh (false, p ∷ rest) = (p ≡ fresh) × All P rest

All-drop_last :
    (P : Container → Type 0) (cache : List Container) → All P cache → All P (drop_last cache)
unfolding drop_last
All-drop_last P [] h = tt
All-drop_last P (p ∷ []) h = tt
All-drop_last P (p ∷ q ∷ cache) h = (h.0, All-drop_last P (q ∷ cache) h.1)

abbrev EachFound : (Container → Type 0) → Option (Container × List Container) → Type 0
EachFound P none = Unit
EachFound P (some (p, rest)) = P p × All P rest

take_node-Each :
    (P : Container → Type 0) (name : Bytes) (cache : List Container)
    → All P cache
    → EachFound P (take_node name cache)
unfolding take_node
take_node-Each P name [] h = tt
take_node-Each P name (q ∷ cache) h =
    go (bytes_eq q.name name) (take_node name cache) (take_node-Each P name cache h.1)
  where
    go :
        (b : Bool) (o : Option (Container × List Container))
        → EachFound P o
        → EachFound P (elim b as (λ x. Option (Container × List Container)) [
          | true ↦ some (q, cache)
          | false ↦ elim o [ none ↦ none | some (p, rest) ↦ some (p, q ∷ rest) ]
        ])
    go true o e = h
    go false none e = tt
    go false (some (p, rest)) e = (e.0, (h.0, e.1))

pub search_cache-OnSearch :
    (P : Container → Type 0) (name : Bytes) (fresh : Container) (cache : List Container)
    → All P cache
    → OnSearch P name fresh (search_cache name fresh cache)
unfolding search_cache
search_cache-OnSearch P name fresh cache h =
    go (take_node name cache) (take_node-IsFound name cache) (take_node-Each P name cache h)
  where
    go :
        (o : Option (Container × List Container))
        → IsFound name cache o
        → EachFound P o
        → OnSearch P name fresh (elim o as (λ x. Bool × List Container) [
          | some (p, rest) ↦ (true, p ∷ rest)
          | none ↦ (false, fresh ∷ drop_last cache)
        ])
    go none f e = (refl, All-drop_last P cache h)
    go (some (p, rest)) f e = (f.0, e.0, e.1)
