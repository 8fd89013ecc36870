-- ===== src/HashTable/Each.antt =====
-- A property of every link of a table, kept by the operations that add or change links.
use mathlib.Core.Path.{subst}
use tcbackup.Prelude.{
  ℕ, suc, ◌*◌, ◌≡◌, sym, some, List, [], ◌∷◌, ◌++◌, Bytes, bytes_eq, bytes_eq_iff, leb, get_or, All,
  Bool-cases, inl, inr,
}
use tcbackup.HashTable.{
  Table, hash_index, bucket, find, lookup, insert_link, bigger, move_chain, move_chains, grow_table,
  insert, init,
}
use tcbackup.HashTable.Invariant.{IsTable, All-set}
use tcbackup.HashTable.Grow.{All_empty}
use tcbackup.HashTable.Walk.{items, flatten, items-flatten}

abbrev pub Each {ℓ} : {V : Type ℓ} → (Bytes × V → Type 0) → Table V → Type 0
Each P t = (i : ℕ) → All P (get_or t.table i [])

pub All_mono {ℓ} :
    {A : Type ℓ} (P Q : A → Type 0) → ((e : A) → P e → Q e) → (c : List A) → All P c → All Q c
All_mono P Q f [] h = tt
All_mono P Q f (e ∷ c) h = (f e h.0, All_mono P Q f c h.1)

module _ {ℓ} {V : Type ℓ} (P : Bytes × V → Type 0) where
  Each-insert_link :
      (k : Bytes) (v : V) (t : Table V) → P (k, v) → Each P t → Each P (insert_link k v t)
  unfolding insert_link
  Each-insert_link k v t p h =
      All-set (λ n. P) t.table (hash_index t k) ((k, v) ∷ bucket t k) h (p, h (hash_index t k))

  Each-move_chain :
      (c : List (Bytes × V)) (big : Table V) → All P c → Each P big → Each P (move_chain c big)
  unfolding move_chain
  Each-move_chain [] big a h = h
  Each-move_chain ((k, v) ∷ c) big a h =
      Each-move_chain c (insert_link k v big) a.1 (Each-insert_link k v big a.0 h)

  Each-move_chains :
      (cs : List (List (Bytes × V))) (big : Table V)
      → ((i : ℕ) → All P (get_or cs i []))
      → Each P big
      → Each P (move_chains cs big)
  unfolding move_chains
  Each-move_chains [] big a h = h
  Each-move_chains (c ∷ cs) big a h =
      Each-move_chains cs (move_chain c big) (λ i. a (suc i)) (Each-move_chain c big (a 0) h)

  pub Each-insert : (k : Bytes) (v : V) (t : Table V) → P (k, v) → Each P t → Each P (insert k v t)
  unfolding insert grow_table bigger
  Each-insert k v t p h =
      let t' = insert_link k v t in
      let h' = Each-insert_link k v t p h in
      elim (Bool-cases (leb t'.max_items t'.num_items)) [
        | inl e ↦
            rw e (Each-move_chains t'.table (bigger t') h' (λ i. All_empty P (t'.buckets * 2) i))
        | inr e ↦ rw e h'
      ]

  pub Each-init : (nhlen tsize : ℕ) → Each P (init V nhlen tsize)
  unfolding init
  Each-init nhlen tsize i = All_empty P _ i

  All-find : (q : Bytes) (v : V) (c : List (Bytes × V)) → All P c → find q c ≡ some v → P (q, v)
  unfolding find
  All-find q v [] a h = cc
  All-find q v ((k, w) ∷ c) a h = elim (Bool-cases (bytes_eq q k)) [
    | inl e ↦
        let p = sym ((bytes_eq_iff q k).0 e) in
        let found = rw e at h in let r : w ≡ v = cc found in subst P (λ i. (p i, r i)) a.0
    | inr e ↦ All-find q v c a.1 (rw e at h)
  ]

  pub Each-lookup : (q : Bytes) (v : V) (t : Table V) → Each P t → lookup q t ≡ some v → P (q, v)
  unfolding lookup
  Each-lookup q v t h e = All-find q v (bucket t q) (h (hash_index t q)) e

  All-append : (c d : List (Bytes × V)) → All P c → All P d → All P (c ++ d)
  All-append [] d a b = b
  All-append (e ∷ c) d a b = (a.0, All-append c d a.1 b)

  All-flatten :
      (cs : List (List (Bytes × V))) → ((i : ℕ) → All P (get_or cs i [])) → All P (flatten cs)
  All-flatten [] h = tt
  All-flatten (c ∷ cs) h = All-append c (flatten cs) (h 0) (All-flatten cs (λ i. h (suc i)))

  pub Each-items : (t : Table V) → IsTable t → Each P t → All P (items t)
  Each-items t w h = rw (items-flatten t w) (All-flatten t.table h)

pub Each-mono {ℓ} :
    {V : Type ℓ} (P Q : Bytes × V → Type 0) (t : Table V)
    → ((e : Bytes × V) → P e → Q e)
    → Each P t
    → Each Q t
Each-mono P Q t f h i = All_mono P Q f _ (h i)
