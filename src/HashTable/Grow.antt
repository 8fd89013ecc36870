-- ===== src/HashTable/Grow.antt =====
-- `grow_table` moves every link: the new table finds what the old one did.
use tcbackup.Prelude.{
  ℕ, zero, suc, ◌+◌, ◌*◌, ◌≤◌, ◌≡◌, refl, ap, ◌∙◌, Option, none, some, List, [], ◌∷◌, Bytes,
  bytes_eq, arith, if◌then◌else◌, ◌==◌, get_or, replicate, All, Bool-cases, inl, inr,
  length-replicate, bit_or_low, length,
}
use native.Mathlib.Decide.{dec_lt}
use tcbackup.HashTable.{
  Table, hash_index, bucket, find, lookup, insert_link, bigger, move_chain, move_chains, grow_table,
  size,
}
use tcbackup.HashTable.Chain.{
  or_else, count, count_all, find_all, find_absent, find_present, find_all_absent,
}
use tcbackup.HashTable.Invariant.{
  total, hits, IsTable, same_bucket, other_key, replace-IsTable, in_replaced, count_all-table,
  find_all-table,
}

pub total_empty {ℓ} : (V : Type ℓ) (n : ℕ) → total {V = V} (replicate n []) ≡ 0
unfolding total
total_empty V zero = refl
total_empty V (suc n) = omega (arith, total_empty V n)

module _ {ℓ} {V : Type ℓ} where
  pub get_or_empty : (n i : ℕ) → get_or (replicate {A = List (Bytes × V)} n []) i [] ≡ []
  get_or_empty zero i = refl
  get_or_empty (suc n) zero = refl
  get_or_empty (suc n) (suc i) = get_or_empty n i

  pub All_empty {κ} :
      (P : Bytes × V → Type κ) (n i : ℕ)
      → All P (get_or (replicate {A = List (Bytes × V)} n []) i [])
  All_empty P zero i = tt
  All_empty P (suc n) zero = tt
  All_empty P (suc n) (suc i) = All_empty P n i

  pub insert_link-IsTable :
      (k : Bytes) (v : V) (t : Table V) → IsTable t → IsTable (insert_link k v t)
  unfolding insert_link
  insert_link-IsTable k v t w =
      replace-IsTable t k ((k, v) ∷ bucket t k) (t.num_items + 1) w
        (refl, w.placed (hash_index t k)) (omega arith)

  pub lookup-insert_link :
      (k q : Bytes) (v : V) (t : Table V)
      → IsTable t
      → lookup q (insert_link k v t) ≡ (if bytes_eq q k then some v else lookup q t)
  unfolding insert_link lookup hash_index
  lookup-insert_link k q v t w =
      let step = in_replaced (find q) t k q ((k, v) ∷ bucket t k) w in
      elim (Bool-cases (hash_index t k == hash_index t q)) [
        | inl e ↦ step ∙ rw (e, same_bucket t k q e)
        | inr e ↦ step ∙ rw (e, other_key t k q e)
      ]

  pub hits-insert_link :
      (k q : Bytes) (v : V) (t : Table V)
      → IsTable t
      → hits q (insert_link k v t) ≡ (if bytes_eq q k then 1 else 0) + hits q t
  unfolding insert_link hits hash_index
  hits-insert_link k q v t w =
      let step = in_replaced (count q) t k q ((k, v) ∷ bucket t k) w in
      elim (Bool-cases (hash_index t k == hash_index t q)) [
        | inl e ↦ step ∙ rw (e, same_bucket t k q e)
        | inr e ↦ step ∙ rw (e, other_key t k q e) (omega arith)
      ]

  pub bigger-IsTable : (t : Table V) → IsTable t → IsTable (bigger t)
  unfolding bigger
  bigger-IsTable t w = record {
    sized = length-replicate (t.buckets * 2) [];
    masked = omega (arith, bit_or_low t.mask, w.masked);
    limit = refl;
    counted = omega (arith, total_empty V (t.buckets * 2));
    placed = λ i. All_empty _ (t.buckets * 2) i;
  }

  pub bigger_empty :
      (q : Bytes) (t : Table V) → (lookup q (bigger t) ≡ none) × (hits q (bigger t) ≡ 0)
  unfolding bigger lookup hits count find
  bigger_empty q t = (
    rw (get_or_empty (t.buckets * 2) (hash_index (bigger t) q)),
    rw (get_or_empty (t.buckets * 2) (hash_index (bigger t) q)),
  )

  pub move_chain-IsTable :
      (c : List (Bytes × V)) (big : Table V) → IsTable big → IsTable (move_chain c big)
  unfolding move_chain
  move_chain-IsTable [] big w = w
  move_chain-IsTable ((k, v) ∷ c) big w =
      move_chain-IsTable c (insert_link k v big) (insert_link-IsTable k v big w)

  hits-move_chain :
      (q : Bytes) (c : List (Bytes × V)) (big : Table V)
      → IsTable big
      → hits q (move_chain c big) ≡ count q c + hits q big
  unfolding move_chain count
  hits-move_chain q [] big w = omega arith
  hits-move_chain q ((k, v) ∷ c) big w = omega (
    arith,
    hits-move_chain q c (insert_link k v big) (insert_link-IsTable k v big w),
    hits-insert_link k q v big w,
  )

  lookup-move_chain :
      (q : Bytes) (c : List (Bytes × V)) (big : Table V)
      → IsTable big
      → count q c + hits q big ≤ 1
      → lookup q (move_chain c big) ≡ or_else (find q c) (lookup q big)
  unfolding move_chain count find
  lookup-move_chain q [] big w h = refl
  lookup-move_chain q ((k, v) ∷ c) big w h = ground (
    arith,
    lookup-move_chain q c (insert_link k v big) (insert_link-IsTable k v big w),
    hits-insert_link k q v big w,
    lookup-insert_link k q v big w,
    find_absent q c,
  )

  move_chains-IsTable :
      (cs : List (List (Bytes × V))) (big : Table V) → IsTable big → IsTable (move_chains cs big)
  unfolding move_chains
  move_chains-IsTable [] big w = w
  move_chains-IsTable (c ∷ cs) big w =
      move_chains-IsTable cs (move_chain c big) (move_chain-IsTable c big w)

  hits-move_chains :
      (q : Bytes) (cs : List (List (Bytes × V))) (big : Table V)
      → IsTable big
      → hits q (move_chains cs big) ≡ count_all q cs + hits q big
  unfolding move_chains count_all
  hits-move_chains q [] big w = omega arith
  hits-move_chains q (c ∷ cs) big w = omega (
    arith,
    hits-move_chains q cs (move_chain c big) (move_chain-IsTable c big w),
    hits-move_chain q c big w,
  )

  -- Of a key that occurs once, either the first chain or the rest has nothing.
  or_else_once :
      (q : Bytes) (c : List (Bytes × V)) (cs : List (List (Bytes × V))) (o : Option V)
      → count q c + count_all q cs ≤ 1
      → or_else (find_all q cs) (or_else (find q c) o)
        ≡ or_else (or_else (find q c) (find_all q cs)) o
  or_else_once q c cs o h = elim (dec_lt 0 (count q c)) [
    | yes p ↦ let (v, found) = find_present q c p in rw (find_all_absent q cs (omega arith), found)
    | no p ↦ rw (find_absent q c (omega arith))
  ]

  lookup-move_chains :
      (q : Bytes) (cs : List (List (Bytes × V))) (big : Table V)
      → IsTable big
      → count_all q cs + hits q big ≤ 1
      → lookup q (move_chains cs big) ≡ or_else (find_all q cs) (lookup q big)
  unfolding move_chains count_all find_all
  lookup-move_chains q [] big w h = refl
  lookup-move_chains q (c ∷ cs) big w h =
      lookup-move_chains q cs (move_chain c big) (move_chain-IsTable c big w)
        (omega (arith, hits-move_chain q c big w))
      ∙ ap (or_else (find_all q cs)) (lookup-move_chain q c big w (omega arith))
      ∙ or_else_once q c cs (lookup q big) (omega arith)

  pub grow_table-IsTable : (t : Table V) → IsTable t → IsTable (grow_table t)
  unfolding grow_table
  grow_table-IsTable t w = move_chains-IsTable t.table (bigger t) (bigger-IsTable t w)

  -- Growing keeps how often each key is there, and what is found under a key that is there once.
  pub hits-grow_table : (q : Bytes) (t : Table V) → IsTable t → hits q (grow_table t) ≡ hits q t
  unfolding grow_table
  hits-grow_table q t w = omega (
    arith,
    hits-move_chains q t.table (bigger t) (bigger-IsTable t w),
    (bigger_empty q t).1,
    count_all-table t q w,
  )

  -- Growing a well-formed table does not change what a key finds that is in it at most once.
  pub lookup-grow_table :
      (q : Bytes) (t : Table V) → IsTable t → hits q t ≤ 1 → lookup q (grow_table t) ≡ lookup q t
  unfolding grow_table
  lookup-grow_table q t w h = ground (
    arith,
    lookup-move_chains q t.table (bigger t) (bigger-IsTable t w),
    bigger_empty q t,
    count_all-table t q w,
    find_all-table t q w,
  )

  size-move_chain :
      (c : List (Bytes × V)) (big : Table V) → size (move_chain c big) ≡ length c + size big
  unfolding move_chain insert_link
  size-move_chain [] big = omega arith
  size-move_chain ((k, v) ∷ c) big = omega (arith, size-move_chain c (insert_link k v big))

  size-move_chains :
      (cs : List (List (Bytes × V))) (big : Table V)
      → size (move_chains cs big) ≡ total cs + size big
  unfolding move_chains total
  size-move_chains [] big = omega arith
  size-move_chains (c ∷ cs) big =
      omega (arith, size-move_chains cs (move_chain c big), size-move_chain c big)

  pub size-grow_table : (t : Table V) → IsTable t → size (grow_table t) ≡ size t
  unfolding grow_table bigger
  size-grow_table t w = omega (arith, size-move_chains t.table (bigger t), w.counted)
