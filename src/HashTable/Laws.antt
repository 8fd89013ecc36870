-- ===== src/HashTable/Laws.antt =====
-- What `lookup` finds after each operation of the table.
use native.Mathlib.Decide.{dec_lt}
use native.Mathlib.Nat.{one-le-pow}
use mathlib.Core.Option
use tcbackup.Prelude.{
  ℕ, ◌+◌, ◌-◌, ◌/◌, ◌^◌, sym, length-replicate, ◌≤◌, ◌≡◌, refl, ap, ◌∙◌, false, none, some, [],
  Bytes, bytes_eq, bytes_eq_iff, arith, if◌then◌else◌, ◌==◌, leb, set, Bool-cases, Option-cases,
  inl, inr,
}
use tcbackup.HashTable.{
  Table, hash_index, bucket, find, lookup, insert_link, insert, unchain, remove, change, modify,
  init, size_bits, size, size,
}
use tcbackup.HashTable.Chain.{
  count, find_absent, find_present, count-unchain, find-unchain_ne, All-unchain, length-unchain,
  find-change, count-change, length-change, All-change,
}
use tcbackup.HashTable.Invariant.{
  hits, IsTable, replace-IsTable, in_replaced, bucket_le_total, same_bucket, other_key,
}
use tcbackup.HashTable.Grow.{
  insert_link-IsTable, lookup-insert_link, hits-insert_link, grow_table-IsTable, hits-grow_table,
  lookup-grow_table, size-grow_table, get_or_empty, total_empty, All_empty,
}

-- A table whose keys are distinct: what the callers of `insert` ensure, by looking the key up
-- first.
pub record IsMap {ℓ} {V : Type ℓ} (t : Table V) : Type ℓ where
  pub shape : IsTable t
  pub distinct : (q : Bytes) → hits q t ≤ 1

module _ {ℓ} {V : Type ℓ} where
  pub hits_absent : (q : Bytes) (t : Table V) → lookup q t ≡ none → hits q t ≡ 0
  unfolding lookup hits
  hits_absent q t h = elim (dec_lt 0 (count q (bucket t q))) [
    | yes p ↦ absurd (none_some (find_present q _ p) h)
    | no p ↦ omega arith
  ]
    where
      none_some : (v : V) × (find q (bucket t q) ≡ some v) → find q (bucket t q) ≡ none → ⊥
      none_some w e = cc w.1

  pub insert-IsTable : (k : Bytes) (v : V) (t : Table V) → IsTable t → IsTable (insert k v t)
  unfolding insert
  insert-IsTable k v t w =
      let t' = insert_link k v t in
      let w' = insert_link-IsTable k v t w in
      elim (Bool-cases (leb t'.max_items t'.num_items)) [
        | inl e ↦ rw e (grow_table-IsTable t' w')
        | inr e ↦ rw e w'
      ]

  -- Inserting into a well-formed table adds one to its size, also where the table grows.
  pub size-insert : (k : Bytes) (v : V) (t : Table V) → IsTable t → size (insert k v t) ≡ size t + 1
  unfolding insert insert_link
  size-insert k v t w =
      let t' = insert_link k v t in
      elim (Bool-cases (leb t'.max_items t'.num_items)) [
        | inl e ↦ rw e (size-grow_table t' (insert_link-IsTable k v t w))
        | inr e ↦ rw e
      ]

  pub hits-insert :
      (k q : Bytes) (v : V) (t : Table V)
      → IsTable t
      → hits q (insert k v t) ≡ (if bytes_eq q k then 1 else 0) + hits q t
  unfolding insert
  hits-insert k q v t w =
      let t' = insert_link k v t in
      let w' = insert_link-IsTable k v t w in
      elim (Bool-cases (leb t'.max_items t'.num_items)) [
        | inl e ↦ rw e (hits-grow_table q t' w' ∙ hits-insert_link k q v t w)
        | inr e ↦ rw e (hits-insert_link k q v t w)
      ]

  pub lookup-none : (q : Bytes) (t : Table V) → hits q t ≡ 0 → lookup q t ≡ none
  unfolding lookup hits
  lookup-none q t h = find_absent q (bucket t q) h

  absent_key :
      (k q : Bytes) (t : Table V)
      → lookup k t ≡ none
      → lookup q t ≡ (if bytes_eq q k then none else lookup q t)
  absent_key k q t h = elim (Bool-cases (bytes_eq q k)) [
    | inl e ↦ rw e (ap (λ x. lookup x t) ((bytes_eq_iff q k).0 e) ∙ h)
    | inr e ↦ rw e
  ]

  fresh_once :
      (k q : Bytes) (t : Table V)
      → IsMap t
      → lookup k t ≡ none
      → (if bytes_eq q k then 1 else 0) + hits q t ≤ 1
  fresh_once k q t m fresh = elim (Bool-cases (bytes_eq q k)) [
    | inl e ↦
        rw e (omega (arith, hits_absent k t fresh, ap (λ x. hits x t) ((bytes_eq_iff q k).0 e)))
    | inr e ↦ rw e (omega (arith, m.distinct q))
  ]

  -- Inserting a key that is not there keeps a table a map: well formed, with each key once, also
  -- where the table grows.
  pub insert-IsMap :
      (k : Bytes) (v : V) (t : Table V) → IsMap t → lookup k t ≡ none → IsMap (insert k v t)
  insert-IsMap k v t m fresh = record {
    shape = insert-IsTable k v t m.shape;
    distinct = λ q. omega (arith, hits-insert k q v t m.shape, fresh_once k q t m fresh);
  }

  -- After inserting a key that was not there in a map, the key finds the new item, and every other
  -- key finds what it found before, also where the table grows.
  pub lookup-insert :
      (k q : Bytes) (v : V) (t : Table V)
      → IsMap t
      → lookup k t ≡ none
      → lookup q (insert k v t) ≡ (if bytes_eq q k then some v else lookup q t)
  unfolding insert
  lookup-insert k q v t m fresh =
      let t' = insert_link k v t in
      let w' = insert_link-IsTable k v t m.shape in
      elim (Bool-cases (leb t'.max_items t'.num_items)) [
        | inl e ↦ rw e (
            lookup-grow_table q t' w'
              (omega (arith, hits-insert_link k q v t m.shape, fresh_once k q t m fresh))
            ∙ lookup-insert_link k q v t m.shape)
        | inr e ↦ rw e (lookup-insert_link k q v t m.shape)
      ]

  -- The table of `remove` where the key is there.
  abbrev unlinked : Bytes → Table V → Table V
  unlinked k t = record t {
    table = set t.table (hash_index t k) (unchain k (bucket t k));
    num_items = t.num_items - 1;
  }

  remove_present :
      (k : Bytes) (t : Table V) (v : V) → lookup k t ≡ some v → remove k t ≡ (some v, unlinked k t)
  unfolding remove lookup
  remove_present k t v h = rw (h, remove)

  remove_missing : (k : Bytes) (t : Table V) → lookup k t ≡ none → remove k t ≡ (none, t)
  unfolding remove lookup
  remove_missing k t h = rw (h, remove)

  -- `remove` returns what `lookup` finds.
  pub remove_returns : (k : Bytes) (t : Table V) → (remove k t).0 ≡ lookup k t
  remove_returns k t = elim (Option-cases (lookup k t)) [
    | inl e ↦ rw (remove_missing k t e, e)
    | inr (v, e) ↦ rw (remove_present k t v e, e)
  ]

  hits-unlinked :
      (k q : Bytes) (t : Table V)
      → IsTable t
      → hits q (unlinked k t) ≡ hits q t - (if bytes_eq q k then 1 else 0)
  unfolding hits hash_index
  hits-unlinked k q t w =
      let step = in_replaced (count q) t k q (unchain k (bucket t k)) w in
      elim (Bool-cases (hash_index t k == hash_index t q)) [
        | inl e ↦ step ∙ rw (e, same_bucket t k q e) (count-unchain k q (bucket t q))
        | inr e ↦ step ∙ rw (e, other_key t k q e) (omega arith)
      ]

  lookup-unlinked_ne :
      (k q : Bytes) (t : Table V)
      → IsTable t
      → bytes_eq q k ≡ false
      → lookup q (unlinked k t) ≡ lookup q t
  unfolding lookup hash_index
  lookup-unlinked_ne k q t w ne =
      let step = in_replaced (find q) t k q (unchain k (bucket t k)) w in
      elim (Bool-cases (hash_index t k == hash_index t q)) [
        | inl e ↦ step ∙ rw (e, same_bucket t k q e) (find-unchain_ne k q (bucket t q) ne)
        | inr e ↦ step ∙ rw e
      ]

  unlinked-IsTable :
      (k : Bytes) (t : Table V) (v : V) → IsTable t → lookup k t ≡ some v → IsTable (unlinked k t)
  unfolding lookup
  unlinked-IsTable k t v w h =
      replace-IsTable t k (unchain k (bucket t k)) (t.num_items - 1) w
        (All-unchain _ k (bucket t k) (w.placed (hash_index t k)))
        (omega (arith, length-unchain k (bucket t k) v h, bucket_le_total t k w))

  -- Removing a key, present or not, keeps a table a map.
  pub remove-IsMap : (k : Bytes) (t : Table V) → IsMap t → IsMap (remove k t).1
  remove-IsMap k t m = elim (Option-cases (lookup k t)) [
    | inl e ↦ rw (remove_missing k t e) m
    | inr (v, e) ↦ rw (remove_present k t v e) (record {
      shape = unlinked-IsTable k t v m.shape e;
      distinct = λ q. omega (arith, hits-unlinked k q t m.shape, m.distinct q);
    })
  ]

  -- After `remove` on a map the key is gone, and every other key finds what it found before.
  pub lookup-remove :
      (k q : Bytes) (t : Table V)
      → IsMap t
      → lookup q (remove k t).1 ≡ (if bytes_eq q k then none else lookup q t)
  lookup-remove k q t m = elim (Option-cases (lookup k t)) [
    | inl e ↦ rw (remove_missing k t e) (absent_key k q t e)
    | inr (v, e) ↦ rw (remove_present k t v e) (elim (Bool-cases (bytes_eq q k)) [
      | inl same ↦ rw same (
          lookup-none q (unlinked k t) (
            omega (
              arith,
              hits-unlinked k q t m.shape,
              m.distinct q,
              ap {B = ℕ} (λ b. if b then 1 else 0) same,
            )))
      | inr other ↦ rw other (lookup-unlinked_ne k q t m.shape other)
    ])
  ]

  -- In a well-formed table, an item changed through its pointer is found changed, and every other
  -- key finds what it found before.
  pub lookup-modify :
      (k q : Bytes) (f : V → V) (t : Table V)
      → IsTable t
      → lookup q (modify k f t) ≡ (if bytes_eq q k then Option.map f (lookup q t) else lookup q t)
  unfolding modify lookup hash_index
  lookup-modify k q f t w =
      let step = in_replaced (find q) t k q (change k f (bucket t k)) w in
      elim (Bool-cases (hash_index t k == hash_index t q)) [
        | inl e ↦ step ∙ rw (e, same_bucket t k q e) (find-change k q f (bucket t q))
        | inr e ↦ step ∙ rw (e, other_key t k q e)
      ]

  hits-modify :
      (k q : Bytes) (f : V → V) (t : Table V) → IsTable t → hits q (modify k f t) ≡ hits q t
  unfolding modify hits hash_index
  hits-modify k q f t w =
      let step = in_replaced (count q) t k q (change k f (bucket t k)) w in
      elim (Bool-cases (hash_index t k == hash_index t q)) [
        | inl e ↦ step ∙ rw (e, same_bucket t k q e) (count-change k q f (bucket t q))
        | inr e ↦ step ∙ rw e
      ]

  pub modify-IsMap : (k : Bytes) (f : V → V) (t : Table V) → IsMap t → IsMap (modify k f t)
  unfolding modify
  modify-IsMap k f t m = record {
    shape =
        replace-IsTable t k (change k f (bucket t k)) t.num_items m.shape
          (All-change (λ j. hash_index t j ≡ hash_index t k) k f (bucket t k)
            (m.shape.placed (hash_index t k)))
          (omega (arith, length-change k f (bucket t k)));
    distinct = λ q. omega (arith, hits-modify k q f t m.shape, m.distinct q);
  }

pub hits-init {ℓ} : (V : Type ℓ) (nhlen tsize : ℕ) (q : Bytes) → hits q (init V nhlen tsize) ≡ 0
unfolding init hits count
hits-init V nhlen tsize q =
    ap (count q) (get_or_empty {V = V} _ (hash_index (init V nhlen tsize) q))

-- A new table is well formed, empty, and its size is a power of two.
pub init-IsMap {ℓ} : (V : Type ℓ) (nhlen tsize : ℕ) → IsMap (init V nhlen tsize)
unfolding init
init-IsMap V nhlen tsize =
    let pwr = size_bits (tsize + 1) (tsize / 4) in
    record {
      shape = record {
        sized = length-replicate (2 ^ pwr) [];
        masked = omega (arith, one-le-pow pwr 2);
        limit = refl;
        counted = sym (total_empty V (2 ^ pwr));
        placed = λ i. All_empty _ (2 ^ pwr) i;
      };
      distinct = λ q. omega (arith, hits-init V nhlen tsize q);
    }

pub lookup-init {ℓ} :
    (V : Type ℓ) (nhlen tsize : ℕ) (q : Bytes) → lookup q (init V nhlen tsize) ≡ none
unfolding init lookup find
lookup-init V nhlen tsize q =
    ap (find q) (get_or_empty {V = V} _ (hash_index (init V nhlen tsize) q))

pub size-init {ℓ} : (V : Type ℓ) (nhlen tsize : ℕ) → size (init V nhlen tsize) ≡ 0
unfolding init
size-init V nhlen tsize = refl
