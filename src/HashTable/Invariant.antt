-- ===== src/HashTable/Invariant.antt =====
-- Well-formed tables, and what one link does to them.
use tcbackup.Prelude.{
  ℕ, zero, suc, ◌+◌, ◌*◌, ◌≤◌, ◌<◌, ◌≡◌, ◌≢◌, ap, ◌∙◌, true, false, List, [], ◌∷◌, Bytes, bytes_eq,
  bytes_eq_iff, arith, if◌then◌else◌, ◌==◌, length, get_or, set, All, bit_and-le, get_or-set_self,
  get_or-set_ne, length-set, Bool-cases, ==_iff, inl, inr,
}
use tcbackup.HashTable.{Table, hash_index, bucket, lookup}
use tcbackup.HashTable.Chain.{
  count, count_all, find_all, count_elsewhere, count_all_single, find_all_single,
}

module _ {ℓ} {V : Type ℓ} where
  unfoldable pub total : List (List (Bytes × V)) → ℕ
  total [] = 0
  total (c ∷ cs) = length c + total cs

  -- How many links a table holds under a key, in the bucket where `lookup` looks.
  unfoldable pub hits : Bytes → Table V → ℕ
  unfolding count
  hits q t = count q (bucket t q)

  -- The size, the mask and the counts agree with the buckets, and each link stands in the bucket
  -- of its key.
  pub record IsTable (t : Table V) : Type ℓ where
    pub sized : length t.table ≡ t.buckets
    pub masked : t.mask + 1 ≡ t.buckets
    pub limit : t.max_items ≡ t.buckets * 4
    pub counted : t.num_items ≡ total t.table
    pub placed : (i : ℕ) → All (λ e. hash_index t e.0 ≡ i) (get_or t.table i [])

  pub hash_index-lt : (t : Table V) (q : Bytes) → IsTable t → hash_index t q < length t.table
  unfolding hash_index
  hash_index-lt t q w = omega (arith, w.sized, w.masked, bit_and-le _ t.mask)

  total-set :
      (cs : List (List (Bytes × V))) (i : ℕ) (c : List (Bytes × V))
      → i < length cs
      → total (set cs i c) + length (get_or cs i []) ≡ total cs + length c
  unfolding total
  total-set [] i c h = absurd (omega arith)
  total-set (d ∷ cs) zero c h = omega arith
  total-set (d ∷ cs) (suc i) c h = omega (arith, total-set cs i c (omega arith))

  pub All-set {κ} :
      (P : ℕ → Bytes × V → Type κ) (cs : List (List (Bytes × V))) (i : ℕ) (c : List (Bytes × V))
      → ((j : ℕ) → All (P j) (get_or cs j []))
      → All (P i) c
      → (j : ℕ) → All (P j) (get_or (set cs i c) j [])
  All-set P [] i c h a j = h j
  All-set P (d ∷ cs) zero c h a zero = a
  All-set P (d ∷ cs) zero c h a (suc j) = h (suc j)
  All-set P (d ∷ cs) (suc i) c h a zero = h 0
  All-set P (d ∷ cs) (suc i) c h a (suc j) = All-set (λ n. P (suc n)) cs i c (λ n. h (suc n)) a j

  -- A bucket replaced by a chain of the same bucket keeps the table well formed.
  pub replace-IsTable :
      (t : Table V) (q : Bytes) (c : List (Bytes × V)) (n : ℕ)
      → IsTable t
      → All (λ e. hash_index t e.0 ≡ hash_index t q) c
      → n + length (bucket t q) ≡ t.num_items + length c
      → IsTable (record t { table = set t.table (hash_index t q) c; num_items = n })
  unfolding hash_index
  replace-IsTable t q c n w a e =
      let i = hash_index t q in
      let inside = hash_index-lt t q w in
      record {
        sized = length-set t.table i c ∙ w.sized;
        masked = w.masked;
        limit = w.limit;
        counted = omega (arith, total-set t.table i c inside, w.counted);
        placed = All-set (λ n e. hash_index t e.0 ≡ n) t.table i c w.placed a;
      }

  -- The bucket of a key in such a table.
  pub bucket_replaced :
      (t : Table V) (k q : Bytes) (c : List (Bytes × V))
      → IsTable t
      → get_or (set t.table (hash_index t k) c) (hash_index t q) []
        ≡ (if hash_index t k == hash_index t q then c else bucket t q)
  bucket_replaced t k q c w = elim (Bool-cases (hash_index t k == hash_index t q)) [
    | inl e ↦
        rw (e, ← (==_iff _ _).0 e)
          (get_or-set_self t.table (hash_index t k) c [] (hash_index-lt t k w))
    | inr e ↦ rw e (get_or-set_ne t.table (hash_index t k) (hash_index t q) c [] (ground arith))
  ]

  pub in_replaced {κ} :
      {B : Type κ} (g : List (Bytes × V) → B) (t : Table V) (k q : Bytes) (c : List (Bytes × V))
      → IsTable t
      → g (get_or (set t.table (hash_index t k) c) (hash_index t q) [])
        ≡ (if hash_index t k == hash_index t q then g c else g (bucket t q))
  in_replaced g t k q c w = elim (Bool-cases (hash_index t k == hash_index t q)) [
    | inl e ↦ rw (bucket_replaced t k q c w, e)
    | inr e ↦ rw (bucket_replaced t k q c w, e)
  ]

  pub count_other_bucket :
      (t : Table V) (q : Bytes) (j : ℕ)
      → IsTable t
      → j ≢ hash_index t q
      → count q (get_or t.table j []) ≡ 0
  count_other_bucket t q j w ne = count_elsewhere (hash_index t) q j _ ne (w.placed j)

  -- Counting or searching the whole table is counting or searching the key's bucket.
  pub count_all-table : (t : Table V) (q : Bytes) → IsTable t → count_all q t.table ≡ hits q t
  unfolding hits
  count_all-table t q w =
      count_all_single q (hash_index t q) t.table (λ j. count_other_bucket t q j w)

  pub find_all-table : (t : Table V) (q : Bytes) → IsTable t → find_all q t.table ≡ lookup q t
  unfolding lookup
  find_all-table t q w =
      find_all_single q (hash_index t q) t.table (λ j. count_other_bucket t q j w)

  pub same_bucket :
      (t : Table V) (k q : Bytes)
      → (hash_index t k == hash_index t q) ≡ true
      → bucket t k ≡ bucket t q
  same_bucket t k q e = ap (λ (i : ℕ). get_or t.table i []) ((==_iff _ _).0 e)

  pub other_key :
      (t : Table V) (k q : Bytes)
      → (hash_index t k == hash_index t q) ≡ false
      → bytes_eq q k ≡ false
  other_key t k q e = elim (Bool-cases (bytes_eq q k)) [
    | inl same ↦ ground (arith, ap (hash_index t) ((bytes_eq_iff q k).0 same))
    | inr differ ↦ differ
  ]

  bucket_le_total_of : (cs : List (List (Bytes × V))) (i : ℕ) → length (get_or cs i []) ≤ total cs
  unfolding total
  bucket_le_total_of [] i = omega arith
  bucket_le_total_of (c ∷ cs) zero = omega arith
  bucket_le_total_of (c ∷ cs) (suc i) = omega (arith, bucket_le_total_of cs i)

  pub bucket_le_total : (t : Table V) (q : Bytes) → IsTable t → length (bucket t q) ≤ t.num_items
  bucket_le_total t q w = omega (arith, w.counted, bucket_le_total_of t.table (hash_index t q))
