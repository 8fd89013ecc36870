-- ===== src/HashTable/Walk.antt =====
-- `first` and `next`: the walk over the table visits every link once, bucket by bucket.
use tcbackup.Prelude.{
  ℕ, zero, suc, ◌+◌, ◌<◌, ◌≡◌, refl, ap, ◌∙◌, Option, none, some, List, [], ◌∷◌, ◌++◌, Bytes, arith,
  length, length-append, bytes_eq, Bool-cases, inl, inr,
}
use tcbackup.HashTable.{Table, find, lookup}
use tcbackup.HashTable.Chain.{count, count_all, find_all, or_else}
use tcbackup.HashTable.Invariant.{total, hits, IsTable, find_all-table, count_all-table}

-- The walk's state: the chain from `walkptr` on, empty where that is NULL, and the buckets from
-- `walk_index` on.
pub record Cursor {ℓ} (V : Type ℓ) : Type ℓ where
  pub walkptr : List (Bytes × V)
  pub ahead : List (List (Bytes × V))

module _ {ℓ} {V : Type ℓ} where
  -- `while (!walkptr && walk_index < buckets) walkptr = table[walk_index++];`
  unfoldable pub skip : List (Bytes × V) → List (List (Bytes × V)) → Cursor V
  skip (e ∷ c) ahead = record { walkptr = e ∷ c; ahead = ahead }
  skip [] [] = record { walkptr = []; ahead = [] }
  skip [] (c ∷ cs) = skip c cs

  -- The item under the pointer, which `first` and `next` return.
  unfoldable pub current : Cursor V → Option (Bytes × V)
  current c = elim c.walkptr [ [] ↦ none | e ∷ rest ↦ some e ]

  unfoldable pub first : Table V → Cursor V
  unfolding skip
  first t = skip [] t.table

  unfoldable pub next : Cursor V → Cursor V
  unfolding skip
  next c = skip (elim c.walkptr [ [] ↦ [] | e ∷ rest ↦ rest ]) c.ahead

  -- `for (item = first(); item; item = next())`, with the items that it visits.
  unfoldable pub walk : ℕ → Cursor V → List (Bytes × V)
  unfolding current next
  walk zero c = []
  walk (suc fuel) c =
      let rest = walk fuel (next c) in elim (current c) [ none ↦ [] | some e ↦ e ∷ rest ]

  unfoldable pub items : Table V → List (Bytes × V)
  unfolding first walk
  items t = walk (t.num_items + 1) (first t)

  abbrev pub flatten : List (List (Bytes × V)) → List (Bytes × V)
  flatten [] = []
  flatten (c ∷ cs) = c ++ flatten cs

  walk-skip :
      (n : ℕ) (c : List (Bytes × V)) (cs : List (List (Bytes × V)))
      → length (c ++ flatten cs) < n
      → walk n (skip c cs) ≡ c ++ flatten cs
  unfolding walk skip
  walk-skip zero c cs h = absurd (omega arith)
  walk-skip (suc n) (e ∷ c) cs h = ap (◌∷◌ e) (walk-skip n c cs (omega arith))
  walk-skip (suc n) [] [] h = refl
  walk-skip (suc n) [] (d ∷ ds) h = walk-skip (suc n) d ds h

  length-flatten : (cs : List (List (Bytes × V))) → length (flatten cs) ≡ total cs
  unfolding total
  length-flatten [] = refl
  length-flatten (c ∷ cs) = omega (arith, length-append c (flatten cs), length-flatten cs)

  -- A walk from `first` by `next` to NULL visits the chains of all buckets in order.
  pub items-flatten : (t : Table V) → IsTable t → items t ≡ flatten t.table
  unfolding items
  items-flatten t w =
      walk-skip (t.num_items + 1) [] t.table (omega (arith, length-flatten t.table, w.counted))

  pub length-items : (t : Table V) → IsTable t → length (items t) ≡ t.num_items
  length-items t w =
      ap length (items-flatten t w) ∙ omega (arith, length-flatten t.table, w.counted)

  find-append :
      (q : Bytes) (c d : List (Bytes × V)) → find q (c ++ d) ≡ or_else (find q c) (find q d)
  unfolding find
  find-append q [] d = refl
  find-append q ((k, v) ∷ c) d = elim (Bool-cases (bytes_eq q k)) [
    | inl e ↦ rw e
    | inr e ↦ rw e (find-append q c d)
  ]

  find-flatten : (q : Bytes) (cs : List (List (Bytes × V))) → find q (flatten cs) ≡ find_all q cs
  unfolding find find_all
  find-flatten q [] = refl
  find-flatten q (c ∷ cs) =
      find-append q c (flatten cs) ∙ ap (or_else (find q c)) (find-flatten q cs)

  -- Of the items that a walk over a well-formed table visits, the first with a given key is the one
  -- that `lookup` finds; if none has the key, `lookup` finds none.
  pub find-items : (q : Bytes) (t : Table V) → IsTable t → find q (items t) ≡ lookup q t
  find-items q t w = ap (find q) (items-flatten t w) ∙ find-flatten q t.table ∙ find_all-table t q w

  pub count-append : (q : Bytes) (c d : List (Bytes × V)) → count q (c ++ d) ≡ count q c + count q d
  unfolding count
  count-append q [] d = omega arith
  count-append q ((k, v) ∷ c) d = omega (arith, count-append q c d)

  count-flatten : (q : Bytes) (cs : List (List (Bytes × V))) → count q (flatten cs) ≡ count_all q cs
  unfolding count count_all
  count-flatten q [] = refl
  count-flatten q (c ∷ cs) = omega (arith, count-append q c (flatten cs), count-flatten q cs)

  pub count-items : (q : Bytes) (t : Table V) → IsTable t → count q (items t) ≡ hits q t
  count-items q t w =
      ap (count q) (items-flatten t w) ∙ count-flatten q t.table ∙ count_all-table t q w
