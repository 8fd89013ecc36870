-- ===== src/Dedup/Perfect/Usage.antt =====
-- The first pass counts, for each segment, the bytes that the file's duplicates use of it.
use tcbackup.HashTable
use tcbackup.HashTable.{Table}
use tcbackup.HashTable.Laws.{IsMap, insert-IsMap, lookup-insert, lookup-modify, modify-IsMap}
use tcbackup.Dedup.{new_chunk, dedup_chunk, FileState, FingerChunk, Bin}
use tcbackup.Dedup.Perfect.{count_segment, classify, is_wrong, first_pass}
use mathlib.Core.Option.{none-ne-some, some-injective}
use mathlib.Core.Path.{subst}
use tcbackup.Prelude.{
  ℕ, ◌+◌, ◌%◌, ◌^◌, ◌≡◌, refl, ap, sym, ◌∙◌, Bool, true, false, Option, none, some, List, [], ◌∷◌,
  Bytes, bytes_eq, arith, if◌then◌else◌, Option-cases, Bool-cases, inl, inr, bytes_eq_iff,
}

unfoldable pub or_zero : Option ℕ → ℕ
or_zero none = 0
or_zero (some n) = n

-- The bytes of a segment that were counted.
unfoldable pub usage : Bytes → Table ℕ → ℕ
unfolding or_zero
usage a segments = or_zero (HashTable.lookup a segments)

unfoldable pub reference : Bytes → FingerChunk → ℕ
reference a fc = elim fc.is_new [
  | new_chunk ↦ 0
  | dedup_chunk ↦ if bytes_eq a fc.chunkaddress then fc.chunklen else 0
]

-- The bytes that the duplicates in a list of chunks use of a segment.
unfoldable pub references : Bytes → List FingerChunk → ℕ
unfolding reference
references a [] = 0
references a (fc ∷ fcs) = reference a fc + references a fcs

count_segment-IsMap :
    (fc : FingerChunk) (segments : Table ℕ) → IsMap segments → IsMap (count_segment fc segments)
unfolding count_segment
count_segment-IsMap fc segments m =
    elim (Option-cases (HashTable.lookup fc.chunkaddress segments)) [
      | inl e ↦ rw (e, count_segment) (insert-IsMap fc.chunkaddress _ segments m e)
      | inr (n, e) ↦ rw (e, count_segment) (modify-IsMap fc.chunkaddress _ segments m)
    ]

usage-count_segment :
    (a : Bytes) (fc : FingerChunk) (segments : Table ℕ)
    → IsMap segments
    → usage a (count_segment fc segments) % 2 ^ 32
      ≡ (usage a segments + (if bytes_eq a fc.chunkaddress then fc.chunklen else 0)) % 2 ^ 32
unfolding count_segment usage or_zero
usage-count_segment a fc segments m =
    elim (Option-cases (HashTable.lookup fc.chunkaddress segments)) [
      | inl e ↦
          rw (e, count_segment)
            (ap (λ o. or_zero o % 2 ^ 32)
                (lookup-insert fc.chunkaddress a (fc.chunklen % 2 ^ 32) segments m e)
              ∙ elim (Bool-cases (bytes_eq a fc.chunkaddress)) [
                | inl s ↦
                    let absent : HashTable.lookup a segments ≡ none =
                      ap (λ x. HashTable.lookup x segments) ((bytes_eq_iff a fc.chunkaddress).0 s)
                      ∙ e in
                    rw (s, absent) (omega arith)
                | inr s ↦ rw s (omega arith)
              ])
      | inr (n, e) ↦
          rw (e, count_segment)
            (ap (λ o. or_zero o % 2 ^ 32)
                (lookup-modify fc.chunkaddress a (λ k. (k + fc.chunklen) % 2 ^ 32) segments m.shape)
              ∙ elim (Bool-cases (bytes_eq a fc.chunkaddress)) [
                | inl s ↦
                    let there : HashTable.lookup a segments ≡ some n =
                      ap (λ x. HashTable.lookup x segments) ((bytes_eq_iff a fc.chunkaddress).0 s)
                      ∙ e in
                    rw (s, there) (omega arith)
                | inr s ↦ rw s (omega arith)
              ])
    ]

pub classify-IsMap :
    (fc : FingerChunk) (bin : Bin) (segments : Table ℕ)
    → IsMap segments
    → IsMap (classify fc bin segments).1
unfolding classify
classify-IsMap fc bin segments m = elim (Option-cases (HashTable.lookup fc.chunk_hash bin)) [
  | inl e ↦ rw (e, classify) m
  | inr (address, e) ↦
      rw (e, classify)
        (count_segment-IsMap (record fc { is_new = dedup_chunk; chunkaddress = address }) segments
          m)
]

usage-classify :
    (a : Bytes) (fc : FingerChunk) (bin : Bin) (segments : Table ℕ)
    → IsMap segments
    → usage a (classify fc bin segments).1 % 2 ^ 32
      ≡ (usage a segments + reference a (classify fc bin segments).0) % 2 ^ 32
unfolding classify reference
usage-classify a fc bin segments m = elim (Option-cases (HashTable.lookup fc.chunk_hash bin)) [
  | inl e ↦ rw (e, classify) (omega arith)
  | inr (address, e) ↦
      rw (e, classify)
        (usage-count_segment a (record fc { is_new = dedup_chunk; chunkaddress = address }) segments
          m)
]

-- A first pass that succeeds took its first chunk and then the rest.
pub first_pass_step :
    (state : FileState) (fc : FingerChunk) (fcs fcs' : List FingerChunk) (bin : Bin)
    (segments segments' : Table ℕ)
    → first_pass state (fc ∷ fcs) bin segments ≡ some (fcs', segments')
    → (rest : List FingerChunk) × (fcs' ≡ (classify fc bin segments).0 ∷ rest)
      × (first_pass state fcs bin (classify fc bin segments).1 ≡ some (rest, segments'))
unfolding first_pass
first_pass_step state fc fcs fcs' bin segments segments' h =
    go (is_wrong state (classify fc bin segments).0.is_new)
      (first_pass state fcs bin (classify fc bin segments).1) refl h
  where
    go :
        (b : Bool) (o : Option (List FingerChunk × Table ℕ))
        → first_pass state fcs bin (classify fc bin segments).1 ≡ o
        → (if b then none else elim o as (λ x. Option (List FingerChunk × Table ℕ)) [
          | none ↦ none
          | some (fs, t) ↦ some ((classify fc bin segments).0 ∷ fs, t)
        ])
          ≡ some (fcs', segments')
        → (rest : List FingerChunk) × (fcs' ≡ (classify fc bin segments).0 ∷ rest)
          × (first_pass state fcs bin (classify fc bin segments).1 ≡ some (rest, segments'))
    go true o e k = absurd (none-ne-some _ k)
    go false none e k = absurd (none-ne-some _ k)
    go false (some (fs, t)) e k =
        let same = some-injective _ _ k in
        (fs, sym (ap (λ x. x.0) same), e ∙ ap (λ u. some (fs, u)) (ap (λ x. x.1) same))

-- After a first pass that succeeds, with counts kept in a map, the counts are a map and the count
-- of every segment, an integer of 32 bits, has grown modulo 2^32 by the bytes that the chunks of
-- the file marked as duplicates use of it.
pub usage-first_pass :
    (state : FileState) (fcs fcs' : List FingerChunk) (bin : Bin) (segments segments' : Table ℕ)
    → IsMap segments
    → first_pass state fcs bin segments ≡ some (fcs', segments')
    → IsMap segments'
      × ((a : Bytes) → usage a segments' % 2 ^ 32 ≡ (usage a segments + references a fcs') % 2 ^ 32)
unfolding references first_pass
usage-first_pass state [] fcs' bin segments segments' m h =
    let same = some-injective _ _ h in
    (
      subst IsMap (ap (λ x. x.1) same) m,
      λ a. omega (arith, ap (usage a) (ap (λ x. x.1) same), ap (references a) (ap (λ x. x.0) same)),
    )
usage-first_pass state (fc ∷ fcs) fcs' bin segments segments' m h =
    let (rest, shape, later) = first_pass_step state fc fcs fcs' bin segments segments' h in
    let (m', sum) =
      usage-first_pass state fcs rest bin (classify fc bin segments).1 segments'
        (classify-IsMap fc bin segments m) later in
    (m', λ a. omega (arith, sum a, usage-classify a fc bin segments m, ap (references a) shape))
