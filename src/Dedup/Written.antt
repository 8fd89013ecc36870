-- ===== src/Dedup/Written.antt =====
-- client/src/chunkdedup.c, `mark_deplicate_chunk`: what the store gets of a new file.
use tcbackup.HashTable
use tcbackup.HashTable.{Table}
use tcbackup.HashTable.Invariant.{hits}
use tcbackup.HashTable.Laws.{IsMap, hits-insert}
use tcbackup.Store.{Store, store_chunk}
use tcbackup.Dedup.{
  new_chunk, dedup_chunk, FingerChunk, Bin, write_chunk_to_cloud, write_or_log, mark_chunk,
  mark_new,
}
use tcbackup.Dedup.Index.{write_or_log_same, mark_chunk-IsMap}
use tcbackup.Prelude.{
  ℕ, ◌+◌, ◌≤◌, ◌≡◌, refl, ap, ap₂, sym, ◌∙◌, Option, List, [], ◌∷◌, Bytes, bytes_eq, arith,
  if◌then◌else◌, Option-cases, inl, inr,
}

-- Whether a chunk is marked new and has this fingerprint, and how many chunks are.
unfoldable pub new_of : Bytes → FingerChunk → ℕ
new_of q fc = elim fc.is_new as (λ x. ℕ) [
  | new_chunk ↦ if bytes_eq q fc.chunk_hash then 1 else 0
  | dedup_chunk ↦ 0
]

unfoldable pub count_new : Bytes → List FingerChunk → ℕ
unfolding new_of
count_new q [] = 0
count_new q (fc ∷ fcs) = new_of q fc + count_new q fcs

new_of_new :
    (q : Bytes) (fc : FingerChunk)
    → fc.is_new ≡ new_chunk
    → new_of q fc ≡ (if bytes_eq q fc.chunk_hash then 1 else 0)
unfolding new_of
new_of_new q fc e =
    ap
      (λ x. elim x as (λ y. ℕ) [
        | new_chunk ↦ if bytes_eq q fc.chunk_hash then 1 else 0
        | dedup_chunk ↦ 0
      ])
      e

module _ (container_name : ℕ → Bytes) (read_file : ℕ → ℕ → Option Bytes) where
  -- Writing a chunk again that was written, or tried, leads to the same store.
  write_or_log_again :
      (off_set : ℕ) (fc : FingerChunk) (s : Store)
      → (write_or_log container_name read_file off_set
          (write_or_log container_name read_file off_set fc s).0
          s).1
        ≡ (write_or_log container_name read_file off_set fc s).1
  unfolding write_or_log write_chunk_to_cloud
  write_or_log_again off_set fc s = elim (Option-cases (read_file off_set fc.chunklen)) [
    | inl e ↦
        let same : (write_or_log container_name read_file off_set fc s).0 ≡ fc =
          rw (e, write_or_log) refl in
        ap (λ f. (write_or_log container_name read_file off_set f s).1) same
    | inr (content, e) ↦
        let address = (store_chunk container_name fc.chunk_hash content s).0 in
        let same : (write_or_log container_name read_file off_set fc s).0
            ≡ record fc { chunkaddress = address } =
          rw (e, write_or_log) refl in
        ap (λ f. (write_or_log container_name read_file off_set f s).1) same
        ∙ rw (e, write_or_log) refl
  ]

  write_or_log_length :
      (off_set : ℕ) (fc : FingerChunk) (s : Store)
      → (write_or_log container_name read_file off_set fc s).0.chunklen ≡ fc.chunklen
  unfolding write_or_log write_chunk_to_cloud
  write_or_log_length off_set fc s = elim (Option-cases (read_file off_set fc.chunklen)) [
    | inl e ↦ rw (e, write_or_log) refl
    | inr (content, e) ↦ rw (e, write_or_log) refl
  ]

  -- The store after the chunks that are marked new are written, each once and at its offset.
  unfoldable pub write_marked : ℕ → List FingerChunk → Store → Store
  write_marked size [] s = s
  write_marked size (fc ∷ fcs) s =
      write_marked (size + fc.chunklen) fcs (elim fc.is_new as (λ x. Store) [
        | new_chunk ↦ (write_or_log container_name read_file size fc s).1
        | dedup_chunk ↦ s
      ])

  -- What a step does to the store, and to the number of entries of each fingerprint.
  record IsWritten (size : ℕ) (fc fc' : FingerChunk) (bin bin' : Bin) (s s' : Store) : Type 0 where
    len : fc'.chunklen ≡ fc.chunklen
    store : s' ≡ (elim fc'.is_new as (λ x. Store) [
      | new_chunk ↦ (write_or_log container_name read_file size fc' s).1
      | dedup_chunk ↦ s
    ])
    entered : (q : Bytes) → hits q bin' ≡ new_of q fc' + hits q bin

  mark_chunk-IsWritten :
      (size : ℕ) (fc : FingerChunk) (bin : Bin) (s : Store)
      → IsMap bin
      → let (fc', bin', s') = mark_chunk container_name read_file size fc bin s in
        IsWritten size fc fc' bin bin' s s'
  unfolding mark_chunk new_of
  mark_chunk-IsWritten size fc bin s m = elim (Option-cases (HashTable.lookup fc.chunk_hash bin)) [
    | inl e ↦
        let fresh = record fc { is_new = new_chunk } in
        let fc' = (write_or_log container_name read_file size fresh s).0 in
        let same = write_or_log_same container_name read_file size fresh s in
        rw (e, mark_chunk)
          (record {
            len = write_or_log_length size fresh s;
            store =
                sym (write_or_log_again size fresh s)
                ∙ ap
                    (λ x. elim x as (λ y. Store) [
                      | new_chunk ↦ (write_or_log container_name read_file size fc' s).1
                      | dedup_chunk ↦ s
                    ])
                    (sym same.1);
            entered = λ q.
                hits-insert fc'.chunk_hash q fc'.chunkaddress bin m.shape
                ∙ ap (λ n. n + hits q bin) (sym (new_of_new q fc' same.1));
          })
    | inr (address, e) ↦
        rw (e, mark_chunk) (record { len = refl; store = refl; entered = λ q. omega arith })
  ]

  -- With an index that is a map, marking a new file leaves the store as it is when the chunks that
  -- were marked new, and no others, are written to it, each once and at its offset; and of every
  -- fingerprint as many chunks are marked new as the index gains entries for it, of which it has
  -- at most one: no fingerprint is written twice.
  pub mark_new-write_marked :
      (size : ℕ) (fcs : List FingerChunk) (bin : Bin) (s : Store)
      → IsMap bin
      → let (marked, bin', s') = mark_new container_name read_file size fcs bin s in
        (s' ≡ write_marked size marked s)
        × ((q : Bytes) → (hits q bin' ≡ count_new q marked + hits q bin) × (hits q bin' ≤ 1))
  unfolding mark_new count_new write_marked
  mark_new-write_marked size [] bin s m = (refl, λ q. (omega arith, m.distinct q))
  mark_new-write_marked size (fc ∷ fcs) bin s m =
      let (fc', bin', s') = mark_chunk container_name read_file size fc bin s in
      let written = mark_chunk-IsWritten size fc bin s m in
      let (stored, entries) =
        mark_new-write_marked (size + fc.chunklen) fcs bin' s'
          (mark_chunk-IsMap container_name read_file size fc bin s m) in
      let marked = (mark_new container_name read_file (size + fc.chunklen) fcs bin' s').0 in
      (
        stored ∙ ap₂ (λ n t. write_marked (size + n) marked t) (sym written.len) written.store,
        λ q. (omega (arith, (entries q).0, written.entered q), (entries q).1),
      )
