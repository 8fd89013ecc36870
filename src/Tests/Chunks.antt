-- ===== src/Tests/Chunks.antt =====
-- A file of two chunks with the same fingerprint, marked against an index.
use tcbackup.Dedup.{new_chunk, FingerChunk, Bin, mark_new}
use tcbackup.Dedup.Index.{address_in, lookup-mark_new}
use tcbackup.Dedup.Written.{count_new, write_marked, mark_new-write_marked}
use tcbackup.HashTable.Invariant.{hits}
use tcbackup.HashTable
use tcbackup.HashTable.Chain.{or_else}
use tcbackup.HashTable.Laws.{IsMap, init-IsMap}
use tcbackup.Store.{Store, store_init}
use tcbackup.Tests.{hash_a}
use tcbackup.Prelude.{◌+◌, ◌≤◌, ◌≡◌, some, List, [], ◌∷◌, Bytes, replicate}

abbrev chunk : FingerChunk
chunk = record {
  chunk_hash = hash_a;
  is_new = new_chunk;
  chunklen = 3;
  offset = 0;
  chunkaddress = [];
}

abbrev chunks : List FingerChunk
chunks = chunk ∷ chunk ∷ []

abbrev bin : Bin
bin = HashTable.init Bytes 20 4

abbrev store : Store
store = store_init (λ n. n ∷ [])

abbrev marked : List FingerChunk × Bin × Store
marked = mark_new (λ n. n ∷ []) (λ offset len. some (replicate len 7)) 0 chunks bin store

lookup-mark_new_example :
    IsMap marked.1
    × ((q : Bytes)
        → HashTable.lookup q marked.1 ≡ or_else (HashTable.lookup q bin) (address_in q marked.0))
lookup-mark_new_example =
    lookup-mark_new (λ n. n ∷ []) (λ offset len. some (replicate len 7)) 0 chunks bin store
      (init-IsMap Bytes 20 4)

mark_new-write_marked_example :
    (marked.2 ≡ write_marked (λ n. n ∷ []) (λ offset len. some (replicate len 7)) 0 marked.0 store)
    × ((q : Bytes) → (hits q marked.1 ≡ count_new q marked.0 + hits q bin) × (hits q marked.1 ≤ 1))
mark_new-write_marked_example =
    mark_new-write_marked (λ n. n ∷ []) (λ offset len. some (replicate len 7)) 0 chunks bin store
      (init-IsMap Bytes 20 4)
