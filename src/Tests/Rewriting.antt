-- ===== src/Tests/Rewriting.antt =====
-- A known chunk through the two passes of perfect rewriting, and through the capping buffer.
use tcbackup.Dedup.{new_chunk, dedup_chunk, new_file, FingerChunk, Bin}
use tcbackup.Dedup.Perfect.{classify, is_wrong, first_pass, second_pass, count_segment}
use tcbackup.Dedup.Perfect.Total.{IsKnown, second_pass-first_pass}
use tcbackup.Dedup.Perfect.Usage.{usage, references, usage-first_pass}
use tcbackup.Dedup.Capping.{
  ChunkList, Capping, link_nodes, take_chunk, buffer_chunks, capping_process,
}
use tcbackup.Dedup.Capping.Kept.{all_hashes, hashes}
use tcbackup.Dedup.Capping.Buffer.{capping_process-hashes}
use tcbackup.Dedup.Capping.Sorted.{IsSorted, link_nodes-IsSorted}
use tcbackup.HashTable
use tcbackup.HashTable.{Table}
use tcbackup.HashTable.Chain.{count}
use tcbackup.HashTable.Laws.{IsMap, init-IsMap, lookup-init, insert-IsMap, lookup-insert}
use tcbackup.Store.{Store, store_init}
use tcbackup.Tests.{hash_a}
use tcbackup.Prelude.{
  ℕ, ◌+◌, ◌%◌, ◌^◌, ◌≤◌, ◌≡◌, refl, true, some, List, [], ◌∷◌, ◌++◌, Bytes, All, length, replicate,
  bytes_eq, arith,
}

abbrev chunk : FingerChunk
chunk = record {
  chunk_hash = hash_a;
  is_new = new_chunk;
  chunklen = 3;
  offset = 0;
  chunkaddress = [];
}

abbrev address : Bytes
address = 9 ∷ []

abbrev bin : Bin
bin = HashTable.insert hash_a address (HashTable.init Bytes 20 4)

bin-IsMap : IsMap bin
bin-IsMap = insert-IsMap hash_a address _ (init-IsMap Bytes 20 4) (lookup-init Bytes 20 4 hash_a)

known : HashTable.lookup hash_a bin ≡ some address
unfolding bytes_eq
known =
    lookup-insert hash_a hash_a address _ (init-IsMap Bytes 20 4) (lookup-init Bytes 20 4 hash_a)

abbrev segments : Table ℕ
segments = HashTable.init ℕ 64 4

abbrev dup : FingerChunk
dup = record chunk { is_new = dedup_chunk; chunkaddress = address }

abbrev counted : Table ℕ
counted = count_segment dup segments

passed : first_pass new_file (chunk ∷ []) bin segments ≡ some (dup ∷ [], counted)
unfolding first_pass is_wrong classify
passed = rw (known, classify) refl

usage-first_pass_example :
    IsMap counted
    × ((a : Bytes)
        → usage a counted % 2 ^ 32 ≡ (usage a segments + references a (dup ∷ [])) % 2 ^ 32)
usage-first_pass_example =
    usage-first_pass new_file (chunk ∷ []) (dup ∷ []) bin segments counted (init-IsMap ℕ 64 4)
      passed

abbrev store : Store
store = store_init (λ n. n ∷ [])

second_pass-first_pass_example :
    (fcs' : List FingerChunk) × (bin' : Bin) × (s' : Store) × (second_pass
        (λ n. n ∷ [])
        (λ n. true)
        (λ offset len. some (replicate len 7))
        counted
        (dup ∷ [])
        bin
        store
      ≡ some (fcs', bin', s'))
    × IsMap bin'
    × All (λ fc. IsKnown fc.chunk_hash bin') (dup ∷ [])
    × ((q : Bytes) → IsKnown q bin → IsKnown q bin')
second_pass-first_pass_example =
    second_pass-first_pass (λ n. n ∷ []) (λ n. true) (λ offset len. some (replicate len 7))
      (λ offset len. (replicate len 7, refl)) new_file (chunk ∷ []) (dup ∷ []) bin bin segments
      counted counted store (init-IsMap ℕ 64 4) bin-IsMap passed (λ q k. k) (λ q k. k)

abbrev nodes : List (Bytes × ℕ)
nodes = (hash_a, 3) ∷ (address, 5) ∷ []

link_nodes-IsSorted_example :
    IsSorted (link_nodes nodes [])
    × (length (link_nodes nodes []) ≡ length nodes + 0)
    × ((q : Bytes) → count q (link_nodes nodes []) ≡ count q nodes + count {V = ℕ} q [])
link_nodes-IsSorted_example = link_nodes-IsSorted nodes [] tt

abbrev idle : Capping
idle = record {
  chunk_buffer = [];
  segment_buffer = segments;
  buffer_length = 0;
  bin = bin;
  store = store;
  done = [];
}

abbrev taken : ChunkList × Capping
taken =
    take_chunk (λ n. n ∷ []) (λ path offset len. some (replicate len 7)) 1 100 chunk
      (record { path = address; chunks = [] }) idle

abbrev buffered : Capping
buffered = record taken.1 { chunk_buffer = taken.1.chunk_buffer ++ (taken.0 ∷ []) }

processed :
    capping_process
      (λ n. n ∷ [])
      (λ path offset len. some (replicate len 7))
      1
      100
      (some (address, chunk ∷ []))
      idle
    ≡ some buffered
unfolding capping_process buffer_chunks
processed = refl

capping_process-hashes_example :
    (all_hashes buffered ≡ all_hashes idle ++ hashes (chunk ∷ [])) × (buffered.buffer_length ≤ 100)
capping_process-hashes_example =
    capping_process-hashes (λ n. n ∷ []) (λ path offset len. some (replicate len 7)) 1 100 address
      (chunk ∷ []) idle buffered ((omega arith, omega arith), tt) (omega arith) processed
