-- ===== src/Dedup/Perfect.antt =====
-- client/src/perfect_rewrite.c: a first pass over the files counts how many bytes of each container
-- (segment) the backup uses; at the end of the stream a second pass stores the chunks, and
-- rewrites the duplicates in containers that are used too little.
-- The comparison of floats with `segment_usage_threshold` is the parameter `is_sparse` on the
-- counted length. `chunknum` is `none` for STREAM_END. The one bin that all files share (their
-- represent finger is zero) is passed along, in place of `LoadBin`; the mutexes are left out.
pub mod Usage
pub mod Total
use tcbackup.HashTable
use tcbackup.HashTable.{Table}
use tcbackup.Store.{Store}
use tcbackup.Dedup.{
  ChunkState, new_chunk, dedup_chunk, FileState, new_file, dedup_file, FingerChunk, Bin,
  insert_meta, write_chunk_to_cloud,
}
use tcbackup.Prelude.{
  ℕ, ◌+◌, ◌%◌, ◌^◌, Bool, true, false, Option, none, some, List, [], ◌∷◌, ◌++◌, Bytes,
  if◌then◌else◌, take, drop,
}

pub record FileInfo : Type 0 where
  pub file_path : Bytes
  pub is_new : FileState
  pub chunknum : Option ℕ
  pub chunks : List FingerChunk

-- The bytes of a segment that were counted, an `int32_t` as its bit pattern, grow by the length of a chunk.
unfoldable pub count_segment : FingerChunk → Table ℕ → Table ℕ
count_segment fc segments = elim (HashTable.lookup fc.chunkaddress segments) as (λ x. Table ℕ) [
  | some length ↦ HashTable.modify fc.chunkaddress (λ n. (n + fc.chunklen) % 2 ^ 32) segments
  | none ↦ HashTable.insert fc.chunkaddress (fc.chunklen % 2 ^ 32) segments
]

-- The first pass on one chunk.
unfoldable pub classify : FingerChunk → Bin → Table ℕ → FingerChunk × Table ℕ
unfolding count_segment
classify fc bin segments = elim (HashTable.lookup fc.chunk_hash bin) [
  | none ↦ (record fc { is_new = new_chunk }, segments)
  | some address ↦
      let fc' = record fc { is_new = dedup_chunk; chunkaddress = address } in
      (fc', count_segment fc' segments)
]

-- The error of the first pass: a new chunk in a duplicate file.
unfoldable pub is_wrong : FileState → ChunkState → Bool
is_wrong dedup_file new_chunk = true
is_wrong dedup_file dedup_chunk = false
is_wrong new_file state = false

-- The first pass; `none` where the function returns false.
unfoldable pub first_pass :
    FileState → List FingerChunk → Bin → Table ℕ → Option (List FingerChunk × Table ℕ)
unfolding classify is_wrong
first_pass state [] bin segments = some ([], segments)
first_pass state (fc ∷ fcs) bin segments =
    let (fc', segments') = classify fc bin segments in
    let rest = first_pass state fcs bin segments' in
    if is_wrong state fc'.is_new
    then none
    else elim rest [ none ↦ none | some (fcs', segments'') ↦ some (fc' ∷ fcs', segments'') ]

module _ (container_name : ℕ → Bytes) (is_sparse : ℕ → Bool) where
  -- A chunk that was new in the first pass: it may have come to the index since.
  unfoldable pub store_new :
      (ℕ → ℕ → Option Bytes) → FingerChunk → Bin → Store → Option (FingerChunk × Bin × Store)
  unfolding insert_meta
  store_new read_file fc bin s = elim (HashTable.lookup fc.chunk_hash bin) [
    | some address ↦ some (record fc { is_new = dedup_chunk; chunkaddress = address }, bin, s)
    | none ↦ elim (write_chunk_to_cloud container_name read_file fc.offset fc s) [
      | none ↦ none
      | some (fc', s') ↦ some (fc', insert_meta fc' bin, s')
    ]
  ]

  -- A duplicate in a sparse segment: it is stored again and the index follows.
  unfoldable pub rewrite_dup :
      (ℕ → ℕ → Option Bytes) → FingerChunk → Bin → Store → Option (FingerChunk × Bin × Store)
  rewrite_dup read_file fc bin s =
      elim (write_chunk_to_cloud container_name read_file fc.offset fc s) [
        | none ↦ none
        | some (fc', s') ↦ elim (HashTable.lookup fc.chunk_hash bin) [
          | none ↦ none
          | some address ↦ some (
            record fc' { is_new = new_chunk },
            HashTable.modify fc.chunk_hash (λ a. fc'.chunkaddress) bin,
            s',
          )
        ]
      ]

  unfoldable pub rewrite_chunk :
      (ℕ → ℕ → Option Bytes)
      → Table ℕ
      → FingerChunk
      → Bin
      → Store
      → Option (FingerChunk × Bin × Store)
  unfolding store_new rewrite_dup
  rewrite_chunk read_file segments fc bin s = elim fc.is_new [
    | new_chunk ↦ store_new read_file fc bin s
    | dedup_chunk ↦ elim (HashTable.lookup fc.chunkaddress segments) [
      | none ↦ none
      | some length ↦ if is_sparse length then rewrite_dup read_file fc bin s else some (fc, bin, s)
    ]
  ]

  unfoldable pub second_pass :
      (ℕ → ℕ → Option Bytes)
      → Table ℕ
      → List FingerChunk
      → Bin
      → Store
      → Option (List FingerChunk × Bin × Store)
  unfolding rewrite_chunk
  second_pass read_file segments [] bin s = some ([], bin, s)
  second_pass read_file segments (fc ∷ fcs) bin s =
      elim (rewrite_chunk read_file segments fc bin s) [
        | none ↦ none
        | some (fc', bin', s') ↦ elim (second_pass read_file segments fcs bin' s') [
          | none ↦ none
          | some (fcs', bin'', s'') ↦ some (fc' ∷ fcs', bin'', s'')
        ]
      ]

  -- The chunks that the loop over `i` reaches, and the files of the queue in their order.
  unfoldable pub limit : Option ℕ → List FingerChunk → List FingerChunk
  limit none fcs = fcs
  limit (some n) fcs = take n fcs

  unfoldable pub rewrite_files :
      (Bytes → Option (ℕ → ℕ → Option Bytes))
      → Table ℕ
      → List FileInfo
      → Bin
      → Store
      → Option (List (List FingerChunk) × Bin × Store)
  unfolding second_pass limit
  rewrite_files open_file segments [] bin s = some ([], bin, s)
  rewrite_files open_file segments (f ∷ fs) bin s = elim (open_file f.file_path) [
    | none ↦ none
    | some read_file ↦ elim (second_pass read_file segments (limit f.chunknum f.chunks) bin s) [
      | none ↦ none
      | some (fcs, bin', s') ↦ elim (rewrite_files open_file segments fs bin' s') [
        | none ↦ none
        | some (rest, bin'', s'') ↦ some (fcs ∷ rest, bin'', s'')
      ]
    ]
  ]
