-- ===== src/Dedup.antt =====
-- client/src/chunkdedup.c and the types of recipe.h and extreme_binning.h: the chunks of a file are
-- looked up in the index of known fingerprints (a bin), and new ones are stored.
-- The linked list of chunks is a list. `read_file offset len` stands for the loop of `read` calls on
-- the open file, `none` where a call fails; under SIMULATE it gives what `malloc` left.
pub mod Index
pub mod Written
pub mod Perfect
pub mod Capping
pub mod Cfl
use tcbackup.HashTable
use tcbackup.HashTable.{Table}
use tcbackup.Store.{Store, store_chunk}
use tcbackup.Prelude.{
  ℕ, ◌+◌, Bool, true, false, Option, none, some, List, [], ◌∷◌, Bytes, if◌then◌else◌,
}

pub data ChunkState : Type 0 where
  new_chunk : ChunkState
  dedup_chunk : ChunkState

pub data FileState : Type 0 where
  new_file : FileState
  dedup_file : FileState

pub record FingerChunk : Type 0 where
  pub chunk_hash : Bytes
  pub is_new : ChunkState
  pub chunklen : ℕ
  pub offset : ℕ
  pub chunkaddress : Bytes

-- An index of fingerprints: a `ChunkMeta` is a finger and its address.
abbrev pub Bin : Type 0
Bin = Table Bytes

-- `cmeta` for a chunk, and its insertion.
unfoldable pub insert_meta : FingerChunk → Bin → Bin
insert_meta fc bin = HashTable.insert fc.chunk_hash fc.chunkaddress bin

-- A duplicate file: the chunks were stored with another copy, only the index learns them.
unfoldable pub mark_known : List FingerChunk → Bin → Bin
unfolding insert_meta
mark_known [] bin = bin
mark_known (fc ∷ fcs) bin =
    mark_known fcs (elim (HashTable.lookup fc.chunk_hash bin) as (λ x. Bin) [
      | some address ↦ bin
      | none ↦ insert_meta fc bin
    ])

module _ (container_name : ℕ → Bytes) (read_file : ℕ → ℕ → Option Bytes) where
  -- `none` where the function returns false.
  unfoldable pub write_chunk_to_cloud : ℕ → FingerChunk → Store → Option (FingerChunk × Store)
  write_chunk_to_cloud off_set fc s = elim (read_file off_set fc.chunklen) [
    | none ↦ none
    | some content ↦
        let (address, s') = store_chunk container_name fc.chunk_hash content s in
        some (record fc { chunkaddress = address }, s')
  ]

  -- A failed write is only logged: the chunk keeps the address that it had.
  unfoldable pub write_or_log : ℕ → FingerChunk → Store → FingerChunk × Store
  unfolding write_chunk_to_cloud
  write_or_log off_set fc s = elim (write_chunk_to_cloud off_set fc s) [
    | none ↦ (fc, s)
    | some written ↦ written
  ]

  -- One chunk of a file that is not a duplicate.
  unfoldable pub mark_chunk : ℕ → FingerChunk → Bin → Store → FingerChunk × Bin × Store
  unfolding write_or_log insert_meta
  mark_chunk size fc bin s = elim (HashTable.lookup fc.chunk_hash bin) [
    | some address ↦ (record fc { is_new = dedup_chunk; chunkaddress = address }, bin, s)
    | none ↦
        let (fc', s') = write_or_log size (record fc { is_new = new_chunk }) s in
        (fc', insert_meta fc' bin, s')
  ]

  unfoldable pub mark_new : ℕ → List FingerChunk → Bin → Store → List FingerChunk × Bin × Store
  unfolding mark_chunk
  mark_new size [] bin s = ([], bin, s)
  mark_new size (fc ∷ fcs) bin s =
      let (fc', bin', s') = mark_chunk size fc bin s in
      let (fcs', bin'', s'') = mark_new (size + fc.chunklen) fcs bin' s' in (fc' ∷ fcs', bin'', s'')

  -- `mark_deplicate_chunk` without rewriting; `opened` is the result of `open`.
  unfoldable pub mark_deplicate_chunk :
      Bool → FileState → List FingerChunk → Bin → Store → Option (List FingerChunk × Bin × Store)
  unfolding mark_known mark_new
  mark_deplicate_chunk opened dedup_file fcs bin s =
      if opened then some (fcs, mark_known fcs bin, s) else none
  mark_deplicate_chunk opened new_file fcs bin s =
      if opened then some (mark_new 0 fcs bin s) else none
