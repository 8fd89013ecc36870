-- ===== src/Dedup/Cfl.antt =====
-- client/src/cfl.c: duplicates are rewritten where the chunk fragmentation level of the backup is too low.
-- A duplicate then waits with others of its container; when another container comes, the waiting chunks are
-- stored again if they use little of it.
-- The floats are parameters: `level_of` computes the level (CFL) from the length of the data and the number
-- of containers, `below_lwm` is `CFL < LWM`, and `is_little` says that a length is too small a part of a
-- container. `read_file path offset len` reads a file that is opened by its path. A chunk is released when
-- its mutex is unlocked or it is done at once; `released` lists these chunks. The one bin that all files
-- share is passed along, in place of `LoadBin`. `chunknum` is `none` for STREAM_END, and else at most the
-- number of chunks: the source follows the links of the list without a test.
pub mod Counted
pub mod Rewritten
pub mod Kept
use tcbackup.HashTable
use tcbackup.HashTable.{Table}
use tcbackup.Store.{Store}
use tcbackup.Binning.{chunk_address_length}
use tcbackup.Dedup.{
  ChunkState, new_chunk, dedup_chunk, FingerChunk, Bin, insert_meta, write_chunk_to_cloud,
}
use tcbackup.Prelude.{
  ℕ, ◌+◌, Bool, true, false, ◌&&◌, not, Option, none, some, List, [], ◌∷◌, ◌++◌, map, Bytes,
  bytes_eq, if◌then◌else◌, take,
}

-- A chunk and the path of its file.
abbrev pub ChunkNode : Type 0
ChunkNode = FingerChunk × Bytes

pub record Cfl (F : Type 0) : Type 0 where
  pub rdc : Table Bytes
  pub total_container_num : ℕ
  pub dataset_size : ℕ
  pub cfl : F
  pub address : Bytes
  pub chunks : List ChunkNode
  pub length : ℕ
  pub released : List FingerChunk

abbrev pub is_empty : List ChunkNode → Bool
is_empty [] = true
is_empty (cn ∷ cns) = false

module _ {F : Type 0} where
  -- `tmp_container` is allocated and not cleared: its address and its length are what was there.
  unfoldable pub cfl_init : F → Bytes → ℕ → Cfl F
  cfl_init one address length = record {
    rdc = HashTable.init Bytes chunk_address_length 3200;
    total_container_num = 0;
    dataset_size = 0;
    cfl = one;
    address = address;
    chunks = [];
    length = length;
    released = [];
  }

  -- A container that the backup has not used before is counted.
  unfoldable pub learn_container : Bytes → Cfl F → Cfl F
  learn_container container_id c = elim (HashTable.lookup container_id c.rdc) as (λ x. Cfl F) [
    | some known ↦ c
    | none ↦ record c {
      rdc = HashTable.insert container_id container_id c.rdc;
      total_container_num = c.total_container_num + 1;
    }
  ]

  unfoldable pub release : FingerChunk → Cfl F → Cfl F
  release fc c = record c { released = c.released ++ fc ∷ [] }

  -- The loop that unlocks the waiting chunks.
  unfoldable pub release_chunks : List ChunkNode → Cfl F → Cfl F
  unfolding release
  release_chunks [] c = record c { chunks = [] }
  release_chunks ((fc, path) ∷ cns) c = release_chunks cns (release fc c)

  unfoldable pub wait : Bytes → FingerChunk → Cfl F → Cfl F
  wait path fc c = record c {
    address = fc.chunkaddress;
    chunks = c.chunks ++ (fc, path) ∷ [];
    length = c.length + fc.chunklen;
  }

module _ {F : Type 0} (container_name : ℕ → Bytes) (read_file : Bytes → ℕ → ℕ → Option Bytes)
    (level_of : ℕ → ℕ → F) (below_lwm : F → Bool) (is_little : ℕ → Bool) where
  -- The loop that stores the waiting chunks again. At the end of the stream it counts no containers.
  unfoldable pub rewrite_chunks :
      Bool → List ChunkNode → Cfl F → Bin → Store → Option (Cfl F × Bin × Store)
  unfolding write_chunk_to_cloud release learn_container
  rewrite_chunks counting [] c bin s = some (record c { chunks = [] }, bin, s)
  rewrite_chunks counting ((fc, path) ∷ cns) c bin s =
      elim (write_chunk_to_cloud container_name (read_file path) fc.offset fc s) [
        | none ↦ none
        | some (fc', s') ↦ elim (HashTable.lookup fc.chunk_hash bin) [
          | none ↦ none
          | some address ↦
              let c' = release (record fc' { is_new = new_chunk }) c in
              rewrite_chunks counting cns
                (if counting then learn_container fc'.chunkaddress c' else c')
                (HashTable.modify fc.chunk_hash (λ a. fc'.chunkaddress) bin) s'
        ]
      ]

  -- The waiting chunks are done: stored again, or left in their container.
  unfoldable pub process_tmp : Cfl F → Bin → Store → Option (Cfl F × Bin × Store)
  unfolding rewrite_chunks release_chunks learn_container
  process_tmp c bin s =
      if is_little c.length
      then elim (rewrite_chunks true c.chunks c bin s) [
        | none ↦ none
        | some (c', bin', s') ↦ some (record c' { length = 0 }, bin', s')
      ]
      else some
          (record (release_chunks c.chunks (learn_container c.address c)) { length = 0 }, bin, s)

  unfoldable pub selective_dedup :
      Bytes → FingerChunk → Cfl F → Bin → Store → Option (Cfl F × Bin × Store)
  unfolding process_tmp wait
  selective_dedup path fc c bin s =
      elim (if not (is_empty c.chunks) && not (bytes_eq fc.chunkaddress c.address)
        then process_tmp c bin s
        else some (c, bin, s)) [
          | none ↦ none
          | some (c', bin', s') ↦ some (wait path fc c', bin', s')
        ]

  unfoldable pub typical_dedup :
      Bytes → FingerChunk → Cfl F → Bin → Store → Option (Cfl F × Bin × Store)
  unfolding learn_container release insert_meta write_chunk_to_cloud
  typical_dedup path fc c bin s = elim fc.is_new [
    | dedup_chunk ↦ some (learn_container fc.chunkaddress (release fc c), bin, s)
    | new_chunk ↦ elim (write_chunk_to_cloud container_name (read_file path) fc.offset fc s) [
      | none ↦ none
      | some (fc', s') ↦
          some (learn_container fc'.chunkaddress (release fc' c), insert_meta fc' bin, s')
    ]
  ]

  -- A chunk before the level is computed again.
  unfoldable pub dedup_chunk_of :
      Bytes → FingerChunk → Cfl F → Bin → Store → Option (Cfl F × Bin × Store)
  unfolding selective_dedup typical_dedup
  dedup_chunk_of path fc c bin s = elim (HashTable.lookup fc.chunk_hash bin) [
    | none ↦ typical_dedup path (record fc { is_new = new_chunk }) c bin s
    | some address ↦
        let fc' = record fc { is_new = dedup_chunk; chunkaddress = address } in
        if below_lwm c.cfl then selective_dedup path fc' c bin s else typical_dedup path fc' c bin s
  ]

  abbrev pub grown : FingerChunk → Cfl F → Cfl F
  grown fc c = record c { dataset_size = c.dataset_size + fc.chunklen }

  abbrev pub levelled : Cfl F → Cfl F
  levelled c = record c { cfl = level_of c.dataset_size c.total_container_num }

  -- The loop over the chunks of a file.
  unfoldable pub cfl_chunks :
      Bytes → List FingerChunk → Cfl F → Bin → Store → Option (Cfl F × Bin × Store)
  unfolding dedup_chunk_of
  cfl_chunks path [] c bin s = some (c, bin, s)
  cfl_chunks path (fc ∷ fcs) c bin s = elim (dedup_chunk_of path fc (grown fc c) bin s) [
    | none ↦ none
    | some (c', bin', s') ↦ cfl_chunks path fcs (levelled c') bin' s'
  ]

  -- The end of the stream.
  unfoldable pub cfl_end : Cfl F → Bin → Store → Option (Cfl F × Bin × Store)
  unfolding rewrite_chunks release_chunks
  cfl_end c bin s =
      if is_empty c.chunks
      then some (c, bin, s)
      else if is_little c.length
      then rewrite_chunks false c.chunks c bin s
      else some (release_chunks c.chunks c, bin, s)

  unfoldable pub cfl_process :
      Bytes → Option ℕ → List FingerChunk → Cfl F → Bin → Store → Option (Cfl F × Bin × Store)
  unfolding cfl_chunks cfl_end
  cfl_process path none fcs c bin s = cfl_end c bin s
  cfl_process path (some chunknum) fcs c bin s = cfl_chunks path (take chunknum fcs) c bin s
