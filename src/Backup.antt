-- ===== src/Backup.antt =====
-- A backup and the restore of it: client/src/chunkdedup.c, `chunk_dedup`, and client/src/restore.c,
-- the loop of `construct_file` over the chunks of a file.
-- The bin is given: `calculate_rep_finger` sets every finger to zeros. The files that are restored are
-- lists of bytes, and the writes to them succeed.
pub mod Located
pub mod Storing
pub mod Marked
pub mod Restored
pub mod RoundTrip
use tcbackup.Chunking.{Tables, Window, chunk_file}
use tcbackup.Container.{Chunk}
use tcbackup.Dedup.{FileState, FingerChunk, Bin, mark_deplicate_chunk}
use tcbackup.Store.{Store}
use tcbackup.Store.Restore.{Restorer, restore_chunk}
use tcbackup.Prelude.{ℕ, Bool, Option, none, some, List, [], ◌∷◌, ◌++◌, Bytes, take}

-- `chunk_dedup` of a file that can be opened: `none` where marking fails.
unfoldable pub chunk_dedup :
    Tables
    → (Bytes → Bytes)
    → (ℕ → Bytes)
    → (ℕ → ℕ → Option Bytes)
    → Bool
    → FileState
    → Bytes
    → Window
    → Bin
    → Store
    → Option (List FingerChunk × Bin × Store)
chunk_dedup tables sha1 container_name read_file opened state file w bin s =
    mark_deplicate_chunk container_name read_file opened state (chunk_file tables sha1 file w) bin s

-- The bytes of a chunk that was read, as `write` takes them.
unfoldable pub written : Chunk → Bytes
written chunk = elim chunk.content [ none ↦ [] | some content ↦ take chunk.length content ]

module _ (container_name : ℕ → Bytes) (cloud : Bool)
    (fetch : Bytes → List (Bytes × Bytes) → Option (List (Bytes × Bytes))) where
  -- The chunks of a file, one after the other, into the same `Chunk`; what is written is `none`
  -- where a chunk cannot be restored.
  unfoldable pub restore_chunks : List FingerChunk → Chunk → Restorer → Option Bytes × Restorer
  unfolding written
  restore_chunks [] chunk r = (some [], r)
  restore_chunks (p ∷ rest) chunk r =
      let asked = record chunk { address = p.chunkaddress; hash = p.chunk_hash } in
      let (got, r') = restore_chunk container_name cloud fetch asked r in
      elim got [
        | none ↦ (none, r')
        | some chunk' ↦
            let (more, r'') = restore_chunks rest chunk' r' in
            (elim more [ none ↦ none | some bytes ↦ some (written chunk' ++ bytes) ], r'')
      ]
