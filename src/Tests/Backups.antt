-- ===== src/Tests/Backups.antt =====
-- A file of three bytes, cut, backed up and restored.
use tcbackup.Prelude.{
  ℕ, ◌*◌, ◌≤◌, ◌≡◌, refl, ap, true, false, Option, none, some, List, [], ◌∷◌, ◌++◌, Bytes, length,
  take, drop, replicate, get_or, All, arith,
}
use tcbackup.Backup.{chunk_dedup, restore_chunks}
use tcbackup.Backup.Marked.{IsBacked, store_init-IsBacked}
use tcbackup.Backup.Restored.{store_destroy_unused}
use tcbackup.Backup.RoundTrip.{IsNamed, chunk_dedup-IsBacked, restore_chunks-chunk_dedup}
use tcbackup.Backup.Located.{IsReady}
use tcbackup.Backup.Storing.{IsStoring, store_chunk-IsStoring}
use tcbackup.HashTable.Laws.{lookup-init}
use tcbackup.Tests.{hash_a}
use tcbackup.Chunking.{Tables, Window, chunk_file, cut_block, max_chunk_size}
use tcbackup.Chunking.Pieces.{IsSplit, chunk_file-IsSplit}
use tcbackup.Chunking.Bounds.{IsBounded, chunk_file-IsBounded, cut_block-room}
use tcbackup.Container.{Chunk}
use tcbackup.Dedup.{new_file, FingerChunk, Bin}
use tcbackup.HashTable
use tcbackup.Store.{store_chunk, Store, store_init, store_destroy}
use tcbackup.Store.Restore.{restore_init}

abbrev container_name : ℕ → Bytes
container_name n = n ∷ []

container_name-injective : (i j : ℕ) → container_name i ≡ container_name j → i ≡ j
container_name-injective i j e = ap (λ b. get_or b 0 0) e

abbrev file : Bytes
file = 1 ∷ 2 ∷ 3 ∷ []

abbrev tables : Tables
tables = record { t_table = []; u_table = []; shift = 45 }

abbrev window : Window
window = record { fingerprint = 0; next_pos = 0; buf = [] }

abbrev sha1 : Bytes → Bytes
sha1 content = replicate 20 7

abbrev content_of : Bytes → Bytes
content_of q = file

abbrev read_file : ℕ → ℕ → Option Bytes
read_file off len = some (take len (drop off file))

named : All (IsNamed content_of file) (chunk_file tables sha1 file window)
unfolding chunk_file
named = (refl, tt)

abbrev bin : Bin
bin = HashTable.init Bytes 20 4

abbrev store : Store
store = store_init container_name

chunk_file-IsSplit_example : IsSplit sha1 file 0 (chunk_file tables sha1 file window)
chunk_file-IsSplit_example = chunk_file-IsSplit sha1 tables file window

chunk_file-IsBounded_example : IsBounded (chunk_file tables sha1 file window)
chunk_file-IsBounded_example = chunk_file-IsBounded tables sha1 file window

cut_block-room_example :
    length ((cut_block tables sha1 3 file 0 window).1 ++ take max_chunk_size file)
    ≤ max_chunk_size * 2
cut_block-room_example = cut_block-room tables sha1 file file 0 window

chunk_dedup-IsBacked_example :
    (r : List FingerChunk × Bin × Store) × (chunk_dedup tables sha1 container_name read_file true
        new_file file window bin store
      ≡ some r)
    × IsBacked container_name content_of r.1 r.2
chunk_dedup-IsBacked_example =
    chunk_dedup-IsBacked container_name container_name-injective tables sha1 (λ c. refl) content_of
      file window named read_file (λ off len h. refl) bin store
      (store_init-IsBacked container_name content_of 4)

done :
    (r : List FingerChunk × Bin × Store) × (chunk_dedup tables sha1 container_name read_file true
        new_file file window bin store
      ≡ some r)
    × IsBacked container_name content_of r.1 r.2
done =
    chunk_dedup-IsBacked container_name container_name-injective tables sha1 (λ c. refl) content_of
      file window named read_file (λ off len h. refl) bin store
      (store_init-IsBacked container_name content_of 4)

abbrev chunk : Chunk
chunk = record { length = 0; hash = []; address = []; content = none }

restore_chunks-chunk_dedup_example :
    (restore_chunks container_name false
      (λ address files. none)
      done.0.0
      chunk
      (restore_init container_name false
        (λ address files. none)
        2
        done.0.2.randomabc
        (store_destroy container_name done.0.2).files)).0
    ≡ some file
restore_chunks-chunk_dedup_example =
    restore_chunks-chunk_dedup container_name container_name-injective tables sha1 (λ c. refl)
      content_of file window named read_file (λ off len h. refl) bin store
      (store_init-IsBacked container_name content_of 4) (λ address files. none) done.0.1 done.0.2
      chunk 2 done.0.2.randomabc done.2
      (λ j later.
        store_destroy_unused container_name container_name-injective done.0.2 j done.2.ready later)
      done.0 done.1 (λ q address found. found)

ready : IsReady container_name store
ready = (store_init-IsBacked container_name content_of 4).ready

fresh : HashTable.lookup hash_a store.container.meta_table ≡ none
fresh =
    (store_init-IsBacked container_name content_of 4).unknown hash_a (lookup-init Bytes 20 4 hash_a)

store_chunk-IsStoring_example :
    IsStoring container_name hash_a file store (store_chunk container_name hash_a file store)
store_chunk-IsStoring_example =
    store_chunk-IsStoring container_name container_name-injective hash_a file store ready refl
      (omega arith) fresh
