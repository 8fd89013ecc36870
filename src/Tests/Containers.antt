-- ===== src/Tests/Containers.antt =====
-- A container with one chunk, written and restored.
use tcbackup.Container.{
  Chunk, Container, init_container, is_full, append_chunk, read_chunk, write_container,
  read_container,
}
use tcbackup.Container.Chunks.{
  IsContainer, init_container-IsContainer, append_chunk-IsContainer, read_chunk-append_chunk,
}
use tcbackup.Container.RoundTrip.{read_container-write_container}
use tcbackup.HashTable
use tcbackup.HashTable.Laws.{lookup-init}
use tcbackup.Store.{Store, open_file}
use tcbackup.Store.Restore.{Restorer, IsCopy, finish_read, restore_chunk}
use tcbackup.Store.Cache.{names, without}
use tcbackup.Store.Restore.Recent.{names-restore_chunk}
use tcbackup.Store.Restore.Reads.{restore_chunk-IsCopy, restore_chunk-finish_read}
use tcbackup.Tests.{hash_a, content_a}
use mathlib.Core.Option.{none-ne-some}
use tcbackup.Prelude.{
  ◌≡◌, refl, true, false, none, some, [], ◌∷◌, bytes_eq, length, take, All, if◌then◌else◌, arith,
  arith,
}

abbrev start : Container
start = init_container (1 ∷ [])

room : is_full start 3 ≡ false
unfolding is_full init_container HashTable.init
room = refl

absent_a : HashTable.lookup hash_a start.meta_table ≡ none
unfolding init_container
absent_a = lookup-init _ 20 512 hash_a

abbrev filled : Container
filled = (append_chunk start hash_a content_a).1

filled-IsContainer : IsContainer filled
filled-IsContainer =
    (append_chunk-IsContainer start hash_a content_a (init_container-IsContainer (1 ∷ [])) refl
      (omega arith) absent_a room).1

abbrev chunk_a : Chunk
chunk_a = record { length = 0; hash = hash_a; address = 1 ∷ []; content = none }

read_chunk-append_chunk_example : read_chunk (append_chunk start hash_a content_a).1 chunk_a ≡ (
    if bytes_eq hash_a hash_a
    then record chunk_a { length = 3; content = some content_a }
    else read_chunk start chunk_a)
read_chunk-append_chunk_example =
    read_chunk-append_chunk start hash_a content_a (init_container-IsContainer (1 ∷ [])) refl
      (omega arith) absent_a room chunk_a

read_container-write_container_example :
    (c' : Container) × (read_container
        (2 ∷ [])
        (some (write_container false filled))
        (init_container [])
      ≡ (true, c'))
    × (c'.name ≡ 2 ∷ [])
    × (c'.chunk_num ≡ filled.chunk_num)
    × (c'.data_size ≡ filled.data_size)
    × (c'.data_buffer ≡ filled.data_buffer)
    × ((chunk : Chunk) → read_chunk c' chunk ≡ read_chunk filled chunk)
read_container-write_container_example =
    read_container-write_container filled filled-IsContainer (2 ∷ []) []

abbrev restorer : Restorer
restorer = record {
  got_containers = HashTable.init (Unit {0}) 64 4;
  cache = init_container (5 ∷ []) ∷ [];
  files = (1 ∷ [], write_container false filled) ∷ [];
  download_size = 0;
  download_count = 0;
  randomabc = 1;
}

cache_copies : All (IsCopy restorer.files) restorer.cache
unfolding open_file bytes_eq init_container
cache_copies = (λ bytes e. absurd (none-ne-some _ e), tt)

restore_chunk-IsCopy_example :
    All
      (IsCopy restorer.files)
      (restore_chunk (λ n. n ∷ []) false (λ a f. none) chunk_a restorer).1.cache
restore_chunk-IsCopy_example =
    restore_chunk-IsCopy (λ n. n ∷ []) (λ a f. none) chunk_a restorer cache_copies

written_file : open_file (1 ∷ []) restorer.files ≡ some (write_container false filled)
unfolding open_file bytes_eq
written_file = refl

restore_chunk-finish_read_example :
    (restore_chunk (λ n. n ∷ []) false (λ a f. none) chunk_a restorer).0
    ≡ finish_read chunk_a filled
restore_chunk-finish_read_example =
    restore_chunk-finish_read (λ n. n ∷ []) (λ a f. none) chunk_a restorer filled cache_copies
      filled-IsContainer written_file

abbrev opened : Store
opened = record { container = start; files = []; randomabc = 2 }

-- A chunk of a container that is in the place after the first.
abbrev two_cached : Restorer
two_cached = record restorer { cache = init_container (3 ∷ []) ∷ init_container (4 ∷ []) ∷ [] }

names-restore_chunk_example :
    let cache = (restore_chunk (λ n. n ∷ []) false (λ a f. none) chunk_a two_cached).1.cache in
    (names cache
      ≡ take
          (length two_cached.cache)
          (chunk_a.address ∷ without chunk_a.address (names two_cached.cache)))
    × (length cache ≡ length two_cached.cache)
names-restore_chunk_example =
    names-restore_chunk (λ n. n ∷ []) (λ a f. none) chunk_a two_cached (init_container (3 ∷ []))
      (init_container (4 ∷ []) ∷ []) refl
