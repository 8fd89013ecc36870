-- ===== src/Store/Restore.antt =====
-- client/src/store.c, `restore_init` and `restore_chunk`: a chunk is read from its container,
-- which is fetched once and then kept in the restore cache. The fetch from the cloud is a
-- parameter: the local files after it, or `none` where it fails.
pub mod Reads
pub mod Recent
use tcbackup.Container.{
  Chunk, Container, init_container, read_chunk, read_container, write_container,
}
use tcbackup.Container.Chunks.{IsContainer}
use tcbackup.Container.RoundTrip.{read_container-write_container}
use tcbackup.HashTable
use tcbackup.HashTable.{Table}
use tcbackup.Store.{open_file}
use tcbackup.Store.Cache.{init_cache, search_cache, OnSearch, search_cache-OnSearch}
use tcbackup.Prelude.{
  ℕ, zero, suc, ◌+◌, ◌≡◌, refl, ap, sym, ◌∙◌, Bool, true, false, Option, none, some, List, [], ◌∷◌,
  Bytes, All, length, if◌then◌else◌,
}

pub record Restorer : Type 0 where
  pub got_containers : Table (Unit {0})
  pub cache : List Container
  pub files : List (Bytes × Bytes)
  pub download_size : ℕ
  pub download_count : ℕ
  pub randomabc : ℕ

-- `st_size` after `stat`; of a file that is missing, where the source adds what the buffer held, it is 0.
unfoldable pub file_size : Option Bytes → ℕ
file_size none = 0
file_size (some bytes) = length bytes

-- The read of the chunk. The result is `none` where `restore_chunk` fails.
unfoldable pub finish_read : Chunk → Container → Option Chunk
finish_read chunk c = elim (read_chunk c chunk).content [
  | none ↦ none
  | some _ ↦ some (read_chunk c chunk)
]

-- A cached container is what a read of its file gives, where it has one.
abbrev pub IsCopy : List (Bytes × Bytes) → Container → Type 0
IsCopy files p =
    (bytes : Bytes)
    → open_file p.name files ≡ some bytes
    → p ≡ (read_container p.name (some bytes) (init_container [])).1

module _ (container_name : ℕ → Bytes) (cloud : Bool)
    (fetch : Bytes → List (Bytes × Bytes) → Option (List (Bytes × Bytes))) where
  unfoldable pub restore_init : ℕ → ℕ → List (Bytes × Bytes) → Restorer
  unfolding init_cache
  restore_init restore_cache_size counter files = record {
    got_containers = HashTable.init (Unit {0}) 64 3200;
    cache = init_cache container_name counter restore_cache_size;
    files = files;
    download_size = 0;
    download_count = 0;
    randomabc = counter + restore_cache_size;
  }

  -- The first use of a container: it is downloaded, or its size is counted.
  unfoldable pub get_container : Bytes → Restorer → Option Restorer
  unfolding file_size
  get_container address r = elim (HashTable.lookup address r.got_containers) [
    | some _ ↦ some r
    | none ↦ elim cloud [
      | true ↦ elim (fetch address r.files) [
        | none ↦ none
        | some files ↦ some (record r {
          files = files;
          got_containers = HashTable.insert address tt r.got_containers;
        })
      ]
      | false ↦ some (record r {
        download_size = r.download_size + file_size (open_file address r.files);
        download_count = r.download_count + 1;
        got_containers = HashTable.insert address tt r.got_containers;
      })
    ]
  ]

  -- The rest of `restore_chunk`: the search, and the read of a container that is not cached.
  unfoldable pub read_through : Chunk → Restorer → Bool × List Container → Option Chunk × Restorer
  unfolding finish_read
  read_through chunk r (hit, []) = (none, r)
  read_through chunk r (true, p ∷ rest) = (finish_read chunk p, record r { cache = p ∷ rest })
  read_through chunk r (false, p ∷ rest) =
      let (done, p') = read_container chunk.address (open_file chunk.address r.files) p in
      (
        (if done then finish_read chunk p' else none),
        record r { cache = p' ∷ rest; randomabc = r.randomabc + 1 },
      )

  unfoldable pub restore_chunk : Chunk → Restorer → Option Chunk × Restorer
  unfolding get_container read_through
  restore_chunk chunk r = elim (get_container chunk.address r) [
    | none ↦ (none, r)
    | some r' ↦
        read_through chunk r'
          (search_cache chunk.address (init_container (container_name (r'.randomabc + 1))) r'.cache)
  ]
