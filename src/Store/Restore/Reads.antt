-- ===== src/Store/Restore/Reads.antt =====
-- What `restore_chunk` returns: the chunk of the container file, whether or not it is cached.
use tcbackup.Container.{
  Chunk, Container, init_container, read_chunk, read_container, parse_container, write_container,
  default_container_size,
}
use tcbackup.Container.Chunks.{IsContainer}
use tcbackup.Container.RoundTrip.{read_container-write_container}
use tcbackup.HashTable
use tcbackup.Store.{open_file}
use tcbackup.Store.Cache.{search_cache, OnSearch, search_cache-OnSearch}
use tcbackup.Store.Restore.{
  Restorer, IsCopy, file_size, get_container, finish_read, read_through, restore_chunk,
}
use mathlib.Core.Path.{subst}
use tcbackup.Prelude.{
  ℕ, ◌+◌, ◌≡◌, refl, ap, sym, ◌∙◌, Bool, true, false, Option, none, some, List, [], ◌∷◌, Bytes, All,
  Option-cases, inl, inr, arith, take,
}

-- A read into a fresh container does not depend on the name that the container had.
read_container-init_container :
    (name old new : Bytes) (bytes : Bytes)
    → read_container name (some bytes) (init_container old)
      ≡ read_container name (some bytes) (init_container new)
unfolding read_container parse_container init_container
read_container-init_container name old new bytes = refl

finish_read_cong :
    (chunk : Chunk) (c c' : Container)
    → ((k : Chunk) → read_chunk c' k ≡ read_chunk c k)
    → finish_read chunk c' ≡ finish_read chunk c
unfolding finish_read
finish_read_cong chunk c c' same =
    ap (λ k. elim k.content as (λ x. Option Chunk) [ none ↦ none | some x ↦ some k ]) (same chunk)

parse_container_name :
    (name bytes : Bytes) (c : Container) → (parse_container name bytes c).1.name ≡ name
unfolding parse_container
parse_container_name name bytes c = ground arith

pub read_container_name :
    (name : Bytes) (file : Option Bytes) (c : Container)
    → (read_container name file c).1.name ≡ name
unfolding read_container
read_container_name name none c = refl
read_container_name name (some bytes) c =
    parse_container_name name (take default_container_size bytes) c

IsCopy-read :
    (files : List (Bytes × Bytes)) (name old : Bytes)
    → IsCopy files (read_container name (open_file name files) (init_container old)).1
IsCopy-read files name old bytes e =
    let same = read_container_name name (open_file name files) (init_container old) in
    let there : open_file name files ≡ some bytes = ap (λ n. open_file n files) (sym same) ∙ e in
    ap (λ o. (read_container name o (init_container old)).1) there
    ∙ ap (λ x. x.1) (read_container-init_container name old [] bytes)
    ∙ ap (λ n. (read_container n (some bytes) (init_container [])).1) (sym same)

module _ (container_name : ℕ → Bytes) (cloud : Bool)
    (fetch : Bytes → List (Bytes × Bytes) → Option (List (Bytes × Bytes))) where
  read_through-IsCopy :
      (chunk : Chunk) (r : Restorer) (old : Bytes) (o : Bool × List Container)
      → OnSearch (IsCopy r.files) chunk.address (init_container old) o
      → All (IsCopy r.files) (read_through container_name cloud fetch chunk r o).1.cache
  unfolding read_through
  read_through-IsCopy chunk r old (hit, []) s = absurd s
  read_through-IsCopy chunk r old (true, p ∷ rest) s = (s.1, s.2)
  read_through-IsCopy chunk r old (false, p ∷ rest) s =
      rw (s.0) (IsCopy-read r.files chunk.address old, s.1)

  read_through_stored :
      (chunk : Chunk) (r : Restorer) (old : Bytes) (c : Container) (o : Bool × List Container)
      → IsContainer c
      → open_file chunk.address r.files ≡ some (write_container false c)
      → OnSearch (IsCopy r.files) chunk.address (init_container old) o
      → (read_through container_name cloud fetch chunk r o).0 ≡ finish_read chunk c
  unfolding read_through
  read_through_stored chunk r old c (hit, []) w e s = absurd s
  read_through_stored chunk r old c (true, p ∷ rest) w e s =
      let (c', read, _, _, _, _, same) = read_container-write_container c w p.name [] in
      let copy : p ≡ c' =
        s.1 (write_container false c) (ap (λ n. open_file n r.files) s.0 ∙ e)
        ∙ ap (λ x. x.1) read in
      ap (finish_read chunk) copy ∙ finish_read_cong chunk c c' same
  read_through_stored chunk r old c (false, p ∷ rest) w e s =
      let (c', read, _, _, _, _, same) = read_container-write_container c w chunk.address old in
      rw (s.0, e, read) (finish_read_cong chunk c c' same)

module _ (container_name : ℕ → Bytes)
    (fetch : Bytes → List (Bytes × Bytes) → Option (List (Bytes × Bytes))) where
  -- Without a cloud the files stay, and the container counts as got.
  pub get_container_local :
      (address : Bytes) (r : Restorer)
      → (r' : Restorer) × (get_container container_name false fetch address r ≡ some r')
        × (r'.files ≡ r.files)
        × (r'.cache ≡ r.cache)
  unfolding get_container
  get_container_local address r = elim (Option-cases (HashTable.lookup address r.got_containers)) [
    | inl e ↦ (
      record r {
        download_size = r.download_size + file_size (open_file address r.files);
        download_count = r.download_count + 1;
        got_containers = HashTable.insert address tt r.got_containers;
      },
      rw (e, get_container) refl,
      refl,
      refl,
    )
    | inr (x, e) ↦ (r, rw (e, get_container) refl, refl, refl)
  ]

  pub restore_chunk_got :
      (chunk : Chunk) (r r' : Restorer)
      → get_container container_name false fetch chunk.address r ≡ some r'
      → restore_chunk container_name false fetch chunk r
        ≡ read_through container_name false fetch chunk r' (
            search_cache chunk.address
              (init_container (container_name (r'.randomabc + 1)))
              r'.cache)
  unfolding restore_chunk
  restore_chunk_got chunk r r' e = rw (e, restore_chunk) refl

  searched :
      (chunk : Chunk) (r r' : Restorer)
      → r'.files ≡ r.files
      → r'.cache ≡ r.cache
      → All (IsCopy r.files) r.cache
      → OnSearch
          (IsCopy r'.files)
          chunk.address
          (init_container (container_name (r'.randomabc + 1)))
          (search_cache chunk.address (init_container (container_name (r'.randomabc + 1))) r'.cache)
  searched chunk r r' files cache copies =
      search_cache-OnSearch (IsCopy r'.files) chunk.address
        (init_container (container_name (r'.randomabc + 1))) r'.cache
        (subst (λ f. All (IsCopy f) r'.cache) (sym files)
          (subst (λ x. All (IsCopy r.files) x) (sym cache) copies))

  -- Without a cloud, and where the containers of the cache are what a read of their files gives,
  -- they are so after a call of `restore_chunk`.
  pub restore_chunk-IsCopy :
      (chunk : Chunk) (r : Restorer)
      → All (IsCopy r.files) r.cache
      → All (IsCopy r.files) (restore_chunk container_name false fetch chunk r).1.cache
  restore_chunk-IsCopy chunk r copies =
      let (r', got, files, cache) = get_container_local chunk.address r in
      let old = container_name (r'.randomabc + 1) in
      let found = search_cache chunk.address (init_container old) r'.cache in
      subst (λ x. All (IsCopy r.files) x.1.cache) (sym (restore_chunk_got chunk r r' got))
        (subst
          (λ f. All (IsCopy f) (read_through container_name false fetch chunk r' found).1.cache)
          files
          (read_through-IsCopy container_name false fetch chunk r' old found
            (searched chunk r r' files cache copies)))

  -- Without a cloud, and where the containers of the cache are what a read of their files gives, a
  -- chunk whose container file was written from a valid container reads as from that container,
  -- whether or not the container is cached.
  pub restore_chunk-finish_read :
      (chunk : Chunk) (r : Restorer) (c : Container)
      → All (IsCopy r.files) r.cache
      → IsContainer c
      → open_file chunk.address r.files ≡ some (write_container false c)
      → (restore_chunk container_name false fetch chunk r).0 ≡ finish_read chunk c
  restore_chunk-finish_read chunk r c copies w e =
      let (r', got, files, cache) = get_container_local chunk.address r in
      let old = container_name (r'.randomabc + 1) in
      ap (λ x. x.0) (restore_chunk_got chunk r r' got)
      ∙ read_through_stored container_name false fetch chunk r' old c
          (search_cache chunk.address (init_container old) r'.cache) w
          (ap (open_file chunk.address) files ∙ e) (searched chunk r r' files cache copies)
