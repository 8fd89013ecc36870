-- ===== src/Backup/RoundTrip.antt =====
-- client/src/chunkdedup.c, `chunk_dedup`, then client/src/restore.c, the loop of `construct_file`: a
-- file that was backed up is restored.
use tcbackup.Prelude.{
  ℕ, ◌+◌, ◌≤◌, ◌<◌, ◌≡◌, refl, sym, ap, ap₂, ◌∙◌, true, false, Option, none, some, List, [], ◌∷◌,
  ◌++◌, arith, Bytes, length, take, drop, length-take, length-drop, take-append-drop, drop-drop,
  All,
}
use tcbackup.Backup.{chunk_dedup, restore_chunks}
use tcbackup.Backup.Marked.{IsBacked, IsReadable, AreReadable, mark_new-IsBacked}
use tcbackup.Backup.Restored.{
  contents, IsSaved, restore_chunks-contents, store_destroy-InFile, init_cache-IsCopy,
}
use tcbackup.Chunking.{Tables, Window, chunk_file, max_chunk_size}
use tcbackup.Chunking.Pieces.{IsSplit, chunk_file-IsSplit}
use tcbackup.Chunking.Bounds.{IsBounded, chunk_file-IsBounded}
use tcbackup.Container.{Chunk, finger_length}
use mathlib.Core.Option.{some-injective}
use mathlib.Core.Path.{subst}
use tcbackup.Dedup.{new_file, FingerChunk, Bin, mark_new, mark_chunk, mark_deplicate_chunk}
use tcbackup.Dedup.Index.{mark_new-address, mark_chunk_hash}
use tcbackup.HashTable
use tcbackup.Store.{Store, open_file, store_destroy}
use tcbackup.Store.Restore.{restore_init}

IsBounded-All :
    (fcs : List FingerChunk) → IsBounded fcs → All (λ fc. fc.chunklen ≤ max_chunk_size) fcs
unfolding IsBounded
IsBounded-All [] h = tt
IsBounded-All (fc ∷ []) h = (h, tt)
IsBounded-All (fc ∷ fc' ∷ fcs) (least, most, h) = (most, IsBounded-All (fc' ∷ fcs) h)

-- The fingerprint names this chunk of the file and no other content.
abbrev pub IsNamed : (Bytes → Bytes) → Bytes → FingerChunk → Type 0
IsNamed content_of file fc = content_of fc.chunk_hash ≡ take fc.chunklen (drop fc.offset file)

module _ (sha1 content_of : Bytes → Bytes) (file : Bytes) where
  -- The pieces of a file put together again are the file.
  contents-IsSplit :
      (content : Bytes) (start : ℕ) (fcs : List FingerChunk)
      → IsSplit sha1 content start fcs
      → content ≡ drop start file
      → All (IsNamed content_of file) fcs
      → contents content_of fcs ≡ content
  unfolding IsSplit contents
  contents-IsSplit content start [] h same named = sym h
  contents-IsSplit content start (fc ∷ fcs) (here, hash, pos, fits, h) same (own, named) =
      let piece : content_of fc.chunk_hash ≡ take fc.chunklen content =
        own ∙ ap (take fc.chunklen) (ap (λ i. drop i file) here ∙ sym same) in
      let rest : drop fc.chunklen content ≡ drop (start + fc.chunklen) file =
        ap (drop fc.chunklen) same ∙ drop-drop start fc.chunklen file in
      ap₂ ◌++◌ piece
        (contents-IsSplit (drop fc.chunklen content) (start + fc.chunklen) fcs h rest named)
      ∙ take-append-drop fc.chunklen content

  module _ (read_file : ℕ → ℕ → Option Bytes)
      (reads : (off len : ℕ)
        → off + len ≤ length file
        → read_file off len ≡ some (take len (drop off file)))
      (whole : (content : Bytes) → length (sha1 content) ≡ finger_length) where
    AreReadable-IsSplit :
        (content : Bytes) (start : ℕ) (fcs : List FingerChunk)
        → IsSplit sha1 content start fcs
        → content ≡ drop start file
        → start + length content ≤ length file
        → All (λ fc. fc.chunklen ≤ max_chunk_size) fcs
        → All (IsNamed content_of file) fcs
        → AreReadable read_file content_of start fcs
    unfolding IsSplit AreReadable IsReadable
    AreReadable-IsSplit content start [] h same inside small named = tt
    AreReadable-IsSplit content start (fc ∷ fcs) (here, hash, pos, fits, h) same inside
          (most, small) (own, named) =
        let piece : content_of fc.chunk_hash ≡ take fc.chunklen (drop start file) =
          own ∙ ap (λ i. take fc.chunklen (drop i file)) here in
        let rest : drop fc.chunklen content ≡ drop (start + fc.chunklen) file =
          ap (drop fc.chunklen) same ∙ drop-drop start fc.chunklen file in
        (
          (
            ap length hash ∙ whole (take fc.chunklen content),
            omega (arith, most),
            ap length (piece ∙ ap (take fc.chunklen) (sym same))
                ∙ length-take fc.chunklen content fits,
            reads start fc.chunklen (omega (arith, inside, fits)) ∙ ap some (sym piece),
          ),
          AreReadable-IsSplit (drop fc.chunklen content) (start + fc.chunklen) fcs h rest
              (omega (arith, inside, fits, length-drop fc.chunklen content)) small named,
        )

module _ (container_name : ℕ → Bytes) (read_file : ℕ → ℕ → Option Bytes)
    (content_of : Bytes → Bytes) where
  -- Marking changes no fingerprint.
  contents-mark_new :
      (size : ℕ) (fcs : List FingerChunk) (bin : Bin) (s : Store)
      → contents content_of (mark_new container_name read_file size fcs bin s).0
        ≡ contents content_of fcs
  unfolding mark_new contents
  contents-mark_new size [] bin s = refl
  contents-mark_new size (fc ∷ fcs) bin s =
      let (fc', bin', s') = mark_chunk container_name read_file size fc bin s in
      ap₂ (λ h c. content_of h ++ c) (mark_chunk_hash container_name read_file size fc bin s)
        (contents-mark_new (size + fc.chunklen) fcs bin' s')

module _ (container_name : ℕ → Bytes)
    (injective : (i j : ℕ) → container_name i ≡ container_name j → i ≡ j) (tables : Tables)
    (sha1 : Bytes → Bytes) (whole : (content : Bytes) → length (sha1 content) ≡ finger_length)
    (content_of : Bytes → Bytes) (file : Bytes) (w : Window)
    (named : All (IsNamed content_of file) (chunk_file tables sha1 file w))
    (read_file : ℕ → ℕ → Option Bytes)
    (reads : (off len : ℕ)
      → off + len ≤ length file
      → read_file off len ≡ some (take len (drop off file)))
    (bin : Bin) (s : Store) (backed : IsBacked container_name content_of bin s) where
  abbrev marked : List FingerChunk × Bin × Store
  marked = mark_new container_name read_file 0 (chunk_file tables sha1 file w) bin s

  readable : AreReadable read_file content_of 0 (chunk_file tables sha1 file w)
  readable =
      AreReadable-IsSplit sha1 content_of file read_file reads whole file 0
        (chunk_file tables sha1 file w) (chunk_file-IsSplit sha1 tables file w) refl (omega arith)
        (IsBounded-All (chunk_file tables sha1 file w) (chunk_file-IsBounded tables sha1 file w))
        named

  -- A new file whose reads succeed is backed up without a failure, and in the state after it every
  -- fingerprint that the bin knows leads to a container, open or in a file, that holds its
  -- content. Before it the same holds, the names of containers differ, fingerprints have 20 bytes,
  -- and a fingerprint of the file names its chunk only.
  pub chunk_dedup-IsBacked :
      (r : List FingerChunk × Bin × Store) × (chunk_dedup tables sha1 container_name read_file true
          new_file file w bin s
        ≡ some r)
      × IsBacked container_name content_of r.1 r.2
  unfolding chunk_dedup mark_deplicate_chunk
  chunk_dedup-IsBacked = (
    marked,
    refl,
    mark_new-IsBacked container_name injective content_of read_file 0
        (chunk_file tables sha1 file w) bin s backed readable,
  )

  -- The chunks of the file, in the files that a later state leaves.
  all-IsSaved :
      (bin' : Bin) (s' : Store) (fcs : List FingerChunk)
      → IsBacked container_name content_of bin' s'
      → ((q address : Bytes)
          → HashTable.lookup q marked.1 ≡ some address
          → HashTable.lookup q bin' ≡ some address)
      → All (λ fc. HashTable.lookup fc.chunk_hash marked.1 ≡ some fc.chunkaddress) fcs
      → All (IsSaved (store_destroy container_name s').files content_of) fcs
  all-IsSaved bin' s' [] later kept h = tt
  all-IsSaved bin' s' (fc ∷ fcs) later kept (own, h) = (
    store_destroy-InFile container_name injective s' fc.chunkaddress fc.chunk_hash
        (content_of fc.chunk_hash) later.ready
        (later.located fc.chunk_hash fc.chunkaddress (kept fc.chunk_hash fc.chunkaddress own)),
    all-IsSaved bin' s' fcs later kept h,
  )

  module _ (fetch : Bytes → List (Bytes × Bytes) → Option (List (Bytes × Bytes))) (bin' : Bin)
      (s' : Store) (chunk : Chunk) (restore_cache_size counter : ℕ)
      (later : IsBacked container_name content_of bin' s')
      (unused : (j : ℕ)
        → counter < j
        → open_file (container_name j) (store_destroy container_name s').files ≡ none) where
    abbrev restored : List FingerChunk → Option Bytes
    restored fcs =
        (restore_chunks container_name false fetch fcs chunk (
          restore_init container_name false fetch restore_cache_size counter
            (store_destroy container_name s').files)).0

    restored_marked :
        ((q address : Bytes)
          → HashTable.lookup q marked.1 ≡ some address
          → HashTable.lookup q bin' ≡ some address)
        → restored marked.0 ≡ some file
    unfolding restore_init
    restored_marked kept =
        restore_chunks-contents container_name fetch content_of
          (store_destroy container_name s').files marked.0 chunk _
          (all-IsSaved bin' s' marked.0 later kept (
            mark_new-address container_name read_file 0 (chunk_file tables sha1 file w) bin s
              backed.map))
          refl
          (init_cache-IsCopy container_name (store_destroy container_name s').files counter
            restore_cache_size unused)
        ∙ ap some (
            contents-mark_new container_name read_file content_of 0 (chunk_file tables sha1 file w)
              bin s
            ∙ contents-IsSplit sha1 content_of file file 0 (chunk_file tables sha1 file w)
                (chunk_file-IsSplit sha1 tables file w) refl named)

    -- Without a cloud, a new file that chunk_dedup backed up, from a state in which the containers
    -- hold what the bin knows, is restored byte for byte from the container files that
    -- store_destory leaves, by a fresh restore cache, at once or after later backups that keep the
    -- bin's addresses. The names of containers differ, those after the counter are unused, reads
    -- of the file succeed, fingerprints have 20 bytes, and a fingerprint of the file names its
    -- chunk only.
    pub restore_chunks-chunk_dedup :
        (r : List FingerChunk × Bin × Store)
        → chunk_dedup tables sha1 container_name read_file true new_file file w bin s ≡ some r
        → ((q address : Bytes)
            → HashTable.lookup q r.1 ≡ some address
            → HashTable.lookup q bin' ≡ some address)
        → (restore_chunks container_name false fetch r.0 chunk (
            restore_init container_name false fetch restore_cache_size counter
              (store_destroy container_name s').files)).0
          ≡ some file
    unfolding chunk_dedup mark_deplicate_chunk
    restore_chunks-chunk_dedup r done kept =
        let same : marked ≡ r = some-injective _ _ done in
        subst (λ x. restored x.0 ≡ some file) same
          (restored_marked (λ q address found.
            kept q address (ap (λ x. HashTable.lookup q x.1) (sym same) ∙ found)))
