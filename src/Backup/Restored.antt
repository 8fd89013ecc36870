-- ===== src/Backup/Restored.antt =====
-- client/src/restore.c, the loop of `construct_file`: chunks in the files of their containers are
-- written out one after the other.
use tcbackup.Prelude.{
  ℕ, zero, suc, ◌+◌, ◌<◌, ◌≡◌, refl, sym, ap, ◌∙◌, inl, inr, Bool, true, false, Option, none, some,
  List, [], ◌∷◌, ◌++◌, arith, Bytes, length, take_all, ltb, ltb-false, Bool-cases, All,
}
use tcbackup.Backup.{written, restore_chunks}
use tcbackup.Backup.Located.{Reads, InFile, IsOpen, IsLocated, IsReady, flush-InFile, flush-IsReady}
use tcbackup.Container.{Chunk, Container, init_container}
use tcbackup.Dedup.{FingerChunk}
use mathlib.Core.Option.{none-ne-some}
use mathlib.Core.Path.{subst}
use tcbackup.Store.{Store, open_file, new_container, store_destroy}
use tcbackup.Store.Cache.{init_cache}
use tcbackup.Store.Restore.{Restorer, IsCopy, finish_read, read_through, restore_chunk}
use tcbackup.Store.Restore.Reads.{
  restore_chunk-finish_read, restore_chunk-IsCopy, get_container_local, restore_chunk_got,
}

-- What the chunks of a list name, one after the other.
unfoldable pub contents : (Bytes → Bytes) → List FingerChunk → Bytes
contents content_of [] = []
contents content_of (fc ∷ fcs) = content_of fc.chunk_hash ++ contents content_of fcs

-- The chunk is in the file of the container that it names.
abbrev pub IsSaved : List (Bytes × Bytes) → (Bytes → Bytes) → FingerChunk → Type 0
IsSaved files content_of fc = InFile files fc.chunkaddress fc.chunk_hash (content_of fc.chunk_hash)

module _ (container_name : ℕ → Bytes)
    (fetch : Bytes → List (Bytes × Bytes) → Option (List (Bytes × Bytes))) where
  read_through_files :
      (chunk : Chunk) (r : Restorer) (o : Bool × List Container)
      → (read_through container_name false fetch chunk r o).1.files ≡ r.files
  unfolding read_through
  read_through_files chunk r (hit, []) = refl
  read_through_files chunk r (true, p ∷ rest) = refl
  read_through_files chunk r (false, p ∷ rest) = refl

  restore_chunk_files :
      (chunk : Chunk) (r : Restorer)
      → (restore_chunk container_name false fetch chunk r).1.files ≡ r.files
  restore_chunk_files chunk r =
      let (r', got, files, cache) = get_container_local container_name fetch chunk.address r in
      ap (λ x. x.1.files) (restore_chunk_got container_name fetch chunk r r' got)
      ∙ read_through_files chunk r' _
      ∙ files

  finish_read-Reads :
      (chunk : Chunk) (c : Container) (q content address : Bytes)
      → Reads c q content
      → finish_read (record chunk { address = address; hash = q }) c
        ≡ some (record chunk {
          length = length content;
          hash = q;
          address = address;
          content = some content;
        })
  unfolding finish_read Reads
  finish_read-Reads chunk c q content address reads =
      let e = reads (record chunk { address = address }) in rw (e, finish_read) (ap some e)

  -- Without a cloud, chunks whose containers are in files are written out, one after the other.
  pub restore_chunks-contents :
      (content_of : Bytes → Bytes) (files : List (Bytes × Bytes)) (fcs : List FingerChunk)
      (chunk : Chunk) (r : Restorer)
      → All (IsSaved files content_of) fcs
      → r.files ≡ files
      → All (IsCopy files) r.cache
      → (restore_chunks container_name false fetch fcs chunk r).0 ≡ some (contents content_of fcs)
  unfolding restore_chunks written contents InFile
  restore_chunks-contents content_of files [] chunk r saved same copies = refl
  restore_chunks-contents content_of files (p ∷ rest) chunk r ((c, valid, there, reads), saved) same
        copies =
      let asked : Chunk = record chunk { address = p.chunkaddress; hash = p.chunk_hash } in
      let r' = (restore_chunk container_name false fetch asked r).1 in
      let copies' : All (IsCopy r.files) r.cache =
        subst (λ f. All (IsCopy f) r.cache) (sym same) copies in
      let got =
        restore_chunk-finish_read container_name fetch asked r c copies' valid
          (ap (open_file p.chunkaddress) same ∙ there)
        ∙ finish_read-Reads chunk c p.chunk_hash (content_of p.chunk_hash) p.chunkaddress reads in
      let chunk' : Chunk = record chunk {
        length = length (content_of p.chunk_hash);
        hash = p.chunk_hash;
        address = p.chunkaddress;
        content = some (content_of p.chunk_hash);
      } in
      let more =
        restore_chunks-contents content_of files rest chunk' r' saved
          (restore_chunk_files asked r ∙ same)
          (subst (λ f. All (IsCopy f) r'.cache) same
            (restore_chunk-IsCopy container_name fetch asked r copies')) in
      rw (got, restore_chunks)
        (rw more (
          ap (λ b. some (b ++ contents content_of rest))
            (take_all (length (content_of p.chunk_hash)) (content_of p.chunk_hash) (omega arith))))

-- An open container without chunks is nobody's.
not_open :
    (s : Store) (address q content : Bytes)
    → ltb 0 s.container.chunk_num ≡ false
    → IsLocated s address q content
    → InFile s.files address q content
unfolding IsLocated IsOpen
not_open s address q content e (inl (same, some_chunk, reads)) =
    absurd (omega (arith, some_chunk, ltb-false 0 s.container.chunk_num e))
not_open s address q content e (inr saved) = saved

module _ (container_name : ℕ → Bytes)
    (injective : (i j : ℕ) → container_name i ≡ container_name j → i ≡ j) where
  -- `store_destroy` writes out the open container where it has a chunk.
  pub store_destroy-InFile :
      (s : Store) (address q content : Bytes)
      → IsReady container_name s
      → IsLocated s address q content
      → InFile (store_destroy container_name s).files address q content
  unfolding store_destroy
  store_destroy-InFile s address q content ready h =
      elim (Bool-cases (ltb 0 s.container.chunk_num)) [
        | inl e ↦ rw e (flush-InFile container_name injective s address q content ready h)
        | inr e ↦ rw e (not_open s address q content e h)
      ]

module _ (container_name : ℕ → Bytes)
    (injective : (i j : ℕ) → container_name i ≡ container_name j → i ≡ j) where
  -- The names after the last container's stay unused.
  pub store_destroy_unused :
      (s : Store) (j : ℕ)
      → IsReady container_name s
      → s.randomabc < j
      → open_file (container_name j) (store_destroy container_name s).files ≡ none
  unfolding store_destroy new_container
  store_destroy_unused s j ready later = elim (Bool-cases (ltb 0 s.container.chunk_num)) [
    | inl e ↦ rw e ((flush-IsReady container_name injective s ready).unused j (omega arith))
    | inr e ↦ rw e (ready.unused j (omega arith))
  ]

pub init_cache-IsCopy :
    (container_name : ℕ → Bytes) (files : List (Bytes × Bytes)) (counter n : ℕ)
    → ((j : ℕ) → counter < j → open_file (container_name j) files ≡ none)
    → All (IsCopy files) (init_cache container_name counter n)
unfolding init_cache init_container
init_cache-IsCopy container_name files counter zero unused = tt
init_cache-IsCopy container_name files counter (suc n) unused = (
  λ bytes e. absurd (none-ne-some bytes (sym (unused (counter + 1) (omega arith)) ∙ e)),
  init_cache-IsCopy container_name files (counter + 1) n
      (λ j later. unused j (omega (arith, later))),
)
