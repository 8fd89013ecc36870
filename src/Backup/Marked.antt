-- ===== src/Backup/Marked.antt =====
-- client/src/chunkdedup.c, `mark_deplicate_chunk` of a new file: every fingerprint that the bin knows
-- leads to a container with its content, and so do the chunks of the file.
use tcbackup.Prelude.{
  ℕ, ◌+◌, ◌≤◌, ◌≡◌, refl, sym, ◌∙◌, inl, inr, Option, none, some, List, [], ◌∷◌, arith, Bytes,
  bytes_eq, length, if◌then◌else◌, Bool-cases, Option-cases, bytes_eq_iff, bytes_eq-false,
}
use tcbackup.Backup.Located.{IsLocated, IsReady}
use tcbackup.Backup.Storing.{IsStoring, store_chunk-IsStoring}
use tcbackup.Container.{default_container_size, finger_length}
use tcbackup.Dedup.{
  new_chunk, dedup_chunk, FingerChunk, Bin, insert_meta, write_chunk_to_cloud, write_or_log,
  mark_chunk, mark_new,
}
use mathlib.Core.Path.{subst}
use mathlib.Core.Option.{none-ne-some, some-injective}
use tcbackup.HashTable
use tcbackup.HashTable.Laws.{IsMap, insert-IsMap, lookup-insert, init-IsMap, lookup-init}
use tcbackup.Store.{Store, store_chunk, store_init, new_container, open_file}
use tcbackup.Store.Chunks.{empty_lookup}
use tcbackup.Container.{init_container}
use tcbackup.Container.Chunks.{init_container-IsContainer}

-- The store is ready, the bin is a map, each of its fingerprints leads to the content it names, and
-- the open container has no fingerprint that the bin does not know.
pub record IsBacked (container_name : ℕ → Bytes) (content_of : Bytes → Bytes) (bin : Bin)
    (s : Store) : Type 0 where
  pub ready : IsReady container_name s
  pub map : IsMap bin
  pub located :
      (q address : Bytes)
      → HashTable.lookup q bin ≡ some address
      → IsLocated s address q (content_of q)
  pub unknown :
      (q : Bytes) → HashTable.lookup q bin ≡ none → HashTable.lookup q s.container.meta_table ≡ none

-- Nothing is stored yet.
pub store_init-IsBacked :
    (container_name : ℕ → Bytes) (content_of : Bytes → Bytes) (tsize : ℕ)
    → IsBacked container_name content_of
        (HashTable.init Bytes finger_length tsize)
        (store_init container_name)
unfolding store_init new_container init_container open_file
store_init-IsBacked container_name content_of tsize = record {
  ready = record {
    valid = init_container-IsContainer (container_name 2);
    name = refl;
    unused = λ j h. refl;
  };
  map = init-IsMap Bytes finger_length tsize;
  located = λ q address found.
      absurd (none-ne-some address (sym (lookup-init Bytes finger_length tsize q) ∙ found));
  unknown = λ q h. empty_lookup (container_name 2) q;
}

-- A chunk that can be stored and has the content that its fingerprint names.
unfoldable pub IsReadable : (ℕ → ℕ → Option Bytes) → (Bytes → Bytes) → ℕ → FingerChunk → Type 0
IsReadable read_file content_of size fc =
    (length fc.chunk_hash ≡ finger_length)
    × (fc.chunklen + 61 ≤ default_container_size)
    × (length (content_of fc.chunk_hash) ≡ fc.chunklen)
    × (read_file size fc.chunklen ≡ some (content_of fc.chunk_hash))

-- Each chunk in its place, from an offset on.
unfoldable pub AreReadable :
    (ℕ → ℕ → Option Bytes) → (Bytes → Bytes) → ℕ → List FingerChunk → Type 0
AreReadable read_file content_of size [] = Unit
AreReadable read_file content_of size (fc ∷ fcs) =
    IsReadable read_file content_of size fc
    × AreReadable read_file content_of (size + fc.chunklen) fcs

module _ (container_name : ℕ → Bytes)
    (injective : (i j : ℕ) → container_name i ≡ container_name j → i ≡ j)
    (content_of : Bytes → Bytes) where
  -- A fingerprint that was stored enters the bin.
  insert-IsBacked :
      (hash address : Bytes) (bin : Bin) (s s' : Store)
      → IsBacked container_name content_of bin s
      → HashTable.lookup hash bin ≡ none
      → IsStoring container_name hash (content_of hash) s (address, s')
      → IsBacked container_name content_of (HashTable.insert hash address bin) s'
  insert-IsBacked hash address bin s s' b fresh stored = record {
    ready = stored.ready;
    map = insert-IsMap hash address bin b.map fresh;
    located = λ q a found.
        let after : HashTable.lookup q (HashTable.insert hash address bin)
            ≡ (if bytes_eq q hash then some address else HashTable.lookup q bin) =
          lookup-insert hash q address bin b.map fresh in
        elim (Bool-cases (bytes_eq q hash)) [
          | inl e ↦
              let own : some address ≡ some a = sym (after ∙ rw e refl) ∙ found in
              subst (λ n. IsLocated s' n q (content_of q)) (some-injective _ _ own)
                (subst (λ k. IsLocated s' address k (content_of k))
                  (sym ((bytes_eq_iff q hash).0 e)) stored.located)
          | inr e ↦
              let earlier : HashTable.lookup q bin ≡ some a = sym (after ∙ rw e refl) ∙ found in
              stored.kept a q (content_of q) (bytes_eq-false q hash e) (b.located q a earlier)
        ];
    unknown = λ q absent.
        let after : HashTable.lookup q (HashTable.insert hash address bin)
            ≡ (if bytes_eq q hash then some address else HashTable.lookup q bin) =
          lookup-insert hash q address bin b.map fresh in
        elim (Bool-cases (bytes_eq q hash)) [
          | inl e ↦
              let own : none ≡ some address = sym absent ∙ after ∙ rw e refl in
              absurd (none-ne-some address own)
          | inr e ↦
              let earlier : HashTable.lookup q bin ≡ none = sym (after ∙ rw e refl) ∙ absent in
              stored.unknown q (bytes_eq-false q hash e) (b.unknown q earlier)
        ];
  }

  module _ (read_file : ℕ → ℕ → Option Bytes) where
    mark_chunk_known :
        (size : ℕ) (fc : FingerChunk) (bin : Bin) (s : Store) (address : Bytes)
        → HashTable.lookup fc.chunk_hash bin ≡ some address
        → mark_chunk container_name read_file size fc bin s
          ≡ (record fc { is_new = dedup_chunk; chunkaddress = address }, bin, s)
    unfolding mark_chunk
    mark_chunk_known size fc bin s address e = rw (e, mark_chunk) refl

    mark_chunk_new :
        (size : ℕ) (fc : FingerChunk) (bin : Bin) (s : Store) (content : Bytes)
        → HashTable.lookup fc.chunk_hash bin ≡ none
        → read_file size fc.chunklen ≡ some content
        → let r = store_chunk container_name fc.chunk_hash content s in
          mark_chunk container_name read_file size fc bin s ≡ (
            record fc { is_new = new_chunk; chunkaddress = r.0 },
            HashTable.insert fc.chunk_hash r.0 bin,
            r.1,
          )
    unfolding mark_chunk insert_meta write_or_log write_chunk_to_cloud
    mark_chunk_new size fc bin s content e read = rw (e, mark_chunk) (rw (read, write_or_log) refl)

    mark_chunk-IsBacked :
        (size : ℕ) (fc : FingerChunk) (bin : Bin) (s : Store)
        → IsBacked container_name content_of bin s
        → IsReadable read_file content_of size fc
        → let r = mark_chunk container_name read_file size fc bin s in
          IsBacked container_name content_of r.1 r.2
    unfolding IsReadable
    mark_chunk-IsBacked size fc bin s b h =
        elim (Option-cases (HashTable.lookup fc.chunk_hash bin)) [
          | inl e ↦
              let (address, s') =
                store_chunk container_name fc.chunk_hash (content_of fc.chunk_hash) s in
              subst (λ r. IsBacked container_name content_of r.1 r.2)
                (sym (mark_chunk_new size fc bin s (content_of fc.chunk_hash) e h.3))
                (insert-IsBacked fc.chunk_hash address bin s s' b e (
                  store_chunk-IsStoring container_name injective fc.chunk_hash
                    (content_of fc.chunk_hash) s b.ready h.0 (omega (arith, h.1, h.2))
                    (b.unknown fc.chunk_hash e)))
          | inr (address, e) ↦
              subst (λ r. IsBacked container_name content_of r.1 r.2)
                (sym (mark_chunk_known size fc bin s address e)) b
        ]

    -- Marking a new file whose chunks can be read keeps the bin backed by the containers.
    pub mark_new-IsBacked :
        (size : ℕ) (fcs : List FingerChunk) (bin : Bin) (s : Store)
        → IsBacked container_name content_of bin s
        → AreReadable read_file content_of size fcs
        → IsBacked container_name content_of
            (mark_new container_name read_file size fcs bin s).1
            (mark_new container_name read_file size fcs bin s).2
    unfolding mark_new AreReadable
    mark_new-IsBacked size [] bin s b h = b
    mark_new-IsBacked size (fc ∷ fcs) bin s b h =
        let (fc', bin', s') = mark_chunk container_name read_file size fc bin s in
        mark_new-IsBacked (size + fc.chunklen) fcs bin' s' (mark_chunk-IsBacked size fc bin s b h.0)
          h.1
