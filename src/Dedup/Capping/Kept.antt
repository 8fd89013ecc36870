-- ===== src/Dedup/Capping/Kept.antt =====
-- Rewriting the buffered chunks keeps their fingerprints, in their order.
use tcbackup.HashTable
use tcbackup.HashTable.{Table}
use tcbackup.Store.{Store}
use tcbackup.Dedup.{ChunkState, new_chunk, dedup_chunk, FingerChunk, Bin, write_chunk_to_cloud}
use tcbackup.Dedup.Capping.{ChunkList, Capping, cap_chunk, cap_chunks, cap_lists}
use mathlib.Core.List.{append_assoc}
use tcbackup.Prelude.{
  ℕ, ◌≡◌, refl, ap, sym, ◌∙◌, Option, none, some, List, [], ◌∷◌, ◌++◌, Bytes, Option-cases, inl,
  inr, ap₂, ap₂,
}

unfoldable pub hashes : List FingerChunk → List Bytes
hashes [] = []
hashes (fc ∷ fcs) = fc.chunk_hash ∷ hashes fcs

unfoldable pub list_hashes : List ChunkList → List Bytes
unfolding hashes
list_hashes [] = []
list_hashes (cl ∷ cls) = hashes cl.chunks ++ list_hashes cls

-- The fingerprints that went through the buffer, in their order.
unfoldable pub all_hashes : Capping → List Bytes
unfolding list_hashes
all_hashes c = list_hashes c.done ++ list_hashes c.chunk_buffer

pub hashes-append : (xs ys : List FingerChunk) → hashes (xs ++ ys) ≡ hashes xs ++ hashes ys
unfolding hashes
hashes-append [] ys = refl
hashes-append (x ∷ xs) ys = ap (◌∷◌ x.chunk_hash) (hashes-append xs ys)

pub list_hashes-append :
    (xs ys : List ChunkList) → list_hashes (xs ++ ys) ≡ list_hashes xs ++ list_hashes ys
unfolding list_hashes
list_hashes-append [] ys = refl
list_hashes-append (x ∷ xs) ys =
    ap (λ h. hashes x.chunks ++ h) (list_hashes-append xs ys)
    ∙ sym (append_assoc (hashes x.chunks) (list_hashes xs) (list_hashes ys))

abbrev Keeps : FingerChunk → Option (FingerChunk × Bin × Store) → Type 0
Keeps fc none = Unit
Keeps fc (some (fc', bin, s)) = fc'.chunk_hash ≡ fc.chunk_hash

abbrev KeepsAll : List FingerChunk → Option (List FingerChunk × Bin × Store) → Type 0
KeepsAll fcs none = Unit
KeepsAll fcs (some (fcs', bin, s)) = hashes fcs' ≡ hashes fcs

abbrev pub KeepsLists : List ChunkList → Option (List ChunkList × Bin × Store) → Type 0
KeepsLists cls none = Unit
KeepsLists cls (some (cls', bin, s)) = list_hashes cls' ≡ list_hashes cls

module _ (container_name : ℕ → Bytes) (read_file : Bytes → ℕ → ℕ → Option Bytes)
    (max_refer_count buffer_capacity : ℕ) where
  write-Keeps :
      (path : Bytes) (fc : FingerChunk) (bin : Bin) (s : Store)
      → Keeps fc
          (elim (write_chunk_to_cloud container_name (read_file path) fc.offset fc s)
            as (λ x. Option (FingerChunk × Bin × Store)) [
              | none ↦ none
              | some (fc', s') ↦ some (fc', bin, s')
            ])
  unfolding write_chunk_to_cloud
  write-Keeps path fc bin s = elim (Option-cases (read_file path fc.offset fc.chunklen)) [
    | inl e ↦ rw e tt
    | inr (content, e) ↦ rw e refl
  ]

  cap_chunk-Keeps :
      (path : Bytes) (segments : Table ℕ) (fc : FingerChunk) (bin : Bin) (s : Store)
      → Keeps fc (
          cap_chunk container_name read_file max_refer_count buffer_capacity path segments fc bin s)
  unfolding cap_chunk write_chunk_to_cloud
  cap_chunk-Keeps path segments fc bin s = go fc.is_new refl
    where
      go :
          (state : ChunkState)
          → fc.is_new ≡ state
          → Keeps fc (
              cap_chunk container_name read_file max_refer_count buffer_capacity path segments fc
                bin s)
      go new_chunk e = elim (Option-cases (HashTable.lookup fc.chunk_hash bin)) [
        | inl l ↦ elim (Option-cases (read_file path fc.offset fc.chunklen)) [
          | inl r ↦ rw (e, l, r, cap_chunk) tt
          | inr (content, r) ↦ rw (e, l, r, cap_chunk) refl
        ]
        | inr (a, l) ↦ rw (e, l, cap_chunk) refl
      ]
      go dedup_chunk e = elim (Option-cases (HashTable.lookup fc.chunkaddress segments)) [
        | inl l ↦ elim (Option-cases (read_file path fc.offset fc.chunklen)) [
          | inl r ↦ rw (e, l, r, cap_chunk) tt
          | inr (content, r) ↦ elim (Option-cases (HashTable.lookup fc.chunk_hash bin)) [
            | inl k ↦ rw (e, l, r, k, cap_chunk) tt
            | inr (a, k) ↦ rw (e, l, r, k, cap_chunk) refl
          ]
        ]
        | inr (a, l) ↦ rw (e, l, cap_chunk) refl
      ]

  cap_chunks-KeepsAll :
      (path : Bytes) (segments : Table ℕ) (fcs : List FingerChunk) (bin : Bin) (s : Store)
      → KeepsAll fcs (
          cap_chunks container_name read_file max_refer_count buffer_capacity path segments fcs bin
            s)
  unfolding cap_chunks hashes
  cap_chunks-KeepsAll path segments [] bin s = refl
  cap_chunks-KeepsAll path segments (fc ∷ fcs) bin s =
      go (cap_chunk container_name read_file max_refer_count buffer_capacity path segments fc bin s)
        (cap_chunk-Keeps path segments fc bin s)
        (λ bin' s'. cap_chunks-KeepsAll path segments fcs bin' s')
    where
      go :
          (o : Option (FingerChunk × Bin × Store))
          → Keeps fc o
          → ((bin' : Bin) (s' : Store)
              → KeepsAll fcs (
                  cap_chunks container_name read_file max_refer_count buffer_capacity path segments
                    fcs bin' s'))
          → KeepsAll (fc ∷ fcs) (elim o as (λ x. Option (List FingerChunk × Bin × Store)) [
            | none ↦ none
            | some (fc', bin', s') ↦
                elim (cap_chunks container_name read_file max_refer_count buffer_capacity path
                  segments fcs bin' s') [
                    | none ↦ none
                    | some (fcs', bin'', s'') ↦ some (fc' ∷ fcs', bin'', s'')
                  ]
          ])
      go none k rest = tt
      go (some (fc', bin', s')) k rest =
          later
            (cap_chunks container_name read_file max_refer_count buffer_capacity path segments fcs
              bin' s')
            (rest bin' s')
        where
          later :
              (o : Option (List FingerChunk × Bin × Store))
              → KeepsAll fcs o
              → KeepsAll (fc ∷ fcs) (elim o as (λ x. Option (List FingerChunk × Bin × Store)) [
                | none ↦ none
                | some (fcs', bin'', s'') ↦ some (fc' ∷ fcs', bin'', s'')
              ])
          later none l = tt
          later (some (fcs', bin'', s'')) l = ap₂ (λ x y. x ∷ y) k l

  pub cap_lists-KeepsLists :
      (segments : Table ℕ) (cls : List ChunkList) (bin : Bin) (s : Store)
      → KeepsLists cls
          (cap_lists container_name read_file max_refer_count buffer_capacity segments cls bin s)
  unfolding cap_lists list_hashes
  cap_lists-KeepsLists segments [] bin s = refl
  cap_lists-KeepsLists segments (cl ∷ cls) bin s =
      go
        (cap_chunks container_name read_file max_refer_count buffer_capacity cl.path segments
          cl.chunks bin s)
        (cap_chunks-KeepsAll cl.path segments cl.chunks bin s)
        (λ bin' s'. cap_lists-KeepsLists segments cls bin' s')
    where
      go :
          (o : Option (List FingerChunk × Bin × Store))
          → KeepsAll cl.chunks o
          → ((bin' : Bin) (s' : Store)
              → KeepsLists cls (
                  cap_lists container_name read_file max_refer_count buffer_capacity segments cls
                    bin' s'))
          → KeepsLists (cl ∷ cls) (elim o as (λ x. Option (List ChunkList × Bin × Store)) [
            | none ↦ none
            | some (fcs, bin', s') ↦
                elim (cap_lists container_name read_file max_refer_count buffer_capacity segments
                  cls bin' s') [
                    | none ↦ none
                    | some (rest, bin'', s'') ↦ some (record cl { chunks = fcs } ∷ rest, bin'', s'')
                  ]
          ])
      go none k rest = tt
      go (some (fcs, bin', s')) k rest =
          later
            (cap_lists container_name read_file max_refer_count buffer_capacity segments cls bin'
              s')
            (rest bin' s')
        where
          later :
              (o : Option (List ChunkList × Bin × Store))
              → KeepsLists cls o
              → KeepsLists (cl ∷ cls) (elim o as (λ x. Option (List ChunkList × Bin × Store)) [
                | none ↦ none
                | some (more, bin'', s'') ↦ some (record cl { chunks = fcs } ∷ more, bin'', s'')
              ])
          later none l = tt
          later (some (more, bin'', s'')) l = ap₂ (λ x y. x ++ y) k l
