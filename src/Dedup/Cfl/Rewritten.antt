-- ===== src/Dedup/Cfl/Rewritten.antt =====
-- client/src/cfl.c: the waiting chunks are stored again or left, and none is lost.
use tcbackup.HashTable
use tcbackup.HashTable.{Table}
use tcbackup.HashTable.Laws.{IsMap, modify-IsMap}
use tcbackup.Store.{Store, store_chunk}
use tcbackup.Dedup.{new_chunk, FingerChunk, Bin, write_chunk_to_cloud}
use tcbackup.Dedup.Cfl.{
  ChunkNode, Cfl, learn_container, release, release_chunks, rewrite_chunks, process_tmp,
}
use tcbackup.Dedup.Perfect.Total.{IsKnown-modify}
use tcbackup.Prelude.{
  ℕ, ◌≡◌, refl, ap, Bool, true, false, Option, none, some, List, [], ◌∷◌, arith, Bytes,
  if◌then◌else◌, Bool-cases, inl, inr,
}
use tcbackup.Dedup.Cfl.Counted.{
  occurrences, occurrences-snoc, AreKnown, Grows, AreKnown-grown, IsCounted, IsSound, IsLearnt,
  learn_container-IsLearnt, IsReleased, release_chunks-IsReleased,
}

module _ {F : Type 0} where
  abbrev pub IsRewritten : List ChunkNode → Cfl F → Bin → Option (Cfl F × Bin × Store) → Type 0
  IsRewritten cns c bin none = ⊥
  IsRewritten cns c bin (some (c', bin', s')) = IsReleased cns c c' × IsMap bin' × Grows bin bin'

  abbrev pub rewritten_chunk : Bool → Bytes → FingerChunk → Cfl F → Cfl F
  rewritten_chunk counting address fc c =
      let c' = release (record fc { is_new = new_chunk; chunkaddress = address }) c in
      if counting then learn_container address c' else c'

  pub rewritten_chunk-IsLearnt :
      (counting : Bool) (address : Bytes) (fc : FingerChunk) (c : Cfl F)
      → IsCounted c
      → IsLearnt
          (release (record fc { is_new = new_chunk; chunkaddress = address }) c)
          (rewritten_chunk counting address fc c)
  unfolding release
  rewritten_chunk-IsLearnt true address fc c h = learn_container-IsLearnt address _ h
  rewritten_chunk-IsLearnt false address fc c h = (h, refl, refl)

  pub IsRewritten-cons :
      (cns : List ChunkNode) (counting : Bool) (address path : Bytes) (fc : FingerChunk) (c : Cfl F)
      (bin : Bin) (r : Option (Cfl F × Bin × Store))
      → IsCounted c
      → IsMap bin
      → IsRewritten cns
          (rewritten_chunk counting address fc c)
          (HashTable.modify fc.chunk_hash (λ a. address) bin)
          r
      → IsRewritten ((fc, path) ∷ cns) c bin r
  unfolding release
  IsRewritten-cons cns counting address path fc c bin none h m rewritten = absurd rewritten
  IsRewritten-cons cns counting address path fc c bin (some (c', bin', s')) h m
        ((counted, none_left, all), m', g) =
      let (k, same, l) = rewritten_chunk-IsLearnt counting address fc c h in
      (
        (
          counted,
          none_left,
          λ q. omega (
            arith,
            all q,
            ap (occurrences q) same,
            occurrences-snoc q c.released
                (record fc { is_new = new_chunk; chunkaddress = address }),
          ),
        ),
        m',
        λ q known. g q (IsKnown-modify fc.chunk_hash q (λ a. address) bin m known),
      )

  pub IsRewritten-reset :
      (cns : List ChunkNode) (c : Cfl F) (bin : Bin) (r : Option (Cfl F × Bin × Store))
      → IsRewritten cns c bin r
      → IsRewritten cns c bin
          (elim r [ none ↦ none | some (c', bin', s') ↦ some (record c' { length = 0 }, bin', s') ])
  IsRewritten-reset cns c bin none h = absurd h
  IsRewritten-reset cns c bin (some (c', bin', s')) h = h

  pub released-IsRewritten :
      (cns : List ChunkNode) (c c' : Cfl F) (bin : Bin) (s : Store)
      → IsLearnt c c'
      → IsMap bin
      → IsRewritten cns c bin (some (release_chunks cns c', bin, s))
  released-IsRewritten cns c c' bin s (h, same, l) m =
      let (counted, none_left, all) = release_chunks-IsReleased cns c' h in
      ((counted, none_left, λ q. omega (arith, all q, ap (occurrences q) same)), m, λ q k. k)

module _ {F : Type 0} (container_name : ℕ → Bytes) (read_file : Bytes → ℕ → ℕ → Option Bytes)
    (level_of : ℕ → ℕ → F) (below_lwm : F → Bool) (is_little : ℕ → Bool)
    (readable : (path : Bytes) (offset len : ℕ)
      → (content : Bytes) × (read_file path offset len ≡ some content)) where
  pub written :
      (path : Bytes) (fc : FingerChunk) (s : Store)
      → (address : Bytes) × (s' : Store) × (write_chunk_to_cloud container_name
            (read_file path)
            fc.offset
            fc
            s
          ≡ some (record fc { chunkaddress = address }, s'))
  unfolding write_chunk_to_cloud
  written path fc s =
      let (content, e) = readable path fc.offset fc.chunklen in
      let (address, s') = store_chunk container_name fc.chunk_hash content s in
      (address, s', rw (e, write_chunk_to_cloud) refl)

  pub rewrite_chunks-IsRewritten :
      (counting : Bool) (cns : List ChunkNode) (c : Cfl F) (bin : Bin) (s : Store)
      → IsCounted c
      → IsMap bin
      → AreKnown bin cns
      → IsRewritten cns c bin (
          rewrite_chunks container_name read_file level_of below_lwm is_little counting cns c bin s)
  unfolding rewrite_chunks
  rewrite_chunks-IsRewritten counting [] c bin s h m known =
      ((h, refl, λ q. omega arith), m, λ q k. k)
  rewrite_chunks-IsRewritten counting ((fc, path) ∷ cns) c bin s h m ((a, e), known) =
      let (address, s', stored) = written path fc s in
      let bin' = HashTable.modify fc.chunk_hash (λ x. address) bin in
      rw (stored, e, rewrite_chunks)
        (IsRewritten-cons cns counting address path fc c bin _ h m (
          rewrite_chunks-IsRewritten counting cns (rewritten_chunk counting address fc c) bin' s'
            (rewritten_chunk-IsLearnt counting address fc c h).0
            (modify-IsMap fc.chunk_hash (λ x. address) bin m)
            (AreKnown-grown bin bin' cns (λ q. IsKnown-modify fc.chunk_hash q (λ x. address) bin m)
              known)))

  pub process_tmp-IsRewritten :
      (c : Cfl F) (bin : Bin) (s : Store)
      → IsSound c bin
      → IsRewritten c.chunks c bin
          (process_tmp container_name read_file level_of below_lwm is_little c bin s)
  unfolding process_tmp
  process_tmp-IsRewritten c bin s (h, m, known) = elim (Bool-cases (is_little c.length)) [
    | inl e ↦
        rw (e, process_tmp)
          (IsRewritten-reset c.chunks c bin _
            (rewrite_chunks-IsRewritten true c.chunks c bin s h m known))
    | inr e ↦
        rw (e, process_tmp)
          (IsRewritten-reset c.chunks c bin
            (some (release_chunks c.chunks (learn_container c.address c), bin, s))
            (released-IsRewritten c.chunks c (learn_container c.address c) bin s
              (learn_container-IsLearnt c.address c h) m))
  ]
