-- ===== src/Dedup/Cfl/Counted.antt =====
-- client/src/cfl.c: the chunks that are held, and the containers that are counted.
use tcbackup.HashTable
use tcbackup.HashTable.{Table}
use tcbackup.HashTable.Laws.{IsMap, insert-IsMap, size-insert}
use tcbackup.Dedup.{FingerChunk, Bin}
use tcbackup.Dedup.Cfl.{ChunkNode, Cfl, learn_container, release, release_chunks}
use tcbackup.Dedup.Perfect.Total.{IsKnown}
use tcbackup.Prelude.{
  ℕ, ◌+◌, ◌≡◌, refl, List, [], ◌∷◌, ◌++◌, arith, Bytes, bytes_eq, if◌then◌else◌, All, Option-cases,
  inl, inr,
}

-- How many chunks have a fingerprint.
abbrev pub occurrences : Bytes → List FingerChunk → ℕ
occurrences q [] = 0
occurrences q (fc ∷ fcs) = (if bytes_eq q fc.chunk_hash then 1 else 0) + occurrences q fcs

abbrev pub waiting : Bytes → List ChunkNode → ℕ
waiting q [] = 0
waiting q (cn ∷ cns) = (if bytes_eq q cn.0.chunk_hash then 1 else 0) + waiting q cns

pub occurrences-snoc :
    (q : Bytes) (fcs : List FingerChunk) (fc : FingerChunk)
    → occurrences q (fcs ++ fc ∷ [])
      ≡ occurrences q fcs + (if bytes_eq q fc.chunk_hash then 1 else 0)
occurrences-snoc q [] fc = omega arith
occurrences-snoc q (e ∷ fcs) fc = omega (arith, occurrences-snoc q fcs fc)

pub waiting-snoc :
    (q : Bytes) (cns : List ChunkNode) (cn : ChunkNode)
    → waiting q (cns ++ cn ∷ []) ≡ waiting q cns + (if bytes_eq q cn.0.chunk_hash then 1 else 0)
waiting-snoc q [] cn = omega arith
waiting-snoc q (e ∷ cns) cn = omega (arith, waiting-snoc q cns cn)

-- The fingerprints of these chunks are in the index.
abbrev pub AreKnown : Bin → List ChunkNode → Type 0
AreKnown bin cns = All (λ cn. IsKnown cn.0.chunk_hash bin) cns

abbrev pub Grows : Bin → Bin → Type 0
Grows bin bin' = (q : Bytes) → IsKnown q bin → IsKnown q bin'

pub AreKnown-grown :
    (bin bin' : Bin) (cns : List ChunkNode) → Grows bin bin' → AreKnown bin cns → AreKnown bin' cns
AreKnown-grown bin bin' [] g h = tt
AreKnown-grown bin bin' (cn ∷ cns) g h = (g cn.0.chunk_hash h.0, AreKnown-grown bin bin' cns g h.1)

pub AreKnown-snoc :
    (bin : Bin) (cns : List ChunkNode) (cn : ChunkNode)
    → AreKnown bin cns
    → IsKnown cn.0.chunk_hash bin
    → AreKnown bin (cns ++ cn ∷ [])
AreKnown-snoc bin [] cn h k = (k, tt)
AreKnown-snoc bin (e ∷ cns) cn h k = (h.0, AreKnown-snoc bin cns cn h.1 k)

module _ {F : Type 0} where
  -- Every container of the backup is counted once.
  abbrev pub IsCounted : Cfl F → Type 0
  IsCounted c = IsMap c.rdc × (c.total_container_num ≡ HashTable.size c.rdc)

  abbrev pub held : Bytes → Cfl F → ℕ
  held q c = occurrences q c.released + waiting q c.chunks

  -- Counted containers, an index that is a map, and waiting chunks that it knows.
  abbrev pub IsSound : Cfl F → Bin → Type 0
  IsSound c bin = IsCounted c × IsMap bin × AreKnown bin c.chunks

  -- Nothing but the counted containers changes.
  abbrev pub IsLearnt : Cfl F → Cfl F → Type 0
  IsLearnt c c' = IsCounted c' × (c'.released ≡ c.released) × (c'.chunks ≡ c.chunks)

  pub learn_container-IsLearnt :
      (id : Bytes) (c : Cfl F) → IsCounted c → IsLearnt c (learn_container id c)
  unfolding learn_container
  learn_container-IsLearnt id c h = elim (Option-cases (HashTable.lookup id c.rdc)) [
    | inl e ↦
        rw (e, learn_container)
          (
            (insert-IsMap id id c.rdc h.0 e, omega (arith, h.1, size-insert id id c.rdc h.0.shape)),
            refl,
            refl,
          )
    | inr (v, e) ↦ rw (e, learn_container) (h, refl, refl)
  ]

  -- What is left when all waiting chunks are released.
  abbrev pub IsReleased : List ChunkNode → Cfl F → Cfl F → Type 0
  IsReleased cns c c' =
      IsCounted c'
      × (c'.chunks ≡ [])
      × ((q : Bytes) → occurrences q c'.released ≡ occurrences q c.released + waiting q cns)

  pub release_chunks-IsReleased :
      (cns : List ChunkNode) (c : Cfl F) → IsCounted c → IsReleased cns c (release_chunks cns c)
  unfolding release_chunks release
  release_chunks-IsReleased [] c h = (h, refl, λ q. omega arith)
  release_chunks-IsReleased ((fc, path) ∷ cns) c h =
      let (counted, none_left, all) = release_chunks-IsReleased cns (release fc c) h in
      (counted, none_left, λ q. omega (arith, all q, occurrences-snoc q c.released fc))
