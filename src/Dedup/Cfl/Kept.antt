-- ===== src/Dedup/Cfl/Kept.antt =====
-- client/src/cfl.c: with readable files no chunk is lost and every container is counted once.
use mathlib.Core.Path.{subst}
use tcbackup.HashTable
use tcbackup.HashTable.{Table}
use tcbackup.HashTable.Laws.{IsMap, insert-IsMap}
use tcbackup.Store.{Store}
use tcbackup.Dedup.{new_chunk, dedup_chunk, FingerChunk, Bin, insert_meta}
use tcbackup.Dedup.Cfl.{
  ChunkNode, Cfl, learn_container, release, release_chunks, wait, selective_dedup, typical_dedup,
  dedup_chunk_of, cfl_chunks, cfl_end, cfl_process, is_empty,
}
use tcbackup.Dedup.Perfect.Total.{IsKnown, IsKnown-insert}
use tcbackup.Prelude.{
  ℕ, ◌+◌, ◌≡◌, refl, sym, ap, Bool, true, false, ◌&&◌, not, Option, none, some, List, [], ◌∷◌,
  arith, Bytes, bytes_eq, if◌then◌else◌, take, Option-cases, Bool-cases, inl, inr,
}
use tcbackup.Dedup.Cfl.Counted.{
  occurrences, waiting, occurrences-snoc, waiting-snoc, AreKnown, Grows, AreKnown-grown,
  AreKnown-snoc, IsCounted, held, IsSound, learn_container-IsLearnt,
}
use tcbackup.Dedup.Cfl.Rewritten.{
  IsRewritten, released-IsRewritten, written, rewrite_chunks-IsRewritten, process_tmp-IsRewritten,
}

abbrev pub one_of : FingerChunk → Bytes → ℕ
one_of fc q = if bytes_eq q fc.chunk_hash then 1 else 0

module _ {F : Type 0} where
  -- A step that succeeds, keeps the state sound and the index, and takes in these chunks.
  abbrev pub IsStep : (Bytes → ℕ) → Cfl F → Bin → Option (Cfl F × Bin × Store) → Type 0
  IsStep taken c bin none = ⊥
  IsStep taken c bin (some (c', bin', s')) =
      IsSound c' bin' × Grows bin bin' × ((q : Bytes) → held q c' ≡ held q c + taken q)

  pub IsStep-IsRewritten :
      (c : Cfl F) (bin : Bin) (r : Option (Cfl F × Bin × Store))
      → IsRewritten c.chunks c bin r
      → IsStep (λ q. 0) c bin r
  IsStep-IsRewritten c bin none h = absurd h
  IsStep-IsRewritten c bin (some (c', bin', s')) ((counted, none_left, all), m, g) = (
    (counted, m, subst (AreKnown bin') (sym none_left) tt),
    g,
    λ q. omega (arith, all q, ap (waiting q) none_left),
  )

  pub IsStep-wait :
      (path : Bytes) (fc : FingerChunk) (c : Cfl F) (bin : Bin) (r : Option (Cfl F × Bin × Store))
      → IsKnown fc.chunk_hash bin
      → IsStep (λ q. 0) c bin r
      → IsStep
          (one_of fc)
          c
          bin
          (elim r [ none ↦ none | some (c', bin', s') ↦ some (wait path fc c', bin', s') ])
  unfolding wait
  IsStep-wait path fc c bin none k h = absurd h
  IsStep-wait path fc c bin (some (c', bin', s')) k ((counted, m, known), g, all) = (
    (counted, m, AreKnown-snoc bin' c'.chunks (fc, path) known (g fc.chunk_hash k)),
    g,
    λ q. omega (arith, all q, waiting-snoc q c'.chunks (fc, path)),
  )

  pub learnt-IsStep :
      (fc : FingerChunk) (address : Bytes) (c : Cfl F) (bin bin' : Bin) (s : Store)
      → IsSound c bin
      → IsMap bin'
      → Grows bin bin'
      → IsStep (one_of fc) c bin (some (learn_container address (release fc c), bin', s))
  unfolding release
  learnt-IsStep fc address c bin bin' s (counted, m, known) m' g =
      let (counted', same, waits) = learn_container-IsLearnt address (release fc c) counted in
      (
        (
          counted',
          m',
          subst (AreKnown bin') (sym waits) (AreKnown-grown bin bin' c.chunks g known),
        ),
        g,
        λ q. omega (
          arith,
          ap (occurrences q) same,
          ap (waiting q) waits,
          occurrences-snoc q c.released fc,
        ),
      )

  pub IsStep-then :
      (fc : FingerChunk) (fcs : List FingerChunk) (c : Cfl F) (bin : Bin)
      (r : Option (Cfl F × Bin × Store)) (f : Cfl F → Bin → Store → Option (Cfl F × Bin × Store))
      → IsStep (one_of fc) c bin r
      → ((c' : Cfl F) (bin' : Bin) (s' : Store)
          → IsSound c' bin'
          → IsStep (λ q. occurrences q fcs) c' bin' (f c' bin' s'))
      → IsStep
          (λ q. occurrences q (fc ∷ fcs))
          c
          bin
          (elim r [ none ↦ none | some (c', bin', s') ↦ f c' bin' s' ])
  IsStep-then fc fcs c bin none f h k = absurd h
  IsStep-then fc fcs c bin (some (c', bin', s')) f (sound, g, all) k =
      two_steps (f c' bin' s') (k c' bin' s' sound)
    where
      two_steps :
          (r : Option (Cfl F × Bin × Store))
          → IsStep (λ q. occurrences q fcs) c' bin' r
          → IsStep (λ q. occurrences q (fc ∷ fcs)) c bin r
      two_steps none h = absurd h
      two_steps (some (c'', bin'', s'')) (sound', g', all') =
          (sound', (λ q known. g' q (g q known)), λ q. omega (arith, all q, all' q))

module _ {F : Type 0} (container_name : ℕ → Bytes) (read_file : Bytes → ℕ → ℕ → Option Bytes)
    (level_of : ℕ → ℕ → F) (below_lwm : F → Bool) (is_little : ℕ → Bool)
    (readable : (path : Bytes) (offset len : ℕ)
      → (content : Bytes) × (read_file path offset len ≡ some content)) where
  pub selective_dedup-IsStep :
      (path : Bytes) (fc : FingerChunk) (c : Cfl F) (bin : Bin) (s : Store)
      → IsSound c bin
      → IsKnown fc.chunk_hash bin
      → IsStep
          (one_of fc)
          c
          bin
          (selective_dedup container_name read_file level_of below_lwm is_little path fc c bin s)
  unfolding selective_dedup
  selective_dedup-IsStep path fc c bin s h k =
      elim (Bool-cases (not (is_empty c.chunks) && not (bytes_eq fc.chunkaddress c.address))) [
        | inl e ↦
            rw (e, selective_dedup)
              (IsStep-wait path fc c bin _ k (
                IsStep-IsRewritten c bin _ (
                  process_tmp-IsRewritten container_name read_file level_of below_lwm is_little
                    readable c bin s h)))
        | inr e ↦
            rw (e, selective_dedup)
              (IsStep-wait path fc c bin (some (c, bin, s)) k
                (h, (λ q known. known), λ q. omega arith))
      ]

  pub typical_dedup_new :
      (path : Bytes) (fc : FingerChunk) (c : Cfl F) (bin : Bin) (s : Store)
      → IsSound c bin
      → HashTable.lookup fc.chunk_hash bin ≡ none
      → IsStep (one_of fc) c bin (
          typical_dedup container_name read_file level_of below_lwm is_little path
            (record fc { is_new = new_chunk })
            c
            bin
            s)
  unfolding typical_dedup insert_meta
  typical_dedup_new path fc c bin s h absent =
      let fc1 = record fc { is_new = new_chunk } in
      let (address, s', stored) =
        written container_name read_file level_of below_lwm is_little readable path fc1 s in
      rw (stored, typical_dedup)
        (learnt-IsStep (record fc1 { chunkaddress = address }) address c bin
          (HashTable.insert fc.chunk_hash address bin) s' h
          (insert-IsMap fc.chunk_hash address bin h.1 absent)
          (λ q. IsKnown-insert fc.chunk_hash q address bin h.1 absent))

  pub dedup_chunk_of-IsStep :
      (path : Bytes) (fc : FingerChunk) (c : Cfl F) (bin : Bin) (s : Store)
      → IsSound c bin
      → IsStep
          (one_of fc)
          c
          bin
          (dedup_chunk_of container_name read_file level_of below_lwm is_little path fc c bin s)
  unfolding dedup_chunk_of typical_dedup
  dedup_chunk_of-IsStep path fc c bin s h =
      elim (Option-cases (HashTable.lookup fc.chunk_hash bin)) [
        | inl e ↦ rw (e, dedup_chunk_of) (typical_dedup_new path fc c bin s h e)
        | inr (address, e) ↦
            let fc' = record fc { is_new = dedup_chunk; chunkaddress = address } in
            elim (Bool-cases (below_lwm c.cfl)) [
              | inl low ↦
                  rw (e, low, dedup_chunk_of)
                    (selective_dedup-IsStep path fc' c bin s h (address, e))
              | inr high ↦
                  rw (e, high, dedup_chunk_of)
                    (learnt-IsStep fc' address c bin bin s h h.1 (λ q known. known))
            ]
      ]

  pub cfl_chunks-IsStep :
      (path : Bytes) (fcs : List FingerChunk) (c : Cfl F) (bin : Bin) (s : Store)
      → IsSound c bin
      → IsStep
          (λ q. occurrences q fcs)
          c
          bin
          (cfl_chunks container_name read_file level_of below_lwm is_little path fcs c bin s)
  unfolding cfl_chunks
  cfl_chunks-IsStep path [] c bin s h = (h, (λ q known. known), λ q. omega arith)
  cfl_chunks-IsStep path (fc ∷ fcs) c bin s h =
      IsStep-then fc fcs c bin _
        (λ c' bin' s'.
          cfl_chunks container_name read_file level_of below_lwm is_little path fcs
            (record c' { cfl = level_of c'.dataset_size c'.total_container_num }) bin' s')
        (dedup_chunk_of-IsStep path fc (record c { dataset_size = c.dataset_size + fc.chunklen })
          bin s h)
        (λ c' bin' s' sound.
          cfl_chunks-IsStep path fcs
            (record c' { cfl = level_of c'.dataset_size c'.total_container_num }) bin' s' sound)

  exists :
      (taken : Bytes → ℕ) (c : Cfl F) (bin : Bin) (r : Option (Cfl F × Bin × Store))
      → IsStep taken c bin r
      → (c' : Cfl F) × (bin' : Bin) × (s' : Store) × (r ≡ some (c', bin', s'))
        × IsSound c' bin'
        × ((q : Bytes) → held q c' ≡ held q c + taken q)
  exists taken c bin none h = absurd h
  exists taken c bin (some (c', bin', s')) (sound, g, all) = (c', bin', s', refl, sound, all)

  -- Where reads succeed, containers of the backup are counted once each, the index is a map and
  -- knows the waiting chunks: cfl_process on a file with a number of chunks returns true, all that
  -- holds again, and of every fingerprint as many more chunks are released or waiting as the file
  -- has among that number.
  pub cfl_process-held :
      (path : Bytes) (chunknum : ℕ) (fcs : List FingerChunk) (c : Cfl F) (bin : Bin) (s : Store)
      → IsSound c bin
      → (c' : Cfl F) × (bin' : Bin) × (s' : Store) × (cfl_process container_name read_file level_of
            below_lwm is_little path
            (some chunknum)
            fcs
            c
            bin
            s
          ≡ some (c', bin', s'))
        × IsSound c' bin'
        × ((q : Bytes) → held q c' ≡ held q c + occurrences q (take chunknum fcs))
  unfolding cfl_process
  cfl_process-held path chunknum fcs c bin s h =
      exists (λ q. occurrences q (take chunknum fcs)) c bin _
        (cfl_chunks-IsStep path (take chunknum fcs) c bin s h)

  abbrev IsEnded : Cfl F → Option (Cfl F × Bin × Store) → Type 0
  IsEnded c r =
      (c' : Cfl F) × (bin' : Bin) × (s' : Store) × (r ≡ some (c', bin', s'))
      × IsCounted c'
      × (c'.chunks ≡ [])
      × ((q : Bytes) → occurrences q c'.released ≡ held q c)

  ended :
      (c : Cfl F) (bin : Bin) (r : Option (Cfl F × Bin × Store))
      → IsRewritten c.chunks c bin r
      → IsEnded c r
  ended c bin none h = absurd h
  ended c bin (some (c', bin', s')) ((counted, none_left, all), m, g) =
      (c', bin', s', refl, counted, none_left, all)

  empty-chunks : (cns : List ChunkNode) → is_empty cns ≡ true → cns ≡ []
  empty-chunks [] e = refl
  empty-chunks (cn ∷ cns) e = absurd (ground (arith, e))

  -- Where reads succeed, containers of the backup are counted once each, the index is a map and
  -- knows the waiting chunks: at the end of the stream cfl_process returns true, containers are
  -- counted once each still, no chunk waits, and of every fingerprint as many chunks are released
  -- as were released or waiting.
  pub cfl_process-released :
      (path : Bytes) (fcs : List FingerChunk) (c : Cfl F) (bin : Bin) (s : Store)
      → IsSound c bin
      → (c' : Cfl F) × (bin' : Bin) × (s' : Store) × (cfl_process container_name read_file level_of
            below_lwm is_little path none fcs c bin s
          ≡ some (c', bin', s'))
        × IsCounted c'
        × (c'.chunks ≡ [])
        × ((q : Bytes) → occurrences q c'.released ≡ held q c)
  unfolding cfl_process cfl_end
  cfl_process-released path fcs c bin s (h, m, known) = elim (Bool-cases (is_empty c.chunks)) [
    | inl e ↦
        let none_left = empty-chunks c.chunks e in
        rw (e, cfl_end)
          (c, bin, s, refl, h, none_left, λ q. omega (arith, ap (waiting q) none_left))
    | inr more ↦ elim (Bool-cases (is_little c.length)) [
      | inl e ↦
          rw (more, e, cfl_end)
            (ended c bin _ (
              rewrite_chunks-IsRewritten container_name read_file level_of below_lwm is_little
                readable false c.chunks c bin s h m known))
      | inr e ↦
          rw (more, e, cfl_end)
            (ended c bin (some (release_chunks c.chunks c, bin, s))
              (released-IsRewritten c.chunks c c bin s (h, refl, refl) m))
    ]
  ]
