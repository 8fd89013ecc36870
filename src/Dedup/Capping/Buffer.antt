-- ===== src/Dedup/Capping/Buffer.antt =====
-- The chunk buffer of capping: no chunk is lost or reordered, and the buffer keeps its capacity.
use tcbackup.HashTable
use tcbackup.HashTable.{Table}
use tcbackup.Store.{Store}
use tcbackup.Dedup.{FingerChunk, Bin}
use tcbackup.Dedup.Capping.{
  ChunkList, Capping, refer_chunk, cap_lists, rewrite, make_room, take_chunk, buffer_chunks,
  sort_segments, new_segments, capping_process, is_over,
}
use mathlib.Core.Path.{subst}
use mathlib.Core.List.{append_assoc, append-nil}
use tcbackup.Prelude.{
  ℕ, ◌+◌, ◌%◌, ◌^◌, ◌≤◌, ◌<◌, ◌≡◌, refl, ap, sym, ◌∙◌, Bool, true, false, Option, none, some, List,
  [], ◌∷◌, ◌++◌, Bytes, All, arith, if◌then◌else◌, ltb, Option-cases, Bool-cases, inl, inr, ap₂,
  ap₂,
}
use tcbackup.Dedup.Capping.Kept.{
  hashes-append, list_hashes-append, KeepsLists, cap_lists-KeepsLists, hashes, list_hashes,
  all_hashes,
}

module _ (container_name : ℕ → Bytes) (read_file : Bytes → ℕ → ℕ → Option Bytes)
    (max_refer_count buffer_capacity : ℕ) where
  -- A result that holds these fingerprints, in this order.
  abbrev Holds : List Bytes → Option Capping → Type 0
  Holds hs none = Unit
  Holds hs (some c) = all_hashes c ≡ hs

  abbrev run : Capping → Option Capping
  run = rewrite container_name read_file max_refer_count buffer_capacity

  rewrite-Holds : (c : Capping) → Holds (all_hashes c) (run c)
  unfolding rewrite all_hashes list_hashes
  rewrite-Holds c = go (
      if ltb max_refer_count (HashTable.size c.segment_buffer)
      then sort_segments max_refer_count c.segment_buffer
      else (true, c.segment_buffer))
    where
      finish :
          (o : Option (List ChunkList × Bin × Store))
          → KeepsLists c.chunk_buffer o
          → Holds (all_hashes c) (elim o as (λ x. Option Capping) [
            | none ↦ none
            | some (lists, bin, s) ↦ some (record c {
              chunk_buffer = [];
              segment_buffer = new_segments;
              bin = bin;
              store = s;
              done = c.done ++ lists;
            })
          ])
      finish none k = tt
      finish (some (lists, bin, s)) k =
          append-nil (list_hashes (c.done ++ lists))
          ∙ list_hashes-append c.done lists
          ∙ ap (λ h. list_hashes c.done ++ h) k

      go :
          (p : Bool × Table ℕ)
          → Holds (all_hashes c) (
              if p.0
              then elim (cap_lists container_name read_file max_refer_count buffer_capacity p.1
                    c.chunk_buffer c.bin c.store)
                  as (λ x. Option Capping) [
                    | none ↦ none
                    | some (lists, bin, s) ↦ some (record c {
                      chunk_buffer = [];
                      segment_buffer = new_segments;
                      bin = bin;
                      store = s;
                      done = c.done ++ lists;
                    })
                  ]
              else none)
      go (false, segments) = tt
      go (true, segments) =
          finish
            (cap_lists container_name read_file max_refer_count buffer_capacity segments
              c.chunk_buffer c.bin c.store)
            (cap_lists-KeepsLists container_name read_file max_refer_count buffer_capacity segments
              c.chunk_buffer c.bin c.store)

  -- A result that holds these fingerprints and has room.
  abbrev Emptied : List Bytes → Option Capping → Type 0
  Emptied hs none = Unit
  Emptied hs (some c) = (all_hashes c ≡ hs) × (c.buffer_length ≡ 0)

  -- A result that holds these fingerprints and keeps the capacity.
  abbrev Buffers : List Bytes → Option Capping → Type 0
  Buffers hs none = Unit
  Buffers hs (some c) = (all_hashes c ≡ hs) × (c.buffer_length ≤ buffer_capacity)

  queued_hashes :
      (cl : ChunkList) (c : Capping)
      → all_hashes (record c { chunk_buffer = c.chunk_buffer ++ (cl ∷ []) })
        ≡ all_hashes c ++ hashes cl.chunks
  unfolding all_hashes list_hashes
  queued_hashes cl c =
      ap (λ h. list_hashes c.done ++ h)
        (list_hashes-append c.chunk_buffer (cl ∷ [])
          ∙ ap (λ h. list_hashes c.chunk_buffer ++ h) (append-nil (hashes cl.chunks)))
      ∙ sym (append_assoc (list_hashes c.done) (list_hashes c.chunk_buffer) (hashes cl.chunks))

  refer_chunk_hash :
      (fc : FingerChunk) (bin : Bin) (segments : Table ℕ)
      → (refer_chunk fc bin segments).0.chunk_hash ≡ fc.chunk_hash
  unfolding refer_chunk
  refer_chunk_hash fc bin segments = elim (Option-cases (HashTable.lookup fc.chunk_hash bin)) [
    | inl e ↦ rw (e, refer_chunk) refl
    | inr (a, e) ↦ rw (e, refer_chunk) refl
  ]

  -- A chunk taken into the list of its file.
  taken_hashes :
      (fc : FingerChunk) (cl : ChunkList) (c : Capping)
      → hashes
          (take_chunk container_name read_file max_refer_count buffer_capacity fc cl c).0.chunks
        ≡ hashes cl.chunks ++ (fc.chunk_hash ∷ [])
  unfolding take_chunk hashes
  taken_hashes fc cl c =
      hashes-append cl.chunks _
      ∙ ap (λ h. hashes cl.chunks ++ (h ∷ [])) (refer_chunk_hash fc c.bin c.segment_buffer)

  step_hashes :
      (fc : FingerChunk) (fcs : List FingerChunk) (cl : ChunkList) (c : Capping)
      → hashes
            (take_chunk container_name read_file max_refer_count buffer_capacity fc cl c).0.chunks
          ++ hashes fcs
        ≡ hashes cl.chunks ++ (fc.chunk_hash ∷ hashes fcs)
  step_hashes fc fcs cl c =
      ap (λ x. x ++ hashes fcs) (taken_hashes fc cl c)
      ∙ append_assoc (hashes cl.chunks) (fc.chunk_hash ∷ []) (hashes fcs)

  take_chunk_hashes :
      (fc : FingerChunk) (cl : ChunkList) (c : Capping)
      → (all_hashes (take_chunk container_name read_file max_refer_count buffer_capacity fc cl c).1
          ≡ all_hashes c)
        × ((take_chunk container_name read_file max_refer_count buffer_capacity fc cl
              c).1.buffer_length
            ≡ (c.buffer_length + fc.chunklen) % 2 ^ 32)
  unfolding take_chunk all_hashes
  take_chunk_hashes fc cl c = (refl, refl)

  make_room-Emptied :
      (cl : ChunkList) (c : Capping)
      → Emptied
          (all_hashes c ++ hashes cl.chunks)
          (make_room container_name read_file max_refer_count buffer_capacity cl c)
  unfolding make_room all_hashes list_hashes hashes
  make_room-Emptied cl c = go cl.chunks refl
    where
      reset :
          (o : Option Capping) (hs : List Bytes)
          → Holds hs o
          → Emptied hs (elim o as (λ x. Option Capping) [
            | none ↦ none
            | some c' ↦ some (record c' { buffer_length = 0 })
          ])
      reset none hs k = tt
      reset (some c') hs k = (k, refl)

      reset_run : List ChunkList → Option Capping
      reset_run queue = elim (run (record c { chunk_buffer = queue })) as (λ x. Option Capping) [
        | none ↦ none
        | some c' ↦ some (record c' { buffer_length = 0 })
      ]

      pick : List FingerChunk → List ChunkList
      pick fcs = elim fcs as (λ x. List ChunkList) [
        | [] ↦ c.chunk_buffer
        | fc ∷ fcs ↦ c.chunk_buffer ++ (cl ∷ [])
      ]

      go :
          (fcs : List FingerChunk)
          → cl.chunks ≡ fcs
          → Emptied
              (all_hashes c ++ hashes cl.chunks)
              (make_room container_name read_file max_refer_count buffer_capacity cl c)
      go [] e =
          subst (λ o. Emptied (all_hashes c ++ hashes cl.chunks) o)
            (ap (λ k. reset_run (pick k)) (sym e))
            (subst (λ hs. Emptied hs (reset_run c.chunk_buffer))
              (sym (append-nil (all_hashes c)) ∙ ap (λ k. all_hashes c ++ hashes k) (sym e))
              (reset (run c) (all_hashes c) (rewrite-Holds c)))
      go (fc ∷ fcs) e =
          let q : Capping = record c { chunk_buffer = c.chunk_buffer ++ (cl ∷ []) } in
          subst (λ o. Emptied (all_hashes c ++ hashes cl.chunks) o)
            (ap (λ k. reset_run (pick k)) (sym e))
            (subst (λ hs. Emptied hs (reset_run q.chunk_buffer)) (queued_hashes cl c)
              (reset (run q) (all_hashes q) (rewrite-Holds q)))

  -- A chunk that fits into the buffer alone, where the sum of both does not wrap.
  abbrev pub Fits : FingerChunk → Type 0
  Fits fc = (fc.chunklen ≤ buffer_capacity) × (fc.chunklen + buffer_capacity < 2 ^ 31)

  still_within :
      (fc : FingerChunk) (c : Capping) {n : ℕ}
      → Fits fc
      → c.buffer_length ≤ buffer_capacity
      → n ≡ (c.buffer_length + fc.chunklen) % 2 ^ 32
      → is_over container_name read_file max_refer_count buffer_capacity fc c ≡ false
      → n ≤ buffer_capacity
  still_within fc c h k e over = ground (arith, h, k, e, over)

  new_within :
      (fc : FingerChunk) (c : Capping) {n : ℕ}
      → Fits fc
      → c.buffer_length ≡ 0
      → n ≡ (c.buffer_length + fc.chunklen) % 2 ^ 32
      → n ≤ buffer_capacity
  new_within fc c h k e = omega (arith, h, k, e)

  pub buffer_chunks-Buffers :
      (fcs : List FingerChunk) (cl : ChunkList) (c : Capping)
      → All Fits fcs
      → c.buffer_length ≤ buffer_capacity
      → Buffers
          (all_hashes c ++ (hashes cl.chunks ++ hashes fcs))
          (buffer_chunks container_name read_file max_refer_count buffer_capacity fcs cl c)
  unfolding buffer_chunks hashes
  buffer_chunks-Buffers [] cl c h k =
      (queued_hashes cl c ∙ ap (λ x. all_hashes c ++ x) (sym (append-nil (hashes cl.chunks))), k)
  buffer_chunks-Buffers (fc ∷ fcs) cl c h k =
      elim (Bool-cases (is_over container_name read_file max_refer_count buffer_capacity fc c)) [
        | inl e ↦ rw e (
            roomy (make_room container_name read_file max_refer_count buffer_capacity cl c)
              (make_room-Emptied cl c) (λ cl' c' k'. buffer_chunks-Buffers fcs cl' c' h.1 k'))
        | inr e ↦
            let same = take_chunk_hashes fc cl c in
            rw e (
              subst (λ hs. Buffers hs (go_on cl c))
                (ap₂ (λ x y. x ++ y) same.0 (step_hashes fc fcs cl c))
                (buffer_chunks-Buffers fcs (took cl c).0 (took cl c).1 h.1
                  (still_within fc c h.0 k same.1 e)))
      ]
    where
      took : ChunkList → Capping → ChunkList × Capping
      took cl c = take_chunk container_name read_file max_refer_count buffer_capacity fc cl c

      go_on : ChunkList → Capping → Option Capping
      go_on cl c =
          buffer_chunks container_name read_file max_refer_count buffer_capacity fcs (took cl c).0
            (took cl c).1

      roomy :
          (o : Option Capping)
          → Emptied (all_hashes c ++ hashes cl.chunks) o
          → ((cl' : ChunkList) (c' : Capping)
              → c'.buffer_length ≤ buffer_capacity
              → Buffers (all_hashes c' ++ (hashes cl'.chunks ++ hashes fcs)) (
                  buffer_chunks container_name read_file max_refer_count buffer_capacity fcs cl'
                    c'))
          → Buffers
              (all_hashes c ++ (hashes cl.chunks ++ (fc.chunk_hash ∷ hashes fcs)))
              (elim o as (λ x. Option Capping) [
                | none ↦ none
                | some c' ↦
                    let (cl', c'') =
                      take_chunk container_name read_file max_refer_count buffer_capacity fc
                        (record cl { chunks = [] })
                        c' in
                    buffer_chunks container_name read_file max_refer_count buffer_capacity fcs cl'
                      c''
              ])
      roomy none b rest = tt
      roomy (some c') b rest =
          let empty : ChunkList = record cl { chunks = [] } in
          let same = take_chunk_hashes fc empty c' in
          subst (λ hs. Buffers hs (go_on empty c'))
            (ap₂ (λ x y. x ++ y) (same.0 ∙ b.0) (step_hashes fc fcs empty c')
              ∙ append_assoc (all_hashes c) (hashes cl.chunks) (fc.chunk_hash ∷ hashes fcs))
            (rest (took empty c').0 (took empty c').1 (new_within fc c' h.0 b.1 same.1))

  -- After a file whose chunks each fit into the buffer, where the length of a chunk and the
  -- capacity together are below 2^31, is processed without an error, the fingerprints that went
  -- through the buffer are the earlier ones and then the file's, in order, and the buffered bytes
  -- are within the capacity, as they were before.
  pub capping_process-hashes :
      (path : Bytes) (fcs : List FingerChunk) (c c' : Capping)
      → All Fits fcs
      → c.buffer_length ≤ buffer_capacity
      → capping_process container_name read_file max_refer_count buffer_capacity
          (some (path, fcs))
          c
        ≡ some c'
      → (all_hashes c' ≡ all_hashes c ++ hashes fcs) × (c'.buffer_length ≤ buffer_capacity)
  unfolding capping_process hashes
  capping_process-hashes path fcs c c' h k e =
      subst (Buffers (all_hashes c ++ hashes fcs)) e
        (buffer_chunks-Buffers fcs (record { path = path; chunks = [] }) c h k)
