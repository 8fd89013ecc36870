-- ===== src/Chunking/Bounds.antt =====
-- client/src/backup.c, `chunk_file`: the sizes of the chunks, and of the blocks in memory.
use tcbackup.Prelude.{
  ℕ, zero, suc, ◌+◌, ◌*◌, ◌≤◌, ◌<◌, ◌≡◌, inl, inr, true, ◌&&◌, List, [], ◌∷◌, ◌++◌, arith, Bytes,
  length, take, drop, length-append, length-take, length-drop, ltb, ◌==◌, Bool-cases,
  length-take_le, ltb→lt,
}
use tcbackup.Chunking.{
  min_chunk_size, max_chunk_size, Tables, cut_block, cut_block, new_piece, Window, chunk_data,
  chunk_data, last_piece, cut_file, chunk_file, windows_reset,
}
use tcbackup.Chunking.Cut.{IsStop, chunk_data-IsStop, IsStop-bounds, IsStop-pos, IsStop-le}
use tcbackup.Dedup.{FingerChunk}

-- Within the largest size, and all but the last chunk at least of the smallest.
unfoldable pub IsBounded : List FingerChunk → Type 0
IsBounded [] = Unit
IsBounded (fc ∷ []) = fc.chunklen ≤ max_chunk_size
IsBounded (fc ∷ fc' ∷ fcs) =
    (min_chunk_size ≤ fc.chunklen) × (fc.chunklen ≤ max_chunk_size) × IsBounded (fc' ∷ fcs)

nothing : IsBounded []
unfolding IsBounded
nothing = tt

IsBounded-cons :
    (fc : FingerChunk) (fcs : List FingerChunk)
    → min_chunk_size ≤ fc.chunklen
    → fc.chunklen ≤ max_chunk_size
    → IsBounded fcs
    → IsBounded (fc ∷ fcs)
unfolding IsBounded
IsBounded-cons fc [] least most h = most
IsBounded-cons fc (fc' ∷ fcs) least most h = (least, most, h)

below_most : (n size : ℕ) → (n == size && ltb n max_chunk_size) ≡ true → n < max_chunk_size
below_most n size e = ground arith

module _ (tables : Tables) (sha1 : Bytes → Bytes) where
  cut_block-IsBounded :
      (fuel : ℕ) (src : Bytes) (start : ℕ) (w : Window) (more : List FingerChunk)
      → IsBounded more
      → IsBounded ((cut_block tables sha1 fuel src start w).0 ++ more)
  unfolding cut_block new_piece
  cut_block-IsBounded zero src start w more h = h
  cut_block-IsBounded (suc fuel) [] start w more h = h
  cut_block-IsBounded (suc fuel) (m ∷ src) start w more h =
      let n = length (m ∷ src) in
      let size = (chunk_data tables (m ∷ src) n w).0 in
      let w' = (chunk_data tables (m ∷ src) n w).1 in
      let stop : IsStop 1 n size =
        chunk_data-IsStop tables (m ∷ src) n w (omega arith) (omega arith) in
      elim (Bool-cases (n == size && ltb n max_chunk_size)) [
        | inl e ↦ rw e h
        | inr e ↦
            let len : length (take size (m ∷ src)) ≡ size =
              length-take size (m ∷ src) (IsStop-le n size stop) in
            rw e (
              IsBounded-cons (new_piece sha1 (take size (m ∷ src)) start) _
                (rw len (IsStop-bounds n size stop e).0) (rw len (IsStop-bounds n size stop e).1)
                (cut_block-IsBounded fuel (drop size (m ∷ src)) (start + size) w' more h))
      ]

  -- What is left of a block is less than the largest chunk.
  cut_block-left :
      (fuel : ℕ) (src : Bytes) (start : ℕ) (w : Window)
      → length src ≤ fuel
      → length (cut_block tables sha1 fuel src start w).1 < max_chunk_size
  unfolding cut_block
  cut_block-left zero [] start w h = omega arith
  cut_block-left zero (m ∷ src) start w h = absurd (omega arith)
  cut_block-left (suc fuel) [] start w h = omega arith
  cut_block-left (suc fuel) (m ∷ src) start w h =
      let n = length (m ∷ src) in
      let size = (chunk_data tables (m ∷ src) n w).0 in
      let w' = (chunk_data tables (m ∷ src) n w).1 in
      let stop : IsStop 1 n size =
        chunk_data-IsStop tables (m ∷ src) n w (omega arith) (omega arith) in
      elim (Bool-cases (n == size && ltb n max_chunk_size)) [
        | inl e ↦ rw e (below_most n size e)
        | inr e ↦ rw e (
            cut_block-left fuel (drop size (m ∷ src)) (start + size) w'
              (omega (arith, length-drop size (m ∷ src), IsStop-pos n size stop)))
      ]

  -- What a block of any size leaves over and the next block of at most 65536 bytes fit together in
  -- the buffer of twice 65536 bytes.
  pub cut_block-room :
      (src file : Bytes) (start : ℕ) (w : Window)
      → length ((cut_block tables sha1 (length src) src start w).1 ++ take max_chunk_size file)
        ≤ max_chunk_size * 2
  cut_block-room src file start w =
      let left = (cut_block tables sha1 (length src) src start w).1 in
      omega (
        arith,
        length-append left (take max_chunk_size file),
        length-take_le max_chunk_size file,
        cut_block-left (length src) src start w (omega arith),
      )

  last_piece-IsBounded :
      (src : Bytes) (start : ℕ)
      → length src ≤ max_chunk_size
      → IsBounded (last_piece sha1 src start)
  unfolding last_piece IsBounded new_piece
  last_piece-IsBounded [] start h = tt
  last_piece-IsBounded (m ∷ src) start h = h

  cut_file-IsBounded :
      (fuel : ℕ) (left file : Bytes) (start : ℕ) (w : Window)
      → length left < max_chunk_size
      → IsBounded (cut_file tables sha1 fuel left file start w)
  unfolding cut_file
  cut_file-IsBounded zero left file start w h = nothing
  cut_file-IsBounded (suc fuel) left [] start w h = last_piece-IsBounded left start (omega arith)
  cut_file-IsBounded (suc fuel) left (m ∷ file) start w h =
      let src = left ++ take max_chunk_size (m ∷ file) in
      let tail = drop max_chunk_size (m ∷ file) in
      let r = cut_block tables sha1 (length src) src start w in
      elim (Bool-cases (ltb (length src) min_chunk_size)) [
        | inl e ↦
            let fits : length src < min_chunk_size = ltb→lt _ _ e in
            rw e (last_piece-IsBounded src start (omega (arith, fits)))
        | inr e ↦ rw e (
            cut_block-IsBounded (length src) src start w _ (
              cut_file-IsBounded fuel r.1 tail r.2 r.3
                (cut_block-left (length src) src start w (omega arith))))
      ]

  -- Every chunk of a file has at most 65536 bytes, and every chunk but the last at least 2048.
  pub chunk_file-IsBounded : (file : Bytes) (w : Window) → IsBounded (chunk_file tables sha1 file w)
  unfolding chunk_file
  chunk_file-IsBounded file w =
      cut_file-IsBounded (length file + 1) [] file 0 (windows_reset w) (omega arith)
