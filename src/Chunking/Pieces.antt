-- ===== src/Chunking/Pieces.antt =====
-- client/src/backup.c, `chunk_file`: the chunks of a file are its consecutive pieces.
use tcbackup.Prelude.{
  ℕ, zero, suc, ◌+◌, ◌≤◌, ◌<◌, ◌≡◌, refl, sym, ap, ◌∙◌, inl, inr, ◌&&◌, List, [], ◌∷◌, ◌++◌, arith,
  Bytes, length, take, drop, length-append, length-take, length-drop, take-append-drop, take_all,
  ltb, ◌==◌, Bool-cases, slice-append, drop-append_left, drop_all, ltb→lt, take_short,
}
use tcbackup.Chunking.{
  Tables, Window, chunk_data, new_piece, cut_block, last_piece, cut_file, chunk_file,
  min_chunk_size, max_chunk_size, windows_reset,
}
use tcbackup.Chunking.Cut.{IsStop, chunk_data-IsStop, IsStop-pos, IsStop-le}
use mathlib.Core.List.{append_assoc, append-nil}
use mathlib.Core.Path.{subst}
use tcbackup.Dedup.{FingerChunk}

module _ (sha1 : Bytes → Bytes) where
  -- The chunks are the pieces of the content from an offset on, one after the other, none empty,
  -- each named by its hash, and nothing is left.
  unfoldable pub IsSplit : Bytes → ℕ → List FingerChunk → Type 0
  IsSplit content start [] = content ≡ []
  IsSplit content start (fc ∷ fcs) =
      (fc.offset ≡ start)
      × (fc.chunk_hash ≡ sha1 (take fc.chunklen content))
      × (0 < fc.chunklen)
      × (fc.chunklen ≤ length content)
      × IsSplit (drop fc.chunklen content) (start + fc.chunklen) fcs

  new_piece-IsSplit :
      (src rest : Bytes) (size start : ℕ) (fcs : List FingerChunk)
      → 0 < size
      → size ≤ length src
      → IsSplit (drop size src ++ rest) (start + size) fcs
      → IsSplit (src ++ rest) start (new_piece sha1 (take size src) start ∷ fcs)
  unfolding IsSplit new_piece
  new_piece-IsSplit src rest size start fcs pos h more =
      let e : length (take size src) ≡ size = length-take size src h in
      (
        refl,
        rw (e, slice-append 0 size src rest (omega arith)) refl,
        rw e pos,
        rw (e, length-append src rest) (omega arith),
        rw (e, drop-append_left size src rest h) more,
      )

  cut_block-IsSplit :
      (tables : Tables) (fuel : ℕ) (src rest : Bytes) (start : ℕ) (w : Window)
      (more : List FingerChunk)
      → let r = cut_block tables sha1 fuel src start w in
        IsSplit (r.1 ++ rest) r.2 more → IsSplit (src ++ rest) start (r.0 ++ more)
  unfolding cut_block
  cut_block-IsSplit tables zero src rest start w more = λ h. h
  cut_block-IsSplit tables (suc fuel) [] rest start w more = λ h. h
  cut_block-IsSplit tables (suc fuel) (m ∷ src) rest start w more =
      let n = length (m ∷ src) in
      let size = (chunk_data tables (m ∷ src) n w).0 in
      let w' = (chunk_data tables (m ∷ src) n w).1 in
      let stop : IsStop 1 n size =
        chunk_data-IsStop tables (m ∷ src) n w (omega arith) (omega arith) in
      elim (Bool-cases (n == size && ltb n max_chunk_size)) [
        | inl e ↦ rw e (λ h. h)
        | inr e ↦ rw e (λ h.
            new_piece-IsSplit (m ∷ src) rest size start _ (IsStop-pos n size stop)
              (IsStop-le n size stop)
              (cut_block-IsSplit tables fuel (drop size (m ∷ src)) rest (start + size) w' more h))
      ]

  last_piece-IsSplit : (src : Bytes) (start : ℕ) → IsSplit src start (last_piece sha1 src start)
  unfolding IsSplit last_piece new_piece
  last_piece-IsSplit [] start = refl
  last_piece-IsSplit (m ∷ src) start = (
    refl,
    ap (λ c. sha1 (m ∷ c)) (sym (take_all (length src) src (omega arith))),
    omega arith,
    omega arith,
    drop_all (length src) src (omega arith),
  )

  cut_file-IsSplit :
      (tables : Tables) (fuel : ℕ) (left file : Bytes) (start : ℕ) (w : Window)
      → length file < fuel
      → IsSplit (left ++ file) start (cut_file tables sha1 fuel left file start w)
  unfolding cut_file
  cut_file-IsSplit tables zero left file start w h = absurd (omega arith)
  cut_file-IsSplit tables (suc fuel) left [] start w h =
      rw (append-nil left) (last_piece-IsSplit left start)
  cut_file-IsSplit tables (suc fuel) left (m ∷ file) start w h =
      let block = take max_chunk_size (m ∷ file) in
      let src = left ++ block in
      let tail = drop max_chunk_size (m ∷ file) in
      let r = cut_block tables sha1 (length src) src start w in
      let fewer : length tail < fuel = omega (arith, length-drop max_chunk_size (m ∷ file)) in
      elim (Bool-cases (ltb (length src) min_chunk_size)) [
        | inl e ↦
            let fits : length src < min_chunk_size = ltb→lt _ _ e in
            let all : block ≡ m ∷ file =
              take_short max_chunk_size (m ∷ file)
                (omega (arith, fits, length-append left block)) in
            rw e (
              subst (λ c. IsSplit (left ++ c) start (last_piece sha1 src start)) all
                (last_piece-IsSplit src start))
        | inr e ↦ rw e (
            subst (λ c. IsSplit c start (r.0 ++ cut_file tables sha1 fuel r.1 tail r.2 r.3))
              (append_assoc left block tail
                ∙ ap (λ c. left ++ c) (take-append-drop max_chunk_size (m ∷ file)))
              (cut_block-IsSplit tables (length src) src tail start w _
                (cut_file-IsSplit tables fuel r.1 tail r.2 r.3 fewer)))
      ]

  -- The chunks of a file are its consecutive pieces: the first is at offset 0, each begins where
  -- the one before ends, none is empty, each is named by the hash of its bytes, and together they
  -- are the whole file.
  pub chunk_file-IsSplit :
      (tables : Tables) (file : Bytes) (w : Window) → IsSplit file 0 (chunk_file tables sha1 file w)
  unfolding chunk_file
  chunk_file-IsSplit tables file w =
      cut_file-IsSplit tables (length file + 1) [] file 0 (windows_reset w) (omega arith)
