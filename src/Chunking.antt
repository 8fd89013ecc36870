-- ===== src/Chunking.antt =====
-- client/lib/rabin.c, the rolling hash and `chunk_data`, and client/src/backup.c, `chunk_file`: a
-- file is read in blocks and cut where the hash of the last 48 bytes has a certain value.
-- The tables T and U and the shift are what `window_init` computes. The position
-- in the ring is kept as `bufpos + 1`, since `bufpos` starts at -1. SHA-1 is a parameter, and the
-- reads of the file succeed. A hash keeps its 64 bits.
pub mod Cut
pub mod Pieces
pub mod Bounds
use tcbackup.Dedup.{ChunkState, new_chunk, FingerChunk}
use tcbackup.Prelude.{
  ℕ, zero, suc, ◌+◌, ◌-◌, ◌*◌, ◌/◌, ◌%◌, ◌^◌, Bool, true, false, ◌&&◌, ◌||◌, List, [], ◌∷◌, ◌++◌,
  Bytes, bit_and, bit_or, bit_xor, if◌then◌else◌, ltb, leb, ◌==◌, length, get_or, set, take, drop,
  replicate,
}

abbrev pub min_chunk_size : ℕ
min_chunk_size = 2048

abbrev pub max_chunk_size : ℕ
max_chunk_size = 65536

abbrev pub window_size : ℕ
window_size = 48

pub record Tables : Type 0 where
  pub t_table : List ℕ
  pub u_table : List ℕ
  pub shift : ℕ

pub record Window : Type 0 where
  pub fingerprint : ℕ
  pub next_pos : ℕ
  pub buf : Bytes

-- `windows_reset`: the position stays.
unfoldable pub windows_reset : Window → Window
windows_reset w = record w { fingerprint = 0; buf = replicate window_size 0 }

-- The macro SLIDE.
unfoldable pub slide : Tables → ℕ → Window → Window
slide tables m w =
    let pos = if leb window_size w.next_pos then 0 else w.next_pos in
    let om = get_or w.buf pos 0 in
    let f = bit_xor w.fingerprint (get_or tables.u_table om 0) in
    let x = f / 2 ^ tables.shift in
    record {
      fingerprint = bit_xor (bit_or (f * 256 % 2 ^ 64) m) (get_or tables.t_table x 0);
      next_pos = pos + 1;
      buf = set w.buf pos m;
    }

-- The test for a cut, after byte number `i` of `n`.
unfoldable pub is_cut : Window → ℕ → ℕ → Bool
is_cut w i n =
    (bit_and w.fingerprint 8191 == 120 && leb min_chunk_size i) || (leb max_chunk_size i || i == n)

-- The loop of `chunk_data` from byte number `i` on; after the last byte `i` is n + 1.
unfoldable pub chunk_loop : Tables → Bytes → ℕ → ℕ → Window → ℕ × Window
unfolding slide is_cut
chunk_loop tables [] i n w = (i, w)
chunk_loop tables (m ∷ p) i n w =
    let w' = slide tables m w in
    let rest = chunk_loop tables p (i + 1) n w' in if is_cut w' i n then (i, w') else rest

unfoldable pub chunk_data : Tables → Bytes → ℕ → Window → ℕ × Window
unfolding chunk_loop
chunk_data tables p n w = chunk_loop tables (take n p) 1 n w

module _ (sha1 : Bytes → Bytes) where
  unfoldable pub new_piece : Bytes → ℕ → FingerChunk
  new_piece content offset = record {
    chunk_hash = sha1 content;
    is_new = new_chunk;
    chunklen = length content;
    offset = offset;
    chunkaddress = replicate 64 0;
  }

  -- What is left after the last block.
  unfoldable pub last_piece : Bytes → ℕ → List FingerChunk
  unfolding new_piece
  last_piece [] offset = []
  last_piece (m ∷ src) offset = new_piece (m ∷ src) offset ∷ []

module _ (tables : Tables) (sha1 : Bytes → Bytes) where
  -- The loop over a block, with enough fuel for a byte each time: the chunks, the bytes left over,
  -- the offset and the window after them.
  unfoldable pub cut_block : ℕ → Bytes → ℕ → Window → List FingerChunk × Bytes × ℕ × Window
  unfolding chunk_data new_piece
  cut_block zero src offset w = ([], src, offset, w)
  cut_block (suc fuel) [] offset w = ([], [], offset, w)
  cut_block (suc fuel) (m ∷ src) offset w =
      let n = length (m ∷ src) in
      let (size, w') = chunk_data tables (m ∷ src) n w in
      let (fcs, left, offset', w'') = cut_block fuel (drop size (m ∷ src)) (offset + size) w' in
      if n == size && ltb n max_chunk_size
      then ([], m ∷ src, offset, w')
      else (new_piece sha1 (take size (m ∷ src)) offset ∷ fcs, left, offset', w'')

  -- The loop over the blocks of the file, with the bytes left over from the block before. The fuel
  -- is more than the bytes to be read.
  unfoldable pub cut_file : ℕ → Bytes → Bytes → ℕ → Window → List FingerChunk
  unfolding cut_block last_piece
  cut_file zero left file offset w = []
  cut_file (suc fuel) left [] offset w = last_piece sha1 left offset
  cut_file (suc fuel) left (m ∷ file) offset w =
      let src = left ++ take max_chunk_size (m ∷ file) in
      let (fcs, left', offset', w') = cut_block (length src) src offset w in
      let rest = cut_file fuel left' (drop max_chunk_size (m ∷ file)) offset' w' in
      if ltb (length src) min_chunk_size then last_piece sha1 src offset else fcs ++ rest

  unfoldable pub chunk_file : Bytes → Window → List FingerChunk
  unfolding cut_file windows_reset
  chunk_file file w = cut_file (length file + 1) [] file 0 (windows_reset w)
