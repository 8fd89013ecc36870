-- ===== src/Chunking/Cut.antt =====
-- client/lib/rabin.c, `chunk_data`: where it cuts.
use tcbackup.Prelude.{
  ℕ, zero, suc, ◌+◌, ◌≤◌, ◌<◌, ◌≡◌, ◌⊎◌, inl, inr, true, false, ◌&&◌, [], ◌∷◌, arith, Bytes, length,
  take, length-take, ltb, ◌==◌, Bool-cases,
}
use tcbackup.Chunking.{
  Tables, Window, slide, is_cut, chunk_loop, chunk_data, min_chunk_size, max_chunk_size, true,
  false,
}

-- The byte number at which the loop stops: one of the bytes looked at, within the largest size,
-- and at least the smallest unless it is the last byte.
unfoldable pub IsStop : ℕ → ℕ → ℕ → Type 0
IsStop i n size =
    (i ≤ size) × (size ≤ n) × (size ≤ max_chunk_size) × ((size ≡ n) ⊎ (min_chunk_size ≤ size))

is_cut-IsStop :
    (w : Window) (i n : ℕ) → i ≤ n → i ≤ max_chunk_size → is_cut w i n ≡ true → IsStop i n i
unfolding is_cut IsStop
is_cut-IsStop w i n le most h = ground arith

is_cut-false :
    (w : Window) (i n : ℕ) → i ≤ n → is_cut w i n ≡ false → (i < n) × (i < max_chunk_size)
unfolding is_cut
is_cut-false w i n le h = ground arith

IsStop-earlier : (i n size : ℕ) → IsStop (i + 1) n size → IsStop i n size
unfolding IsStop
IsStop-earlier i n size h = ground arith

chunk_loop-IsStop :
    (tables : Tables) (m : ℕ) (p : Bytes) (i n : ℕ) (w : Window)
    → length p + i ≡ n
    → i ≤ max_chunk_size
    → IsStop i n (chunk_loop tables (m ∷ p) i n w).0
unfolding chunk_loop
chunk_loop-IsStop tables m [] i n w len most =
    let w' : Window = slide tables m w in
    elim (Bool-cases (is_cut w' i n)) [
      | inl e ↦ rw e (is_cut-IsStop w' i n (omega arith) most e)
      | inr e ↦ absurd (omega (arith, is_cut-false w' i n (omega arith) e))
    ]
chunk_loop-IsStop tables m (m' ∷ p) i n w len most =
    let w' : Window = slide tables m w in
    elim (Bool-cases (is_cut w' i n)) [
      | inl e ↦ rw e (is_cut-IsStop w' i n (omega arith) most e)
      | inr e ↦ rw e (
          IsStop-earlier i n _ (
            chunk_loop-IsStop tables m' p (i + 1) n w' (omega arith)
              (omega (arith, is_cut-false w' i n (omega arith) e))))
    ]

-- A call of chunk_data on a block that is not empty gives a size that is positive, within the
-- block and the largest chunk, and below the smallest chunk only if it is the whole block.
pub chunk_data-IsStop :
    (tables : Tables) (p : Bytes) (n : ℕ) (w : Window)
    → 0 < n
    → n ≤ length p
    → IsStop 1 n (chunk_data tables p n w).0
unfolding chunk_data
chunk_data-IsStop tables p zero w pos h = absurd (omega arith)
chunk_data-IsStop tables [] (suc n) w pos h = absurd (omega arith)
chunk_data-IsStop tables (m ∷ p) (suc n) w pos h =
    chunk_loop-IsStop tables m (take n p) 1 (suc n) w (omega (arith, length-take n p (omega arith)))
      (omega arith)

pub IsStop-pos : (n size : ℕ) → IsStop 1 n size → 0 < size
unfolding IsStop
IsStop-pos n size h = ground arith

pub IsStop-le : (n size : ℕ) → IsStop 1 n size → size ≤ n
unfolding IsStop
IsStop-le n size h = h.1

-- A size at which a chunk is cut off.
pub IsStop-bounds :
    (n size : ℕ)
    → IsStop 1 n size
    → (n == size && ltb n max_chunk_size) ≡ false
    → (min_chunk_size ≤ size) × (size ≤ max_chunk_size)
unfolding IsStop
IsStop-bounds n size h e = ground arith
