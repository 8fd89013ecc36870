-- ===== src/Network/Chunks/RoundTrip.antt =====
-- The chunks that the client sends are those that the server receives.
use tcbackup.Prelude.{
  ℕ, ◌^◌, ◌<◌, ◌≡◌, refl, sym, ap, ap₂, ◌∙◌, true, false, List, [], ◌∷◌, ◌++◌, arith, Bytes, length,
  length-append, le32, un_le32, is_neg32, un_le32-le32, All,
}
use mathlib.Core.List.{append-nil}
use tcbackup.Network.{Departure, bnet_send}
use tcbackup.Network.Streams.{IsWritable}
use tcbackup.Network.Frames.{frame, bnet_send-IsWritable}
use tcbackup.Container.{finger_length}
use tcbackup.Binning.{chunk_address_length}
use tcbackup.Network.Chunks.{
  ChunkInfo, entry, send_chunks, send_chunk_info, le64, loop_count, sent_false,
}

abbrev pub IsWhole : ChunkInfo → Type 0
IsWhole fc = (length fc.0 ≡ finger_length) × (length fc.1 ≡ chunk_address_length)

unfoldable pub frames : List ChunkInfo → Bytes
frames [] = []
frames (fc ∷ fcs) = frame (entry fc) ++ frames fcs

length-entry : (fc : ChunkInfo) → IsWhole fc → length (entry fc) ≡ 84
unfolding entry
length-entry fc h = omega (arith, h, length-append fc.0 fc.1)

send_chunks-frames :
    (fcs : List ChunkInfo) (departures : List Departure)
    → All IsWhole fcs
    → IsWritable departures
    → ((send_chunks fcs departures).0 ≡ true)
      × ((send_chunks fcs departures).1 ≡ frames fcs)
      × IsWritable (send_chunks fcs departures).2
unfolding send_chunks frames sent_false
send_chunks-frames [] departures w h = (refl, refl, h)
send_chunks-frames (fc ∷ fcs) departures (whole, w) h =
    let (all, sent, left) = bnet_send-IsWritable (entry fc) departures h in
    let (ok, more, left') = send_chunks-frames fcs (bnet_send (entry fc) departures).2 w left in
    let truly : sent_false (bnet_send (entry fc) departures).0 ≡ false =
      ap sent_false all ∙ ground (arith, length-entry fc whole) in
    rw truly (ok, ap₂ ◌++◌ sent more, left')

pub loop_count-le32 : (n : ℕ) → n < 2 ^ 31 → loop_count (un_le32 (le32 n)) ≡ n
unfolding loop_count
loop_count-le32 n h =
    let whole : un_le32 (le32 n) ≡ n =
      ap un_le32 (sym (append-nil (le32 n))) ∙ un_le32-le32 n [] (omega arith) in
    let positive : is_neg32 n ≡ false = ground arith in ap loop_count whole ∙ rw positive refl

pub length-le64 : (n : ℕ) → length (le64 n) ≡ 8
unfolding le64 le32
length-le64 n = refl

-- What `send_chunk_info` sends.
pub send_chunk_info-frames :
    (fcs : List ChunkInfo) (departures : List Departure)
    → All IsWhole fcs
    → IsWritable departures
    → ((send_chunk_info fcs departures).0 ≡ true)
      × ((send_chunk_info fcs departures).1 ≡ frame (le64 (length fcs)) ++ frames fcs)
unfolding send_chunk_info sent_false
send_chunk_info-frames fcs departures w h =
    let n = le64 (length fcs) in
    let (all, sent, left) = bnet_send-IsWritable n departures h in
    let (ok, more, left') = send_chunks-frames fcs (bnet_send n departures).2 w left in
    let truly : sent_false (bnet_send n departures).0 ≡ false =
      ap sent_false all ∙ ground (arith, length-le64 (length fcs)) in
    rw (truly, send_chunk_info) (ok, ap₂ ◌++◌ sent more)
