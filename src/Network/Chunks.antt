-- ===== src/Network/Chunks.antt =====
-- The chunks of a file in messages: client/src/chunkdedup.c, `update_file_recipe` (its loop over the chunks),
-- and server/src/backup.c, `recv_deplicate_chunk` and `send_chunk_info`.
-- A chunk is its fingerprint and its address, arrays of 20 and 64 bytes. An `int` is its bit pattern. A buffer
-- has room for the 84 bytes of a chunk, and what a longer message overruns is not modelled; so the client's
-- `recv_deplicate_chunk`, which takes the 8 bytes of `send_chunk_info` into an `int`, has no model. The
-- tests `err == false` see a result 0 only: an ERROR of `bnet_send` or `bnet_recv` passes.
pub mod RoundTrip
use tcbackup.Prelude.{
  ℕ, zero, suc, ◌+◌, ◌-◌, ◌*◌, ◌/◌, ◌%◌, ◌^◌, ◌≤◌, ◌<◌, ◌≡◌, refl, sym, ap, ap₂, ◌∙◌, ◌≢◌, ◌↔◌, ◌⊎◌,
  inl, inr, Bool, true, false, ◌&&◌, ◌||◌, not, Option, none, some, List, [], ◌∷◌, ◌++◌, map, arith,
  Bytes, bytes_eq, length, take, drop, replicate, set, get_or, length-append, length-take,
  length-drop, length-replicate, take-append-drop, take_all, take_front, drop_front, drop-drop, ltb,
  leb, ◌==◌, if◌then◌else◌, tests, le32, un_le32, is_neg32, Bool-cases, Option-cases, All,
}
use tcbackup.Binning.{chunk_address_length}
use tcbackup.Container.{finger_length}
use tcbackup.Network.{Arrival, Departure, Received, error, signal, message, bnet_send, bnet_recv}

abbrev pub ChunkInfo : Type 0
ChunkInfo = Bytes × Bytes

-- An `int64_t` in memory, in little-endian order.
unfoldable pub le64 : ℕ → Bytes
unfolding le32
le64 n = le32 (n % 2 ^ 32) ++ le32 (n / 2 ^ 32)

-- `err == false` for a result of `bnet_send`.
unfoldable pub sent_false : Option ℕ → Bool
sent_false none = false
sent_false (some n) = n == 0

-- The buffer with a fingerprint and its address.
unfoldable pub entry : ChunkInfo → Bytes
entry (hash, address) = hash ++ address

-- The loop over the chunks of a recipe, on client and server: success, the bytes that went through.
unfoldable pub send_chunks : List ChunkInfo → List Departure → Bool × Bytes × List Departure
unfolding bnet_send entry sent_false
send_chunks [] departures = (true, [], departures)
send_chunks (fc ∷ fcs) departures =
    let (err, sent, left) = bnet_send (entry fc) departures in
    let (ok, more, left') = send_chunks fcs left in
    if sent_false err then (false, sent, left) else (ok, sent ++ more, left')

unfoldable pub send_chunk_info : List ChunkInfo → List Departure → Bool × Bytes × List Departure
unfolding send_chunks le64
send_chunk_info fcs departures =
    let (err, sent, left) = bnet_send (le64 (length fcs)) departures in
    let (ok, more, left') = send_chunks fcs left in
    if sent_false err then (false, sent, left) else (ok, sent ++ more, left')

-- The buffer after a message, or as it was; `none` where the result is 0.
unfoldable pub received_into : Bytes → Received → Option Bytes
received_into buf error = some buf
received_into buf (signal n) = if n == 0 then none else some buf
received_into buf (message n msg) = some (take (length buf) (msg ++ drop (length msg) buf))

unfoldable pub chunk_info : Bytes → ChunkInfo
chunk_info buf = (take finger_length buf, take chunk_address_length (drop finger_length buf))

-- The loop of `recv_deplicate_chunk`: `none` for failure.
unfoldable pub recv_chunks : ℕ → List Arrival → Option (List ChunkInfo) × List Arrival
unfolding bnet_recv received_into chunk_info
recv_chunks zero arrivals = (some [], arrivals)
recv_chunks (suc n) arrivals =
    let (got, left) = bnet_recv arrivals in
    let (more, left') = recv_chunks n left in
    elim (received_into (replicate 84 0) got) [
      | none ↦ (none, left)
      | some buf ↦ (elim more [ none ↦ none | some fcs ↦ some (chunk_info buf ∷ fcs) ], left')
    ]

-- An `int` as the bound of a loop.
unfoldable pub loop_count : ℕ → ℕ
loop_count n = if is_neg32 n then 0 else n

-- `recv_deplicate_chunk` of the server, which was told the number of chunks.
unfoldable pub recv_deplicate_chunk : ℕ → List Arrival → Option (List ChunkInfo) × List Arrival
unfolding recv_chunks loop_count
recv_deplicate_chunk chunknum arrivals = recv_chunks (loop_count chunknum) arrivals
