-- ===== src/Network.antt =====
-- client/lib/bnet.c, of which server/lib/bnet.c is a copy: messages with a length before them, on a
-- connection that takes and gives bytes in pieces of any size.
-- What `read` and `write` meet on a socket is a list: a call is interrupted or fails, or some bytes
-- go through. Where the list of a reader ends the other side has closed the connection; where that
-- of a writer ends all that is left goes through. ERROR is `none` or `error`. A length is the bit
-- pattern of an `int`. A buffer is as long as the message that comes.
pub mod Streams
pub mod Frames
pub mod Cut
pub mod Chunks
pub mod Files
use tcbackup.Prelude.{
  ℕ, zero, suc, ◌+◌, ◌-◌, ◌*◌, ◌/◌, ◌%◌, ◌^◌, Bool, true, false, ◌||◌, Option, none, some, List, [],
  ◌∷◌, ◌++◌, Bytes, if◌then◌else◌, leb, ◌==◌, length, take, drop, get_or,
}

-- A call of `read`: at least one byte, EINTR, or another error.
pub data Arrival : Type 0 where
  piece : ℕ → Bytes → Arrival
  interrupted : Arrival
  failed : Arrival

-- A call of `write`: one byte and so many more, EINTR, or an error or nothing written.
pub data Departure : Type 0 where
  takes : ℕ → Departure
  blocked : Departure
  broken : Departure

unfoldable pub put_before : Bytes → Option Bytes → Option Bytes
put_before bs none = none
put_before bs (some more) = some (bs ++ more)

-- What is read, `none` for ERROR, and what is left on the connection.
unfoldable pub readn : ℕ → List Arrival → Option Bytes × List Arrival
unfolding put_before
readn zero arrivals = (some [], arrivals)
readn (suc n) [] = (some [], [])
readn (suc n) (failed ∷ arrivals) = (none, arrivals)
readn (suc n) (interrupted ∷ arrivals) = readn (suc n) arrivals
readn (suc n) (piece b bs ∷ arrivals) =
    let (more, left) = readn (n - length bs) arrivals in
    elim (drop n bs) [
      | [] ↦ (put_before (b ∷ bs) more, left)
      | b' ∷ bs' ↦ (some (b ∷ take n bs), piece b' bs' ∷ arrivals)
    ]

-- Whether all was written, and the bytes that went through.
unfoldable pub writen : Bytes → List Departure → Bool × Bytes × List Departure
writen [] departures = (true, [], departures)
writen (b ∷ msg) [] = (true, b ∷ msg, [])
writen (b ∷ msg) (broken ∷ departures) = (false, [], departures)
writen (b ∷ msg) (blocked ∷ departures) = writen (b ∷ msg) departures
writen (b ∷ msg) (takes k ∷ departures) =
    let (all, sent, left) = writen (drop k msg) departures in (all, b ∷ take k msg ++ sent, left)

-- `htonl` and `ntohl`.
unfoldable pub be32 : ℕ → Bytes
be32 n = n / 16777216 % 256 ∷ n / 65536 % 256 ∷ n / 256 % 256 ∷ n % 256 ∷ []

unfoldable pub un_be32 : Bytes → ℕ
un_be32 b = get_or b 0 0 * 16777216 + get_or b 1 0 * 65536 + get_or b 2 0 * 256 + get_or b 3 0

-- The result, the bytes that went through, and what is left of the list.
unfoldable pub bnet_send : Bytes → List Departure → Option ℕ × Bytes × List Departure
unfolding writen be32
bnet_send msg departures =
    let (header, sent, left) = writen (be32 (length msg)) departures in
    let (all, sent', left') = writen msg left in
    if header
    then ((if all then some (length msg) else none), sent ++ sent', left')
    else (none, sent, left)

unfoldable pub bnet_signal : ℕ → List Departure → Option ℕ × Bytes × List Departure
unfolding writen be32
bnet_signal sig departures =
    let (all, sent, left) = writen (be32 sig) departures in
    ((if all then some 0 else none), sent, left)

-- The result of `bnet_recv`: ERROR, a length that is not positive, or a message: what `len` is set
-- to, and the bytes read, whose number is returned.
pub data Received : Type 0 where
  error : Received
  signal : ℕ → Received
  message : ℕ → Bytes → Received

unfoldable pub recv_body : ℕ → List Arrival → Received × List Arrival
unfolding readn
recv_body n arrivals =
    let (msg, left) = readn n arrivals in
    (elim msg [ none ↦ error | some bytes ↦ message n bytes ], left)

-- After the header: a length that is not positive is returned.
unfoldable pub recv_sized : ℕ → List Arrival → Received × List Arrival
unfolding recv_body
recv_sized n arrivals =
    if n == 0 || leb (2 ^ 31) n then (signal n, arrivals) else recv_body n arrivals

unfoldable pub bnet_recv : List Arrival → Received × List Arrival
unfolding readn recv_sized un_be32
bnet_recv arrivals =
    let (header, left) = readn 4 arrivals in
    elim header [
      | none ↦ (error, left)
      | some bytes ↦ if length bytes == 4 then recv_sized (un_be32 bytes) left else (error, left)
    ]
