-- ===== src/Tests/Networks.antt =====
-- Messages in pieces, a message that is cut, a signal, and the chunks of a file.
use tcbackup.Prelude.{
  le32, map, length, ◌<◌, ◌^◌, ◌≡◌, refl, ap, some, List, [], ◌∷◌, ◌++◌, arith, Bytes, take,
  replicate,
}
use tcbackup.Network.{
  Arrival, piece, interrupted, Departure, takes, blocked, message, be32, bnet_send, bnet_signal,
  bnet_recv,
}
use tcbackup.Network.Streams.{arrived, IsOpen, IsWritable}
use tcbackup.Network.Frames.{frame, IsReceived, bnet_recv-bnet_send}
use tcbackup.Network.Cut.{received_part, bnet_recv_cut}
use tcbackup.Network.Chunks.{ChunkInfo}
use tcbackup.Network.Files.{success, send_job_info, recv_file_list}
use tcbackup.Network.Files.RoundTrip.{fileinfo, packed, recv_file_list-send_job_info}
use tcbackup.Tests.{hash_a, hash_b}

abbrev msg : Bytes
msg = 1 ∷ 2 ∷ 3 ∷ []

abbrev departures : List Departure
departures = takes 1 ∷ blocked ∷ takes 0 ∷ []

-- The header in two pieces, and the message with the next byte.
abbrev arrivals : List Arrival
arrivals = piece 0 (0 ∷ []) ∷ interrupted ∷ piece 0 (3 ∷ 1 ∷ []) ∷ piece 2 (3 ∷ 9 ∷ []) ∷ []

sent : (bnet_send msg departures).0 ≡ some 3
unfolding bnet_send
sent = refl

arrivals-IsOpen : IsOpen arrivals
unfolding IsOpen
arrivals-IsOpen = tt

all_arrived : arrived arrivals ≡ (bnet_send msg departures).1 ++ 9 ∷ []
unfolding arrived bnet_send
all_arrived = refl

bnet_recv-bnet_send_example : IsReceived (message 3 msg) (9 ∷ []) (bnet_recv arrivals)
bnet_recv-bnet_send_example =
    bnet_recv-bnet_send msg (9 ∷ []) departures arrivals 3 (omega arith) (omega arith) sent
      arrivals-IsOpen all_arrived

abbrev part : List Arrival
part = piece 0 (0 ∷ 0 ∷ 3 ∷ 1 ∷ []) ∷ []

part-IsOpen : IsOpen part
unfolding IsOpen
part-IsOpen = tt

all_of_part : arrived part ≡ take 5 (frame msg)
unfolding arrived frame be32
all_of_part = refl

bnet_recv_cut_example : (bnet_recv part).0 ≡ received_part 5 msg
bnet_recv_cut_example =
    bnet_recv_cut 5 msg part (omega arith) (omega arith) (omega arith) part-IsOpen all_of_part

abbrev ended : List Arrival
ended = piece 255 (255 ∷ 255 ∷ 255 ∷ []) ∷ []

signalled : (bnet_signal 4294967295 []).0 ≡ some 0
unfolding bnet_signal
signalled = refl

ended-IsOpen : IsOpen ended
unfolding IsOpen
ended-IsOpen = tt

all_of_ended : arrived ended ≡ (bnet_signal 4294967295 []).1 ++ []
unfolding arrived bnet_signal
all_of_ended = refl

abbrev infos : List ChunkInfo
infos = (hash_a, replicate 64 1) ∷ (hash_b, replicate 64 2) ∷ []

abbrev pieces : Bytes → List Arrival
pieces [] = []
pieces (b ∷ bs) = piece b [] ∷ pieces bs

pieces-IsOpen : (b : Bytes) → IsOpen (pieces b)
unfolding IsOpen
pieces-IsOpen [] = tt
pieces-IsOpen (x ∷ b) = pieces-IsOpen b

arrived-pieces : (b : Bytes) → arrived (pieces b) ≡ b
unfolding arrived
arrived-pieces [] = refl
arrived-pieces (x ∷ b) = ap (◌∷◌ x) (arrived-pieces b)

writable : IsWritable departures
unfolding IsWritable
writable = tt

abbrev files : List (Bytes × Bytes)
files = (hash_a, 47 ∷ 97 ∷ []) ∷ (hash_b, 47 ∷ 98 ∷ []) ∷ []

packed_short : length (packed files) < 2 ^ 31
unfolding packed fileinfo le32
packed_short = omega arith

recv_file_list-send_job_info_example :
    ((send_job_info (map fileinfo files) departures).0 ≡ success tt)
    × ((recv_file_list (pieces ((send_job_info (map fileinfo files) departures).1 ++ []))).0
        ≡ success files)
    × (arrived (recv_file_list (pieces ((send_job_info (map fileinfo files) departures).1 ++ []))).1
        ≡ [])
recv_file_list-send_job_info_example =
    recv_file_list-send_job_info files [] departures
      (pieces ((send_job_info (map fileinfo files) departures).1 ++ []))
      ((refl, omega arith), ((refl, omega arith), tt)) (omega arith) (omega arith) packed_short
      writable (pieces-IsOpen ((send_job_info (map fileinfo files) departures).1 ++ []))
      (arrived-pieces ((send_job_info (map fileinfo files) departures).1 ++ []))
