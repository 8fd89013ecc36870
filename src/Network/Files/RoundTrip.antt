-- ===== src/Network/Files/RoundTrip.antt =====
-- The files that the server sends are those that the client gets.
use tcbackup.Prelude.{
  ℕ, suc, ◌+◌, ◌-◌, ◌^◌, ◌≤◌, ◌<◌, ◌&&◌, ltb, leb, ◌≡◌, refl, sym, ap, ap₂, ◌∙◌, true, false, List,
  [], ◌∷◌, ◌++◌, map, arith, Bytes, length, length-append, take_all, take_front, drop_front, le32,
  un_le32, un_le32-le32, drop-le32, length-le32, All,
}
use mathlib.Core.List.{append_assoc, append-nil}
use tcbackup.Container.{finger_length}
use tcbackup.Network.{Arrival, Departure, message, bnet_send, bnet_recv}
use tcbackup.Network.Streams.{arrived, IsOpen, IsWritable}
use tcbackup.Network.Frames.{frame, bnet_recv-frame, bnet_send-IsWritable}
use tcbackup.Network.Chunks.{sent_false}
use tcbackup.Network.Chunks.RoundTrip.{loop_count-le32}
use tcbackup.Network.Files.{
  file_name_length, success, room, job_bytes, send_job_info, received_bytes, with_file, parse_files,
  parse_received, recv_files, recv_file_list,
}
use mathlib.Core.Path.{subst}

-- An item of the queue for a file, as the database's functions build it.
unfoldable pub fileinfo : Bytes × Bytes → Bytes
fileinfo (hash, path) = le32 (finger_length + length path) ++ (hash ++ path)

abbrev pub IsFile : Bytes × Bytes → Type 0
IsFile file = (length file.0 ≡ finger_length) × (length file.1 < file_name_length)

-- The items end to end.
unfoldable pub packed : List (Bytes × Bytes) → Bytes
packed [] = []
packed (file ∷ files) = fileinfo file ++ packed files

length-fileinfo : (file : Bytes × Bytes) → IsFile file → length (fileinfo file) ≡ 24 + length file.1
unfolding fileinfo
length-fileinfo file h = omega (
  arith,
  h.0,
  length-append (le32 (finger_length + length file.1)) (file.0 ++ file.1),
  length-append file.0 file.1,
  length-le32 (finger_length + length file.1),
)

item_length :
    (file : Bytes × Bytes) → IsFile file → un_le32 (fileinfo file) ≡ finger_length + length file.1
unfolding fileinfo
item_length file h =
    un_le32-le32 (finger_length + length file.1) (file.0 ++ file.1) (omega (arith, h.1))

job_bytes-packed :
    (files : List (Bytes × Bytes))
    → All IsFile files
    → job_bytes (map fileinfo files) ≡ packed files
unfolding job_bytes packed
job_bytes-packed [] h = refl
job_bytes-packed (file ∷ files) (here, h) =
    ap₂ ◌++◌
      (take_all (un_le32 (fileinfo file) + 4) (fileinfo file)
        (omega (arith, length-fileinfo file here, item_length file here)))
      (job_bytes-packed files h)

parse_file :
    (n : ℕ) (hash path more : Bytes)
    → length hash ≡ finger_length
    → length path < file_name_length
    → parse_files (suc n) (le32 (finger_length + length path) ++ (hash ++ (path ++ more)))
      ≡ with_file (hash, path) (parse_files n more)
unfolding parse_files
parse_file n hash path more whole short =
    let size : finger_length + length path - finger_length ≡ length path = omega arith in
    let fits : (leb finger_length (finger_length + length path)
          && leb (length path) file_name_length)
        ≡ true =
      ground (arith, short) in
    rw
      (
        un_le32-le32 (finger_length + length path) (hash ++ (path ++ more)) (omega (arith, short)),
        drop-le32 (finger_length + length path) (hash ++ (path ++ more)),
        take_front finger_length hash (path ++ more) whole,
        drop_front finger_length hash (path ++ more) whole,
        size,
        take_front (length path) path more refl,
        drop_front (length path) path more refl,
        fits,
      )
      refl

parse_files-packed :
    (files : List (Bytes × Bytes)) (rest : Bytes)
    → All IsFile files
    → parse_files (length files) (packed files ++ rest) ≡ success files
unfolding packed fileinfo parse_files
parse_files-packed [] rest h = refl
parse_files-packed ((hash, path) ∷ files) rest (here, h) =
    ap (parse_files (suc (length files))) (
      append_assoc (le32 (finger_length + length path) ++ (hash ++ path)) (packed files) rest
      ∙ append_assoc (le32 (finger_length + length path)) (hash ++ path) (packed files ++ rest)
      ∙ ap (λ b. le32 (finger_length + length path) ++ b)
          (append_assoc hash path (packed files ++ rest)))
    ∙ parse_file (length files) hash path (packed files ++ rest) here.0 here.1
    ∙ ap (with_file (hash, path)) (parse_files-packed files rest h)

-- The items fit into the buffers, with room for a byte for each file.
length-packed :
    (files : List (Bytes × Bytes))
    → All IsFile files
    → length (packed files) + length files ≤ room (length files)
unfolding packed
length-packed [] h = omega arith
length-packed (file ∷ files) (here, h) = omega (
  arith,
  here.1,
  length-fileinfo file here,
  length-append (fileinfo file) (packed files),
  length-packed files h,
)

received_bytes-message :
    (size n : ℕ) (msg : Bytes)
    → 0 < length msg
    → length msg < size
    → received_bytes size (message n msg) ≡ success msg
unfolding received_bytes
received_bytes-message size n [] h fits = absurd (omega arith)
received_bytes-message size n (b ∷ msg) h fits =
    let less : ltb (length (b ∷ msg)) size ≡ true = ground (arith, fits) in rw less refl

send_job_info-frames :
    (filelist : List Bytes) (departures : List Departure)
    → 0 < length (job_bytes filelist)
    → length (job_bytes filelist) ≤ room (length filelist)
    → IsWritable departures
    → ((send_job_info filelist departures).0 ≡ success tt)
      × ((send_job_info filelist departures).1
          ≡ frame (le32 (length filelist)) ++ frame (job_bytes filelist))
unfolding send_job_info sent_false
send_job_info-frames filelist departures some_bytes fits h =
    let n = le32 (length filelist) in
    let (all, sent, left) = bnet_send-IsWritable n departures h in
    let (all', sent', left') =
      bnet_send-IsWritable (job_bytes filelist) (bnet_send n departures).2 left in
    let truly : sent_false (bnet_send n departures).0 ≡ false =
      ap sent_false all ∙ ground (arith, length-le32 (length filelist)) in
    let truly' : sent_false (bnet_send (job_bytes filelist) (bnet_send n departures).2).0 ≡ false =
      ap sent_false all' ∙ ground (arith, some_bytes) in
    let roomy : ltb (room (length filelist) + 1) (length (job_bytes filelist)) ≡ false =
      ground (arith, fits) in
    rw (truly, roomy, truly', send_job_info) (refl, ap₂ ◌++◌ sent sent')

packed_pos :
    (files : List (Bytes × Bytes)) → All IsFile files → 0 < length files → 0 < length (packed files)
unfolding packed
packed_pos [] h pos = absurd (omega arith)
packed_pos (file ∷ files) (here, h) pos =
    omega (arith, length-fileinfo file here, length-append (fileinfo file) (packed files))

length-map_fileinfo : (files : List (Bytes × Bytes)) → length (map fileinfo files) ≡ length files
length-map_fileinfo [] = refl
length-map_fileinfo (file ∷ files) = ap suc (length-map_fileinfo files)

recv_file_list-frames :
    (files : List (Bytes × Bytes)) (rest : Bytes) (arrivals : List Arrival)
    → All IsFile files
    → 0 < length files
    → length files < 2 ^ 31
    → length (packed files) < 2 ^ 31
    → IsOpen arrivals
    → arrived arrivals ≡ frame (le32 (length files)) ++ (frame (packed files) ++ rest)
    → ((recv_file_list arrivals).0 ≡ success files) × (arrived (recv_file_list arrivals).1 ≡ rest)
unfolding recv_file_list recv_files parse_received
recv_file_list-frames files rest arrivals whole some_files few small h e =
    let n = le32 (length files) in
    let four : length n ≡ 4 = length-le32 (length files) in
    let pos : 0 < length (packed files) = packed_pos files whole some_files in
    let (got, after, still) =
      bnet_recv-frame n (frame (packed files) ++ rest) arrivals (omega (arith, four))
        (omega (arith, four)) h e in
    let (got', after', still') =
      bnet_recv-frame (packed files) rest (bnet_recv arrivals).1 pos small still after in
    let count = loop_count-le32 (length files) few in
    let number : received_bytes 256 (bnet_recv arrivals).0 ≡ success n =
      ap (received_bytes 256) got
      ∙ received_bytes-message 256 (length n) n (omega (arith, four)) (omega (arith, four)) in
    let fits : length (packed files) < room (length files) =
      omega (arith, length-packed files whole, some_files) in
    let body : received_bytes (room (length files)) (bnet_recv (bnet_recv arrivals).1).0
        ≡ success (packed files) =
      ap (received_bytes (room (length files))) got'
      ∙ received_bytes-message (room (length files)) (length (packed files)) (packed files) pos
          fits in
    rw (recv_file_list, number, recv_files)
      (subst
        (λ k.
          (parse_received k (received_bytes (room k) (bnet_recv (bnet_recv arrivals).1).0)
            ≡ success files)
          × (arrived (bnet_recv (bnet_recv arrivals).1).1 ≡ rest))
        (sym count)
        (
          ap (parse_received (length files)) body
              ∙ ap (parse_files (length files)) (sym (append-nil (packed files)))
              ∙ parse_files-packed files [] whole,
          after',
        ))

-- A list of at least one file, each a whole fingerprint and a path of fewer than 256 bytes, fewer
-- than 2^31 files and bytes in all, that the server sends where no write fails, is the list that
-- the client gets where no read fails, in order; both succeed, no buffer of theirs is overrun, and
-- nothing behind the list is read.
pub recv_file_list-send_job_info :
    (files : List (Bytes × Bytes)) (rest : Bytes) (departures : List Departure)
    (arrivals : List Arrival)
    → All IsFile files
    → 0 < length files
    → length files < 2 ^ 31
    → length (packed files) < 2 ^ 31
    → IsWritable departures
    → IsOpen arrivals
    → arrived arrivals ≡ (send_job_info (map fileinfo files) departures).1 ++ rest
    → ((send_job_info (map fileinfo files) departures).0 ≡ success tt)
      × ((recv_file_list arrivals).0 ≡ success files)
      × (arrived (recv_file_list arrivals).1 ≡ rest)
recv_file_list-send_job_info files rest departures arrivals whole some_files few small writable h
      e =
    let bytes : job_bytes (map fileinfo files) ≡ packed files = job_bytes-packed files whole in
    let pos : 0 < length (job_bytes (map fileinfo files)) =
      omega (arith, ap length bytes, packed_pos files whole some_files) in
    let room_left : length (job_bytes (map fileinfo files)) ≤ room (length (map fileinfo files)) =
      omega (arith, ap length bytes, length-map_fileinfo files, length-packed files whole) in
    let (ok, sent) = send_job_info-frames (map fileinfo files) departures pos room_left writable in
    let framed : (send_job_info (map fileinfo files) departures).1
        ≡ frame (le32 (length files)) ++ frame (packed files) =
      sent ∙ ap₂ (λ n b. frame (le32 n) ++ frame b) (length-map_fileinfo files) bytes in
    let (got, left) = recv_file_list-frames files rest arrivals whole some_files few small h (
      e
      ∙ ap (λ b. b ++ rest) framed
      ∙ append_assoc (frame (le32 (length files))) (frame (packed files)) rest) in
    (ok, got, left)
