-- ===== src/Network/Files.antt =====
-- The files of a job that is restored: server/src/restore.c, `send_job_info`, and client/src/restore.c,
-- `recv_file_list`.
-- An item of the server's queue is the 4 bytes of a length and then so many bytes, a fingerprint and a path.
-- Where a buffer has no room for what is copied into it, the result is `overrun`, and what the program does
-- then is not modelled. The files are in the order in which they are given to `dlist_insert`.
pub mod RoundTrip
use tcbackup.Prelude.{
  ℕ, zero, suc, ◌+◌, ◌-◌, ◌*◌, ◌/◌, ◌%◌, ◌^◌, ◌≤◌, ◌<◌, ◌≡◌, refl, sym, ap, ap₂, ◌∙◌, ◌≢◌, ◌↔◌, ◌⊎◌,
  inl, inr, Bool, true, false, ◌&&◌, ◌||◌, not, Option, none, some, List, [], ◌∷◌, ◌++◌, map, arith,
  Bytes, bytes_eq, length, take, drop, replicate, set, get_or, length-append, length-take,
  length-drop, length-replicate, take-append-drop, take_all, take_front, drop_front, drop-drop, ltb,
  leb, ◌==◌, if◌then◌else◌, tests, le32, un_le32, is_neg32, un_le32-le32, drop-le32, length-le32,
  take-append, Bool-cases, Option-cases, All,
}
use tcbackup.Container.{finger_length}
use tcbackup.Network.{Arrival, Departure, Received, error, signal, message, bnet_send, bnet_recv}
use tcbackup.Network.Chunks.{sent_false, loop_count}

abbrev pub file_name_length : ℕ
file_name_length = 256

pub data Outcome {ℓ} (A : Type ℓ) : Type ℓ where
  failure : Outcome A
  overrun : Outcome A
  success : A → Outcome A

-- The room for the items of so many files.
abbrev pub room : ℕ → ℕ
room filenum = filenum * (finger_length + file_name_length + 4)

-- What the items of the queue hold, one after the other.
unfoldable pub job_bytes : List Bytes → Bytes
job_bytes [] = []
job_bytes (fileinfo ∷ filelist) = take (un_le32 fileinfo + 4) fileinfo ++ job_bytes filelist

-- The outcome, the bytes that went through, and what is left.
unfoldable pub send_job_info :
    List Bytes → List Departure → Outcome (Unit {0}) × Bytes × List Departure
unfolding bnet_send sent_false job_bytes
send_job_info filelist departures =
    let (err, sent, left) = bnet_send (le32 (length filelist)) departures in
    let (err', sent', left') = bnet_send (job_bytes filelist) left in
    if sent_false err
    then (failure, sent, left)
    else if ltb (room (length filelist) + 1) (length (job_bytes filelist))
    then (overrun, sent, left)
    else ((if sent_false err' then failure else success tt), sent ++ sent', left')

-- The bytes in a buffer of this size, where `bnet_recv` sets a 0 behind them. A result that is not positive
-- is a failure.
unfoldable pub received_bytes : ℕ → Received → Outcome Bytes
received_bytes size error = failure
received_bytes size (signal n) = failure
received_bytes size (message n []) = failure
received_bytes size (message n (b ∷ bytes)) =
    if ltb (length (b ∷ bytes)) size then success (b ∷ bytes) else overrun

-- A file in front of those that come behind it.
abbrev pub with_file :
    Bytes × Bytes → Outcome (List (Bytes × Bytes)) → Outcome (List (Bytes × Bytes))
with_file file failure = failure
with_file file overrun = overrun
with_file file (success files) = success (file ∷ files)

-- The loop over the files: a fingerprint, and a path that `file_path` has room for.
unfoldable pub parse_files : ℕ → Bytes → Outcome (List (Bytes × Bytes))
parse_files zero p = success []
parse_files (suc n) p =
    let fileinfo_len = un_le32 p in
    let file = drop 4 p in
    let path_len = fileinfo_len - finger_length in
    let rest = parse_files n (drop path_len (drop finger_length file)) in
    if leb finger_length fileinfo_len && leb path_len file_name_length
    then with_file (take finger_length file, take path_len (drop finger_length file)) rest
    else overrun

-- What `recv_file_list` does with the second message.
unfoldable pub parse_received : ℕ → Outcome Bytes → Outcome (List (Bytes × Bytes))
unfolding parse_files
parse_received file_num failure = failure
parse_received file_num overrun = overrun
parse_received file_num (success bytes) = parse_files file_num bytes

-- And from the first message on, given what a second `bnet_recv` gives.
unfoldable pub recv_files :
    Outcome Bytes
    → List Arrival
    → Received × List Arrival
    → Outcome (List (Bytes × Bytes)) × List Arrival
unfolding received_bytes parse_received loop_count
recv_files failure left second = (failure, left)
recv_files overrun left second = (overrun, left)
recv_files (success buf) left (got, left') =
    let file_num = loop_count (un_le32 buf) in
    (parse_received file_num (received_bytes (room file_num) got), left')

unfoldable pub recv_file_list : List Arrival → Outcome (List (Bytes × Bytes)) × List Arrival
unfolding bnet_recv received_bytes recv_files
recv_file_list arrivals =
    let (got, left) = bnet_recv arrivals in
    recv_files (received_bytes 256 got) left (bnet_recv left)
