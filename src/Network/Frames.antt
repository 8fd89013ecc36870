-- ===== src/Network/Frames.antt =====
-- client/lib/bnet.c: what `bnet_send` and `bnet_signal` send is what `bnet_recv` on the other side gets.
use tcbackup.Prelude.{
  ℕ, ◌^◌, ◌<◌, ◌≡◌, refl, sym, ap, ap₂, ◌∙◌, ◌≢◌, inl, inr, true, false, ◌||◌, some, List, ◌++◌,
  arith, Bytes, length, take, drop, take_front, drop_front, take-append, drop-append, leb, ◌==◌,
  Bool-cases,
}
use mathlib.Core.List.{append_assoc}
use mathlib.Core.Option.{none-ne-some, some-injective}
use mathlib.Core.Path.{subst}
use tcbackup.Network.{
  Arrival, Departure, Received, message, readn, writen, be32, un_be32, recv_body, recv_sized,
  bnet_send, bnet_recv,
}
use tcbackup.Network.Streams.{
  arrived, IsOpen, readn-IsRead, writen-prefix, IsWritable, writen-IsWritable,
}

un_be32-be32 : (n : ℕ) → n < 2 ^ 32 → un_be32 (be32 n) ≡ n
unfolding un_be32 be32
un_be32-be32 n h = omega arith

pub length-be32 : (n : ℕ) → length (be32 n) ≡ 4
unfolding be32
length-be32 n = refl

-- A message on the wire.
unfoldable pub frame : Bytes → Bytes
frame msg = be32 (length msg) ++ msg

false-ne : false ≢ true
false-ne e = ground arith

pub writen_all :
    (msg : Bytes) (departures : List Departure)
    → (writen msg departures).0 ≡ true
    → (writen msg departures).1 ≡ msg
writen_all msg departures e = elim (writen-prefix msg departures) [
  | inl (all, sent) ↦ sent
  | inr (stopped, part) ↦ absurd (false-ne (sym stopped ∙ e))
]

-- Where bnet_send gives no ERROR, the length is returned and the whole frame went through.
pub bnet_send-frame :
    (msg : Bytes) (departures : List Departure) (n : ℕ)
    → (bnet_send msg departures).0 ≡ some n
    → (n ≡ length msg) × ((bnet_send msg departures).1 ≡ frame msg)
unfolding bnet_send frame
bnet_send-frame msg departures n e = elim (Bool-cases (writen (be32 (length msg)) departures).0) [
  | inl header ↦
      let left = (writen (be32 (length msg)) departures).2 in
      elim (Bool-cases (writen msg left).0) [
        | inl all ↦ (
          some-injective _ _ (sym e ∙ rw (header, bnet_send) (rw (all, bnet_send) refl)),
          rw (header, bnet_send)
              (ap₂ ◌++◌ (writen_all (be32 (length msg)) departures header)
                (writen_all msg left all)),
        )
        | inr part ↦
            absurd (none-ne-some n (sym (rw (header, bnet_send) (rw (part, bnet_send) refl)) ∙ e))
      ]
  | inr stopped ↦ absurd (none-ne-some n (sym (rw (stopped, bnet_send) refl) ∙ e))
]

-- The result, and that the bytes after the message stay on the connection.
abbrev pub IsReceived : Received → Bytes → Received × List Arrival → Type 0
IsReceived result rest r = (r.0 ≡ result) × (arrived r.1 ≡ rest) × IsOpen r.1

-- What happens after the header was read.
pub recv_header :
    (n : ℕ) (rest : Bytes) (arrivals : List Arrival)
    → n < 2 ^ 32
    → IsOpen arrivals
    → arrived arrivals ≡ be32 n ++ rest
    → (left : List Arrival) × (bnet_recv arrivals ≡ recv_sized n left)
      × (arrived left ≡ rest)
      × IsOpen left
unfolding bnet_recv
recv_header n rest arrivals small h e =
    let (got, left, still) = readn-IsRead 4 arrivals h in
    let header : (readn 4 arrivals).0 ≡ some (be32 n) =
      got ∙ ap (λ b. some (take 4 b)) e ∙ ap some (take_front 4 (be32 n) rest (length-be32 n)) in
    (
      (readn 4 arrivals).1,
      rw (header, bnet_recv)
          (rw (length-be32 n) (ap (λ k. recv_sized k (readn 4 arrivals).1) (un_be32-be32 n small))),
      left ∙ ap (drop 4) e ∙ drop_front 4 (be32 n) rest (length-be32 n),
      still,
    )

recv_body-IsReceived :
    (n : ℕ) (bytes : Bytes) (arrivals : List Arrival)
    → IsOpen arrivals
    → arrived arrivals ≡ bytes
    → IsReceived (message n (take n bytes)) (drop n bytes) (recv_body n arrivals)
unfolding recv_body
recv_body-IsReceived n bytes arrivals h e =
    let (got, left, still) = readn-IsRead n arrivals h in
    (rw (got, recv_body) (ap (λ b. message n (take n b)) e), left ∙ ap (drop n) e, still)

pub recv_sized-IsReceived :
    (n : ℕ) (bytes : Bytes) (arrivals : List Arrival)
    → 0 < n
    → n < 2 ^ 31
    → IsOpen arrivals
    → arrived arrivals ≡ bytes
    → IsReceived (message n (take n bytes)) (drop n bytes) (recv_sized n arrivals)
unfolding recv_sized
recv_sized-IsReceived n bytes arrivals pos small h e =
    let positive : (n == 0 || leb (2 ^ 31) n) ≡ false = ground arith in
    rw positive (recv_body-IsReceived n bytes arrivals h e)

-- A frame that arrives is received as its message, and what comes behind it stays.
pub bnet_recv-frame :
    (msg rest : Bytes) (arrivals : List Arrival)
    → 0 < length msg
    → length msg < 2 ^ 31
    → IsOpen arrivals
    → arrived arrivals ≡ frame msg ++ rest
    → IsReceived (message (length msg) msg) rest (bnet_recv arrivals)
unfolding frame
bnet_recv-frame msg rest arrivals pos small h e =
    let (left, result, after, still) =
      recv_header (length msg) (msg ++ rest) arrivals (omega (arith, small)) h
        (e ∙ append_assoc (be32 (length msg)) msg rest) in
    subst (IsReceived (message (length msg) msg) rest) (sym result) (
      subst (λ m. IsReceived (message (length msg) m) rest (recv_sized (length msg) left))
        (take-append msg rest)
        (subst
          (λ m.
            IsReceived (message (length msg) (take (length msg) (msg ++ rest))) m
              (recv_sized (length msg) left))
          (drop-append msg rest)
          (recv_sized-IsReceived (length msg) (msg ++ rest) left pos small still after)))

-- A message of at least one byte and fewer than 2^31 that bnet_send sent without ERROR arrives
-- whole at bnet_recv, whatever the pieces in which it was written and is read, where no read
-- fails, and the bytes behind it stay on the connection.
pub bnet_recv-bnet_send :
    (msg rest : Bytes) (departures : List Departure) (arrivals : List Arrival) (n : ℕ)
    → 0 < length msg
    → length msg < 2 ^ 31
    → (bnet_send msg departures).0 ≡ some n
    → IsOpen arrivals
    → arrived arrivals ≡ (bnet_send msg departures).1 ++ rest
    → IsReceived (message (length msg) msg) rest (bnet_recv arrivals)
bnet_recv-bnet_send msg rest departures arrivals n pos small sent h e =
    bnet_recv-frame msg rest arrivals pos small h
      (e ∙ ap (λ b. b ++ rest) (bnet_send-frame msg departures n sent).1)

-- Where no write fails, the message is sent.
pub bnet_send-IsWritable :
    (msg : Bytes) (departures : List Departure)
    → IsWritable departures
    → ((bnet_send msg departures).0 ≡ some (length msg))
      × ((bnet_send msg departures).1 ≡ frame msg)
      × IsWritable (bnet_send msg departures).2
unfolding bnet_send frame
bnet_send-IsWritable msg departures h =
    let first = writen-IsWritable (be32 (length msg)) departures h in
    let second = writen-IsWritable msg (writen (be32 (length msg)) departures).2 first.2 in
    rw (first.0) (rw (second.0) refl, ap₂ ◌++◌ first.1 second.1, second.2)
