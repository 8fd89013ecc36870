-- ===== src/Network/Cut.antt =====
-- client/lib/bnet.c: `bnet_recv` where the connection ends inside a message, and signals.
use tcbackup.Prelude.{
  ℕ, ◌+◌, ◌-◌, ◌^◌, ◌≤◌, ◌<◌, ◌≡◌, refl, sym, ap, ◌∙◌, ◌⊎◌, inl, inr, Bool, true, false, ◌||◌,
  Option, none, some, List, ◌++◌, arith, Bytes, length, take, take_all, ltb, leb, ◌==◌,
  if◌then◌else◌, Bool-cases, ltb→lt, length-take_le, ltb-false, take-append_past,
}
use mathlib.Core.Option.{none-ne-some}
use mathlib.Core.Path.{subst}
use tcbackup.Network.{
  Arrival, Departure, Received, error, signal, message, readn, writen, be32, recv_sized,
  bnet_signal, bnet_recv,
}
use tcbackup.Network.Streams.{arrived, IsOpen, readn-IsRead}
use tcbackup.Network.Frames.{
  frame, IsReceived, recv_header, length-be32, recv_sized-IsReceived, writen_all,
}

-- A connection that ends before the header is whole.
short_header :
    (bytes : Bytes) (arrivals : List Arrival)
    → IsOpen arrivals
    → arrived arrivals ≡ bytes
    → length bytes < 4
    → (bnet_recv arrivals).0 ≡ error
unfolding bnet_recv
short_header bytes arrivals h e short =
    let (got, left, still) = readn-IsRead 4 arrivals h in
    let header : (readn 4 arrivals).0 ≡ some bytes =
      got ∙ ap (λ b. some (take 4 b)) e ∙ ap some (take_all 4 bytes (omega arith)) in
    let part : (length bytes == 4) ≡ false = ground arith in rw (header, bnet_recv) (rw part refl)

-- What bnet_recv gives of a message that is cut off.
unfoldable pub received_part : ℕ → Bytes → Received
received_part k msg = if ltb k 4 then error else message (length msg) (take (k - 4) msg)

-- Where the connection ends inside a message of at least one byte and fewer than 2^31, with no
-- failing read: bnet_recv gives ERROR if the header is cut, and else the bytes that came, with the
-- length that the header had.
pub bnet_recv_cut :
    (k : ℕ) (msg : Bytes) (arrivals : List Arrival)
    → 0 < length msg
    → length msg < 2 ^ 31
    → k < 4 + length msg
    → IsOpen arrivals
    → arrived arrivals ≡ take k (frame msg)
    → (bnet_recv arrivals).0 ≡ received_part k msg
unfolding received_part frame
bnet_recv_cut k msg arrivals pos small cut h e = elim (Bool-cases (ltb k 4)) [
  | inl early ↦ rw early (
      short_header (take k (frame msg)) arrivals h e
        (omega (arith, ltb→lt k 4 early, length-take_le k (frame msg))))
  | inr late ↦
      let four : length (be32 (length msg)) ≤ k =
        omega (arith, ltb-false k 4 late, length-be32 (length msg)) in
      let framed : arrived arrivals ≡ be32 (length msg) ++ take (k - 4) msg =
        e
        ∙ take-append_past k (be32 (length msg)) msg four
        ∙ ap (λ n. be32 (length msg) ++ take (k - n) msg) (length-be32 (length msg)) in
      let (left, result, after, still) =
        recv_header (length msg) (take (k - 4) msg) arrivals (omega (arith, small)) h framed in
      rw late (
        ap (λ r. r.0) result
        ∙ (recv_sized-IsReceived (length msg) (take (k - 4) msg) left pos small still after).0
        ∙ ap (message (length msg))
            (take_all (length msg) (take (k - 4) msg) (omega (arith, length-take_le (k - 4) msg))))
]

-- A signal that is zero or negative, sent without ERROR, arrives as it was sent where no read
-- fails, and nothing more is read.
pub bnet_recv-bnet_signal :
    (sig : ℕ) (rest : Bytes) (departures : List Departure) (arrivals : List Arrival)
    → (sig ≡ 0) ⊎ (2 ^ 31 ≤ sig)
    → sig < 2 ^ 32
    → (bnet_signal sig departures).0 ≡ some 0
    → IsOpen arrivals
    → arrived arrivals ≡ (bnet_signal sig departures).1 ++ rest
    → IsReceived (signal sig) rest (bnet_recv arrivals)
unfolding recv_sized bnet_signal
bnet_recv-bnet_signal sig rest departures arrivals low small sent h e =
    let went : (writen (be32 sig) departures).0 ≡ true =
      all_sent (writen (be32 sig) departures).0 sent in
    let framed : arrived arrivals ≡ be32 sig ++ rest =
      e ∙ ap (λ b. b ++ rest) (writen_all (be32 sig) departures went) in
    let (left, result, after, still) = recv_header sig rest arrivals small h framed in
    let stops : (sig == 0 || leb (2 ^ 31) sig) ≡ true = not_positive sig low in
    subst (IsReceived (signal sig) rest) (sym (result ∙ rw stops refl)) (refl, after, still)
  where
    all_sent : (b : Bool) → if◌then◌else◌ {A = Option ℕ} b (some 0) none ≡ some 0 → b ≡ true
    all_sent true e = refl
    all_sent false e = absurd (none-ne-some 0 e)

    not_positive : (sig : ℕ) → (sig ≡ 0) ⊎ (2 ^ 31 ≤ sig) → (sig == 0 || leb (2 ^ 31) sig) ≡ true
    not_positive sig (inl e) = ground arith
    not_positive sig (inr h) = ground arith
