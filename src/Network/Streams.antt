-- ===== src/Network/Streams.antt =====
-- client/lib/bnet.c: `readn` and `writen` do not depend on how the bytes are cut into pieces.
use tcbackup.Prelude.{
  ℕ, zero, suc, ◌+◌, ◌-◌, ◌≤◌, ◌<◌, ◌≡◌, refl, sym, ap, ◌∙◌, ◌⊎◌, inl, inr, true, false, Option,
  some, List, [], ◌∷◌, ◌++◌, arith, Bytes, length, take, drop, length-drop, take-append-drop,
  take-append_past, take-add, drop-append_past, slice-append, drop-append_left,
}
use tcbackup.Network.{
  Arrival, piece, interrupted, failed, Departure, takes, blocked, broken, put_before, readn, writen,
}

-- The bytes that arrive, in order.
unfoldable pub arrived : List Arrival → Bytes
arrived [] = []
arrived (piece b bs ∷ arrivals) = b ∷ bs ++ arrived arrivals
arrived (interrupted ∷ arrivals) = arrived arrivals
arrived (failed ∷ arrivals) = arrived arrivals

-- No call fails; some may be interrupted.
unfoldable pub IsOpen : List Arrival → Type 0
IsOpen [] = Unit
IsOpen (piece b bs ∷ arrivals) = IsOpen arrivals
IsOpen (interrupted ∷ arrivals) = IsOpen arrivals
IsOpen (failed ∷ arrivals) = ⊥

-- So many bytes are read, or all where there are fewer, and the others stay.
abbrev pub IsRead : ℕ → Bytes → Option Bytes × List Arrival → Type 0
IsRead n bytes r = (r.0 ≡ some (take n bytes)) × (arrived r.1 ≡ drop n bytes) × IsOpen r.1

after_piece :
    (n b : ℕ) (bs : Bytes) (arrivals : List Arrival) (over : Bytes)
    → IsOpen arrivals
    → IsRead (n - length bs) (arrived arrivals) (readn (n - length bs) arrivals)
    → drop n bs ≡ over
    → IsRead (suc n) (b ∷ bs ++ arrived arrivals) (elim over as (λ x. Option Bytes × List Arrival) [
      | [] ↦ (
        put_before (b ∷ bs) (readn (n - length bs) arrivals).0,
        (readn (n - length bs) arrivals).1,
      )
      | b' ∷ bs' ↦ (some (b ∷ take n bs), piece b' bs' ∷ arrivals)
    ])
unfolding put_before arrived IsOpen
after_piece n b bs arrivals [] h (more, left, still) e =
    let fits : length bs ≤ n = omega (arith, ap length e, length-drop n bs) in
    (
      ap (put_before (b ∷ bs)) more
          ∙ ap (λ x. some (b ∷ x)) (sym (take-append_past n bs (arrived arrivals) fits)),
      left ∙ sym (drop-append_past n bs (arrived arrivals) fits),
      still,
    )
after_piece n b bs arrivals (b' ∷ bs') h read e =
    let longer : n < length bs = omega (arith, ap length e, length-drop n bs) in
    (
      ap (λ x. some (b ∷ x)) (sym (slice-append 0 n bs (arrived arrivals) (omega arith))),
      ap (λ x. x ++ arrived arrivals) (sym e)
          ∙ sym (drop-append_left n bs (arrived arrivals) (omega arith)),
      h,
    )

-- On a connection without a failure, readn gives the next bytes that arrive, as many as asked or
-- all that there are, whatever the pieces in which they come, and the others stay.
pub readn-IsRead :
    (n : ℕ) (arrivals : List Arrival)
    → IsOpen arrivals
    → IsRead n (arrived arrivals) (readn n arrivals)
unfolding readn arrived IsOpen
readn-IsRead zero arrivals h = (refl, refl, h)
readn-IsRead (suc n) [] h = (refl, refl, tt)
readn-IsRead (suc n) (interrupted ∷ arrivals) h = readn-IsRead (suc n) arrivals h
readn-IsRead (suc n) (failed ∷ arrivals) h = absurd h
readn-IsRead (suc n) (piece b bs ∷ arrivals) h =
    after_piece n b bs arrivals (drop n bs) h (readn-IsRead (n - length bs) arrivals h) refl

-- All of the message goes through where writen succeeds, and the front part of it where it fails.
pub writen-prefix :
    (msg : Bytes) (departures : List Departure)
    → let r = writen msg departures in
      ((r.0 ≡ true) × (r.1 ≡ msg)) ⊎ ((r.0 ≡ false) × ((n : ℕ) × (r.1 ≡ take n msg)))
unfolding writen
writen-prefix [] departures = inl (refl, refl)
writen-prefix (b ∷ msg) [] = inl (refl, refl)
writen-prefix (b ∷ msg) (broken ∷ departures) = inr (refl, (0, refl))
writen-prefix (b ∷ msg) (blocked ∷ departures) = writen-prefix (b ∷ msg) departures
writen-prefix (b ∷ msg) (takes k ∷ departures) = elim (writen-prefix (drop k msg) departures) [
  | inl (all, sent) ↦
      inl (all, ap (λ x. b ∷ take k msg ++ x) sent ∙ ap (◌∷◌ b) (take-append-drop k msg))
  | inr (stopped, (n, sent)) ↦ inr (
    stopped,
    (suc (k + n), ap (λ x. b ∷ take k msg ++ x) sent ∙ ap (◌∷◌ b) (sym (take-add k n msg))),
  )
]

-- No call of `write` fails.
unfoldable pub IsWritable : List Departure → Type 0
IsWritable [] = Unit
IsWritable (broken ∷ departures) = ⊥
IsWritable (blocked ∷ departures) = IsWritable departures
IsWritable (takes k ∷ departures) = IsWritable departures

pub writen-IsWritable :
    (msg : Bytes) (departures : List Departure)
    → IsWritable departures
    → ((writen msg departures).0 ≡ true)
      × ((writen msg departures).1 ≡ msg)
      × IsWritable (writen msg departures).2
unfolding writen IsWritable
writen-IsWritable [] departures h = (refl, refl, h)
writen-IsWritable (b ∷ msg) [] h = (refl, refl, tt)
writen-IsWritable (b ∷ msg) (broken ∷ departures) h = absurd h
writen-IsWritable (b ∷ msg) (blocked ∷ departures) h = writen-IsWritable (b ∷ msg) departures h
writen-IsWritable (b ∷ msg) (takes k ∷ departures) h =
    let (all, sent, left) = writen-IsWritable (drop k msg) departures h in
    (all, ap (λ x. b ∷ take k msg ++ x) sent ∙ ap (◌∷◌ b) (take-append-drop k msg), left)
