-- ===== src/Binning/RoundTrip.antt =====
-- A bin written to its volume and read back.
use tcbackup.Binning.{
  bin_length, Bin, BinVolume, level_to_max_amount, fit_level, bin_slot, write_at, parse_bin,
  write_bin, read_bin, leb, place_bin, empty_volume, empty_volume, empty_volume,
}
use tcbackup.Container.{finger_length}
use tcbackup.HashTable
use tcbackup.HashTable.{Table, lookup, find}
use tcbackup.Prelude.{
  ℕ, zero, suc, ◌+◌, ◌-◌, ◌*◌, ◌/◌, ◌%◌, ◌^◌, ◌≤◌, ◌<◌, ◌≡◌, refl, ap, sym, ◌∙◌, true, some, List,
  [], ◌∷◌, ◌++◌, Bytes, arith, ltb, length, get_or, set, get_or-set_self, take, drop, replicate,
  length-append, length-replicate, length-take, All, Bool-cases, inl, inr,
}
use tcbackup.Binning.Slot.{
  level_big, fit_level_enough, read_written, length-bin_slot, read_table, lookup-read_table,
  parse_bin-bin_slot, IsBin,
}

-- The length of a saved bin, its level, and its slot.
abbrev saved_length : Bin → ℕ
saved_length bin = bin_length (HashTable.size bin.fingers)

-- The length of a valid bin does not wrap.
saved_length_whole :
    (bin : Bin) → IsBin bin → saved_length bin ≡ 24 + HashTable.size bin.fingers * 84
saved_length_whole bin w = ground (arith, w.counted)

abbrev pub saved_level : Bin → ℕ
saved_level bin =
    (fit_level (saved_length bin) (saved_length bin) (bin.address / 2 ^ 56)
      (bin.address % 2 ^ 56)).0

fit_level_offset :
    (fuel nlen level offset b : ℕ) → offset < b → (fit_level fuel nlen level offset).1 < b
unfolding fit_level
fit_level_offset zero nlen level offset b h = h
fit_level_offset (suc fuel) nlen level offset b h =
    elim (Bool-cases (ltb (level_to_max_amount level) nlen)) [
      | inl e ↦ rw e (fit_level_offset fuel nlen (suc level) 0 b (omega arith))
      | inr e ↦ rw e h
    ]

All-get_or :
    {A : Type 0} (P : A → Type 0) (xs : List A) (i : ℕ) (d : A) → All P xs → P d → P (get_or xs i d)
All-get_or P [] i d h k = k
All-get_or P (x ∷ xs) zero d h k = h.0
All-get_or P (x ∷ xs) (suc i) d h k = All-get_or P xs i d h.1 k

place_bin_offset :
    (offset size b : ℕ) (v : BinVolume)
    → offset < b
    → v.current_volume_length < b
    → (place_bin offset size v).0 < b
unfolding place_bin
place_bin_offset offset size b v h k = ground (arith, h, k)

write_at_reaches :
    (offset : ℕ) (bytes file : Bytes) → offset + length bytes ≤ length (write_at offset bytes file)
unfolding write_at
write_at_reaches offset bytes file =
    let gap = replicate {A = ℕ} (offset - length file) 0 in
    omega (
      arith,
      length-append file gap,
      length-replicate {A = ℕ} (offset - length file) 0,
      length-take offset (file ++ gap) (
          omega (arith, length-append file gap, length-replicate {A = ℕ} (offset - length file) 0)),
      length-append (take offset (file ++ gap)) (bytes ++ drop (offset + length bytes) file),
      length-append bytes (drop (offset + length bytes) file),
    )

-- Reading at an address that decodes to a level and an offset.
read_bin_at :
    (level offset : ℕ) (bin : Bin) (bytes : Bytes) (volumes : List BinVolume)
    → bin.address / 2 ^ 56 ≡ level
    → bin.address % 2 ^ 56 ≡ offset
    → offset + level_to_max_amount level ≤ length (get_or volumes level empty_volume).file
    → take (level_to_max_amount level) (drop offset (get_or volumes level empty_volume).file)
      ≡ bytes
    → read_bin bin volumes ≡ some (parse_bin bytes bin)
unfolding read_bin
read_bin_at level offset bin bytes volumes d m reach read =
    let fits : leb (offset + level_to_max_amount level)
          (length (get_or volumes level empty_volume).file)
        ≡ true =
      ground (arith, reach) in
    rw (d, m, fits, read) refl

module _ (bin : Bin) (w : IsBin bin) (volumes : List BinVolume)
    (level_exists : saved_level bin < length volumes)
    (short : All (λ v. v.current_volume_length < 2 ^ 56) volumes) where
  abbrev level : ℕ
  level = saved_level bin

  abbrev placed : ℕ × BinVolume
  placed =
      place_bin
        (fit_level (saved_length bin) (saved_length bin) (bin.address / 2 ^ 56)
          (bin.address % 2 ^ 56)).1
        (level_to_max_amount level) (get_or volumes level empty_volume)

  fits_level : saved_length bin ≤ level_to_max_amount level
  fits_level =
      fit_level_enough (saved_length bin) (saved_length bin) (bin.address / 2 ^ 56)
        (bin.address % 2 ^ 56) (omega (arith, level_big (bin.address / 2 ^ 56 + saved_length bin)))

  placed_small : placed.0 < 2 ^ 56
  unfolding empty_volume
  placed_small =
      place_bin_offset _ (level_to_max_amount level) (2 ^ 56) (get_or volumes level empty_volume)
        (fit_level_offset (saved_length bin) (saved_length bin) (bin.address / 2 ^ 56)
          (bin.address % 2 ^ 56) (2 ^ 56) (omega arith))
        (All-get_or (λ v. v.current_volume_length < 2 ^ 56) volumes level empty_volume short
          (omega arith))

  abbrev slot : Bytes
  slot = bin_slot bin (level_to_max_amount level)

  slot_length : length slot ≡ level_to_max_amount level
  slot_length =
      length-bin_slot bin w (level_to_max_amount level)
        (omega (arith, fits_level, saved_length_whole bin w))

  abbrev written : BinVolume
  written = record placed.1 { file = write_at placed.0 slot placed.1.file }

  write_bin_result : write_bin bin volumes ≡ (level * 2 ^ 56 + placed.0, set volumes level written)
  unfolding write_bin
  write_bin_result = refl

  volume_written : get_or (set volumes level written) level empty_volume ≡ written
  volume_written = get_or-set_self volumes level written empty_volume level_exists

  -- A valid bin, of fewer than 2^31 bytes when it is saved, whose level has a volume, among
  -- volumes shorter than 2^56 bytes, is read back from the address that saving it gave, into a new
  -- bin with the same represent finger and a table of any size: it succeeds, and every fingerprint
  -- has the address that it had.
  pub read_bin-write_bin :
      (n : ℕ)
      → (bin' : Bin) × (read_bin
            (record {
              rep_finger = bin.rep_finger;
              fingers = HashTable.init Bytes finger_length n;
              address = (write_bin bin volumes).0;
            })
            (write_bin bin volumes).1
          ≡ some (true, bin'))
        × ((q : Bytes) → lookup q bin'.fingers ≡ lookup q bin.fingers)
  read_bin-write_bin n =
      let address = level * 2 ^ 56 + placed.0 in
      let fresh : Bin = record {
        rep_finger = bin.rep_finger;
        fingers = HashTable.init Bytes finger_length n;
        address = address;
      } in
      rw write_bin_result (
        record fresh { fingers = read_table bin w (HashTable.init Bytes finger_length n) },
        read_bin_at level placed.0 fresh slot (set volumes level written)
              (omega (arith, placed_small)) (omega (arith, placed_small))
              (rw volume_written
                (omega (arith, write_at_reaches placed.0 slot placed.1.file, slot_length)))
              (rw volume_written (
                ap (λ k. take k (drop placed.0 written.file)) (sym slot_length)
                ∙ read_written placed.0 slot placed.1.file))
            ∙ ap some (
                parse_bin-bin_slot bin w (level_to_max_amount level)
                  (HashTable.init Bytes finger_length n) address),
        lookup-read_table bin w n,
      )

place_bin_positive :
    (offset size : ℕ) (v : BinVolume)
    → 0 < v.current_volume_length
    → 0 < (place_bin offset size v).0
unfolding place_bin
place_bin_positive offset size v h = ground (arith, h)

-- Saving a bin gives an address other than 0, where volumes are not empty.
pub write_bin_nonzero :
    (bin : Bin) (w : IsBin bin) (volumes : List BinVolume)
    → saved_level bin < length volumes
    → All (λ v. (0 < v.current_volume_length) × (v.current_volume_length < 2 ^ 56)) volumes
    → 0 < (write_bin bin volumes).0
unfolding write_bin empty_volume
write_bin_nonzero bin w volumes e h = omega (
  arith,
  place_bin_positive
      (fit_level (saved_length bin) (saved_length bin) (bin.address / 2 ^ 56)
        (bin.address % 2 ^ 56)).1
      (level_to_max_amount (saved_level bin)) (get_or volumes (saved_level bin) empty_volume)
      (All-get_or (λ v. 0 < v.current_volume_length) volumes (saved_level bin) empty_volume
        (positive volumes h) (omega arith)),
)
  where
    positive :
        (vs : List BinVolume)
        → All (λ v. (0 < v.current_volume_length) × (v.current_volume_length < 2 ^ 56)) vs
        → All (λ v. 0 < v.current_volume_length) vs
    positive [] h = tt
    positive (v ∷ vs) h = (h.0.0, positive vs h.1)
