-- ===== src/Binning.antt =====
-- client/src/extreme_binning.c: a bin (an index of fingerprints) is saved in the volume of its
-- level, whose slots hold 512 * 2^level bytes, and read back from the address that it got.
-- A volume is its counters and the bytes of its file; the calls on the file are taken to succeed,
-- and a volume too short for a slot is read as `none` (the loop of `read` calls does not end).
pub mod Slot
pub mod Primary
pub mod Files
pub mod RoundTrip
use tcbackup.Container.{finger_length}
use tcbackup.HashTable
use tcbackup.HashTable.{Table}
use tcbackup.HashTable.Walk
use tcbackup.Prelude.{
  ℕ, zero, suc, ◌+◌, ◌-◌, ◌*◌, ◌/◌, ◌%◌, ◌^◌, Bool, true, false, Option, none, some, List, [], ◌∷◌,
  ◌++◌, Bytes, bytes_eq, if◌then◌else◌, ltb, leb, ◌==◌, length, get_or, set, take, drop, replicate,
  le32, un_le32, is_neg32, not,
}

abbrev pub chunk_address_length : ℕ
chunk_address_length = 64

pub record Bin : Type 0 where
  pub rep_finger : Bytes
  pub fingers : Table Bytes
  pub address : ℕ

pub record BinVolume : Type 0 where
  pub current_bin_num : ℕ
  pub current_volume_length : ℕ
  pub file : Bytes

-- For the levels that exist. Longer bins than a 32-bit length allows would be needed for others.
unfoldable pub level_to_max_amount : ℕ → ℕ
level_to_max_amount zero = 512
level_to_max_amount (suc level) = 2 * level_to_max_amount level

-- The loop that looks for a level; a bin that leaves its level leaves its slot.
unfoldable pub fit_level : ℕ → ℕ → ℕ → ℕ → ℕ × ℕ
unfolding level_to_max_amount
fit_level zero nlen level offset = (level, offset)
fit_level (suc fuel) nlen level offset =
    let rest = fit_level fuel nlen (suc level) 0 in
    if ltb (level_to_max_amount level) nlen then rest else (level, offset)

unfoldable pub metas : List (Bytes × Bytes) → Bytes
metas [] = []
metas ((finger, address) ∷ ms) =
    take finger_length finger ++ (take chunk_address_length address ++ metas ms)

-- The slot: the representative finger, the count, the entries and a filling of 0xcf bytes.
unfoldable pub bin_slot : Bin → ℕ → Bytes
unfolding metas
bin_slot bin current_bin_size =
    let p =
      take finger_length bin.rep_finger
      ++ (le32 (HashTable.size bin.fingers) ++ metas (Walk.items bin.fingers)) in
    p ++ replicate (current_bin_size - length p) 207

-- `lseek` and `write`: a gap is filled with zeros.
unfoldable pub write_at : ℕ → Bytes → Bytes → Bytes
write_at offset bytes file =
    take offset (file ++ replicate (offset - length file) 0)
    ++ (bytes ++ drop (offset + length bytes) file)

unfoldable pub empty_volume : BinVolume
empty_volume = record { current_bin_num = 0; current_volume_length = 20; file = [] }

-- The slot of a bin in its volume: the old one, or a new one at the end.
unfoldable pub place_bin : ℕ → ℕ → BinVolume → ℕ × BinVolume
place_bin offset current_bin_size bvol =
    if offset == 0
    then (
      bvol.current_volume_length,
      record bvol {
        current_bin_num = bvol.current_bin_num + 1;
        current_volume_length = bvol.current_volume_length + current_bin_size;
      },
    )
    else (offset, bvol)

-- The length of a bin with so many entries, the `int32_t nlen`; below zero it is below every level, as 0 is.
abbrev pub bin_length : ℕ → ℕ
bin_length size =
    let nlen = (finger_length + 4 + size * (finger_length + chunk_address_length)) % 2 ^ 32 in
    if is_neg32 nlen then 0 else nlen

-- `WriteBinToVolume`: the new address and the volumes. `nlen` levels are enough for the loop.
-- A slot that is too small for the entries, where `nlen` wraps, is overrun; here it is as long as they are.
unfoldable pub write_bin : Bin → List BinVolume → ℕ × List BinVolume
unfolding fit_level bin_slot write_at place_bin empty_volume
write_bin bin volumes =
    let nlen = bin_length (HashTable.size bin.fingers) in
    let (level, offset) = fit_level nlen nlen (bin.address / 2 ^ 56) (bin.address % 2 ^ 56) in
    let current_bin_size = level_to_max_amount level in
    let (offset', bvol) = place_bin offset current_bin_size (get_or volumes level empty_volume) in
    (
      level * 2 ^ 56 + offset',
      set volumes level
          (record bvol { file = write_at offset' (bin_slot bin current_bin_size) bvol.file }),
    )

unfoldable pub read_metas : ℕ → Bytes → Table Bytes → Table Bytes
read_metas zero p t = t
read_metas (suc n) p t =
    read_metas n (drop chunk_address_length (drop finger_length p))
      (HashTable.insert (take finger_length p) (take chunk_address_length (drop finger_length p)) t)

unfoldable pub parse_bin : Bytes → Bin → Bool × Bin
unfolding read_metas
parse_bin p bin =
    let chunknum = un_le32 (drop finger_length p) in
    let fingers =
      read_metas (if is_neg32 chunknum then 0 else chunknum) (drop 4 (drop finger_length p))
        bin.fingers in
    if not (bytes_eq bin.rep_finger (take finger_length p))
    then (false, bin)
    else (true, record bin { fingers = fingers })

-- `ReadBinFromVolume` into a bin.
unfoldable pub read_bin : Bin → List BinVolume → Option (Bool × Bin)
unfolding parse_bin level_to_max_amount empty_volume
read_bin bin volumes =
    let level = bin.address / 2 ^ 56 in
    let offset = bin.address % 2 ^ 56 in
    let current_bin_size = level_to_max_amount level in
    let file = (get_or volumes level empty_volume).file in
    if leb (offset + current_bin_size) (length file)
    then some (parse_bin (take current_bin_size (drop offset file)) bin)
    else none
