-- ===== src/Binning/Files/Volumes.antt =====
-- client/src/extreme_binning.c: the heads of the volumes are saved and read back.
use tcbackup.Prelude.{
  ℕ, zero, suc, ◌+◌, ◌^◌, ◌<◌, ◌≡◌, refl, ap, ap₂, ◌∙◌, true, List, [], ◌∷◌, ◌++◌, map, arith,
  Bytes, length, drop, get_or, length-append, drop_front, leb, ◌==◌, All, le32, un_le32,
  un_le32-le32, ==_iff,
}
use tcbackup.Binning.{BinVolume, empty_volume}
use tcbackup.Binning.Files.{
  volume_head, bin_volume_init, bin_volume_flush, init_volumes, flush_volumes,
}
use tcbackup.Network.Chunks.{le64}
use tcbackup.Recipes.{un_le64, magic_key}
use tcbackup.Recipes.Held.{drop-write_at}
use tcbackup.Recipes.Volume.{un_le64-le64}

length-volume_head : (level num len : ℕ) → length (volume_head level num len) ≡ 20
unfolding volume_head le32 le64
length-volume_head level num len = refl

-- Counters that their fields in the head can hold.
abbrev pub IsSaveable : BinVolume → Type 0
IsSaveable v = (v.current_bin_num < 2 ^ 32) × (v.current_volume_length < 2 ^ 64)

-- A volume with the same counters and the same bins.
abbrev pub IsSameVolume : BinVolume → BinVolume → Type 0
IsSameVolume v w =
    (w.current_bin_num ≡ v.current_bin_num)
    × (w.current_volume_length ≡ v.current_volume_length)
    × (drop 20 w.file ≡ drop 20 v.file)

init_headed :
    (level num len : ℕ) (rest file : Bytes)
    → level < 2 ^ 32
    → num < 2 ^ 32
    → len < 2 ^ 64
    → file ≡ volume_head level num len ++ rest
    → bin_volume_init level file
      ≡ record { current_bin_num = num; current_volume_length = len; file = file }
unfolding bin_volume_init volume_head
init_headed level num len rest file few small short e =
    let long = ap length e ∙ length-append (volume_head level num len) rest in
    let sized = length-volume_head level num len in
    let long4 : leb 4 (length file) ≡ true = ground (arith, long, sized) in
    let long8 : leb 8 (length file) ≡ true = ground (arith, long, sized) in
    let long13 : leb 13 (length file) ≡ true = ground (arith, long, sized) in
    let key : (un_le32 file == magic_key) ≡ true =
      ap (λ b. un_le32 b == magic_key) e
      ∙ (==_iff _ magic_key).1
          (un_le32-le32 magic_key (le32 level ++ ((le32 num ++ le64 len) ++ rest)) (omega arith)) in
    let same_level : (un_le32 (drop 4 file) == level) ≡ true =
      ap (λ b. un_le32 (drop 4 b) == level) e
      ∙ (==_iff _ level).1 (un_le32-le32 level ((le32 num ++ le64 len) ++ rest) few) in
    let number : un_le32 (drop 8 file) ≡ num =
      ap (λ b. un_le32 (drop 8 b)) e ∙ un_le32-le32 num (le64 len ++ rest) small in
    let longness : un_le64 (drop 12 file) ≡ len =
      ap (λ b. un_le64 (drop 12 b)) e ∙ un_le64-le64 len rest short in
    rw (long4, key, long8, same_level, long13, bin_volume_init)
      (ap₂ (λ n l. record { current_bin_num = n; current_volume_length = l; file = file }) number
        longness)

flushed :
    (level : ℕ) (v : BinVolume)
    → (bin_volume_flush level v).file
      ≡ volume_head level v.current_bin_num v.current_volume_length ++ drop 20 v.file
unfolding bin_volume_flush
flushed level v =
    drop-write_at 0 (volume_head level v.current_bin_num v.current_volume_length) v.file
    ∙ ap (λ n. volume_head level v.current_bin_num v.current_volume_length ++ drop n v.file)
        (ap (λ n. 0 + n) (length-volume_head level v.current_bin_num v.current_volume_length))

reopened :
    (level : ℕ) (v : BinVolume)
    → level < 2 ^ 32
    → IsSaveable v
    → IsSameVolume v (bin_volume_init level (bin_volume_flush level v).file)
unfolding bin_volume_flush
reopened level v few h =
    let head = volume_head level v.current_bin_num v.current_volume_length in
    let opened =
      init_headed level v.current_bin_num v.current_volume_length (drop 20 v.file)
        (bin_volume_flush level v).file few h.0 h.1 (flushed level v) in
    (
      ap (λ w. w.current_bin_num) opened,
      ap (λ w. w.current_volume_length) opened,
      ap (λ w. drop 20 w.file) opened
          ∙ ap (drop 20) (flushed level v)
          ∙ drop_front 20 head (drop 20 v.file)
              (length-volume_head level v.current_bin_num v.current_volume_length),
    )

-- The volumes from a level on.
pub init_volumes-flush_volumes :
    (level i : ℕ) (vs : List BinVolume)
    → level + length vs < 2 ^ 32
    → All IsSaveable vs
    → i < length vs
    → IsSameVolume
        (get_or vs i empty_volume)
        (get_or (init_volumes level (map (λ v. v.file) (flush_volumes level vs))) i empty_volume)
unfolding init_volumes flush_volumes
init_volumes-flush_volumes level i [] few h below = absurd (omega (arith, below))
init_volumes-flush_volumes level zero (v ∷ vs) few h below =
    reopened level v (omega (arith, few)) h.0
init_volumes-flush_volumes level (suc i) (v ∷ vs) few h below =
    init_volumes-flush_volumes (suc level) i vs (omega (arith, few)) h.1 (omega (arith, below))
