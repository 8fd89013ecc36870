-- ===== src/Binning/Files.antt =====
-- client/src/extreme_binning.c, the files between two runs: ExtremeBinningFlush and BinVolumeFlush write the
-- primary index and the heads of the volumes, ExtremeBinningInit and BinVolumeInit read them. Every file
-- can be opened, and a file of the primary index with the key is whole. An `int64_t` of an address is its
-- bit pattern. The cache of bins is not saved.
pub mod Volumes
pub mod Index
use tcbackup.Prelude.{
  ℕ, zero, suc, ◌+◌, ◌-◌, ◌*◌, ◌/◌, ◌%◌, ◌^◌, ◌≤◌, ◌<◌, ◌≡◌, refl, sym, ap, ap₂, ◌∙◌, ◌≢◌, ◌↔◌, ◌⊎◌,
  inl, inr, Bool, true, false, ◌&&◌, ◌||◌, not, Option, none, some, List, [], ◌∷◌, ◌++◌, map, arith,
  Bytes, bytes_eq, length, take, drop, replicate, set, get_or, length-append, length-take,
  length-drop, length-replicate, take-append-drop, take_all, take_front, drop_front, drop-drop, ltb,
  leb, ◌==◌, if◌then◌else◌, tests, Bool-cases, Option-cases, All, le32, un_le32, is_neg32,
  un_le32-le32, drop-le32, length-le32, ==_iff,
}
use mathlib.Core.List.{append_assoc}
use tcbackup.Container.{finger_length}
use tcbackup.HashTable
use tcbackup.HashTable.{Table, find, lookup}
use tcbackup.HashTable.Walk
use tcbackup.HashTable.Chain.{or_else, or_else-none}
use tcbackup.HashTable.Invariant.{hits}
use tcbackup.HashTable.Laws.{IsMap, init-IsMap, lookup-init, hits-init}
use tcbackup.HashTable.Load.{insert_all, insert_all-IsMap, lookup-insert_all}
use tcbackup.Binning.{Bin, BinVolume, write_at}
use tcbackup.Binning.Primary.{MainIndex, ExtremeBinning}
use tcbackup.Network.Chunks.{le64}
use tcbackup.Recipes.{un_le64, magic_key}

abbrev pub bvolume_head_size : ℕ
bvolume_head_size = 20

-- The head of a volume: the key, its level and its counters.
unfoldable pub volume_head : ℕ → ℕ → ℕ → Bytes
unfolding le32 le64
volume_head level bin_num volume_length =
    le32 magic_key ++ (le32 level ++ (le32 bin_num ++ le64 volume_length))

-- `BinVolumeInit` on the bytes of the file. A counter that the file is too short for keeps its first
-- value in the bytes that do not come.
unfoldable pub bin_volume_init : ℕ → Bytes → BinVolume
unfolding volume_head write_at un_le64 un_le32
bin_volume_init level file =
    if leb 4 (length file) && un_le32 file == magic_key
    then if leb 8 (length file) && un_le32 (drop 4 file) == level
      then record {
        current_bin_num = un_le32 (drop 8 file);
        current_volume_length =
            if leb 13 (length file) then un_le64 (drop 12 file) else bvolume_head_size;
        file = file;
      }
      else record { current_bin_num = 0; current_volume_length = bvolume_head_size; file = file }
    else record {
      current_bin_num = 0;
      current_volume_length = bvolume_head_size;
      file = write_at 0 (volume_head level 0 bvolume_head_size) file;
    }

unfoldable pub bin_volume_flush : ℕ → BinVolume → BinVolume
unfolding volume_head write_at
bin_volume_flush level bvol = record bvol {
  file = write_at 0 (volume_head level bvol.current_bin_num bvol.current_volume_length) bvol.file;
}

-- The loops over the volumes, from a level on.
unfoldable pub init_volumes : ℕ → List Bytes → List BinVolume
init_volumes level [] = []
init_volumes level (file ∷ files) = bin_volume_init level file ∷ init_volumes (suc level) files

unfoldable pub flush_volumes : ℕ → List BinVolume → List BinVolume
flush_volumes level [] = []
flush_volumes level (bvol ∷ bvols) = bin_volume_flush level bvol ∷ flush_volumes (suc level) bvols

-- The walk of `ExtremeBinningFlush` over the primary index.
unfoldable pub main_entries : List (Bytes × MainIndex) → Bytes
unfolding le64
main_entries [] = []
main_entries ((rep_finger, mainindex) ∷ es) =
    take finger_length rep_finger
    ++ (take finger_length mainindex.file_hash ++ (le64 mainindex.binaddr ++ main_entries es))

-- The file `repfinger`, which is written over from its beginning, and the volumes.
unfoldable pub extreme_binning_flush : ExtremeBinning → Bytes → Bytes × List BinVolume
unfolding main_entries flush_volumes write_at le32
extreme_binning_flush exbin repfinger = (
  write_at 0
      (le32 magic_key
        ++ (le32 (HashTable.size exbin.main_table) ++ main_entries (Walk.items exbin.main_table)))
      repfinger,
  flush_volumes 0 exbin.volumes,
)

-- The loop of `ExtremeBinningInit`.
unfoldable pub read_main : ℕ → Bytes → Table MainIndex → Table MainIndex
unfolding un_le64
read_main zero p t = t
read_main (suc n) p t =
    let q = drop finger_length p in
    let r = drop finger_length q in
    read_main n (drop 8 r) (
      HashTable.insert (take finger_length p)
        (record { file_hash = take finger_length q; binaddr = un_le64 r }) t)

-- `ExtremeBinningInit` on the bytes of `repfinger` and of the volumes.
unfoldable pub extreme_binning_init : Bytes → List Bytes → ExtremeBinning
unfolding read_main init_volumes un_le32
extreme_binning_init repfinger files =
    let fresh = HashTable.init MainIndex finger_length 3200 in
    let item_num = un_le32 (drop 4 repfinger) in
    let read = read_main (if is_neg32 item_num then 0 else item_num) (drop 8 repfinger) fresh in
    record {
      main_table =
          if leb 4 (length repfinger) && un_le32 repfinger == magic_key then read else fresh;
      bin_cache = HashTable.init Bin finger_length 100;
      volumes = init_volumes 0 files;
    }
