-- ===== src/Binning/Primary.antt =====
-- client/src/extreme_binning.c, the primary index: LocationBin, NewBin, LoadBin and FreeBin. A
-- bin in the cache is changed through its pointer, so it enters the cache here as it is once it
-- was read. The initial size of a table, which LoadBin takes from the file, is a number.
pub mod Reload
use tcbackup.Binning.{Bin, BinVolume, write_bin, read_bin}
use tcbackup.Container.{finger_length}
use tcbackup.HashTable
use tcbackup.HashTable.{Table}
use tcbackup.Prelude.{ℕ, Bool, Option, none, some, List, Bytes, if◌then◌else◌, ◌==◌}

pub record MainIndex : Type 0 where
  pub file_hash : Bytes
  pub binaddr : ℕ

pub record ExtremeBinning : Type 0 where
  pub main_table : Table MainIndex
  pub bin_cache : Table Bin
  pub volumes : List BinVolume

-- The address of the bin, and the primary index, which learns a new finger with address 0.
unfoldable pub location_bin : Bytes → Bytes → Table MainIndex → ℕ × Table MainIndex
location_bin rep_finger file_hash main_table = elim (HashTable.lookup rep_finger main_table) [
  | some mainindex ↦ (mainindex.binaddr, main_table)
  | none ↦
      (0, HashTable.insert rep_finger (record { file_hash = file_hash; binaddr = 0 }) main_table)
]

unfoldable pub new_bin : ℕ → Bytes → ℕ → Bin
new_bin addr rep_finger chunk_num = record {
  rep_finger = rep_finger;
  fingers = HashTable.init Bytes finger_length chunk_num;
  address = addr;
}

-- `none` where the read of the volume does not end. The result of the read is not looked at.
unfoldable pub fill_bin : Bin → List BinVolume → Option Bin
fill_bin bin volumes =
    if bin.address == 0
    then some bin
    else elim (read_bin bin volumes) [ none ↦ none | some (done, bin') ↦ some bin' ]

unfoldable pub load_bin : Bytes → Bytes → ℕ → ExtremeBinning → Option (Bin × ExtremeBinning)
unfolding location_bin new_bin fill_bin
load_bin rep_finger file_hash chunknum ex = elim (HashTable.lookup rep_finger ex.bin_cache) [
  | some bin ↦ some (bin, ex)
  | none ↦
      let (addr, main_table) = location_bin rep_finger file_hash ex.main_table in
      elim (fill_bin (new_bin addr rep_finger chunknum) ex.volumes) [
        | none ↦ none
        | some bin ↦ some (
          bin,
          record ex {
            main_table = main_table;
            bin_cache = HashTable.insert rep_finger bin ex.bin_cache;
          },
        )
      ]
]

-- A bin whose finger the primary index does not know stays in the cache.
unfoldable pub free_bin : Bin → ExtremeBinning → ExtremeBinning
free_bin bin ex =
    let (new_addr, volumes) = write_bin bin ex.volumes in
    let bin_cache = (HashTable.remove bin.rep_finger ex.bin_cache).1 in
    if new_addr == 0
    then record ex { bin_cache = bin_cache; volumes = volumes }
    else elim (HashTable.lookup bin.rep_finger ex.main_table) [
      | none ↦ record ex { volumes = volumes }
      | some mainindex ↦ record ex {
        main_table =
            HashTable.modify bin.rep_finger (λ m. record m { binaddr = new_addr }) ex.main_table;
        bin_cache = bin_cache;
        volumes = volumes;
      }
    ]
