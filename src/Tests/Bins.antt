-- ===== src/Tests/Bins.antt =====
-- A bin with one fingerprint, saved in the volume of level 0.
use tcbackup.Binning.{
  Bin, BinVolume, bin_length, level_to_max_amount, fit_level, empty_volume, write_bin, read_bin,
}
use tcbackup.Binning.Slot.{IsBin}
use tcbackup.Binning.RoundTrip.{saved_level, read_bin-write_bin}
use tcbackup.HashTable
use tcbackup.HashTable.{Table}
use tcbackup.HashTable.Each.{Each-init, Each-insert, Each-items}
use tcbackup.HashTable.Laws.{IsMap, init-IsMap, lookup-init, insert-IsMap, size-insert, size-init}
use tcbackup.Tests.{hash_a}
use tcbackup.Prelude.{
  ◌+◌, ◌^◌, ◌<◌, ◌≡◌, refl, ap, ◌∙◌, true, some, List, Bytes, All, length, replicate, arith,
}

abbrev address : Bytes
address = replicate 64 1

abbrev fingers : Table Bytes
fingers = HashTable.insert hash_a address (HashTable.init Bytes 20 4)

abbrev pub bin : Bin
bin = record { rep_finger = replicate 20 0; fingers = fingers; address = 0 }

fingers-IsMap : IsMap fingers
fingers-IsMap =
    insert-IsMap hash_a address _ (init-IsMap Bytes 20 4) (lookup-init Bytes 20 4 hash_a)

fingers_size : HashTable.size fingers ≡ 1
fingers_size =
    size-insert hash_a address (HashTable.init Bytes 20 4) (init-IsMap Bytes 20 4).shape
    ∙ ap (λ n. n + 1) (size-init Bytes 20 4)

pub bin-IsBin : IsBin bin
bin-IsBin = record {
  table = fingers-IsMap;
  rep = refl;
  entries =
      Each-items (λ e. (length e.0 ≡ 20) × (length e.1 ≡ 64)) fingers fingers-IsMap.shape
        (Each-insert (λ e. (length e.0 ≡ 20) × (length e.1 ≡ 64)) hash_a address _ (refl, refl)
          (Each-init _ 20 4));
  counted = omega (arith, fingers_size);
}

abbrev pub volumes : List BinVolume
volumes = replicate 30 empty_volume

pub level_zero : saved_level bin ≡ 0
unfolding fit_level level_to_max_amount
level_zero = ap (λ n. (fit_level (bin_length n) (bin_length n) 0 0).0) fingers_size

volumes_short : All (λ v. v.current_volume_length < 2 ^ 56) volumes
unfolding empty_volume
volumes_short = ground arith

read_bin-write_bin_example :
    (bin' : Bin) × (read_bin
        (record {
          rep_finger = replicate 20 0;
          fingers = HashTable.init Bytes 20 100;
          address = (write_bin bin volumes).0;
        })
        (write_bin bin volumes).1
      ≡ some (true, bin'))
    × ((q : Bytes) → HashTable.lookup q bin'.fingers ≡ HashTable.lookup q bin.fingers)
read_bin-write_bin_example =
    read_bin-write_bin bin bin-IsBin volumes (omega (arith, level_zero)) volumes_short 100
