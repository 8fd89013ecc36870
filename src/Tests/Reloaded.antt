-- ===== src/Tests/Reloaded.antt =====
-- The bin of Tests/Bins, freed from the cache and loaded again.
use tcbackup.Binning.{Bin, empty_volume}
use tcbackup.Binning.Primary.{MainIndex, ExtremeBinning, load_bin, free_bin}
use tcbackup.Binning.Primary.Reload.{load_bin-free_bin}
use tcbackup.HashTable
use tcbackup.HashTable.{Table, lookup}
use tcbackup.HashTable.Walk
use tcbackup.HashTable.Each.{Each-init, Each-insert, Each-items}
use tcbackup.HashTable.Laws.{
  IsMap, init-IsMap, lookup-init, insert-IsMap, lookup-insert, size-insert, size-init,
}
use tcbackup.Binning.Files.{extreme_binning_flush, extreme_binning_init}
use tcbackup.Binning.Files.Volumes.{IsSaveable, IsSameVolume}
use tcbackup.Binning.Files.Index.{IsEntry, extreme_binning_init-extreme_binning_flush}
use tcbackup.Tests.Bins.{bin, bin-IsBin, volumes, level_zero}
use tcbackup.Prelude.{
  ◌<◌, ◌^◌, ◌≡◌, some, Bytes, All, bytes_eq, arith, [], map, get_or, ap, ◌∙◌, ◌+◌, refl,
}

abbrev entry : MainIndex
entry = record { file_hash = bin.rep_finger; binaddr = 0 }

abbrev primary : Table MainIndex
primary = HashTable.insert bin.rep_finger entry (HashTable.init MainIndex 20 4)

abbrev cache : Table Bin
cache = HashTable.insert bin.rep_finger bin (HashTable.init Bin 20 4)

abbrev binning : ExtremeBinning
binning = record { main_table = primary; bin_cache = cache; volumes = volumes }

entered : lookup bin.rep_finger primary ≡ some entry
unfolding bytes_eq
entered =
    lookup-insert bin.rep_finger bin.rep_finger entry _ (init-IsMap MainIndex 20 4)
      (lookup-init MainIndex 20 4 bin.rep_finger)

volumes_headed :
    All (λ v. (0 < v.current_volume_length) × (v.current_volume_length < 2 ^ 56)) volumes
unfolding empty_volume
volumes_headed = ground arith

load_bin-free_bin_example :
    (bin' : Bin) × (ex' : ExtremeBinning) × (load_bin bin.rep_finger bin.rep_finger 100
        (free_bin bin binning)
      ≡ some (bin', ex'))
    × ((q : Bytes) → lookup q bin'.fingers ≡ lookup q bin.fingers)
load_bin-free_bin_example =
    load_bin-free_bin bin bin-IsBin binning entry
      (insert-IsMap bin.rep_finger bin _ (init-IsMap Bin 20 4)
        (lookup-init Bin 20 4 bin.rep_finger))
      (insert-IsMap bin.rep_finger entry _ (init-IsMap MainIndex 20 4)
        (lookup-init MainIndex 20 4 bin.rep_finger))
      entered (omega (arith, level_zero)) volumes_headed bin.rep_finger 100

primary-IsMap : IsMap primary
primary-IsMap =
    insert-IsMap bin.rep_finger entry _ (init-IsMap MainIndex 20 4)
      (lookup-init MainIndex 20 4 bin.rep_finger)

primary_size : HashTable.size primary ≡ 1
primary_size =
    size-insert bin.rep_finger entry (HashTable.init MainIndex 20 4)
      (init-IsMap MainIndex 20 4).shape
    ∙ ap (λ n. n + 1) (size-init MainIndex 20 4)

primary_whole : All IsEntry (Walk.items primary)
primary_whole =
    Each-items IsEntry primary primary-IsMap.shape
      (Each-insert IsEntry bin.rep_finger entry _ (refl, refl, omega arith) (Each-init _ 20 4))

volumes-IsSaveable : All IsSaveable volumes
unfolding empty_volume
volumes-IsSaveable = ground arith

extreme_binning_init-extreme_binning_flush_example :
    let (repfinger, flushed) = extreme_binning_flush binning [] in
    let ex' = extreme_binning_init repfinger (map (λ v. v.file) flushed) in
    (lookup bin.rep_finger ex'.main_table ≡ lookup bin.rep_finger primary)
    × IsMap ex'.main_table
    × IsSameVolume (get_or volumes 29 empty_volume) (get_or ex'.volumes 29 empty_volume)
extreme_binning_init-extreme_binning_flush_example =
    extreme_binning_init-extreme_binning_flush binning [] primary-IsMap primary_whole
      (omega (arith, primary_size)) bin.rep_finger 29 volumes-IsSaveable (omega arith) (omega arith)
