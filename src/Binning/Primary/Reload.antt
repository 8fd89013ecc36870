-- ===== src/Binning/Primary/Reload.antt =====
-- A bin that was freed and is loaded again.
use tcbackup.Binning.{Bin, BinVolume, write_bin, read_bin, finger_length}
use tcbackup.Binning.Primary.{
  MainIndex, ExtremeBinning, location_bin, new_bin, fill_bin, load_bin, free_bin,
}
use tcbackup.Binning.RoundTrip.{saved_level, write_bin_nonzero, read_bin-write_bin}
use tcbackup.Binning.Slot.{IsBin}
use tcbackup.HashTable
use tcbackup.HashTable.{Table, lookup}
use tcbackup.HashTable.Laws.{IsMap, lookup-remove, lookup-modify}
use tcbackup.Prelude.{
  ℕ, ◌<◌, ◌^◌, ◌≡◌, refl, ap, ◌∙◌, true, false, none, some, List, [], ◌∷◌, Bytes, All, length,
  arith, ◌==◌, bytes_eq_refl,
}

-- Loading a bin that is not cached, step by step.
load_bin_uncached :
    (rep_finger file_hash : Bytes) (chunknum addr : ℕ) (ex : ExtremeBinning) (t : Table MainIndex)
    (bin : Bin)
    → lookup rep_finger ex.bin_cache ≡ none
    → location_bin rep_finger file_hash ex.main_table ≡ (addr, t)
    → fill_bin (new_bin addr rep_finger chunknum) ex.volumes ≡ some bin
    → load_bin rep_finger file_hash chunknum ex
      ≡ some (
        bin,
        record ex { main_table = t; bin_cache = HashTable.insert rep_finger bin ex.bin_cache },
      )
unfolding load_bin
load_bin_uncached rep_finger file_hash chunknum addr ex t bin e l f =
    rw (e, l, f, load_bin)
      (ap
        (λ x. some (
          bin,
          record ex { main_table = x; bin_cache = HashTable.insert rep_finger bin ex.bin_cache },
        ))
        (ap (λ p. p.1) l))

module _ (bin : Bin) (w : IsBin bin) (ex : ExtremeBinning) (m : MainIndex)
    (cache_map : IsMap ex.bin_cache) (main_map : IsMap ex.main_table)
    (known : lookup bin.rep_finger ex.main_table ≡ some m)
    (level_exists : saved_level bin < length ex.volumes)
    (headed : All
      (λ v. (0 < v.current_volume_length) × (v.current_volume_length < 2 ^ 56))
      ex.volumes) where
  abbrev new_addr : ℕ
  new_addr = (write_bin bin ex.volumes).0

  abbrev freed : ExtremeBinning
  freed = record ex {
    main_table =
        HashTable.modify bin.rep_finger (λ k. record k { binaddr = new_addr }) ex.main_table;
    bin_cache = (HashTable.remove bin.rep_finger ex.bin_cache).1;
    volumes = (write_bin bin ex.volumes).1;
  }

  short :
      (vs : List BinVolume)
      → All (λ v. (0 < v.current_volume_length) × (v.current_volume_length < 2 ^ 56)) vs
      → All (λ v. v.current_volume_length < 2 ^ 56) vs
  short [] h = tt
  short (v ∷ vs) h = (h.0.1, short vs h.1)

  nonzero : (new_addr == 0) ≡ false
  nonzero = ground (arith, write_bin_nonzero bin w ex.volumes level_exists headed)

  free_bin_result : free_bin bin ex ≡ freed
  unfolding free_bin
  free_bin_result = rw (nonzero, known) refl

  not_cached : lookup bin.rep_finger freed.bin_cache ≡ none
  not_cached =
      lookup-remove bin.rep_finger bin.rep_finger ex.bin_cache cache_map
      ∙ rw (bytes_eq_refl bin.rep_finger) refl

  located : lookup bin.rep_finger freed.main_table ≡ some (record m { binaddr = new_addr })
  located =
      lookup-modify bin.rep_finger bin.rep_finger (λ k. record k { binaddr = new_addr })
        ex.main_table main_map.shape
      ∙ rw (bytes_eq_refl bin.rep_finger, known) refl

  location :
      (file_hash : Bytes)
      → location_bin bin.rep_finger file_hash freed.main_table ≡ (new_addr, freed.main_table)
  unfolding location_bin
  location file_hash = rw (located, location_bin) refl

  filled :
      (chunknum : ℕ) (bin' : Bin)
      → read_bin
          (record {
            rep_finger = bin.rep_finger;
            fingers = HashTable.init Bytes finger_length chunknum;
            address = new_addr;
          })
          freed.volumes
        ≡ some (true, bin')
      → fill_bin (new_bin new_addr bin.rep_finger chunknum) freed.volumes ≡ some bin'
  unfolding fill_bin new_bin
  filled chunknum bin' read = rw (nonzero, read, fill_bin) refl

  -- A valid bin, of fewer than 2^31 bytes when it is saved, whose finger the primary index knows,
  -- freed and loaded again: loading succeeds, and in the loaded bin every fingerprint has the
  -- address that it had. The cache and the primary index are maps, the level of the bin has a
  -- volume, and the volumes are neither empty nor as long as 2^56 bytes.
  pub load_bin-free_bin :
      (file_hash : Bytes) (chunknum : ℕ)
      → (bin' : Bin) × (ex' : ExtremeBinning) × (load_bin bin.rep_finger file_hash chunknum
            (free_bin bin ex)
          ≡ some (bin', ex'))
        × ((q : Bytes) → lookup q bin'.fingers ≡ lookup q bin.fingers)
  load_bin-free_bin file_hash chunknum =
      let (bin', read, same) =
        read_bin-write_bin bin w ex.volumes level_exists (short ex.volumes headed) chunknum in
      (
        bin',
        record freed { bin_cache = HashTable.insert bin.rep_finger bin' freed.bin_cache },
        ap (load_bin bin.rep_finger file_hash chunknum) free_bin_result
            ∙ load_bin_uncached bin.rep_finger file_hash chunknum new_addr freed freed.main_table
                bin' not_cached (location file_hash) (filled chunknum bin' read),
        same,
      )
