-- ===== src/Binning/Files/Index.antt =====
-- client/src/extreme_binning.c: the primary index is saved and read back.
use tcbackup.Prelude.{
  ℕ, suc, ◌+◌, ◌^◌, ◌≤◌, ◌<◌, ◌≡◌, refl, sym, ap, ap₂, ◌∙◌, true, false, ◌&&◌, List, [], ◌∷◌, ◌++◌,
  map, arith, Bytes, length, take, drop, get_or, length-append, take_all, take_front, drop_front,
  leb, ◌==◌, All, le32, un_le32, is_neg32, un_le32-le32, drop-le32, length-le32,
}
use mathlib.Core.List.{append_assoc}
use mathlib.Core.Path.{subst}
use tcbackup.Container.{finger_length}
use tcbackup.HashTable
use tcbackup.HashTable.{Table, find, lookup}
use tcbackup.HashTable.Walk
use tcbackup.HashTable.Chain.{count, or_else, or_else-none}
use tcbackup.HashTable.Invariant.{hits}
use tcbackup.HashTable.Laws.{IsMap, init-IsMap, lookup-init, hits-init}
use tcbackup.HashTable.Load.{insert_all, insert_all-IsMap, lookup-insert_all}
use tcbackup.Binning.{empty_volume}
use tcbackup.Binning.Primary.{MainIndex, ExtremeBinning}
use tcbackup.Binning.Files.{main_entries, read_main, extreme_binning_flush, extreme_binning_init}
use tcbackup.Binning.Files.Volumes.{IsSaveable, IsSameVolume, init_volumes-flush_volumes}
use tcbackup.Network.Chunks.{le64}
use tcbackup.Network.Chunks.RoundTrip.{length-le64}
use tcbackup.Recipes.{magic_key}
use tcbackup.Recipes.Held.{drop-write_at}
use tcbackup.Recipes.Volume.{un_le64-le64}

-- An item with whole fingerprints and an address of 8 bytes.
abbrev pub IsEntry : Bytes × MainIndex → Type 0
IsEntry e =
    (length e.0 ≡ finger_length) × (length e.1.file_hash ≡ finger_length) × (e.1.binaddr < 2 ^ 64)

entry_fields :
    (k f b more rest : Bytes)
    → (take finger_length k ++ (take finger_length f ++ (b ++ more))) ++ rest
      ≡ take finger_length k ++ (take finger_length f ++ (b ++ (more ++ rest)))
entry_fields k f b more rest = simp append_assoc

read_entry :
    (n : ℕ) (k f more : Bytes) (addr : ℕ) (t : Table MainIndex)
    → length k ≡ finger_length
    → length f ≡ finger_length
    → addr < 2 ^ 64
    → read_main (suc n) (k ++ (f ++ (le64 addr ++ more))) t
      ≡ read_main n more (HashTable.insert k (record { file_hash = f; binaddr = addr }) t)
unfolding read_main
read_entry n k f more addr t whole hashed small =
    rw
      (
        take_front finger_length k (f ++ (le64 addr ++ more)) whole,
        drop_front finger_length k (f ++ (le64 addr ++ more)) whole,
        take_front finger_length f (le64 addr ++ more) hashed,
        drop_front finger_length f (le64 addr ++ more) hashed,
        un_le64-le64 addr more small,
        drop_front 8 (le64 addr) more (length-le64 addr),
      )
      refl

read_main-main_entries :
    (es : List (Bytes × MainIndex)) (rest : Bytes) (t : Table MainIndex)
    → All IsEntry es
    → read_main (length es) (main_entries es ++ rest) t ≡ insert_all es t
unfolding read_main main_entries insert_all
read_main-main_entries [] rest t h = refl
read_main-main_entries ((k, m) ∷ es) rest t (here, h) =
    let more = main_entries es ++ rest in
    ap (λ p. read_main (suc (length es)) p t)
      (entry_fields k m.file_hash (le64 m.binaddr) (main_entries es) rest
        ∙ ap₂ (λ x y. x ++ (y ++ (le64 m.binaddr ++ more)))
            (take_all finger_length k (omega (arith, here.0)))
            (take_all finger_length m.file_hash (omega (arith, here.1))))
    ∙ read_entry (length es) k m.file_hash more m.binaddr t here.0 here.1 here.2
    ∙ read_main-main_entries es rest (HashTable.insert k m t) h

module _ (ex : ExtremeBinning) (repfinger : Bytes) (table : IsMap ex.main_table)
    (whole : All IsEntry (Walk.items ex.main_table))
    (few : HashTable.size ex.main_table < 2 ^ 31) where
  abbrev saved : Bytes
  saved = (extreme_binning_flush ex repfinger).0

  abbrev es : Bytes
  es = main_entries (Walk.items ex.main_table)

  abbrev behind : Bytes
  behind =
      le32 (HashTable.size ex.main_table)
      ++ (es
          ++ drop (0 + length (le32 magic_key ++ (le32 (HashTable.size ex.main_table) ++ es)))
              repfinger)

  saved_bytes : saved ≡ le32 magic_key ++ behind
  unfolding extreme_binning_flush
  saved_bytes =
      drop-write_at 0 (le32 magic_key ++ (le32 (HashTable.size ex.main_table) ++ es)) repfinger
      ∙ simp append_assoc

  keyed : (leb 4 (length saved) && un_le32 saved == magic_key) ≡ true
  keyed =
      let key : un_le32 saved ≡ magic_key =
        ap un_le32 saved_bytes ∙ un_le32-le32 magic_key behind (omega arith) in
      ground (
        arith,
        key,
        ap length saved_bytes,
        length-append (le32 magic_key) behind,
        length-le32 magic_key,
      )

  items_read :
      (t : Table MainIndex)
      → read_main (HashTable.size ex.main_table) (drop 8 saved) t
        ≡ insert_all (Walk.items ex.main_table) t
  unfolding le32
  items_read t =
      ap (λ b. read_main (HashTable.size ex.main_table) (drop 8 b) t) saved_bytes
      ∙ ap (λ n. read_main n (drop 8 (le32 magic_key ++ behind)) t)
          (sym (Walk.length-items ex.main_table table.shape))
      ∙ read_main-main_entries (Walk.items ex.main_table) _ t whole

  counted : un_le32 (drop 4 saved) ≡ HashTable.size ex.main_table
  counted =
      ap (λ b. un_le32 (drop 4 b)) saved_bytes
      ∙ ap un_le32 (drop-le32 magic_key behind)
      ∙ un_le32-le32 (HashTable.size ex.main_table) _ (omega (arith, few))

  reloaded :
      (files : List Bytes)
      → (extreme_binning_init saved files).main_table
        ≡ insert_all (Walk.items ex.main_table) (HashTable.init MainIndex finger_length 3200)
  unfolding extreme_binning_init
  reloaded files =
      let positive : is_neg32 (HashTable.size ex.main_table) ≡ false = ground (arith, few) in
      rw (keyed, counted, positive) (items_read (HashTable.init MainIndex finger_length 3200))

  fresh :
      (q : Bytes)
      → count q (Walk.items ex.main_table) + hits q (HashTable.init MainIndex finger_length 3200)
        ≤ 1
  fresh q = omega (
    arith,
    Walk.count-items q ex.main_table table.shape,
    table.distinct q,
    hits-init MainIndex finger_length 3200 q,
  )

  -- A primary index that is a map, of fewer than 2^31 items, with whole fingerprints and addresses
  -- below 2^64, and fewer than 2^32 volumes with counters that fit into their fields: what
  -- ExtremeBinningFlush writes, over any file, is read by ExtremeBinningInit into an index that is
  -- a map and finds for every key what the saved one finds, and every volume has its counters and
  -- its bytes behind the head.
  pub extreme_binning_init-extreme_binning_flush :
      (q : Bytes) (level : ℕ)
      → All IsSaveable ex.volumes
      → length ex.volumes < 2 ^ 32
      → level < length ex.volumes
      → let (repfinger', volumes) = extreme_binning_flush ex repfinger in
        let ex' = extreme_binning_init repfinger' (map (λ v. v.file) volumes) in
        (lookup q ex'.main_table ≡ lookup q ex.main_table)
        × IsMap ex'.main_table
        × IsSameVolume
            (get_or ex.volumes level empty_volume)
            (get_or ex'.volumes level empty_volume)
  unfolding extreme_binning_flush extreme_binning_init
  extreme_binning_init-extreme_binning_flush q level saveable short below =
      let start = HashTable.init MainIndex finger_length 3200 in
      let files = map (λ v. v.file) (extreme_binning_flush ex repfinger).1 in
      let empty = init-IsMap MainIndex finger_length 3200 in
      (
        ap (lookup q) (reloaded files)
            ∙ lookup-insert_all q (Walk.items ex.main_table) start empty fresh
            ∙ ap (or_else (find q (Walk.items ex.main_table)))
                (lookup-init MainIndex finger_length 3200 q)
            ∙ or_else-none (find q (Walk.items ex.main_table))
            ∙ Walk.find-items q ex.main_table table.shape,
        subst IsMap (sym (reloaded files))
            (insert_all-IsMap (Walk.items ex.main_table) start empty fresh),
        init_volumes-flush_volumes 0 level ex.volumes (omega (arith, short)) saveable below,
      )
