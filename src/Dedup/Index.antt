-- ===== src/Dedup/Index.antt =====
-- What the index of fingerprints holds after a file was marked.
use tcbackup.HashTable
use tcbackup.HashTable.{Table}
use tcbackup.HashTable.Chain.{or_else, or_else-none}
use tcbackup.HashTable.Laws.{IsMap, insert-IsMap, lookup-insert, size-insert}
use tcbackup.Store.{Store}
use tcbackup.Dedup.{
  new_chunk, dedup_chunk, FingerChunk, Bin, insert_meta, mark_known, write_chunk_to_cloud,
  write_or_log, mark_chunk, mark_new,
}
use tcbackup.Prelude.{
  ℕ, ◌+◌, ◌≡◌, refl, ap, sym, ◌∙◌, Option, none, some, List, [], ◌∷◌, Bytes, bytes_eq, All, arith,
  if◌then◌else◌, Option-cases, Bool-cases, inl, inr, bytes_eq_iff, bytes_eq_iff, bytes_eq_refl,
}

-- The address of the first chunk with a fingerprint.
unfoldable pub address_in : Bytes → List FingerChunk → Option Bytes
address_in q [] = none
address_in q (fc ∷ fcs) =
    or_else (if bytes_eq q fc.chunk_hash then some fc.chunkaddress else none) (address_in q fcs)

or_else_assoc : (a b c : Option Bytes) → or_else (or_else a b) c ≡ or_else a (or_else b c)
or_else_assoc none b c = refl
or_else_assoc (some x) b c = refl

-- A lookup after the insertion of a fingerprint that was not there.
lookup-insert_new :
    (k q v : Bytes) (bin : Bin)
    → IsMap bin
    → HashTable.lookup k bin ≡ none
    → HashTable.lookup q (HashTable.insert k v bin)
      ≡ or_else (HashTable.lookup q bin) (if bytes_eq q k then some v else none)
lookup-insert_new k q v bin m e = lookup-insert k q v bin m e ∙ elim (Bool-cases (bytes_eq q k)) [
  | inl s ↦
      let q_none : HashTable.lookup q bin ≡ none =
        ap (λ x. HashTable.lookup x bin) ((bytes_eq_iff q k).0 s) ∙ e in
      rw (s, q_none) refl
  | inr s ↦ rw s (sym (or_else-none (HashTable.lookup q bin)))
]

-- A lookup of a fingerprint that is there already.
lookup_kept :
    (k q v : Bytes) (bin : Bin)
    → HashTable.lookup k bin ≡ some v
    → HashTable.lookup q bin
      ≡ or_else (HashTable.lookup q bin) (if bytes_eq q k then some v else none)
lookup_kept k q v bin e = elim (Bool-cases (bytes_eq q k)) [
  | inl s ↦
      let q_some : HashTable.lookup q bin ≡ some v =
        ap (λ x. HashTable.lookup x bin) ((bytes_eq_iff q k).0 s) ∙ e in
      rw (s, q_some) refl
  | inr s ↦ rw s (sym (or_else-none (HashTable.lookup q bin)))
]

module _ (container_name : ℕ → Bytes) (read_file : ℕ → ℕ → Option Bytes) where
  pub write_or_log_same :
      (off_set : ℕ) (fc : FingerChunk) (s : Store)
      → ((write_or_log container_name read_file off_set fc s).0.chunk_hash ≡ fc.chunk_hash)
        × ((write_or_log container_name read_file off_set fc s).0.is_new ≡ fc.is_new)
  unfolding write_or_log write_chunk_to_cloud
  write_or_log_same off_set fc s = elim (Option-cases (read_file off_set fc.chunklen)) [
    | inl e ↦ rw (e, write_or_log) (refl, refl)
    | inr (content, e) ↦ rw (e, write_or_log) (refl, refl)
  ]

  pub mark_chunk_hash :
      (size : ℕ) (fc : FingerChunk) (bin : Bin) (s : Store)
      → (mark_chunk container_name read_file size fc bin s).0.chunk_hash ≡ fc.chunk_hash
  unfolding mark_chunk
  mark_chunk_hash size fc bin s = elim (Option-cases (HashTable.lookup fc.chunk_hash bin)) [
    | inl e ↦ rw (e, mark_chunk) (write_or_log_same size (record fc { is_new = new_chunk }) s).0
    | inr (address, e) ↦ rw (e, mark_chunk) refl
  ]

  -- One step: the index stays a map, the chunk is entered under its fingerprint, and it is
  -- counted as new when the index grows.
  record IsStep (fc fc' : FingerChunk) (bin bin' : Bin) : Type 0 where
    map : IsMap bin'
    hash : fc'.chunk_hash ≡ fc.chunk_hash
    found :
        (q : Bytes)
        → HashTable.lookup q bin'
          ≡ or_else
              (HashTable.lookup q bin)
              (if bytes_eq q fc'.chunk_hash then some fc'.chunkaddress else none)
    own : HashTable.lookup fc'.chunk_hash bin' ≡ some fc'.chunkaddress
    grown :
        HashTable.size bin'
        ≡ (elim fc'.is_new as (λ x. ℕ) [ new_chunk ↦ 1 | dedup_chunk ↦ 0 ]) + HashTable.size bin

  mark_chunk-IsStep :
      (size : ℕ) (fc : FingerChunk) (bin : Bin) (s : Store)
      → IsMap bin
      → IsStep fc
          (mark_chunk container_name read_file size fc bin s).0
          bin
          (mark_chunk container_name read_file size fc bin s).1
  unfolding mark_chunk
  mark_chunk-IsStep size fc bin s m = elim (Option-cases (HashTable.lookup fc.chunk_hash bin)) [
    | inl e ↦
        let fresh = record fc { is_new = new_chunk } in
        let fc' = (write_or_log container_name read_file size fresh s).0 in
        let same = write_or_log_same size fresh s in
        let absent : HashTable.lookup fc'.chunk_hash bin ≡ none =
          ap (λ x. HashTable.lookup x bin) (same.0) ∙ e in
        rw (e, mark_chunk)
          (record {
            map = insert-IsMap fc'.chunk_hash fc'.chunkaddress bin m absent;
            hash = same.0;
            found = λ q. lookup-insert_new fc'.chunk_hash q fc'.chunkaddress bin m absent;
            own =
                lookup-insert fc'.chunk_hash fc'.chunk_hash fc'.chunkaddress bin m absent
                ∙ rw (bytes_eq_refl fc'.chunk_hash) refl;
            grown =
                rw (same.1)
                  (omega (arith, size-insert fc'.chunk_hash fc'.chunkaddress bin m.shape));
          })
    | inr (address, e) ↦
        rw (e, mark_chunk)
          (record {
            map = m;
            hash = refl;
            found = λ q. lookup_kept fc.chunk_hash q address bin e;
            own = e;
            grown = omega arith;
          })
  ]

  pub mark_chunk-IsMap :
      (size : ℕ) (fc : FingerChunk) (bin : Bin) (s : Store)
      → IsMap bin
      → IsMap (mark_chunk container_name read_file size fc bin s).1
  mark_chunk-IsMap size fc bin s m = (mark_chunk-IsStep size fc bin s m).map

  -- After the chunks of a new file are marked against an index that is a map, it is still a map,
  -- and a fingerprint leads to the address that it had, else to the address of the first chunk of
  -- the file that has it.
  pub lookup-mark_new :
      (size : ℕ) (fcs : List FingerChunk) (bin : Bin) (s : Store)
      → IsMap bin
      → IsMap (mark_new container_name read_file size fcs bin s).1
        × ((q : Bytes)
            → HashTable.lookup q (mark_new container_name read_file size fcs bin s).1
              ≡ or_else
                  (HashTable.lookup q bin)
                  (address_in q (mark_new container_name read_file size fcs bin s).0))
  unfolding mark_new address_in
  lookup-mark_new size [] bin s m = (m, λ q. sym (or_else-none (HashTable.lookup q bin)))
  lookup-mark_new size (fc ∷ fcs) bin s m =
      let (fc', bin', s') = mark_chunk container_name read_file size fc bin s in
      let step = mark_chunk-IsStep size fc bin s m in
      let rest = lookup-mark_new (size + fc.chunklen) fcs bin' s' step.map in
      (
        rest.0,
        λ q.
            rest.1 q
            ∙ ap
                (λ o. or_else o (
                  address_in q
                    (mark_new container_name read_file (size + fc.chunklen) fcs bin' s').0))
                (step.found q)
            ∙ or_else_assoc (HashTable.lookup q bin) _ _,
      )

  -- With an index that is a map, every chunk that marking a new file gives carries the address
  -- under which the index afterwards knows its fingerprint.
  pub mark_new-address :
      (size : ℕ) (fcs : List FingerChunk) (bin : Bin) (s : Store)
      → IsMap bin
      → All
          (λ fc.
            HashTable.lookup fc.chunk_hash (mark_new container_name read_file size fcs bin s).1
            ≡ some fc.chunkaddress)
          (mark_new container_name read_file size fcs bin s).0
  unfolding mark_new
  mark_new-address size [] bin s m = tt
  mark_new-address size (fc ∷ fcs) bin s m =
      let (fc', bin', s') = mark_chunk container_name read_file size fc bin s in
      let step = mark_chunk-IsStep size fc bin s m in
      (
        (lookup-mark_new (size + fc.chunklen) fcs bin' s' step.map).1 fc'.chunk_hash
            ∙ ap
                (λ o. or_else o (
                  address_in fc'.chunk_hash
                    (mark_new container_name read_file (size + fc.chunklen) fcs bin' s').0))
                step.own,
        mark_new-address (size + fc.chunklen) fcs bin' s' step.map,
      )

-- A duplicate file leaves an index that is a map a map; a fingerprint leads to the address that
-- it had, else to the address of the first chunk of the file that has it.
pub lookup-mark_known :
    (fcs : List FingerChunk) (bin : Bin)
    → IsMap bin
    → IsMap (mark_known fcs bin)
      × ((q : Bytes)
          → HashTable.lookup q (mark_known fcs bin)
            ≡ or_else (HashTable.lookup q bin) (address_in q fcs))
unfolding mark_known insert_meta address_in
lookup-mark_known [] bin m = (m, λ q. sym (or_else-none (HashTable.lookup q bin)))
lookup-mark_known (fc ∷ fcs) bin m = elim (Option-cases (HashTable.lookup fc.chunk_hash bin)) [
  | inl e ↦
      let bin' = HashTable.insert fc.chunk_hash fc.chunkaddress bin in
      let rest = lookup-mark_known fcs bin' (insert-IsMap fc.chunk_hash fc.chunkaddress bin m e) in
      rw e (
        rest.0,
        λ q.
            rest.1 q
            ∙ ap (λ o. or_else o (address_in q fcs))
                (lookup-insert_new fc.chunk_hash q fc.chunkaddress bin m e)
            ∙ or_else_assoc (HashTable.lookup q bin) _ _,
      )
  | inr (address, e) ↦
      let rest = lookup-mark_known fcs bin m in
      rw e (rest.0, λ q. rest.1 q ∙ skip q (address_in q fcs) address e)
]
  where
    skip :
        (q : Bytes) (later : Option Bytes) (address : Bytes)
        → HashTable.lookup fc.chunk_hash bin ≡ some address
        → or_else (HashTable.lookup q bin) later
          ≡ or_else
              (HashTable.lookup q bin)
              (or_else (if bytes_eq q fc.chunk_hash then some fc.chunkaddress else none) later)
    skip q later address e = elim (Bool-cases (bytes_eq q fc.chunk_hash)) [
      | inl s ↦
          let there : HashTable.lookup q bin ≡ some address =
            ap (λ x. HashTable.lookup x bin) ((bytes_eq_iff q fc.chunk_hash).0 s) ∙ e in
          rw there refl
      | inr s ↦ rw s refl
    ]
