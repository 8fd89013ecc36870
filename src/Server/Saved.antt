-- ===== src/Server/Saved.antt =====
-- server/src/index.c, `index_close` and `index_open`: the index is saved to its file and read back. Both
-- find the file; the file that is opened is whole. `htable_insert` adds a key that is not there, as
-- `index_insert` does.
use tcbackup.Prelude.{
  ℕ, zero, suc, ◌+◌, ◌^◌, ◌<◌, ◌≡◌, refl, sym, ap, ◌∙◌, inl, inr, Bool, true, false, Option, none,
  some, List, [], ◌∷◌, ◌++◌, arith, Bytes, bytes_eq, length, take, drop, length-append, take_front,
  drop_front, leb, if◌then◌else◌, le32, un_le32, length-le32, bytes_eq_iff, Bool-cases,
  Option-cases, All,
}
use mathlib.Core.List.{append_assoc}
use mathlib.Core.Path.{subst}
use tcbackup.Binning.{write_at}
use tcbackup.Container.{finger_length}
use tcbackup.HashTable
use tcbackup.HashTable.Chain.{or_else, or_else-none}
use tcbackup.Network.Chunks.{le64, loop_count}
use tcbackup.Recipes.{un_le64}
use tcbackup.Recipes.Volume.{un_le64-le64}
use tcbackup.Recipes.Held.{count-le32, drop-write_at}
use tcbackup.Network.Chunks.RoundTrip.{length-le64}
use tcbackup.Server.{IndexTable, IndexLaws, index_insert}

unfoldable pub index_items : List (Bytes × ℕ) → Bytes
unfolding le64 le32
index_items [] = []
index_items ((hash, offset) ∷ items) = hash ++ (le64 offset ++ index_items items)

module _ (i : IndexTable) where
  -- The file after `index_close`, which writes over its beginning.
  unfoldable pub index_close : i.Table → Bytes → Bytes
  unfolding index_items write_at
  index_close t file = write_at 0 (le32 (i.num_items t) ++ index_items (i.foreach_htable t)) file

  -- The loop of `index_open`.
  unfoldable pub read_index : ℕ → Bytes → i.Table → i.Table
  unfolding un_le64 index_insert
  read_index zero bytes t = t
  read_index (suc count) bytes t =
      read_index count (drop 8 (drop finger_length bytes))
        (index_insert i (take finger_length bytes) (un_le64 (drop finger_length bytes)) t)

  unfoldable pub index_open : Bytes → i.Table → i.Table
  unfolding read_index loop_count un_le32
  index_open file t =
      if leb 4 (length file) then read_index (loop_count (un_le32 file)) (drop 4 file) t else t

-- An item with a whole fingerprint and an offset of 8 bytes.
abbrev pub IsItem : Bytes × ℕ → Type 0
IsItem item = (length item.0 ≡ finger_length) × (item.1 < 2 ^ 64)

module _ (i : IndexTable) (laws : IndexLaws i) where
  -- What insertion of items one after the other gives.
  abbrev insert_all : List (Bytes × ℕ) → i.Table → i.Table
  insert_all [] t = t
  insert_all ((hash, offset) ∷ items) t = insert_all items (index_insert i hash offset t)

  read_item :
      (n : ℕ) (hash more : Bytes) (offset : ℕ) (t : i.Table)
      → length hash ≡ finger_length
      → offset < 2 ^ 64
      → read_index i (suc n) (hash ++ (le64 offset ++ more)) t
        ≡ read_index i n more (index_insert i hash offset t)
  unfolding read_index
  read_item n hash more offset t whole small =
      rw
        (
          take_front finger_length hash (le64 offset ++ more) whole,
          drop_front finger_length hash (le64 offset ++ more) whole,
          un_le64-le64 offset more small,
          drop_front 8 (le64 offset) more (length-le64 offset),
        )
        refl

  read_index-index_items :
      (items : List (Bytes × ℕ)) (rest : Bytes) (t : i.Table)
      → All IsItem items
      → read_index i (length items) (index_items items ++ rest) t ≡ insert_all items t
  unfolding read_index index_items
  read_index-index_items [] rest t h = refl
  read_index-index_items ((hash, offset) ∷ items) rest t (here, h) =
      ap (λ b. read_index i (suc (length items)) b t)
        (append_assoc hash (le64 offset ++ index_items items) rest
          ∙ ap (λ b. hash ++ b) (append_assoc (le64 offset) (index_items items) rest))
      ∙ read_item (length items) hash (index_items items ++ rest) offset t here.0 here.1
      ∙ read_index-index_items items rest (index_insert i hash offset t) h

  index_insert_new :
      (hash : Bytes) (offset : ℕ) (t : i.Table)
      → i.htable_lookup hash t ≡ none
      → index_insert i hash offset t ≡ i.htable_add hash offset t
  unfolding index_insert
  index_insert_new hash offset t e = rw (e, index_insert) refl

  index_insert_known :
      (hash : Bytes) (offset found : ℕ) (t : i.Table)
      → i.htable_lookup hash t ≡ some found
      → index_insert i hash offset t ≡ t
  unfolding index_insert
  index_insert_known hash offset found t e = rw (e, index_insert) refl

  abbrev Inserted : Bytes → Bytes → ℕ → i.Table → i.Table → Type 0
  Inserted hash q offset t t' =
      laws.IsSound t'
      × (i.htable_lookup q t'
          ≡ or_else (i.htable_lookup q t) (if bytes_eq q hash then some offset else none))

  index_insert_sound :
      (hash q : Bytes) (offset : ℕ) (t : i.Table)
      → laws.IsSound t
      → Inserted hash q offset t (index_insert i hash offset t)
  index_insert_sound hash q offset t sound = elim (Option-cases (i.htable_lookup hash t)) [
    | inl e ↦ subst (Inserted hash q offset t) (sym (index_insert_new hash offset t e)) (
      laws.htable_add-IsSound hash offset t sound e,
      laws.htable_lookup-htable_add hash q offset t sound e ∙ elim (Bool-cases (bytes_eq q hash)) [
        | inl same ↦
            let absent : i.htable_lookup q t ≡ none =
              ap (λ k. i.htable_lookup k t) ((bytes_eq_iff q hash).0 same) ∙ e in
            rw (same, absent) refl
        | inr other ↦ rw other (sym (or_else-none (i.htable_lookup q t)))
      ],
    )
    | inr (found, e) ↦
        subst (Inserted hash q offset t) (sym (index_insert_known hash offset found t e)) (
          sound,
          elim (Bool-cases (bytes_eq q hash)) [
            | inl same ↦
                let there : i.htable_lookup q t ≡ some found =
                  ap (λ k. i.htable_lookup k t) ((bytes_eq_iff q hash).0 same) ∙ e in
                rw there refl
            | inr other ↦ rw other (sym (or_else-none (i.htable_lookup q t)))
          ],
        )
  ]

  or_else_if :
      (o rest : Option ℕ) (b : Bool) (offset : ℕ)
      → or_else (or_else o (if b then some offset else none)) rest
        ≡ or_else o (if b then some offset else rest)
  or_else_if none rest true offset = refl
  or_else_if none rest false offset = refl
  or_else_if (some x) rest b offset = refl

  lookup-insert_all :
      (items : List (Bytes × ℕ)) (q : Bytes) (t : i.Table)
      → laws.IsSound t
      → i.htable_lookup q (insert_all items t)
        ≡ or_else (i.htable_lookup q t) (HashTable.find q items)
  unfolding HashTable.find
  lookup-insert_all [] q t sound = sym (or_else-none (i.htable_lookup q t))
  lookup-insert_all ((hash, offset) ∷ items) q t sound =
      let (sound', found) = index_insert_sound hash q offset t sound in
      lookup-insert_all items q (index_insert i hash offset t) sound'
      ∙ ap (λ o. or_else o (HashTable.find q items)) found
      ∙ or_else_if (i.htable_lookup q t) (HashTable.find q items) (bytes_eq q hash) offset

  -- With a table that keeps its laws, fewer than 2^31 items, whole fingerprints and offsets below
  -- 2^64: the index that index_close writes over any file and index_open reads into an empty table
  -- finds for every key what the saved one finds.
  pub index_open-index_close :
      (t : i.Table) (file q : Bytes)
      → laws.IsSound t
      → All IsItem (i.foreach_htable t)
      → i.num_items t < 2 ^ 31
      → i.htable_lookup q (index_open i (index_close i t file) i.htable_init) ≡ i.htable_lookup q t
  unfolding index_open index_close
  index_open-index_close t file q sound items few =
      let content = le32 (i.num_items t) ++ index_items (i.foreach_htable t) in
      let tail = drop (0 + length content) file in
      let saved : write_at 0 content file
          ≡ le32 (i.num_items t) ++ (index_items (i.foreach_htable t) ++ tail) =
        drop-write_at 0 content file
        ∙ append_assoc (le32 (i.num_items t)) (index_items (i.foreach_htable t)) tail in
      let long : leb 4 (length (write_at 0 content file)) ≡ true = ground (
        arith,
        ap length saved,
        length-append (le32 (i.num_items t)) (index_items (i.foreach_htable t) ++ tail),
        length-le32 (i.num_items t),
      ) in
      rw
        (
          long,
          count-le32 (i.num_items t) (index_items (i.foreach_htable t) ++ tail)
              (write_at 0 content file) saved few,
        )
        (ap
            (λ n.
              i.htable_lookup q
                (read_index i n (index_items (i.foreach_htable t) ++ tail) i.htable_init))
            (laws.num_items-length t sound)
          ∙ ap (i.htable_lookup q)
              (read_index-index_items (i.foreach_htable t) tail i.htable_init items)
          ∙ lookup-insert_all (i.foreach_htable t) q i.htable_init laws.htable_init-IsSound
          ∙ ap (λ o. or_else o (HashTable.find q (i.foreach_htable t)))
              (laws.htable_lookup-htable_init q)
          ∙ laws.find-foreach_htable q t sound)
