-- ===== src/Server.antt =====
-- The server's duplicate check for whole files: server/src/index.c, `index_insert` and `index_lookup`;
-- server/src/backup.c, `file_dedup_mark`; of server/src/dedupHandle.c, `new_backup`, what FILE_HASH and
-- FILE_RECIPE do to the index and the volume; and on the client `is_new_file` of
-- client/src/filededup.c.
-- The table of server/lib/htable.c is a parameter: its operations and their laws. The calls on the recipe
-- file succeed, the database is left out, and the messages come as values.
pub mod Saved
pub mod Served
use tcbackup.Prelude.{
  ℕ, zero, suc, ◌+◌, ◌-◌, ◌*◌, ◌/◌, ◌%◌, ◌^◌, ◌≤◌, ◌<◌, ◌≡◌, refl, sym, ap, ap₂, ◌∙◌, ◌≢◌, ◌↔◌, ◌⊎◌,
  inl, inr, Bool, true, false, ◌&&◌, ◌||◌, not, Option, none, some, List, [], ◌∷◌, ◌++◌, map, arith,
  Bytes, bytes_eq, length, take, drop, replicate, set, get_or, length-append, length-take,
  length-drop, length-replicate, take-append-drop, take_all, take_front, drop_front, drop-drop, ltb,
  leb, ◌==◌, if◌then◌else◌, tests, Bool-cases, Option-cases, All,
}
use tcbackup.HashTable
use tcbackup.Dedup.{FileState, new_file, dedup_file}
use tcbackup.Network.{Received, error, signal, message}
use tcbackup.Network.Chunks.{ChunkInfo, received_into}
use tcbackup.Recipes.{
  Recipe, RecipeVolume, recipe_new, recipe_append_fingerchunk, read_recipe_from_vol,
  write_recipe_to_vol,
}

-- A table from fingerprints to offsets, and the items that a walk over it visits.
pub record IndexTable : Type 1 where
  pub Table : Type 0
  pub htable_lookup : Bytes → Table → Option ℕ
  pub htable_add : Bytes → ℕ → Table → Table
  pub htable_init : Table
  pub foreach_htable : Table → List (Bytes × ℕ)
  pub num_items : Table → ℕ

-- Adding a key that is not there keeps the table sound, and only that key finds something new. A walk
-- visits every item, and of those with a key first the one that is found.
pub record IndexLaws (i : IndexTable) : Type 1 where
  pub IsSound : i.Table → Type 0
  pub htable_add-IsSound :
      (k : Bytes) (v : ℕ) (t : i.Table)
      → IsSound t
      → i.htable_lookup k t ≡ none
      → IsSound (i.htable_add k v t)
  pub htable_lookup-htable_add :
      (k q : Bytes) (v : ℕ) (t : i.Table)
      → IsSound t
      → i.htable_lookup k t ≡ none
      → i.htable_lookup q (i.htable_add k v t)
        ≡ (if bytes_eq q k then some v else i.htable_lookup q t)
  pub htable_init-IsSound : IsSound i.htable_init
  pub htable_lookup-htable_init : (q : Bytes) → i.htable_lookup q i.htable_init ≡ none
  pub find-foreach_htable :
      (q : Bytes) (t : i.Table)
      → IsSound t
      → HashTable.find q (i.foreach_htable t) ≡ i.htable_lookup q t
  pub num_items-length : (t : i.Table) → IsSound t → i.num_items t ≡ length (i.foreach_htable t)

-- The answer of the server: SUCCESS and NEW_FILE are the bytes 1 and 0, and `strlen` ends at the 0.
unfoldable pub reply : FileState → Bytes
reply new_file = 1 ∷ []
reply dedup_file = 1 ∷ 1 ∷ []

-- `is_new_file` of the client, after the answer came: `none` for FAILURE.
unfoldable pub is_new_file : Received → Option FileState
unfolding received_into
is_new_file got = elim (received_into (replicate 256 0) got) [
  | none ↦ none
  | some buf ↦
      if get_or buf 0 0 == 0
      then none
      else some (if get_or buf 1 0 == 0 then new_file else dedup_file)
]

module _ (i : IndexTable) where
  pub record Server : Type 0 where
    pub index : i.Table
    pub volume : RecipeVolume

  unfoldable pub index_insert : Bytes → ℕ → i.Table → i.Table
  index_insert hash offset index = elim (i.htable_lookup hash index) [
    | none ↦ i.htable_add hash offset index
    | some found ↦ index
  ]

  -- The recipe after the check, and the answer that is sent.
  unfoldable pub file_dedup_mark : Recipe → Server → Recipe × Bytes
  unfolding reply
  file_dedup_mark rp s = elim (i.htable_lookup rp.file_hash s.index) [
    | none ↦ (record rp { is_new = some new_file }, reply new_file)
    | some offset ↦ (
      read_recipe_from_vol offset s.volume (record rp { is_new = some dedup_file }),
      reply dedup_file,
    )
  ]

  -- FILE_HASH: a new recipe with the fingerprint that came.
  unfoldable pub on_file_hash : Bytes → Server → Recipe × Bytes
  unfolding file_dedup_mark
  on_file_hash hash s = file_dedup_mark (record recipe_new { file_hash = hash }) s

  -- The chunks that came are appended to the recipe.
  unfoldable pub append_chunks : List ChunkInfo → Recipe → Recipe
  append_chunks [] rp = rp
  append_chunks (fc ∷ fcs) rp = append_chunks fcs (recipe_append_fingerchunk rp fc)

  -- FILE_RECIPE: a new file's chunks are written to the volume, and the index learns it.
  unfoldable pub on_file_recipe : List ChunkInfo → Recipe → Server → Server
  unfolding append_chunks index_insert
  on_file_recipe fcs rp s = elim rp.is_new [
    | none ↦ s
    | some dedup_file ↦ s
    | some new_file ↦
        let (offset, volume) = write_recipe_to_vol (append_chunks fcs rp) s.volume in
        record { index = index_insert rp.file_hash offset s.index; volume = volume }
  ]
