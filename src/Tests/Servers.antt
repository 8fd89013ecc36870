-- ===== src/Tests/Servers.antt =====
-- A server that gets the recipe of a file of two chunks.
use tcbackup.Prelude.{
  All, sym, ℕ, ◌^◌, ◌≤◌, ◌<◌, ◌≡◌, refl, sym, ◌∙◌, none, some, List, [], ◌∷◌, arith, Bytes, length,
  replicate,
}
use tcbackup.HashTable
use tcbackup.HashTable.Walk
use tcbackup.HashTable.Laws.{IsMap, insert-IsMap, lookup-insert, init-IsMap, lookup-init}
use mathlib.Core.Option.{none-ne-some}
use tcbackup.Dedup.{dedup_file}
use tcbackup.Network.{message}
use tcbackup.Network.Chunks.{ChunkInfo}
use tcbackup.Recipes.{
  Recipe, RecipeVolume, recipe_new, recipe_volume_init, recipe_volume_flush, write_recipe_to_vol,
  read_recipe_from_vol,
}
use tcbackup.Recipes.Held.{
  AreHeld, AreReadAlike, extended, write_recipe-IsHeld, read_recipe-write_recipe,
}
use tcbackup.Recipes.Volume.{recipe_volume_init-recipe_volume_flush}
use tcbackup.Server.{IndexTable, IndexLaws, Server, is_new_file, on_file_hash, on_file_recipe}
use tcbackup.Server.Saved.{IsItem, index_open, index_close, index_open-index_close}
use tcbackup.Server.Served.{IsServed, on_file_recipe-IsServed, on_file_hash-on_file_recipe}
use tcbackup.Tests.{hash_a, hash_b}

-- The client's hash table can be the table of the index.
abbrev index_table : IndexTable
index_table = record {
  Table = HashTable.Table ℕ;
  htable_lookup = HashTable.lookup;
  htable_add = HashTable.insert;
  htable_init = HashTable.init ℕ 20 4;
  foreach_htable = Walk.items;
  num_items = HashTable.size;
}

index_laws : IndexLaws index_table
index_laws = record {
  IsSound = IsMap;
  htable_add-IsSound = insert-IsMap;
  htable_lookup-htable_add = λ k q v t m e. lookup-insert k q v t m e;
  htable_init-IsSound = init-IsMap ℕ 20 4;
  htable_lookup-htable_init = lookup-init ℕ 20 4;
  find-foreach_htable = λ q t m. Walk.find-items q t m.shape;
  num_items-length = λ t m. sym (Walk.length-items t m.shape);
}

abbrev infos : List ChunkInfo
infos = (hash_a, replicate 64 1) ∷ (hash_b, replicate 64 2) ∷ []

abbrev recipe : Recipe
recipe = record { chunknum = 2; filename = []; file_hash = hash_a; is_new = none; chunks = infos }

abbrev volume : RecipeVolume
volume = record { file_num = 0; volume_length = 16; file = [] }

-- Where the first recipe of a volume is held.
abbrev first : List (ℕ × List ChunkInfo)
first = (16, infos) ∷ []

held : AreHeld (write_recipe_to_vol recipe volume).1 first
unfolding write_recipe_to_vol
held = (
  write_recipe-IsHeld volume recipe ((refl, refl), ((refl, refl), tt)) (omega arith) refl
      (omega arith),
  tt,
)

long_enough : 16 ≤ (write_recipe_to_vol recipe volume).1.volume_length
unfolding write_recipe_to_vol
long_enough = omega arith

read_recipe-write_recipe_example :
    let rv = (write_recipe_to_vol recipe volume).1 in
    let (offset', rv') = write_recipe_to_vol recipe rv in
    (read_recipe_from_vol offset' rv' recipe_new ≡ extended recipe_new infos)
    × AreReadAlike rv rv' recipe_new first
read_recipe-write_recipe_example =
    read_recipe-write_recipe (write_recipe_to_vol recipe volume).1 recipe recipe_new first
      ((refl, refl), ((refl, refl), tt)) (omega arith) refl long_enough held

counters :
    ((write_recipe_to_vol recipe volume).1.file_num < 2 ^ 32)
    × ((write_recipe_to_vol recipe volume).1.volume_length < 2 ^ 64)
unfolding write_recipe_to_vol
counters = (omega arith, omega arith)

recipe_volume_init-recipe_volume_flush_example :
    let rv = (write_recipe_to_vol recipe volume).1 in
    let rv' = recipe_volume_init (recipe_volume_flush rv).file in
    (rv'.file_num ≡ rv.file_num) × (rv'.volume_length ≡ rv.volume_length) × AreHeld rv' first
recipe_volume_init-recipe_volume_flush_example =
    recipe_volume_init-recipe_volume_flush (write_recipe_to_vol recipe volume).1 first counters.0
      counters.1 held

abbrev server : Server index_table
server = record { index = HashTable.init ℕ 20 4; volume = volume }

abbrev recipe_of : Bytes → List ChunkInfo
recipe_of q = infos

server-IsServed : IsServed index_table index_laws recipe_of server
unfolding index_laws
server-IsServed = record {
  sound = init-IsMap ℕ 20 4;
  behind = omega arith;
  held = λ q offset found. absurd (none-ne-some offset (sym (lookup-init ℕ 20 4 q) ∙ found));
}

on_file_recipe-IsServed_example :
    let s = on_file_recipe index_table infos (on_file_hash index_table hash_b server).0 server in
    IsServed index_table index_laws recipe_of s
    × ((offset : ℕ) × (HashTable.lookup hash_b s.index ≡ some offset))
on_file_recipe-IsServed_example =
    on_file_recipe-IsServed index_table index_laws recipe_of hash_b server server-IsServed
      ((refl, refl), ((refl, refl), tt)) (omega arith)

on_file_hash-on_file_recipe_example :
    let s = on_file_recipe index_table infos (on_file_hash index_table hash_b server).0 server in
    let (rp, answer) = on_file_hash index_table hash_b s in
    (is_new_file (message (length answer) answer) ≡ some dedup_file)
    × (rp.is_new ≡ some dedup_file)
    × (rp.chunks ≡ infos)
    × (rp.chunknum ≡ 2)
on_file_hash-on_file_recipe_example =
    on_file_hash-on_file_recipe index_table index_laws recipe_of hash_b server server-IsServed
      ((refl, refl), ((refl, refl), tt)) (omega arith)

abbrev index : HashTable.Table ℕ
index = HashTable.insert hash_a 16 (HashTable.init ℕ 20 4)

index-IsMap : IsMap index
index-IsMap =
    insert-IsMap hash_a 16 (HashTable.init ℕ 20 4) (init-IsMap ℕ 20 4) (lookup-init ℕ 20 4 hash_a)

whole_items : All IsItem (Walk.items index)
unfolding Walk.items HashTable.insert HashTable.init HashTable.hash_index
whole_items = ((refl, omega arith), tt)

index_size : HashTable.size index < 2 ^ 31
unfolding HashTable.insert HashTable.init
index_size = omega arith

sound : index_laws.IsSound index
unfolding index_laws
sound = index-IsMap

index_open-index_close_example :
    HashTable.lookup hash_a
      (index_open index_table (index_close index_table index []) (HashTable.init ℕ 20 4))
    ≡ HashTable.lookup hash_a index
index_open-index_close_example =
    index_open-index_close index_table index_laws index [] hash_a sound whole_items index_size
