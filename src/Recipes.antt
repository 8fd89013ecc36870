-- ===== src/Recipes.antt =====
-- server/src/recipe.c: the recipe volume, a file with the chunks of every file that the server knows.
-- The volume and its file are one state; the calls on the file succeed, and a file that starts with the
-- key has a whole head. Successive writes are one. A list of chunks ends where the file does.
pub mod Held
pub mod Volume
use tcbackup.Prelude.{
  ℕ, zero, suc, ◌+◌, ◌-◌, ◌*◌, ◌/◌, ◌%◌, ◌^◌, ◌≤◌, ◌<◌, ◌≡◌, refl, sym, ap, ap₂, ◌∙◌, ◌≢◌, ◌↔◌, ◌⊎◌,
  inl, inr, Bool, true, false, ◌&&◌, ◌||◌, not, Option, none, some, List, [], ◌∷◌, ◌++◌, map, arith,
  Bytes, bytes_eq, length, take, drop, replicate, set, get_or, length-append, length-take,
  length-drop, length-replicate, take-append-drop, take_all, take_front, drop_front, drop-drop, ltb,
  leb, ◌==◌, if◌then◌else◌, tests, Bool-cases, Option-cases, All, le32, un_le32, un_le32, le32,
  un_le32,
}
use tcbackup.Binning.{write_at}
use tcbackup.Dedup.{FileState}
use tcbackup.Container.{finger_length}
use tcbackup.Binning.{chunk_address_length}
use tcbackup.Network.Chunks.{ChunkInfo, le64, loop_count}

abbrev pub recipe_volume_head_size : ℕ
recipe_volume_head_size = 16

abbrev pub magic_key : ℕ
magic_key = 0xa1b2c3d4

-- `is_new` is -1 at first.
pub record Recipe : Type 0 where
  pub chunknum : ℕ
  pub filename : Bytes
  pub file_hash : Bytes
  pub is_new : Option FileState
  pub chunks : List ChunkInfo

pub record RecipeVolume : Type 0 where
  pub file_num : ℕ
  pub volume_length : ℕ
  pub file : Bytes

unfoldable pub recipe_new : Recipe
recipe_new = record {
  chunknum = 0;
  filename = [];
  file_hash = replicate finger_length 0;
  is_new = none;
  chunks = [];
}

unfoldable pub recipe_append_fingerchunk : Recipe → ChunkInfo → Recipe
recipe_append_fingerchunk rp fc = record rp {
  chunks = rp.chunks ++ (fc ∷ []);
  chunknum = rp.chunknum + 1;
}

-- The head of the file.
unfoldable pub head : ℕ → ℕ → Bytes
unfolding le64 le32
head file_num volume_length = le32 magic_key ++ (le32 file_num ++ le64 volume_length)

unfoldable pub un_le64 : Bytes → ℕ
unfolding un_le32
un_le64 b = un_le32 b + un_le32 (drop 4 b) * 2 ^ 32

-- `recipe_volume_init` on the bytes of the file, none of them in a new one.
unfoldable pub recipe_volume_init : Bytes → RecipeVolume
unfolding head write_at un_le64
recipe_volume_init file =
    if leb 4 (length file) && un_le32 file == magic_key
    then record {
      file_num = un_le32 (drop 4 file);
      volume_length = un_le64 (drop 8 file);
      file = file;
    }
    else record {
      file_num = 0;
      volume_length = recipe_volume_head_size;
      file = write_at 0 (head 0 recipe_volume_head_size) file;
    }

unfoldable pub recipe_volume_flush : RecipeVolume → RecipeVolume
unfolding head write_at
recipe_volume_flush rv = record rv { file = write_at 0 (head rv.file_num rv.volume_length) rv.file }

unfoldable pub entries : List ChunkInfo → Bytes
entries [] = []
entries ((chunk_hash, chunk_address) ∷ fcs) = chunk_hash ++ (chunk_address ++ entries fcs)

-- The offset of the recipe and the volume with it. The number of chunks takes 4 bytes in the file, and
-- 8 are counted.
unfoldable pub write_recipe_to_vol : Recipe → RecipeVolume → ℕ × RecipeVolume
unfolding entries write_at
write_recipe_to_vol rp rv = (
  rv.volume_length,
  record {
    file_num = rv.file_num + 1;
    volume_length = rv.volume_length + (8 + rp.chunknum * (finger_length + chunk_address_length));
    file = write_at rv.volume_length (le32 rp.chunknum ++ entries rp.chunks) rv.file;
  },
)

-- The loop of `read_recipe_from_vol`.
unfoldable pub read_entries : ℕ → Bytes → Recipe → Recipe
unfolding recipe_append_fingerchunk
read_entries zero bytes rp = rp
read_entries (suc count) bytes rp =
    let chunk_hash = take finger_length bytes in
    let chunk_address = take chunk_address_length (drop finger_length bytes) in
    read_entries count (drop chunk_address_length (drop finger_length bytes))
      (recipe_append_fingerchunk rp (chunk_hash, chunk_address))

unfoldable pub read_recipe_from_vol : ℕ → RecipeVolume → Recipe → Recipe
unfolding read_entries loop_count
read_recipe_from_vol offset rv rp =
    let bytes = drop offset rv.file in
    if leb 4 (length bytes) then read_entries (loop_count (un_le32 bytes)) (drop 4 bytes) rp else rp
