-- ===== src/Recipes/Volume.antt =====
-- server/src/recipe.c: the head of the volume is saved and read back, and recipes outlast it.
use tcbackup.Prelude.{
  ℕ, ◌+◌, ◌-◌, ◌*◌, ◌^◌, ◌≤◌, ◌<◌, ◌≡◌, refl, sym, ap, ap₂, ◌∙◌, true, ◌&&◌, List, [], ◌∷◌, ◌++◌,
  arith, Bytes, length, take, drop, length-append, drop-drop, leb, ◌==◌, un_le32-le32, un_le32,
  le32, drop-append_past,
}
use mathlib.Core.Path.{subst}
use tcbackup.Network.Chunks.{ChunkInfo, le64}
use tcbackup.Recipes.{
  RecipeVolume, head, un_le64, magic_key, recipe_volume_init, recipe_volume_flush,
}
use tcbackup.Recipes.Held.{IsHeld, AreHeld, IsHeld-same, drop-write_at}

pub un_le64-le64 : (n : ℕ) (rest : Bytes) → n < 2 ^ 64 → un_le64 (le64 n ++ rest) ≡ n
unfolding un_le64 le64 un_le32 le32
un_le64-le64 n rest h = omega arith

length-head : (file_num volume_length : ℕ) → length (head file_num volume_length) ≡ 16
unfolding head le32 le64
length-head file_num volume_length = refl

flushed :
    (rv : RecipeVolume)
    → (recipe_volume_flush rv).file ≡ head rv.file_num rv.volume_length ++ drop 16 rv.file
unfolding recipe_volume_flush
flushed rv =
    drop-write_at 0 (head rv.file_num rv.volume_length) rv.file
    ∙ ap (λ n. head rv.file_num rv.volume_length ++ drop n rv.file)
        (ap (λ n. 0 + n) (length-head rv.file_num rv.volume_length))

behind_head :
    (rv : RecipeVolume) (offset : ℕ)
    → 16 ≤ offset
    → drop offset (recipe_volume_flush rv).file ≡ drop offset rv.file
behind_head rv offset h =
    let len = length-head rv.file_num rv.volume_length in
    ap (drop offset) (flushed rv)
    ∙ drop-append_past offset (head rv.file_num rv.volume_length) (drop 16 rv.file)
        (omega (arith, len, h))
    ∙ drop-drop 16 (offset - length (head rv.file_num rv.volume_length)) rv.file
    ∙ ap (λ n. drop n rv.file) (omega (arith, len, h))

flush-IsHeld :
    (rv : RecipeVolume) (offset : ℕ) (fcs : List ChunkInfo)
    → IsHeld rv offset fcs
    → IsHeld (recipe_volume_flush rv) offset fcs
unfolding recipe_volume_flush
flush-IsHeld rv offset fcs h =
    IsHeld-same rv (recipe_volume_flush rv) offset fcs h (omega arith)
      (ap (take (4 + length fcs * 84)) (behind_head rv offset h.behind))

keyed :
    (file_num volume_length : ℕ) (rest : Bytes)
    → (leb 4 (length (head file_num volume_length ++ rest))
        && un_le32 (head file_num volume_length ++ rest) == magic_key)
      ≡ true
unfolding head le32
keyed file_num volume_length rest =
    let key : un_le32 (head file_num volume_length ++ rest) ≡ magic_key =
      un_le32-le32 magic_key (le32 file_num ++ (le64 volume_length ++ rest)) (omega arith) in
    ground (
      arith,
      key,
      length-append (head file_num volume_length) rest,
      length-head file_num volume_length,
    )

init_head :
    (file_num volume_length : ℕ) (rest file : Bytes)
    → file_num < 2 ^ 32
    → volume_length < 2 ^ 64
    → file ≡ head file_num volume_length ++ rest
    → recipe_volume_init file
      ≡ record { file_num = file_num; volume_length = volume_length; file = file }
unfolding recipe_volume_init head
init_head file_num volume_length rest file small short e =
    let test : (leb 4 (length file) && un_le32 file == magic_key) ≡ true =
      ap (λ b. leb 4 (length b) && un_le32 b == magic_key) e ∙ keyed file_num volume_length rest in
    let number : un_le32 (drop 4 file) ≡ file_num =
      ap (λ b. un_le32 (drop 4 b)) e ∙ un_le32-le32 file_num (le64 volume_length ++ rest) small in
    let longness : un_le64 (drop 8 file) ≡ volume_length =
      ap (λ b. un_le64 (drop 8 b)) e ∙ un_le64-le64 volume_length rest short in
    rw (test, recipe_volume_init)
      (ap₂ (λ n v. record { file_num = n; volume_length = v; file = file }) number longness)

flush-AreHeld :
    (rv : RecipeVolume) (held : List (ℕ × List ChunkInfo))
    → AreHeld rv held
    → AreHeld (recipe_volume_flush rv) held
flush-AreHeld rv [] h = tt
flush-AreHeld rv ((offset, fcs) ∷ held) (h, hs) =
    (flush-IsHeld rv offset fcs h, flush-AreHeld rv held hs)

-- A recipe volume with fewer than 2^32 files and a length below 2^64, with any number of recipes
-- held, also none, that is flushed and opened again has the same counters, and each recipe that
-- was held is held.
pub recipe_volume_init-recipe_volume_flush :
    (rv : RecipeVolume) (held : List (ℕ × List ChunkInfo))
    → rv.file_num < 2 ^ 32
    → rv.volume_length < 2 ^ 64
    → AreHeld rv held
    → let rv' = recipe_volume_init (recipe_volume_flush rv).file in
      (rv'.file_num ≡ rv.file_num) × (rv'.volume_length ≡ rv.volume_length) × AreHeld rv' held
unfolding recipe_volume_flush
recipe_volume_init-recipe_volume_flush rv held small short h =
    let opened : recipe_volume_init (recipe_volume_flush rv).file ≡ recipe_volume_flush rv =
      init_head rv.file_num rv.volume_length (drop 16 rv.file) (recipe_volume_flush rv).file small
        short (flushed rv) in
    (
      ap (λ v. v.file_num) opened,
      ap (λ v. v.volume_length) opened,
      subst (λ v. AreHeld v held) (sym opened) (flush-AreHeld rv held h),
    )
