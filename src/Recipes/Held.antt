-- ===== src/Recipes/Held.antt =====
-- server/src/recipe.c: what a recipe in the volume is, that it is read, and that writes keep it.
use tcbackup.Prelude.{
  ℕ, suc, ◌+◌, ◌-◌, ◌*◌, ◌^◌, ◌≤◌, ◌<◌, ◌≡◌, refl, sym, ap, ap₂, ◌∙◌, true, false, List, [], ◌∷◌,
  ◌++◌, arith, Bytes, length, take, drop, replicate, length-append, length-take, length-drop,
  length-replicate, take-append-drop, take_front, drop_front, leb, un_le32-le32, un_le32, le32,
  length-le32, drop-le32, is_neg32, All, le32, le32, slice-append, length-le32,
}
use mathlib.Core.List.{append_assoc, append-nil}
use tcbackup.Binning.{write_at}
use tcbackup.Container.{finger_length}
use tcbackup.Binning.{chunk_address_length}
use tcbackup.Network.Chunks.{ChunkInfo, loop_count}
use tcbackup.Network.Chunks.RoundTrip.{IsWhole}
use tcbackup.Recipes.{
  Recipe, RecipeVolume, recipe_append_fingerchunk, entries, write_recipe_to_vol, read_entries,
  read_recipe_from_vol,
}

-- The bytes of a recipe in the file.
unfoldable pub recipe_bytes : List ChunkInfo → Bytes
recipe_bytes fcs = le32 (length fcs) ++ entries fcs

length-entries : (fcs : List ChunkInfo) → All IsWhole fcs → length (entries fcs) ≡ length fcs * 84
unfolding entries
length-entries [] h = refl
length-entries (fc ∷ fcs) (whole, h) = omega (
  arith,
  whole,
  length-append fc.0 (fc.1 ++ entries fcs),
  length-append fc.1 (entries fcs),
  length-entries fcs h,
)

length-recipe_bytes :
    (fcs : List ChunkInfo) → All IsWhole fcs → length (recipe_bytes fcs) ≡ 4 + length fcs * 84
unfolding recipe_bytes
length-recipe_bytes fcs h = omega (
  arith,
  length-append (le32 (length fcs)) (entries fcs),
  length-le32 (length fcs),
  length-entries fcs h,
)

-- A part of a file that lies before a write stays, and what was written is read.
write_at_before :
    (i n offset : ℕ) (bytes file : Bytes)
    → i + n ≤ offset
    → i + n ≤ length file
    → take n (drop i (write_at offset bytes file)) ≡ take n (drop i file)
unfolding write_at
write_at_before i n offset bytes file before inside =
    let gap : Bytes = replicate (offset - length file) 0 in
    let front = take offset (file ++ gap) in
    let fits : length front ≡ offset =
      length-take offset (file ++ gap) (
        omega (arith, length-append file gap, length-replicate {A = ℕ} (offset - length file) 0)) in
    slice-append i n front _ (omega (arith, fits))
    ∙ sym (slice-append i n front (drop offset (file ++ gap)) (omega (arith, fits)))
    ∙ ap (λ f. take n (drop i f)) (take-append-drop offset (file ++ gap))
    ∙ slice-append i n file gap inside

pub drop-write_at :
    (offset : ℕ) (bytes file : Bytes)
    → drop offset (write_at offset bytes file) ≡ bytes ++ drop (offset + length bytes) file
unfolding write_at
drop-write_at offset bytes file =
    let gap : Bytes = replicate (offset - length file) 0 in
    drop_front offset (take offset (file ++ gap)) _ (
      length-take offset (file ++ gap)
        (omega (arith, length-append file gap, length-replicate {A = ℕ} (offset - length file) 0)))

-- The chunks of a recipe are at an offset behind the head, before the end of the volume.
pub record IsHeld (rv : RecipeVolume) (offset : ℕ) (fcs : List ChunkInfo) : Type 0 where
  pub whole : All IsWhole fcs
  pub few : length fcs < 2 ^ 31
  pub behind : 16 ≤ offset
  pub inside : offset + (4 + length fcs * 84) ≤ rv.volume_length
  pub rest : Bytes
  pub there : drop offset rv.file ≡ recipe_bytes fcs ++ rest

read_entries_step :
    (n : ℕ) (hash address more : Bytes) (rp : Recipe)
    → length hash ≡ finger_length
    → length address ≡ chunk_address_length
    → read_entries (suc n) (hash ++ (address ++ more)) rp
      ≡ read_entries n more (recipe_append_fingerchunk rp (hash, address))
unfolding read_entries
read_entries_step n hash address more rp h a =
    rw
      (
        take_front finger_length hash (address ++ more) h,
        drop_front finger_length hash (address ++ more) h,
        take_front chunk_address_length address more a,
        drop_front chunk_address_length address more a,
      )
      refl

-- The recipe with more chunks.
unfoldable pub extended : Recipe → List ChunkInfo → Recipe
extended rp fcs = record rp { chunks = rp.chunks ++ fcs; chunknum = rp.chunknum + length fcs }

pub extended_nil : (rp : Recipe) → rp ≡ extended rp []
unfolding extended
extended_nil rp =
    ap₂ (λ c n. record rp { chunks = c; chunknum = n }) (sym (append-nil rp.chunks)) (omega arith)

pub extended_cons :
    (rp : Recipe) (fc : ChunkInfo) (fcs : List ChunkInfo)
    → extended (recipe_append_fingerchunk rp fc) fcs ≡ extended rp (fc ∷ fcs)
unfolding extended recipe_append_fingerchunk
extended_cons rp fc fcs =
    ap₂ (λ c n. record rp { chunks = c; chunknum = n }) (append_assoc rp.chunks (fc ∷ []) fcs)
      (omega arith)

read_entries-entries :
    (fcs : List ChunkInfo) (rest : Bytes) (rp : Recipe)
    → All IsWhole fcs
    → read_entries (length fcs) (entries fcs ++ rest) rp ≡ extended rp fcs
unfolding entries read_entries
read_entries-entries [] rest rp h = extended_nil rp
read_entries-entries ((hash, address) ∷ fcs) rest rp (whole, w) =
    ap (λ b. read_entries (suc (length fcs)) b rp)
      (append_assoc hash (address ++ entries fcs) rest
        ∙ ap (λ b. hash ++ b) (append_assoc address (entries fcs) rest))
    ∙ read_entries_step (length fcs) hash address (entries fcs ++ rest) rp whole.0 whole.1
    ∙ read_entries-entries fcs rest (recipe_append_fingerchunk rp (hash, address)) w
    ∙ extended_cons rp (hash, address) fcs

pub count-le32 :
    (n : ℕ) (rest b : Bytes) → b ≡ le32 n ++ rest → n < 2 ^ 31 → loop_count (un_le32 b) ≡ n
unfolding loop_count
count-le32 n rest b e h =
    let whole : un_le32 b ≡ n = ap un_le32 e ∙ un_le32-le32 n rest (omega arith) in
    let positive : is_neg32 n ≡ false = ground arith in ap loop_count whole ∙ rw positive refl

-- A recipe that is held is read to the end of the one given.
pub read_recipe-IsHeld :
    (rv : RecipeVolume) (offset : ℕ) (fcs : List ChunkInfo) (rp : Recipe)
    → IsHeld rv offset fcs
    → read_recipe_from_vol offset rv rp ≡ extended rp fcs
unfolding read_recipe_from_vol recipe_bytes
read_recipe-IsHeld rv offset fcs rp h =
    let n = length fcs in
    let start : drop offset rv.file ≡ le32 n ++ (entries fcs ++ h.rest) =
      h.there ∙ append_assoc (le32 n) (entries fcs) h.rest in
    let long : leb 4 (length (drop offset rv.file)) ≡ true =
      ground
        (arith, ap length start, length-append (le32 n) (entries fcs ++ h.rest), length-le32 n) in
    rw (long, count-le32 n (entries fcs ++ h.rest) (drop offset rv.file) start h.few)
      (ap (λ b. read_entries n (drop 4 b) rp) start
        ∙ ap (λ b. read_entries n b rp) (drop-le32 n (entries fcs ++ h.rest))
        ∙ read_entries-entries fcs h.rest rp h.whole)

-- What is held stays where the file is the same there and the volume does not get shorter.
pub IsHeld-same :
    (rv rv' : RecipeVolume) (offset : ℕ) (fcs : List ChunkInfo)
    → IsHeld rv offset fcs
    → rv.volume_length ≤ rv'.volume_length
    → take (4 + length fcs * 84) (drop offset rv'.file)
      ≡ take (4 + length fcs * 84) (drop offset rv.file)
    → IsHeld rv' offset fcs
IsHeld-same rv rv' offset fcs h longer same = record {
  whole = h.whole;
  few = h.few;
  behind = h.behind;
  inside = omega (arith, h.inside, longer);
  rest = drop (4 + length fcs * 84) (drop offset rv'.file);
  there =
      sym (take-append-drop (4 + length fcs * 84) (drop offset rv'.file))
      ∙ ap (λ b. b ++ drop (4 + length fcs * 84) (drop offset rv'.file))
          (same
            ∙ ap (take (4 + length fcs * 84)) h.there
            ∙ take_front (4 + length fcs * 84) (recipe_bytes fcs) h.rest
                (length-recipe_bytes fcs h.whole));
}

-- The file reaches behind a recipe that is held.
pub IsHeld-reach :
    (rv : RecipeVolume) (offset : ℕ) (fcs : List ChunkInfo)
    → IsHeld rv offset fcs
    → offset + (4 + length fcs * 84) ≤ length rv.file
IsHeld-reach rv offset fcs h = omega (
  arith,
  ap length h.there,
  length-append (recipe_bytes fcs) h.rest,
  length-recipe_bytes fcs h.whole,
  length-drop offset rv.file,
)

-- A recipe whose number is that of its chunks is held at the offset where it was written, and all
-- recipes that were held still are.
pub write_recipe-IsHeld :
    (rv : RecipeVolume) (rp : Recipe)
    → All IsWhole rp.chunks
    → length rp.chunks < 2 ^ 31
    → rp.chunknum ≡ length rp.chunks
    → 16 ≤ rv.volume_length
    → IsHeld (write_recipe_to_vol rp rv).1 (write_recipe_to_vol rp rv).0 rp.chunks
unfolding write_recipe_to_vol recipe_bytes
write_recipe-IsHeld rv rp whole few counted behind = record {
  whole = whole;
  few = few;
  behind = behind;
  inside = omega (arith, counted);
  rest = drop (rv.volume_length + length (le32 rp.chunknum ++ entries rp.chunks)) rv.file;
  there =
      drop-write_at rv.volume_length (le32 rp.chunknum ++ entries rp.chunks) rv.file
      ∙ ap
          (λ n.
            (le32 n ++ entries rp.chunks)
            ++ drop (rv.volume_length + length (le32 rp.chunknum ++ entries rp.chunks)) rv.file)
          counted;
}

pub write_recipe_kept :
    (rv : RecipeVolume) (rp : Recipe) (offset : ℕ) (fcs : List ChunkInfo)
    → IsHeld rv offset fcs
    → IsHeld (write_recipe_to_vol rp rv).1 offset fcs
unfolding write_recipe_to_vol
write_recipe_kept rv rp offset fcs h =
    IsHeld-same rv (write_recipe_to_vol rp rv).1 offset fcs h (omega arith) (
      write_at_before offset (4 + length fcs * 84) rv.volume_length _ rv.file h.inside
        (IsHeld-reach rv offset fcs h))

-- The recipes that are held, each with its offset.
abbrev pub AreHeld : RecipeVolume → List (ℕ × List ChunkInfo) → Type 0
AreHeld rv held = All (λ r. IsHeld rv r.0 r.1) held

-- Each of these recipes is read from one volume as from the other.
abbrev pub AreReadAlike : RecipeVolume → RecipeVolume → Recipe → List (ℕ × List ChunkInfo) → Type 0
AreReadAlike rv rv' into held =
    All (λ r. read_recipe_from_vol r.0 rv' into ≡ read_recipe_from_vol r.0 rv into) held

written_alike :
    (rv : RecipeVolume) (rp into : Recipe) (held : List (ℕ × List ChunkInfo))
    → AreHeld rv held
    → AreReadAlike rv (write_recipe_to_vol rp rv).1 into held
written_alike rv rp into [] h = tt
written_alike rv rp into ((offset, fcs) ∷ held) (h, hs) = (
  read_recipe-IsHeld (write_recipe_to_vol rp rv).1 offset fcs into
        (write_recipe_kept rv rp offset fcs h)
      ∙ sym (read_recipe-IsHeld rv offset fcs into h),
  written_alike rv rp into held hs,
)

-- A recipe with whole chunks, fewer than 2^31 and counted, that is written to a volume as long as
-- its head, with any number of recipes held, also none, is read at the offset that it got, and
-- each recipe that was held is read as before.
pub read_recipe-write_recipe :
    (rv : RecipeVolume) (rp into : Recipe) (held : List (ℕ × List ChunkInfo))
    → All IsWhole rp.chunks
    → length rp.chunks < 2 ^ 31
    → rp.chunknum ≡ length rp.chunks
    → 16 ≤ rv.volume_length
    → AreHeld rv held
    → let (offset', rv') = write_recipe_to_vol rp rv in
      (read_recipe_from_vol offset' rv' into ≡ extended into rp.chunks)
      × AreReadAlike rv rv' into held
read_recipe-write_recipe rv rp into held whole few counted behind h =
    let (offset', rv') = write_recipe_to_vol rp rv in
    (
      read_recipe-IsHeld rv' offset' rp.chunks into
          (write_recipe-IsHeld rv rp whole few counted behind),
      written_alike rv rp into held h,
    )
