-- ===== src/Server/Served.antt =====
-- server/src/dedupHandle.c: a file that was backed up once is known, and its recipe is the one that came.
use tcbackup.Prelude.{
  ℕ, ◌^◌, ◌≤◌, ◌<◌, ◌≡◌, refl, sym, ap, ◌∙◌, inl, inr, none, some, List, [], ◌∷◌, arith, Bytes,
  bytes_eq, length, Bool-cases, Option-cases, All, bytes_eq_iff, bytes_eq_refl,
}
use mathlib.Core.Option.{some-injective}
use mathlib.Core.Path.{subst}
use tcbackup.Dedup.{FileState, new_file, dedup_file}
use tcbackup.Network.{message}
use tcbackup.Network.Chunks.{ChunkInfo, received_into}
use tcbackup.Network.Chunks.RoundTrip.{IsWhole}
use tcbackup.Recipes.{
  Recipe, RecipeVolume, recipe_new, recipe_append_fingerchunk, read_recipe_from_vol,
  write_recipe_to_vol,
}
use tcbackup.Recipes.Held.{
  IsHeld, extended, extended_nil, extended_cons, read_recipe-IsHeld, write_recipe-IsHeld,
  write_recipe_kept,
}
use tcbackup.Server.{
  IndexTable, IndexLaws, Server, reply, is_new_file, index_insert, file_dedup_mark, on_file_hash,
  append_chunks, on_file_recipe,
}

-- The client understands the answer.
pub is_new_file-reply :
    (state : FileState) → is_new_file (message (length (reply state)) (reply state)) ≡ some state
unfolding is_new_file reply received_into
is_new_file-reply new_file = refl
is_new_file-reply dedup_file = refl

module _ (i : IndexTable) (laws : IndexLaws i) where
  -- Every fingerprint of the index leads to the recipe of its file in the volume.
  pub record IsServed (recipe_of : Bytes → List ChunkInfo) (s : Server i) : Type 0 where
    pub sound : laws.IsSound s.index
    pub behind : 16 ≤ s.volume.volume_length
    pub held :
        (q : Bytes) (offset : ℕ)
        → i.htable_lookup q s.index ≡ some offset
        → IsHeld s.volume offset (recipe_of q)

  append_chunks-extended :
      (fcs : List ChunkInfo) (rp : Recipe) → append_chunks i fcs rp ≡ extended rp fcs
  unfolding append_chunks
  append_chunks-extended [] rp = extended_nil rp
  append_chunks-extended (fc ∷ fcs) rp =
      append_chunks-extended fcs (recipe_append_fingerchunk rp fc) ∙ extended_cons rp fc fcs

  abbrev marked : Bytes → FileState → Recipe
  marked hash state = record recipe_new { file_hash = hash; is_new = some state }

  file_dedup_mark_new :
      (rp : Recipe) (s : Server i)
      → i.htable_lookup rp.file_hash s.index ≡ none
      → file_dedup_mark i rp s ≡ (record rp { is_new = some new_file }, reply new_file)
  unfolding file_dedup_mark
  file_dedup_mark_new rp s e = rw (e, file_dedup_mark) refl

  file_dedup_mark_known :
      (rp : Recipe) (s : Server i) (offset : ℕ)
      → i.htable_lookup rp.file_hash s.index ≡ some offset
      → file_dedup_mark i rp s ≡ (
        read_recipe_from_vol offset s.volume (record rp { is_new = some dedup_file }),
        reply dedup_file,
      )
  unfolding file_dedup_mark
  file_dedup_mark_known rp s offset e = rw (e, file_dedup_mark) refl

  on_file_hash_new :
      (hash : Bytes) (s : Server i)
      → i.htable_lookup hash s.index ≡ none
      → on_file_hash i hash s ≡ (marked hash new_file, reply new_file)
  unfolding on_file_hash
  on_file_hash_new hash s e = file_dedup_mark_new (record recipe_new { file_hash = hash }) s e

  on_file_hash_known :
      (hash : Bytes) (s : Server i) (offset : ℕ)
      → i.htable_lookup hash s.index ≡ some offset
      → on_file_hash i hash s
        ≡ (read_recipe_from_vol offset s.volume (marked hash dedup_file), reply dedup_file)
  unfolding on_file_hash
  on_file_hash_known hash s offset e =
      file_dedup_mark_known (record recipe_new { file_hash = hash }) s offset e

  module _ (recipe_of : Bytes → List ChunkInfo) (hash : Bytes) (s : Server i)
      (served : IsServed recipe_of s) where
    -- A file whose fingerprint is known gets the whole recipe.
    pub on_file_hash-recipe_of :
        (offset : ℕ)
        → i.htable_lookup hash s.index ≡ some offset
        → (on_file_hash i hash s).0 ≡ extended (marked hash dedup_file) (recipe_of hash)
    on_file_hash-recipe_of offset e =
        ap (λ r. r.0) (on_file_hash_known hash s offset e)
        ∙ read_recipe-IsHeld s.volume offset (recipe_of hash) (marked hash dedup_file)
            (served.held hash offset e)

    module _ (whole : All IsWhole (recipe_of hash)) (few : length (recipe_of hash) < 2 ^ 31) where
      abbrev written : ℕ × RecipeVolume
      written = write_recipe_to_vol (extended (marked hash new_file) (recipe_of hash)) s.volume

      written-IsHeld : IsHeld written.1 written.0 (recipe_of hash)
      unfolding extended recipe_new
      written-IsHeld =
          write_recipe-IsHeld s.volume (extended (marked hash new_file) (recipe_of hash)) whole few
            (omega arith) served.behind

      abbrev added : i.htable_lookup hash s.index ≡ none → Server i
      added e = record { index = i.htable_add hash written.0 s.index; volume = written.1 }

      added-IsServed : (e : i.htable_lookup hash s.index ≡ none) → IsServed recipe_of (added e)
      unfolding write_recipe_to_vol
      added-IsServed e = record {
        sound = laws.htable_add-IsSound hash written.0 s.index served.sound e;
        behind = omega (arith, served.behind);
        held = λ q offset found.
            let after = laws.htable_lookup-htable_add hash q written.0 s.index served.sound e in
            elim (Bool-cases (bytes_eq q hash)) [
              | inl same ↦
                  let own : some written.0 ≡ some offset = sym (after ∙ rw same refl) ∙ found in
                  subst (λ n. IsHeld written.1 n (recipe_of q)) (some-injective _ _ own)
                    (subst (λ k. IsHeld written.1 written.0 (recipe_of k))
                      (sym ((bytes_eq_iff q hash).0 same)) written-IsHeld)
              | inr other ↦
                  let earlier : i.htable_lookup q s.index ≡ some offset =
                    sym (after ∙ rw other refl) ∙ found in
                  write_recipe_kept s.volume (extended (marked hash new_file) (recipe_of hash))
                    offset (recipe_of q) (served.held q offset earlier)
            ];
      }

      index_insert_new :
          (offset : ℕ)
          → i.htable_lookup hash s.index ≡ none
          → index_insert i hash offset s.index ≡ i.htable_add hash offset s.index
      unfolding index_insert
      index_insert_new offset e = rw (e, index_insert) refl

      on_file_recipe_new :
          (e : i.htable_lookup hash s.index ≡ none)
          → on_file_recipe i (recipe_of hash) (on_file_hash i hash s).0 s ≡ added e
      unfolding on_file_recipe
      on_file_recipe_new e =
          ap (λ r. on_file_recipe i (recipe_of hash) r.0 s) (on_file_hash_new hash s e)
          ∙ ap
              (λ rp.
                let (offset, volume) = write_recipe_to_vol rp s.volume in
                record { index = index_insert i hash offset s.index; volume = volume })
              (append_chunks-extended (recipe_of hash) (marked hash new_file))
          ∙ ap (λ t. record { index = t; volume = written.1 }) (index_insert_new written.0 e)

      on_file_recipe_known :
          (offset : ℕ)
          → i.htable_lookup hash s.index ≡ some offset
          → on_file_recipe i (recipe_of hash) (on_file_hash i hash s).0 s ≡ s
      unfolding on_file_recipe extended
      on_file_recipe_known offset e =
          ap (λ rp. on_file_recipe i (recipe_of hash) rp s) (on_file_hash-recipe_of offset e)

      -- With a table that keeps its laws, and where every fingerprint of the index leads to the
      -- recipe of its file, it is so after a file's fingerprint and then its chunks came, whole
      -- and fewer than 2^31, whether the file was known or not, and the index knows the file.
      pub on_file_recipe-IsServed :
          IsServed recipe_of (on_file_recipe i (recipe_of hash) (on_file_hash i hash s).0 s)
          × ((offset : ℕ) × (i.htable_lookup hash
                  (on_file_recipe i (recipe_of hash) (on_file_hash i hash s).0 s).index
                ≡ some offset))
      on_file_recipe-IsServed = elim (Option-cases (i.htable_lookup hash s.index)) [
        | inl e ↦
            let after = laws.htable_lookup-htable_add hash hash written.0 s.index served.sound e in
            subst
              (λ t.
                IsServed recipe_of t
                × ((offset : ℕ) × (i.htable_lookup hash t.index ≡ some offset)))
              (sym (on_file_recipe_new e))
              (added-IsServed e, (written.0, after ∙ rw (bytes_eq_refl hash) refl))
        | inr (offset, e) ↦
            subst
              (λ t.
                IsServed recipe_of t
                × ((offset : ℕ) × (i.htable_lookup hash t.index ≡ some offset)))
              (sym (on_file_recipe_known offset e)) (served, (offset, e))
      ]

  -- With a table that keeps its laws, and where every fingerprint of the index leads to the recipe
  -- of its file: once the chunks of a file came, whole and fewer than 2^31, the server answers its
  -- fingerprint as that of a known file, the client understands the answer so, and the recipe read
  -- has the chunks that came and their number.
  pub on_file_hash-on_file_recipe :
      (recipe_of : Bytes → List ChunkInfo) (hash : Bytes) (s : Server i)
      → IsServed recipe_of s
      → All IsWhole (recipe_of hash)
      → length (recipe_of hash) < 2 ^ 31
      → let (rp, answer) =
          on_file_hash i hash (on_file_recipe i (recipe_of hash) (on_file_hash i hash s).0 s) in
        (is_new_file (message (length answer) answer) ≡ some dedup_file)
        × (rp.is_new ≡ some dedup_file)
        × (rp.chunks ≡ recipe_of hash)
        × (rp.chunknum ≡ length (recipe_of hash))
  unfolding extended recipe_new
  on_file_hash-on_file_recipe recipe_of hash s served whole few =
      let (later, (offset, known)) = on_file_recipe-IsServed recipe_of hash s served whole few in
      let s' = on_file_recipe i (recipe_of hash) (on_file_hash i hash s).0 s in
      let got = on_file_hash-recipe_of recipe_of hash s' later offset known in
      (
        ap (λ r. is_new_file (message (length r.1) r.1)) (on_file_hash_known hash s' offset known)
            ∙ is_new_file-reply dedup_file,
        ap (λ r. r.is_new) got,
        ap (λ r. r.chunks) got,
        ap (λ r. r.chunknum) got ∙ omega arith,
      )
