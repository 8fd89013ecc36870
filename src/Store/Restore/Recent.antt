-- ===== src/Store/Restore/Recent.antt =====
-- client/src/store.c, `restore_chunk`: the restore cache keeps the containers that were used last.
use tcbackup.Container.{Chunk, Container, init_container}
use tcbackup.HashTable
use tcbackup.Store.{open_file}
use tcbackup.Store.Cache.{search_cache, names, without, IsMoved, search_cache-IsMoved}
use tcbackup.Store.Restore.{Restorer, get_container, read_through, restore_chunk}
use tcbackup.Store.Restore.Reads.{read_container_name}
use mathlib.Core.Path.{subst}
use tcbackup.Prelude.{
  ℕ, suc, ◌+◌, ◌≡◌, refl, ap, ap₂, sym, ◌∙◌, Bool, true, false, Option, some, List, [], ◌∷◌, Bytes,
  length, take, Option-cases, inl, inr,
}

module _ (container_name : ℕ → Bytes)
    (fetch : Bytes → List (Bytes × Bytes) → Option (List (Bytes × Bytes))) where
  read_through-names :
      (chunk : Chunk) (fresh : Container) (ns : List Bytes) (n : ℕ) (r : Restorer)
      (found : Bool × List Container)
      → IsMoved chunk.address fresh ns n found
      → let cache = (read_through container_name false fetch chunk r found).1.cache in
        (names cache ≡ take (suc n) (chunk.address ∷ without chunk.address ns))
        × (length cache ≡ suc n)
  unfolding read_through
  read_through-names chunk fresh ns n r (true, []) h = absurd h
  read_through-names chunk fresh ns n r (false, []) h = absurd h
  read_through-names chunk fresh ns n r (true, p ∷ rest) (named, others, len) =
      (ap₂ ◌∷◌ named others, ap suc len)
  read_through-names chunk fresh ns n r (false, p ∷ rest) (new, others, len) = (
    ap₂ ◌∷◌ (read_container_name chunk.address (open_file chunk.address r.files) p) others,
    ap suc len,
  )

  -- Without a cloud a container is counted, and the cache is left.
  get_container-cache :
      (address : Bytes) (r : Restorer)
      → (r' : Restorer) × (get_container container_name false fetch address r ≡ some r')
        × (r'.cache ≡ r.cache)
  unfolding get_container
  get_container-cache address r = elim (Option-cases (HashTable.lookup address r.got_containers)) [
    | inl e ↦ rw (e, get_container) (_, refl, refl)
    | inr (v, e) ↦ rw (e, get_container) (r, refl, refl)
  ]

  -- Without a cloud and with a cache that is not empty: after restore_chunk the cache holds as
  -- many containers as before, and their names are that of the container asked for, then the
  -- others in their order, cut to that length, so a miss gives up the one that was not used for
  -- longest.
  pub names-restore_chunk :
      (chunk : Chunk) (r : Restorer) (p : Container) (rest : List Container)
      → r.cache ≡ p ∷ rest
      → let cache = (restore_chunk container_name false fetch chunk r).1.cache in
        (names cache
          ≡ take (length r.cache) (chunk.address ∷ without chunk.address (names r.cache)))
        × (length cache ≡ length r.cache)
  unfolding restore_chunk
  names-restore_chunk chunk r p rest e =
      let (r', got, same) = get_container-cache chunk.address r in
      let fresh = init_container (container_name (r'.randomabc + 1)) in
      let searched = search_cache-IsMoved chunk.address fresh p rest in
      rw (got, restore_chunk)
        (subst
          (λ c.
            (names
                (read_through container_name false fetch chunk r'
                  (search_cache chunk.address fresh r'.cache)).1.cache
              ≡ take (length c) (chunk.address ∷ without chunk.address (names c)))
            × (length
                  (read_through container_name false fetch chunk r'
                    (search_cache chunk.address fresh r'.cache)).1.cache
                ≡ length c))
          (sym e)
          (subst
            (λ c.
              (names
                  (read_through container_name false fetch chunk r'
                    (search_cache chunk.address fresh c)).1.cache
                ≡ take (length (p ∷ rest))
                    (chunk.address ∷ without chunk.address (names (p ∷ rest))))
              × (length
                    (read_through container_name false fetch chunk r'
                      (search_cache chunk.address fresh c)).1.cache
                  ≡ length (p ∷ rest)))
            (sym (same ∙ e))
            (read_through-names chunk fresh (names (p ∷ rest)) (length rest) r' _ searched)))
