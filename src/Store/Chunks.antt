-- ===== src/Store/Chunks.antt =====
-- What `store_chunk` leaves: the chunk in the open container, under the address that it returns.
use tcbackup.Container.{
  default_container_size, finger_length, Chunk, Container, init_container, is_full, append_chunk,
  read_chunk,
}
use tcbackup.Container.Chunks.{
  IsContainer, init_container-IsContainer, append_chunk_full, append_chunk-IsContainer,
  read_chunk-append_chunk,
}
use tcbackup.HashTable
use tcbackup.HashTable.Laws.{lookup-init}
use tcbackup.Store.{Store, new_container, flush, store_chunk}
use tcbackup.Prelude.{
  ℕ, ◌+◌, ◌≤◌, ◌≡◌, refl, ap, ◌∙◌, true, false, none, some, Bytes, arith, length, Bool-cases, inl,
  inr, bytes_eq_refl,
}

pub append_chunk_name :
    (c : Container) (hash content : Bytes) → (append_chunk c hash content).1.name ≡ c.name
unfolding append_chunk
append_chunk_name c hash content = elim (Bool-cases (is_full c (length content))) [
  | inl e ↦ rw (e, append_chunk) refl
  | inr e ↦ rw (e, append_chunk) refl
]

-- A new container is not full for a chunk that fits with its descriptor.
pub room_in_new :
    (name content : Bytes)
    → length content + 61 ≤ default_container_size
    → is_full (init_container name) (length content) ≡ false
unfolding is_full init_container HashTable.init
room_in_new name content h = ground (arith, h)

pub empty_lookup :
    (name hash : Bytes) → HashTable.lookup hash (init_container name).meta_table ≡ none
unfolding init_container
empty_lookup name hash = lookup-init _ finger_length 512 hash

-- The chunk is in the container, which is valid and has the name.
abbrev pub IsIn : Bytes → Bytes → Bytes → Container → Type 0
IsIn name hash content c =
    IsContainer c
    × (c.name ≡ name)
    × ((chunk : Chunk)
        → read_chunk c (record chunk { hash = hash })
          ≡ record chunk { hash = hash; length = length content; content = some content })

pub appended-IsIn :
    (c : Container) (hash content : Bytes)
    → IsContainer c
    → length hash ≡ finger_length
    → length content + 61 ≤ default_container_size
    → HashTable.lookup hash c.meta_table ≡ none
    → is_full c (length content) ≡ false
    → ((append_chunk c hash content).0 ≡ true)
      × IsIn (append_chunk c hash content).1.name hash content (append_chunk c hash content).1
appended-IsIn c hash content w whole short fresh room =
    let kept = append_chunk-IsContainer c hash content w whole (omega (arith, short)) fresh room in
    (
      kept.0,
      (
        kept.1,
        refl,
        λ chunk.
            read_chunk-append_chunk c hash content w whole (omega (arith, short)) fresh room
              (record chunk { hash = hash })
            ∙ rw (bytes_eq_refl hash) refl,
      ),
    )

module _ (container_name : ℕ → Bytes) where
  -- A chunk with a whole fingerprint that is not in the valid open container, and that fits into an
  -- empty one with its descriptor, is stored: afterwards the open container is valid, it has the
  -- name that was returned as the address, and the chunk is read from it byte for byte, whether or
  -- not the container that was open had room.
  pub store_chunk-IsIn :
      (hash content : Bytes) (s : Store)
      → IsContainer s.container
      → length hash ≡ finger_length
      → length content + 61 ≤ default_container_size
      → HashTable.lookup hash s.container.meta_table ≡ none
      → IsIn
          (store_chunk container_name hash content s).0
          hash
          content
          (store_chunk container_name hash content s).1.container
  unfolding store_chunk flush new_container
  store_chunk-IsIn hash content s w whole short fresh =
      elim (Bool-cases (is_full s.container (length content))) [
        | inl e ↦
            let name = container_name (s.randomabc + 1) in
            let new = init_container name in
            let kept =
              appended-IsIn new hash content (init_container-IsContainer name) whole short
                (empty_lookup name hash) (room_in_new name content short) in
            rw (ap (λ x. x.0) (append_chunk_full s.container hash content e)) kept.1
        | inr e ↦
            let kept = appended-IsIn s.container hash content w whole short fresh e in
            rw (kept.0) kept.1
      ]
