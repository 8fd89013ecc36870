-- ===== src/Backup/Storing.antt =====
-- client/src/store.c: what `store_chunk` leaves of the open container and of the chunks stored before.
use tcbackup.Prelude.{
  ℕ, ◌+◌, ◌≤◌, ◌≡◌, refl, sym, ap, ◌∙◌, ◌≢◌, inl, inr, true, false, none, arith, Bytes, length,
  Bool-cases, bytes_ne, bytes_ne,
}
use tcbackup.Container.{Container, append_chunk, default_container_size, finger_length, is_full}
use tcbackup.Container.Chunks.{IsContainer, append_chunk_full, read_chunk-append_chunk}
use mathlib.Core.Path.{subst}
use tcbackup.HashTable
use tcbackup.HashTable.Laws.{lookup-insert}
use tcbackup.Store.{Store, flush, new_container, store_chunk}
use tcbackup.Store.Chunks.{room_in_new, empty_lookup, appended-IsIn, append_chunk_name}
use tcbackup.Backup.Located.{Reads, IsOpen, IsLocated, IsReady, flush-IsReady, flush-InFile}

-- The state with the chunk in its open container.
abbrev put : Bytes → Bytes → Store → Store
put hash content s = record s { container = (append_chunk s.container hash content).1 }

-- A state in which `store_chunk` appends: the one it was called in, or one with a new container.
record HasRoom (container_name : ℕ → Bytes) (hash content : Bytes) (s s' : Store) : Type 0 where
  ready : IsReady container_name s'
  room : is_full s'.container (length content) ≡ false
  kept : (address q other : Bytes) → IsLocated s address q other → IsLocated s' address q other
  unknown :
      (q : Bytes)
      → HashTable.lookup q s.container.meta_table ≡ none
      → HashTable.lookup q s'.container.meta_table ≡ none
  result : store_chunk container_name hash content s ≡ (s'.container.name, put hash content s')

append_chunk-true :
    (c : Container) (hash content : Bytes)
    → is_full c (length content) ≡ false
    → (append_chunk c hash content).0 ≡ true
unfolding append_chunk
append_chunk-true c hash content e = rw e refl

append_chunk-chunk_num :
    (c : Container) (hash content : Bytes)
    → is_full c (length content) ≡ false
    → (append_chunk c hash content).1.chunk_num ≡ c.chunk_num + 1
unfolding append_chunk
append_chunk-chunk_num c hash content e = rw e refl

-- A fingerprint that an append does not bring stays unknown.
append_chunk_unknown :
    (c : Container) (hash content q : Bytes)
    → IsContainer c
    → HashTable.lookup hash c.meta_table ≡ none
    → HashTable.lookup q c.meta_table ≡ none
    → q ≢ hash
    → HashTable.lookup q (append_chunk c hash content).1.meta_table ≡ none
unfolding append_chunk
append_chunk_unknown c hash content q valid fresh unknown ne =
    elim (Bool-cases (is_full c (length content))) [
      | inl e ↦ rw e unknown
      | inr e ↦
          rw e (
            lookup-insert hash q _ c.meta_table valid.table fresh ∙ rw (bytes_ne q hash ne) unknown)
    ]

module _ (container_name : ℕ → Bytes)
    (injective : (i j : ℕ) → container_name i ≡ container_name j → i ≡ j) (hash content : Bytes)
    (s : Store) (ready : IsReady container_name s) (whole : length hash ≡ finger_length)
    (short : length content + 61 ≤ default_container_size)
    (fresh : HashTable.lookup hash s.container.meta_table ≡ none) where
  abbrev next : Store
  next = new_container container_name (flush container_name s)

  store_chunk_full :
      is_full s.container (length content) ≡ true
      → store_chunk container_name hash content s
        ≡ ((append_chunk next.container hash content).1.name, put hash content next)
  unfolding store_chunk new_container flush
  store_chunk_full e = rw (append_chunk_full s.container hash content e) refl

  store_chunk_room :
      is_full s.container (length content) ≡ false
      → store_chunk container_name hash content s
        ≡ ((append_chunk s.container hash content).1.name, put hash content s)
  unfolding store_chunk
  store_chunk_room e = rw (append_chunk-true s.container hash content e) refl

  next-HasRoom :
      is_full s.container (length content) ≡ true → HasRoom container_name hash content s next
  unfolding new_container flush IsLocated
  next-HasRoom e = record {
    ready = flush-IsReady container_name injective s ready;
    room = room_in_new (container_name (s.randomabc + 1)) content short;
    kept =
        λ address q other h. inr (flush-InFile container_name injective s address q other ready h);
    unknown = λ q h. empty_lookup (container_name (s.randomabc + 1)) q;
    result =
        store_chunk_full e
        ∙ ap (λ n. (n, put hash content next)) (append_chunk_name next.container hash content);
  }

  make_room : (s' : Store) × HasRoom container_name hash content s s'
  make_room = elim (Bool-cases (is_full s.container (length content))) [
    | inl e ↦ (next, next-HasRoom e)
    | inr e ↦ (
      s,
      record {
        ready = ready;
        room = e;
        kept = λ address q other h. h;
        unknown = λ q h. h;
        result =
            store_chunk_room e
            ∙ ap (λ n. (n, put hash content s)) (append_chunk_name s.container hash content);
      },
    )
  ]

module _ (container_name : ℕ → Bytes) (hash content : Bytes) (s : Store)
    (ready : IsReady container_name s) (whole : length hash ≡ finger_length)
    (short : length content + 61 ≤ default_container_size)
    (fresh : HashTable.lookup hash s.container.meta_table ≡ none)
    (room : is_full s.container (length content) ≡ false) where
  put-IsReady : IsReady container_name (put hash content s)
  put-IsReady =
      let kept = appended-IsIn s.container hash content ready.valid whole short fresh room in
      record {
        valid = kept.1.0;
        name = append_chunk_name s.container hash content ∙ ready.name;
        unused = ready.unused;
      }

  put-IsLocated : IsLocated (put hash content s) s.container.name hash content
  unfolding IsLocated IsOpen Reads
  put-IsLocated =
      let kept = appended-IsIn s.container hash content ready.valid whole short fresh room in
      inl (
        sym (append_chunk_name s.container hash content),
        omega (arith, append_chunk-chunk_num s.container hash content room),
        kept.1.2,
      )

  put-kept :
      (address q other : Bytes)
      → q ≢ hash
      → IsLocated s address q other
      → IsLocated (put hash content s) address q other
  unfolding IsLocated IsOpen Reads
  put-kept address q other ne (inr saved) = inr saved
  put-kept address q other ne (inl (same, some_chunk, reads)) = inl (
    same ∙ sym (append_chunk_name s.container hash content),
    omega (arith, append_chunk-chunk_num s.container hash content room),
    λ chunk.
        read_chunk-append_chunk s.container hash content ready.valid whole (omega (arith, short))
          fresh room (record chunk { hash = q })
        ∙ rw (bytes_ne q hash ne) (reads chunk),
  )

-- The result is a ready store in which the chunk is found under the address that it got, every chunk
-- with another fingerprint is where it was, and no other fingerprint is new to the open container.
pub record IsStoring (container_name : ℕ → Bytes) (hash content : Bytes) (s : Store)
    (after : Bytes × Store) : Type 0 where
  pub ready : IsReady container_name after.1
  pub located : IsLocated after.1 after.0 hash content
  pub kept :
      (address q other : Bytes)
      → q ≢ hash
      → IsLocated s address q other
      → IsLocated after.1 address q other
  pub unknown :
      (q : Bytes)
      → q ≢ hash
      → HashTable.lookup q s.container.meta_table ≡ none
      → HashTable.lookup q after.1.container.meta_table ≡ none

module _ (container_name : ℕ → Bytes)
    (injective : (i j : ℕ) → container_name i ≡ container_name j → i ≡ j) (hash content : Bytes)
    (s : Store) (ready : IsReady container_name s) (whole : length hash ≡ finger_length)
    (short : length content + 61 ≤ default_container_size)
    (fresh : HashTable.lookup hash s.container.meta_table ≡ none) where
  put-IsStoring :
      (s' : Store)
      → HasRoom container_name hash content s s'
      → IsStoring container_name hash content s (s'.container.name, put hash content s')
  put-IsStoring s' h =
      let fresh' = h.unknown hash fresh in
      record {
        ready = put-IsReady container_name hash content s' h.ready whole short fresh' h.room;
        located = put-IsLocated container_name hash content s' h.ready whole short fresh' h.room;
        kept = λ address q other ne there.
            put-kept container_name hash content s' h.ready whole short fresh' h.room address q
              other ne (h.kept address q other there);
        unknown = λ q ne absent.
            append_chunk_unknown s'.container hash content q h.ready.valid fresh'
              (h.unknown q absent) ne;
      }

  -- A chunk with a whole fingerprint that the valid open container lacks, and that fits into an
  -- empty one with its descriptor, is stored into a store that is ready, with container names that
  -- differ: the store stays ready, the chunk is found under the address returned, every chunk with
  -- another fingerprint is found where it was, and no other fingerprint is new to the open
  -- container.
  pub store_chunk-IsStoring :
      IsStoring container_name hash content s (store_chunk container_name hash content s)
  store_chunk-IsStoring =
      let (s', h) = make_room container_name injective hash content s ready whole short fresh in
      subst (IsStoring container_name hash content s) (sym h.result) (put-IsStoring s' h)
