-- ===== src/Container/RoundTrip.antt =====
-- A container written to its file and read back.
use tcbackup.Container.{
  default_container_size, finger_length, ChunkAddr, Chunk, Container, container_valid,
  init_container, read_chunk, descriptor, descriptors, write_container, read_descriptors,
  read_container, parse_container,
}
use tcbackup.Container.Chunks.{IsStored, IsContainer}
use tcbackup.HashTable
use tcbackup.HashTable.{Table, find, lookup}
use tcbackup.HashTable.Each.{Each-items, All_mono}
use tcbackup.HashTable.Load.{insert_all, Fresh, lookup-insert_all}
use tcbackup.HashTable.Walk
use tcbackup.Prelude.{
  ℕ, suc, ◌*◌, ◌^◌, ◌≤◌, ◌<◌, ◌≡◌, refl, ap, sym, ◌∙◌, Bool, true, false, some, List, [], ◌∷◌, ◌++◌,
  Bytes, arith, if◌then◌else◌, length, take, drop, length-append, length-take, le32, un_le32,
  un_le32-le32, drop-le32, All, take_all, take_front, drop_front, length-le32, drop-nil,
}
use mathlib.Core.List.{append-nil, append_assoc}
use tcbackup.HashTable.Laws.{hits-init, init-IsMap, lookup-init}
use tcbackup.HashTable.Chain.{or_else, or_else-none}

-- What a descriptor can hold.
abbrev IsWritable : Bytes × ChunkAddr → Type 0
IsWritable e = (length e.0 ≡ finger_length) × (e.1.offset < 2 ^ 32) × (e.1.length < 2 ^ 32)

-- A written descriptor, field by field, whatever follows it.
descriptor_fields :
    (hash : Bytes) (addr : ChunkAddr) (d rest : Bytes)
    → (descriptor (hash, addr) ++ d) ++ rest
      ≡ le32 addr.offset ++ (le32 addr.length ++ (take finger_length hash ++ (d ++ rest)))
unfolding descriptor
descriptor_fields hash addr d rest = simp append_assoc

read_descriptors_step :
    (n : ℕ) (p : Bytes) (t : Table ChunkAddr)
    → read_descriptors (suc n) p t
      ≡ read_descriptors n (drop finger_length (drop 4 (drop 4 p))) (
          HashTable.insert
            (take finger_length (drop 4 (drop 4 p)))
            (record { offset = un_le32 p; length = un_le32 (drop 4 p) })
            t)
unfolding read_descriptors
read_descriptors_step n p t = refl

-- The reader's loop undoes the writer's: it inserts the written links in their order.
read_descriptors-descriptors :
    (es : List (Bytes × ChunkAddr)) (rest : Bytes) (t : Table ChunkAddr)
    → All IsWritable es
    → read_descriptors (length es) (descriptors es ++ rest) t ≡ (insert_all es t, rest)
unfolding read_descriptors descriptors insert_all
read_descriptors-descriptors [] rest t h = refl
read_descriptors-descriptors ((hash, addr) ∷ es) rest t h =
    let more = descriptors es ++ rest in
    let whole = take_all finger_length hash (omega (arith, h.0)) in
    ap (λ p. read_descriptors (suc (length es)) p t)
      (descriptor_fields hash addr (descriptors es) rest)
    ∙ read_descriptors_step (length es)
        (le32 addr.offset ++ (le32 addr.length ++ (take finger_length hash ++ more))) t
    ∙ rw
        (
          drop-le32,
          drop-le32,
          un_le32-le32 addr.offset _ h.0.1,
          un_le32-le32 addr.length _ h.0.2,
          whole,
          take_front finger_length hash more h.0.0,
          drop_front finger_length hash more h.0.0,
        )
        (read_descriptors-descriptors es rest (HashTable.insert hash addr t) h.1)

module _ (c : Container) (w : IsContainer c) where
  writable : All IsWritable (Walk.items c.meta_table)
  writable =
      All_mono (IsStored c.data_buffer) IsWritable
        (λ e s. (s.0, omega (arith, s.1, w.written, w.fits), omega (arith, s.1, w.written, w.fits)))
        (Walk.items c.meta_table)
        (Each-items (IsStored c.data_buffer) c.meta_table w.table.shape w.stored)

  length-descriptors :
      (es : List (Bytes × ChunkAddr)) → All IsWritable es → length (descriptors es) ≡ length es * 28
  unfolding descriptors descriptor
  length-descriptors [] h = refl
  length-descriptors ((hash, addr) ∷ es) h = omega (
    arith,
    length-append (descriptor (hash, addr)) (descriptors es),
    length-append (le32 addr.offset) (le32 addr.length ++ take finger_length hash),
    length-append (le32 addr.length) (take finger_length hash),
    length-le32 addr.offset,
    length-le32 addr.length,
    length-take finger_length hash (omega (arith, h.0)),
    length-descriptors es h.1,
  )

  -- A valid container fills at most the default size when written, in a simulation or not.
  pub write_container-le :
      (simulate : Bool) → length (write_container simulate c) ≤ default_container_size
  unfolding write_container
  write_container-le simulate =
      let payload : Bytes = if simulate then [] else take c.data_size c.data_buffer in
      omega (
        arith,
        length-append (le32 container_valid) (
            le32 c.chunk_num
            ++ (le32 c.data_size ++ (descriptors (Walk.items c.meta_table) ++ payload))),
        length-append (le32 c.chunk_num)
            (le32 c.data_size ++ (descriptors (Walk.items c.meta_table) ++ payload)),
        length-append (le32 c.data_size) (descriptors (Walk.items c.meta_table) ++ payload),
        length-append (descriptors (Walk.items c.meta_table)) payload,
        length-le32 container_valid,
        length-le32 c.chunk_num,
        length-le32 c.data_size,
        length-descriptors (Walk.items c.meta_table) writable,
        Walk.length-items c.meta_table w.table.shape,
        payload_le simulate,
        w.fits,
      )
    where
      payload_le :
          (b : Bool) → length (if b then [] else take c.data_size c.data_buffer) ≤ c.data_size
      payload_le true = omega arith
      payload_le false =
          omega (arith, length-take c.data_size c.data_buffer (omega (arith, w.written)))

-- The parser on a file with a valid header.
parse_header :
    (name : Bytes) (num size : ℕ) (rest : Bytes) (c : Container)
    → num < 2 ^ 31
    → size < 2 ^ 32
    → parse_container name (le32 container_valid ++ (le32 num ++ (le32 size ++ rest))) c ≡ (
      true,
      record c {
        name = name;
        chunk_num = num;
        data_size = size;
        meta_table = (read_descriptors num rest c.meta_table).0;
        data_buffer =
            take size (read_descriptors num rest c.meta_table).1 ++ drop size c.data_buffer;
      },
    )
unfolding parse_container
parse_header name num size rest c h k =
    rw
      (
        un_le32-le32 container_valid (le32 num ++ (le32 size ++ rest)) (omega arith),
        drop-le32 container_valid (le32 num ++ (le32 size ++ rest)),
        drop-le32 num (le32 size ++ rest),
        drop-le32 size rest,
        un_le32-le32 num (le32 size ++ rest) (omega arith),
        un_le32-le32 size rest k,
      )
      (ground arith)

module _ (c : Container) (w : IsContainer c) (name old : Bytes) where
  -- The table that the reader builds from the written descriptors.
  abbrev read_table : Table ChunkAddr
  read_table = insert_all (Walk.items c.meta_table) (HashTable.init ChunkAddr finger_length 512)

  abbrev restored : Container
  restored = record {
    data_size = c.data_size;
    chunk_num = c.chunk_num;
    name = name;
    meta_table = read_table;
    data_buffer = c.data_buffer;
  }

  Fresh-items : Fresh (Walk.items c.meta_table) (HashTable.init ChunkAddr finger_length 512)
  Fresh-items q = omega (
    arith,
    Walk.count-items q c.meta_table w.table.shape,
    w.table.distinct q,
    hits-init ChunkAddr finger_length 512 q,
  )

  lookup-restored : (q : Bytes) → lookup q read_table ≡ lookup q c.meta_table
  lookup-restored q =
      lookup-insert_all q (Walk.items c.meta_table) _ (init-IsMap ChunkAddr finger_length 512)
        Fresh-items
      ∙ ap (λ o. or_else (find q (Walk.items c.meta_table)) o)
          (lookup-init ChunkAddr finger_length 512 q)
      ∙ or_else-none (find q (Walk.items c.meta_table))
      ∙ Walk.find-items q c.meta_table w.table.shape

  read_chunk-restored : (chunk : Chunk) → read_chunk restored chunk ≡ read_chunk c chunk
  unfolding read_chunk
  read_chunk-restored chunk = rw (lookup-restored chunk.hash, read_chunk)

  read_items :
      read_descriptors c.chunk_num
        (descriptors (Walk.items c.meta_table) ++ take c.data_size c.data_buffer)
        (HashTable.init ChunkAddr finger_length 512)
      ≡ (read_table, c.data_buffer)
  read_items =
      ap
        (λ n.
          read_descriptors n
            (descriptors (Walk.items c.meta_table) ++ take c.data_size c.data_buffer)
            (HashTable.init ChunkAddr finger_length 512))
        (w.counted ∙ sym (Walk.length-items c.meta_table w.table.shape))
      ∙ read_descriptors-descriptors (Walk.items c.meta_table) _ _ (writable c w)
      ∙ ap (λ b. (read_table, b)) (take_all c.data_size c.data_buffer (omega (arith, w.written)))

  parse_written :
      parse_container name (write_container false c) (init_container old) ≡ (true, restored)
  unfolding write_container init_container
  parse_written =
      parse_header name c.chunk_num c.data_size _ (init_container old)
        (omega (arith, w.counted, w.fits)) (omega (arith, w.fits))
      ∙ ap
          (λ r. (
            true,
            record (init_container old) {
              name = name;
              chunk_num = c.chunk_num;
              data_size = c.data_size;
              meta_table = r.0;
              data_buffer = take c.data_size r.1 ++ drop c.data_size [];
            },
          ))
          read_items
      ∙ ap (λ b. (true, record restored { data_buffer = b }))
          (rw (drop-nil, take_all c.data_size c.data_buffer (omega (arith, w.written)), append-nil))

  -- A valid container that `WriteContainer` wrote, not in a simulation, is read back by
  -- `ReadContainer` into a fresh one: the call succeeds, the name is the given one, the counts and the data are the written ones, and every chunk reads
  -- as from the written container.
  pub read_container-write_container :
      (c' : Container) × (read_container name (some (write_container false c)) (init_container old)
        ≡ (true, c'))
      × (c'.name ≡ name)
      × (c'.chunk_num ≡ c.chunk_num)
      × (c'.data_size ≡ c.data_size)
      × (c'.data_buffer ≡ c.data_buffer)
      × ((chunk : Chunk) → read_chunk c' chunk ≡ read_chunk c chunk)
  unfolding read_container
  read_container-write_container = (
    restored,
    ap (λ p. parse_container name p (init_container old))
          (take_all default_container_size (write_container false c) (write_container-le c w false))
        ∙ parse_written,
    refl,
    refl,
    refl,
    refl,
    read_chunk-restored,
  )
