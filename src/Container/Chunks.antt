-- ===== src/Container/Chunks.antt =====
-- Appending chunks to a container and reading them back.
use tcbackup.Container.{
  default_container_size, finger_length, ChunkAddr, Chunk, Container, init_container, is_full,
  append_chunk, read_chunk,
}
use tcbackup.HashTable
use tcbackup.HashTable.{Table, lookup}
use tcbackup.HashTable.Each.{Each, Each-insert, Each-init, Each-lookup, Each-mono}
use tcbackup.HashTable.Laws.{IsMap, init-IsMap, insert-IsMap, lookup-insert, size-insert, size-init}
use mathlib.Core.List.{append_assoc}
use tcbackup.Prelude.{
  ◌+◌, ◌*◌, ◌≤◌, ◌<◌, ◌≡◌, refl, ap, sym, ◌∙◌, true, false, none, some, [], ◌∷◌, ◌++◌, Bytes,
  bytes_eq, arith, if◌then◌else◌, ltb-false, length, get_or, take, drop, length-append,
  get_or-append_left, get_or-append_end, slice-append, take_all, take_front, drop_front, Bool-cases,
  Option-cases, inl, inr,
}

-- What a link promises: a whole fingerprint, and a tab behind the chunk inside the buffer.
abbrev pub IsStored : Bytes → Bytes × ChunkAddr → Type 0
IsStored buffer e =
    (length e.0 ≡ finger_length)
    × (e.1.offset + e.1.length < length buffer)
    × (get_or buffer (e.1.offset + e.1.length) 0 ≡ b'\t')

pub record IsContainer (c : Container) : Type 0 where
  pub table : IsMap c.meta_table
  pub written : length c.data_buffer ≡ c.data_size
  pub counted : c.chunk_num ≡ HashTable.size c.meta_table
  pub stored : Each (IsStored c.data_buffer) c.meta_table
  pub fits : 12 + HashTable.size c.meta_table * 28 + c.data_size ≤ default_container_size

pub init_container-IsContainer : (name : Bytes) → IsContainer (init_container name)
unfolding init_container
init_container-IsContainer name = record {
  table = init-IsMap ChunkAddr finger_length 512;
  written = refl;
  counted = sym (size-init ChunkAddr finger_length 512);
  stored = Each-init _ finger_length 512;
  fits = omega (arith, size-init ChunkAddr finger_length 512);
}

IsStored-append :
    (buffer more : Bytes) (e : Bytes × ChunkAddr) → IsStored buffer e → IsStored (buffer ++ more) e
IsStored-append buffer more e h = (
  h.0,
  omega (arith, length-append buffer more, h.1),
  get_or-append_left buffer more _ 0 h.1 ∙ h.2,
)

-- A refused chunk changes nothing; refusal means that the file would outgrow its size.
pub append_chunk_full :
    (c : Container) (hash content : Bytes)
    → is_full c (length content) ≡ true
    → append_chunk c hash content ≡ (false, c)
unfolding append_chunk
append_chunk_full c hash content h = rw h

module _ (c : Container) (hash content : Bytes) (w : IsContainer c)
    (whole : length hash ≡ finger_length) (short : length content + 29 ≤ default_container_size)
    (fresh : lookup hash c.meta_table ≡ none) (room : is_full c (length content) ≡ false) where
  abbrev after : Container
  after = record c {
    data_buffer = c.data_buffer ++ (content ++ b'\t' ∷ []);
    meta_table =
        HashTable.insert hash (record { offset = c.data_size; length = length content })
          c.meta_table;
    data_size = c.data_size + length content + 1;
    chunk_num = c.chunk_num + 1;
  }

  append_chunk_fits : append_chunk c hash content ≡ (true, after)
  unfolding append_chunk
  append_chunk_fits =
      rw (room, take_all c.data_size c.data_buffer (omega (arith, w.written)), append_assoc)

  space :
      32 + HashTable.size c.meta_table * 28 + c.data_size + 28 + length content + 1
      ≤ default_container_size
  unfolding is_full
  space = omega (arith, w.fits, ltb-false _ _ room)

  new_link :
      IsStored after.data_buffer (hash, record { offset = c.data_size; length = length content })
  new_link = (
    whole,
    omega (
      arith,
      length-append c.data_buffer (content ++ b'\t' ∷ []),
      length-append content (b'\t' ∷ []),
      w.written,
    ),
    ap (λ b. get_or b (c.data_size + length content) 0)
          (sym (append_assoc c.data_buffer content (b'\t' ∷ [])))
        ∙ get_or-append_end (c.data_buffer ++ content) [] b'\t' 0 (c.data_size + length content)
            (omega (arith, length-append c.data_buffer content, w.written)),
  )

  after-IsContainer : IsContainer after
  after-IsContainer = record {
    table = insert-IsMap hash _ c.meta_table w.table fresh;
    written = omega (
      arith,
      length-append c.data_buffer (content ++ b'\t' ∷ []),
      length-append content (b'\t' ∷ []),
      w.written,
    );
    counted = omega (
      arith,
      w.counted,
      size-insert hash (record { offset = c.data_size; length = length content }) c.meta_table
          w.table.shape,
    );
    stored = Each-insert (IsStored after.data_buffer) hash _ c.meta_table new_link (
        Each-mono (IsStored c.data_buffer) (IsStored after.data_buffer) c.meta_table
          (IsStored-append c.data_buffer (content ++ b'\t' ∷ [])) w.stored);
    fits = omega (
      arith,
      space,
      size-insert hash (record { offset = c.data_size; length = length content }) c.meta_table
          w.table.shape,
    );
  }

-- A link of a valid container is read back: its length, and that part of the buffer.
read_stored :
    (c : Container) (chunk : Chunk) (addr : ChunkAddr)
    → IsContainer c
    → lookup chunk.hash c.meta_table ≡ some addr
    → read_chunk c chunk ≡ record chunk {
      length = addr.length;
      content = some (take addr.length (drop addr.offset c.data_buffer));
    }
unfolding read_chunk
read_stored c chunk addr w found =
    let s = Each-lookup (IsStored c.data_buffer) chunk.hash addr c.meta_table w.stored found in
    rw (found, read_chunk) (ground (arith, s, w.written, w.fits))

read_missing :
    (c : Container) (chunk : Chunk)
    → lookup chunk.hash c.meta_table ≡ none
    → read_chunk c chunk ≡ record chunk { content = none }
unfolding read_chunk
read_missing c chunk e = rw (e, read_chunk)

-- More bytes behind the buffer change nothing for the links that are there.
read_extended :
    (c c' : Container) (chunk : Chunk) (more : Bytes)
    → IsContainer c
    → IsContainer c'
    → c'.data_buffer ≡ c.data_buffer ++ more
    → lookup chunk.hash c'.meta_table ≡ lookup chunk.hash c.meta_table
    → read_chunk c' chunk ≡ read_chunk c chunk
read_extended c c' chunk more w w' longer same =
    elim (Option-cases (lookup chunk.hash c.meta_table)) [
      | inl e ↦ read_missing c' chunk (same ∙ e) ∙ sym (read_missing c chunk e)
      | inr (addr, e) ↦
          let s = Each-lookup (IsStored c.data_buffer) chunk.hash addr c.meta_table w.stored e in
          read_stored c' chunk addr w' (same ∙ e)
          ∙ ap
              (λ d. record chunk {
                length = addr.length;
                content = some (take addr.length (drop addr.offset d));
              })
              longer
          ∙ ap (λ d. record chunk { length = addr.length; content = some d })
              (slice-append addr.offset addr.length c.data_buffer more (omega (arith, s.1)))
          ∙ sym (read_stored c chunk addr w e)
    ]

module _ (c : Container) (hash content : Bytes) (w : IsContainer c)
    (whole : length hash ≡ finger_length) (short : length content + 29 ≤ default_container_size)
    (fresh : lookup hash c.meta_table ≡ none) (room : is_full c (length content) ≡ false) where
  -- Into a valid container, a chunk with a whole new fingerprint, that is short enough and for which
  -- the container is not full, is accepted, and the container stays valid.
  pub append_chunk-IsContainer :
      ((append_chunk c hash content).0 ≡ true) × IsContainer (append_chunk c hash content).1
  append_chunk-IsContainer =
      rw (append_chunk_fits c hash content w whole short fresh room)
        (refl, after-IsContainer c hash content w whole short fresh room)

  -- After a chunk with a whole new fingerprint, short enough, was appended to a valid container that
  -- is not full for it, it is read back byte for byte by its fingerprint, and a chunk with any other
  -- fingerprint reads as before.
  pub read_chunk-append_chunk :
      (chunk : Chunk)
      → read_chunk (append_chunk c hash content).1 chunk ≡ (
          if bytes_eq chunk.hash hash
          then record chunk { length = length content; content = some content }
          else read_chunk c chunk)
  read_chunk-append_chunk chunk =
      let c' = after c hash content w whole short fresh room in
      let w' = after-IsContainer c hash content w whole short fresh room in
      let found = lookup-insert hash chunk.hash _ c.meta_table w.table fresh in
      rw (append_chunk_fits c hash content w whole short fresh room)
        (elim (Bool-cases (bytes_eq chunk.hash hash)) [
          | inl e ↦
              read_stored c' chunk (record { offset = c.data_size; length = length content }) w'
                (found ∙ rw e)
              ∙ rw e (
                  ap (λ d. record chunk { length = length content; content = some d }) written_back)
          | inr e ↦ rw e (read_extended c c' chunk (content ++ b'\t' ∷ []) w w' refl (found ∙ rw e))
        ])
    where
      written_back :
          take (length content) (drop c.data_size (c.data_buffer ++ (content ++ b'\t' ∷ [])))
          ≡ content
      written_back =
          ap (take (length content)) (drop_front c.data_size c.data_buffer _ w.written)
          ∙ take_front (length content) content (b'\t' ∷ []) refl
