-- ===== src/Container.antt =====
-- client/src/container.c and container.h: containers, the files that chunks are packed into.
-- The data buffer is the list of the bytes written so far, its first `data_size` bytes; an
-- `int32_t` is its 32-bit pattern. Files are their bytes, and a path that cannot be opened is
-- `none`.
pub mod Chunks
pub mod RoundTrip
use tcbackup.HashTable
use tcbackup.HashTable.{Table}
use tcbackup.HashTable.Walk
use tcbackup.Prelude.{
  ℕ, zero, suc, ◌+◌, ◌-◌, ◌*◌, ◌%◌, ◌^◌, Bool, true, false, ◌||◌, Option, none, some, List, [], ◌∷◌,
  ◌++◌, Bytes, if◌then◌else◌, ltb, ◌==◌, not, length, get_or, take, drop, le32, un_le32, is_neg32,
}

abbrev pub default_container_size : ℕ
default_container_size = 4 * 1024 * 1024

abbrev pub finger_length : ℕ
finger_length = 20

abbrev pub container_valid : ℕ
container_valid = 0xf5f5e4e4

-- The location of a chunk in the data buffer; its `hash` is the key of its link.
pub record ChunkAddr : Type 0 where
  pub offset : ℕ
  pub length : ℕ

-- `content` is the `data` pointer, `none` where the pointer is NULL.
pub record Chunk : Type 0 where
  pub length : ℕ
  pub hash : Bytes
  pub address : Bytes
  pub content : Option Bytes

pub record Container : Type 0 where
  pub data_size : ℕ
  pub chunk_num : ℕ
  pub name : Bytes
  pub meta_table : Table ChunkAddr
  pub data_buffer : Bytes

-- `InitContainer`; the name comes from the clock and a counter.
unfoldable pub init_container : Bytes → Container
init_container name = record {
  data_size = 0;
  chunk_num = 0;
  name = name;
  meta_table = HashTable.init ChunkAddr finger_length 512;
  data_buffer = [];
}

-- The test of `AppendChunkToContainer`. The left side is computed in 32 bits, the right side in
-- 64, and the length is not negative.
unfoldable pub is_full : Container → ℕ → Bool
is_full c len =
    ltb ((2 ^ 64 + default_container_size - 28 - len - 1) % 2 ^ 64)
      ((32 + HashTable.size c.meta_table * 28 + c.data_size) % 2 ^ 32)

-- `AppendChunkToContainer`: the data, a tab behind it, and a link for the fingerprint.
unfoldable pub append_chunk : Container → Bytes → Bytes → Bool × Container
unfolding is_full
append_chunk c hash content = if is_full c (length content) then (false, c) else (
  true,
  record c {
    data_buffer = (take c.data_size c.data_buffer ++ content) ++ b'\t' ∷ [];
    meta_table =
        HashTable.insert hash (record { offset = c.data_size; length = length content })
          c.meta_table;
    data_size = c.data_size + length content + 1;
    chunk_num = c.chunk_num + 1;
  },
)

-- `ReadChunkFromContainer`, the length and the data that it leaves in the chunk. A byte past the
-- written part of the buffer is zero.
unfoldable pub read_chunk : Container → Chunk → Chunk
read_chunk c chunk = elim (HashTable.lookup chunk.hash c.meta_table) [
  | none ↦ record chunk { content = none }
  | some addr ↦
      if is_neg32 addr.length || ltb c.data_size addr.offset || is_neg32 addr.offset
      then record chunk { content = none }
      else if not (get_or c.data_buffer (addr.offset + addr.length) 0 == b'\t')
      then record chunk { length = addr.length; content = none }
      else record chunk {
        length = addr.length;
        content = some (take addr.length (drop addr.offset c.data_buffer));
      }
]

-- The file that `WriteContainer` builds: the magic number, the counts, a descriptor for each
-- link that the walk over the table visits, and the data, which a simulation leaves out.
unfoldable pub descriptor : Bytes × ChunkAddr → Bytes
descriptor (hash, addr) = le32 addr.offset ++ (le32 addr.length ++ take finger_length hash)

unfoldable pub descriptors : List (Bytes × ChunkAddr) → Bytes
unfolding descriptor
descriptors [] = []
descriptors (e ∷ es) = descriptor e ++ descriptors es

unfoldable pub write_container : Bool → Container → Bytes
unfolding descriptors
write_container simulate c =
    le32 container_valid
    ++ (le32 c.chunk_num
        ++ (le32 c.data_size
            ++ (descriptors (Walk.items c.meta_table)
                ++ (if simulate then [] else take c.data_size c.data_buffer))))

-- The loop of `ReadContainer` over the descriptors: the table, and what is left of the file.
unfoldable pub read_descriptors : ℕ → Bytes → Table ChunkAddr → Table ChunkAddr × Bytes
read_descriptors zero p t = (t, p)
read_descriptors (suc n) p t = read_descriptors n (drop finger_length (drop 4 (drop 4 p))) (
    HashTable.insert (take finger_length (drop 4 (drop 4 p)))
      (record { offset = un_le32 p; length = un_le32 (drop 4 p) }) t)

-- `ReadContainer` into a container. The name is copied before anything can fail. A negative
-- count ends the loop at once; a negative size, which would
-- make the copy overrun, here takes what is left. At most one buffer of the file is read.
unfoldable pub parse_container : Bytes → Bytes → Container → Bool × Container
unfolding read_descriptors
parse_container name p c =
    let num = un_le32 (drop 4 p) in
    let size = un_le32 (drop 4 (drop 4 p)) in
    let (table, rest) =
      read_descriptors (if is_neg32 num then 0 else num) (drop 4 (drop 4 (drop 4 p)))
        c.meta_table in
    if not (un_le32 p == container_valid) then (false, record c { name = name }) else (
      true,
      record c {
        name = name;
        chunk_num = num;
        data_size = size;
        meta_table = table;
        data_buffer = take size rest ++ drop size c.data_buffer;
      },
    )

unfoldable pub read_container : Bytes → Option Bytes → Container → Bool × Container
unfolding parse_container
read_container name file c = elim file [
  | none ↦ (false, record c { name = name })
  | some bytes ↦ parse_container name (take default_container_size bytes) c
]
