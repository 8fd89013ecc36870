-- ===== src/Dedup/Capping.antt =====
-- client/src/capping.c: chunks are buffered, and of the containers that the buffered duplicates
-- refer to only the `max_refer_count` most used ones may stay; other duplicates are stored again.
-- The queue of chunk lists is a list; a chunk list is its path and its chunks, and a list that was
-- rewritten goes to `done`. `buffer_capacity` is in bytes, and `buffer_length`, an `int`, is its bit pattern. The bin that all files share is passed
-- along, and the mutexes are left out.
pub mod Sorted
pub mod Kept
pub mod Buffer
use tcbackup.HashTable
use tcbackup.HashTable.{Table}
use tcbackup.HashTable.Walk
use tcbackup.Store.{Store}
use tcbackup.Dedup.{
  ChunkState, new_chunk, dedup_chunk, FingerChunk, Bin, insert_meta, write_chunk_to_cloud,
}
use tcbackup.Prelude.{
  ℕ, suc, zero, ◌+◌, ◌%◌, ◌^◌, ◌&&◌, not, is_neg32, Bool, true, false, Option, none, some, List, [],
  ◌∷◌, ◌++◌, Bytes, if◌then◌else◌, take, drop, ltb, ◌==◌,
}

pub record ChunkList : Type 0 where
  pub path : Bytes
  pub chunks : List FingerChunk

pub record Capping : Type 0 where
  pub chunk_buffer : List ChunkList
  pub segment_buffer : Table ℕ
  pub buffer_length : ℕ
  pub bin : Bin
  pub store : Store
  pub done : List ChunkList

unfoldable pub new_segments : Table ℕ
new_segments = HashTable.init ℕ 64 50

-- A node goes in front of the first node that has a smaller length.
unfoldable pub link_node : Bytes × ℕ → List (Bytes × ℕ) → List (Bytes × ℕ)
link_node rn [] = rn ∷ []
link_node rn (p ∷ ps) = if ltb p.1 rn.1 then rn ∷ p ∷ ps else p ∷ link_node rn ps

unfoldable pub link_nodes : List (Bytes × ℕ) → List (Bytes × ℕ) → List (Bytes × ℕ)
unfolding link_node
link_nodes [] head = head
link_nodes (rn ∷ rns) head = link_nodes rns (link_node rn head)

unfoldable pub remove_nodes : List (Bytes × ℕ) → Table ℕ → Table ℕ
remove_nodes [] t = t
remove_nodes ((address, n) ∷ ps) t = remove_nodes ps (HashTable.remove address t).1

-- The result, and the segments that are left. It is called where there are more than `max_refer_count`, so
-- where there is one.
unfoldable pub sort_segments : ℕ → Table ℕ → Bool × Table ℕ
unfolding link_nodes remove_nodes
sort_segments max_refer_count t =
    let head = link_nodes (Walk.items t) [] in
    let t' = remove_nodes (drop max_refer_count head) t in
    (HashTable.size t' == max_refer_count, t')

-- The first sight of a chunk: its mark, and the count of its segment.
unfoldable pub refer_chunk : FingerChunk → Bin → Table ℕ → FingerChunk × Table ℕ
refer_chunk fc bin segments = elim (HashTable.lookup fc.chunk_hash bin) [
  | none ↦ (record fc { is_new = new_chunk }, segments)
  | some address ↦
      let fc' = record fc { is_new = dedup_chunk; chunkaddress = address } in
      (
        fc',
        elim (HashTable.lookup address segments) as (λ x. Table ℕ) [
          | none ↦ HashTable.insert address fc.chunklen segments
          | some n ↦ HashTable.modify address (λ k. k + fc.chunklen) segments
        ],
      )
]

module _ (container_name : ℕ → Bytes) (read_file : Bytes → ℕ → ℕ → Option Bytes)
    (max_refer_count buffer_capacity : ℕ) where
  -- The body of the loop of `rewrite`; `none` where it returns false or uses a missing entry.
  unfoldable pub cap_chunk :
      Bytes → Table ℕ → FingerChunk → Bin → Store → Option (FingerChunk × Bin × Store)
  unfolding insert_meta
  cap_chunk path segments fc bin s =
      let write = write_chunk_to_cloud container_name (read_file path) fc.offset fc s in
      elim fc.is_new [
        | new_chunk ↦ elim (HashTable.lookup fc.chunk_hash bin) [
          | some address ↦ some (record fc { is_new = dedup_chunk; chunkaddress = address }, bin, s)
          | none ↦ elim write [ none ↦ none | some (fc', s') ↦ some (fc', insert_meta fc' bin, s') ]
        ]
        | dedup_chunk ↦ elim (HashTable.lookup fc.chunkaddress segments) [
          | some n ↦ some (fc, bin, s)
          | none ↦ elim write [
            | none ↦ none
            | some (fc', s') ↦ elim (HashTable.lookup fc.chunk_hash bin) [
              | none ↦ none
              | some address ↦ some (
                record fc' { is_new = new_chunk },
                HashTable.modify fc.chunk_hash (λ a. fc'.chunkaddress) bin,
                s',
              )
            ]
          ]
        ]
      ]

  unfoldable pub cap_chunks :
      Bytes → Table ℕ → List FingerChunk → Bin → Store → Option (List FingerChunk × Bin × Store)
  unfolding cap_chunk
  cap_chunks path segments [] bin s = some ([], bin, s)
  cap_chunks path segments (fc ∷ fcs) bin s = elim (cap_chunk path segments fc bin s) [
    | none ↦ none
    | some (fc', bin', s') ↦ elim (cap_chunks path segments fcs bin' s') [
      | none ↦ none
      | some (fcs', bin'', s'') ↦ some (fc' ∷ fcs', bin'', s'')
    ]
  ]

  unfoldable pub cap_lists :
      Table ℕ → List ChunkList → Bin → Store → Option (List ChunkList × Bin × Store)
  unfolding cap_chunks
  cap_lists segments [] bin s = some ([], bin, s)
  cap_lists segments (cl ∷ cls) bin s = elim (cap_chunks cl.path segments cl.chunks bin s) [
    | none ↦ none
    | some (fcs, bin', s') ↦ elim (cap_lists segments cls bin' s') [
      | none ↦ none
      | some (rest, bin'', s'') ↦ some (record cl { chunks = fcs } ∷ rest, bin'', s'')
    ]
  ]

  -- `rewrite`: cap the segments, empty the queue, and start with no segments.
  unfoldable pub rewrite : Capping → Option Capping
  unfolding sort_segments cap_lists new_segments
  rewrite c =
      let (sorted, segments) =
        if ltb max_refer_count (HashTable.size c.segment_buffer)
        then sort_segments max_refer_count c.segment_buffer
        else (true, c.segment_buffer) in
      if sorted
      then elim (cap_lists segments c.chunk_buffer c.bin c.store) [
        | none ↦ none
        | some (lists, bin, s) ↦ some (record c {
          chunk_buffer = [];
          segment_buffer = new_segments;
          bin = bin;
          store = s;
          done = c.done ++ lists;
        })
      ]
      else none

  -- The buffer is full: what the list `cl` holds is queued, unless it is empty, and all is rewritten.
  unfoldable pub make_room : ChunkList → Capping → Option Capping
  unfolding rewrite
  make_room cl c =
      let queue : List ChunkList = elim cl.chunks [
        | [] ↦ c.chunk_buffer
        | fc ∷ fcs ↦ c.chunk_buffer ++ (cl ∷ [])
      ] in
      elim (rewrite (record c { chunk_buffer = queue })) [
        | none ↦ none
        | some c' ↦ some (record c' { buffer_length = 0 })
      ]

  unfoldable pub take_chunk : FingerChunk → ChunkList → Capping → ChunkList × Capping
  unfolding refer_chunk
  take_chunk fc cl c =
      let (fc', segments) = refer_chunk fc c.bin c.segment_buffer in
      (
        record cl { chunks = cl.chunks ++ (fc' ∷ []) },
        record c {
          segment_buffer = segments;
          buffer_length = (c.buffer_length + fc.chunklen) % 2 ^ 32;
        },
      )

  -- `fc->chunklen + buffer_length > buffer_capacity`: the sum is an `int`, and may have wrapped below zero.
  abbrev pub is_over : FingerChunk → Capping → Bool
  is_over fc c =
      let sum = (fc.chunklen + c.buffer_length) % 2 ^ 32 in
      not (is_neg32 sum) && ltb buffer_capacity sum

  -- The loop of `capping_process` over the chunks of a file.
  unfoldable pub buffer_chunks : List FingerChunk → ChunkList → Capping → Option Capping
  unfolding make_room take_chunk
  buffer_chunks [] cl c = some (record c { chunk_buffer = c.chunk_buffer ++ (cl ∷ []) })
  buffer_chunks (fc ∷ fcs) cl c =
      if is_over fc c
      then elim (make_room cl c) [
        | none ↦ none
        | some c' ↦
            let (cl', c'') = take_chunk fc (record cl { chunks = [] }) c' in
            buffer_chunks fcs cl' c''
      ]
      else let (cl', c') = take_chunk fc cl c in buffer_chunks fcs cl' c'

  -- `capping_process` for a file, and for the end of the stream.
  unfoldable pub capping_process : Option (Bytes × List FingerChunk) → Capping → Option Capping
  unfolding buffer_chunks
  capping_process none c = rewrite c
  capping_process (some (path, fcs)) c = buffer_chunks fcs (record { path = path; chunks = [] }) c
