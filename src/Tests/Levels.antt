-- ===== src/Tests/Levels.antt =====
-- A file of two chunks, one of which is known and waits for the end of the stream.
use tcbackup.Prelude.{
  ℕ, ◌+◌, ◌≡◌, refl, Bool, true, Option, none, some, [], ◌∷◌, Bytes, replicate, take,
}
use tcbackup.HashTable
use tcbackup.HashTable.Laws.{IsMap, init-IsMap, lookup-init, insert-IsMap}
use tcbackup.Dedup.{new_chunk, FingerChunk, Bin}
use tcbackup.Dedup.Cfl.{Cfl, cfl_init, cfl_process}
use tcbackup.Dedup.Cfl.Counted.{IsSound, IsCounted, held, occurrences}
use tcbackup.Dedup.Cfl.Kept.{cfl_process-held, cfl_process-released}
use tcbackup.Dedup.Perfect.Total.{IsKnown, IsKnown-insert_self}
use tcbackup.Store.{Store, store_init}
use tcbackup.Tests.{hash_a, hash_b}

abbrev a : FingerChunk
a = record { chunk_hash = hash_a; is_new = new_chunk; chunklen = 3; offset = 0; chunkaddress = [] }

abbrev b : FingerChunk
b = record { chunk_hash = hash_b; is_new = new_chunk; chunklen = 3; offset = 3; chunkaddress = [] }

abbrev read_file : Bytes → ℕ → ℕ → Option Bytes
read_file path offset len = some (replicate len 7)

abbrev container_name : ℕ → Bytes
container_name n = replicate 64 n

abbrev low : ℕ → ℕ → ℕ
low size containers = size

abbrev always : ℕ → Bool
always n = true

abbrev bin : Bin
bin = HashTable.insert hash_a (replicate 64 1) (HashTable.init Bytes 20 4)

bin-IsMap : IsMap bin
bin-IsMap =
    insert-IsMap hash_a (replicate 64 1) _ (init-IsMap Bytes 20 4) (lookup-init Bytes 20 4 hash_a)

abbrev start : Cfl ℕ
start = cfl_init 1 [] 7

start-IsSound : IsSound start bin
unfolding cfl_init HashTable.init
start-IsSound = ((init-IsMap Bytes 64 3200, refl), bin-IsMap, tt)

known : IsKnown hash_a bin
known =
    IsKnown-insert_self hash_a (replicate 64 1) _ (init-IsMap Bytes 20 4)
      (lookup-init Bytes 20 4 hash_a)

-- The chunk that is known waits.
abbrev late : Cfl ℕ
late = record start { chunks = (a, []) ∷ []; length = 3; address = replicate 64 1 }

late-IsSound : IsSound late bin
unfolding cfl_init HashTable.init
late-IsSound = ((init-IsMap Bytes 64 3200, refl), bin-IsMap, (known, tt))

abbrev store : Store
store = store_init container_name

cfl_process-held_example :
    (c' : Cfl ℕ) × (bin' : Bin) × (s' : Store) × (cfl_process container_name read_file low always
        always []
        (some 2)
        (a ∷ b ∷ [])
        start
        bin
        store
      ≡ some (c', bin', s'))
    × IsSound c' bin'
    × ((q : Bytes) → held q c' ≡ held q start + occurrences q (take 2 (a ∷ b ∷ [])))
cfl_process-held_example =
    cfl_process-held container_name read_file low always always
      (λ path offset len. (replicate len 7, refl)) [] 2 (a ∷ b ∷ []) start bin store start-IsSound

cfl_process-released_example :
    (c' : Cfl ℕ) × (bin' : Bin) × (s' : Store) × (cfl_process container_name read_file low always
        always [] none [] late bin store
      ≡ some (c', bin', s'))
    × IsCounted c'
    × (c'.chunks ≡ [])
    × ((q : Bytes) → occurrences q c'.released ≡ held q late)
cfl_process-released_example =
    cfl_process-released container_name read_file low always always
      (λ path offset len. (replicate len 7, refl)) [] [] late bin store late-IsSound
