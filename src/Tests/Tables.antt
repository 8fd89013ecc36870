-- ===== src/Tests/Tables.antt =====
-- The hash table with one entry, fingerprints as text, and the order of the cache.
use tcbackup.Hex.{hash2code, code2hash, digest_to_hash}
use tcbackup.Hex.Digest.{digest_to_hash-hash2code}
use tcbackup.Hex.RoundTrip.{code2hash-hash2code}
use tcbackup.HashTable
use tcbackup.HashTable.{Table, find, lookup}
use tcbackup.HashTable.Laws.{IsMap, init-IsMap, lookup-init, insert-IsMap, lookup-insert}
use tcbackup.Tests.{hash_a, hash_b}
use tcbackup.Prelude.{
  ℕ, ◌≡◌, refl, ◌∙◌, none, some, [], ◌∷◌, ◌++◌, bytes_eq, if◌then◌else◌, arith, arith,
}

abbrev empty : Table ℕ
empty = HashTable.init ℕ 20 4

abbrev one : Table ℕ
one = HashTable.insert hash_a 7 empty

one-IsMap : IsMap one
one-IsMap = insert-IsMap hash_a 7 empty (init-IsMap ℕ 20 4) (lookup-init ℕ 20 4 hash_a)

absent_b : lookup hash_b one ≡ none
unfolding bytes_eq
absent_b =
    lookup-insert hash_a hash_b 7 empty (init-IsMap ℕ 20 4) (lookup-init ℕ 20 4 hash_a)
    ∙ lookup-init ℕ 20 4 hash_b

lookup-insert_example :
    lookup hash_a (HashTable.insert hash_b 9 one)
    ≡ (if bytes_eq hash_a hash_b then some 9 else lookup hash_a one)
lookup-insert_example = lookup-insert hash_b hash_a 9 one one-IsMap absent_b

code2hash-hash2code_example : code2hash (hash2code hash_a) ≡ hash_a
code2hash-hash2code_example = code2hash-hash2code hash_a refl (ground arith)

digest_to_hash-hash2code_example : digest_to_hash hash_a ≡ hash2code hash_a ++ 0 ∷ []
digest_to_hash-hash2code_example = digest_to_hash-hash2code hash_a refl
