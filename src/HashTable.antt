-- ===== src/HashTable.antt =====
-- client/lib/htable.c and htable.h: the chained hash table that every index of the client uses.
-- A link is a pair of its key and its item; a bucket is its chain, newest link first. A key is
-- an array of `hashlength` bytes, so `memcmp` over that length compares whole keys. Counts are
-- unbounded; the hash keeps its 64 bits.
pub mod Chain
pub mod Invariant
pub mod Grow
pub mod Laws
pub mod Walk
pub mod Each
pub mod Load
use tcbackup.Prelude.{
  ℕ, zero, suc, ◌+◌, ◌-◌, ◌*◌, ◌/◌, ◌%◌, ◌^◌, Bool, Option, none, some, List, [], ◌∷◌, Bytes,
  bytes_eq, bit_and, bit_or, if◌then◌else◌, ltb, leb, length, get_or, set, replicate,
}

pub record Table {ℓ} (V : Type ℓ) : Type ℓ where
  pub table : List (List (Bytes × V))
  pub hashlength : ℕ
  pub num_items : ℕ
  pub max_items : ℕ
  pub buckets : ℕ
  pub mask : ℕ

-- The term that one byte of a key adds to the hash. The subtraction is done in `int`, and the
-- result may be negative, so it is added modulo 2^64.
unfoldable pub digit : ℕ → ℕ
digit c = if ltb c b'9' then (c + 2 ^ 64 - b'0') % 2 ^ 64 else (10 + c + 2 ^ 64 - b'A') % 2 ^ 64

-- The loop over `i`, from `hashlength - 1` down to 1, while the hash is below `buckets`.
unfoldable pub hash_loop : Bytes → ℕ → ℕ → ℕ → ℕ
unfolding digit
hash_loop key buckets zero hash = hash
hash_loop key buckets (suc i) hash =
    let rest =
      hash_loop key buckets i ((hash + hash * 16 + digit (get_or key (suc i) 0)) % 2 ^ 64) in
    if ltb hash buckets then rest else hash

module _ {ℓ} {V : Type ℓ} where
  unfoldable pub hash_index : Table V → Bytes → ℕ
  unfolding hash_loop
  hash_index t key = bit_and (hash_loop key t.buckets (t.hashlength - 1) 0) t.mask

  abbrev pub bucket : Table V → Bytes → List (Bytes × V)
  bucket t key = get_or t.table (hash_index t key) []

-- The bits of a table size: the loop that shifts `tsize` to zero.
unfoldable pub size_bits : ℕ → ℕ → ℕ
size_bits zero tsize = 0
size_bits (suc fuel) tsize =
    let rest = suc (size_bits fuel (tsize / 2)) in if ltb 0 tsize then rest else 0

unfoldable pub init {ℓ} : (V : Type ℓ) → ℕ → ℕ → Table V
unfolding size_bits
init V nhlen tsize =
    let pwr = size_bits (tsize + 1) (tsize / 4) in
    record {
      table = replicate (2 ^ pwr) [];
      hashlength = nhlen;
      num_items = 0;
      max_items = 2 ^ pwr * 4;
      buckets = 2 ^ pwr;
      mask = 2 ^ pwr - 1;
    }

module _ {ℓ} {V : Type ℓ} where
  -- The walk along one chain of `lookup` and `search`.
  unfoldable pub find : Bytes → List (Bytes × V) → Option V
  find key [] = none
  find key ((k, v) ∷ chain) = if bytes_eq key k then some v else find key chain

  unfoldable pub lookup : Bytes → Table V → Option V
  unfolding find
  lookup key t = find key (bucket t key)

  -- `insert` up to `++num_items`: the new link heads its chain.
  unfoldable pub insert_link : Bytes → V → Table V → Table V
  insert_link key v t = record t {
    table = set t.table (hash_index t key) ((key, v) ∷ bucket t key);
    num_items = t.num_items + 1;
  }

  -- The new table of `grow_table`, before the items are moved.
  unfoldable pub bigger : Table V → Table V
  bigger t = record {
    table = replicate (t.buckets * 2) [];
    hashlength = t.hashlength;
    num_items = 0;
    max_items = t.buckets * 2 * 4;
    buckets = t.buckets * 2;
    mask = bit_or (t.mask * 2) 1;
  }

  -- `grow_table` inserts the items of a chain one by one through their saved links, and goes on
  -- to the next bucket at its end. No insertion into the new table can make that one grow.
  unfoldable pub move_chain : List (Bytes × V) → Table V → Table V
  unfolding insert_link
  move_chain [] big = big
  move_chain ((k, v) ∷ chain) big = move_chain chain (insert_link k v big)

  unfoldable pub move_chains : List (List (Bytes × V)) → Table V → Table V
  unfolding move_chain
  move_chains [] big = big
  move_chains (chain ∷ chains) big = move_chains chains (move_chain chain big)

  unfoldable pub grow_table : Table V → Table V
  unfolding bigger move_chains
  grow_table t = move_chains t.table (bigger t)

  unfoldable pub insert : Bytes → V → Table V → Table V
  unfolding insert_link grow_table
  insert key v t =
      let t' = insert_link key v t in if leb t'.max_items t'.num_items then grow_table t' else t'

  -- The first link with the key is unchained.
  unfoldable pub unchain : Bytes → List (Bytes × V) → List (Bytes × V)
  unchain key [] = []
  unchain key ((k, v) ∷ chain) = if bytes_eq key k then chain else (k, v) ∷ unchain key chain

  unfoldable pub remove : Bytes → Table V → Option V × Table V
  unfolding find unchain
  remove key t = elim (find key (bucket t key)) [
    | none ↦ (none, t)
    | some v ↦ (
      some v,
      record t {
        table = set t.table (hash_index t key) (unchain key (bucket t key));
        num_items = t.num_items - 1;
      },
    )
  ]

  -- An item is reached through its pointer and changed in place: its link stays where it is.
  unfoldable pub change : Bytes → (V → V) → List (Bytes × V) → List (Bytes × V)
  change key f [] = []
  change key f ((k, v) ∷ chain) =
      if bytes_eq key k then (k, f v) ∷ chain else (k, v) ∷ change key f chain

  unfoldable pub modify : Bytes → (V → V) → Table V → Table V
  unfolding change
  modify key f t = record t { table = set t.table (hash_index t key) (change key f (bucket t key)) }

  abbrev pub size : Table V → ℕ
  size t = t.num_items
