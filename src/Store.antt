-- ===== src/Store.antt =====
-- client/src/store.c: chunks go to the open container, which is written out when it is full.
-- The files of the temporary directory are a list, newest first; container names come from
-- `GetContainerName`, here a function of its counter. The upload to the cloud is left out.
pub mod Cache
pub mod Chunks
pub mod Restore
use tcbackup.Container.{Container, init_container, append_chunk, write_container}
use tcbackup.Prelude.{
  ℕ, ◌+◌, Bool, true, false, Option, none, some, List, [], ◌∷◌, Bytes, bytes_eq, if◌then◌else◌, ltb,
}

pub record Store : Type 0 where
  pub container : Container
  pub files : List (Bytes × Bytes)
  pub randomabc : ℕ

-- `open` of a path: the newest file of that name.
unfoldable pub open_file : Bytes → List (Bytes × Bytes) → Option Bytes
open_file name [] = none
open_file name ((n, bytes) ∷ files) = if bytes_eq name n then some bytes else open_file name files

module _ (container_name : ℕ → Bytes) where
  -- `InitContainer` with the next name.
  unfoldable pub new_container : Store → Store
  new_container s = record s {
    container = init_container (container_name (s.randomabc + 1));
    randomabc = s.randomabc + 1;
  }

  unfoldable pub store_init : Store
  unfolding new_container
  store_init =
      new_container
        (record { container = init_container (container_name 0); files = []; randomabc = 1 })

  -- `WriteContainer` saves the container under its name, where SIMULATE is off and the file can be written.
  unfoldable pub flush : Store → Store
  flush s = record s { files = (s.container.name, write_container false s.container) ∷ s.files }

  -- `store_chunk`: the address that the chunk gets, and the new state. The result of the second
  -- append is not looked at.
  unfoldable pub store_chunk : Bytes → Bytes → Store → Bytes × Store
  unfolding flush new_container
  store_chunk hash content s =
      let (fits, c) = append_chunk s.container hash content in
      let s' = new_container (flush s) in
      let (again, c') = append_chunk s'.container hash content in
      if fits then (c.name, record s { container = c }) else (c'.name, record s' { container = c' })

  unfoldable pub store_destroy : Store → Store
  unfolding flush
  store_destroy s = if ltb 0 s.container.chunk_num then flush s else s
