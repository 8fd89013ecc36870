-- ===== src/Backup/Located.antt =====
-- Where a chunk is found under an address, and that `store_chunk` of client/src/store.c keeps it there.
use tcbackup.Prelude.{
  ℕ, ◌+◌, ◌≤◌, ◌<◌, ◌≡◌, refl, sym, ap, ◌∙◌, ◌≢◌, ◌⊎◌, inl, inr, false, none, some, List, ◌∷◌,
  arith, Bytes, bytes_eq, length, Bool-cases, bytes_eq_iff, bytes_eq_refl,
}
use tcbackup.Container.{Chunk, Container, init_container, read_chunk, write_container}
use tcbackup.Container.Chunks.{IsContainer, init_container-IsContainer}
use tcbackup.Store.{Store, open_file, flush, new_container}
use mathlib.Core.Option.{none-ne-some}

-- A fingerprint leads to this content in the container.
unfoldable pub Reads : Container → Bytes → Bytes → Type 0
Reads c q content =
    (chunk : Chunk)
    → read_chunk c (record chunk { hash = q })
      ≡ record chunk { hash = q; length = length content; content = some content }

-- In a file that was written from a valid container.
unfoldable pub InFile : List (Bytes × Bytes) → Bytes → Bytes → Bytes → Type 0
InFile files address q content =
    (c : Container) × IsContainer c
    × (open_file address files ≡ some (write_container false c))
    × Reads c q content

-- In the container that is open.
unfoldable pub IsOpen : Store → Bytes → Bytes → Bytes → Type 0
IsOpen s address q content =
    (address ≡ s.container.name) × (0 < s.container.chunk_num) × Reads s.container q content

unfoldable pub IsLocated : Store → Bytes → Bytes → Bytes → Type 0
IsLocated s address q content = IsOpen s address q content ⊎ InFile s.files address q content

-- The open container is valid and has a name that no file has, nor do files have later names.
pub record IsReady (container_name : ℕ → Bytes) (s : Store) : Type 0 where
  pub valid : IsContainer s.container
  pub name : s.container.name ≡ container_name s.randomabc
  pub unused : (j : ℕ) → s.randomabc ≤ j → open_file (container_name j) s.files ≡ none

open_file_later :
    (name other bytes : Bytes) (files : List (Bytes × Bytes))
    → name ≢ other
    → open_file name ((other, bytes) ∷ files) ≡ open_file name files
unfolding open_file
open_file_later name other bytes files ne = elim (Bool-cases (bytes_eq name other)) [
  | inl e ↦ absurd (ne ((bytes_eq_iff name other).0 e))
  | inr e ↦ rw e refl
]

open_file_newest :
    (name bytes : Bytes) (files : List (Bytes × Bytes))
    → open_file name ((name, bytes) ∷ files) ≡ some bytes
unfolding open_file
open_file_newest name bytes files = rw (bytes_eq_refl name) refl

module _ (container_name : ℕ → Bytes)
    (injective : (i j : ℕ) → container_name i ≡ container_name j → i ≡ j) where
  -- A file that is there does not have the name of the open container.
  not_open :
      (s : Store) (address bytes : Bytes)
      → IsReady container_name s
      → open_file address s.files ≡ some bytes
      → address ≢ s.container.name
  not_open s address bytes ready e same = none-ne-some _ (
      sym (ready.unused s.randomabc (omega arith))
      ∙ ap (λ n. open_file n s.files) (sym (same ∙ ready.name))
      ∙ e)

  -- Writing out the open container keeps every chunk where it is.
  pub flush-InFile :
      (s : Store) (address q content : Bytes)
      → IsReady container_name s
      → IsLocated s address q content
      → InFile (flush container_name s).files address q content
  unfolding IsLocated IsOpen InFile flush
  flush-InFile s address q content ready (inl (same, some_chunk, reads)) = (
    s.container,
    ready.valid,
    ap (λ n. open_file n (flush container_name s).files) same
        ∙ open_file_newest s.container.name _ s.files,
    reads,
  )
  flush-InFile s address q content ready (inr (c, valid, saved, reads)) = (
    c,
    valid,
    open_file_later address s.container.name _ s.files (not_open s address _ ready saved) ∙ saved,
    reads,
  )

  -- After that comes a new container, with the next name.
  pub flush-IsReady :
      (s : Store)
      → IsReady container_name s
      → IsReady container_name (new_container container_name (flush container_name s))
  unfolding new_container flush init_container
  flush-IsReady s ready = record {
    valid = init_container-IsContainer (container_name (s.randomabc + 1));
    name = refl;
    unused = λ j later.
        open_file_later (container_name j) s.container.name _ s.files
          (λ same. absurd (omega (arith, later, injective j s.randomabc (same ∙ ready.name))))
        ∙ ready.unused j (omega (arith, later));
  }
