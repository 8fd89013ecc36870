-- ===== src/Dedup/Perfect/Total.antt =====
-- The second pass on what the first pass left: with a readable file it does not fail.
use tcbackup.HashTable
use tcbackup.HashTable.{Table}
use tcbackup.HashTable.Laws.{IsMap, insert-IsMap, lookup-insert, lookup-modify, modify-IsMap}
use tcbackup.Store.{Store, store_chunk}
use tcbackup.Dedup.{
  ChunkState, new_chunk, dedup_chunk, FileState, FingerChunk, Bin, insert_meta,
  write_chunk_to_cloud,
}
use tcbackup.Dedup.Perfect.{
  count_segment, classify, first_pass, store_new, rewrite_dup, rewrite_chunk, second_pass,
}
use tcbackup.Dedup.Perfect.Usage.{first_pass_step, classify-IsMap}
use mathlib.Core.Option.{some-injective}
use mathlib.Core.Path.{subst}
use tcbackup.Prelude.{
  ℕ, ◌≡◌, refl, ap, sym, ◌∙◌, Bool, Option, none, some, List, [], ◌∷◌, Bytes, bytes_eq, All,
  Option-cases, Bool-cases, inl, inr, bytes_eq_refl,
}

-- The key has an entry.
abbrev pub IsKnown {ℓ} : {V : Type ℓ} → Bytes → Table V → Type ℓ
IsKnown {V = V} k t = (v : V) × (HashTable.lookup k t ≡ some v)

-- A chunk marked as a duplicate has its segment counted and its fingerprint in the index.
abbrev pub IsReady : Table ℕ → Bin → FingerChunk → Type 0
IsReady segments bin fc =
    fc.is_new ≡ dedup_chunk → IsKnown fc.chunkaddress segments × IsKnown fc.chunk_hash bin

pub IsKnown-insert {ℓ} :
    {V : Type ℓ} (k q : Bytes) (v : V) (t : Table V)
    → IsMap t
    → HashTable.lookup k t ≡ none
    → IsKnown q t
    → IsKnown q (HashTable.insert k v t)
IsKnown-insert k q v t m e (w, known) = elim (Bool-cases (bytes_eq q k)) [
  | inl s ↦ (v, lookup-insert k q v t m e ∙ rw s refl)
  | inr s ↦ (w, lookup-insert k q v t m e ∙ rw s known)
]

pub IsKnown-insert_self {ℓ} :
    {V : Type ℓ} (k : Bytes) (v : V) (t : Table V)
    → IsMap t
    → HashTable.lookup k t ≡ none
    → IsKnown k (HashTable.insert k v t)
IsKnown-insert_self k v t m e = (v, lookup-insert k k v t m e ∙ rw (bytes_eq_refl k) refl)

pub IsKnown-modify {ℓ} :
    {V : Type ℓ} (k q : Bytes) (f : V → V) (t : Table V)
    → IsMap t
    → IsKnown q t
    → IsKnown q (HashTable.modify k f t)
IsKnown-modify k q f t m (w, known) = elim (Bool-cases (bytes_eq q k)) [
  | inl s ↦ (f w, lookup-modify k q f t m.shape ∙ rw (s, known) refl)
  | inr s ↦ (w, lookup-modify k q f t m.shape ∙ rw s known)
]

-- What a step of the second pass promises for a readable chunk.
abbrev IsDone : FingerChunk → Bin → Option (FingerChunk × Bin × Store) → Type 0
IsDone fc bin none = ⊥
IsDone fc bin (some (fc', bin', s')) =
    IsMap bin' × IsKnown fc.chunk_hash bin' × ((q : Bytes) → IsKnown q bin → IsKnown q bin')

module _ (container_name : ℕ → Bytes) (is_sparse : ℕ → Bool) (read_file : ℕ → ℕ → Option Bytes)
    (readable : (offset len : ℕ) → (content : Bytes) × (read_file offset len ≡ some content)) where
  write_done :
      (fc : FingerChunk) (s : Store)
      → (fc' : FingerChunk) × (s' : Store) × (write_chunk_to_cloud container_name read_file
            fc.offset fc s
          ≡ some (fc', s'))
        × (fc'.chunk_hash ≡ fc.chunk_hash)
  unfolding write_chunk_to_cloud
  write_done fc s =
      let (content, e) = readable fc.offset fc.chunklen in
      let (address, s') = store_chunk container_name fc.chunk_hash content s in
      (record fc { chunkaddress = address }, s', rw (e, write_chunk_to_cloud) refl, refl)

  store_new-IsDone :
      (fc : FingerChunk) (bin : Bin) (s : Store)
      → IsMap bin
      → IsDone fc bin (store_new container_name is_sparse read_file fc bin s)
  unfolding store_new insert_meta
  store_new-IsDone fc bin s m = elim (Option-cases (HashTable.lookup fc.chunk_hash bin)) [
    | inl e ↦
        let (fc', s', written, same) = write_done fc s in
        let absent : HashTable.lookup fc'.chunk_hash bin ≡ none =
          ap (λ h. HashTable.lookup h bin) same ∙ e in
        rw (e, written, store_new)
          (
            insert-IsMap fc'.chunk_hash fc'.chunkaddress bin m absent,
            subst (λ h. IsKnown h (HashTable.insert fc'.chunk_hash fc'.chunkaddress bin)) same
                (IsKnown-insert_self fc'.chunk_hash fc'.chunkaddress bin m absent),
            λ q. IsKnown-insert fc'.chunk_hash q fc'.chunkaddress bin m absent,
          )
    | inr (a, e) ↦ rw (e, store_new) (m, (a, e), λ q k. k)
  ]

  rewrite_dup-IsDone :
      (fc : FingerChunk) (bin : Bin) (s : Store)
      → IsMap bin
      → IsKnown fc.chunk_hash bin
      → IsDone fc bin (rewrite_dup container_name is_sparse read_file fc bin s)
  unfolding rewrite_dup
  rewrite_dup-IsDone fc bin s m (a, e) =
      let (fc', s', written, same) = write_done fc s in
      rw (written, e, rewrite_dup)
        (
          modify-IsMap fc.chunk_hash (λ x. fc'.chunkaddress) bin m,
          IsKnown-modify fc.chunk_hash fc.chunk_hash (λ x. fc'.chunkaddress) bin m (a, e),
          λ q. IsKnown-modify fc.chunk_hash q (λ x. fc'.chunkaddress) bin m,
        )

  rewrite_chunk-IsDone :
      (segments : Table ℕ) (fc : FingerChunk) (bin : Bin) (s : Store)
      → IsMap bin
      → IsReady segments bin fc
      → IsDone fc bin (rewrite_chunk container_name is_sparse read_file segments fc bin s)
  unfolding rewrite_chunk
  rewrite_chunk-IsDone segments fc bin s m ready = go fc.is_new refl
    where
      go :
          (state : ChunkState)
          → fc.is_new ≡ state
          → IsDone fc bin (rewrite_chunk container_name is_sparse read_file segments fc bin s)
      go new_chunk e = rw (e, rewrite_chunk) (store_new-IsDone fc bin s m)
      go dedup_chunk e =
          let ((len, counted), known) = ready e in
          rw (e, counted, rewrite_chunk)
            (elim (Bool-cases (is_sparse len)) [
              | inl t ↦ rw t (rewrite_dup-IsDone fc bin s m known)
              | inr t ↦ rw t (m, known, λ q k. k)
            ])

  IsReady-mono :
      (segments segments' : Table ℕ) (bin bin' : Bin) (fcs : List FingerChunk)
      → ((q : Bytes) → IsKnown q segments → IsKnown q segments')
      → ((q : Bytes) → IsKnown q bin → IsKnown q bin')
      → All (IsReady segments bin) fcs
      → All (IsReady segments' bin') fcs
  IsReady-mono segments segments' bin bin' [] f g h = tt
  IsReady-mono segments segments' bin bin' (fc ∷ fcs) f g h = (
    λ e. (f fc.chunkaddress (h.0 e).0, g fc.chunk_hash (h.0 e).1),
    IsReady-mono segments segments' bin bin' fcs f g h.1,
  )

  abbrev Passes : Table ℕ → List FingerChunk → Bin → Store → Type 0
  Passes segments fcs bin s =
      (fcs' : List FingerChunk) × (bin' : Bin) × (s' : Store) × (second_pass container_name
          is_sparse read_file segments fcs bin s
        ≡ some (fcs', bin', s'))
      × IsMap bin'
      × All (λ fc. IsKnown fc.chunk_hash bin') fcs
      × ((q : Bytes) → IsKnown q bin → IsKnown q bin')

  pub second_pass_total :
      (segments : Table ℕ) (fcs : List FingerChunk) (bin : Bin) (s : Store)
      → IsMap bin
      → All (IsReady segments bin) fcs
      → Passes segments fcs bin s
  unfolding second_pass
  second_pass_total segments [] bin s m h = ([], bin, s, refl, m, tt, λ q k. k)
  second_pass_total segments (fc ∷ fcs) bin s m h =
      go (rewrite_chunk container_name is_sparse read_file segments fc bin s) refl
        (rewrite_chunk-IsDone segments fc bin s m h.0)
        (λ bin₁ s₁ m₁ ready. second_pass_total segments fcs bin₁ s₁ m₁ ready)
    where
      go :
          (o : Option (FingerChunk × Bin × Store))
          → rewrite_chunk container_name is_sparse read_file segments fc bin s ≡ o
          → IsDone fc bin o
          → ((bin₁ : Bin) (s₁ : Store)
              → IsMap bin₁
              → All (IsReady segments bin₁) fcs
              → Passes segments fcs bin₁ s₁)
          → Passes segments (fc ∷ fcs) bin s
      go none e d rest = absurd d
      go (some (fc', bin₁, s₁)) e d rest =
          let (fcs', bin₂, s₂, run, m₂, all, kept) =
            rest bin₁ s₁ d.0 (IsReady-mono segments segments bin bin₁ fcs (λ q k. k) d.2 h.1) in
          (
            fc' ∷ fcs',
            bin₂,
            s₂,
            rw (e, run, second_pass) refl,
            m₂,
            (kept fc.chunk_hash d.1, all),
            λ q k. kept q (d.2 q k),
          )

count_segment-IsKnown :
    (fc : FingerChunk) (segments : Table ℕ)
    → IsMap segments
    → IsKnown fc.chunkaddress (count_segment fc segments)
      × ((q : Bytes) → IsKnown q segments → IsKnown q (count_segment fc segments))
unfolding count_segment
count_segment-IsKnown fc segments m =
    elim (Option-cases (HashTable.lookup fc.chunkaddress segments)) [
      | inl e ↦
          rw (e, count_segment)
            (
              IsKnown-insert_self fc.chunkaddress _ segments m e,
              λ q. IsKnown-insert fc.chunkaddress q _ segments m e,
            )
      | inr (n, e) ↦
          rw (e, count_segment)
            (
              IsKnown-modify fc.chunkaddress fc.chunkaddress _ segments m (n, e),
              λ q. IsKnown-modify fc.chunkaddress q _ segments m,
            )
    ]

classify-IsReady :
    (fc : FingerChunk) (bin : Bin) (segments : Table ℕ)
    → IsMap segments
    → IsReady (classify fc bin segments).1 bin (classify fc bin segments).0
      × ((q : Bytes) → IsKnown q segments → IsKnown q (classify fc bin segments).1)
unfolding classify
classify-IsReady fc bin segments m = elim (Option-cases (HashTable.lookup fc.chunk_hash bin)) [
  | inl e ↦ rw (e, classify) (λ s. cc s, λ q k. k)
  | inr (address, e) ↦
      let c =
        count_segment-IsKnown (record fc { is_new = dedup_chunk; chunkaddress = address }) segments
          m in
      rw (e, classify) (λ s. (c.0, (address, e)), c.1)
]

first_pass-IsReady :
    (state : FileState) (fcs fcs' : List FingerChunk) (bin : Bin) (segments segments' : Table ℕ)
    → IsMap segments
    → first_pass state fcs bin segments ≡ some (fcs', segments')
    → All (IsReady segments' bin) fcs' × ((q : Bytes) → IsKnown q segments → IsKnown q segments')
unfolding first_pass
first_pass-IsReady state [] fcs' bin segments segments' m h =
    let same = some-injective _ _ h in
    (
      subst (All (IsReady segments' bin)) (ap (λ x. x.0) same) tt,
      λ q. subst (IsKnown q) (ap (λ x. x.1) same),
    )
first_pass-IsReady state (fc ∷ fcs) fcs' bin segments segments' m h =
    let (rest, shape, later) = first_pass_step state fc fcs fcs' bin segments segments' h in
    let (ready, kept) = classify-IsReady fc bin segments m in
    let (all, kept') =
      first_pass-IsReady state fcs rest bin (classify fc bin segments).1 segments'
        (classify-IsMap fc bin segments m) later in
    (
      subst (All (IsReady segments' bin)) (sym shape)
          (λ e. (kept' _ (ready e).0, (ready e).1), all),
      λ q k. kept' q (kept q k),
    )

module _ (container_name : ℕ → Bytes) (is_sparse : ℕ → Bool) (read_file : ℕ → ℕ → Option Bytes)
    (readable : (offset len : ℕ) → (content : Bytes) × (read_file offset len ≡ some content)) where
  -- A file that the first pass accepted, and whose reads succeed, passes the second pass without an
  -- error, also where counts and index learned more in between, but forgot nothing and stayed maps.
  -- Afterwards the index is a map that knows every fingerprint of the file and all that it knew
  -- before.
  pub second_pass-first_pass :
      (state : FileState) (fcs marked : List FingerChunk) (bin later : Bin)
      (segments counted final : Table ℕ) (s : Store)
      → IsMap segments
      → IsMap later
      → first_pass state fcs bin segments ≡ some (marked, counted)
      → ((q : Bytes) → IsKnown q counted → IsKnown q final)
      → ((q : Bytes) → IsKnown q bin → IsKnown q later)
      → (fcs' : List FingerChunk) × (bin' : Bin) × (s' : Store) × (second_pass container_name
            is_sparse read_file final marked later s
          ≡ some (fcs', bin', s'))
        × IsMap bin'
        × All (λ fc. IsKnown fc.chunk_hash bin') marked
        × ((q : Bytes) → IsKnown q later → IsKnown q bin')
  second_pass-first_pass state fcs marked bin later segments counted final s m m' first f g =
      second_pass_total container_name is_sparse read_file readable final marked later s m' (
        IsReady-mono container_name is_sparse read_file readable counted final bin later marked f g
          (first_pass-IsReady state fcs marked bin segments counted m first).0)
