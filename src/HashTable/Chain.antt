-- ===== src/HashTable/Chain.antt =====
-- Chains of links: how often a key occurs, and what the walk over a chain finds.
use tcbackup.Prelude.{
  ℕ, zero, suc, ◌+◌, ◌-◌, ◌<◌, ◌≡◌, refl, ◌≢◌, true, false, Option, none, some, List, [], ◌∷◌,
  Bytes, bytes_eq, bytes_eq_iff, Bool-cases, inl, inr, arith, if◌then◌else◌, length, get_or, All,
}
use tcbackup.HashTable.{find, unchain, change}
use mathlib.Core.Option

module _ {ℓ} {V : Type ℓ} where
  abbrev pub or_else : Option V → Option V → Option V
  or_else none b = b
  or_else (some a) b = some a

  unfoldable pub count : Bytes → List (Bytes × V) → ℕ
  count q [] = 0
  count q ((k, v) ∷ c) = (if bytes_eq q k then 1 else 0) + count q c

  unfoldable pub count_all : Bytes → List (List (Bytes × V)) → ℕ
  count_all q [] = 0
  count_all q (c ∷ cs) = count q c + count_all q cs

  unfoldable pub find_all : Bytes → List (List (Bytes × V)) → Option V
  find_all q [] = none
  find_all q (c ∷ cs) = or_else (find q c) (find_all q cs)

  pub find_absent : (q : Bytes) (c : List (Bytes × V)) → count q c ≡ 0 → find q c ≡ none
  unfolding count find
  find_absent q [] h = refl
  find_absent q ((k, v) ∷ c) h = ground (arith, find_absent q c)

  pub find_present :
      (q : Bytes) (c : List (Bytes × V)) → 0 < count q c → (v : V) × (find q c ≡ some v)
  unfolding count find
  find_present q [] h = absurd (omega arith)
  find_present q ((k, v) ∷ c) h =
      elim (bytes_eq q k)
          as (λ b.
            0 < (if b then 1 else 0) + count q c
            → (w : V) × ((if b then some v else find q c) ≡ some w)) [
              | true ↦ λ p. (v, refl)
              | false ↦ λ p. find_present q c (omega arith)
            ]
        h

  pub find_all_absent :
      (q : Bytes) (cs : List (List (Bytes × V))) → count_all q cs ≡ 0 → find_all q cs ≡ none
  unfolding count_all find_all
  find_all_absent q [] h = refl
  find_all_absent q (c ∷ cs) h = ground (arith, find_absent q c, find_all_absent q cs)

  -- Where all other buckets lack the key, the whole table counts and finds what its bucket does.
  count_all_none :
      (q : Bytes) (cs : List (List (Bytes × V)))
      → ((j : ℕ) → count q (get_or cs j []) ≡ 0)
      → count_all q cs ≡ 0
  unfolding count_all count
  count_all_none q [] h = refl
  count_all_none q (c ∷ cs) h = omega (arith, h 0, count_all_none q cs (λ j. h (suc j)))

  pub count_all_single :
      (q : Bytes) (n : ℕ) (cs : List (List (Bytes × V)))
      → ((j : ℕ) → j ≢ n → count q (get_or cs j []) ≡ 0)
      → count_all q cs ≡ count q (get_or cs n [])
  unfolding count_all count
  count_all_single q n [] h = refl
  count_all_single q zero (c ∷ cs) h =
      omega (arith, count_all_none q cs (λ j. h (suc j) (omega arith)))
  count_all_single q (suc n) (c ∷ cs) h =
      omega (arith, h 0 (omega arith), count_all_single q n cs (λ j ne. h (suc j) (omega arith)))

  pub find_all_single :
      (q : Bytes) (n : ℕ) (cs : List (List (Bytes × V)))
      → ((j : ℕ) → j ≢ n → count q (get_or cs j []) ≡ 0)
      → find_all q cs ≡ find q (get_or cs n [])
  unfolding find_all find
  find_all_single q n [] h = refl
  find_all_single q zero (c ∷ cs) h =
      ground (arith, find_all_absent q cs (count_all_none q cs (λ j. h (suc j) (omega arith))))
  find_all_single q (suc n) (c ∷ cs) h = ground (
    arith,
    find_absent q c (h 0 (omega arith)),
    find_all_single q n cs (λ j ne. h (suc j) (omega arith)),
  )

  -- A chain whose keys all hash elsewhere lacks the key.
  pub count_elsewhere :
      (hash : Bytes → ℕ) (q : Bytes) (i : ℕ) (c : List (Bytes × V))
      → i ≢ hash q
      → All (λ e. hash e.0 ≡ i) c
      → count q c ≡ 0
  unfolding count
  count_elsewhere hash q i [] ne h = refl
  count_elsewhere hash q i ((k, v) ∷ c) ne h =
      ground (arith, bytes_eq_iff q k, count_elsewhere hash q i c ne h.1)

  pub count-unchain :
      (k q : Bytes) (c : List (Bytes × V))
      → count q (unchain k c) ≡ count q c - (if bytes_eq q k then 1 else 0)
  unfolding count unchain
  count-unchain k q [] = ground arith
  count-unchain k q ((j, v) ∷ c) =
      ground (arith, bytes_eq_iff k j, bytes_eq_iff q j, bytes_eq_iff q k, count-unchain k q c)

  pub find-unchain_ne :
      (k q : Bytes) (c : List (Bytes × V)) → bytes_eq q k ≡ false → find q (unchain k c) ≡ find q c
  unfolding find unchain
  find-unchain_ne k q [] ne = refl
  find-unchain_ne k q ((j, v) ∷ c) ne =
      ground (arith, bytes_eq_iff k j, bytes_eq_iff q j, bytes_eq_iff q k, find-unchain_ne k q c ne)

  pub All-unchain {κ} :
      (P : Bytes × V → Type κ) (k : Bytes) (c : List (Bytes × V)) → All P c → All P (unchain k c)
  unfolding unchain
  All-unchain P k [] h = h
  All-unchain P k ((j, v) ∷ c) h = elim (Bool-cases (bytes_eq k j)) [
    | inl e ↦ rw e h.1
    | inr e ↦ rw e (h.0, All-unchain P k c h.1)
  ]

  pub length-unchain :
      (k : Bytes) (c : List (Bytes × V)) (v : V)
      → find k c ≡ some v
      → length (unchain k c) + 1 ≡ length c
  unfolding find unchain
  length-unchain k [] v h = absurd (ground arith)
  length-unchain k ((j, w) ∷ c) v h = ground (arith, length-unchain k c v)

  pub find-change :
      (k q : Bytes) (f : V → V) (c : List (Bytes × V))
      → find q (change k f c) ≡ (if bytes_eq q k then Option.map f (find q c) else find q c)
  unfolding find change
  find-change k q f [] = ground arith
  find-change k q f ((j, w) ∷ c) =
      ground (arith, bytes_eq_iff k j, bytes_eq_iff q j, bytes_eq_iff q k, find-change k q f c)

  pub count-change :
      (k q : Bytes) (f : V → V) (c : List (Bytes × V)) → count q (change k f c) ≡ count q c
  unfolding count change
  count-change k q f [] = refl
  count-change k q f ((j, w) ∷ c) = ground (arith, count-change k q f c)

  pub length-change :
      (k : Bytes) (f : V → V) (c : List (Bytes × V)) → length (change k f c) ≡ length c
  unfolding change
  length-change k f [] = refl
  length-change k f ((j, w) ∷ c) = ground (arith, length-change k f c)

  pub All-change {κ} :
      (P : Bytes → Type κ) (k : Bytes) (f : V → V) (c : List (Bytes × V))
      → All (λ e. P e.0) c
      → All (λ e. P e.0) (change k f c)
  unfolding change
  All-change P k f [] h = h
  All-change P k f ((j, w) ∷ c) h = elim (Bool-cases (bytes_eq k j)) [
    | inl e ↦ rw e h
    | inr e ↦ rw e (h.0, All-change P k f c h.1)
  ]

  pub or_else-none : (o : Option V) → or_else o none ≡ o
  or_else-none none = refl
  or_else-none (some a) = refl
