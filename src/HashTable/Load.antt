-- ===== src/HashTable/Load.antt =====
-- Inserting a list of links one by one, as the readers of stored indexes do.
use tcbackup.Prelude.{
  ◌+◌, ◌≤◌, ◌≡◌, refl, ◌∙◌, none, List, [], ◌∷◌, Bytes, bytes_eq, bytes_eq_refl, arith, Bool-cases,
  inl, inr,
}
use tcbackup.HashTable.{Table, find, lookup, insert}
use tcbackup.HashTable.Chain.{count, or_else, find_absent}
use tcbackup.HashTable.Invariant.{hits}
use tcbackup.HashTable.Laws.{IsMap, lookup-insert, insert-IsMap, hits-insert, lookup-none}

module _ {ℓ} {V : Type ℓ} where
  unfoldable pub insert_all : List (Bytes × V) → Table V → Table V
  insert_all [] t = t
  insert_all ((k, v) ∷ es) t = insert_all es (insert k v t)

  -- Each key occurs at most once among the links and in the table together.
  abbrev pub Fresh : List (Bytes × V) → Table V → Type 0
  Fresh es t = (q : Bytes) → count q es + hits q t ≤ 1

  Fresh-head :
      (k : Bytes) (v : V) (es : List (Bytes × V)) (t : Table V)
      → Fresh ((k, v) ∷ es) t
      → lookup k t ≡ none
  unfolding count
  Fresh-head k v es t f =
      let once = rw (bytes_eq_refl k) at (f k) in lookup-none k t (omega (arith, once))

  Fresh-tail :
      (k : Bytes) (v : V) (es : List (Bytes × V)) (t : Table V)
      → IsMap t
      → Fresh ((k, v) ∷ es) t
      → Fresh es (insert k v t)
  unfolding count
  Fresh-tail k v es t m f q = omega (arith, f q, hits-insert k q v t m.shape)

  pub insert_all-IsMap :
      (es : List (Bytes × V)) (t : Table V) → IsMap t → Fresh es t → IsMap (insert_all es t)
  unfolding insert_all
  insert_all-IsMap [] t m f = m
  insert_all-IsMap ((k, v) ∷ es) t m f =
      insert_all-IsMap es (insert k v t) (insert-IsMap k v t m (Fresh-head k v es t f))
        (Fresh-tail k v es t m f)

  pub lookup-insert_all :
      (q : Bytes) (es : List (Bytes × V)) (t : Table V)
      → IsMap t
      → Fresh es t
      → lookup q (insert_all es t) ≡ or_else (find q es) (lookup q t)
  unfolding insert_all find count
  lookup-insert_all q [] t m f = refl
  lookup-insert_all q ((k, v) ∷ es) t m f =
      let fresh = Fresh-head k v es t f in
      lookup-insert_all q es (insert k v t) (insert-IsMap k v t m fresh) (Fresh-tail k v es t m f)
      ∙ elim (Bool-cases (bytes_eq q k)) [
        | inl e ↦
            let once = rw e at (f q) in
            rw (lookup-insert k q v t m fresh, e, find_absent q es (omega (arith, once)))
        | inr e ↦ rw (lookup-insert k q v t m fresh, e)
      ]
