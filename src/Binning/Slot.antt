-- ===== src/Binning/Slot.antt =====
-- The slot of a bin: its level, its bytes, and the parser on them.
use tcbackup.Binning.{
  chunk_address_length, Bin, level_to_max_amount, fit_level, metas, bin_slot, write_at, read_metas,
  parse_bin, leb,
}
use tcbackup.Container.{finger_length}
use tcbackup.HashTable
use tcbackup.HashTable.{Table, lookup, find}
use tcbackup.HashTable.Load.{insert_all, lookup-insert_all}
use tcbackup.HashTable.Laws.{IsMap, init-IsMap, hits-init, lookup-init}
use tcbackup.HashTable.Walk
use mathlib.Core.List.{append_assoc}
use mathlib.Core.Path.{subst, ap₂}
use tcbackup.Prelude.{
  ℕ, zero, suc, ◌+◌, ◌-◌, ◌*◌, ◌^◌, ◌≤◌, ◌<◌, ◌≡◌, refl, ap, sym, ◌∙◌, true, false, List, [], ◌∷◌,
  ◌++◌, Bytes, arith, ltb, ltb-false, length, take, drop, replicate, length-append,
  length-replicate, take_all, take_front, drop_front, length-take, All, le32, un_le32-le32,
  drop-le32, length-le32, Bool-cases, inl, inr, bytes_eq_refl,
}
use tcbackup.HashTable.Chain.{or_else, or_else-none}

pub level_big : (n : ℕ) → n ≤ level_to_max_amount n
unfolding level_to_max_amount
level_big zero = omega arith
level_big (suc n) = omega (arith, level_big n, positive n)
  where
    positive : (n : ℕ) → 1 ≤ level_to_max_amount n
    positive zero = omega arith
    positive (suc n) = omega (arith, positive n)

-- The loop with enough fuel ends at a level that the bin fits.
pub fit_level_enough :
    (fuel nlen level offset : ℕ)
    → nlen ≤ level_to_max_amount (level + fuel)
    → nlen ≤ level_to_max_amount (fit_level fuel nlen level offset).0
unfolding fit_level
fit_level_enough zero nlen level offset h =
    subst (λ l. nlen ≤ level_to_max_amount l) (omega arith) h
fit_level_enough (suc fuel) nlen level offset h =
    elim (Bool-cases (ltb (level_to_max_amount level) nlen)) [
      | inl e ↦ rw e (
          fit_level_enough fuel nlen (suc level) 0
            (subst (λ l. nlen ≤ level_to_max_amount l) (omega arith) h))
      | inr e ↦ rw e (omega (arith, ltb-false _ _ e))
    ]

-- The bytes just written are read at their offset.
pub read_written :
    (offset : ℕ) (bytes file : Bytes)
    → take (length bytes) (drop offset (write_at offset bytes file)) ≡ bytes
unfolding write_at
read_written offset bytes file =
    ap (take (length bytes)) (
      drop_front offset _ _ (
        length-take offset (file ++ replicate (offset - length file) 0) (
          omega (
            arith,
            length-append file (replicate (offset - length file) 0),
            length-replicate {A = ℕ} (offset - length file) 0,
          ))))
    ∙ take_front (length bytes) bytes _ refl

abbrev IsMeta : Bytes × Bytes → Type 0
IsMeta e = (length e.0 ≡ finger_length) × (length e.1 ≡ chunk_address_length)

metas_fields :
    (k v more rest : Bytes)
    → (take finger_length k ++ (take chunk_address_length v ++ more)) ++ rest
      ≡ take finger_length k ++ (take chunk_address_length v ++ (more ++ rest))
metas_fields k v more rest = simp append_assoc

read_metas_step :
    (n : ℕ) (p : Bytes) (t : Table Bytes)
    → read_metas (suc n) p t
      ≡ read_metas n (drop chunk_address_length (drop finger_length p)) (
          HashTable.insert
            (take finger_length p)
            (take chunk_address_length (drop finger_length p))
            t)
unfolding read_metas
read_metas_step n p t = refl

read_metas-metas :
    (es : List (Bytes × Bytes)) (rest : Bytes) (t : Table Bytes)
    → All IsMeta es
    → read_metas (length es) (metas es ++ rest) t ≡ insert_all es t
unfolding read_metas metas insert_all
read_metas-metas [] rest t h = refl
read_metas-metas ((k, v) ∷ es) rest t h =
    let more = metas es ++ rest in
    ap (λ p. read_metas (suc (length es)) p t) (metas_fields k v (metas es) rest)
    ∙ read_metas_step (length es) (take finger_length k ++ (take chunk_address_length v ++ more)) t
    ∙ rw
        (
          take_all finger_length k (omega (arith, h.0)),
          take_all chunk_address_length v (omega (arith, h.0)),
          take_front finger_length k (v ++ more) h.0.0,
          drop_front finger_length k (v ++ more) h.0.0,
          take_front chunk_address_length v more h.0.1,
          drop_front chunk_address_length v more h.0.1,
        )
        (read_metas-metas es rest (HashTable.insert k v t) h.1)

length-metas : (es : List (Bytes × Bytes)) → All IsMeta es → length (metas es) ≡ length es * 84
unfolding metas
length-metas [] h = refl
length-metas ((k, v) ∷ es) h = omega (
  arith,
  length-append (take finger_length k) (take chunk_address_length v ++ metas es),
  length-append (take chunk_address_length v) (metas es),
  length-take finger_length k (omega (arith, h.0)),
  length-take chunk_address_length v (omega (arith, h.0)),
  length-metas es h.1,
)

-- A bin that can be saved: a map of whole fingerprints to whole addresses, whose length an `int32_t`
-- holds.
pub record IsBin (bin : Bin) : Type 0 where
  pub table : IsMap bin.fingers
  pub rep : length bin.rep_finger ≡ finger_length
  pub entries : All IsMeta (Walk.items bin.fingers)
  pub counted : 24 + HashTable.size bin.fingers * 84 < 2 ^ 31

module _ (bin : Bin) (w : IsBin bin) where
  pub length-bin_slot :
      (size : ℕ) → 24 + HashTable.size bin.fingers * 84 ≤ size → length (bin_slot bin size) ≡ size
  unfolding bin_slot
  length-bin_slot size h =
      let es = metas (Walk.items bin.fingers) in
      let p = take finger_length bin.rep_finger ++ (le32 (HashTable.size bin.fingers) ++ es) in
      omega (
        arith,
        h,
        length-append p (replicate (size - length p) 207),
        length-replicate {A = ℕ} (size - length p) 207,
        length-append (take finger_length bin.rep_finger) (le32 (HashTable.size bin.fingers) ++ es),
        length-append (le32 (HashTable.size bin.fingers)) es,
        length-le32 (HashTable.size bin.fingers),
        length-take finger_length bin.rep_finger (omega (arith, w.rep)),
        length-metas (Walk.items bin.fingers) w.entries,
        Walk.length-items bin.fingers w.table.shape,
      )

  abbrev pub read_table : Table Bytes → Table Bytes
  read_table t = insert_all (Walk.items bin.fingers) t

  -- The parser on the bytes of a slot.
  parse_slot :
      (rest : Bytes) (t : Table Bytes) (address : ℕ)
      → parse_bin
          (bin.rep_finger
            ++ (le32 (HashTable.size bin.fingers) ++ (metas (Walk.items bin.fingers) ++ rest)))
          (record { rep_finger = bin.rep_finger; fingers = t; address = address })
        ≡ (true, record { rep_finger = bin.rep_finger; fingers = read_table t; address = address })
  unfolding parse_bin
  parse_slot rest t address =
      let es = metas (Walk.items bin.fingers) ++ rest in
      rw
        (
          take_front finger_length bin.rep_finger (le32 (HashTable.size bin.fingers) ++ es) w.rep,
          drop_front finger_length bin.rep_finger (le32 (HashTable.size bin.fingers) ++ es) w.rep,
          drop-le32 (HashTable.size bin.fingers) es,
          un_le32-le32 (HashTable.size bin.fingers) es (omega (arith, w.counted)),
          bytes_eq_refl bin.rep_finger,
          leb-below,
        )
        (ap (λ x. (true, record { rep_finger = bin.rep_finger; fingers = x; address = address }))
          (ap (λ n. read_metas n es t) (sym (Walk.length-items bin.fingers w.table.shape))
            ∙ read_metas-metas (Walk.items bin.fingers) rest t w.entries))
    where
      leb-below : leb (2 ^ 31) (HashTable.size bin.fingers) ≡ false
      leb-below = ground (arith, w.counted)

  pub lookup-read_table :
      (n : ℕ) (q : Bytes)
      → lookup q (read_table (HashTable.init Bytes finger_length n)) ≡ lookup q bin.fingers
  lookup-read_table n q =
      lookup-insert_all q (Walk.items bin.fingers) _ (init-IsMap Bytes finger_length n) (λ k.
        omega (
          arith,
          Walk.count-items k bin.fingers w.table.shape,
          w.table.distinct k,
          hits-init Bytes finger_length n k,
        ))
      ∙ ap (λ o. or_else (find q (Walk.items bin.fingers)) o) (lookup-init Bytes finger_length n q)
      ∙ or_else-none (find q (Walk.items bin.fingers))
      ∙ Walk.find-items q bin.fingers w.table.shape

  pub parse_bin-bin_slot :
      (size : ℕ) (t : Table Bytes) (address : ℕ)
      → parse_bin
          (bin_slot bin size)
          (record { rep_finger = bin.rep_finger; fingers = t; address = address })
        ≡ (true, record { rep_finger = bin.rep_finger; fingers = read_table t; address = address })
  unfolding bin_slot
  parse_bin-bin_slot size t address =
      let r = bin.rep_finger in
      let c = le32 (HashTable.size bin.fingers) in
      let es = metas (Walk.items bin.fingers) in
      let fill = replicate {A = ℕ} (size - length (take finger_length r ++ (c ++ es))) 207 in
      ap (λ p. parse_bin p (record { rep_finger = r; fingers = t; address = address }))
        (append_assoc (take finger_length r) (c ++ es) fill
          ∙ ap₂ (λ x y. x ++ y) (take_all finger_length r (omega (arith, w.rep)))
              (append_assoc c es fill))
      ∙ parse_slot fill t address
