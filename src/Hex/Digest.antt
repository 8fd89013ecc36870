-- ===== src/Hex/Digest.antt =====
-- `digestToHash` writes the same text as `hash2code`, with a NUL behind it.
use tcbackup.Hex.{hex_digit, hash2code, digest_columns, digest_rows, digest_to_hash}
use tcbackup.Hex.RoundTrip.{hex_text, hash2code-hex_text}
use tcbackup.Prelude.{
  ℕ, zero, suc, ◌+◌, ◌*◌, ◌/◌, ◌%◌, ◌≤◌, ◌≡◌, refl, ap, sym, ◌∙◌, [], ◌∷◌, ◌++◌, Bytes, length,
  take, drop, get_or, take_cong, drop_cong, arith, take-suc-drop, take-add, drop-drop, take_all,
}

hex_text-append : (a b : Bytes) → hex_text (a ++ b) ≡ hex_text a ++ hex_text b
unfolding hex_text
hex_text-append [] b = refl
hex_text-append (x ∷ a) b =
    ap (λ c. hex_digit (x / 16) ∷ hex_digit (x * 16 % 256 / 16) ∷ c) (hex_text-append a b)

digest_columns_lem :
    (digest : Bytes) (i j left : ℕ)
    → i * 4 + j + left ≤ length digest
    → digest_columns digest i j left ≡ hex_text (take left (drop (i * 4 + j) digest))
unfolding digest_columns hex_text
digest_columns_lem digest i j zero h = refl
digest_columns_lem digest i j (suc left) h =
    let a = get_or digest (i * 4 + j) 0 in
    let next : i * 4 + (j + 1) ≡ suc (i * 4 + j) = omega arith in
    rw (take-suc-drop (i * 4 + j) left digest 0 (omega arith)) (
      ap (λ c. hex_digit (a / 16) ∷ hex_digit (a * 16 % 256 / 16) ∷ c)
        (digest_columns_lem digest i (j + 1) left (omega arith)
          ∙ ap (λ c. hex_text (take left c)) (drop_cong digest next)))

digest_rows_lem :
    (digest : Bytes) (i left : ℕ)
    → (i + left) * 4 ≤ length digest
    → digest_rows digest i left ≡ hex_text (take (left * 4) (drop (i * 4) digest))
unfolding digest_rows hex_text
digest_rows_lem digest i zero h = refl
digest_rows_lem digest i (suc left) h =
    ap (λ c. c ++ digest_rows digest (i + 1) left) (digest_columns_lem digest i 0 4 (omega arith))
    ∙ ap (λ c. hex_text (take 4 (drop (i * 4 + 0) digest)) ++ c)
        (digest_rows_lem digest (i + 1) left (omega arith))
    ∙ sym (
        hex_text-append (take 4 (drop (i * 4 + 0) digest))
          (take (left * 4) (drop ((i + 1) * 4) digest)))
    ∙ ap hex_text joined
  where
    joined :
        take 4 (drop (i * 4 + 0) digest) ++ take (left * 4) (drop ((i + 1) * 4) digest)
        ≡ take (suc left * 4) (drop (i * 4) digest)
    joined =
        ap (λ c. take 4 c ++ take (left * 4) (drop ((i + 1) * 4) digest))
          (drop_cong digest (omega arith))
        ∙ ap (λ c. take 4 (drop (i * 4) digest) ++ take (left * 4) c)
            (drop_cong digest (omega arith) ∙ sym (drop-drop (i * 4) 4 digest))
        ∙ sym (take-add 4 (left * 4) (drop (i * 4) digest))
        ∙ take_cong (drop (i * 4) digest) (omega arith)

-- On a digest of 20 bytes `digestToHash` and `hash2code` agree.
pub digest_to_hash-hash2code :
    (digest : Bytes) → length digest ≡ 20 → digest_to_hash digest ≡ hash2code digest ++ 0 ∷ []
unfolding digest_to_hash
digest_to_hash-hash2code digest h =
    ap (λ c. c ++ 0 ∷ [])
      (digest_rows_lem digest 0 5 (omega (arith, h))
        ∙ ap hex_text (take_all 20 digest (omega (arith, h)))
        ∙ sym (hash2code-hex_text digest h))
