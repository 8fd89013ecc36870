-- ===== src/Hex/RoundTrip.antt =====
-- Hexadecimal text is read back as the bytes that it was written from.
use tcbackup.Hex.{hex_digit, write_digits, hash2code, hex_value, read_digits, code2hash}
use tcbackup.Prelude.{
  ℕ, zero, suc, ◌+◌, ◌*◌, ◌/◌, ◌%◌, ◌≤◌, ◌<◌, ◌≡◌, refl, sym, ap, ap₂, ◌∙◌, [], ◌∷◌, Bytes, All,
  length, arith, get_or, take, drop, take-suc-drop, take_all, take_cong, drop_cong,
}

hex_value-hex_digit : (b : ℕ) → b < 16 → hex_value (hex_digit b) ≡ b
unfolding hex_value hex_digit
hex_value-hex_digit b h = ground arith

-- The text for an array of any length, and the bytes that a text of any length stands for.
unfoldable pub hex_text : Bytes → Bytes
unfolding hex_digit
hex_text [] = []
hex_text (a ∷ hash) = hex_digit (a / 16) ∷ hex_digit (a * 16 % 256 / 16) ∷ hex_text hash

unfoldable hex_bytes : Bytes → Bytes
unfolding hex_value
hex_bytes [] = []
hex_bytes (c ∷ []) = []
hex_bytes (c ∷ d ∷ code) = ((0 * 16 + hex_value c) % 256 * 16 + hex_value d) % 256 ∷ hex_bytes code

write_digits_lem :
    (hash : Bytes) (i left : ℕ)
    → i + left ≤ length hash
    → write_digits hash i left ≡ hex_text (take left (drop i hash))
unfolding write_digits hex_text
write_digits_lem hash i zero h = refl
write_digits_lem hash i (suc left) h =
    let a = get_or hash i 0 in
    let next : i + 1 ≡ suc i = omega arith in
    rw (take-suc-drop i left hash 0 (omega arith)) (
      ap (λ c. hex_digit (a / 16) ∷ hex_digit (a * 16 % 256 / 16) ∷ c)
        (write_digits_lem hash (i + 1) left (omega arith)
          ∙ ap (λ c. hex_text (take left c)) (drop_cong hash next)))

-- Of an array of 20 bytes the whole text is written.
pub hash2code-hex_text : (hash : Bytes) → length hash ≡ 20 → hash2code hash ≡ hex_text hash
unfolding hash2code
hash2code-hex_text hash h =
    write_digits_lem hash 0 20 (omega (arith, h))
    ∙ ap hex_text (take_all 20 hash (omega (arith, h)))

read_digits_lem :
    (code : Bytes) (i left : ℕ)
    → 2 * i + 2 * left ≤ length code
    → read_digits code i left ≡ hex_bytes (take (2 * left) (drop (2 * i) code))
unfolding read_digits hex_bytes
read_digits_lem code i zero h = refl
read_digits_lem code i (suc left) h =
    let c = get_or code (2 * i) 0 in
    let d = get_or code (2 * i + 1) 0 in
    let two : take (2 * suc left) (drop (2 * i) code)
        ≡ c ∷ d ∷ take (2 * left) (drop (2 * (i + 1)) code) =
      take_cong (drop (2 * i) code) {n = suc (suc (2 * left))} (omega arith)
      ∙ take-suc-drop (2 * i) (suc (2 * left)) code 0 (omega arith)
      ∙ ap (λ t. c ∷ t)
          (ap (take (suc (2 * left))) (drop_cong code {m = suc (2 * i)} (omega arith))
            ∙ take-suc-drop (2 * i + 1) (2 * left) code 0 (omega arith)
            ∙ ap (λ t. d ∷ t)
                (ap (take (2 * left)) (drop_cong code {m = suc (2 * i + 1)} (omega arith)))) in
    ap (λ t. ((0 * 16 + hex_value c) % 256 * 16 + hex_value d) % 256 ∷ t)
      (read_digits_lem code (i + 1) left (omega arith))
    ∙ sym (ap hex_bytes two)

code2hash-hex_bytes : (code : Bytes) → length code ≡ 40 → code2hash code ≡ hex_bytes code
unfolding code2hash
code2hash-hex_bytes code h =
    read_digits_lem code 0 20 (omega (arith, h))
    ∙ ap hex_bytes (take_all 40 code (omega (arith, h)))

hex_bytes-hex_text : (hash : Bytes) → All (λ a. a < 256) hash → hex_bytes (hex_text hash) ≡ hash
unfolding hex_text hex_bytes
hex_bytes-hex_text [] h = refl
hex_bytes-hex_text (a ∷ hash) h =
    ap₂ ◌∷◌
      (omega (
        arith,
        hex_value-hex_digit (a / 16) (omega (arith, h.0)),
        hex_value-hex_digit (a * 16 % 256 / 16) (omega arith),
        h.0,
      ))
      (hex_bytes-hex_text hash h.1)

length-hex_text : (hash : Bytes) → length (hex_text hash) ≡ 2 * length hash
unfolding hex_text
length-hex_text [] = refl
length-hex_text (a ∷ hash) = omega (arith, length-hex_text hash)

-- Every array of 20 bytes is read back from the text of 40 digits that hash2code writes for it.
pub code2hash-hash2code :
    (hash : Bytes) → length hash ≡ 20 → All (λ a. a < 256) hash → code2hash (hash2code hash) ≡ hash
code2hash-hash2code hash whole h =
    ap code2hash (hash2code-hex_text hash whole)
    ∙ code2hash-hex_bytes (hex_text hash) (omega (arith, length-hex_text hash, whole))
    ∙ hex_bytes-hex_text hash h
