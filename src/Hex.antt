-- ===== src/Hex.antt =====
-- client/src/read_trace.c, `hash2code` and `code2hash`, and `digestToHash` of
-- client/lib/rabin.c: fingerprints as hexadecimal text and back. An `unsigned char` is its value
-- below 256.
pub mod RoundTrip
pub mod Digest
use tcbackup.Prelude.{
  ℕ, zero, suc, ◌+◌, ◌-◌, ◌*◌, ◌/◌, ◌%◌, List, [], ◌∷◌, ◌++◌, Bytes, if◌then◌else◌, ◌==◌, get_or,
}

-- The switch that writes a value below 16 as a digit.
unfoldable pub hex_digit : ℕ → ℕ
hex_digit b =
    if b == 10
    then b'A'
    else if b == 11
    then b'B'
    else if b == 12
    then b'C'
    else if b == 13
    then b'D'
    else if b == 14
    then b'E'
    else if b == 15
    then b'F'
    else (b + 48) % 256

-- The loop of `hash2code` from byte number `i` on: two digits for each, the byte shifted left in between.
unfoldable pub write_digits : Bytes → ℕ → ℕ → Bytes
unfolding hex_digit
write_digits hash i zero = []
write_digits hash i (suc left) =
    let a = get_or hash i 0 in
    hex_digit (a / 16) ∷ hex_digit (a * 16 % 256 / 16) ∷ write_digits hash (i + 1) left

-- The array has 20 bytes, and the text 40.
unfoldable pub hash2code : Bytes → Bytes
unfolding write_digits
hash2code hash = write_digits hash 0 20

-- The switch that reads a digit, of either case.
unfoldable pub hex_value : ℕ → ℕ
hex_value a =
    if a == b'A'
    then 10
    else if a == b'a'
    then 10
    else if a == b'B'
    then 11
    else if a == b'b'
    then 11
    else if a == b'C'
    then 12
    else if a == b'c'
    then 12
    else if a == b'D'
    then 13
    else if a == b'd'
    then 13
    else if a == b'E'
    then 14
    else if a == b'e'
    then 14
    else if a == b'F'
    then 15
    else if a == b'f'
    then 15
    else (a + 256 - 48) % 256

-- The loop of `code2hash` from byte number `i` on: a byte starts at zero and takes two digits in.
unfoldable pub read_digits : Bytes → ℕ → ℕ → Bytes
unfolding hex_value
read_digits code i zero = []
read_digits code i (suc left) =
    let high = (0 * 16 + hex_value (get_or code (2 * i) 0)) % 256 in
    (high * 16 + hex_value (get_or code (2 * i + 1) 0)) % 256 ∷ read_digits code (i + 1) left

unfoldable pub code2hash : Bytes → Bytes
unfolding read_digits
code2hash code = read_digits code 0 20

-- The loops of `digestToHash`: five rows of four bytes, two digits each.
unfoldable pub digest_columns : Bytes → ℕ → ℕ → ℕ → Bytes
unfolding hex_digit
digest_columns digest i j zero = []
digest_columns digest i j (suc left) =
    let a = get_or digest (i * 4 + j) 0 in
    hex_digit (a / 16) ∷ hex_digit (a * 16 % 256 / 16) ∷ digest_columns digest i (j + 1) left

unfoldable pub digest_rows : Bytes → ℕ → ℕ → Bytes
unfolding digest_columns
digest_rows digest i zero = []
digest_rows digest i (suc left) = digest_columns digest i 0 4 ++ digest_rows digest (i + 1) left

unfoldable pub digest_to_hash : Bytes → Bytes
unfolding digest_rows
digest_to_hash digest = digest_rows digest 0 5 ++ 0 ∷ []
