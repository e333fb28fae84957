-- ===== src/Visitor/Emitters/Hex.antt =====
-- The hexadecimal output of `bytes` fields.
use postgres_protobuf.Common.{
  ℕ, ◌/◌, ◌%◌, ◌<◌, ◌≡◌, refl, true, [], ◌∷◌, ◌++◌, ltb, if◌then◌else◌, All, Bytes, bytes_eq,
  bytes_eq→eq, upper_hex, pad2, test_from, test_from_sound, upper_hex_glyph, arith,
}
use postgres_protobuf.Visitor.Emitters.{hex_bytes, widen_char}

-- The two hexadecimal digits of a byte, after six `F`s where its top bit is set.
abbrev pub two_digits : ℕ → Bytes
two_digits c = upper_hex_glyph (c / 16) ∷ upper_hex_glyph (c % 16) ∷ []

abbrev pub byte_text : ℕ → Bytes
byte_text c =
    if ltb c 128 then two_digits c else b'F' ∷ b'F' ∷ b'F' ∷ b'F' ∷ b'F' ∷ b'F' ∷ two_digits c

unfoldable pub bytes_text : Bytes → Bytes
bytes_text [] = []
bytes_text (c ∷ s) = byte_text c ++ bytes_text s

byte_table : test_from (λ c. bytes_eq (pad2 (upper_hex (widen_char c))) (byte_text c)) 0 256 ≡ true
unfolding test_from bytes_eq pad2 upper_hex
byte_table = refl

pad2_byte : (c : ℕ) → c < 256 → pad2 (upper_hex (widen_char c)) ≡ byte_text c
pad2_byte c h = bytes_eq→eq _ _ (
    test_from_sound (λ c. bytes_eq (pad2 (upper_hex (widen_char c))) (byte_text c)) 0 256 c
      byte_table (omega arith) (omega arith))

-- A `bytes` value is printed byte by byte: two digits for a byte below 128, and eight digits, the
-- first six of them `F`, for any other byte, since `char` is signed.
pub hex_bytes-bytes_text : (s : Bytes) → All (λ c. c < 256) s → hex_bytes s ≡ bytes_text s
unfolding hex_bytes bytes_text
hex_bytes-bytes_text [] h = refl
hex_bytes-bytes_text (c ∷ s) (h, hs) = rw (pad2_byte c h, hex_bytes-bytes_text s hs)
