-- ===== src/Common/Decimal.antt =====
-- `std::to_string` and hexadecimal output, as lists of ASCII digits.
use Prim.Native.Nat.{ℕ, zero, suc, ◌+◌, ◌-◌, ◌/◌, ◌%◌, ◌^◌}
use mathlib.Core.List.{[], ◌∷◌}
use postgres_protobuf.Common.Tests.{ltb, if◌then◌else◌}
use postgres_protobuf.Common.Text.{Bytes}

-- The digits of `n` in base `b`, most significant first, at most `fuel` of them; `glyph` gives the
-- character of a digit.
unfoldable pub digits_from : ℕ → ℕ → (ℕ → ℕ) → ℕ → Bytes → Bytes
digits_from zero b glyph n acc = acc
digits_from (suc fuel) b glyph n acc =
    let rest = digits_from fuel b glyph (n / b) (glyph (n % b) ∷ acc) in
    if ltb n b then glyph n ∷ acc else rest

abbrev pub decimal_glyph : ℕ → ℕ
decimal_glyph d = b'0' + d

abbrev pub upper_hex_glyph : ℕ → ℕ
upper_hex_glyph d = if ltb d 10 then b'0' + d else b'A' + (d - 10)

-- A number below 2 ^ 64 has at most 20 digits.
unfoldable pub to_string : ℕ → Bytes
unfolding digits_from
to_string n = digits_from 20 10 decimal_glyph n []

-- The decimal form of the number that a bit pattern of two's complement stands for.
unfoldable pub signed_to_string : ℕ → ℕ → Bytes
unfolding to_string
signed_to_string width x =
    if ltb x (2 ^ (width - 1)) then to_string x else b'-' ∷ to_string (2 ^ width - x)

-- `<< std::hex << std::uppercase` of a number below 2 ^ 32: at most 8 digits.
unfoldable pub upper_hex : ℕ → Bytes
unfolding digits_from
upper_hex n = digits_from 8 16 upper_hex_glyph n []

-- `std::setw(2)` with `std::setfill('0')`.
unfoldable pub pad2 : Bytes → Bytes
pad2 [] = b'0' ∷ b'0' ∷ []
pad2 (c ∷ []) = b'0' ∷ c ∷ []
pad2 (c ∷ d ∷ cs) = c ∷ d ∷ cs
