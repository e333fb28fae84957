-- ===== src/Query/Keys/Numbers.antt =====
-- Numeric map keys: what a printed number is parsed to, and which keys an entry can match.
use postgres_protobuf.Common.{
  sym, ◌∙◌, ℕ, ◌+◌, ◌-◌, ◌%◌, ◌^◌, ◌≤◌, ◌<◌, ◌≡◌, sym, ◌∙◌, true, false, arith, ltb, if◌then◌else◌,
  to_string, signed_to_string,
}
use postgres_protobuf.Common.Strto.Printed.{stoll-signed_to_string, stoull-to_string}
use postgres_protobuf.Result.{ok, ok_injective}
use postgres_protobuf.Library.{Protobuf, type_int32}
use postgres_protobuf.Field.{FieldInfo, value_equals, set_uint32}
use postgres_protobuf.Query.Keys.{parse_signed, parse_unsigned, parse_numeric_map_key}

-- A signed key of any width accepts the decimal form of every 64-bit number, and keeps its low
-- bits: a number out of the key type's range is not refused but wrapped.
pub parse_signed-signed_to_string :
    (width x : ℕ) → x < 2 ^ 64 → parse_signed width (signed_to_string 64 x) ≡ ok (x % 2 ^ width)
unfolding parse_signed
parse_signed-signed_to_string width x h = rw (stoll-signed_to_string x h) (ground arith)

-- An unsigned key of any width accepts the decimal form of every number below 2 ^ 64, and keeps its
-- low bits.
pub parse_unsigned-to_string :
    (width n : ℕ) → n < 2 ^ 64 → parse_unsigned width (to_string n) ≡ ok (n % 2 ^ width)
unfolding parse_unsigned
parse_unsigned-to_string width n h = rw (stoull-to_string n h) (ground arith)

-- The varint of an `int32`: the bit pattern, with the sign extended to 64 bits.
abbrev pub sign_extended : ℕ → ℕ
sign_extended x = if ltb x (2 ^ 31) then x else x + (2 ^ 64 - 2 ^ 32)

-- A key field of wire type 0.
abbrev pub varint_key : ℕ → FieldInfo
varint_key v = record { number = 1; wire_type = 0; value = v }

int32_key :
    (pb : Protobuf) (before x : ℕ)
    → x < 2 ^ 32
    → parse_numeric_map_key pb (signed_to_string 64 (sign_extended x)) type_int32 before
      ≡ ok (set_uint32 before x)
unfolding parse_numeric_map_key
int32_key pb before x h =
    rw (parse_signed-signed_to_string 32 (sign_extended x) (ground arith)) (ground arith)

same_upper_half :
    (before p q : ℕ)
    → p < 2 ^ 31
    → 2 ^ 31 ≤ q
    → q < 2 ^ 32
    → value_equals (varint_key (sign_extended p)) (varint_key (set_uint32 before p)) ≡ true
    → value_equals (varint_key (sign_extended q)) (varint_key (set_uint32 before q)) ≡ false
unfolding value_equals
same_upper_half before p q hp lq hq e = ground arith

-- Whatever the union of the wanted key held before: if the key of a map filter for an `int32` that
-- is not negative equals that number's entry key, then the key of a filter for a negative `int32`,
-- over the same earlier contents, does not equal its own entry key.
pub int32_keys-disagree :
    (pb : Protobuf) (before p q wanted_p wanted_q : ℕ)
    → p < 2 ^ 31
    → 2 ^ 31 ≤ q
    → q < 2 ^ 32
    → parse_numeric_map_key pb (signed_to_string 64 (sign_extended p)) type_int32 before
      ≡ ok wanted_p
    → parse_numeric_map_key pb (signed_to_string 64 (sign_extended q)) type_int32 before
      ≡ ok wanted_q
    → value_equals (varint_key (sign_extended p)) (varint_key wanted_p) ≡ true
    → value_equals (varint_key (sign_extended q)) (varint_key wanted_q) ≡ false
int32_keys-disagree pb before p q wanted_p wanted_q hp lq hq ep eq m =
    let wp : set_uint32 before p ≡ wanted_p =
      ok_injective (sym (int32_key pb before p (omega arith)) ∙ ep) in
    let wq : set_uint32 before q ≡ wanted_q = ok_injective (sym (int32_key pb before q hq) ∙ eq) in
    rw (← wq) (same_upper_half before p q hp lq hq (rw wp m))
