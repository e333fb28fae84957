-- ===== src/Query/Keys.antt =====
-- `ParseNum` and `ParseNumericMapKey` of querying.cpp.
pub mod Numbers
use postgres_protobuf.Common.{
  ℕ, zero, suc, ◌+◌, ◌-◌, ◌*◌, ◌/◌, ◌%◌, ◌^◌, ◌≤◌, ◌<◌, ◌≡◌, refl, sym, ap, ◌∙◌, ◌≢◌, ◌⊎◌, inl, inr,
  Bool, true, false, not, ◌&&◌, ◌||◌, Option, none, some, List, [], ◌∷◌, ◌++◌, map, arith, ltb, leb,
  ◌==◌, if◌then◌else◌, Bool-cases, Option-cases, length, get_elem?, set, take, drop, All,
  length-append, length-set, get_elem?-lt, Bytes, text, bytes_eq, bytes_eq_refl, bytes_eq→eq, find,
  find_from, substr, to_string, signed_to_string, upper_hex, pad2,
}
use postgres_protobuf.Common.Strto.{Stoi, invalid_argument, out_of_range, parsed, stoll, stoull}
use postgres_protobuf.Outcome.{Error, bad_query}
use postgres_protobuf.Result.{Result, ok, err, ◌>>=◌}
use postgres_protobuf.Library.{FieldType, Protobuf}
use postgres_protobuf.Field.{set_uint32, set_uint64}

-- `static_cast<T>`, for a type of `width` bits: the low bits.
abbrev pub cast_num : ℕ → Bytes → Stoi → Result ℕ
cast_num width s invalid_argument = err (bad_query (text "invalid numeric key: " ++ s))
cast_num width s out_of_range = err (bad_query (text "numeric key out of range key type: " ++ s))
cast_num width s (parsed tmp end) =
    if end == length s
    then ok (tmp % 2 ^ width)
    else err (bad_query (text "invalid numeric key: " ++ s))

-- `ParseNum<T>` for an unsigned and for a signed type of `width` bits.
unfoldable pub parse_unsigned : ℕ → Bytes → Result ℕ
unfolding stoull
parse_unsigned width s = cast_num width s (stoull s)

unfoldable pub parse_signed : ℕ → Bytes → Result ℕ
unfolding stoll
parse_signed width s = cast_num width s (stoll s)

abbrev pub map_ok : (ℕ → ℕ) → Result ℕ → Result ℕ
map_ok f (ok a) = ok (f a)
map_ok f (err e) = err e

abbrev pub parse_bool : Bytes → ℕ → Result ℕ
parse_bool s v =
    if bytes_eq s (text "true")
    then ok (set_uint32 v 1)
    else if bytes_eq s (text "false")
    then ok (set_uint32 v 0)
    else err (bad_query (text "invalid boolean map key: " ++ s))

-- The union `*v` after the call, from what it was before.
unfoldable pub parse_numeric_map_key : Protobuf → Bytes → FieldType → ℕ → Result ℕ
unfolding parse_signed parse_unsigned bytes_eq
parse_numeric_map_key pb s FieldType.type_int64 v = map_ok (set_uint64 v) (parse_signed 64 s)
parse_numeric_map_key pb s FieldType.type_sfixed64 v = map_ok (set_uint64 v) (parse_signed 64 s)
parse_numeric_map_key pb s FieldType.type_uint64 v = map_ok (set_uint64 v) (parse_unsigned 64 s)
parse_numeric_map_key pb s FieldType.type_fixed64 v = map_ok (set_uint64 v) (parse_unsigned 64 s)
parse_numeric_map_key pb s FieldType.type_int32 v = map_ok (set_uint32 v) (parse_signed 32 s)
parse_numeric_map_key pb s FieldType.type_sfixed32 v = map_ok (set_uint32 v) (parse_signed 32 s)
parse_numeric_map_key pb s FieldType.type_enum v = map_ok (set_uint32 v) (parse_signed 32 s)
parse_numeric_map_key pb s FieldType.type_fixed32 v = map_ok (set_uint32 v) (parse_unsigned 32 s)
parse_numeric_map_key pb s FieldType.type_uint32 v = map_ok (set_uint32 v) (parse_unsigned 32 s)
parse_numeric_map_key pb s FieldType.type_bool v = parse_bool s v
parse_numeric_map_key pb s FieldType.type_sint32 v =
    map_ok (λ n. set_uint32 v (pb.zig_zag_encode32 n)) (parse_signed 32 s)
parse_numeric_map_key pb s FieldType.type_sint64 v =
    map_ok (λ n. set_uint64 v (pb.zig_zag_encode64 n)) (parse_signed 64 s)
parse_numeric_map_key pb s ty v =
    err (bad_query (text "unrecognized numeric key type: " ++ to_string (pb.type_number ty)))
