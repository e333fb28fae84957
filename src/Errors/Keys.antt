-- ===== src/Errors/Keys.antt =====
-- The keys and the indices of a path.
use postgres_protobuf.Common.{ℕ, ◌==◌, length, Bytes, text, bytes_eq}
use postgres_protobuf.Common.Strto.{Stoi, invalid_argument, out_of_range, parsed, stoll, stoull}
use postgres_protobuf.Outcome.{Error, bad_query}
use postgres_protobuf.Result.{Result}
use postgres_protobuf.Library.{FieldType, Protobuf}
use postgres_protobuf.Field.{Uninitialized, set_uint32, set_uint64}
use postgres_protobuf.Query.Keys.{
  cast_num, parse_signed, parse_unsigned, map_ok, parse_bool, parse_numeric_map_key,
}
use postgres_protobuf.Query.Part.{is_string, index_of, wanted_key}
use postgres_protobuf.Errors.Results.{OnlyErr, on_ok, on_err, bind-OnlyErr, if-OnlyErr}

module _ {P : Error → Type 0} (told : (message : Bytes) → P (bad_query message)) where
  cast_num-OnlyErr : (width : ℕ) (s : Bytes) (r : Stoi) → OnlyErr P (cast_num width s r)
  cast_num-OnlyErr width s invalid_argument = on_err (told _)
  cast_num-OnlyErr width s out_of_range = on_err (told _)
  cast_num-OnlyErr width s (parsed n end) = if-OnlyErr (end == length s) on_ok (on_err (told _))

  map_ok-OnlyErr : (f : ℕ → ℕ) {m : Result ℕ} → OnlyErr P m → OnlyErr P (map_ok f m)
  map_ok-OnlyErr f on_ok = on_ok
  map_ok-OnlyErr f (on_err p) = on_err p

  parse_bool-OnlyErr : (s : Bytes) (v : ℕ) → OnlyErr P (parse_bool s v)
  parse_bool-OnlyErr s v =
      if-OnlyErr (bytes_eq s (text "true")) on_ok
        (if-OnlyErr (bytes_eq s (text "false")) on_ok (on_err (told _)))

  module _ (pb : Protobuf) (s : Bytes) (v : ℕ) where
    signed_key : (f : ℕ → ℕ) (width : ℕ) → OnlyErr P (map_ok f (parse_signed width s))
    unfolding parse_signed
    signed_key f width = map_ok-OnlyErr f (cast_num-OnlyErr width s (stoll s))

    unsigned_key : (f : ℕ → ℕ) (width : ℕ) → OnlyErr P (map_ok f (parse_unsigned width s))
    unfolding parse_unsigned
    unsigned_key f width = map_ok-OnlyErr f (cast_num-OnlyErr width s (stoull s))

    key-OnlyErr : (ty : FieldType) → OnlyErr P (parse_numeric_map_key pb s ty v)
    unfolding parse_numeric_map_key
    key-OnlyErr FieldType.type_int64 = signed_key (set_uint64 v) 64
    key-OnlyErr FieldType.type_sfixed64 = signed_key (set_uint64 v) 64
    key-OnlyErr FieldType.type_uint64 = unsigned_key (set_uint64 v) 64
    key-OnlyErr FieldType.type_fixed64 = unsigned_key (set_uint64 v) 64
    key-OnlyErr FieldType.type_int32 = signed_key (set_uint32 v) 32
    key-OnlyErr FieldType.type_sfixed32 = signed_key (set_uint32 v) 32
    key-OnlyErr FieldType.type_enum = signed_key (set_uint32 v) 32
    key-OnlyErr FieldType.type_fixed32 = unsigned_key (set_uint32 v) 32
    key-OnlyErr FieldType.type_uint32 = unsigned_key (set_uint32 v) 32
    key-OnlyErr FieldType.type_bool = parse_bool-OnlyErr s v
    key-OnlyErr FieldType.type_sint32 = signed_key (λ n. set_uint32 v (pb.zig_zag_encode32 n)) 32
    key-OnlyErr FieldType.type_sint64 = signed_key (λ n. set_uint64 v (pb.zig_zag_encode64 n)) 64
    key-OnlyErr _ = on_err (told _)

  pub index_of-OnlyErr : (s : Bytes) (r : Stoi) → OnlyErr P (index_of s r)
  index_of-OnlyErr s invalid_argument = on_err (told _)
  index_of-OnlyErr s out_of_range = on_err (told _)
  index_of-OnlyErr s (parsed n end) = if-OnlyErr (end == length s) on_ok (on_err (told _))

  pub wanted_key-OnlyErr :
      (pb : Protobuf) (u : Uninitialized) (ty : FieldType) (s : Bytes)
      → OnlyErr P (wanted_key pb u ty s)
  unfolding wanted_key
  wanted_key-OnlyErr pb u ty s =
      if-OnlyErr (is_string ty) on_ok
        (bind-OnlyErr (key-OnlyErr pb s u.wanted_key_value ty) (λ v. on_ok))
