-- ===== src/Visitor/Emitters.antt =====
-- The emitters of querying.cpp: `Emitter`, `PrimitiveEmitter`, `EnumEmitter`, `MessageEmitter`.
-- A method that may throw answers the emitter as the throw leaves it, and the exception.
pub mod Hex
use postgres_protobuf.Common.{
  ℕ, ◌+◌, ◌-◌, ◌%◌, ◌^◌, Bool, false, Option, none, some, List, [], ◌∷◌, ◌++◌, ltb, leb, ◌==◌,
  if◌then◌else◌, length, Bytes, text, to_string, signed_to_string, upper_hex, pad2,
}
use postgres_protobuf.Outcome.{Error, bad_proto, bad_query, limit_reached}
use postgres_protobuf.Library.{FieldType, Protobuf}
use postgres_protobuf.Field.{FieldInfo, as_uint32, as_uint64}

pub record Emitter : Type 0 where
  pub ty : FieldType
  pub limit : Option ℕ
  pub rows : List Bytes

-- The constructor takes a limit, and its initializer list does not store it: `limit_` is left at
-- `std::nullopt`.
unfoldable pub new_emitter : FieldType → Option ℕ → Emitter
new_emitter ty limit = record { ty = ty; limit = none; rows = [] }

-- `if (limit_ && rows.size() >= *limit_)`
abbrev pub reached : Option ℕ → ℕ → Bool
reached none size = false
reached (some limit) size = leb limit size

unfoldable pub emit_str : Bytes → Emitter → Emitter × Option Error
emit_str str e =
    let e' = record e { rows = e.rows ++ (str ∷ []) } in
    (e', if reached e.limit (length e'.rows) then some limit_reached else none)

-- What `PrimitiveEmitter::ReadPrimitive` prints, or the type that it refuses.
unfoldable pub primitive_text : Protobuf → FieldType → ℕ → Option Bytes
primitive_text pb FieldType.type_double v = some (pb.double_to_string (as_uint64 v))
primitive_text pb FieldType.type_float v = some (pb.float_to_string (as_uint32 v))
primitive_text pb FieldType.type_int64 v = some (signed_to_string 64 (as_uint64 v))
primitive_text pb FieldType.type_sfixed64 v = some (signed_to_string 64 (as_uint64 v))
primitive_text pb FieldType.type_uint64 v = some (to_string (as_uint64 v))
primitive_text pb FieldType.type_fixed64 v = some (to_string (as_uint64 v))
primitive_text pb FieldType.type_int32 v = some (signed_to_string 32 (as_uint32 v))
primitive_text pb FieldType.type_sfixed32 v = some (signed_to_string 32 (as_uint32 v))
primitive_text pb FieldType.type_fixed32 v = some (to_string (as_uint32 v))
primitive_text pb FieldType.type_uint32 v = some (to_string (as_uint32 v))
primitive_text pb FieldType.type_bool v =
    some (if as_uint64 v == 0 then text "false" else text "true")
primitive_text pb FieldType.type_sint32 v =
    some (signed_to_string 32 (pb.zig_zag_decode32 (as_uint32 v)))
primitive_text pb FieldType.type_sint64 v =
    some (signed_to_string 64 (pb.zig_zag_decode64 (as_uint64 v)))
primitive_text pb _ v = none

abbrev pub emit_or_throw : Option Bytes → Error → Emitter → Emitter × Option Error
emit_or_throw none err e = (e, some err)
emit_or_throw (some str) err e = emit_str str e

unfoldable pub primitive_read_primitive : Protobuf → FieldInfo → Emitter → Emitter × Option Error
unfolding emit_str primitive_text
primitive_read_primitive pb field e =
    emit_or_throw (primitive_text pb e.ty field.value)
      (bad_proto (text "unrecognized primitive field type: " ++ to_string (pb.type_number e.ty))) e

-- `static_cast<unsigned int>(c)` of a `char`, which is signed on the supported platform.
abbrev pub widen_char : ℕ → ℕ
widen_char c = if ltb c 128 then c else c + (2 ^ 32 - 2 ^ 8)

unfoldable pub hex_bytes : Bytes → Bytes
hex_bytes [] = []
hex_bytes (c ∷ s) = pad2 (upper_hex (widen_char c)) ++ hex_bytes s

unfoldable pub primitive_read_bytes : Bytes → Emitter → Emitter × Option Error
unfolding emit_str hex_bytes
primitive_read_bytes s e = emit_str (b'\\' ∷ b'x' ∷ hex_bytes s) e

-- `FindValueByNumber` takes an `int`: the low 32 bits of the value.
unfoldable pub enum_read_primitive : Protobuf → ℕ → FieldInfo → Emitter → Emitter × Option Error
unfolding emit_str
enum_read_primitive pb ed field e =
    let n = as_uint64 field.value in
    elim (pb.find_value_by_number ed (n % 2 ^ 32)) [
      | some name ↦ emit_str name e
      | none ↦ emit_str (to_string n) e
    ]

unfoldable pub message_buffered_value :
    Protobuf → ℕ → Bytes → Bytes → Emitter → Emitter × Option Error
unfolding emit_str
message_buffered_value pb type_resolver [] s e =
    (e, some (bad_query (text "result type not known")))
message_buffered_value pb type_resolver (u ∷ url) s e =
    emit_or_throw (pb.binary_to_json_string type_resolver (u ∷ url) s)
      (bad_proto (text "failed to convert submessage to JSON")) e
