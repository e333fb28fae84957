-- ===== src/Errors/Visitors.antt =====
-- The methods of visitors that may throw.
use postgres_protobuf.Common.{
  ℕ, ◌%◌, ◌^◌, inl, inr, Option, none, some, [], ◌∷◌, ◌++◌, Bool-cases, Option-cases, length, Bytes,
  to_string,
}
use postgres_protobuf.Outcome.{Error}
use postgres_protobuf.Library.{Protobuf}
use postgres_protobuf.Field.{FieldInfo, as_uint64}
use postgres_protobuf.Visitor.{
  Visitor, primitive_emitter, enum_emitter, message_emitter, visit_read_primitive,
  visit_read_string, visit_read_bytes, visit_buffered_value,
}
use postgres_protobuf.Visitor.Emitters.{
  Emitter, emit_str, reached, primitive_text, emit_or_throw, primitive_read_primitive,
  primitive_read_bytes, enum_read_primitive, message_buffered_value,
}
use postgres_protobuf.Errors.{IsScanError, Fine}

emit_str-Fine : (s : Bytes) (e : Emitter) → Fine (emit_str s e).1
unfolding emit_str
emit_str-Fine s e = elim (Bool-cases (reached e.limit (length (e.rows ++ s ∷ [])))) [
  | inl h ↦ rw h tt
  | inr h ↦ rw h tt
]

emit_or_throw-Fine :
    (o : Option Bytes) (err : Error) (e : Emitter)
    → IsScanError err
    → Fine (emit_or_throw o err e).1
emit_or_throw-Fine none err e h = h
emit_or_throw-Fine (some s) err e h = emit_str-Fine s e

enum-Fine :
    (pb : Protobuf) (d : ℕ) (f : FieldInfo) (e : Emitter) → Fine (enum_read_primitive pb d f e).1
unfolding enum_read_primitive
enum-Fine pb d f e = elim (Option-cases (pb.find_value_by_number d (as_uint64 f.value % 2 ^ 32))) [
  | inl h ↦ rw (h, enum_read_primitive) (emit_str-Fine (to_string (as_uint64 f.value)) e)
  | inr (name, h) ↦ rw (h, enum_read_primitive) (emit_str-Fine name e)
]

message-Fine :
    (pb : Protobuf) (r : ℕ) (url s : Bytes) (e : Emitter)
    → Fine (message_buffered_value pb r url s e).1
unfolding message_buffered_value
message-Fine pb r [] s e = tt
message-Fine pb r (c ∷ url) s e = emit_or_throw-Fine (pb.binary_to_json_string r (c ∷ url) s) _ e tt

pub visit_read_primitive-Fine :
    (pb : Protobuf) (f : FieldInfo) (v : Visitor) → Fine (visit_read_primitive pb f v).1
unfolding visit_read_primitive primitive_read_primitive
visit_read_primitive-Fine pb f (primitive_emitter e) =
    emit_or_throw-Fine (primitive_text pb e.ty f.value) _ e tt
visit_read_primitive-Fine pb f (enum_emitter d e) = enum-Fine pb d f e
visit_read_primitive-Fine pb f _ = tt

pub visit_read_string-Fine : (s : Bytes) (v : Visitor) → Fine (visit_read_string s v).1
unfolding visit_read_string
visit_read_string-Fine s (primitive_emitter e) = emit_str-Fine s e
visit_read_string-Fine s _ = tt

pub visit_read_bytes-Fine : (s : Bytes) (v : Visitor) → Fine (visit_read_bytes s v).1
unfolding visit_read_bytes primitive_read_bytes
visit_read_bytes-Fine s (primitive_emitter e) = emit_str-Fine _ e
visit_read_bytes-Fine s _ = tt

pub visit_buffered_value-Fine :
    (pb : Protobuf) (s : Bytes) (v : Visitor) → Fine (visit_buffered_value pb s v).1
unfolding visit_buffered_value
visit_buffered_value-Fine pb s (message_emitter r url e) = message-Fine pb r url s e
visit_buffered_value-Fine pb s _ = tt
