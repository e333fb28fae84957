-- ===== src/Library.antt =====
-- What the program takes from the protobuf library, which is not part of the repository:
-- the coded input stream, descriptors, wire types, zig-zag coding, JSON conversion. Everything
-- here is a parameter of the model; a pointer into the library is a number (its address), and a
-- null pointer is `none`.
use postgres_protobuf.Common.{ℕ, Bool, Option, Bytes}

-- `FieldDescriptor::Type`.
pub data FieldType : Type 0 where
  type_double type_float type_int64 type_uint64 type_int32 type_fixed64 type_fixed32 : FieldType
  type_bool type_string type_group type_message type_bytes type_uint32 type_enum : FieldType
  type_sfixed32 type_sfixed64 type_sint32 type_sint64 : FieldType

-- What the accessors of a `FieldDescriptor` answer.
pub record FieldDescriptor : Type 0 where
  pub number : ℕ
  pub type : FieldType
  pub is_repeated : Bool
  pub is_map : Bool
  pub is_packed : Bool
  pub message_type : ℕ
  pub enum_type : ℕ

-- The functions of the library that are called on whole values. An `int`, an `int32_t` or an
-- `int64_t` is its bit pattern; a `float` or a `double` is the pattern that it is decoded from.
pub record Protobuf : Type 0 where
  pub wire_type_for_field_type : FieldType → ℕ
  pub type_number : FieldType → ℕ
  pub zig_zag_decode32 : ℕ → ℕ
  pub zig_zag_decode64 : ℕ → ℕ
  pub zig_zag_encode32 : ℕ → ℕ
  pub zig_zag_encode64 : ℕ → ℕ
  pub float_to_string : ℕ → Bytes
  pub double_to_string : ℕ → Bytes
  pub find_value_by_number : ℕ → ℕ → Option Bytes
  pub find_message_type_by_name : ℕ → Bytes → Option ℕ
  pub full_name : ℕ → Bytes
  pub find_field_by_number : ℕ → ℕ → Option FieldDescriptor
  pub find_field_by_name : ℕ → Bytes → Option FieldDescriptor
  pub binary_to_json_string : ℕ → Bytes → Bytes → Option Bytes
  pub json_to_binary_string : ℕ → Bytes → Bytes → Option Bytes

-- `io::CodedInputStream`. A read that answers `false` is `none`. A limit is a value that
-- `PushLimit` gives and `PopLimit` takes back; the pushed depth is `none` where the recursion
-- budget is spent.
pub record CodedInputStream : Type 1 where
  pub Stream : Type 0
  pub Limit : Type 0
  pub create : Bytes → Stream
  pub read_tag : Stream → ℕ × Stream
  pub consumed_entire_message : Stream → Bool
  pub read_varint64 : Stream → Option (ℕ × Stream)
  pub read_little_endian64 : Stream → Option (ℕ × Stream)
  pub read_little_endian32 : Stream → Option (ℕ × Stream)
  pub read_varint_size_as_int : Stream → Option (ℕ × Stream)
  pub skip : ℕ → Stream → Stream
  pub read_string : ℕ → Stream → Option (Bytes × Stream)
  pub increment_recursion_depth_and_push_limit : ℕ → Stream → Option (Limit × Stream)
  pub decrement_recursion_depth_and_pop_limit : Limit → Stream → Stream
  pub push_limit : ℕ → Stream → Limit × Stream
  pub pop_limit : Limit → Stream → Stream
  pub bytes_until_limit : Stream → Option ℕ
