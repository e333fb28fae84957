-- ===== src/Samples/Library.antt =====
-- A protobuf library over a small schema, with the documented behaviour of the library's functions,
-- as an example of the library that the program is given as a parameter.
--   message 1 "M": int32 a = 1; repeated int32 b = 2 [packed]; string c = 3; M d = 4;
--                  map<int32, int32> e = 5 (entries: message 2); repeated string f = 6;
--                  map<string, Kind> g = 7 (entries: message 3); bytes h = 8; repeated M i = 9;
--                  repeated int64 j = 10 [packed = false]
use postgres_protobuf.Common.{
  ℕ, ◌+◌, ◌-◌, ◌*◌, ◌/◌, ◌%◌, ◌^◌, true, false, Option, none, some, List, [], ◌∷◌, ltb, ◌==◌,
  if◌then◌else◌, Bytes, codes, bytes_eq, to_string,
}
use postgres_protobuf.Library.{FieldType, FieldDescriptor, Protobuf}
use postgres_protobuf.Library.{
  type_double, type_float, type_int64, type_int32, type_fixed64, type_fixed32, type_string,
  type_group, type_message, type_bytes, type_enum, type_sfixed32, type_sfixed64,
}
use postgres_protobuf.Field.{Uninitialized}
use postgres_protobuf.DescriptorDb.{DescDb}

unfoldable pub wire_type_of : FieldType → ℕ
wire_type_of type_double = 1
wire_type_of type_fixed64 = 1
wire_type_of type_sfixed64 = 1
wire_type_of type_float = 5
wire_type_of type_fixed32 = 5
wire_type_of type_sfixed32 = 5
wire_type_of type_string = 2
wire_type_of type_bytes = 2
wire_type_of type_message = 2
wire_type_of type_group = 3
wire_type_of _ = 0

abbrev field_of : ℕ → FieldType → FieldDescriptor
field_of n ty = record {
  number = n;
  type = ty;
  is_repeated = false;
  is_map = false;
  is_packed = false;
  message_type = 1;
  enum_type = 0;
}

abbrev repeated_of : ℕ → FieldType → FieldDescriptor
repeated_of n ty = record (field_of n ty) { is_repeated = true }

unfoldable pub sample_fields : List (Bytes × FieldDescriptor)
sample_fields =
    (codes "a", field_of 1 type_int32)
    ∷ (codes "b", record (repeated_of 2 type_int32) { is_packed = true })
    ∷ (codes "c", field_of 3 type_string)
    ∷ (codes "d", field_of 4 type_message)
    ∷ (codes "e", record (repeated_of 5 type_message) { is_map = true; message_type = 2 })
    ∷ (codes "f", repeated_of 6 type_string)
    ∷ (codes "g", record (repeated_of 7 type_message) { is_map = true; message_type = 3 })
    ∷ (codes "h", field_of 8 type_bytes)
    ∷ (codes "i", repeated_of 9 type_message)
    ∷ (codes "j", repeated_of 10 type_int64)
    ∷ []

unfoldable pub by_number : ℕ → List (Bytes × FieldDescriptor) → Option FieldDescriptor
by_number n [] = none
by_number n ((name, fd) ∷ fds) = if fd.number == n then some fd else by_number n fds

unfoldable pub by_name : Bytes → List (Bytes × FieldDescriptor) → Option FieldDescriptor
unfolding bytes_eq
by_name n [] = none
by_name n ((name, fd) ∷ fds) = if bytes_eq name n then some fd else by_name n fds

unfoldable pub schema : ℕ → List (Bytes × FieldDescriptor)
unfolding sample_fields
schema n =
    if n == 1
    then sample_fields
    else if n == 2
    then (codes "key", field_of 1 type_int32) ∷ (codes "value", field_of 2 type_int32) ∷ []
    else if n == 3
    then (codes "key", field_of 1 type_string) ∷ (codes "value", field_of 2 type_enum) ∷ []
    else []

unfoldable pub sample_message : ℕ → Bytes → Option ℕ
unfolding bytes_eq
sample_message pool name = if bytes_eq name (codes "M") then some 1 else none

unfoldable pub sample_field_by_number : ℕ → ℕ → Option FieldDescriptor
unfolding schema by_number
sample_field_by_number m n = by_number n (schema m)

unfoldable pub sample_field_by_name : ℕ → Bytes → Option FieldDescriptor
unfolding schema by_name
sample_field_by_name m n = by_name n (schema m)

-- Texts of floating-point numbers and JSON are of no interest to the samples.
abbrev pub sample_protobuf : Protobuf
sample_protobuf = record {
  wire_type_for_field_type = wire_type_of;
  type_number = λ ty. 0;
  zig_zag_decode32 = λ n. if n % 2 == 0 then n / 2 else 2 ^ 32 - (n + 1) / 2;
  zig_zag_decode64 = λ n. if n % 2 == 0 then n / 2 else 2 ^ 64 - (n + 1) / 2;
  zig_zag_encode32 = λ n. if ltb n (2 ^ 31) then 2 * n else 2 * (2 ^ 32 - n) - 1;
  zig_zag_encode64 = λ n. if ltb n (2 ^ 63) then 2 * n else 2 * (2 ^ 64 - n) - 1;
  float_to_string = λ n. to_string n;
  double_to_string = λ n. to_string n;
  find_value_by_number = λ d n. none;
  find_message_type_by_name = sample_message;
  full_name = λ m. codes "M";
  find_field_by_number = sample_field_by_number;
  find_field_by_name = sample_field_by_name;
  binary_to_json_string = λ r url s. some s;
  json_to_binary_string = λ r url s. some s;
}

abbrev pub sample_uninitialized : Uninitialized
sample_uninitialized = record {
  scanned_value = 0;
  wanted_key_value = 0;
  buffered_key_field = record { number = 0; wire_type = 0; value = 0 };
  buffered_value_field = record { number = 0; wire_type = 0; value = 0 };
}

abbrev pub sample_db : DescDb
sample_db = record { desc_sets = (codes "default", record { pool = 0; type_resolver = 0 }) ∷ [] }
