-- ===== src/Field.antt =====
-- `FieldInfo` of querying.cpp: what the traverser reads of a field before it hands it over.
use postgres_protobuf.Common.{ℕ, ◌+◌, ◌*◌, ◌/◌, ◌%◌, ◌^◌, Bool, false, if◌then◌else◌, ◌==◌}

-- The union `value` is its eight bytes, as a little-endian number below 2 ^ 64.
pub record FieldInfo : Type 0 where
  pub number : ℕ
  pub wire_type : ℕ
  pub value : ℕ

-- Reading a member of the union.
abbrev pub as_uint32 : ℕ → ℕ
as_uint32 v = v % 2 ^ 32

abbrev pub as_uint64 : ℕ → ℕ
as_uint64 v = v % 2 ^ 64

-- `as_size` is an `int`: its bit pattern. The stream only ever stores sizes below 2 ^ 31.
abbrev pub as_size : ℕ → ℕ
as_size v = v % 2 ^ 32

-- Writing the four-byte members leaves the upper half of the union as it was.
abbrev pub set_uint32 : ℕ → ℕ → ℕ
set_uint32 v x = v / 2 ^ 32 * 2 ^ 32 + x % 2 ^ 32

abbrev pub set_uint64 : ℕ → ℕ → ℕ
set_uint64 v x = x % 2 ^ 64

abbrev pub set_size : ℕ → ℕ → ℕ
set_size v x = set_uint32 v x

unfoldable pub value_equals : FieldInfo → FieldInfo → Bool
value_equals this that =
    if this.wire_type == that.wire_type
    then (if this.wire_type == 0
        then as_uint64 this.value == as_uint64 that.value
        else if this.wire_type == 1
        then as_uint64 this.value == as_uint64 that.value
        else if this.wire_type == 2
        then as_size this.value == as_size that.value
        else if this.wire_type == 5
        then as_uint32 this.value == as_uint32 that.value
        else false)
    else false

-- What objects with automatic storage hold where the code leaves them uninitialized: the union of
-- `field` in `ScanMessage`, `ReadPacked` and `Run`, the union of `wanted_key_field` in
-- `CompileQueryPart`, and the two buffered fields of a new `MapFilter`. Each is one constant for all
-- objects of its kind.
pub record Uninitialized : Type 0 where
  pub scanned_value : ℕ
  pub wanted_key_value : ℕ
  pub buffered_key_field : FieldInfo
  pub buffered_value_field : FieldInfo
