-- ===== src/Traverser/Balance/Reads.antt =====
-- The reads of the traverser leave its depth and its stack as they were.
use postgres_protobuf.Common.{
  ℕ, refl, inl, inr, Option, ◌++◌, ◌==◌, Option-cases, Bytes, text, to_string,
}
use postgres_protobuf.Outcome.{bad_proto, on_done, on_thrown, if_at-Whenever, throw}
use postgres_protobuf.Library.{CodedInputStream}
use postgres_protobuf.Field.{FieldInfo, set_uint64, set_uint32, set_size}
use postgres_protobuf.Traverser.State.{Traversal}
use postgres_protobuf.Traverser.Steps.{read_value, read_field_value_or_size}
use postgres_protobuf.Traverser.Balance.Steps.{Stays}

module _ (lib : CodedInputStream) where
  open lib use {
    Stream, read_varint64, read_little_endian64, read_little_endian32, read_varint_size_as_int,
  }

  read_value-Stays :
      (read : Stream → Option (ℕ × Stream)) (write : ℕ → ℕ → ℕ) (message : Bytes)
      (field : FieldInfo) (st : Traversal Stream)
      → Stays lib st (read_value lib read write message field st)
  read_value-Stays read write message field st = elim (Option-cases (read st.stream)) [
    | inl e ↦ rw (e, read_value) on_thrown
    | inr ((x, s'), e) ↦
        rw (e, read_value) (on_done (record { depth = refl; stack = refl; visitor = refl }))
  ]

  pub read_field-Stays :
      (field : FieldInfo) (st : Traversal Stream)
      → Stays lib st (read_field_value_or_size lib field st)
  unfolding read_field_value_or_size
  read_field-Stays field st =
      if_at-Whenever (field.wire_type == 0) _ _ st
        (read_value-Stays read_varint64 set_uint64 (text "failed to read varint field") field st)
        (if_at-Whenever (field.wire_type == 1) _ _ st
          (read_value-Stays read_little_endian64 set_uint64 (text "failed to read 64-bit field")
            field st)
          (if_at-Whenever (field.wire_type == 2) _ _ st
            (read_value-Stays read_varint_size_as_int set_size (text "failed to read size varint")
              field st)
            (if_at-Whenever (field.wire_type == 5) _
              (throw (bad_proto (text "unrecognized wire_type " ++ to_string field.wire_type))) st
              (read_value-Stays read_little_endian32 set_uint32 (text "failed to read 32-bit field")
                field st)
              on_thrown)))
