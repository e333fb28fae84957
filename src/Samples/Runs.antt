-- ===== src/Samples/Runs.antt =====
-- Queries run on concrete messages, with the sample schema.
use postgres_protobuf.Common.{
  ◌≡◌, refl, none, some, List, [], ◌∷◌, Option, Bytes, codes, text, find, find_from, bytes_eq,
  to_string, signed_to_string,
}
use postgres_protobuf.DescriptorDb.{find_desc_set}
use postgres_protobuf.Query.Prefix.{split_desc_set}
use postgres_protobuf.Outcome.{bad_proto}
use postgres_protobuf.Result.{Result, ok, err}
use postgres_protobuf.Visitor.{
  Visitor, visit_read_length_delimited_field, visit_begin_message, visit_begin_field,
  visit_read_primitive, visit_read_string, visit_buffered_value, visit_end_field,
}
use postgres_protobuf.Query.Compile.{compile_query, run}
use postgres_protobuf.Samples.WireStream.{
  wire_stream, wire_descend, wire_read_tag, wire_read_size, wire_pop_limit, wire_ascend, skip_bytes,
  read_bytes,
}
use postgres_protobuf.Samples.Library.{
  sample_protobuf, sample_uninitialized, sample_db, sample_message, sample_field_by_name,
  sample_field_by_number, wire_type_of,
}

unfoldable run_rows : Result (List Visitor) → Bytes → Option (Result (List Bytes))
unfolding run
run_rows (err e) proto = some (err e)
run_rows (ok visitors) proto =
    elim (run wire_stream sample_protobuf sample_uninitialized visitors proto) [
      | none ↦ none
      | some (err e) ↦ some (err e)
      | some (ok (rows, vs)) ↦ some (ok rows)
    ]

unfoldable query_rows : Bytes → Bytes → Option (Result (List Bytes))
unfolding compile_query run_rows sample_message sample_field_by_name sample_field_by_number
    wire_type_of text find bytes_eq to_string signed_to_string
query_rows query proto =
    run_rows (compile_query sample_protobuf sample_uninitialized sample_db query none) proto

primitive_field : query_rows (codes "M:a") (8 ∷ 150 ∷ 1 ∷ []) ≡ some (ok (codes "150" ∷ []))
unfolding query_rows find_desc_set split_desc_set find_from visit_read_length_delimited_field
    wire_descend wire_read_tag visit_begin_message visit_begin_field visit_read_primitive
    visit_end_field
primitive_field = refl

second_of_packed :
    query_rows (codes "M:b[1]") (0x12 ∷ 3 ∷ 7 ∷ 8 ∷ 9 ∷ []) ≡ some (ok (codes "8" ∷ []))
unfolding query_rows find_desc_set split_desc_set find_from visit_read_length_delimited_field
    wire_descend wire_read_tag visit_begin_message visit_begin_field visit_read_primitive
    visit_end_field wire_read_size wire_pop_limit
second_of_packed = refl

map_value_at_key :
    query_rows (codes "M:e[5]") (0x2a ∷ 4 ∷ 8 ∷ 4 ∷ 16 ∷ 8 ∷ 0x2a ∷ 4 ∷ 8 ∷ 5 ∷ 16 ∷ 9 ∷ [])
    ≡ some (ok (codes "9" ∷ []))
unfolding query_rows find_desc_set split_desc_set find_from visit_read_length_delimited_field
    wire_descend wire_read_tag visit_begin_message visit_begin_field visit_read_primitive
    visit_end_field wire_read_size wire_ascend
map_value_at_key = refl

map_keys :
    query_rows (codes "M:e|keys") (0x2a ∷ 4 ∷ 8 ∷ 4 ∷ 16 ∷ 8 ∷ 0x2a ∷ 4 ∷ 8 ∷ 5 ∷ 16 ∷ 9 ∷ [])
    ≡ some (ok (codes "4" ∷ codes "5" ∷ []))
unfolding query_rows find_desc_set split_desc_set find_from visit_read_length_delimited_field
    wire_descend wire_read_tag visit_begin_message visit_begin_field visit_read_primitive
    visit_end_field wire_read_size wire_ascend
map_keys = refl

map_values :
    query_rows (codes "M:e[*]") (0x2a ∷ 4 ∷ 8 ∷ 4 ∷ 16 ∷ 8 ∷ 0x2a ∷ 4 ∷ 8 ∷ 5 ∷ 16 ∷ 9 ∷ [])
    ≡ some (ok (codes "8" ∷ codes "9" ∷ []))
unfolding query_rows find_desc_set split_desc_set find_from visit_read_length_delimited_field
    wire_descend wire_read_tag visit_begin_message visit_begin_field visit_read_primitive
    visit_end_field wire_read_size wire_ascend
map_values = refl

second_of_nested :
    query_rows (codes "M:d.f[1]") (0x22 ∷ 6 ∷ 0x32 ∷ 1 ∷ 65 ∷ 0x32 ∷ 1 ∷ 66 ∷ 8 ∷ 1 ∷ [])
    ≡ some (ok (codes "B" ∷ []))
unfolding query_rows find_desc_set split_desc_set find_from visit_read_length_delimited_field
    wire_descend wire_read_tag visit_begin_message visit_begin_field visit_read_primitive
    visit_end_field wire_read_size skip_bytes read_bytes visit_read_string wire_ascend
second_of_nested = refl

-- An index of which the lower 32 bits are 0.
first_of_wrapped :
    query_rows (codes "M:f[4294967296]") (0x32 ∷ 1 ∷ 65 ∷ 0x32 ∷ 1 ∷ 66 ∷ [])
    ≡ some (ok (codes "A" ∷ []))
unfolding query_rows find_desc_set split_desc_set find_from visit_read_length_delimited_field
    wire_descend wire_read_tag visit_begin_message visit_begin_field visit_read_primitive
    visit_end_field wire_read_size skip_bytes read_bytes visit_read_string wire_ascend
first_of_wrapped = refl

-- A path that ends in a dot: the fields of the submessage go to the emitter.
trailing_dot_rows :
    query_rows (codes "M:d.") (0x22 ∷ 6 ∷ 0x32 ∷ 1 ∷ 65 ∷ 0x32 ∷ 1 ∷ 66 ∷ 8 ∷ 1 ∷ [])
    ≡ some (ok (codes "A" ∷ codes "B" ∷ []))
unfolding query_rows find_desc_set split_desc_set find_from visit_read_length_delimited_field
    wire_descend wire_read_tag visit_begin_message visit_begin_field visit_read_primitive
    visit_end_field wire_read_size read_bytes visit_buffered_value wire_ascend
trailing_dot_rows = refl

-- The string field 3 is read as if it were the packed field 2.
string_read_as_packed :
    query_rows (codes "M:b[*]") (0x1a ∷ 2 ∷ 0xc3 ∷ 0xa4 ∷ [])
    ≡ some (err (bad_proto (codes "failed to read varint field")))
unfolding query_rows find_desc_set split_desc_set find_from visit_read_length_delimited_field
    wire_descend wire_read_tag visit_begin_message visit_begin_field visit_read_primitive
    visit_end_field wire_read_size
string_read_as_packed = refl
