-- ===== src/Samples/Failures.antt =====
-- The theorems on exceptions and reports at concrete inputs.
use postgres_protobuf.Common.{
  ap, sym, inl, inr, Bool, true, Option, find_from, bytes_eq, find, if◌then◌else◌, ◌≡◌, refl, false,
  none, some, [], ◌∷◌, codes, text,
}
use postgres_protobuf.Outcome.{bad_proto, bad_query}
use postgres_protobuf.Result.{err}
use postgres_protobuf.Library.{FieldType, FieldDescriptor, Protobuf, type_message, type_int32}
use postgres_protobuf.Visitor.Treatments.{is_message}
use postgres_protobuf.DescriptorDb.{find_desc_set}
use postgres_protobuf.Query.Part.{is_enum}
use postgres_protobuf.Query.Prefix.{split_desc_set}
use postgres_protobuf.Postgres.{SqlState, Report, Spi, rows}
use postgres_protobuf.Visitor.{
  visit_read_length_delimited_field, visit_begin_message, visit_begin_field, visit_read_primitive,
  visit_end_field,
}
use postgres_protobuf.Query.Compile.{run, compile_query}
use postgres_protobuf.Sql.{Call}
use postgres_protobuf.Errors.{IsRunError}
use postgres_protobuf.Errors.Runs.{run-IsRunError}
use postgres_protobuf.Errors.Assertions.{IsTold, MapSchema}
use postgres_protobuf.Errors.Assertions.Compile.{compile_query-IsTold}
use postgres_protobuf.Samples.WireStream.{wire_stream, wire_descend, wire_read_tag}
use postgres_protobuf.Samples.Library.{
  sample_protobuf, sample_uninitialized, sample_db, sample_message,
}
use postgres_protobuf.Samples.Table.{sample_call}
use postgres_protobuf.Samples.Examples.{visitors_a}

-- A varint whose last byte is missing.
cut_off :
    run wire_stream sample_protobuf sample_uninitialized visitors_a (8 ∷ 150 ∷ [])
    ≡ some (err (bad_proto (text "failed to read varint field")))
unfolding run visit_read_length_delimited_field wire_descend wire_read_tag visit_begin_message
    visit_begin_field visit_read_primitive visit_end_field
cut_off = refl

run-IsRunError_example : IsRunError (bad_proto (text "failed to read varint field"))
run-IsRunError_example =
    run-IsRunError wire_stream sample_protobuf sample_uninitialized visitors_a (8 ∷ 150 ∷ [])
      (bad_proto (text "failed to read varint field")) cut_off

-- No connection to read the table over.
abbrev unconnected : Spi
unconnected = record { connects = false; selected = rows []; finishes = false }

abbrev unconnected_call : Call
unconnected_call = record sample_call { spi = unconnected }

abbrev unconnected_report : Report
unconnected_report = record { code = SqlState.internal_error; message = text "SPI_connect failed" }

abbrev map_field : FieldDescriptor
map_field = record {
  number = 5;
  type = type_message;
  is_repeated = true;
  is_map = true;
  is_packed = false;
  message_type = 2;
  enum_type = 0;
}

abbrev entry_field : FieldDescriptor
entry_field = record map_field { type = type_int32; is_repeated = false; is_map = false }

-- A library whose messages have a map `e`, with keys and values of type `int32`.
abbrev map_protobuf : Protobuf
map_protobuf = record sample_protobuf {
  find_field_by_number = λ desc n. some entry_field;
  find_field_by_name = λ desc name. if bytes_eq name (codes "e") then some map_field else none;
}

named_map :
    (fd : FieldDescriptor) (b : Bool)
    → (if b then some map_field else none) ≡ some fd
    → fd.type ≡ type_message
named_map fd true e = ap type_in (sym e)
  where
    type_in : Option FieldDescriptor → FieldType
    type_in none = type_message
    type_in (some f) = f.type
named_map fd false e = cc

entry_int32 : (k : FieldDescriptor) → some entry_field ≡ some k → entry_field ≡ k
entry_int32 k e = cc

not_map : {A : Type 0} (fd : FieldDescriptor) → some entry_field ≡ some fd → fd.is_map ≡ true → A
not_map fd e m =
    let same : false ≡ fd.is_map = ap (λ (f : FieldDescriptor). f.is_map) (entry_int32 fd e) in cc

map_protobuf-MapSchema : MapSchema map_protobuf
unfolding is_message is_enum
map_protobuf-MapSchema = record {
  entry_message = λ fd f m. elim f [
    | inl (desc, n, e) ↦ not_map fd e m
    | inr (desc, name, e) ↦ named_map fd (bytes_eq name (codes "e")) e
  ];
  key_type = λ fd k f m e. (
    ap (λ (k : FieldDescriptor). is_message k.type) (sym (entry_int32 k e)),
    ap (λ (k : FieldDescriptor). is_enum k.type) (sym (entry_int32 k e)),
  );
  value_type = λ fd v f m e. ap (λ (k : FieldDescriptor). is_enum k.type) (sym (entry_int32 v e));
}

refused_key :
    compile_query map_protobuf sample_uninitialized sample_db (codes "M:e[x]") none
    ≡ err (bad_query (codes "invalid numeric key: x"))
unfolding compile_query sample_message text find bytes_eq find_from find_desc_set split_desc_set
refused_key = refl

compile_query-IsTold_example : IsTold (bad_query (codes "invalid numeric key: x"))
compile_query-IsTold_example =
    compile_query-IsTold map_protobuf sample_uninitialized sample_db (codes "M:e[x]") none
      (bad_query (codes "invalid numeric key: x")) map_protobuf-MapSchema refused_key
