-- ===== src/Samples/Entries.antt =====
-- The keys and the values of a map of the sample schema.
use postgres_protobuf.Common.{
  ◌≡◌, refl, Bool, true, false, none, some, [], ◌∷◌, codes, to_string, signed_to_string, find,
}
use postgres_protobuf.Library.{type_int32}
use postgres_protobuf.Visitor.Treatments.{is_message}
use postgres_protobuf.Query.Part.{is_enum}
use postgres_protobuf.Rows.Spec.{
  Message, no_more, scalar, submessage, QueryPath, fields, entry, as_primitive, value, pick, select,
  rows_from, scalar_rows, written,
}
use postgres_protobuf.Rows.Parts.Maps.{keys, values}
use postgres_protobuf.Rows.Texts.{Names, last_entries, primitive_entry}
use postgres_protobuf.Samples.Library.{
  sample_protobuf, sample_field_by_name, sample_field_by_number,
}

-- Two entries, the second one with its value first.
abbrev entries_message : Message
entries_message =
    submessage 5 (8 ∷ 4 ∷ 16 ∷ 8 ∷ []) (scalar 1 0 4 (scalar 2 0 8 no_more))
      (submessage 5 (16 ∷ 9 ∷ 8 ∷ 5 ∷ []) (scalar 2 0 9 (scalar 1 0 5 no_more)) no_more)

abbrev path_of : Bool → QueryPath
path_of want_keys = pick (entry want_keys) (value (as_primitive type_int32))

keys_named : Names sample_protobuf 3 1 (codes "e|keys") [] (select 5 none (path_of true))
unfolding sample_field_by_name sample_field_by_number find is_message is_enum
keys_named =
    last_entries (keys (codes "e") _ _ refl refl refl refl refl refl refl refl refl refl)
      (primitive_entry true refl refl)

values_named : Names sample_protobuf 3 1 (codes "e[*]") [] (select 5 none (path_of false))
unfolding sample_field_by_name sample_field_by_number find is_message is_enum
values_named =
    last_entries (values (codes "e") _ _ refl refl refl refl refl refl refl refl refl refl)
      (primitive_entry false refl refl)

keys_selected :
    rows_from sample_protobuf 0 (fields 5 none) (path_of true) 0 entries_message
    ≡ some (codes "4" ∷ codes "5" ∷ [])
unfolding rows_from scalar_rows written to_string signed_to_string
keys_selected = refl

values_selected :
    rows_from sample_protobuf 0 (fields 5 none) (path_of false) 0 entries_message
    ≡ some (codes "8" ∷ codes "9" ∷ [])
unfolding rows_from scalar_rows written to_string signed_to_string
values_selected = refl
