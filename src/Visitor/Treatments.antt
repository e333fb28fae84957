-- ===== src/Visitor/Treatments.antt =====
-- `LengthDelimitedFieldTreatment` of querying.cpp and the two functions of `ProtobufVisitor` that
-- choose one by the type of a field.
use postgres_protobuf.Common.{Bool, if◌then◌else◌, ◌==◌}
use postgres_protobuf.Library.{FieldType, Protobuf}

pub data Treatment : Type 0 where
  skip buffer as_string as_bytes as_submessage as_packed_varint as_packed32 as_packed64 : Treatment

unfoldable pub composite_field_treatment_for_type : FieldType → Treatment
composite_field_treatment_for_type FieldType.type_message = as_submessage
composite_field_treatment_for_type FieldType.type_string = as_string
composite_field_treatment_for_type FieldType.type_bytes = as_bytes
composite_field_treatment_for_type _ = skip

unfoldable pub packed_composite_field_treatment_for_type : Protobuf → FieldType → Treatment
packed_composite_field_treatment_for_type pb ty =
    let wire_type = pb.wire_type_for_field_type ty in
    if wire_type == 0
    then as_packed_varint
    else if wire_type == 1
    then as_packed64
    else if wire_type == 5
    then as_packed32
    else skip

unfoldable pub is_message : FieldType → Bool
is_message FieldType.type_message = Bool.true
is_message _ = Bool.false
