-- ===== src/Samples/Visitors.antt =====
-- The theorems on visitors, map keys and texts at concrete inputs.
use postgres_protobuf.Common.{
  ◌+◌, ◌-◌, ◌%◌, ◌^◌, ◌≡◌, refl, ◌⊎◌, inr, true, false, none, some, List, [], ◌∷◌, arith, to_string,
  signed_to_string,
}
use postgres_protobuf.Result.{ok}
use postgres_protobuf.Library.{type_int32}
use postgres_protobuf.Field.{value_equals}
use postgres_protobuf.Visitor.Emitters.{hex_bytes}
use postgres_protobuf.Visitor.Emitters.Hex.{bytes_text, hex_bytes-bytes_text}
use postgres_protobuf.Visitor.Treatments.{as_packed_varint}
use postgres_protobuf.Visitor.Selectors.{
  FieldSelector, SelectorState, selector_begin_field, selector_read_length_delimited_field,
}
use postgres_protobuf.Visitor.Selectors.Occurrences.{Seen, IsSelected, seen, begin_field-seen}
use postgres_protobuf.Visitor.Selectors.Packed.{
  packed_record, packed_record-current_index, packed-treats_any_field,
}
use postgres_protobuf.Visitor.Filters.{MapFilter, FilterScope, zeroed}
use postgres_protobuf.Visitor.Filters.Entry.{EntryField, primitive, HasRead, entry, entry-HasRead}
use postgres_protobuf.Query.Keys.{parse_signed, parse_unsigned, parse_numeric_map_key}
use postgres_protobuf.Query.Keys.Numbers.{
  sign_extended, varint_key, parse_signed-signed_to_string, parse_unsigned-to_string,
  int32_keys-disagree,
}
use postgres_protobuf.Samples.Library.{sample_protobuf, wire_type_of}

-- The field selector of the query `M:a`.
abbrev pub selector_a : FieldSelector
selector_a = record {
  wanted_field = 1;
  ty = type_int32;
  is_packed = false;
  wanted_index = none;
  state = SelectorState.scanning;
  current_field = 0;
  current_index = 0;
}

-- A selector for the second field with number 10.
abbrev selector_j : FieldSelector
selector_j = record selector_a { wanted_field = 10; wanted_index = some 1 }

-- Fields with the numbers 10 and 1 have gone by.
abbrev ten_and_one : List Seen
ten_and_one = (10, 0) ∷ (1, 0) ∷ []

begin_field-seen_example :
    (IsSelected selector_j ten_and_one 10
      × ((selector_begin_field 1 2 10 0 (seen 1 ten_and_one selector_j)).1 ≡ 2))
    ⊎ (¬ IsSelected selector_j ten_and_one 10
        × ((selector_begin_field 1 2 10 0 (seen 1 ten_and_one selector_j)).1 ≡ 1))
begin_field-seen_example =
    begin_field-seen 1 ten_and_one 10 0 selector_j refl refl (inr (omega arith))

abbrev selector_b : FieldSelector
selector_b = record selector_a { wanted_field = 2; is_packed = true }

packed_record-current_index_example : (packed_record 1 2 0 3 selector_b).current_index ≡ 0 + 3 + 1
packed_record-current_index_example = packed_record-current_index 1 0 3 selector_b

packed-treats_any_field_example :
    selector_read_length_delimited_field sample_protobuf 1 2
      (selector_begin_field 1 2 3 2 selector_b).0
    ≡ (as_packed_varint, 1)
unfolding wire_type_of
packed-treats_any_field_example = packed-treats_any_field sample_protobuf 1 3 selector_b refl refl

abbrev filter_e : MapFilter
filter_e = record {
  wanted_key_field = varint_key 5;
  wanted_key_contents = [];
  value_type = type_int32;
  scope = FilterScope.outermost;
  buffered_key_field = zeroed;
  buffered_key_contents = [];
  buffered_value_field = zeroed;
  buffered_value_contents = [];
}

abbrev key_5 : EntryField
key_5 = primitive (varint_key 5)

abbrev value_9 : EntryField
value_9 = primitive (record { number = 2; wire_type = 0; value = 9 })

entry-HasRead_example :
    HasRead filter_e key_5 value_9 (entry 5 (key_5 ∷ value_9 ∷ []) filter_e)
    × HasRead filter_e key_5 value_9 (entry 5 (value_9 ∷ key_5 ∷ []) filter_e)
entry-HasRead_example =
    entry-HasRead 5 key_5 value_9 filter_e refl refl
      (record { outside = refl; no_key = refl; no_value = refl })

hex_bytes-bytes_text_example : hex_bytes (0x7f ∷ 0x80 ∷ []) ≡ bytes_text (0x7f ∷ 0x80 ∷ [])
hex_bytes-bytes_text_example = hex_bytes-bytes_text (0x7f ∷ 0x80 ∷ []) (omega arith)

parse_signed-signed_to_string_example :
    parse_signed 32 (signed_to_string 64 (2 ^ 32 + 5)) ≡ ok ((2 ^ 32 + 5) % 2 ^ 32)
parse_signed-signed_to_string_example = parse_signed-signed_to_string 32 (2 ^ 32 + 5) (omega arith)

parse_unsigned-to_string_example : parse_unsigned 32 (to_string 7) ≡ ok (7 % 2 ^ 32)
parse_unsigned-to_string_example = parse_unsigned-to_string 32 7 (omega arith)

-- The keys 3 and -1, over a union that held 0.
int32_keys-disagree_example :
    value_equals (varint_key (sign_extended (2 ^ 32 - 1))) (varint_key (2 ^ 32 - 1)) ≡ false
unfolding parse_numeric_map_key signed_to_string value_equals
int32_keys-disagree_example =
    int32_keys-disagree sample_protobuf 0 3 (2 ^ 32 - 1) 3 (2 ^ 32 - 1) (omega arith) (omega arith)
      (omega arith) refl refl refl
