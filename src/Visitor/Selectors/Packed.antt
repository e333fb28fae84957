-- ===== src/Visitor/Selectors/Packed.antt =====
-- Packed repeated fields.
use postgres_protobuf.Common.{ℕ, zero, suc, ◌+◌, ◌≡◌, true, arith}
use postgres_protobuf.Library.{Protobuf}
use postgres_protobuf.Visitor.Treatments.{
  as_packed_varint, packed_composite_field_treatment_for_type,
}
use postgres_protobuf.Visitor.Selectors.{
  FieldSelector, selector_begin_field, selector_read_length_delimited_field, selector_end_field,
}
use postgres_protobuf.Visitor.Selectors.Occurrences.{Kept}

-- A record of `k` packed values as the selector sees it: the record is begun, each value is begun
-- and ended, and the record is ended.
unfoldable pub packed_values : ℕ → ℕ → ℕ → ℕ → FieldSelector → FieldSelector
unfolding selector_begin_field selector_end_field
packed_values this number wire_type zero s = s
packed_values this number wire_type (suc k) s =
    packed_values this number wire_type k
      (selector_end_field (selector_begin_field this (suc this) number wire_type s).0)

unfoldable pub packed_record : ℕ → ℕ → ℕ → ℕ → FieldSelector → FieldSelector
unfolding packed_values selector_begin_field selector_end_field
packed_record this number wire_type k s =
    selector_end_field
      (packed_values this number wire_type k (selector_begin_field this (suc this) number 2 s).0)

begin_keeps :
    (this number wire_type : ℕ) (s : FieldSelector)
    → Kept s (selector_begin_field this (suc this) number wire_type s).0
      × ((selector_begin_field this (suc this) number wire_type s).0.current_index
          ≡ s.current_index)
      × ((selector_begin_field this (suc this) number wire_type s).0.current_field ≡ number)
unfolding selector_begin_field
begin_keeps this number wire_type s =
    ((ground arith, ground arith, ground arith, ground arith), ground arith, ground arith)

-- What stays true while values of the wanted field go by.
abbrev Counted : ℕ → ℕ → FieldSelector → Type 0
Counted number index s =
    (s.wanted_field ≡ number) × (s.current_field ≡ number) × (s.current_index ≡ index)

round-Counted :
    (this wire_type number index : ℕ) (s : FieldSelector)
    → Counted number index s
    → Counted number
        (index + 1)
        (selector_end_field (selector_begin_field this (suc this) number wire_type s).0)
unfolding selector_begin_field selector_end_field
round-Counted this wire_type number index s c = (ground arith, ground arith, ground arith)

values-Counted :
    (this wire_type number index k : ℕ) (s : FieldSelector)
    → Counted number index s
    → Counted number (index + k) (packed_values this number wire_type k s)
unfolding packed_values
values-Counted this wire_type number index zero s (a, b, c) = (a, b, omega arith)
values-Counted this wire_type number index (suc k) s h =
    let (a, b, c) =
      values-Counted this wire_type number (index + 1) k _
        (round-Counted this wire_type number index s h) in
    (a, b, omega arith)

end_counts :
    (number index : ℕ) (s : FieldSelector)
    → Counted number index s
    → (selector_end_field s).current_index ≡ index + 1
unfolding selector_end_field
end_counts number index s c = ground arith

-- A packed record of `k` values of the wanted field moves the selector's index on by `k + 1`: each
-- value is counted, and the record once more.
pub packed_record-current_index :
    (this wire_type k : ℕ) (s : FieldSelector)
    → (packed_record this s.wanted_field wire_type k s).current_index ≡ s.current_index + k + 1
unfolding packed_record
packed_record-current_index this wire_type k s =
    let (kept, i, f) = begin_keeps this s.wanted_field 2 s in
    let begun : FieldSelector = (selector_begin_field this (suc this) s.wanted_field 2 s).0 in
    end_counts s.wanted_field (s.current_index + k) _
      (values-Counted this wire_type s.wanted_field s.current_index k begun (kept.0, f, i))

-- A selector for a packed field of a varint type has every length-delimited field of the message
-- read as packed varints, whatever its number is: a string or a submessage too.
pub packed-treats_any_field :
    (pb : Protobuf) (this number : ℕ) (s : FieldSelector)
    → s.is_packed ≡ true
    → pb.wire_type_for_field_type s.ty ≡ 0
    → (selector_read_length_delimited_field pb this
        (suc this)
        (selector_begin_field this (suc this) number 2 s).0)
      ≡ (as_packed_varint, this)
unfolding selector_begin_field selector_read_length_delimited_field
    packed_composite_field_treatment_for_type
packed-treats_any_field pb this number s p w = ground arith
