-- ===== src/Visitor/Selectors.antt =====
-- `FieldSelector` of querying.cpp. A method answers the new state of the visitor and the pointer
-- that the C++ method returns; `this` and `next` are the visitor's own pointer and its `next_`.
-- `traverser_` is stored by `Pushed` and never read, so it has no field here.
pub mod Occurrences
pub mod Packed
use postgres_protobuf.Common.{ℕ, ◌+◌, Bool, true, ◌&&◌, Option, none, some, ◌==◌, if◌then◌else◌}
use postgres_protobuf.Library.{FieldType, Protobuf}
use postgres_protobuf.Visitor.Treatments.{
  Treatment, skip, composite_field_treatment_for_type, packed_composite_field_treatment_for_type,
  is_message,
}

pub data SelectorState : Type 0 where
  scanning emitting_packed emitting_other_composite : SelectorState

-- `wanted_index` is the bit pattern of an `int`. A message has fewer than 2 ^ 31 bytes, so
-- `current_index` does not reach the end of `int`.
pub record FieldSelector : Type 0 where
  pub wanted_field : ℕ
  pub ty : FieldType
  pub is_packed : Bool
  pub wanted_index : Option ℕ
  pub state : SelectorState
  pub current_field : ℕ
  pub current_index : ℕ

unfoldable pub new_field_selector : ℕ → FieldType → Bool → FieldSelector
new_field_selector wanted_field ty is_packed = record {
  wanted_field = wanted_field;
  ty = ty;
  is_packed = is_packed;
  wanted_index = none;
  state = scanning;
  current_field = 0;
  current_index = 0;
}

abbrev pub index_matches : Option ℕ → ℕ → Bool
index_matches none index = true
index_matches (some wanted) index = index == wanted

unfoldable pub should_emit_current_index : FieldSelector → Bool
should_emit_current_index s =
    s.current_field == s.wanted_field && index_matches s.wanted_index s.current_index

unfoldable pub selector_begin_field : ℕ → ℕ → ℕ → ℕ → FieldSelector → FieldSelector × ℕ
unfolding should_emit_current_index is_message
selector_begin_field this next number wire_type s =
    let s' = record s { current_field = number } in
    if wire_type == 2
    then (if s'.is_packed
        then (record s' { state = emitting_packed }, this)
        else if should_emit_current_index s'
        then (if is_message s'.ty
            then (s', next)
            else (record s' { state = emitting_other_composite }, this))
        else (s', this))
    else if should_emit_current_index s'
    then (s', next)
    else (s', this)

unfoldable pub selector_read_length_delimited_field :
    Protobuf → ℕ → ℕ → FieldSelector → Treatment × ℕ
unfolding should_emit_current_index composite_field_treatment_for_type
    packed_composite_field_treatment_for_type
selector_read_length_delimited_field pb this next s = elim s.state [
  | emitting_packed ↦ (packed_composite_field_treatment_for_type pb s.ty, this)
  | emitting_other_composite ↦
      if should_emit_current_index s
      then (composite_field_treatment_for_type s.ty, next)
      else (skip, this)
  | scanning ↦
      if should_emit_current_index s
      then (composite_field_treatment_for_type s.ty, this)
      else (skip, this)
]

unfoldable pub selector_end_field : FieldSelector → FieldSelector
selector_end_field s =
    if s.current_field == s.wanted_field
    then record s { current_index = s.current_index + 1 }
    else s

unfoldable pub selector_popped : FieldSelector → FieldSelector
selector_popped s = record s { state = scanning; current_field = 0; current_index = 0 }
