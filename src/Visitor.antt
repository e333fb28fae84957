-- ===== src/Visitor.antt =====
-- The visitors of querying.cpp and the dispatch of `ProtobufVisitor`'s virtual methods. The
-- visitors of a query stand in one list, and a visitor's pointer is its position there. `next_` is
-- the position after it; the position past the end stands for `ProtobufVisitor::noOp`.
pub mod Treatments
pub mod Emitters
pub mod Selectors
pub mod Filters
pub mod Entries
use postgres_protobuf.Common.{
  ℕ, zero, suc, ◌+◌, ◌-◌, ◌*◌, ◌/◌, ◌%◌, ◌^◌, ◌≤◌, ◌<◌, ◌≡◌, refl, sym, ap, ◌∙◌, ◌≢◌, ◌⊎◌, inl, inr,
  Bool, true, false, not, ◌&&◌, ◌||◌, Option, none, some, List, [], ◌∷◌, ◌++◌, map, arith, ltb, leb,
  ◌==◌, if◌then◌else◌, Bool-cases, Option-cases, length, get_elem?, set, take, drop, All,
  length-append, length-set, get_elem?-lt, Bytes, text, bytes_eq, bytes_eq_refl, bytes_eq→eq, find,
  to_string, signed_to_string, upper_hex, pad2,
}
use postgres_protobuf.Outcome.{Error}
use postgres_protobuf.Library.{FieldType, Protobuf}
use postgres_protobuf.Field.{FieldInfo}
use Treatments.{Treatment, skip, buffer, as_submessage, composite_field_treatment_for_type}
use Emitters.{
  Emitter, emit_str, primitive_read_primitive, primitive_read_bytes, enum_read_primitive,
  message_buffered_value,
}
use Selectors.{
  FieldSelector, selector_begin_field, selector_read_length_delimited_field, selector_end_field,
  selector_popped,
}
use Filters.{
  MapFilter, filter_begin_field, filter_begin_message, filter_read_primitive,
  filter_read_length_delimited_field, filter_buffered_value, filter_end_field, filter_reset,
}
use Entries.{
  AllMapEntries, entries_begin_field, entries_read_length_delimited_field, entries_end_field,
}

-- The subclasses of `ProtobufVisitor`. The enum emitter holds its descriptor, and the message
-- emitter its type resolver and its type URL.
pub data Visitor : Type 0 where
  descend_into_submessage : Visitor
  field_selector : FieldSelector → Visitor
  map_filter : MapFilter → Visitor
  all_map_entries : AllMapEntries → Visitor
  primitive_emitter : Emitter → Visitor
  enum_emitter : ℕ → Emitter → Visitor
  message_emitter : ℕ → Bytes → Emitter → Visitor

abbrev with_first {ℓ} : {A B : Type 0} {C : Type ℓ} → (A → B) → A × C → B × C
with_first f (a, c) = (f a, c)

unfoldable pub visit_begin_field : ℕ → ℕ → ℕ → Visitor → Visitor × ℕ
unfolding selector_begin_field filter_begin_field entries_begin_field
visit_begin_field this number wire_type (field_selector s) =
    with_first field_selector (selector_begin_field this (suc this) number wire_type s)
visit_begin_field this number wire_type (map_filter f) =
    (map_filter (filter_begin_field number wire_type f), this)
visit_begin_field this number wire_type (all_map_entries a) =
    with_first all_map_entries (entries_begin_field this (suc this) number a)
visit_begin_field this number wire_type v = (v, this)

unfoldable pub visit_begin_message : ℕ → Visitor → Visitor × ℕ
unfolding filter_begin_message
visit_begin_message this descend_into_submessage = (descend_into_submessage, suc this)
visit_begin_message this (map_filter f) = (map_filter (filter_begin_message f), this)
visit_begin_message this v = (v, this)

unfoldable pub visit_read_length_delimited_field :
    Protobuf → ℕ → FieldInfo → Visitor → Visitor × (Treatment × ℕ)
unfolding selector_read_length_delimited_field filter_read_length_delimited_field
    entries_read_length_delimited_field composite_field_treatment_for_type
visit_read_length_delimited_field pb this field descend_into_submessage =
    (descend_into_submessage, (as_submessage, this))
visit_read_length_delimited_field pb this field (field_selector s) =
    (field_selector s, selector_read_length_delimited_field pb this (suc this) s)
visit_read_length_delimited_field pb this field (map_filter f) =
    let (f', treatment) = filter_read_length_delimited_field field f in
    (map_filter f', (treatment, this))
visit_read_length_delimited_field pb this field (all_map_entries a) =
    (all_map_entries a, entries_read_length_delimited_field this (suc this) a)
visit_read_length_delimited_field pb this field (primitive_emitter e) =
    (primitive_emitter e, (composite_field_treatment_for_type e.ty, this))
visit_read_length_delimited_field pb this field (enum_emitter d e) =
    (enum_emitter d e, (skip, this))
visit_read_length_delimited_field pb this field (message_emitter r url e) =
    (message_emitter r url e, (buffer, this))

unfoldable pub visit_read_primitive : Protobuf → FieldInfo → Visitor → Visitor × Option Error
unfolding filter_read_primitive primitive_read_primitive enum_read_primitive
visit_read_primitive pb field (map_filter f) = (map_filter (filter_read_primitive field f), none)
visit_read_primitive pb field (primitive_emitter e) =
    with_first primitive_emitter (primitive_read_primitive pb field e)
visit_read_primitive pb field (enum_emitter d e) =
    with_first (enum_emitter d) (enum_read_primitive pb d field e)
visit_read_primitive pb field v = (v, none)

unfoldable pub visit_read_string : Bytes → Visitor → Visitor × Option Error
unfolding emit_str
visit_read_string s (primitive_emitter e) = with_first primitive_emitter (emit_str s e)
visit_read_string s v = (v, none)

unfoldable pub visit_read_bytes : Bytes → Visitor → Visitor × Option Error
unfolding primitive_read_bytes
visit_read_bytes s (primitive_emitter e) = with_first primitive_emitter (primitive_read_bytes s e)
visit_read_bytes s v = (v, none)

unfoldable pub visit_buffered_value : Protobuf → Bytes → Visitor → Visitor × Option Error
unfolding filter_buffered_value message_buffered_value
visit_buffered_value pb s (map_filter f) = (map_filter (filter_buffered_value s f), none)
visit_buffered_value pb s (message_emitter r url e) =
    with_first (message_emitter r url) (message_buffered_value pb r url s e)
visit_buffered_value pb s v = (v, none)

-- `EndField`, up to the point where a map filter compares a finished entry: `some` is the filter
-- that has to do so.
unfoldable pub visit_end_field : Visitor → Visitor × Option MapFilter
unfolding selector_end_field filter_end_field entries_end_field
visit_end_field (field_selector s) = (field_selector (selector_end_field s), none)
visit_end_field (map_filter f) =
    let (f', entry_ended) = filter_end_field f in
    (map_filter f', (if entry_ended then some f' else none))
visit_end_field (all_map_entries a) = (all_map_entries (entries_end_field a), none)
visit_end_field v = (v, none)

unfoldable pub visit_popped : Visitor → Visitor
unfolding selector_popped filter_reset
visit_popped (field_selector s) = field_selector (selector_popped s)
visit_popped (map_filter f) = map_filter (filter_reset f)
visit_popped v = v
