-- ===== src/Visitor/Filters.antt =====
-- `MapFilter` of querying.cpp. `EndField` is in two parts, since it runs a traverser of its own
-- between them: `filter_end_field` is what happens before, and `filter_reset` after.
pub mod Entry
use postgres_protobuf.Common.{
  ℕ, zero, suc, ◌+◌, ◌-◌, ◌*◌, ◌/◌, ◌%◌, ◌^◌, ◌≤◌, ◌<◌, ◌≡◌, refl, sym, ap, ◌∙◌, ◌≢◌, ◌⊎◌, inl, inr,
  Bool, true, false, not, ◌&&◌, ◌||◌, Option, none, some, List, [], ◌∷◌, ◌++◌, map, arith, ltb, leb,
  ◌==◌, if◌then◌else◌, Bool-cases, Option-cases, length, get_elem?, set, take, drop, All,
  length-append, length-set, get_elem?-lt, Bytes, text, bytes_eq, bytes_eq_refl, bytes_eq→eq, find,
  to_string, signed_to_string, upper_hex, pad2,
}
use postgres_protobuf.Library.{FieldType}
use postgres_protobuf.Field.{FieldInfo, value_equals}
use postgres_protobuf.Visitor.Treatments.{Treatment, skip, buffer, as_submessage}

pub data FilterScope : Type 0 where
  outermost in_entry in_key in_value : FilterScope

pub record MapFilter : Type 0 where
  pub wanted_key_field : FieldInfo
  pub wanted_key_contents : Bytes
  pub value_type : FieldType
  pub scope : FilterScope
  pub buffered_key_field : FieldInfo
  pub buffered_key_contents : Bytes
  pub buffered_value_field : FieldInfo
  pub buffered_value_contents : Bytes

-- The constructor leaves the buffered fields uninitialized: `junk_key` and `junk_value`.
unfoldable pub new_map_filter : FieldInfo → FieldInfo → FieldInfo → Bytes → FieldType → MapFilter
new_map_filter junk_key junk_value wanted_key_field wanted_key_contents value_type = record {
  wanted_key_field = wanted_key_field;
  wanted_key_contents = wanted_key_contents;
  value_type = value_type;
  scope = outermost;
  buffered_key_field = junk_key;
  buffered_key_contents = [];
  buffered_value_field = junk_value;
  buffered_value_contents = [];
}

abbrev filter_enter : ℕ → ℕ → FilterScope → FilterScope
filter_enter number wire_type outermost = if wire_type == 2 then in_entry else outermost
filter_enter number wire_type in_entry =
    if number == 1 then in_key else if number == 2 then in_value else in_entry
filter_enter number wire_type in_key = in_key
filter_enter number wire_type in_value = in_value

unfoldable pub filter_begin_field : ℕ → ℕ → MapFilter → MapFilter
filter_begin_field number wire_type f = record f { scope = filter_enter number wire_type f.scope }

unfoldable pub filter_begin_message : MapFilter → MapFilter
filter_begin_message f = elim f.scope [ outermost ↦ record f { scope = in_entry } | _ ↦ f ]

unfoldable pub filter_read_primitive : FieldInfo → MapFilter → MapFilter
filter_read_primitive field f = elim f.scope [
  | in_key ↦ record f { buffered_key_field = field }
  | in_value ↦ record f { buffered_value_field = field }
  | _ ↦ f
]

unfoldable pub filter_read_length_delimited_field : FieldInfo → MapFilter → MapFilter × Treatment
filter_read_length_delimited_field field f = elim f.scope [
  | in_entry ↦ (f, as_submessage)
  | in_key ↦ (record f { buffered_key_field = field }, buffer)
  | in_value ↦ (record f { buffered_value_field = field }, buffer)
  | outermost ↦ (f, skip)
]

unfoldable pub filter_buffered_value : Bytes → MapFilter → MapFilter
filter_buffered_value value f = elim f.scope [
  | in_key ↦ record f { buffered_key_contents = value }
  | in_value ↦ record f { buffered_value_contents = value }
  | _ ↦ f
]

abbrev filter_leave : FilterScope → FilterScope
filter_leave in_key = in_entry
filter_leave in_value = in_entry
filter_leave in_entry = outermost
filter_leave outermost = outermost

abbrev is_in_entry : FilterScope → Bool
is_in_entry in_entry = true
is_in_entry _ = false

-- The scope change of `EndField`, and whether an entry has ended.
unfoldable pub filter_end_field : MapFilter → MapFilter × Bool
filter_end_field f = (record f { scope = filter_leave f.scope }, is_in_entry f.scope)

-- `buffered_key_field_.ValueEquals(wanted_key_field_) && ...`
unfoldable pub filter_matches : MapFilter → Bool
unfolding value_equals bytes_eq
filter_matches f =
    value_equals f.buffered_key_field f.wanted_key_field
    && bytes_eq f.buffered_key_contents f.wanted_key_contents

abbrev pub zeroed : FieldInfo
zeroed = record { number = 0; wire_type = 0; value = 0 }

unfoldable pub filter_reset : MapFilter → MapFilter
filter_reset f = record f {
  scope = outermost;
  buffered_key_field = zeroed;
  buffered_value_field = zeroed;
  buffered_key_contents = [];
  buffered_value_contents = [];
}
