-- ===== src/Rows/Spec.antt =====
-- The rows that a path of field selectors and map selectors selects from a message.
use postgres_protobuf.Common.{
  ℕ, ◌+◌, ◌/◌, ◌%◌, ◌^◌, ◌<◌, ◌≡◌, ◌≢◌, Bool, true, false, ◌&&◌, Option, none, some, List, [], ◌∷◌,
  ◌++◌, ◌==◌, if◌then◌else◌, length, Bytes, to_string,
}
use postgres_protobuf.Library.{FieldType, CodedInputStream, Protobuf, type_message, type_enum}
use postgres_protobuf.Field.{as_uint64, set_uint32, set_uint64}
use postgres_protobuf.Visitor.{
  Visitor, descend_into_submessage, field_selector, primitive_emitter, enum_emitter,
  message_emitter, all_map_entries,
}
use postgres_protobuf.Visitor.Treatments.{
  Treatment, as_string, as_bytes, as_submessage, composite_field_treatment_for_type,
}
use postgres_protobuf.Visitor.Selectors.{SelectorState}
use postgres_protobuf.Visitor.Entries.{new_all_map_entries}
use postgres_protobuf.Visitor.Emitters.{primitive_text, hex_bytes}

-- A message as a tree of fields: a number, a wire type other than 2 and what the stream reads; a
-- number and the contents of a length-delimited field; the same with the message that the contents
-- hold. Each is followed by the rest of the message.
pub data Message : Type 0 where
  no_more : Message
  scalar : ℕ → ℕ → ℕ → Message → Message
  bytes : ℕ → Bytes → Message → Message
  submessage : ℕ → Bytes → Message → Message → Message

-- How a value is shown: as a primitive value of a type, as a name of an enum, or as the JSON of a
-- message, by a type resolver and a type URL.
pub data Shown : Type 0 where
  as_primitive : FieldType → Shown
  as_enum : ℕ → Shown
  as_json : ℕ → Bytes → Shown

-- Which fields of a message are picked: those of a number, or the one of them that has an index; or,
-- where the message is an entry of a map, its key or its value.
pub data Picker : Type 0 where
  fields : ℕ → Option ℕ → Picker
  entry : Bool → Picker

-- A path: what is picked of the message, and what is done with that; at the end a value is shown.
pub data QueryPath : Type 0 where
  value : Shown → QueryPath
  pick : Picker → QueryPath → QueryPath

pattern abbrev pub select : ℕ → Option ℕ → QueryPath → QueryPath
select field index path = pick (fields field index) path

-- The type that the field before a path has.
abbrev pub type_of : QueryPath → FieldType
type_of (value (as_primitive ty)) = ty
type_of (value (as_enum descriptor)) = type_enum
type_of (value (as_json type_resolver type_url)) = type_message
type_of (pick picker path) = type_message

-- The visitors of a path: each field selector is ready for a new message.
abbrev pub ready : ℕ → Option ℕ → FieldType → Visitor
ready field index ty = field_selector (record {
  wanted_field = field;
  ty = ty;
  is_packed = false;
  wanted_index = index;
  state = SelectorState.scanning;
  current_field = 0;
  current_index = 0;
})

-- The emitter that shows values, with the rows that it holds.
abbrev pub emitter_of : Shown → List Bytes → Visitor
emitter_of (as_primitive ty) rows =
    primitive_emitter (record { ty = ty; limit = none; rows = rows })
emitter_of (as_enum descriptor) rows =
    enum_emitter descriptor (record { ty = type_enum; limit = none; rows = rows })
emitter_of (as_json type_resolver type_url) rows =
    message_emitter type_resolver type_url (record { ty = type_message; limit = none; rows = rows })

abbrev pub chain : QueryPath → List Bytes → List Visitor
chain (value shown) rows = emitter_of shown rows ∷ []
chain (select field index path) rows =
    descend_into_submessage ∷ ready field index (type_of path) ∷ chain path rows
chain (pick (entry want_keys) path) rows =
    all_map_entries (new_all_map_entries want_keys (type_of path)) ∷ chain path rows

-- The union after the stream has read `x`, over what it held.
unfoldable pub written : ℕ → ℕ → ℕ → ℕ
written wire_type before x = if wire_type == 5 then set_uint32 before x else set_uint64 before x

abbrev pub Rows : Type 0
Rows = Option (List Bytes)

-- Rows after rows; `none` where a field does not fit the path.
infixl 20 ◌and_rows◌
abbrev pub ◌and_rows◌ : Rows → Rows → Rows
none and_rows b = none
some xs and_rows none = none
some xs and_rows (some ys) = some (xs ++ ys)

abbrev pub contents_rows : Treatment → Bytes → Rows
contents_rows as_string s = some (s ∷ [])
contents_rows as_bytes s = some ((b'\\' ∷ b'x' ∷ hex_bytes s) ∷ [])
contents_rows as_submessage s = none
contents_rows _ s = some []

abbrev pub one_row : Option Bytes → Rows
one_row none = none
one_row (some s) = some (s ∷ [])

-- The name of the enum's value, or its number where it has no name.
abbrev pub enum_text : Option Bytes → ℕ → Bytes
enum_text none n = to_string n
enum_text (some name) n = name

-- The JSON of a message; there is none without a type URL.
abbrev pub json_text : Protobuf → ℕ → Bytes → Bytes → Option Bytes
json_text pb type_resolver [] s = none
json_text pb type_resolver (c ∷ url) s = pb.binary_to_json_string type_resolver (c ∷ url) s

-- Whether a field is picked, after `k` fields with the wanted number.
abbrev pub picks : Picker → ℕ → ℕ → Bool
picks (fields field none) k number = number == field
picks (fields field (some index)) k number = number == field && k == index
picks (entry true) k number = number == 1
picks (entry false) k number = number == 2

abbrev pub counted : Picker → ℕ → ℕ → ℕ
counted (fields field index) number k = if number == field then k + 1 else k
counted (entry want_keys) number k = k

module _ (pb : Protobuf) (junk : ℕ) where
  -- What a selected field gives that is not length-delimited.
  unfoldable pub scalar_rows : QueryPath → ℕ → ℕ → Rows
  unfolding written primitive_text to_string
  scalar_rows (value (as_primitive ty)) wire_type x =
      one_row (primitive_text pb ty (written wire_type junk x))
  scalar_rows (value (as_enum descriptor)) wire_type x =
      let n = as_uint64 (written wire_type junk x) in
      some (enum_text (pb.find_value_by_number descriptor (n % 2 ^ 32)) n ∷ [])
  scalar_rows (value (as_json type_resolver type_url)) wire_type x = some []
  scalar_rows (pick picker path) wire_type x = some []

  -- What a selected length-delimited field gives that is not known to hold a message.
  unfoldable pub bytes_rows : QueryPath → Bytes → Rows
  unfolding composite_field_treatment_for_type hex_bytes
  bytes_rows (value (as_primitive ty)) s = contents_rows (composite_field_treatment_for_type ty) s
  bytes_rows (value (as_enum descriptor)) s = some []
  bytes_rows (value (as_json type_resolver type_url)) s =
      one_row (json_text pb type_resolver type_url s)
  bytes_rows (pick picker path) s = none

  -- The rows of a message, where `k` fields with the wanted number have gone by.
  unfoldable pub rows_from : Picker → QueryPath → ℕ → Message → Rows
  unfolding scalar_rows bytes_rows
  rows_from picker path k no_more = some []
  rows_from picker path k (scalar number wire_type x rest) =
      (if picks picker k number then scalar_rows path wire_type x else some [])
      and_rows rows_from picker path (counted picker number k) rest
  rows_from picker path k (bytes number s rest) =
      (if picks picker k number then bytes_rows path s else some [])
      and_rows rows_from picker path (counted picker number k) rest
  rows_from picker path k (submessage number s message rest) =
      let inside : Rows = elim path [
        | value shown ↦ bytes_rows (value shown) s
        | pick picker' path' ↦ rows_from picker' path' 0 message
      ] in
      (if picks picker k number then inside else some [])
      and_rows rows_from picker path (counted picker number k) rest

-- How a stream yields a message.
module _ (lib : CodedInputStream) where
  open lib use {
    Stream, read_tag, consumed_entire_message, read_varint64, read_little_endian64,
    read_little_endian32, read_varint_size_as_int, skip, read_string,
    increment_recursion_depth_and_push_limit, decrement_recursion_depth_and_pop_limit, Limit,
  }

  -- The next tag has the field number and the wire type.
  pub record Tagged (s : Stream) (number wire_type : ℕ) (s' : Stream) : Type 0 where
    pub tag : ℕ
    pub read : read_tag s ≡ (tag, s')
    pub more : tag ≢ 0
    pub number_of : tag / 2 ^ 3 ≡ number
    pub wire_type_of : tag % 2 ^ 3 ≡ wire_type

  pub data Reads (s : Stream) (x : ℕ) (s' : Stream) : ℕ → Type 0 where
    varint : read_varint64 s ≡ some (x, s') → Reads s x s' 0
    fixed64 : read_little_endian64 s ≡ some (x, s') → Reads s x s' 1
    fixed32 : read_little_endian32 s ≡ some (x, s') → Reads s x s' 5

  -- The size and the contents of a length-delimited field come next: from `s'`, they can be read
  -- into a string or skipped, and in both cases what follows is `Rest`.
  pub record Delimited (s : Stream) (contents : Bytes) (s' : Stream) (Rest : Stream → Type 0)
      : Type 0 where
    pub size : read_varint_size_as_int s ≡ some (length contents, s')
    pub small : length contents < 2 ^ 31
    pub skipped : Rest (skip (length contents) s')
    pub after : Stream
    pub string : read_string (length contents) s' ≡ some (contents, after)
    pub rest : Rest after

  -- From the stream the message is read field by field, up to its end, where `Rest` holds.
  unfoldable pub Decodes : Message → (Stream → Type 0) → Stream → Type 0
  Decodes no_more Rest s =
      ((read_tag s).0 ≡ 0) × (consumed_entire_message (read_tag s).1 ≡ true) × Rest (read_tag s).1
  Decodes (scalar number wire_type x rest) Rest s =
      (s₁ : Stream) × Tagged s number wire_type s₁
      × (s₂ : Stream) × Reads s₁ x s₂ wire_type
      × Decodes rest Rest s₂
  Decodes (bytes number contents rest) Rest s =
      (s₁ : Stream) × Tagged s number 2 s₁
      × (s₂ : Stream) × Delimited s₁ contents s₂ (Decodes rest Rest)
  Decodes (submessage number contents message rest) Rest s =
      (s₁ : Stream) × Tagged s number 2 s₁
      × (s₂ : Stream) × Delimited s₁ contents s₂ (Decodes rest Rest)
      × (limit : Limit) × (s₃ : Stream) × (increment_recursion_depth_and_push_limit
            (length contents) s₂
          ≡ some (limit, s₃))
      × Decodes message (λ s₄. Decodes rest Rest (decrement_recursion_depth_and_pop_limit limit s₄))
          s₃
