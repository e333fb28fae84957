-- ===== src/Query/Part.antt =====
-- `CompileQueryPart` of querying.cpp: one field selector of the path, with its array or map
-- selector.
use postgres_protobuf.Common.{
  ℕ, ◌-◌, ◌%◌, ◌^◌, Bool, true, false, not, ◌&&◌, Option, none, some, List, [], ◌∷◌, ◌++◌, ltb,
  ◌==◌, if◌then◌else◌, length, take, drop, Bytes, text, bytes_eq, find, substr,
}
use postgres_protobuf.Common.Strto.{
  Stoi, invalid_argument, out_of_range, parsed, stoll, strtol, is_digit,
}
use postgres_protobuf.Outcome.{Error, bad_query, bad_proto, assertion_failed}
use postgres_protobuf.Result.{Result, ok, err, ◌>>=◌, ◌>>◌, throw_if}
use postgres_protobuf.Library.{FieldType, FieldDescriptor, Protobuf}
use postgres_protobuf.Field.{FieldInfo, Uninitialized, set_size}
use postgres_protobuf.Visitor.{Visitor, field_selector, map_filter, all_map_entries}
use postgres_protobuf.Visitor.Treatments.{is_message}
use postgres_protobuf.Visitor.Selectors.{new_field_selector}
use postgres_protobuf.Visitor.Filters.{new_map_filter}
use postgres_protobuf.Visitor.Entries.{new_all_map_entries}
use postgres_protobuf.Query.Keys.{parse_numeric_map_key}

pub record DescPtrs : Type 0 where
  pub ty : FieldType
  pub desc : Option ℕ
  pub enum_desc : Option ℕ
  pub is_repeated : Bool
  pub is_map : Bool

unfoldable pub is_enum : FieldType → Bool
is_enum FieldType.type_enum = true
is_enum _ = false

unfoldable pub is_string : FieldType → Bool
is_string FieldType.type_string = true
is_string _ = false

-- `std::min(bracket, pipe)`, where `npos` is larger than any position, and the end of the part where
-- neither is there.
abbrev pub earlier : Option ℕ → Option ℕ → ℕ → ℕ
earlier none none size = size
earlier none (some p) size = p
earlier (some b) none size = b
earlier (some b) (some p) size = if ltb p b then p else b

unfoldable pub field_selector_end : Bytes → ℕ
unfolding find
field_selector_end part = earlier (find b'[' part) (find b'|' part) (length part)

abbrev pub starts_with_digit : Bytes → Bool
starts_with_digit [] = false
starts_with_digit (c ∷ s) = is_digit c

abbrev pub found : Option FieldDescriptor → Error → Result FieldDescriptor
found none e = err e
found (some fd) e = ok fd

-- The look-up of the field, by number where the part begins with a digit. `FindFieldByNumber` takes
-- an `int`: the low 32 bits.
unfoldable pub find_field : Protobuf → ℕ → Bytes → Result FieldDescriptor
unfolding field_selector_end strtol
find_field pb desc part =
    let end = field_selector_end part in
    let missing =
      bad_query (text "field not found: " ++ part ++ text " in " ++ pb.full_name desc) in
    let number = strtol part in
    if starts_with_digit part
    then (if number.1 == end
        then found (pb.find_field_by_number desc (number.0 % 2 ^ 32)) missing
        else err (bad_query (text "invalid field number in query: " ++ part)))
    else found (pb.find_field_by_name desc (take end part)) missing

abbrev pub when : Bool → ℕ → Option ℕ
when b a = if b then some a else none

-- `*desc_ptrs` as the field sets it.
unfoldable pub describe : FieldDescriptor → DescPtrs
unfolding is_enum is_message
describe fd = record {
  ty = fd.type;
  desc = when (is_message fd.type) fd.message_type;
  enum_desc = when (is_enum fd.type) fd.enum_type;
  is_repeated = fd.is_repeated;
  is_map = fd.is_map;
}

abbrev pub last_is : ℕ → Bytes → Bool
last_is c [] = false
last_is c (x ∷ []) = x == c
last_is c (x ∷ y ∷ s) = last_is c (y ∷ s)

abbrev pub first_is : ℕ → Bytes → Bool
first_is c [] = false
first_is c (x ∷ s) = x == c

unfoldable pub is_bracketed : Bytes → Bool
is_bracketed s = first_is b'[' s && last_is b']' s

-- What a selector adds: the wanted index of the field selector, the visitors after it, and the new
-- `*desc_ptrs`.
pub record Selection : Type 0 where
  pub wanted_index : Option ℕ
  pub added : List Visitor
  pub desc_ptrs : DescPtrs

-- `std::stol(filter_str.c_str(), &end, 10)`; `long` has 64 bits, and the cast to `int` keeps 32.
abbrev pub index_of : Bytes → Stoi → Result ℕ
index_of s invalid_argument = err (bad_query (text "invalid numeric key: " ++ s))
index_of s out_of_range = err (bad_query (text "numeric key out of range key type: " ++ s))
index_of s (parsed n end) =
    if end == length s
    then ok (n % 2 ^ 32)
    else err (bad_query (text "expected numeric indexer at: " ++ s))

unfoldable pub select_index : Bytes → DescPtrs → Result Selection
unfolding bytes_eq stoll
select_index filter_str desc_ptrs =
    if bytes_eq filter_str (text "*")
    then ok (record { wanted_index = none; added = []; desc_ptrs = desc_ptrs })
    else (index_of filter_str (stoll filter_str) >>= λ n.
        ok (record { wanted_index = some n; added = []; desc_ptrs = desc_ptrs }))

-- The wanted key of a map filter and its contents. The union is written over what it held.
unfoldable pub wanted_key :
    Protobuf → Uninitialized → FieldType → Bytes → Result (FieldInfo × Bytes)
unfolding is_string parse_numeric_map_key
wanted_key pb u key_type filter_str =
    let wire_type = pb.wire_type_for_field_type key_type in
    if is_string key_type
    then ok (
      record {
        number = 1;
        wire_type = wire_type;
        value = set_size u.wanted_key_value (length filter_str);
      },
      filter_str,
    )
    else (parse_numeric_map_key pb filter_str key_type u.wanted_key_value >>= λ v.
        ok (record { number = 1; wire_type = wire_type; value = v }, []))

abbrev pub entries : Bool → DescPtrs → Selection
entries want_keys desc_ptrs = record {
  wanted_index = none;
  added = all_map_entries (new_all_map_entries want_keys desc_ptrs.ty) ∷ [];
  desc_ptrs = desc_ptrs;
}

abbrev pub filtered : Uninitialized → FieldDescriptor → DescPtrs → FieldInfo × Bytes → Selection
filtered u value_field desc_ptrs (key, contents) = record {
  wanted_index = none;
  added =
      map_filter
        (new_map_filter u.buffered_key_field u.buffered_value_field key contents value_field.type)
      ∷ [];
  desc_ptrs = desc_ptrs;
}

-- The branch for maps, with the key and the value field of the entry type.
unfoldable pub select_entries :
    Protobuf
    → Uninitialized
    → Bool
    → Bytes
    → FieldDescriptor
    → FieldDescriptor
    → DescPtrs
    → Result Selection
unfolding is_message new_all_map_entries new_map_filter bytes_eq wanted_key
select_entries pb u keys_selector filter_str key_field value_field desc_ptrs =
    let value_ptrs = record desc_ptrs {
      ty = value_field.type;
      desc = when (is_message value_field.type) value_field.message_type;
    } in
    if keys_selector
    then ok (entries true (record desc_ptrs { ty = key_field.type }))
    else if bytes_eq filter_str (text "*")
    then ok (entries false value_ptrs)
    else (wanted_key pb u key_field.type filter_str >>= λ key.
        ok (filtered u value_field value_ptrs key))

abbrev pub map_fields :
    Option FieldDescriptor → Option FieldDescriptor → Result (FieldDescriptor × FieldDescriptor)
map_fields (some k) (some v) = ok (k, v)
map_fields _ _ = err (bad_proto (text "invalid map field"))

unfoldable pub select_map : Protobuf → Uninitialized → Bool → Bytes → DescPtrs → Result Selection
unfolding select_entries
select_map pb u keys_selector filter_str desc_ptrs = elim desc_ptrs.desc [
  | none ↦ err assertion_failed
  | some entry ↦
      (map_fields (pb.find_field_by_number entry 1) (pb.find_field_by_number entry 2) >>= λ (k, v).
      select_entries pb u keys_selector filter_str k v desc_ptrs)
]

abbrev pub is_empty : Bytes → Bool
is_empty [] = true
is_empty (b ∷ bs) = false

-- The array or map selector of a repeated field: `filter_str` from the bracket or the pipe on.
unfoldable pub select_repeated :
    Protobuf → Uninitialized → FieldDescriptor → Bytes → DescPtrs → Result Selection
unfolding is_bracketed bytes_eq select_map select_index
select_repeated pb u fd filter_str desc_ptrs = do
  let bracketed = is_bracketed filter_str
  let keys_selector = bytes_eq filter_str (text "|keys")
  throw_if (not bracketed && not keys_selector) (
      bad_query (
        text
          "repeated field must be followed by an array/map selector like '[*]', or '|keys' (for maps)"))
  let inner = if bracketed then substr filter_str 1 (length filter_str - 2) else filter_str
  throw_if (bracketed && is_empty inner)
      (bad_query (text "empty array/map selector '[]' is invalid - did you mean '[*]'?"))
  throw_if (keys_selector && not fd.is_map) (bad_query (text "'|keys' can only be used on maps"))
  if fd.is_map then select_map pb u keys_selector inner desc_ptrs else select_index inner desc_ptrs

abbrev pub plain : DescPtrs → Selection
plain desc_ptrs = record { wanted_index = none; added = []; desc_ptrs = desc_ptrs }

abbrev pub known : Option ℕ → Bytes → Result ℕ
known none part = err (bad_query (text "query does not refer to a known field: " ++ part))
known (some d) part = ok d

-- The visitors of the query and `*desc_ptrs`, before and after the part.
unfoldable pub compile_query_part :
    Protobuf → Uninitialized → Bytes → List Visitor × DescPtrs → Result (List Visitor × DescPtrs)
unfolding find_field describe field_selector_end select_repeated new_field_selector
compile_query_part pb u part (visitors, ptrs) = do
  desc ← known ptrs.desc part
  throw_if (is_empty part) (bad_query (text "unexpected empty query part"))
  fd ← find_field pb desc part
  let end = field_selector_end part
  let desc_ptrs = describe fd
  throw_if (not fd.is_repeated && not (end == length part))
      (bad_query (text "non-repeated field must not be followed by an array/map selector"))
  s ←
      (if fd.is_repeated
        then select_repeated pb u fd (drop end part) desc_ptrs
        else ok (plain desc_ptrs))
  let selector = record (new_field_selector fd.number desc_ptrs.ty fd.is_packed) {
    wanted_index = s.wanted_index;
  }
  ok (visitors ++ field_selector selector ∷ s.added, s.desc_ptrs)
