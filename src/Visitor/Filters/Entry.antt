-- ===== src/Visitor/Filters/Entry.antt =====
-- A map filter over one map entry.
use postgres_protobuf.Common.{ℕ, ◌≡◌, refl, Bool, true, ◌&&◌, List, [], ◌∷◌, arith, Bytes, bytes_eq}
use postgres_protobuf.Field.{FieldInfo, value_equals}
use postgres_protobuf.Visitor.Filters.{
  MapFilter, outermost, filter_begin_field, filter_begin_message, filter_read_primitive,
  filter_read_length_delimited_field, filter_buffered_value, filter_end_field, filter_matches,
  filter_reset,
}

-- What the traverser hands over of a field of the entry: a value read at once, or the size and the
-- contents of a length-delimited field.
pub data EntryField : Type 0 where
  primitive : FieldInfo → EntryField
  delimited : FieldInfo → Bytes → EntryField

abbrev pub info : EntryField → FieldInfo
info (primitive field) = field
info (delimited field contents) = field

abbrev pub contents_of : EntryField → Bytes
contents_of (primitive field) = []
contents_of (delimited field contents) = contents

-- The methods that the traverser calls on the filter for one field of an entry.
unfoldable pub entry_field : EntryField → MapFilter → MapFilter
unfolding filter_begin_field filter_read_primitive filter_read_length_delimited_field
    filter_buffered_value filter_end_field
entry_field (primitive field) f =
    (filter_end_field
      (filter_read_primitive field (filter_begin_field field.number field.wire_type f))).0
entry_field (delimited field contents) f =
    (filter_end_field (
      filter_buffered_value contents
        (filter_read_length_delimited_field field
          (filter_begin_field field.number field.wire_type f)).0)).0

unfoldable pub entry_fields : List EntryField → MapFilter → MapFilter
unfolding entry_field
entry_fields [] f = f
entry_fields (e ∷ es) f = entry_fields es (entry_field e f)

-- The methods on a whole entry, up to the comparison of the key: the entry is begun as a field and
-- as a message, its fields go by, and it is ended.
unfoldable pub entry : ℕ → List EntryField → MapFilter → MapFilter × Bool
unfolding entry_fields filter_begin_field filter_begin_message filter_end_field
entry number fields f =
    filter_end_field (entry_fields fields (filter_begin_message (filter_begin_field number 2 f)))

-- A filter between two entries.
pub record IsClean (f : MapFilter) : Type 0 where
  pub outside : f.scope ≡ outermost
  pub no_key : f.buffered_key_contents ≡ []
  pub no_value : f.buffered_value_contents ≡ []

-- A filter that has taken in an entry: the entry has ended, its key decides the match, and its
-- value is what is forwarded.
pub record HasRead (f : MapFilter) (key value : EntryField) (r : MapFilter × Bool) : Type 0 where
  pub ended : r.1 ≡ true
  pub match : filter_matches r.0 ≡ (
      value_equals (info key) f.wanted_key_field
      && bytes_eq (contents_of key) f.wanted_key_contents)
  pub value_field : r.0.buffered_value_field ≡ info value
  pub value_contents : r.0.buffered_value_contents ≡ contents_of value

-- After its reset, which follows each entry and each pop, a filter is clean.
pub filter_reset-IsClean : (f : MapFilter) → IsClean (filter_reset f)
unfolding filter_reset
filter_reset-IsClean f = record { outside = refl; no_key = refl; no_value = refl }

-- A clean filter that sees an entry with a key (field 1) and a value (field 2), in either order,
-- reads both: it matches exactly if the key's value and contents are the wanted ones, and it holds
-- the value for the next visitor.
pub entry-HasRead :
    (number : ℕ) (key value : EntryField) (f : MapFilter)
    → (info key).number ≡ 1
    → (info value).number ≡ 2
    → IsClean f
    → HasRead f key value (entry number (key ∷ value ∷ []) f)
      × HasRead f key value (entry number (value ∷ key ∷ []) f)
unfolding entry filter_matches
entry-HasRead number (primitive k) (primitive v) f hk hv c = ground arith
entry-HasRead number (primitive k) (delimited v s) f hk hv c = ground arith
entry-HasRead number (delimited k t) (primitive v) f hk hv c = ground arith
entry-HasRead number (delimited k t) (delimited v s) f hk hv c = ground arith
