-- ===== src/Traverser/Termination/Visitors.antt =====
-- What the visitors answer: themselves, or the next visitor.
use postgres_protobuf.Common.{ℕ, suc, ◌≡◌, refl, ◌⊎◌, inl, inr, arith}
use postgres_protobuf.Library.{Protobuf}
use postgres_protobuf.Field.{FieldInfo}
use postgres_protobuf.Visitor.{
  Visitor, descend_into_submessage, field_selector, all_map_entries, visit_begin_field,
  visit_begin_message, visit_read_length_delimited_field,
}
use postgres_protobuf.Visitor.Selectors.{
  FieldSelector, selector_begin_field, selector_read_length_delimited_field,
}
use postgres_protobuf.Visitor.Entries.{
  AllMapEntries, entries_begin_field, entries_read_length_delimited_field,
}

abbrev pub IsStep : ℕ → ℕ → Type 0
IsStep this answer = (answer ≡ this) ⊎ (answer ≡ suc this)

abbrev pub Answers : (ℕ → Visitor → Visitor × ℕ) → Type 0
Answers method = (this : ℕ) (v : Visitor) → IsStep this (method this v).1

selector_begin_field-IsStep :
    (this n w : ℕ) (s : FieldSelector) → IsStep this (selector_begin_field this (suc this) n w s).1
unfolding selector_begin_field
selector_begin_field-IsStep this n w s = ground arith

entries_begin_field-IsStep :
    (this n : ℕ) (a : AllMapEntries) → IsStep this (entries_begin_field this (suc this) n a).1
unfolding entries_begin_field
entries_begin_field-IsStep this n a = ground arith

selector_read-IsStep :
    (pb : Protobuf) (this : ℕ) (s : FieldSelector)
    → IsStep this (selector_read_length_delimited_field pb this (suc this) s).1
unfolding selector_read_length_delimited_field
selector_read-IsStep pb this s = ground arith

entries_read-IsStep :
    (this : ℕ) (a : AllMapEntries)
    → IsStep this (entries_read_length_delimited_field this (suc this) a).1
unfolding entries_read_length_delimited_field
entries_read-IsStep this a = ground arith

pub visit_begin_field-Answers :
    (number wire_type : ℕ) → Answers (λ this. visit_begin_field this number wire_type)
unfolding visit_begin_field
visit_begin_field-Answers n w this (field_selector s) = selector_begin_field-IsStep this n w s
visit_begin_field-Answers n w this (all_map_entries a) = entries_begin_field-IsStep this n a
visit_begin_field-Answers n w this _ = inl refl

pub visit_begin_message-Answers : Answers visit_begin_message
unfolding visit_begin_message
visit_begin_message-Answers this descend_into_submessage = inr refl
visit_begin_message-Answers this _ = inl refl

pub visit_read_length_delimited_field-IsStep :
    (pb : Protobuf) (this : ℕ) (field : FieldInfo) (v : Visitor)
    → IsStep this (visit_read_length_delimited_field pb this field v).1.1
unfolding visit_read_length_delimited_field
visit_read_length_delimited_field-IsStep pb this field (field_selector s) =
    selector_read-IsStep pb this s
visit_read_length_delimited_field-IsStep pb this field (all_map_entries a) =
    entries_read-IsStep this a
visit_read_length_delimited_field-IsStep pb this field _ = inl refl
