-- ===== src/Visitor/Entries.antt =====
-- `AllMapEntries` of querying.cpp.
pub mod Handed
use postgres_protobuf.Common.{ℕ, Bool, not, ◌&&◌, ◌||◌, ◌==◌, if◌then◌else◌}
use postgres_protobuf.Library.{FieldType}
use postgres_protobuf.Visitor.Treatments.{
  Treatment, skip, as_submessage, composite_field_treatment_for_type,
}

pub data EntriesScope : Type 0 where
  outermost in_entry in_wanted_field in_unwanted_other_field : EntriesScope

pub record AllMapEntries : Type 0 where
  pub want_keys : Bool
  pub ty : FieldType
  pub scope : EntriesScope

unfoldable pub new_all_map_entries : Bool → FieldType → AllMapEntries
new_all_map_entries want_keys ty = record { want_keys = want_keys; ty = ty; scope = outermost }

unfoldable pub is_wanted : Bool → ℕ → Bool
is_wanted want_keys number = (number == 1 && want_keys) || (number == 2 && not want_keys)

unfoldable pub entries_begin_field : ℕ → ℕ → ℕ → AllMapEntries → AllMapEntries × ℕ
unfolding is_wanted
entries_begin_field this next number a = elim a.scope [
  | outermost ↦ (record a { scope = in_entry }, this)
  | in_entry ↦
      if is_wanted a.want_keys number
      then (record a { scope = in_wanted_field }, next)
      else (record a { scope = in_unwanted_other_field }, this)
  | _ ↦ (a, this)
]

unfoldable pub entries_read_length_delimited_field : ℕ → ℕ → AllMapEntries → Treatment × ℕ
unfolding composite_field_treatment_for_type
entries_read_length_delimited_field this next a = elim a.scope [
  | in_entry ↦ (as_submessage, this)
  | in_wanted_field ↦ (composite_field_treatment_for_type a.ty, next)
  | _ ↦ (skip, this)
]

unfoldable pub entries_end_field : AllMapEntries → AllMapEntries
entries_end_field a = elim a.scope [
  | in_wanted_field ↦ record a { scope = in_entry }
  | in_unwanted_other_field ↦ record a { scope = in_entry }
  | _ ↦ record a { scope = outermost }
]
