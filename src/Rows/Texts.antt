-- ===== src/Rows/Texts.antt =====
-- The text of a query against the path that it stands for.
pub mod Compile
use postgres_protobuf.Common.{
  ℕ, ◌≡◌, refl, sym, ap, ◌∙◌, Bool, true, false, none, Option, some, List, [], ◌∷◌, ◌++◌, text, All,
  Bytes,
}
use mathlib.Core.List.{append_assoc}
use postgres_protobuf.Result.{Result, ok, ◌>>=◌}
use postgres_protobuf.Library.{FieldType, FieldDescriptor, Protobuf, type_message, type_enum}
use postgres_protobuf.Field.{Uninitialized}
use postgres_protobuf.Visitor.{Visitor, descend_into_submessage, all_map_entries}
use postgres_protobuf.Visitor.Entries.{new_all_map_entries}
use postgres_protobuf.Visitor.Treatments.{is_message}
use postgres_protobuf.Visitor.Emitters.{new_emitter}
use postgres_protobuf.Query.Part.{DescPtrs, describe, when, is_enum}
use postgres_protobuf.Query.Compile.{
  Compiled, descend, create_emitter, compile_path, compile_last, compile_visitors, root_visitors,
  root_ptrs,
}
use postgres_protobuf.Query.Compile.Paths.{
  IsPart, join, compile_parts, compile_path-join, >>=_assoc,
}
use postgres_protobuf.Rows.Spec.{
  Shown, as_primitive, as_enum, as_json, emitter_of, QueryPath, entry, pick, value, select, ready,
  type_of, chain,
}
use postgres_protobuf.Rows.Parts.{Part, compile_query_part-Part}
use postgres_protobuf.Rows.Parts.Maps.{
  Entries, entry_ptrs, entries_message, message_of, compile_query_part-Entries,
}

-- How the values of a field are shown where it is the last one of a path.
pub data IsShown (pb : Protobuf) (type_resolver : ℕ) (fd : FieldDescriptor) : Shown → Type 0 where
  primitive :
      is_message fd.type ≡ false
      → is_enum fd.type ≡ false
      → IsShown pb type_resolver fd (as_primitive fd.type)
  enum : fd.type ≡ type_enum → IsShown pb type_resolver fd (as_enum fd.enum_type)
  json :
      fd.type ≡ type_message
      → IsShown pb type_resolver fd
          (as_json type_resolver (text "type.googleapis.com/" ++ pb.full_name fd.message_type))

-- What shows the keys or the values of a map whose entries hold them in the field `f`. There is none for
-- values of an enum, for which no emitter can be created.
pub data IsEntry (pb : Protobuf) (type_resolver : ℕ) (f : FieldDescriptor)
    : Bool → Shown → Type 0 where
  primitive_entry :
      (want_keys : Bool)
      → is_message f.type ≡ false
      → is_enum f.type ≡ false
      → IsEntry pb type_resolver f want_keys (as_primitive f.type)
  json_value :
      f.type ≡ type_message
      → IsEntry pb type_resolver f false
          (as_json type_resolver (text "type.googleapis.com/" ++ pb.full_name f.message_type))

-- The parts of a path that begins in a message, and the path that they stand for.
pub data Names (pb : Protobuf) (type_resolver : ℕ)
    : ℕ → Bytes → List Bytes → QueryPath → Type 0 where
  last :
      {desc : ℕ} {part : Bytes} {index : Option ℕ} {fd : FieldDescriptor} {shown : Shown}
      → Part pb desc fd part index
      → IsShown pb type_resolver fd shown
      → Names pb type_resolver desc part [] (select fd.number index (value shown))
  next :
      {desc : ℕ} {part part' : Bytes} {parts : List Bytes} {index : Option ℕ} {fd : FieldDescriptor}
      {field : ℕ} {index' : Option ℕ} {path : QueryPath}
      → Part pb desc fd part index
      → fd.type ≡ type_message
      → Names pb type_resolver fd.message_type part' parts (select field index' path)
      → Names pb type_resolver desc part
          (part' ∷ parts)
          (select fd.number index (select field index' path))
  last_entries :
      {desc : ℕ} {part : Bytes} {fd f : FieldDescriptor} {want_keys : Bool} {shown : Shown}
      → Entries pb desc fd f want_keys part
      → IsEntry pb type_resolver f want_keys shown
      → Names pb type_resolver desc part []
          (select fd.number none (pick (entry want_keys) (value shown)))
  next_entries :
      {desc : ℕ} {part part' : Bytes} {parts : List Bytes} {fd f : FieldDescriptor} {field : ℕ}
      {index' : Option ℕ} {path : QueryPath}
      → Entries pb desc fd f false part
      → f.type ≡ type_message
      → Names pb type_resolver f.message_type part' parts (select field index' path)
      → Names pb type_resolver desc part
          (part' ∷ parts)
          (select fd.number none (pick (entry false) (select field index' path)))
