-- ===== src/Sql/Json.antt =====
-- `protobuf_to_json_text` and `protobuf_from_json_text` of postgres_protobuf.cpp.
pub mod Returned
pub mod Whole
pub mod Failed
use postgres_protobuf.Common.{
  ℕ, zero, suc, ◌+◌, ◌-◌, ◌*◌, ◌/◌, ◌%◌, ◌^◌, ◌≤◌, ◌<◌, ◌≡◌, refl, sym, ap, ◌∙◌, ◌≢◌, ◌⊎◌, inl, inr,
  Bool, true, false, not, ◌&&◌, ◌||◌, Option, none, some, List, [], ◌∷◌, ◌++◌, map, arith, ltb, leb,
  eq→==, ne→==, ◌==◌, if◌then◌else◌, Bool-cases, Option-cases, length, get_elem?, set, take, drop,
  All, length-append, length-set, get_elem?-lt, Bytes, codes, text, bytes_eq, bytes_eq_refl,
  bytes_eq→eq, find, find_from, substr, to_string, signed_to_string, upper_hex, pad2,
  upper_hex_glyph, decimal_glyph, take-length, drop-length, drop-length_cons, Without, find-append,
  find_from-append, cons-ne-nil,
}
use postgres_protobuf.Outcome.{
  Error, protobuf_not_found, bad_alloc, bad_proto, assertion_failed, pg_error, M, ◌>>=◌, ◌>>◌, pure,
}
use postgres_protobuf.Result.{Result, ok, err}
use postgres_protobuf.Library.{Protobuf}
use postgres_protobuf.Postgres.{SqlState, Answer, aborted}
use postgres_protobuf.DescriptorDb.{DescDb, find_desc_set}
use postgres_protobuf.DescriptorDb.Cache.{Descriptors, Cache, get_or_create_cached}
use postgres_protobuf.Sql.{Call, handled, lift, report_with, copy_to_varlena}

-- The set's name and the message's name in `[<descriptor_set>:]<message_name>`.
unfoldable pub split_desc_spec : Bytes → Bytes × Bytes
unfolding find
split_desc_spec desc_spec = elim (find b':' desc_spec) [
  | none ↦ (text "default", desc_spec)
  | some i ↦ (substr desc_spec 0 i, drop (i + 1) desc_spec)
]

-- What is appended to the type URL, and the type resolver.
unfoldable pub get_protobuf_info_or_throw : Protobuf → DescDb → Bytes → Result (Bytes × ℕ)
unfolding split_desc_spec find_desc_set
get_protobuf_info_or_throw pb desc_db desc_spec =
    let (desc_set_name, desc_name) = split_desc_spec desc_spec in
    elim (find_desc_set desc_set_name desc_db.desc_sets) [
      | none ↦ err protobuf_not_found
      | some di ↦ elim (pb.find_message_type_by_name di.pool desc_name) [
        | none ↦ err protobuf_not_found
        | some desc ↦ ok (desc_name, di.type_resolver)
      ]
    ]

-- The `catch` clauses of the two functions; they have none for `BadProto`.
unfoldable pub report_json_error : {A : Type 0} → Bytes → Error → Answer A
report_json_error name bad_alloc = report_with SqlState.out_of_memory (text "out of memory")
report_json_error name protobuf_not_found =
    report_with SqlState.internal_error
      (text "invalid query: protobuf type " ++ (name ++ text " not found"))
report_json_error name (pg_error msg) = report_with SqlState.internal_error msg
report_json_error name assertion_failed = aborted
report_json_error name _ =
    report_with SqlState.internal_error
      (text "unknown C++ exception in postgres_protobuf extension")

-- `if (!status.ok()) throw BadProto(...)`; the library's message is not told apart, since no handler
-- reads it.
abbrev pub converted : Option Bytes → Result Bytes
converted none = err (bad_proto [])
converted (some s) = ok s

module _ (pb : Protobuf) (d : Descriptors) where
  -- The body of both functions: `convert` is `BinaryToJsonString` or `JsonToBinaryString`.
  unfoldable pub convert_text :
      (ℕ → Bytes → Bytes → Option Bytes) → Call → Bytes → Bytes → M Cache Bytes
  unfolding get_or_create_cached get_protobuf_info_or_throw copy_to_varlena
  convert_text convert call protobuf_type input = do
    desc_db ← get_or_create_cached d call.spi call.callback_memory
    (desc_name, type_resolver) ← lift (get_protobuf_info_or_throw pb desc_db protobuf_type)
    output ←
        lift (converted (convert type_resolver (text "type.googleapis.com/" ++ desc_name) input))
    copy_to_varlena call.memory output

  unfoldable pub protobuf_to_json_text :
      Call → Bytes → Bytes → Cache → Option (Answer Bytes × Cache)
  unfolding convert_text report_json_error
  protobuf_to_json_text call protobuf_type proto c =
      handled (report_json_error protobuf_type)
        (convert_text pb.binary_to_json_string call protobuf_type proto c)

  unfoldable pub protobuf_from_json_text :
      Call → Bytes → Bytes → Cache → Option (Answer Bytes × Cache)
  unfolding convert_text report_json_error
  protobuf_from_json_text call protobuf_type json c =
      handled (report_json_error protobuf_type)
        (convert_text pb.json_to_binary_string call protobuf_type json c)
