-- ===== src/Sql/Json/Failed.antt =====
-- What the JSON functions report where the library cannot convert a message.
use postgres_protobuf.Common.{ℕ, ◌≡◌, ap, ◌∙◌, none, some, ◌++◌, Bytes, text}
use postgres_protobuf.Outcome.{and_then, done, ◌>>=◌}
use postgres_protobuf.Result.{ok}
use postgres_protobuf.Library.{Protobuf}
use postgres_protobuf.Postgres.{SqlState, reported}
use postgres_protobuf.DescriptorDb.{DescDb}
use postgres_protobuf.DescriptorDb.Cache.{Descriptors, Cache, get_or_create_cached}
use postgres_protobuf.Sql.{Call, handled, lift, copy_to_varlena}
use postgres_protobuf.Sql.Json.{
  get_protobuf_info_or_throw, convert_text, converted, report_json_error, protobuf_to_json_text,
}
use postgres_protobuf.Sql.Json.Returned.{convert_and_copy}

module _ (pb : Protobuf) (d : Descriptors) where
  -- Where the type is found, but the library does not convert the message, which is what `BadProto`
  -- is thrown for, `protobuf_to_json_text` reports an unknown exception as an internal error.
  pub protobuf_to_json_text-unknown :
      (call : Call) (protobuf_type proto : Bytes) (c c' : Cache) (db : DescDb) (name : Bytes)
      (type_resolver : ℕ)
      → get_or_create_cached d call.spi call.callback_memory c ≡ done db c'
      → get_protobuf_info_or_throw pb db protobuf_type ≡ ok (name, type_resolver)
      → pb.binary_to_json_string type_resolver (text "type.googleapis.com/" ++ name) proto ≡ none
      → protobuf_to_json_text pb d call protobuf_type proto c
        ≡ some (
          reported (record {
            code = SqlState.internal_error;
            message = text "unknown C++ exception in postgres_protobuf extension";
          }),
          c',
        )
  unfolding protobuf_to_json_text convert_text report_json_error
  protobuf_to_json_text-unknown call ty proto c c' db name r o i j =
      ap
        (λ v. handled (report_json_error ty) (
          and_then
            (λ db.
              lift (get_protobuf_info_or_throw pb db ty)
              >>= convert_and_copy pb pb.binary_to_json_string call proto)
            v))
        o
      ∙ ap
          (λ v.
            handled (report_json_error ty)
              (and_then (convert_and_copy pb pb.binary_to_json_string call proto) (lift v c')))
          i
      ∙ ap
          (λ v.
            handled (report_json_error ty)
              (and_then (copy_to_varlena call.memory) (lift (converted v) c')))
          j
