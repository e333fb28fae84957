-- ===== src/Rows/Functions.antt =====
-- The SQL function `protobuf_query_array` against the rows that the text of its query selects.
use postgres_protobuf.Common.{
  ℕ, ◌^◌, ◌<◌, ◌≡◌, ap, ◌∙◌, Option, none, some, List, [], ◌∷◌, ◌++◌, length, All, Bytes, Without,
}
use postgres_protobuf.Outcome.{done, and_then}
use postgres_protobuf.Result.{ok}
use postgres_protobuf.Library.{CodedInputStream, Protobuf}
use postgres_protobuf.Field.{Uninitialized}
use postgres_protobuf.Visitor.{Visitor}
use postgres_protobuf.Traverser.Progress.{Progress}
use postgres_protobuf.DescriptorDb.{DescSet, DescDb, find_desc_set}
use postgres_protobuf.DescriptorDb.Cache.{Descriptors, Cache, get_or_create_cached}
use postgres_protobuf.Query.Compile.{run, compile_query}
use postgres_protobuf.Query.Compile.Paths.{IsPart, join}
use postgres_protobuf.Query.Compile.Prefixes.{query_of, compile_query-named}
use postgres_protobuf.Postgres.{returned}
use postgres_protobuf.Sql.{
  Call, handled, lift, rows_of, report_query_error, array_of, new_query, run_query,
  protobuf_query_array,
}
use postgres_protobuf.Sql.FirstRow.{IsEnough, array_of_enough}
use postgres_protobuf.Rows.Spec.{Message, fields, QueryPath, select, chain, Decodes, rows_from}
use postgres_protobuf.Rows.Texts.Compile.{compile_visitors-Names}
use postgres_protobuf.Rows.Texts.{Names}
use postgres_protobuf.Rows.Queries.{run-rows_from}

module _ (lib : CodedInputStream) (pb : Protobuf) (u : Uninitialized) where
  query_of-Names :
      (db : DescDb) (di : DescSet) (set_name name part : Bytes) (parts : List Bytes)
      (path : QueryPath) (desc : ℕ) (limit : Option ℕ)
      → find_desc_set set_name db.desc_sets ≡ some di
      → pb.find_message_type_by_name di.pool name ≡ some desc
      → IsPart part
      → All IsPart parts
      → Names pb di.type_resolver desc part parts path
      → query_of pb u db set_name name (join part parts) limit ≡ ok (chain path [])
  unfolding query_of
  query_of-Names db di set_name name part parts path desc limit f g h hs n =
      rw (f, query_of)
        (rw (g, query_of)
          (compile_visitors-Names pb u di.type_resolver limit desc part parts path h hs n))

  module _ (d : Descriptors) where
    -- Over a stream that only moves forward, where there is memory: `protobuf_query_array` is given
    -- fewer than 2 ^ 31 bytes and the query `<descriptor set>:<message type>:<path>`; the
    -- descriptor sets are got, the set is among them, and the message type is in the set; the parts
    -- of the path name fields, with `[*]` or an index in brackets where they are repeated (any
    -- number below 2 ^ 63, of which the lower 32 bits are the index), or maps, with `[*]` for their
    -- values or `|keys` for their keys, none of them packed; all but the last are of a message
    -- type, or are the values of a map that are messages; values of an enum in a map are not the
    -- last. If the stream decodes the bytes as a message whose selected fields fit the path, the
    -- function returns the rows that the path selects from that message: texts of primitive values,
    -- names of enum values, or the JSON of messages.
    pub protobuf_query_array-rows_from :
        (call : Call) (c c' : Cache) (db : DescDb) (di : DescSet) (set_name name part : Bytes)
        (parts : List Bytes) (field : ℕ) (index : Option ℕ) (path : QueryPath) (desc : ℕ)
        (message : Message) (proto : Bytes) (limit : lib.Limit) (s : lib.Stream) (out : List Bytes)
        → Progress lib
        → IsEnough call.memory
        → get_or_create_cached d call.spi call.callback_memory c ≡ done db c'
        → find_desc_set set_name db.desc_sets ≡ some di
        → pb.find_message_type_by_name di.pool name ≡ some desc
        → Without b':' set_name
        → Without b':' name
        → IsPart part
        → All IsPart parts
        → Names pb di.type_resolver desc part parts (select field index path)
        → length proto < 2 ^ 31
        → lib.increment_recursion_depth_and_push_limit (length proto) (lib.create proto)
          ≡ some (limit, s)
        → Decodes lib message (λ s'. Unit {0}) s
        → rows_from pb u.scanned_value (fields field index) path 0 message ≡ some out
        → protobuf_query_array lib pb u d call
            (set_name ++ b':' ∷ (name ++ b':' ∷ join part parts))
            proto
            c
          ≡ some (returned out, c')
    unfolding protobuf_query_array run_query new_query
    protobuf_query_array-rows_from call c c' db di set_name name part parts field index path desc
          message proto limit s out p m got f g hs hn h hp n l i dec e =
        let query : Bytes = set_name ++ b':' ∷ (name ++ b':' ∷ join part parts) in
        let compile = λ (db : DescDb). lift (compile_query pb u db query none) in
        let run_visitors = λ (visitors : List Visitor). rows_of (run lib pb u visitors proto) in
        ap
          (λ o.
            handled report_query_error
              (and_then (array_of call.memory) (and_then run_visitors (and_then compile o))))
          got
        ∙ ap
            (λ v.
              handled report_query_error
                (and_then (array_of call.memory) (and_then run_visitors (lift v c'))))
            (compile_query-named pb u db set_name name (join part parts) none hs hn
              ∙ query_of-Names db di set_name name part parts (select field index path) desc none f
                  g h hp n)
        ∙ ap (λ r. handled report_query_error (and_then (array_of call.memory) (rows_of r c')))
            (run-rows_from lib pb u field index path message proto limit s out p l i dec e)
        ∙ ap (handled report_query_error) (array_of_enough call.memory out c' m)
