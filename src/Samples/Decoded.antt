-- ===== src/Samples/Decoded.antt =====
-- The rows of a query on a message that the sample stream decodes.
use postgres_protobuf.Common.{
  ℕ, ◌≡◌, refl, Bool, false, none, some, [], ◌∷◌, ◌++◌, arith, drop, Bytes, codes, text, bytes_eq,
  find, to_string, signed_to_string, cons-ne-nil,
}
use postgres_protobuf.Result.{ok}
use postgres_protobuf.Library.{type_int32}
use postgres_protobuf.Query.Compile.{run, compile_visitors}
use postgres_protobuf.Rows.Spec.{
  Message, no_more, scalar, bytes, submessage, QueryPath, fields, as_primitive, value, select,
  chain, Reads, Decodes, rows_from, scalar_rows, written,
}
use postgres_protobuf.Postgres.{returned}
use postgres_protobuf.Sql.{protobuf_query_array}
use postgres_protobuf.Rows.Parts.{single}
use postgres_protobuf.Visitor.Treatments.{is_message}
use postgres_protobuf.Query.Part.{is_enum}
use postgres_protobuf.Samples.Library.{sample_message}
use postgres_protobuf.Rows.Texts.{Names, IsShown}
use postgres_protobuf.Rows.Functions.{protobuf_query_array-rows_from}
use postgres_protobuf.DescriptorDb.{find_desc_set}
use postgres_protobuf.DescriptorDb.Cache.Transactions.{initial}
use postgres_protobuf.Samples.Table.{
  sample_descriptors, sample_database, asked_cache, asked_once, sample_call,
}
use postgres_protobuf.Rows.Queries.{run-rows_from}
use postgres_protobuf.Samples.WireStream.{
  WireStream, wire_stream, wire_read_tag, wire_read_size, wire_descend, wire_ascend, wire_pop_limit,
  read_groups, read_bytes, skip_bytes,
}
use postgres_protobuf.Samples.WireStream.Forward.{wire_stream-Progress}
use postgres_protobuf.Samples.Library.{sample_protobuf, sample_uninitialized, sample_field_by_name}

-- `c: "x"  d { a: 150 }`
abbrev nested : Bytes
nested = 26 ∷ 1 ∷ 120 ∷ 34 ∷ 3 ∷ 8 ∷ 150 ∷ 1 ∷ []

abbrev inner_message : Message
inner_message = scalar 1 0 150 no_more

abbrev nested_message : Message
nested_message = bytes 3 (120 ∷ []) (submessage 4 (8 ∷ 150 ∷ 1 ∷ []) inner_message no_more)

-- The path `d.a`.
abbrev path_a : QueryPath
path_a = select 1 none (value (as_primitive type_int32))

path_compiled :
    compile_visitors sample_protobuf sample_uninitialized 0 1 (codes "d.a") none
    ≡ ok (chain (select 4 none path_a) [])
unfolding compile_visitors sample_field_by_name text bytes_eq find
path_compiled = refl

abbrev stream : ℕ → ℕ → Bool → WireStream
stream position budget legitimate_end = record {
  position = position;
  rest = drop position nested;
  limit = some 8;
  budget = budget;
  legitimate_end = legitimate_end;
}

end_decoded : Decodes wire_stream no_more (λ s. Unit {0}) (stream 8 99 false)
unfolding Decodes wire_read_tag
end_decoded = (refl, refl, tt)

inner_decoded :
    Decodes wire_stream inner_message
      (λ s. Decodes wire_stream no_more (λ s'. Unit {0}) (wire_ascend (some 8) s))
      (stream 5 98 false)
unfolding Decodes wire_read_tag read_groups wire_ascend wire_pop_limit
inner_decoded = (
  stream 6 98 false,
  record { tag = 8; read = refl; more = λ e. cc e; number_of = refl; wire_type_of = refl },
  stream 8 98 false,
  Reads.varint refl,
  (refl, refl, (refl, refl, tt)),
)

message_decoded :
    Decodes wire_stream
      (submessage 4 (8 ∷ 150 ∷ 1 ∷ []) inner_message no_more)
      (λ s. Unit {0})
      (stream 3 99 false)
unfolding Decodes wire_read_tag wire_read_size skip_bytes read_bytes wire_descend read_groups
message_decoded = (
  stream 4 99 false,
  record { tag = 34; read = refl; more = λ e. cc e; number_of = refl; wire_type_of = refl },
  stream 5 99 false,
  record {
    size = refl;
    small = omega arith;
    skipped = end_decoded;
    after = stream 8 99 false;
    string = refl;
    rest = end_decoded;
  },
  some 8,
  stream 5 98 false,
  refl,
  inner_decoded,
)

nested_decoded : Decodes wire_stream nested_message (λ s. Unit {0}) (stream 0 99 false)
unfolding Decodes wire_read_tag wire_read_size skip_bytes read_bytes read_groups
nested_decoded = (
  stream 1 99 false,
  record { tag = 26; read = refl; more = λ e. cc e; number_of = refl; wire_type_of = refl },
  stream 2 99 false,
  record {
    size = refl;
    small = omega arith;
    skipped = message_decoded;
    after = stream 3 99 false;
    string = refl;
    rest = message_decoded;
  },
)

rows_selected :
    rows_from sample_protobuf 0 (fields 4 none) path_a 0 nested_message ≡ some (codes "150" ∷ [])
unfolding rows_from scalar_rows written to_string signed_to_string
rows_selected = refl

run-rows_from_example :
    run wire_stream sample_protobuf sample_uninitialized (chain (select 4 none path_a) []) nested
    ≡ some (ok (codes "150" ∷ [], chain (select 4 none path_a) []))
unfolding wire_descend
run-rows_from_example =
    run-rows_from wire_stream sample_protobuf sample_uninitialized 4 none path_a nested_message
      nested none (stream 0 99 false) (codes "150" ∷ []) wire_stream-Progress (omega arith) refl
      nested_decoded rows_selected

-- The parts of `d.a` name fields of the message `M`.
path_named : Names sample_protobuf 3 1 (codes "d") (codes "a" ∷ []) (select 4 none path_a)
unfolding sample_field_by_name find is_message is_enum
path_named = Names.next (single (codes "d") (cons-ne-nil _ _) refl refl refl refl refl refl) refl (
    Names.last (single (codes "a") (cons-ne-nil _ _) refl refl refl refl refl refl)
      (IsShown.primitive refl refl))

protobuf_query_array-rows_from_example :
    protobuf_query_array wire_stream sample_protobuf sample_uninitialized sample_descriptors
      sample_call
      (codes "default" ++ b':' ∷ (codes "M" ++ b':' ∷ codes "d.a"))
      nested
      initial
    ≡ some (returned (codes "150" ∷ []), asked_cache)
unfolding wire_descend find find_desc_set sample_message
protobuf_query_array-rows_from_example =
    protobuf_query_array-rows_from wire_stream sample_protobuf sample_uninitialized
      sample_descriptors sample_call initial asked_cache sample_database
      (record { pool = 3; type_resolver = 3 }) (codes "default") (codes "M") (codes "d")
      (codes "a" ∷ []) 4 none path_a 1 nested_message nested none (stream 0 99 false)
      (codes "150" ∷ []) wire_stream-Progress (λ n. refl) asked_once refl refl refl refl
      (cons-ne-nil _ _, refl) ((cons-ne-nil _ _, refl), tt) path_named (omega arith) refl
      nested_decoded rows_selected
