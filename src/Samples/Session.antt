-- ===== src/Samples/Session.antt =====
-- The theorems on the SQL functions and on the cached descriptor sets at concrete inputs.
use postgres_protobuf.Common.{
  ℕ, ◌<◌, ◌≡◌, refl, Bool, true, false, none, some, List, [], ◌∷◌, ◌++◌, arith, Bytes, codes, text,
  bytes_eq, find,
}
use mathlib.Core.Option
use postgres_protobuf.Outcome.{done, thrown, bad_alloc}
use postgres_protobuf.Result.{ok}
use postgres_protobuf.Library.{Protobuf}
use postgres_protobuf.Postgres.{SqlState, Spi, returned, reported}
use postgres_protobuf.DescriptorDb.{find_desc_set}
use postgres_protobuf.DescriptorDb.Cache.{
  Cache, build_sets, add_files, release_all, sets_of_table, read_rows, kept_rows, desc_sets_of,
  desc_set_of, rebuild, get_or_create_cached, end_transaction,
}
use postgres_protobuf.DescriptorDb.Cache.Contents.{gathered, build_sets-find_desc_set}
use postgres_protobuf.DescriptorDb.Cache.Transactions.{
  initial, starts, steps, asks, end_transaction-rebuild, get_or_create_cached_again,
  get_or_create_cached_stale,
}
use postgres_protobuf.Sql.{protobuf_query, protobuf_query_array}
use postgres_protobuf.Sql.FirstRow.{map_call, head, protobuf_query-head}
use postgres_protobuf.Sql.Multi.Drain.{drain, drain-protobuf_query_array}
use postgres_protobuf.Sql.Json.{get_protobuf_info_or_throw, protobuf_to_json_text}
use postgres_protobuf.Sql.Json.Failed.{protobuf_to_json_text-unknown}
use postgres_protobuf.Sql.Json.Whole.{protobuf_query-protobuf_to_json_text}
use postgres_protobuf.Samples.WireStream.{wire_stream, WireStream, read_bytes}
use postgres_protobuf.Samples.Library.{sample_protobuf, sample_uninitialized, sample_message}
use postgres_protobuf.Samples.Table.{
  sample_descriptors, spi_of, sample_rows, sample_sets, sample_sets_built, sample_database,
  asked_cache, asked_once, sample_call,
}

abbrev kept_sample_rows : List (Bytes × Bytes)
kept_sample_rows = (codes "default", 7 ∷ 8 ∷ []) ∷ (codes "default", 9 ∷ []) ∷ []

build_sets-find_desc_set_example :
    find_desc_set (codes "default") (desc_sets_of sample_descriptors sample_sets)
    ≡ Option.map
        (desc_set_of sample_descriptors)
        (gathered sample_descriptors (codes "default") kept_sample_rows none)
unfolding build_sets add_files release_all bytes_eq
build_sets-find_desc_set_example =
    build_sets-find_desc_set sample_descriptors (codes "default") kept_sample_rows sample_sets refl

end_transaction-rebuild_example :
    get_or_create_cached sample_descriptors (spi_of []) true (end_transaction asked_cache)
    ≡ rebuild sample_descriptors (spi_of []) true (end_transaction asked_cache)
end_transaction-rebuild_example =
    end_transaction-rebuild sample_descriptors (spi_of []) true
      (steps starts (asks (spi_of sample_rows) sample_database asked_once))

get_or_create_cached_again_example :
    get_or_create_cached sample_descriptors (spi_of []) true asked_cache
    ≡ done sample_database asked_cache
get_or_create_cached_again_example =
    get_or_create_cached_again sample_descriptors (spi_of sample_rows) (spi_of []) true true initial
      asked_cache sample_database asked_once

get_or_create_cached_stale_example :
    (c' : Cache) × (get_or_create_cached sample_descriptors (spi_of sample_rows) false initial
      ≡ thrown bad_alloc c')
    × ((spi' : Spi) (memory : Bool)
        → get_or_create_cached sample_descriptors spi' memory (end_transaction c')
          ≡ done sample_database (end_transaction c'))
get_or_create_cached_stale_example =
    get_or_create_cached_stale sample_descriptors (spi_of sample_rows) initial sample_sets refl refl
      sample_sets_built

-- The message has two values of the field `f`.
abbrev two_values : Bytes
two_values = 50 ∷ 1 ∷ b'x' ∷ 50 ∷ 1 ∷ b'y' ∷ []

protobuf_query-head_example :
    protobuf_query wire_stream sample_protobuf sample_uninitialized sample_descriptors sample_call
      (codes "M:f[*]")
      two_values
      initial
    ≡ map_call head (
        protobuf_query_array wire_stream sample_protobuf sample_uninitialized sample_descriptors
          sample_call
          (codes "M:f[*]")
          two_values
          initial)
protobuf_query-head_example =
    protobuf_query-head wire_stream sample_protobuf sample_uninitialized sample_descriptors
      sample_call (codes "M:f[*]") two_values initial (λ n. refl)

drain-protobuf_query_array_example :
    (enough : ℕ) × ((calls : ℕ)
      → enough < calls
      → drain wire_stream sample_protobuf sample_uninitialized sample_descriptors calls sample_call
          (codes "M:f[*]")
          two_values
          none
          initial
        ≡ protobuf_query_array wire_stream sample_protobuf sample_uninitialized sample_descriptors
            sample_call
            (codes "M:f[*]")
            two_values
            initial)
drain-protobuf_query_array_example =
    drain-protobuf_query_array wire_stream sample_protobuf sample_uninitialized sample_descriptors
      sample_call (codes "M:f[*]") two_values initial (λ n. refl) (λ n. refl)

json_of_sample :
    protobuf_to_json_text sample_protobuf sample_descriptors sample_call
      (codes "default" ++ b':' ∷ codes "M")
      two_values
      initial
    ≡ some (returned two_values, asked_cache)
unfolding protobuf_to_json_text find bytes_eq text find_desc_set sample_message get_or_create_cached
    rebuild sets_of_table read_rows kept_rows build_sets add_files release_all
json_of_sample = refl

abbrev wire_end : WireStream
wire_end = record (wire_stream.create two_values) { position = 6; rest = [] }

message_is_M : (pool desc : ℕ) → sample_message pool (codes "M") ≡ some desc → codes "M" ≡ codes "M"
message_is_M pool desc h = refl

protobuf_query-protobuf_to_json_text_example :
    protobuf_query wire_stream sample_protobuf sample_uninitialized sample_descriptors sample_call
      (codes "default" ++ b':' ∷ (codes "M" ++ b':' ∷ []))
      two_values
      initial
    ≡ some (returned (some two_values), asked_cache)
unfolding find read_bytes
protobuf_query-protobuf_to_json_text_example =
    protobuf_query-protobuf_to_json_text wire_stream sample_protobuf sample_uninitialized
      sample_descriptors sample_call (codes "default") (codes "M") two_values two_values initial
      asked_cache wire_end refl refl message_is_M (omega arith) refl (λ n. refl) json_of_sample

-- A library that converts nothing.
abbrev refusing_protobuf : Protobuf
refusing_protobuf = record sample_protobuf { binary_to_json_string = λ r url s. none }

info_of_sample :
    get_protobuf_info_or_throw refusing_protobuf sample_database
      (codes "default" ++ b':' ∷ codes "M")
    ≡ ok (codes "M", 3)
unfolding get_protobuf_info_or_throw find bytes_eq text find_desc_set sample_message
info_of_sample = refl

protobuf_to_json_text-unknown_example :
    protobuf_to_json_text refusing_protobuf sample_descriptors sample_call
      (codes "default" ++ b':' ∷ codes "M")
      two_values
      initial
    ≡ some (
      reported (record {
        code = SqlState.internal_error;
        message = text "unknown C++ exception in postgres_protobuf extension";
      }),
      asked_cache,
    )
protobuf_to_json_text-unknown_example =
    protobuf_to_json_text-unknown refusing_protobuf sample_descriptors sample_call
      (codes "default" ++ b':' ∷ codes "M") two_values initial asked_cache sample_database
      (codes "M") 3 asked_once info_of_sample refl
