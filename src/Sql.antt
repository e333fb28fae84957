-- ===== src/Sql.antt =====
-- The SQL functions of postgres_protobuf.cpp. An argument and a result of type `text` or `bytea` is
-- its bytes; an SQL null is `none`.
pub mod Multi
pub mod Json
pub mod FirstRow
use postgres_protobuf.Common.{
  ℕ, zero, suc, ◌+◌, ◌-◌, ◌*◌, ◌/◌, ◌%◌, ◌^◌, ◌≤◌, ◌<◌, ◌≡◌, refl, sym, ap, ◌∙◌, ◌≢◌, ◌⊎◌, inl, inr,
  Bool, true, false, not, ◌&&◌, ◌||◌, Option, none, some, List, [], ◌∷◌, ◌++◌, map, arith, ltb, leb,
  eq→==, ne→==, ◌==◌, if◌then◌else◌, Bool-cases, Option-cases, length, get_elem?, set, take, drop,
  All, length-append, length-set, get_elem?-lt, Bytes, codes, text, bytes_eq, bytes_eq_refl,
  bytes_eq→eq, find, find_from, substr, to_string, signed_to_string, upper_hex, pad2,
  upper_hex_glyph, decimal_glyph, take-length, drop-length, drop-length_cons, Without, find-append,
  find_from-append, cons-ne-nil,
}
use postgres_protobuf.Outcome.{
  Error, bad_proto, bad_query, recursion_depth_exceeded, limit_reached, protobuf_not_found,
  bad_alloc, assertion_failed, pg_error, Outcome, done, thrown, stuck, M, ◌>>=◌, ◌>>◌, pure, throw,
}
use postgres_protobuf.Result.{Result, ok, err}
use postgres_protobuf.Library.{CodedInputStream, Protobuf}
use postgres_protobuf.Field.{Uninitialized}
use postgres_protobuf.Postgres.{SqlState, Report, Answer, returned, reported, aborted, Memory, Spi}
use postgres_protobuf.Visitor.{Visitor}
use postgres_protobuf.DescriptorDb.Cache.{Descriptors, Cache, get_or_create_cached}
use postgres_protobuf.Query.Compile.{compile_query, run, Ran}

-- What a call finds: the table, and memory for the callback of the cache, for blocks of a size, and
-- for one more element of a vector that has a number of them.
pub record Call : Type 0 where
  pub spi : Spi
  pub callback_memory : Bool
  pub memory : Memory
  pub vector_memory : Memory

-- `version::numericVersion`.
unfoldable pub protobuf_extension_version : ℕ → ℕ → ℕ → ℕ
protobuf_extension_version major minor patchlevel = major * 10000 + minor * 100 + patchlevel

abbrev pub report_with : {A : Type 0} → SqlState → Bytes → Answer A
report_with code message = reported (record { code = code; message = message })

-- The `catch` clauses of the query functions.
unfoldable pub report_query_error : {A : Type 0} → Error → Answer A
report_query_error bad_alloc = report_with SqlState.out_of_memory (text "out of memory")
report_query_error (bad_proto msg) =
    report_with SqlState.invalid_binary_representation (text "invalid protobuf: " ++ msg)
report_query_error (bad_query msg) =
    report_with SqlState.invalid_parameter_value (text "invalid query: " ++ msg)
report_query_error recursion_depth_exceeded =
    report_with SqlState.program_limit_exceeded (text "protobuf recursion depth exceeded")
report_query_error (pg_error msg) = report_with SqlState.internal_error msg
report_query_error assertion_failed = aborted
report_query_error _ =
    report_with SqlState.internal_error
      (text "unknown C++ exception in postgres_protobuf extension")

-- A function's body with its handler. `none`: the fuel of a loop ran out.
abbrev pub handled : {A : Type 0} → (Error → Answer A) → Outcome Cache A → Option (Answer A × Cache)
handled handler (done a c) = some (returned a, c)
handled handler (thrown e c) = some (handler e, c)
handled handler stuck = none

abbrev pub lift : {A : Type 0} → Result A → M Cache A
lift (ok a) c = done a c
lift (err e) c = thrown e c

abbrev pub rows_of : Ran → M Cache (List Bytes)
rows_of none c = stuck
rows_of (some (ok (rows, visitors))) c = done rows c
rows_of (some (err e)) c = thrown e c

unfoldable pub palloc0_or_throw_bad_alloc : Memory → ℕ → M Cache (Unit {0})
palloc0_or_throw_bad_alloc memory size = if memory size then pure tt else throw bad_alloc

-- A copy with a header of `VARHDRSZ` bytes before it.
unfoldable pub copy_to_varlena : Memory → Bytes → M Cache Bytes
unfolding palloc0_or_throw_bad_alloc
copy_to_varlena memory s = palloc0_or_throw_bad_alloc memory (4 + length s) >> pure s

unfoldable pub copy_all : Memory → List Bytes → M Cache (List Bytes)
unfolding copy_to_varlena
copy_all memory [] = pure []
copy_all memory (row ∷ rows) = do
  p ← copy_to_varlena memory row
  ps ← copy_all memory rows
  pure (p ∷ ps)

-- `if (!rows.empty())`
unfoldable pub first_row : Memory → List Bytes → M Cache (Option Bytes)
unfolding copy_to_varlena
first_row memory [] = pure none
first_row memory (row ∷ rows) = copy_to_varlena memory row >>= λ p. pure (some p)

-- The elements are pointers of eight bytes.
abbrev pub array_of : Memory → List Bytes → M Cache (List Bytes)
array_of memory rows = palloc0_or_throw_bad_alloc memory (8 * length rows) >> copy_all memory rows

module _ (lib : CodedInputStream) (pb : Protobuf) (u : Uninitialized) (d : Descriptors) where
  -- The constructor of `Query`.
  unfoldable pub new_query : Call → Bytes → Option ℕ → M Cache (List Visitor)
  unfolding get_or_create_cached compile_query
  new_query call query limit = get_or_create_cached d call.spi call.callback_memory >>= λ desc_db.
      lift (compile_query pb u desc_db query limit)

  unfoldable pub run_query : Call → Bytes → Option ℕ → Bytes → M Cache (List Bytes)
  unfolding new_query run
  run_query call query limit proto =
      new_query call query limit >>= λ visitors. rows_of (run lib pb u visitors proto)

  unfoldable pub protobuf_query :
      Call → Bytes → Bytes → Cache → Option (Answer (Option Bytes) × Cache)
  unfolding run_query report_query_error first_row
  protobuf_query call query proto c =
      handled report_query_error ((run_query call query (some 1) proto >>= first_row call.memory) c)

  unfoldable pub protobuf_query_array :
      Call → Bytes → Bytes → Cache → Option (Answer (List Bytes) × Cache)
  unfolding run_query report_query_error copy_all palloc0_or_throw_bad_alloc
  protobuf_query_array call query proto c =
      handled report_query_error ((run_query call query none proto >>= array_of call.memory) c)
