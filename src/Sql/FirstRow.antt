-- ===== src/Sql/FirstRow.antt =====
-- `protobuf_query` against `protobuf_query_array`.
use postgres_protobuf.Common.{
  ℕ, ◌+◌, ◌*◌, ◌≡◌, refl, ap, ◌∙◌, true, Option, none, some, List, [], ◌∷◌, length, Bytes,
}
use mathlib.Core.Path.{fun_ext}
use postgres_protobuf.Outcome.{
  Error, bad_proto, bad_query, recursion_depth_exceeded, limit_reached, protobuf_not_found,
  bad_alloc, assertion_failed, pg_error, Outcome, done, thrown, stuck, and_then, ◌>>=◌,
}
use postgres_protobuf.Library.{CodedInputStream, Protobuf}
use postgres_protobuf.Field.{Uninitialized}
use postgres_protobuf.Postgres.{Answer, returned, reported, aborted, Memory}
use postgres_protobuf.DescriptorDb.{DescDb}
use postgres_protobuf.DescriptorDb.Cache.{Descriptors, Cache, get_or_create_cached}
use postgres_protobuf.Query.Compile.Limit.{compile_query_limit}
use postgres_protobuf.Sql.{
  Call, handled, lift, report_query_error, palloc0_or_throw_bad_alloc, copy_to_varlena, copy_all,
  first_row, array_of, new_query, run_query, protobuf_query, protobuf_query_array,
}

-- Every allocation succeeds.
abbrev pub IsEnough : Memory → Type 0
IsEnough memory = (n : ℕ) → memory n ≡ true

-- An answer with its value changed.
abbrev pub map_answer : {A B : Type 0} → (A → B) → Answer A → Answer B
map_answer f (returned a) = returned (f a)
map_answer f (reported r) = reported r
map_answer f aborted = aborted

abbrev pub map_call :
    {A B : Type 0} → (A → B) → Option (Answer A × Cache) → Option (Answer B × Cache)
map_call f none = none
map_call f (some (a, c)) = some (map_answer f a, c)

abbrev pub head : List Bytes → Option Bytes
head [] = none
head (row ∷ rows) = some row

pub copy_to_varlena_enough :
    (memory : Memory) (s : Bytes) (c : Cache)
    → IsEnough memory
    → copy_to_varlena memory s c ≡ done s c
unfolding copy_to_varlena palloc0_or_throw_bad_alloc
copy_to_varlena_enough memory s c m = rw (m (4 + length s)) refl

copy_all_enough :
    (memory : Memory) (rows : List Bytes) (c : Cache)
    → IsEnough memory
    → copy_all memory rows c ≡ done rows c
unfolding copy_all
copy_all_enough memory [] c m = refl
copy_all_enough memory (row ∷ rows) c m =
    rw (copy_to_varlena_enough memory row c m, copy_all_enough memory rows c m) refl

pub array_of_enough :
    (memory : Memory) (rows : List Bytes) (c : Cache)
    → IsEnough memory
    → array_of memory rows c ≡ done rows c
unfolding palloc0_or_throw_bad_alloc
array_of_enough memory rows c m = rw (m (8 * length rows)) (copy_all_enough memory rows c m)

pub first_row_enough :
    (memory : Memory) (rows : List Bytes) (c : Cache)
    → IsEnough memory
    → first_row memory rows c ≡ done (head rows) c
unfolding first_row
first_row_enough memory [] c m = refl
first_row_enough memory (row ∷ rows) c m = rw (copy_to_varlena_enough memory row c m) refl

pub report-map :
    {A B : Type 0} (f : A → B) (e : Error)
    → map_answer f (report_query_error e) ≡ report_query_error e
unfolding report_query_error
report-map f (bad_proto m) = refl
report-map f (bad_query m) = refl
report-map f recursion_depth_exceeded = refl
report-map f limit_reached = refl
report-map f protobuf_not_found = refl
report-map f bad_alloc = refl
report-map f assertion_failed = refl
report-map f (pg_error m) = refl

module _ (lib : CodedInputStream) (pb : Protobuf) (u : Uninitialized) (d : Descriptors) where
  new_query_limit :
      (call : Call) (query : Bytes) (l m : Option ℕ)
      → new_query lib pb u d call query l ≡ new_query lib pb u d call query m
  unfolding new_query
  new_query_limit call query l m =
      ap (λ k. get_or_create_cached d call.spi call.callback_memory >>= k)
        (fun_ext λ (db : DescDb). ap lift (compile_query_limit pb u db query l m))

  run_query_limit :
      (call : Call) (query : Bytes) (l m : Option ℕ) (proto : Bytes)
      → run_query lib pb u d call query l proto ≡ run_query lib pb u d call query m proto
  unfolding run_query
  run_query_limit call query l m proto = rw (new_query_limit call query l m) refl

  heads :
      (memory : Memory) (o : Outcome Cache (List Bytes))
      → IsEnough memory
      → handled report_query_error (and_then (first_row memory) o)
        ≡ map_call head (handled report_query_error (and_then (array_of memory) o))
  heads memory (done rows c) m =
      rw (first_row_enough memory rows c m, array_of_enough memory rows c m) refl
  heads memory (thrown e c) m = rw (report-map head e) refl
  heads memory stuck m = refl

  -- Where the calls find memory: `protobuf_query` answers the first row of what
  -- `protobuf_query_array` answers to the same query, message and table, or null if there is none,
  -- and reports the same errors; both leave the same cache.
  pub protobuf_query-head :
      (call : Call) (query proto : Bytes) (c : Cache)
      → IsEnough call.memory
      → protobuf_query lib pb u d call query proto c
        ≡ map_call head (protobuf_query_array lib pb u d call query proto c)
  unfolding protobuf_query protobuf_query_array
  protobuf_query-head call query proto c m =
      ap (λ q. handled report_query_error (and_then (first_row call.memory) (q c)))
        (run_query_limit call query (some 1) none proto)
      ∙ heads call.memory (run_query lib pb u d call query none proto c) m
