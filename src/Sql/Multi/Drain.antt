-- ===== src/Sql/Multi/Drain.antt =====
-- The rows that Postgres gets from `protobuf_query_multi`, against `protobuf_query_array`.
use postgres_protobuf.Common.{
  ℕ, zero, suc, ◌+◌, ◌≤◌, ◌<◌, ◌≡◌, refl, ap, ◌∙◌, Option, none, some, List, [], ◌∷◌, ◌++◌, arith,
  length, drop, Bytes, drop-elem, drop_past, lt→ltb, not_lt→ltb,
}
use mathlib.Core.List.{append_assoc, append-nil}
use native.Mathlib.Decide.{dec_lt}
use native.Mathlib.Numerals.{add-one}
use postgres_protobuf.Outcome.{
  Error, bad_proto, bad_query, recursion_depth_exceeded, limit_reached, protobuf_not_found,
  bad_alloc, assertion_failed, pg_error, Outcome, done, thrown, stuck, M, and_then, ◌>>=◌, ◌>>◌,
  pure,
}
use postgres_protobuf.Library.{CodedInputStream, Protobuf}
use postgres_protobuf.Field.{Uninitialized}
use postgres_protobuf.Postgres.{Answer, returned, reported, aborted}
use postgres_protobuf.DescriptorDb.Cache.{Descriptors, Cache}
use postgres_protobuf.Visitor.{Visitor}
use postgres_protobuf.Query.Compile.{run}
use postgres_protobuf.Sql.{
  Call, handled, report_query_error, palloc0_or_throw_bad_alloc, new_query, rows_of, run_query,
  array_of, protobuf_query_array,
}
use postgres_protobuf.Sql.FirstRow.{IsEnough, map_call, copy_to_varlena_enough, array_of_enough}
use postgres_protobuf.Sql.Multi.{
  MultiQueryState, Next, push_rows, next_row, first_call, protobuf_query_multi,
}

module _ (lib : CodedInputStream) (pb : Protobuf) (u : Uninitialized) (d : Descriptors) where
  -- What Postgres does with an answer: a row is kept and the function is called again.
  abbrev after :
      (Option MultiQueryState → Cache → Option (Answer (List Bytes) × Cache))
      → Option (Answer Next × Cache)
      → Option (Answer (List Bytes) × Cache)
  after again none = none
  after again (some (reported r, c)) = some (reported r, c)
  after again (some (aborted, c)) = some (aborted, c)
  after again (some (returned (none, fcinfo), c)) = some (returned [], c)
  after again (some (returned (some row, fcinfo), c)) =
      map_call (λ rows. row ∷ rows) (again fcinfo c)

  -- Calls of the function until it has no more rows, `calls` of them at most.
  unfoldable pub drain :
      ℕ
      → Call
      → Bytes
      → Bytes
      → Option MultiQueryState
      → Cache
      → Option (Answer (List Bytes) × Cache)
  unfolding protobuf_query_multi
  drain zero call query proto fcinfo c = none
  drain (suc calls) call query proto fcinfo c =
      after (drain calls call query proto)
        (protobuf_query_multi lib pb u d call query proto fcinfo c)

  -- From a state on, the calls get the rows from its index on.
  drain-drop :
      (n index : ℕ) (call : Call) (query proto : Bytes) (rows : List Bytes) (c : Cache)
      → index ≤ length rows
      → length rows < index + n
      → drain n call query proto (some (record { rows = rows; index = index })) c
        ≡ some (returned (drop index rows), c)
  unfolding drain protobuf_query_multi next_row
  drain-drop zero index call query proto rows c l h = absurd (omega arith)
  drain-drop (suc n) index call query proto rows c l h = elim (dec_lt index (length rows)) [
    | yes lt ↦
        let (row, e, f) = drop-elem rows index lt in
        rw
          (
            lt→ltb index (length rows) lt,
            e,
            f,
            add-one,
            drain-drop n (suc index) call query proto rows c (omega arith) (omega arith),
          )
          refl
    | no ge ↦ rw (not_lt→ltb index (length rows) ge, drop_past rows index (omega arith)) refl
  ]

  push_rows_enough :
      (call : Call) (rows more : List Bytes) (c : Cache)
      → IsEnough call.memory
      → IsEnough call.vector_memory
      → push_rows call rows more c ≡ done (rows ++ more) c
  unfolding push_rows
  push_rows_enough call rows [] c m v = rw append-nil
  push_rows_enough call rows (row ∷ more) c m v =
      rw
        (
          copy_to_varlena_enough call.memory row c m,
          v (length rows),
          push_rows_enough call (rows ++ row ∷ []) more c m v,
          append_assoc,
        )
        refl

  -- What the first call finds is what the query answers.
  started : Outcome Cache (List Bytes) → Outcome Cache MultiQueryState
  started o = and_then (λ rows. pure (record { rows = rows; index = 0 })) o

  pushed : Call → List Bytes → M Cache MultiQueryState
  pushed call result = push_rows call [] result >>= λ rows. pure (record { rows = rows; index = 0 })

  rows_pushed :
      (call : Call) (o : Outcome Cache (List Bytes))
      → IsEnough call.memory
      → IsEnough call.vector_memory
      → and_then (pushed call) o ≡ started o
  unfolding started pushed
  rows_pushed call (done rows c) m v = rw (push_rows_enough call [] rows c m v) refl
  rows_pushed call (thrown e c) m v = refl
  rows_pushed call stuck m v = refl

  visitors_run :
      (call : Call) (proto : Bytes) (o : Outcome Cache (List Visitor))
      → IsEnough call.memory
      → IsEnough call.vector_memory
      → and_then
          (λ visitors.
            palloc0_or_throw_bad_alloc call.memory 32
            >> (rows_of (run lib pb u visitors proto) >>= pushed call))
          o
        ≡ started (and_then (λ visitors. rows_of (run lib pb u visitors proto)) o)
  unfolding started palloc0_or_throw_bad_alloc
  visitors_run call proto (done visitors c) m v =
      rw (m 32) (rows_pushed call (rows_of (run lib pb u visitors proto) c) m v)
  visitors_run call proto (thrown e c) m v = refl
  visitors_run call proto stuck m v = refl

  first_call_enough :
      (call : Call) (query proto : Bytes) (c : Cache)
      → IsEnough call.memory
      → IsEnough call.vector_memory
      → first_call lib pb u d call query proto c
        ≡ started (run_query lib pb u d call query none proto c)
  unfolding first_call run_query pushed
  first_call_enough call query proto c m v =
      visitors_run call proto (new_query lib pb u d call query none c) m v

  after_error :
      (again : Option MultiQueryState → Cache → Option (Answer (List Bytes) × Cache)) (e : Error)
      (c : Cache)
      → after again (some (report_query_error e, c)) ≡ some (report_query_error e, c)
  unfolding report_query_error
  after_error again (bad_proto m) c = refl
  after_error again (bad_query m) c = refl
  after_error again recursion_depth_exceeded c = refl
  after_error again limit_reached c = refl
  after_error again protobuf_not_found c = refl
  after_error again bad_alloc c = refl
  after_error again assertion_failed c = refl
  after_error again (pg_error m) c = refl

  -- The calls after a first call that found these rows, or ended otherwise.
  abbrev FinishedIn : ℕ → Call → Bytes → Bytes → Outcome Cache (List Bytes) → Type 0
  FinishedIn n call query proto o =
      after (drain n call query proto)
        (handled report_query_error (and_then (λ state. pure (next_row state)) (started o)))
      ≡ handled report_query_error (and_then (array_of call.memory) o)

  abbrev enough_calls : Outcome Cache (List Bytes) → ℕ
  enough_calls (done rows c) = length rows
  enough_calls _ = 0

  outcome_drained :
      (n : ℕ) (call : Call) (query proto : Bytes) (o : Outcome Cache (List Bytes))
      → IsEnough call.memory
      → enough_calls o ≤ n
      → FinishedIn n call query proto o
  unfolding started next_row
  outcome_drained n call query proto (done [] c) m h = rw (array_of_enough call.memory [] c m) refl
  outcome_drained n call query proto (done (row ∷ rows) c) m h =
      rw
        (
          array_of_enough call.memory (row ∷ rows) c m,
          lt→ltb 0 (suc (length rows)) (omega arith),
          drain-drop n 1 call query proto (row ∷ rows) c (omega arith) (omega arith),
        )
        refl
  outcome_drained n call query proto (thrown e c) m h = after_error (drain n call query proto) e c
  outcome_drained n call query proto stuck m h = refl

  enough_drained :
      (calls : ℕ) (call : Call) (query proto : Bytes) (c : Cache)
      → IsEnough call.memory
      → IsEnough call.vector_memory
      → enough_calls (run_query lib pb u d call query none proto c) < calls
      → drain calls call query proto none c ≡ protobuf_query_array lib pb u d call query proto c
  unfolding drain protobuf_query_multi protobuf_query_array
  enough_drained zero call query proto c m v h = absurd (omega arith)
  enough_drained (suc n) call query proto c m v h =
      ap
        (λ o.
          after (drain n call query proto)
            (handled report_query_error (and_then (λ state. pure (next_row state)) o)))
        (first_call_enough call query proto c m v)
      ∙ outcome_drained n call query proto (run_query lib pb u d call query none proto c) m
          (omega arith)

  -- Where the calls find memory: a finite number of calls of `protobuf_query_multi` is enough, and
  -- any larger number of calls gets, up to the first null, the rows of `protobuf_query_array` for
  -- the same query, message and table, or the same error, and leaves the same cache.
  pub drain-protobuf_query_array :
      (call : Call) (query proto : Bytes) (c : Cache)
      → IsEnough call.memory
      → IsEnough call.vector_memory
      → (enough : ℕ) × ((calls : ℕ)
          → enough < calls
          → drain calls call query proto none c
            ≡ protobuf_query_array lib pb u d call query proto c)
  drain-protobuf_query_array call query proto c m v = (
    enough_calls (run_query lib pb u d call query none proto c),
    λ calls h. enough_drained calls call query proto c m v h,
  )
