-- ===== src/Sql/Multi.antt =====
-- `protobuf_query_multi` of postgres_protobuf.cpp: a set-returning function, which Postgres calls
-- once for each row and once more.
pub mod Drain
use postgres_protobuf.Common.{
  ℕ, zero, suc, ◌+◌, ◌-◌, ◌*◌, ◌/◌, ◌%◌, ◌^◌, ◌≤◌, ◌<◌, ◌≡◌, refl, sym, ap, ◌∙◌, ◌≢◌, ◌⊎◌, inl, inr,
  Bool, true, false, not, ◌&&◌, ◌||◌, Option, none, some, List, [], ◌∷◌, ◌++◌, map, arith, ltb, leb,
  eq→==, ne→==, ◌==◌, if◌then◌else◌, Bool-cases, Option-cases, length, get_elem?, set, take, drop,
  All, length-append, length-set, get_elem?-lt, Bytes, codes, text, bytes_eq, bytes_eq_refl,
  bytes_eq→eq, find, find_from, substr, to_string, signed_to_string, upper_hex, pad2,
  upper_hex_glyph, decimal_glyph, take-length, drop-length, drop-length_cons, Without, find-append,
  find_from-append, cons-ne-nil,
}
use postgres_protobuf.Outcome.{bad_alloc, M, ◌>>=◌, ◌>>◌, pure, throw}
use postgres_protobuf.Library.{CodedInputStream, Protobuf}
use postgres_protobuf.Field.{Uninitialized}
use postgres_protobuf.Visitor.{Visitor}
use postgres_protobuf.Postgres.{Answer}
use postgres_protobuf.DescriptorDb.Cache.{Descriptors, Cache}
use postgres_protobuf.Query.Compile.{run}
use postgres_protobuf.Sql.{
  Call, handled, report_query_error, palloc0_or_throw_bad_alloc, copy_to_varlena, new_query,
  rows_of,
}

-- `funcctx->user_fctx`. Between the calls it is kept in `fcinfo`, which holds nothing before the
-- first call and after `SRF_RETURN_DONE`.
pub record MultiQueryState : Type 0 where
  pub rows : List Bytes
  pub index : ℕ

-- `state->rows.push_back(p)` for a copy of each row, after the rows that are there.
unfoldable pub push_rows : Call → List Bytes → List Bytes → M Cache (List Bytes)
unfolding copy_to_varlena
push_rows call rows [] = pure rows
push_rows call rows (row ∷ more) = do
  p ← copy_to_varlena call.memory row
  if call.vector_memory (length rows) then pure tt else throw bad_alloc
  push_rows call (rows ++ p ∷ []) more

-- A row and the state for the next call, or the end.
abbrev pub Next : Type 0
Next = Option Bytes × Option MultiQueryState

unfoldable pub next_row : MultiQueryState → Next
next_row state =
    if ltb state.index (length state.rows)
    then (get_elem? state.rows state.index, some (record state { index = state.index + 1 }))
    else (none, none)

module _ (lib : CodedInputStream) (pb : Protobuf) (u : Uninitialized) (d : Descriptors) where
  -- A `MultiQueryState` takes 32 bytes: a vector and an index.
  unfoldable pub first_call : Call → Bytes → Bytes → M Cache MultiQueryState
  unfolding new_query palloc0_or_throw_bad_alloc run push_rows
  first_call call query proto = do
    visitors ← new_query lib pb u d call query none
    palloc0_or_throw_bad_alloc call.memory 32
    result ← rows_of (run lib pb u visitors proto)
    rows ← push_rows call [] result
    pure (record { rows = rows; index = 0 })

  abbrev pub state_of : Option MultiQueryState → M Cache MultiQueryState → M Cache MultiQueryState
  state_of none first = first
  state_of (some state) first = pure state

  unfoldable pub protobuf_query_multi :
      Call → Bytes → Bytes → Option MultiQueryState → Cache → Option (Answer Next × Cache)
  unfolding first_call next_row report_query_error
  protobuf_query_multi call query proto fcinfo c =
      handled report_query_error
        ((state_of fcinfo (first_call call query proto) >>= λ state. pure (next_row state)) c)
