-- ===== src/Errors/Runs.antt =====
-- `Run`: it catches the exception that says that there are enough rows.
use postgres_protobuf.Common.{suc, ◌≡◌, refl, Option, none, some, List, length, Bytes}
use postgres_protobuf.Outcome.{
  Error, bad_proto, bad_query, recursion_depth_exceeded, limit_reached, protobuf_not_found,
  bad_alloc, assertion_failed, pg_error, Outcome,
}
use postgres_protobuf.Result.{Result, err}
use mathlib.Core.Path.{subst}
use postgres_protobuf.Library.{CodedInputStream, Protobuf}
use postgres_protobuf.Field.{Uninitialized, set_size}
use postgres_protobuf.Visitor.{Visitor}
use postgres_protobuf.Query.Compile.{run, caught, finished}
use postgres_protobuf.Errors.{IsScanError, IsRunError, Only, on_done, on_thrown, on_stuck}
use postgres_protobuf.Errors.Results.{OnlyErr, on_ok, on_err, OnlyErr-err}
use postgres_protobuf.Errors.Scan.{run_traverser-Safe}

caught-OnlyErr : (e : Error) (vs : List Visitor) → IsScanError e → OnlyErr IsRunError (caught e vs)
caught-OnlyErr limit_reached vs p = on_ok
caught-OnlyErr (bad_proto message) vs p = on_err tt
caught-OnlyErr (bad_query message) vs p = on_err tt
caught-OnlyErr recursion_depth_exceeded vs p = on_err tt
caught-OnlyErr protobuf_not_found vs p = elim p [ ]
caught-OnlyErr bad_alloc vs p = elim p [ ]
caught-OnlyErr assertion_failed vs p = elim p [ ]
caught-OnlyErr (pg_error message) vs p = elim p [ ]

abbrev pub Ended : Option (Result (List Bytes × List Visitor)) → Type 0
Ended none = Unit
Ended (some r) = OnlyErr IsRunError r

finished-Ended : {o : Outcome (List Visitor) (Unit {0})} → Only IsScanError o → Ended (finished o)
finished-Ended on_done = on_ok
finished-Ended (on_thrown p) = caught-OnlyErr _ _ p
finished-Ended on_stuck = tt

module _ (lib : CodedInputStream) (pb : Protobuf) (u : Uninitialized) (visitors : List Visitor)
    (proto : Bytes) where
  pub run-Ended : Ended (run lib pb u visitors proto)
  unfolding run
  run-Ended = finished-Ended (
      run_traverser-Safe lib pb u.scanned_value (suc (length visitors)) 0
        (record { number = 0; wire_type = 2; value = set_size u.scanned_value (length proto) })
        proto visitors)

  -- A run that throws, of any visitors, on any bytes and over any stream, throws `BadProto`,
  -- `BadQuery` or `RecursionDepthExceeded`: the exception for enough rows never gets out of `Run`.
  pub run-IsRunError : (e : Error) → run lib pb u visitors proto ≡ some (err e) → IsRunError e
  run-IsRunError e h = OnlyErr-err (subst Ended h run-Ended) refl
