-- ===== src/Query/Totality.antt =====
-- Every run of a query comes to an end.
use postgres_protobuf.Common.{suc, ◌≡◌, refl, some, List, arith, length, Bytes}
use postgres_protobuf.Outcome.{Outcome, Ends, completes, raises}
use postgres_protobuf.Result.{Result}
use postgres_protobuf.Library.{CodedInputStream, Protobuf}
use postgres_protobuf.Field.{Uninitialized, set_size}
use postgres_protobuf.Visitor.{Visitor}
use postgres_protobuf.Traverser.Progress.{Progress}
use postgres_protobuf.Traverser.Termination.Run.{run_traverser-Ends}
use postgres_protobuf.Query.Compile.{run, finished}

finished-Ends :
    {P : Unit {0} → List Visitor → Type 0} {o : Outcome (List Visitor) (Unit {0})}
    → Ends P o
    → (r : Result (List Bytes × List Visitor)) × (finished o ≡ some r)
finished-Ends (completes h) = (_, refl)
finished-Ends raises = (_, refl)

-- Over a stream that only moves forward, a run of any visitors on any bytes ends, with rows or with
-- an exception: the loops of the scan, the nesting of messages, the loops over visitors and the
-- traversers that map filters start inside one another all come to an end.
pub run-total :
    (lib : CodedInputStream) (pb : Protobuf) (u : Uninitialized) (visitors : List Visitor)
    (proto : Bytes)
    → Progress lib
    → (r : Result (List Bytes × List Visitor)) × (run lib pb u visitors proto ≡ some r)
unfolding run
run-total lib pb u visitors proto p = finished-Ends (
    run_traverser-Ends lib p pb u.scanned_value (length visitors) (suc (length visitors)) 0
      (record { number = 0; wire_type = 2; value = set_size u.scanned_value (length proto) }) proto
      visitors (omega arith) (omega arith) refl)
