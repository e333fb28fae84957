-- ===== src/Traverser/Balance/Messages.antt =====
-- The fields of a message leave the traverser as it was.
use postgres_protobuf.Common.{ℕ, suc, ◌≤◌, ◌<◌, refl, List, [], ◌∷◌, arith, All, length}
use postgres_protobuf.Outcome.{Ends, Ends-Whenever}
use postgres_protobuf.Library.{CodedInputStream, Protobuf}
use postgres_protobuf.Traverser.Progress.{Progress}
use postgres_protobuf.Traverser.State.{Traversal, StackElement}
use postgres_protobuf.Traverser.Steps.{SubScan}
use postgres_protobuf.Traverser.{scan_fields, scan_field, run_traverser}
use postgres_protobuf.Traverser.Termination.Steps.{SubEnds}
use postgres_protobuf.Traverser.Termination.Scan.{scan_fields-Kept, scan_field-Kept}
use postgres_protobuf.Traverser.Termination.Run.{run_traverser-Ends}
use postgres_protobuf.Traverser.Balance.Relations.{IsGrounded, Same}
use postgres_protobuf.Traverser.Balance.Scan.{scan_fields-Stays, scan_field-Rises}

from_zero : (es : List StackElement) → All (λ (e : StackElement). 0 ≤ e.visitor) es
from_zero [] = tt
from_zero (e ∷ es) = (omega arith, from_zero es)

-- The loop of `ScanMessage`, over a stream that only moves forward and with fuel for the bytes that
-- are left: from a state whose current visitor is on top of the stack, pushed at its depth or
-- before, the loop throws, or it ends with the same depth, stack of visitors and current visitor.
pub scan_fields-Same :
    (lib : CodedInputStream) (p : Progress lib) (pb : Protobuf) (junk fuel : ℕ)
    (st : Traversal lib.Stream)
    → p.remaining st.stream < fuel
    → IsGrounded lib st
    → let sub : SubScan = run_traverser lib pb junk (suc (length st.visitors)) in
      Ends
        (λ (_ : Unit {0}) st'. Same lib st st')
        (scan_fields lib pb junk sub (scan_field lib pb junk sub fuel) fuel st)
scan_fields-Same lib p pb junk fuel st h g =
    let n : ℕ = length st.visitors in
    let sub : SubScan = run_traverser lib pb junk (suc n) in
    let ends : SubEnds 0 n sub = λ first field contents vs l m e.
      run_traverser-Ends lib p pb junk n (suc n) first field contents vs m (omega arith) e in
    Ends-Whenever
      (scan_fields-Kept lib p pb junk 0 n sub ends (scan_field lib pb junk sub fuel) fuel
        (scan_field-Kept lib p pb junk 0 n sub ends fuel) fuel (p.remaining st.stream) st
        (omega arith) h
        (record {
          size = refl;
          from = omega arith;
          here = omega arith;
          below = from_zero st.stack;
          left = omega arith;
        }))
      (scan_fields-Stays lib pb junk sub (scan_field lib pb junk sub fuel)
        (scan_field-Rises lib pb junk sub fuel) fuel st g)
