-- ===== src/Traverser/Termination/Run.antt =====
-- A whole run of a traverser ends, the traversers that its map filters start included.
use postgres_protobuf.Common.{ℕ, zero, suc, ◌-◌, ◌≤◌, ◌<◌, ◌≡◌, List, arith, length, Bytes}
use postgres_protobuf.Outcome.{Outcome, Ends, completes, raises, and_then-Ends}
use postgres_protobuf.Library.{CodedInputStream, Protobuf}
use postgres_protobuf.Visitor.{Visitor}
use postgres_protobuf.Field.{FieldInfo}
use postgres_protobuf.Traverser.Progress.{Progress}
use postgres_protobuf.Traverser.State.{Traversal, fresh_traversal}
use postgres_protobuf.Traverser.{run_traverser, visitors_of}
use postgres_protobuf.Traverser.Termination.Invariant.{Inv, push_visitor-Holds, pop_visitor-Holds}
use postgres_protobuf.Traverser.Termination.Scan.{scan_field-Kept}

module _ (lib : CodedInputStream) (p : Progress lib) (pb : Protobuf) (junk n : ℕ) where
  open lib use {Stream}

  visitors_of-Ends :
      {base bound : ℕ} {o : Outcome (Traversal Stream) (Unit {0})}
      → Ends (λ _ st. Inv lib p.remaining base n bound st) o
      → Ends (λ (_ : Unit {0}) vs. length vs ≡ n) (visitors_of lib o)
  visitors_of-Ends (completes i) = completes i.size
  visitors_of-Ends raises = raises

  fresh-Inv :
      (base : ℕ) (contents : Bytes) (vs : List Visitor)
      → base ≤ n
      → length vs ≡ n
      → Inv lib p.remaining base n (length contents) (fresh_traversal (lib.create contents) vs)
  unfolding fresh_traversal
  fresh-Inv base contents vs h l = record {
    size = l;
    from = h;
    here = omega arith;
    below = tt;
    left = p.created contents;
  }

  pub run_traverser-Ends :
      (level first : ℕ) (field : FieldInfo) (contents : Bytes) (vs : List Visitor)
      → first ≤ n
      → n - first < level
      → length vs ≡ n
      → Ends
          (λ (_ : Unit {0}) vs'. length vs' ≡ n)
          (run_traverser lib pb junk level first field contents vs)
  unfolding run_traverser
  run_traverser-Ends zero first field contents vs h l e = absurd (omega arith)
  run_traverser-Ends (suc level) first field contents vs h l e =
      visitors_of-Ends {base = first} {bound = length contents} (
        and_then-Ends
          (and_then-Ends
            (push_visitor-Holds lib p.remaining first n first _ (omega arith)
              (fresh-Inv first contents vs h e))
            λ _ st i.
              scan_field-Kept lib p pb junk first n (run_traverser lib pb junk level)
                (λ first' field' contents' vs' h' l' e'.
                  run_traverser-Ends level first' field' contents' vs' l' (omega arith) e')
                (suc (length contents)) field (length contents) st (omega arith) i)
          λ _ st i. pop_visitor-Holds lib p.remaining first n st i)
