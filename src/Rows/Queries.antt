-- ===== src/Rows/Queries.antt =====
-- The rows of a query: `Run` against the rows that the query's path selects.
use postgres_protobuf.Common.{
  ℕ, suc, ◌^◌, ◌<◌, ◌≡◌, refl, sym, ap, ◌∙◌, Bool, false, Option, some, List, [], ◌∷◌, arith,
  length, Bytes,
}
use mathlib.Core.Path.{subst}
use postgres_protobuf.Outcome.{Outcome, and_then, Succeeds, succeeds, out_of_fuel}
use postgres_protobuf.Result.{Result, ok}
use postgres_protobuf.Library.{CodedInputStream, Protobuf}
use postgres_protobuf.Field.{Uninitialized, set_size}
use postgres_protobuf.Visitor.{
  Visitor, descend_into_submessage, all_map_entries, visit_popped,
  visit_read_length_delimited_field,
}
use postgres_protobuf.Visitor.Treatments.{as_submessage}
use postgres_protobuf.Visitor.Entries.{new_all_map_entries}
use postgres_protobuf.Traverser.State.{Traversal, fresh_traversal}
use postgres_protobuf.Traverser.Steps.{SubScan, push_visitor, pop_visitor}
use postgres_protobuf.Traverser.{scan_field, read_submessage, treat, run_traverser, visitors_of}
use postgres_protobuf.Traverser.Progress.{Progress}
use postgres_protobuf.Traverser.Equations.{as_size-set_size}
use postgres_protobuf.Query.Compile.{run, finished, emitted, clear_rows}
use postgres_protobuf.Query.Totality.{run-total}
use postgres_protobuf.Rows.Spec.{
  Message, QueryPath, fields, entry, pick, value, select, ready, type_of, chain, Decodes, rows_from,
}
use postgres_protobuf.Rows.Zipper.{at, element, pop_at}
use postgres_protobuf.Rows.Fields.Shown.{emitted_shown, cleared_shown}
use postgres_protobuf.Rows.Fields.Round.{before}
use postgres_protobuf.Rows.Fields.Contents.{sized, delimited_kept}
use postgres_protobuf.Rows.Submessages.{submessage-scan}
use postgres_protobuf.Rows.Messages.{scan_fields-Scans}

-- The emitter stands behind the visitors that select.
emitted_behind :
    (v : Visitor) (path : QueryPath) (rows : List Bytes)
    → emitted (v ∷ chain path rows) ≡ emitted (chain path rows)
unfolding emitted
emitted_behind v (value shown) rows = refl
emitted_behind v (select field index path) rows = refl
emitted_behind v (pick (entry want_keys) path) rows = refl

emitted-chain : (path : QueryPath) (rows : List Bytes) → emitted (chain path rows) ≡ rows
unfolding emitted
emitted-chain (value shown) rows = emitted_shown shown rows
emitted-chain (select field index path) rows =
    emitted_behind (ready field index (type_of path)) path rows ∙ emitted-chain path rows
emitted-chain (pick (entry want_keys) path) rows =
    emitted_behind (all_map_entries (new_all_map_entries want_keys (type_of path))) path rows
    ∙ emitted-chain path rows

clear_rows_behind :
    (v : Visitor) (path : QueryPath) (rows : List Bytes)
    → clear_rows (v ∷ chain path rows) ≡ v ∷ clear_rows (chain path rows)
unfolding clear_rows
clear_rows_behind v (value shown) rows = refl
clear_rows_behind v (select field index path) rows = refl
clear_rows_behind v (pick (entry want_keys) path) rows = refl

clear_rows-chain :
    (path : QueryPath) (rows : List Bytes) → clear_rows (chain path rows) ≡ chain path []
unfolding clear_rows
clear_rows-chain (value shown) rows = cleared_shown shown rows
clear_rows-chain (select field index path) rows =
    ap (λ vs. descend_into_submessage ∷ vs)
      (clear_rows_behind (ready field index (type_of path)) path rows
        ∙ ap (λ vs. ready field index (type_of path) ∷ vs) (clear_rows-chain path rows))
clear_rows-chain (pick (entry want_keys) path) rows =
    clear_rows_behind (all_map_entries (new_all_map_entries want_keys (type_of path))) path rows
    ∙ ap (λ vs. all_map_entries (new_all_map_entries want_keys (type_of path)) ∷ vs)
        (clear_rows-chain path rows)

module _ (lib : CodedInputStream) (pb : Protobuf) (junk : ℕ) (sub : SubScan) (field : ℕ)
    (index : Option ℕ) (path : QueryPath) (message : Message) (size g : ℕ) (limit : lib.Limit)
    (s₀ s : lib.Stream) (out : List Bytes) where
  abbrev root : lib.Stream → List Bytes → Traversal lib.Stream
  root stream rows =
      at lib stream [] descend_into_submessage (ready field index (type_of path) ∷ chain path rows)
        0 [] 0

  -- The states after the scan of the message.
  abbrev Scanned : Unit {0} → Traversal lib.Stream → Type 0
  Scanned u st' =
      Unit {0}
      × (mode : Bool) × (c k : ℕ) × (st'
          ≡ at lib st'.stream (descend_into_submessage ∷ [])
              (before (fields field index) path mode c k) (chain path out) 0 (element 0 0 ∷ []) 0)

  pops :
      {o : Outcome (Traversal lib.Stream) (Unit {0})}
      → Succeeds Scanned o
      → Succeeds
          (λ u vs. vs ≡ chain (select field index path) out)
          (visitors_of lib (and_then (λ _. pop_visitor lib) o))
  unfolding visit_popped
  pops out_of_fuel = out_of_fuel
  pops (succeeds {s = st'} z) =
      let (any, mode, c, k, q) = z in
      subst (λ r. Succeeds (λ u vs. vs ≡ chain (select field index path) out) (visitors_of lib r))
        (sym (
          ap (pop_visitor lib) q
          ∙ pop_at lib st'.stream [] descend_into_submessage
              (before (fields field index) path mode c k) (chain path out) 0 0 [] 0))
        (succeeds refl)

  root_scan :
      size < 2 ^ 31
      → lib.increment_recursion_depth_and_push_limit size s₀ ≡ some (limit, s)
      → Decodes lib message (λ s'. Unit {0}) s
      → rows_from pb junk (fields field index) path 0 message ≡ some out
      → Succeeds
          (λ u vs. vs ≡ chain (select field index path) out)
          (visitors_of lib (
            and_then
              (λ _. pop_visitor lib)
              (scan_field lib pb junk sub (suc g) (sized 0 (set_size junk size)) (root s₀ []))))
  unfolding treat visit_read_length_delimited_field
  root_scan h i m e =
      let back : List Visitor = ready field index (type_of path) ∷ chain path [] in
      pops (
        subst (Succeeds Scanned)
          (sym (
            delimited_kept lib pb junk sub g 0 (set_size junk size) s₀ [] descend_into_submessage
              back 0 [] 0 as_submessage refl
            ∙ ap
                (λ n.
                  read_submessage lib pb junk sub (scan_field lib pb junk sub g) (suc g) n
                    (root s₀ []))
                (as_size-set_size junk size (omega (arith, h)))))
          (submessage-scan lib pb junk sub g size limit s₀ s [] field index path [] out 0 [] 0
            (λ s'. Unit {0}) i
            (scan_fields-Scans lib pb junk sub message (λ s'. Unit {0}) g (suc g) s
              (descend_into_submessage ∷ []) (fields field index) path false 0 0 0
              (element 0 0 ∷ []) 0 [] out m e (omega arith))))

-- A run that ends, and ends in the visitors of the path if it succeeds.
finishes :
    (path : QueryPath) (out : List Bytes) (o : Outcome (List Visitor) (Unit {0}))
    (r : Result (List Bytes × List Visitor))
    → Succeeds (λ u vs. vs ≡ chain path out) o
    → finished o ≡ some r
    → finished o ≡ some (ok (out, chain path []))
finishes path out _ r (succeeds q) e =
    ap (λ vs. some (ok (emitted vs, clear_rows vs))) q
    ∙ ap (λ rows. some (ok (rows, clear_rows (chain path out)))) (emitted-chain path out)
    ∙ ap (λ vs. some (ok (out, vs))) (clear_rows-chain path out)
finishes path out _ r out_of_fuel e = cc

-- Over a stream that only moves forward and that decodes the bytes, fewer than 2 ^ 31, as a message,
-- for a path of field selectors that are not packed, with an index or none, and of selectors of all
-- keys or all values of a map, with an emitter at its end, where all selected fields fit the path:
-- the run of the path's visitors gives the rows that the path selects from the message, and
-- leaves the visitors ready for the next run.
pub run-rows_from :
    (lib : CodedInputStream) (pb : Protobuf) (u : Uninitialized) (field : ℕ) (index : Option ℕ)
    (path : QueryPath) (message : Message) (proto : Bytes) (limit : lib.Limit) (s : lib.Stream)
    (out : List Bytes)
    → Progress lib
    → length proto < 2 ^ 31
    → lib.increment_recursion_depth_and_push_limit (length proto) (lib.create proto)
      ≡ some (limit, s)
    → Decodes lib message (λ s'. Unit {0}) s
    → rows_from pb u.scanned_value (fields field index) path 0 message ≡ some out
    → run lib pb u (chain (select field index path) []) proto
      ≡ some (ok (out, chain (select field index path) []))
unfolding run run_traverser push_visitor fresh_traversal
run-rows_from lib pb u field index path message proto limit s out p h i m e =
    let visitors : List Visitor = chain (select field index path) [] in
    let (r, q) = run-total lib pb u visitors proto p in
    finishes (select field index path) out _ r
      (root_scan lib pb u.scanned_value (run_traverser lib pb u.scanned_value (length visitors))
        field index path message (length proto) (length proto) limit (lib.create proto) s out h i m
        e)
      q
