-- ===== src/Rows/Submessages/EntryScan.antt =====
-- The scan of the entry of a map by the visitor that has begun it.
use postgres_protobuf.Common.{
  ℕ, suc, ◌≡◌, refl, sym, ap, ◌∙◌, Bool, false, some, List, ◌∷◌, length, Bytes,
}
use mathlib.Core.Path.{subst}
use postgres_protobuf.Outcome.{done, M, and_then, ◌>>◌, Succeeds, succeeds, and_then-Succeeds}
use postgres_protobuf.Library.{CodedInputStream, Protobuf}
use postgres_protobuf.Visitor.{Visitor, visit_begin_message}
use postgres_protobuf.Visitor.Entries.{in_entry}
use postgres_protobuf.Traverser.State.{Traversal, StackElement}
use postgres_protobuf.Traverser.Steps.{SubScan, call_begin_message}
use postgres_protobuf.Traverser.{scan_field, scan_fields, scan_message, read_submessage}
use postgres_protobuf.Rows.Spec.{entry, QueryPath, type_of, chain}
use postgres_protobuf.Rows.Zipper.{zip, at, call-at, keeps_at}
use postgres_protobuf.Rows.Fields.Round.{in_scope}
use postgres_protobuf.Rows.Submessages.{Scans}

module _ (lib : CodedInputStream) (pb : Protobuf) (junk : ℕ) (sub : SubScan) where
  open lib use {Stream, Limit}

  message_kept :
      (s : Stream) (front : List Visitor) (v : Visitor) (back : List Visitor) (k : ℕ)
      (stack : List StackElement) (d : ℕ)
      → visit_begin_message (length front) v ≡ (v, length front)
      → call_begin_message lib (at lib s front v back k stack d)
        ≡ done tt (at lib s front v back k stack d)
  unfolding call_begin_message
  message_kept s front v back k stack d e =
      keeps_at lib s front v back k stack d (length (zip front (v ∷ back))) visit_begin_message v e

  -- The entry of a map, which the visitor that has begun it keeps.
  entry_fields :
      (g size : ℕ) (limit : Limit) (s s₃ : Stream) (front : List Visitor) (want_keys : Bool)
      (path : QueryPath) (rows : List Bytes) (k : ℕ) (stack : List StackElement) (d : ℕ)
      → lib.increment_recursion_depth_and_push_limit size s ≡ some (limit, s₃)
      → read_submessage lib pb junk sub
          (scan_field lib pb junk sub g)
          (suc g)
          size
          (at lib s front (in_scope want_keys (type_of path) in_entry) (chain path rows) k stack d)
        ≡ and_then
            (λ _ st'. done tt (record st' {
              stream = lib.decrement_recursion_depth_and_pop_limit limit st'.stream;
            }))
            (scan_fields lib pb junk sub (scan_field lib pb junk sub g) (suc g) (
              at lib s₃ front
                (in_scope want_keys (type_of path) in_entry)
                (chain path rows)
                k
                stack
                d))
  unfolding read_submessage scan_message visit_begin_message
  entry_fields g size limit s s₃ front want_keys path rows k stack d i =
      let v : Visitor = in_scope want_keys (type_of path) in_entry in
      let scan = scan_fields lib pb junk sub (scan_field lib pb junk sub g) (suc g) in
      let finish : Unit {0} → M (Traversal Stream) (Unit {0}) = λ _ st'.
        done tt
          (record st' { stream = lib.decrement_recursion_depth_and_pop_limit limit st'.stream }) in
      rw (i, read_submessage)
        (ap (λ o. and_then finish (and_then (λ _. call_begin_message lib >> scan) o))
            (call-at lib s₃ front v (chain path rows) k stack d tt
              (λ this v. ((visit_begin_message this v).0, tt)))
          ∙ ap (λ o. and_then finish (and_then (λ _. scan) o))
              (message_kept s₃ front v (chain path rows) k stack d refl))

  pub entry-scan :
      (g size : ℕ) (limit : Limit) (s s₃ : Stream) (front : List Visitor) (want_keys : Bool)
      (path : QueryPath) (rows rows' : List Bytes) (k : ℕ) (stack : List StackElement) (d : ℕ)
      (Next : Stream → Type 0)
      → lib.increment_recursion_depth_and_push_limit size s ≡ some (limit, s₃)
      → Scans lib pb junk sub
          (λ s₄. Next (lib.decrement_recursion_depth_and_pop_limit limit s₄))
          g
          (suc g)
          s₃
          front
          (entry want_keys)
          path
          false
          0
          0
          k
          stack
          d
          rows
          rows'
      → Succeeds
          (λ u st'.
            Next st'.stream
            × (st'
                ≡ at lib st'.stream front
                    (in_scope want_keys (type_of path) in_entry)
                    (chain path rows')
                    k
                    stack
                    d))
          (read_submessage lib pb junk sub (scan_field lib pb junk sub g) (suc g) size (
            at lib s front
              (in_scope want_keys (type_of path) in_entry)
              (chain path rows)
              k
              stack
              d))
  entry-scan g size limit s s₃ front want_keys path rows rows' k stack d Next i h =
      subst (Succeeds _)
        (sym (entry_fields g size limit s s₃ front want_keys path rows k stack d i))
        (and_then-Succeeds h (λ u st' p.
          let (c', k', b) = p in
          let (next, mode', q) = b in
          let left = λ (st : Traversal Stream). record st {
            stream = lib.decrement_recursion_depth_and_pop_limit limit st'.stream;
          } in
          succeeds (next, ap left q)))
