-- ===== src/Rows/Submessages.antt =====
-- The scan of the message in a field, by the visitors of a path.
pub mod Rounds
pub mod EntryScan
pub mod Entries
use postgres_protobuf.Common.{
  ℕ, zero, suc, ◌+◌, ◌≤◌, ◌≡◌, refl, sym, ap, ◌∙◌, Bool, true, false, Option, some, List, ◌∷◌,
  length, Bytes,
}
use mathlib.Core.Path.{subst}
use postgres_protobuf.Outcome.{
  done, M, and_then, ◌>>◌, Succeeds, succeeds, out_of_fuel, and_then-Succeeds,
}
use postgres_protobuf.Library.{CodedInputStream, Protobuf}
use postgres_protobuf.Field.{set_size}
use postgres_protobuf.Visitor.{
  Visitor, descend_into_submessage, visit_begin_field, visit_begin_message, visit_end_field,
  visit_popped, visit_read_length_delimited_field,
}
use postgres_protobuf.Visitor.Treatments.{as_submessage, is_message}
use postgres_protobuf.Visitor.Entries.{in_entry}
use postgres_protobuf.Traverser.State.{Traversal, StackElement}
use postgres_protobuf.Traverser.Steps.{
  SubScan, call_begin_message, decrement_depth_and_end_field_and_pop_visitors,
}
use postgres_protobuf.Traverser.{
  scan_tag, scan_field, scan_fields, scan_message, read_submessage, treat,
}
use postgres_protobuf.Rows.Spec.{
  Picker, fields, entry, QueryPath, select, ready, type_of, chain, picks, counted, Tagged,
  Delimited,
}
use postgres_protobuf.Rows.Zipper.{zip, at, element, call-at, keeps_at}
use postgres_protobuf.Rows.Zipper.Ends.{handed_twice_at}
use postgres_protobuf.Rows.Fields.Selector.{message_handed, read_size, begin_handed, scan_tag_of}
use postgres_protobuf.Rows.Fields.Round.{in_scope, before, begins_message, ends, Between}
use postgres_protobuf.Rows.Fields.Contents.{sized, delimited_kept}
use postgres_protobuf.Rows.Fields.Treated.{size_of}
use postgres_protobuf.Rows.Fields.Delimited.{Adds}

module _ (lib : CodedInputStream) (pb : Protobuf) (junk : ℕ) (sub : SubScan) where
  open lib use {Stream, Limit}

  -- The scan of a whole message, from the first visitor of a path that picks its fields on, adds rows.
  abbrev pub Scans :
      (Stream → Type 0)
      → ℕ
      → ℕ
      → Stream
      → List Visitor
      → Picker
      → QueryPath
      → Bool
      → ℕ
      → ℕ
      → ℕ
      → List StackElement
      → ℕ
      → List Bytes
      → List Bytes
      → Type 0
  Scans Rest g fuel s front picker path mode c k kk stack d rows rows' =
      Succeeds
        (λ u st'.
          (c' k' : ℕ) × Between lib pb junk sub Rest front picker path kk stack d c' k' rows' u st')
        (scan_fields lib pb junk sub (scan_field lib pb junk sub g) fuel
          (at lib s front (before picker path mode c k) (chain path rows) kk stack d))

  -- A selector that was popped is ready for the next message.
  popped :
      (field : ℕ) (index : Option ℕ) (path : QueryPath) (mode : Bool) (c k : ℕ)
      → visit_popped (before (fields field index) path mode c k) ≡ ready field index (type_of path)
  unfolding visit_popped
  popped field index path mode c k = refl

  -- What is left of the scan of a submessage once its limit is pushed and the message is begun.
  submessage_fields :
      (g size : ℕ) (limit : Limit) (s s₃ : Stream) (front : List Visitor) (field : ℕ)
      (index : Option ℕ) (path : QueryPath) (rows : List Bytes) (k : ℕ) (stack : List StackElement)
      (d : ℕ)
      → lib.increment_recursion_depth_and_push_limit size s ≡ some (limit, s₃)
      → read_submessage lib pb junk sub (scan_field lib pb junk sub g) (suc g) size (
          at lib s front descend_into_submessage
            (ready field index (type_of path) ∷ chain path rows)
            k
            stack
            d)
        ≡ and_then
            (λ _ st'. done tt (record st' {
              stream = lib.decrement_recursion_depth_and_pop_limit limit st'.stream;
            }))
            (scan_fields lib pb junk sub (scan_field lib pb junk sub g) (suc g) (
              at lib s₃
                (descend_into_submessage ∷ front)
                (before (fields field index) path false 0 0)
                (chain path rows)
                d
                (element (length front) k ∷ stack)
                d))
  unfolding read_submessage scan_message visit_begin_message
  submessage_fields g size limit s s₃ front field index path rows k stack d i =
      let back : List Visitor = ready field index (type_of path) ∷ chain path rows in
      let scan = scan_fields lib pb junk sub (scan_field lib pb junk sub g) (suc g) in
      let finish : Unit {0} → M (Traversal Stream) (Unit {0}) = λ _ st'.
        done tt
          (record st' { stream = lib.decrement_recursion_depth_and_pop_limit limit st'.stream }) in
      rw (i, read_submessage)
        (ap (λ o. and_then finish (and_then (λ _. call_begin_message lib >> scan) o))
            (call-at lib s₃ front descend_into_submessage back k stack d tt
              (λ this v. ((visit_begin_message this v).0, tt)))
          ∙ ap (λ o. and_then finish (and_then (λ _. scan) o))
              (message_handed lib pb junk sub s₃ front descend_into_submessage
                descend_into_submessage (ready field index (type_of path)) _ (chain path rows) k
                stack d refl refl))

  -- The message in a field that is handed to `descend_into_submessage`, `w`, and on to the selector
  -- behind it.
  pub submessage-scan :
      (g size : ℕ) (limit : Limit) (s s₃ : Stream) (front : List Visitor) (field : ℕ)
      (index : Option ℕ) (path : QueryPath) (rows rows' : List Bytes) (k : ℕ)
      (stack : List StackElement) (d : ℕ) (Next : Stream → Type 0)
      → lib.increment_recursion_depth_and_push_limit size s ≡ some (limit, s₃)
      → Scans
          (λ s₄. Next (lib.decrement_recursion_depth_and_pop_limit limit s₄))
          g
          (suc g)
          s₃
          (descend_into_submessage ∷ front)
          (fields field index)
          path
          false
          0
          0
          d
          (element (length front) k ∷ stack)
          d
          rows
          rows'
      → Succeeds
          (λ u st'.
            Next st'.stream
            × (mode : Bool) × (c' k' : ℕ) × (st'
                ≡ at lib st'.stream
                    (descend_into_submessage ∷ front)
                    (before (fields field index) path mode c' k')
                    (chain path rows')
                    d
                    (element (length front) k ∷ stack)
                    d))
          (read_submessage lib pb junk sub (scan_field lib pb junk sub g) (suc g) size (
            at lib s front descend_into_submessage
              (ready field index (type_of path) ∷ chain path rows)
              k
              stack
              d))
  unfolding read_submessage scan_message visit_begin_message
  submessage-scan g size limit s s₃ front field index path rows rows' k stack d Next i h =
      subst (Succeeds _)
        (sym (submessage_fields g size limit s s₃ front field index path rows k stack d i))
        (and_then-Succeeds h (λ u st' p.
          let (c', k', b) = p in
          let (next, mode', q) = b in
          let left = λ (st : Traversal Stream). record st {
            stream = lib.decrement_recursion_depth_and_pop_limit limit st'.stream;
          } in
          succeeds (next, mode', c', k', ap left q)))
