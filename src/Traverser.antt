-- ===== src/Traverser.antt =====
-- `ProtobufTraverser` of querying.cpp: the visitor stack, and the scan of fields and messages.
pub mod State
pub mod Steps
pub mod Progress
pub mod Equations
pub mod Balance
pub mod Termination
use postgres_protobuf.Common.{
  ℕ, zero, suc, ◌+◌, ◌-◌, ◌*◌, ◌/◌, ◌%◌, ◌^◌, ◌≤◌, ◌<◌, ◌≡◌, refl, sym, ap, ◌∙◌, ◌≢◌, ◌⊎◌, inl, inr,
  Bool, true, false, not, ◌&&◌, ◌||◌, Option, none, some, List, [], ◌∷◌, ◌++◌, map, arith, ltb, leb,
  ◌==◌, if◌then◌else◌, Bool-cases, Option-cases, length, get_elem?, set, take, drop, All,
  length-append, length-set, get_elem?-lt, Bytes, text, bytes_eq, bytes_eq_refl, bytes_eq→eq, find,
  to_string, signed_to_string, upper_hex, pad2,
}
use postgres_protobuf.Outcome.{
  Error, bad_proto, bad_query, recursion_depth_exceeded, limit_reached, Outcome, done, thrown,
  stuck, M, and_then, ◌>>=◌, ◌>>◌, pure, throw,
}
use postgres_protobuf.Library.{Protobuf, CodedInputStream}
use postgres_protobuf.Field.{FieldInfo}
use postgres_protobuf.Visitor.{
  Visitor, visit_begin_message, visit_buffered_value, visit_read_string, visit_read_bytes,
  visit_read_primitive, visit_read_length_delimited_field,
}
use postgres_protobuf.Visitor.Treatments.{
  Treatment, skip, buffer, as_string, as_bytes, as_submessage, as_packed_varint, as_packed32,
  as_packed64,
}
use postgres_protobuf.Field.{as_size}
use State.{Traversal, fresh_traversal}
use Steps.{
  SubScan, call, emit, push_visitor, pop_visitor, increment_depth_and_call_begin_field,
  call_begin_message, decrement_depth_and_end_field_and_pop_visitors, read_field_value_or_size,
}

-- `BytesUntilLimit() > 0`; where there is no limit it is -1, here `none`.
abbrev pub is_positive : Option ℕ → Bool
is_positive none = false
is_positive (some n) = ltb 0 n

module _ (lib : CodedInputStream) (pb : Protobuf) (junk : ℕ) (sub : SubScan) where
  open lib use {
    Stream, read_tag, consumed_entire_message, read_string, push_limit, pop_limit,
    increment_recursion_depth_and_push_limit, decrement_recursion_depth_and_pop_limit,
    bytes_until_limit,
  }

  -- One round of the loop of `ScanMessage`, from a tag that is not 0. `junk` is what the
  -- uninitialized union of `FieldInfo field` holds.
  unfoldable pub scan_tag :
      (FieldInfo → M (Traversal Stream) (Unit {0})) → ℕ → M (Traversal Stream) (Unit {0})
  unfolding read_field_value_or_size increment_depth_and_call_begin_field
      decrement_depth_and_end_field_and_pop_visitors
  scan_tag scan tag = do
    field ←
        read_field_value_or_size lib
          (record { number = tag / 2 ^ 3; wire_type = tag % 2 ^ 3; value = junk })
    increment_depth_and_call_begin_field lib field.number field.wire_type
    scan field
    decrement_depth_and_end_field_and_pop_visitors lib sub

  -- The loop of `ScanMessage`: each round reads one byte at least.
  unfoldable pub scan_fields :
      (FieldInfo → M (Traversal Stream) (Unit {0})) → ℕ → M (Traversal Stream) (Unit {0})
  unfolding scan_tag
  scan_fields scan zero st = stuck
  scan_fields scan (suc fuel) st =
      let tag = (read_tag st.stream).0 in
      let st' = record st { stream = (read_tag st.stream).1 } in
      let next = (scan_tag scan tag >> scan_fields scan fuel) st' in
      if tag == 0
      then (if consumed_entire_message st'.stream
          then done tt st'
          else thrown (bad_proto (text "Unexpected tag=0")) st')
      else next

  unfoldable pub scan_message :
      (FieldInfo → M (Traversal Stream) (Unit {0})) → ℕ → M (Traversal Stream) (Unit {0})
  unfolding scan_fields call_begin_message
  scan_message scan fuel = call_begin_message lib >> scan_fields scan fuel

  -- The loop of `ReadPacked`. `f` keeps its value from round to round.
  unfoldable pub packed_elements : ℕ → FieldInfo → M (Traversal Stream) (Unit {0})
  unfolding read_field_value_or_size increment_depth_and_call_begin_field
      decrement_depth_and_end_field_and_pop_visitors emit
  packed_elements zero f st = stuck
  packed_elements (suc fuel) f st =
      let next =
        (do
          f' ← read_field_value_or_size lib f
          increment_depth_and_call_begin_field lib f'.number f'.wire_type
          emit lib (visit_read_primitive pb f')
          decrement_depth_and_end_field_and_pop_visitors lib sub
          packed_elements fuel f')
          st in
      if is_positive (bytes_until_limit st.stream) then next else done tt st

  unfoldable pub read_packed : ℕ → ℕ → ℕ → ℕ → M (Traversal Stream) (Unit {0})
  unfolding packed_elements
  read_packed fuel number size wire_type st =
      let (limit, s) = push_limit size st.stream in
      (packed_elements fuel (record { number = number; wire_type = wire_type; value = junk })
          >> λ st'. done tt (record st' { stream = pop_limit limit st'.stream }))
        (record st { stream = s })

  -- `ReadString`, and the visitor's method on what was read.
  unfoldable pub read_contents :
      Bytes → (Bytes → Visitor → Visitor × Option Error) → ℕ → M (Traversal Stream) (Unit {0})
  unfolding emit
  read_contents message visit size st = elim (read_string size st.stream) [
    | none ↦ thrown (bad_proto message) st
    | some (s, rest) ↦ emit lib (visit s) (record st { stream = rest })
  ]

  unfoldable pub read_submessage :
      (FieldInfo → M (Traversal Stream) (Unit {0})) → ℕ → ℕ → M (Traversal Stream) (Unit {0})
  unfolding scan_message call
  read_submessage scan fuel size st =
      elim (increment_recursion_depth_and_push_limit size st.stream) [
        | none ↦ thrown recursion_depth_exceeded st
        | some (limit, s) ↦
            (call lib tt (λ this v. ((visit_begin_message this v).0, tt))
                >> scan_message scan fuel
                >> λ st'. done tt (record st' {
                  stream = decrement_recursion_depth_and_pop_limit limit st'.stream;
                }))
              (record st { stream = s })
      ]

  -- The `switch` of `ScanField` on the treatment that the visitor asked for.
  unfoldable pub treat :
      (FieldInfo → M (Traversal Stream) (Unit {0}))
      → ℕ
      → FieldInfo
      → Treatment
      → M (Traversal Stream) (Unit {0})
  unfolding read_contents read_submessage read_packed
  treat scan fuel field skip st =
      done tt (record st { stream = lib.skip (as_size field.value) st.stream })
  treat scan fuel field buffer st =
      read_contents (text "failed to fully read length-delimited field") (visit_buffered_value pb)
        (as_size field.value) st
  treat scan fuel field as_string st =
      read_contents (text "failed to fully read string field") visit_read_string
        (as_size field.value) st
  treat scan fuel field as_bytes st =
      read_contents (text "failed to fully read bytes field") visit_read_bytes (as_size field.value)
        st
  treat scan fuel field as_submessage st = read_submessage scan fuel (as_size field.value) st
  treat scan fuel field as_packed_varint st =
      read_packed fuel field.number (as_size field.value) 0 st
  treat scan fuel field as_packed32 st = read_packed fuel field.number (as_size field.value) 5 st
  treat scan fuel field as_packed64 st = read_packed fuel field.number (as_size field.value) 1 st

  -- `ScanField` on a length-delimited field, once the visitor has answered.
  unfoldable pub scan_delimited :
      (FieldInfo → M (Traversal Stream) (Unit {0}))
      → ℕ
      → FieldInfo
      → Treatment × ℕ
      → M (Traversal Stream) (Unit {0})
  unfolding treat push_visitor increment_depth_and_call_begin_field
      decrement_depth_and_end_field_and_pop_visitors
  scan_delimited scan fuel field (treatment, new_visitor) st =
      if new_visitor == st.visitor
      then treat scan fuel field treatment st
      else (do
        push_visitor lib new_visitor
        increment_depth_and_call_begin_field lib field.number field.wire_type
        treat scan fuel field treatment
        decrement_depth_and_end_field_and_pop_visitors lib sub)
          st

  -- `ScanField`. The fuel bounds the nesting of messages and the rounds of each loop.
  unfoldable pub scan_field : ℕ → FieldInfo → M (Traversal Stream) (Unit {0})
  unfolding scan_delimited emit call
  scan_field zero field st = stuck
  scan_field (suc fuel) field st =
      let primitive = emit lib (visit_read_primitive pb field) st in
      let delimited =
        (λ (st : Traversal Stream).
            (call lib (skip, st.visitor) (λ this. visit_read_length_delimited_field pb this field)
                >>= scan_delimited (scan_field fuel) (suc fuel) field)
              st)
          st in
      if field.wire_type == 2 then delimited else primitive

-- What a run leaves of the traverser: the visitors of the query.
module _ (lib : CodedInputStream) where
  abbrev pub visitors_of :
      Outcome (Traversal lib.Stream) (Unit {0}) → Outcome (List Visitor) (Unit {0})
  visitors_of (done a st) = done a st.visitors
  visitors_of (thrown e st) = thrown e st.visitors
  visitors_of stuck = stuck

-- A traverser of its own over `contents`: a new traverser that is given one visitor and scans one
-- field, as `QueryImpl::Run` and `MapFilter::ForwardBufferedValue` do. `level` bounds how many
-- such runs are nested.
module _ (lib : CodedInputStream) (pb : Protobuf) (junk : ℕ) where
  unfoldable pub run_traverser : ℕ → SubScan
  unfolding scan_field push_visitor pop_visitor fresh_traversal
  run_traverser zero first field contents visitors = stuck
  run_traverser (suc level) first field contents visitors = visitors_of lib (
      (push_visitor lib first
          >> scan_field lib pb junk (run_traverser level) (suc (length contents)) field
          >> pop_visitor lib)
        (fresh_traversal (lib.create contents) visitors))
