-- ===== src/Errors/Scan.antt =====
-- `ScanField` and `ScanMessage`, and a whole run of the traverser.
use postgres_protobuf.Common.{
  ℕ, zero, suc, ◌/◌, ◌%◌, ◌^◌, inl, inr, Option, ◌==◌, Option-cases, length, Bytes, text,
}
use postgres_protobuf.Outcome.{Error, Outcome, M}
use postgres_protobuf.Library.{Protobuf, CodedInputStream}
use postgres_protobuf.Field.{FieldInfo, as_size}
use postgres_protobuf.Visitor.{
  Visitor, visit_begin_message, visit_buffered_value, visit_read_string, visit_read_bytes,
  visit_read_primitive, visit_read_length_delimited_field,
}
use postgres_protobuf.Visitor.Treatments.{
  Treatment, skip, buffer, as_string, as_bytes, as_submessage, as_packed_varint, as_packed32,
  as_packed64,
}
use postgres_protobuf.Traverser.{
  is_positive, scan_tag, scan_fields, scan_message, packed_elements, read_packed, read_contents,
  read_submessage, treat, scan_delimited, scan_field, visitors_of, run_traverser,
}
use postgres_protobuf.Traverser.State.{Traversal, fresh_traversal}
use postgres_protobuf.Traverser.Steps.{SubScan}
use postgres_protobuf.Errors.{
  IsScanError, Fine, Only, on_done, on_thrown, on_stuck, Safe, and_then-Only, bind-Safe, if-Only,
}
use postgres_protobuf.Errors.Visitors.{
  visit_read_primitive-Fine, visit_read_string-Fine, visit_read_bytes-Fine,
  visit_buffered_value-Fine,
}
use postgres_protobuf.Errors.Steps.{
  call-Safe, emit-Only, push_visitor-Safe, pop_visitor-Safe, increment-Safe,
  call_begin_message-Safe, read_field-Safe, decrement-Safe,
}

module _ (lib : CodedInputStream) (pb : Protobuf) (junk : ℕ) (sub : SubScan)
    (h : (i : ℕ) (f : FieldInfo) (s : Bytes) → Safe (sub i f s)) where
  open lib use {
    Stream, read_tag, consumed_entire_message, read_string, push_limit, pop_limit,
    increment_recursion_depth_and_push_limit, decrement_recursion_depth_and_pop_limit,
    bytes_until_limit,
  }

  scan_tag-Safe :
      (scan : FieldInfo → M (Traversal Stream) (Unit {0}))
      → ((f : FieldInfo) → Safe (scan f))
      → (tag : ℕ) → Safe (scan_tag lib pb junk sub scan tag)
  unfolding scan_tag
  scan_tag-Safe scan g tag =
      bind-Safe
        (read_field-Safe lib
          (record { number = tag / 2 ^ 3; wire_type = tag % 2 ^ 3; value = junk }))
        λ field.
          bind-Safe (increment-Safe lib field.number field.wire_type)
            λ _. bind-Safe (g field) λ _. decrement-Safe lib sub h

  scan_fields-Safe :
      (scan : FieldInfo → M (Traversal Stream) (Unit {0}))
      → ((f : FieldInfo) → Safe (scan f))
      → (fuel : ℕ) → Safe (scan_fields lib pb junk sub scan fuel)
  unfolding scan_fields
  scan_fields-Safe scan g zero st = on_stuck
  scan_fields-Safe scan g (suc fuel) st =
      if-Only ((read_tag st.stream).0 == 0)
        (if-Only (consumed_entire_message (read_tag st.stream).1) on_done (on_thrown tt))
        (bind-Safe (scan_tag-Safe scan g (read_tag st.stream).0) (λ _. scan_fields-Safe scan g fuel)
          (record st { stream = (read_tag st.stream).1 }))

  scan_message-Safe :
      (scan : FieldInfo → M (Traversal Stream) (Unit {0}))
      → ((f : FieldInfo) → Safe (scan f))
      → (fuel : ℕ) → Safe (scan_message lib pb junk sub scan fuel)
  unfolding scan_message
  scan_message-Safe scan g fuel =
      bind-Safe (call_begin_message-Safe lib) (λ _. scan_fields-Safe scan g fuel)

  packed_elements-Safe : (fuel : ℕ) (f : FieldInfo) → Safe (packed_elements lib pb junk sub fuel f)
  unfolding packed_elements
  packed_elements-Safe zero f st = on_stuck
  packed_elements-Safe (suc fuel) f st =
      if-Only (is_positive (bytes_until_limit st.stream))
        (bind-Safe (read_field-Safe lib f)
          (λ f'. bind-Safe (increment-Safe lib f'.number f'.wire_type) λ _.
            bind-Safe (emit-Only lib (visit_read_primitive pb f') (visit_read_primitive-Fine pb f'))
              λ _. bind-Safe (decrement-Safe lib sub h) λ _. packed_elements-Safe fuel f')
          st)
        on_done

  read_packed-Safe :
      (fuel number size wire_type : ℕ)
      → Safe (read_packed lib pb junk sub fuel number size wire_type)
  unfolding read_packed
  read_packed-Safe fuel number size wire_type st =
      and_then-Only
        (packed_elements-Safe fuel (record { number = number; wire_type = wire_type; value = junk })
          (record st { stream = (push_limit size st.stream).1 }))
        (λ _ st'. on_done)

  read_contents-Safe :
      (message : Bytes) (visit : Bytes → Visitor → Visitor × Option Error)
      → ((s : Bytes) (v : Visitor) → Fine (visit s v).1)
      → (size : ℕ) → Safe (read_contents lib pb junk sub message visit size)
  unfolding read_contents
  read_contents-Safe message visit g size st = elim (Option-cases (read_string size st.stream)) [
    | inl e ↦ rw (e, read_contents) (on_thrown tt)
    | inr ((s, rest), e) ↦
        rw (e, read_contents) (emit-Only lib (visit s) (g s) (record st { stream = rest }))
  ]

  read_submessage-Safe :
      (scan : FieldInfo → M (Traversal Stream) (Unit {0}))
      → ((f : FieldInfo) → Safe (scan f))
      → (fuel size : ℕ) → Safe (read_submessage lib pb junk sub scan fuel size)
  unfolding read_submessage
  read_submessage-Safe scan g fuel size st =
      elim (Option-cases (increment_recursion_depth_and_push_limit size st.stream)) [
        | inl e ↦ rw (e, read_submessage) (on_thrown tt)
        | inr ((limit, s), e) ↦
            rw (e, read_submessage)
              (and_then-Only
                (bind-Safe (call-Safe lib tt (λ this v. ((visit_begin_message this v).0, tt)))
                  (λ _. scan_message-Safe scan g fuel) (record st { stream = s }))
                (λ _ st'. on_done))
      ]

  treat-Safe :
      (scan : FieldInfo → M (Traversal Stream) (Unit {0}))
      → ((f : FieldInfo) → Safe (scan f))
      → (fuel : ℕ) (field : FieldInfo) (t : Treatment)
      → Safe (treat lib pb junk sub scan fuel field t)
  unfolding treat
  treat-Safe scan g fuel field skip st = on_done
  treat-Safe scan g fuel field buffer st =
      read_contents-Safe (text "failed to fully read length-delimited field")
        (visit_buffered_value pb) (visit_buffered_value-Fine pb) (as_size field.value) st
  treat-Safe scan g fuel field as_string st =
      read_contents-Safe (text "failed to fully read string field") visit_read_string
        visit_read_string-Fine (as_size field.value) st
  treat-Safe scan g fuel field as_bytes st =
      read_contents-Safe (text "failed to fully read bytes field") visit_read_bytes
        visit_read_bytes-Fine (as_size field.value) st
  treat-Safe scan g fuel field as_submessage st =
      read_submessage-Safe scan g fuel (as_size field.value) st
  treat-Safe scan g fuel field as_packed_varint st =
      read_packed-Safe fuel field.number (as_size field.value) 0 st
  treat-Safe scan g fuel field as_packed32 st =
      read_packed-Safe fuel field.number (as_size field.value) 5 st
  treat-Safe scan g fuel field as_packed64 st =
      read_packed-Safe fuel field.number (as_size field.value) 1 st

  scan_delimited-Safe :
      (scan : FieldInfo → M (Traversal Stream) (Unit {0}))
      → ((f : FieldInfo) → Safe (scan f))
      → (fuel : ℕ) (field : FieldInfo) (answer : Treatment × ℕ)
      → Safe (scan_delimited lib pb junk sub scan fuel field answer)
  unfolding scan_delimited
  scan_delimited-Safe scan g fuel field (t, v) st =
      if-Only (v == st.visitor) (treat-Safe scan g fuel field t st) (
        bind-Safe (push_visitor-Safe lib v)
          (λ _.
            bind-Safe (increment-Safe lib field.number field.wire_type)
              λ _. bind-Safe (treat-Safe scan g fuel field t) λ _. decrement-Safe lib sub h)
          st)

  pub scan_field-Safe :
      (fuel : ℕ) (field : FieldInfo) → Safe (scan_field lib pb junk sub fuel field)
  unfolding scan_field
  scan_field-Safe zero field st = on_stuck
  scan_field-Safe (suc fuel) field st =
      if-Only (field.wire_type == 2)
        (bind-Safe
          (call-Safe lib (skip, st.visitor)
            (λ this. visit_read_length_delimited_field pb this field))
          (scan_delimited-Safe (scan_field lib pb junk sub fuel) (scan_field-Safe fuel) (suc fuel)
            field)
          st)
        (emit-Only lib (visit_read_primitive pb field) (visit_read_primitive-Fine pb field) st)

module _ (lib : CodedInputStream) (pb : Protobuf) (junk : ℕ) where
  visitors_of-Only :
      {o : Outcome (Traversal lib.Stream) (Unit {0})}
      → Only IsScanError o
      → Only IsScanError (visitors_of lib o)
  visitors_of-Only on_done = on_done
  visitors_of-Only (on_thrown e) = on_thrown e
  visitors_of-Only on_stuck = on_stuck

  pub run_traverser-Safe :
      (level first : ℕ) (field : FieldInfo) (contents : Bytes)
      → Safe (run_traverser lib pb junk level first field contents)
  unfolding run_traverser
  run_traverser-Safe zero first field contents visitors = on_stuck
  run_traverser-Safe (suc level) first field contents visitors = visitors_of-Only (
      bind-Safe
        (bind-Safe (push_visitor-Safe lib first) λ _.
          scan_field-Safe lib pb junk (run_traverser lib pb junk level) (run_traverser-Safe level)
            (suc (length contents)) field)
        (λ _. pop_visitor-Safe lib) (fresh_traversal (lib.create contents) visitors))
