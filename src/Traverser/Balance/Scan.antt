-- ===== src/Traverser/Balance/Scan.antt =====
-- How the scan of fields and messages changes the traverser's depth and stack of visitors.
use postgres_protobuf.Common.{
  ℕ, zero, suc, ◌/◌, ◌%◌, ◌^◌, refl, inl, inr, Option, arith, ◌==◌, Option-cases, Bytes,
}
use postgres_protobuf.Outcome.{
  Error, Outcome, M, ◌>>◌, Whenever, on_done, on_thrown, on_stuck, and_then-Whenever,
  Whenever-weaken, if-Whenever,
}
use postgres_protobuf.Library.{CodedInputStream, Protobuf}
use postgres_protobuf.Field.{FieldInfo}
use postgres_protobuf.Visitor.{
  Visitor, visit_read_primitive, visit_begin_message, visit_read_length_delimited_field,
}
use postgres_protobuf.Visitor.Treatments.{
  Treatment, skip, buffer, as_string, as_bytes, as_submessage, as_packed_varint, as_packed32,
  as_packed64,
}
use postgres_protobuf.Traverser.State.{Traversal}
use postgres_protobuf.Traverser.Steps.{
  SubScan, emit, increment_depth_and_call_begin_field,
  decrement_depth_and_end_field_and_pop_visitors,
}
use postgres_protobuf.Traverser.{
  scan_tag, scan_fields, scan_message, packed_elements, read_packed, read_contents, read_submessage,
  treat, scan_delimited, scan_field, is_positive,
}
use postgres_protobuf.Traverser.Balance.Relations.{
  Same, Above, IsGrounded, Same-refl, Same-trans, Same-Above, Above-trans, Same-IsGrounded,
  Above-IsGrounded,
}
use postgres_protobuf.Traverser.Balance.Reads.{read_field-Stays}
use postgres_protobuf.Traverser.Balance.Steps.{
  Stays, Rises, Stays-then, Rises-then, Stays-Rises, call-Stays, emit-Stays, push_visitor-Rises,
  call_begin_message-Rises, deeper, increment-Rises, decrement-Back,
}

module _ (lib : CodedInputStream) (pb : Protobuf) (junk : ℕ) (sub : SubScan) where
  open lib use {Stream}

  -- A scan that leaves what was on the stack in place, and the depth as it was.
  abbrev ScanRises : (FieldInfo → M (Traversal Stream) (Unit {0})) → Type 0
  ScanRises scan =
      (field : FieldInfo) (st : Traversal Stream) → IsGrounded lib st → Rises lib st (scan field st)

  moved : (st : Traversal Stream) (s : Stream) → Same lib st (record st { stream = s })
  moved st s = record { depth = refl; stack = refl; visitor = refl }

  Same-before :
      {A : Type 0} {a b : Traversal Stream} {o : Outcome (Traversal Stream) A}
      → Same lib a b
      → Stays lib b o
      → Stays lib a o
  Same-before s h = Whenever-weaken h λ _ st t. Same-trans lib s t

  Rises-before :
      {A : Type 0} {a b : Traversal Stream} {o : Outcome (Traversal Stream) A}
      → Same lib a b
      → Rises lib b o
      → Rises lib a o
  Rises-before s h = Whenever-weaken h λ _ st t. Same-Above lib s t

  deeper-IsGrounded : (st : Traversal Stream) → IsGrounded lib st → IsGrounded lib (deeper lib st)
  deeper-IsGrounded st g = record {
    top = g.top;
    rest = g.rest;
    stack = g.stack;
    visitor = g.visitor;
    added = omega (arith, g.added);
  }

  -- A field is begun, something is done one level deeper, and then comes what ends the field.
  in_field :
      (number wire_type : ℕ) (inside after : M (Traversal Stream) (Unit {0}))
      (st : Traversal Stream)
      → IsGrounded lib st
      → ((st' : Traversal Stream) → IsGrounded lib st' → Rises lib st' (inside st'))
      → ((st' : Traversal Stream)
          → Above lib (deeper lib st) st'
          → Whenever (λ (_ : Unit {0}) st''. Same lib st st'') (after st'))
      → Stays lib st
          ((increment_depth_and_call_begin_field lib number wire_type >> (inside >> after)) st)
  in_field number wire_type inside after st g h k =
      and_then-Whenever (increment-Rises lib number wire_type st) λ _ st₁ a.
        and_then-Whenever (h st₁ (Above-IsGrounded lib a (deeper-IsGrounded st g)))
          λ _ st₂ b. k st₂ (Above-trans lib a b)

  module _ (scan : FieldInfo → M (Traversal Stream) (Unit {0})) (scans : ScanRises scan) where
    scan_tag-Stays :
        (tag : ℕ) (st : Traversal Stream)
        → IsGrounded lib st
        → Stays lib st (scan_tag lib pb junk sub scan tag st)
    unfolding scan_tag
    scan_tag-Stays tag st g =
        Stays-then lib _
          (read_field-Stays lib
            (record { number = tag / 2 ^ 3; wire_type = tag % 2 ^ 3; value = junk }) st)
          λ field st₁ s.
            let g₁ = Same-IsGrounded lib s g in
            in_field field.number field.wire_type (scan field)
              (decrement_depth_and_end_field_and_pop_visitors lib sub) st₁ g₁ (scans field)
              λ st₂ a. decrement-Back lib sub st₁ st₂ g₁ a

    pub scan_fields-Stays :
        (fuel : ℕ) (st : Traversal Stream)
        → IsGrounded lib st
        → Stays lib st (scan_fields lib pb junk sub scan fuel st)
    unfolding scan_fields
    scan_fields-Stays zero st g = on_stuck
    scan_fields-Stays (suc fuel) st g =
        let s : Stream = (lib.read_tag st.stream).1 in
        let st' : Traversal Stream = record st { stream = s } in
        let same : Same lib st st' = moved st s in
        if-Whenever ((lib.read_tag st.stream).0 == 0)
          (if-Whenever (lib.consumed_entire_message s) (on_done same) on_thrown)
          (Same-before same (
            Stays-then lib _
              (scan_tag-Stays (lib.read_tag st.stream).0 st' (Same-IsGrounded lib same g))
              λ _ st₂ t.
                scan_fields-Stays fuel st₂ (Same-IsGrounded lib (Same-trans lib same t) g)))

    scan_message-Rises :
        (fuel : ℕ) (st : Traversal Stream)
        → IsGrounded lib st
        → Rises lib st (scan_message lib pb junk sub scan fuel st)
    unfolding scan_message
    scan_message-Rises fuel st g =
        Rises-then lib _ (call_begin_message-Rises lib st)
          λ _ st' a. Stays-Rises lib (scan_fields-Stays fuel st' (Above-IsGrounded lib a g))

    read_submessage-Rises :
        (fuel size : ℕ) (st : Traversal Stream)
        → IsGrounded lib st
        → Rises lib st (read_submessage lib pb junk sub scan fuel size st)
    unfolding read_submessage
    read_submessage-Rises fuel size st g =
        elim (Option-cases (lib.increment_recursion_depth_and_push_limit size st.stream)) [
          | inl e ↦ rw (e, read_submessage) on_thrown
          | inr ((l, s), e) ↦
              rw (e, read_submessage)
                (Rises-then lib _
                  (Rises-then lib _
                    (Rises-before (moved st s) (
                      Stays-Rises lib (
                        call-Stays lib tt (λ this v. ((visit_begin_message this v).0, tt))
                          (record st { stream = s }))))
                    λ _ st₁ a. scan_message-Rises fuel st₁ (Above-IsGrounded lib a g))
                  λ _ st₂ a. Stays-Rises lib (on_done (moved st₂ _)))
        ]

  packed_elements-Stays :
      (fuel : ℕ) (f : FieldInfo) (st : Traversal Stream)
      → IsGrounded lib st
      → Stays lib st (packed_elements lib pb junk sub fuel f st)
  unfolding packed_elements
  packed_elements-Stays zero f st g = on_stuck
  packed_elements-Stays (suc fuel) f st g =
      if-Whenever (is_positive (lib.bytes_until_limit st.stream))
        (Stays-then lib _ (read_field-Stays lib f st) λ f' st₁ s.
          let g₁ = Same-IsGrounded lib s g in
          in_field f'.number f'.wire_type (emit lib (visit_read_primitive pb f'))
            (decrement_depth_and_end_field_and_pop_visitors lib sub
              >> packed_elements lib pb junk sub fuel f')
            st₁ g₁ (λ st₂ _. Stays-Rises lib (emit-Stays lib (visit_read_primitive pb f') st₂))
            λ st₂ a.
              Stays-then lib _ (decrement-Back lib sub st₁ st₂ g₁ a)
                λ _ st₃ t. packed_elements-Stays fuel f' st₃ (Same-IsGrounded lib t g₁))
        (on_done (Same-refl lib st))

  read_packed-Stays :
      (fuel number size wire_type : ℕ) (st : Traversal Stream)
      → IsGrounded lib st
      → Stays lib st (read_packed lib pb junk sub fuel number size wire_type st)
  unfolding read_packed
  read_packed-Stays fuel number size wire_type st g =
      let s : Stream = (lib.push_limit size st.stream).1 in
      Stays-then lib _
        (Same-before (moved st s) (
          packed_elements-Stays fuel
            (record { number = number; wire_type = wire_type; value = junk })
            (record st { stream = s }) (Same-IsGrounded lib (moved st s) g)))
        λ _ st' t. on_done (moved st' _)

  read_contents-Stays :
      (message : Bytes) (visit : Bytes → Visitor → Visitor × Option Error) (size : ℕ)
      (st : Traversal Stream)
      → Stays lib st (read_contents lib pb junk sub message visit size st)
  unfolding read_contents
  read_contents-Stays message visit size st = elim (Option-cases (lib.read_string size st.stream)) [
    | inl e ↦ rw (e, read_contents) on_thrown
    | inr ((s, rest), e) ↦
        rw (e, read_contents)
          (Same-before (moved st rest) (emit-Stays lib (visit s) (record st { stream = rest })))
  ]

  module _ (scan : FieldInfo → M (Traversal Stream) (Unit {0})) (scans : ScanRises scan) where
    treat-Rises :
        (fuel : ℕ) (field : FieldInfo) (t : Treatment) (st : Traversal Stream)
        → IsGrounded lib st
        → Rises lib st (treat lib pb junk sub scan fuel field t st)
    unfolding treat
    treat-Rises fuel field skip st g = Stays-Rises lib (on_done (moved st _))
    treat-Rises fuel field buffer st g = Stays-Rises lib (read_contents-Stays _ _ _ st)
    treat-Rises fuel field as_string st g = Stays-Rises lib (read_contents-Stays _ _ _ st)
    treat-Rises fuel field as_bytes st g = Stays-Rises lib (read_contents-Stays _ _ _ st)
    treat-Rises fuel field as_submessage st g = read_submessage-Rises scan scans fuel _ st g
    treat-Rises fuel field as_packed_varint st g =
        Stays-Rises lib (read_packed-Stays fuel _ _ _ st g)
    treat-Rises fuel field as_packed32 st g = Stays-Rises lib (read_packed-Stays fuel _ _ _ st g)
    treat-Rises fuel field as_packed64 st g = Stays-Rises lib (read_packed-Stays fuel _ _ _ st g)

    scan_delimited-Rises :
        (fuel : ℕ) (field : FieldInfo) (t : Treatment) (new : ℕ) (st : Traversal Stream)
        → IsGrounded lib st
        → Rises lib st (scan_delimited lib pb junk sub scan fuel field (t, new) st)
    unfolding scan_delimited
    scan_delimited-Rises fuel field t new st g =
        if-Whenever (new == st.visitor) (treat-Rises fuel field t st g) (
          Rises-then lib _ (push_visitor-Rises lib new st) λ _ st₁ a.
            let g₁ = Above-IsGrounded lib a g in
            Stays-Rises lib (
              in_field field.number field.wire_type (treat lib pb junk sub scan fuel field t)
                (decrement_depth_and_end_field_and_pop_visitors lib sub) st₁ g₁
                (treat-Rises fuel field t) λ st₂ b. decrement-Back lib sub st₁ st₂ g₁ b))

  pub scan_field-Rises : (fuel : ℕ) → ScanRises (scan_field lib pb junk sub fuel)
  unfolding scan_field
  scan_field-Rises zero field st g = on_stuck
  scan_field-Rises (suc fuel) field st g =
      if-Whenever (field.wire_type == 2)
        (Rises-then lib _
          (Stays-Rises lib (
            call-Stays lib (skip, st.visitor)
              (λ this. visit_read_length_delimited_field pb this field) st))
          λ a st' b.
            scan_delimited-Rises (scan_field lib pb junk sub fuel) (scan_field-Rises fuel)
              (suc fuel) field a.0 a.1 st' (Above-IsGrounded lib b g))
        (Stays-Rises lib (emit-Stays lib (visit_read_primitive pb field) st))
