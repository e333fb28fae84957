-- ===== src/Traverser/Termination/Scan.antt =====
-- The scan of fields and messages ends, given fuel for as many bytes as are left.
use postgres_protobuf.Common.{
  ℕ, zero, suc, ◌-◌, ◌/◌, ◌%◌, ◌^◌, ◌≤◌, ◌<◌, ◌≡◌, ◌≢◌, inl, inr, false, Option, arith, ◌==◌,
  Bool-cases, Option-cases, Bytes,
}
use postgres_protobuf.Outcome.{
  Error, Outcome, M, completes, raises, and_then-Ends, Ends-weaken, if-Ends_at,
}
use postgres_protobuf.Library.{CodedInputStream, Protobuf}
use postgres_protobuf.Visitor.{
  Visitor, visit_read_primitive, visit_begin_message, visit_read_length_delimited_field,
}
use postgres_protobuf.Visitor.Treatments.{
  Treatment, skip, buffer, as_string, as_bytes, as_submessage, as_packed_varint, as_packed32,
  as_packed64,
}
use postgres_protobuf.Field.{FieldInfo, as_size}
use postgres_protobuf.Traverser.Progress.{Progress}
use postgres_protobuf.Traverser.State.{Traversal}
use postgres_protobuf.Traverser.Steps.{SubScan}
use postgres_protobuf.Traverser.{
  scan_tag, scan_fields, scan_message, packed_elements, read_packed, read_contents, read_submessage,
  treat, scan_delimited, scan_field, is_positive,
}
use postgres_protobuf.Traverser.Termination.Visitors.{visit_read_length_delimited_field-IsStep}
use postgres_protobuf.Traverser.Termination.Invariant.{
  Called, call-Called, Inv-weaken, emit-Holds, increment-Holds, call_begin_message-Holds,
  push_visitor-Holds,
}
use postgres_protobuf.Traverser.Termination.Steps.{
  SubEnds, Keeps, Good, decrement-Keeps, read_field-Takes,
}

module _ (lib : CodedInputStream) (p : Progress lib) (pb : Protobuf) (junk base n : ℕ)
    (sub : SubScan) (ends : SubEnds base n sub) where
  open lib use {Stream}

  abbrev Kept : ℕ → Outcome (Traversal Stream) (Unit {0}) → Type 0
  Kept bound o = Keeps lib p base n bound o

  abbrev Fine : ℕ → Traversal Stream → Type 0
  Fine bound st = Good lib p base n bound st

  -- A scan that ends wherever fewer than `limit` bytes are left.
  abbrev pub ScanEnds : ℕ → (FieldInfo → M (Traversal Stream) (Unit {0})) → Type 0
  ScanEnds limit scan =
      (field : FieldInfo) (bound : ℕ) (st : Traversal Stream)
      → bound < limit
      → Fine bound st
      → Kept bound (scan field st)

  weaken : {b c : ℕ} {st : Traversal Stream} → b ≤ c → Fine b st → Fine c st
  weaken h i = Inv-weaken lib p.remaining base n h i

  Kept-weaken : {b c : ℕ} {o : Outcome (Traversal Stream) (Unit {0})} → b ≤ c → Kept b o → Kept c o
  Kept-weaken h k = Ends-weaken k λ a st i. weaken h i

  ne : {m : ℕ} → (m == 0) ≡ false → m ≢ 0
  ne e = ground arith

  -- A new position in the stream, not before the old one.
  moved :
      {bound c : ℕ} {st : Traversal Stream} (s : Stream)
      → p.remaining s ≤ c
      → Fine bound st
      → Fine c (record st { stream = s })
  moved s h i = record { size = i.size; from = i.from; here = i.here; below = i.below; left = h }

  module _ (scan : FieldInfo → M (Traversal Stream) (Unit {0})) (limit : ℕ)
      (scans : ScanEnds limit scan) where
    scan_tag-Kept :
        (tag bound : ℕ) (st : Traversal Stream)
        → bound < limit
        → Fine bound st
        → Kept bound (scan_tag lib pb junk sub scan tag st)
    unfolding scan_tag
    scan_tag-Kept tag bound st h i =
        and_then-Ends
          (read_field-Takes lib p base n
            (record { number = tag / 2 ^ 3; wire_type = tag % 2 ^ 3; value = junk }) st i)
          λ field st₁ t.
            and_then-Ends
              (increment-Holds lib p.remaining base n field.number field.wire_type st₁
                (weaken {c = bound} (omega arith) t.0))
              λ _ st₂ i₂.
                and_then-Ends (scans field bound st₂ h i₂)
                  λ _ st₃ i₃. decrement-Keeps lib p base n sub ends st₃ i₃

    pub scan_fields-Kept :
        (fuel bound : ℕ) (st : Traversal Stream)
        → bound ≤ limit
        → bound < fuel
        → Fine bound st
        → Kept bound (scan_fields lib pb junk sub scan fuel st)
    unfolding scan_fields
    scan_fields-Kept zero bound st h f i = absurd (omega arith)
    scan_fields-Kept (suc fuel) bound st h f i =
        let tag : ℕ = (lib.read_tag st.stream).0 in
        let st' : Traversal Stream = record st { stream = (lib.read_tag st.stream).1 } in
        elim (Bool-cases (tag == 0)) [
          | inl e ↦ rw e (
              if-Ends_at (lib.consumed_entire_message st'.stream)
                (completes (moved st'.stream (omega (arith, p.tag_forward st.stream, i.left)) i))
                raises)
          | inr e ↦
              let shorter : p.remaining st'.stream < p.remaining st.stream =
                p.tag_takes st.stream (ne e) in
              let r : ℕ = p.remaining st'.stream in
              rw e (
                Kept-weaken {b = r} (omega (arith, i.left)) (
                  and_then-Ends
                    (scan_tag-Kept tag r st' (omega (arith, i.left))
                      (moved st'.stream (omega arith) i))
                    λ _ st₂ i₂.
                      scan_fields-Kept fuel r st₂ (omega (arith, i.left)) (omega (arith, i.left))
                        i₂))
        ]

    scan_message-Kept :
        (fuel bound : ℕ) (st : Traversal Stream)
        → bound ≤ limit
        → bound < fuel
        → Fine bound st
        → Kept bound (scan_message lib pb junk sub scan fuel st)
    unfolding scan_message
    scan_message-Kept fuel bound st h f i =
        and_then-Ends (call_begin_message-Holds lib p.remaining base n st i)
          λ _ st' i'. scan_fields-Kept fuel bound st' h f i'

    read_submessage-Kept :
        (fuel size bound : ℕ) (st : Traversal Stream)
        → bound ≤ limit
        → bound < fuel
        → Fine bound st
        → Kept bound (read_submessage lib pb junk sub scan fuel size st)
    unfolding read_submessage
    read_submessage-Kept fuel size bound st h f i =
        elim (Option-cases (lib.increment_recursion_depth_and_push_limit size st.stream)) [
          | inl e ↦ rw (e, read_submessage) raises
          | inr ((l, s), e) ↦
              rw (e, read_submessage)
                (and_then-Ends
                  (and_then-Ends
                    (call-Called lib p.remaining base n tt
                      (λ this v. ((visit_begin_message this v).0, tt)) (record st { stream = s })
                      (moved s (omega (arith, p.descend_forward size st.stream e, i.left)) i))
                    λ _ st₁ c. scan_message-Kept fuel bound st₁ h f c.inv)
                  λ _ st₂ i₂. completes (
                    moved (lib.decrement_recursion_depth_and_pop_limit l st₂.stream)
                      (omega (arith, p.ascend_forward l st₂.stream, i₂.left)) i₂))
        ]

  packed_elements-Kept :
      (fuel : ℕ) (f : FieldInfo) (bound : ℕ) (st : Traversal Stream)
      → bound < fuel
      → Fine bound st
      → Kept bound (packed_elements lib pb junk sub fuel f st)
  unfolding packed_elements
  packed_elements-Kept zero f bound st h i = absurd (omega arith)
  packed_elements-Kept (suc fuel) f bound st h i =
      if-Ends_at (is_positive (lib.bytes_until_limit st.stream))
        (and_then-Ends (read_field-Takes lib p base n f st i) λ f' st₁ t.
          Kept-weaken {b = bound - 1} (omega arith) (
            and_then-Ends (increment-Holds lib p.remaining base n f'.number f'.wire_type st₁ t.0)
              λ _ st₂ i₂.
                and_then-Ends
                  (emit-Holds lib p.remaining base n (visit_read_primitive pb f') st₂ i₂)
                  λ _ st₃ i₃.
                    and_then-Ends (decrement-Keeps lib p base n sub ends st₃ i₃) λ _ st₄ i₄.
                      packed_elements-Kept fuel f' (bound - 1) st₄ (omega (arith, t.1)) i₄))
        (completes i)

  read_packed-Kept :
      (fuel number size wire_type bound : ℕ) (st : Traversal Stream)
      → bound < fuel
      → Fine bound st
      → Kept bound (read_packed lib pb junk sub fuel number size wire_type st)
  unfolding read_packed
  read_packed-Kept fuel number size wire_type bound st h i =
      and_then-Ends
        (packed_elements-Kept fuel (record { number = number; wire_type = wire_type; value = junk })
          bound (record st { stream = (lib.push_limit size st.stream).1 }) h
          (moved (lib.push_limit size st.stream).1
            (omega (arith, p.push_forward size st.stream, i.left)) i))
        λ _ st' i'. completes (
          moved (lib.pop_limit (lib.push_limit size st.stream).0 st'.stream)
            (omega (arith, p.pop_forward (lib.push_limit size st.stream).0 st'.stream, i'.left)) i')

  read_contents-Kept :
      (message : Bytes) (visit : Bytes → Visitor → Visitor × Option Error) (size bound : ℕ)
      (st : Traversal Stream)
      → Fine bound st
      → Kept bound (read_contents lib pb junk sub message visit size st)
  unfolding read_contents
  read_contents-Kept message visit size bound st i =
      elim (Option-cases (lib.read_string size st.stream)) [
        | inl e ↦ rw (e, read_contents) raises
        | inr ((s, rest), e) ↦
            rw (e, read_contents)
              (emit-Holds lib p.remaining base n (visit s) (record st { stream = rest })
                (moved rest (omega (arith, p.string_forward size st.stream e, i.left)) i))
      ]

  module _ (scan : FieldInfo → M (Traversal Stream) (Unit {0})) (limit : ℕ)
      (scans : ScanEnds limit scan) where
    treat-Kept :
        (fuel : ℕ) (field : FieldInfo) (t : Treatment) (bound : ℕ) (st : Traversal Stream)
        → bound ≤ limit
        → bound < fuel
        → Fine bound st
        → Kept bound (treat lib pb junk sub scan fuel field t st)
    unfolding treat
    treat-Kept fuel field skip bound st h f i = completes (
        moved (lib.skip (as_size field.value) st.stream)
          (omega (arith, p.skip_forward (as_size field.value) st.stream, i.left)) i)
    treat-Kept fuel field buffer bound st h f i = read_contents-Kept _ _ _ bound st i
    treat-Kept fuel field as_string bound st h f i = read_contents-Kept _ _ _ bound st i
    treat-Kept fuel field as_bytes bound st h f i = read_contents-Kept _ _ _ bound st i
    treat-Kept fuel field as_submessage bound st h f i =
        read_submessage-Kept scan limit scans fuel _ bound st h f i
    treat-Kept fuel field as_packed_varint bound st h f i = read_packed-Kept fuel _ _ _ bound st f i
    treat-Kept fuel field as_packed32 bound st h f i = read_packed-Kept fuel _ _ _ bound st f i
    treat-Kept fuel field as_packed64 bound st h f i = read_packed-Kept fuel _ _ _ bound st f i

    scan_delimited-Kept :
        (fuel : ℕ) (field : FieldInfo) (t : Treatment) (new bound : ℕ) (st : Traversal Stream)
        → bound ≤ limit
        → bound < fuel
        → base ≤ new
        → Fine bound st
        → Kept bound (scan_delimited lib pb junk sub scan fuel field (t, new) st)
    unfolding scan_delimited
    scan_delimited-Kept fuel field t new bound st h f b i =
        if-Ends_at (new == st.visitor) (treat-Kept fuel field t bound st h f i) (
          and_then-Ends (push_visitor-Holds lib p.remaining base n new st b i) λ _ st₁ i₁.
            and_then-Ends
              (increment-Holds lib p.remaining base n field.number field.wire_type st₁ i₁)
              λ _ st₂ i₂.
                and_then-Ends (treat-Kept fuel field t bound st₂ h f i₂)
                  λ _ st₃ i₃. decrement-Keeps lib p base n sub ends st₃ i₃)

  -- A visitor's answer to a length-delimited field is not before the run's first visitor.
  answered :
      (field : FieldInfo) {bound : ℕ} {st st' : Traversal Stream} (a : Treatment × ℕ)
      → Fine bound st
      → Called lib p.remaining base n
          (Treatment × ℕ)
          (skip, st.visitor)
          (λ this. visit_read_length_delimited_field pb this field)
          bound
          st
          a
          st'
      → base ≤ a.1
  answered field {st} a i c = elim c.answer [
    | inl e ↦ rw e i.here
    | inr (v, e, l) ↦ rw e (elim (visit_read_length_delimited_field-IsStep pb st.visitor field v) [
      | inl s ↦ rw s i.here
      | inr s ↦ rw s (omega (arith, i.here))
    ])
  ]

  pub scan_field-Kept : (fuel : ℕ) → ScanEnds fuel (scan_field lib pb junk sub fuel)
  unfolding scan_field
  scan_field-Kept zero field bound st h i = absurd (omega arith)
  scan_field-Kept (suc fuel) field bound st h i =
      if-Ends_at (field.wire_type == 2)
        (and_then-Ends
          (call-Called lib p.remaining base n (skip, st.visitor)
            (λ this. visit_read_length_delimited_field pb this field) st i)
          λ a st' c.
            scan_delimited-Kept (scan_field lib pb junk sub fuel) fuel (scan_field-Kept fuel)
              (suc fuel) field a.0 a.1 bound st' (omega arith) h (answered field a i c) c.inv)
        (emit-Holds lib p.remaining base n (visit_read_primitive pb field) st i)
