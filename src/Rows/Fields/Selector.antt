-- ===== src/Rows/Fields/Selector.antt =====
-- The answers of a field selector that is not packed, and the parts of the scan of a field.
use postgres_protobuf.Common.{
  ℕ, suc, ◌+◌, ◌/◌, ◌%◌, ◌^◌, ◌≡◌, refl, ap, ◌∙◌, Bool, true, false, Option, some, List, ◌∷◌, arith,
  ◌==◌, length, Bytes, text,
}
use postgres_protobuf.Outcome.{done, M, and_then}
use postgres_protobuf.Library.{FieldType, CodedInputStream, Protobuf}
use postgres_protobuf.Field.{FieldInfo, set_uint32, set_uint64, set_size}
use postgres_protobuf.Visitor.{Visitor, visit_begin_field, visit_begin_message}
use postgres_protobuf.Visitor.Treatments.{skip, is_message, composite_field_treatment_for_type}
use postgres_protobuf.Visitor.Selectors.{
  FieldSelector, SelectorState, scanning, emitting_other_composite, selector_begin_field,
  selector_read_length_delimited_field, selector_end_field,
}
use postgres_protobuf.Traverser.State.{Traversal, StackElement}
use postgres_protobuf.Traverser.Steps.{
  SubScan, increment_depth_and_call_begin_field, call_begin_message, push_loop,
  read_field_value_or_size, read_value, decrement_depth_and_end_field_and_pop_visitors,
}
use postgres_protobuf.Traverser.{scan_tag}
use postgres_protobuf.Rows.Spec.{fields, picks, counted, written, Reads, varint, fixed64, fixed32}
use postgres_protobuf.Rows.Zipper.{zip, length-zip, element, at, keeps_at, hands_at}

-- Whether the selector has read contents of a field yet.
abbrev pub mode_of : Bool → SelectorState
mode_of false = scanning
mode_of true = emitting_other_composite

-- A selector in the middle of a message: its last field is `c`, and `k` wanted fields have gone by.
abbrev pub selector : ℕ → Option ℕ → FieldType → Bool → ℕ → ℕ → FieldSelector
selector field index ty mode c k = record {
  wanted_field = field;
  ty = ty;
  is_packed = false;
  wanted_index = index;
  state = mode_of mode;
  current_field = c;
  current_index = k;
}

module _ (this number : ℕ) (field : ℕ) (index : Option ℕ) (ty : FieldType) (mode : Bool)
    (c k : ℕ) where
  abbrev before : FieldSelector
  before = selector field index ty mode c k

  abbrev within : Bool → FieldSelector
  within mode' = selector field index ty mode' number k

  pub begin_other :
      (wire_type : ℕ)
      → picks (fields field index) k number ≡ false
      → selector_begin_field this (suc this) number wire_type before ≡ (within mode, this)
  unfolding selector_begin_field
  begin_other wire_type p = ground arith

  pub begin_scalar :
      (wire_type : ℕ)
      → (wire_type == 2) ≡ false
      → picks (fields field index) k number ≡ true
      → selector_begin_field this (suc this) number wire_type before ≡ (within mode, suc this)
  unfolding selector_begin_field
  begin_scalar wire_type w p = ground arith

  pub begin_message :
      is_message ty ≡ true
      → picks (fields field index) k number ≡ true
      → selector_begin_field this (suc this) number 2 before ≡ (within mode, suc this)
  unfolding selector_begin_field
  begin_message m p = ground arith

  pub begin_contents :
      is_message ty ≡ false
      → picks (fields field index) k number ≡ true
      → selector_begin_field this (suc this) number 2 before ≡ (within true, this)
  unfolding selector_begin_field
  begin_contents m p = ground arith

  pub read_contents_of :
      (pb : Protobuf)
      → picks (fields field index) k number ≡ true
      → selector_read_length_delimited_field pb this (suc this) (within true)
        ≡ (composite_field_treatment_for_type ty, suc this)
  unfolding selector_read_length_delimited_field
  read_contents_of pb p = ground arith

  pub end_within :
      selector_end_field (within mode)
      ≡ selector field index ty mode number (counted (fields field index) number k)
  unfolding selector_end_field
  end_within = ground arith

pub read_other :
    (pb : Protobuf) (this number field : ℕ) (index : Option ℕ) (ty : FieldType) (mode : Bool)
    (k : ℕ)
    → picks (fields field index) k number ≡ false
    → selector_read_length_delimited_field pb this
        (suc this)
        (selector field index ty mode number k)
      ≡ (skip, this)
unfolding selector_read_length_delimited_field
read_other pb this number field index ty false k p = ground arith
read_other pb this number field index ty true k p = ground arith

module _ (lib : CodedInputStream) (pb : Protobuf) (junk : ℕ) (sub : SubScan) where
  open lib use {Stream}

  pub begin_kept :
      (s : Stream) (front : List Visitor) (v v' : Visitor) (back : List Visitor) (k : ℕ)
      (stack : List StackElement) (d number wire_type : ℕ)
      → visit_begin_field (length front) number wire_type v ≡ (v', length front)
      → increment_depth_and_call_begin_field lib number wire_type (at lib s front v back k stack d)
        ≡ done tt (at lib s front v' back k stack (d + 1))
  unfolding increment_depth_and_call_begin_field
  begin_kept s front v v' back k stack d number wire_type e =
      keeps_at lib s front v back k stack (d + 1) (length (zip front (v ∷ back)))
        (λ this. visit_begin_field this number wire_type) v' e

  -- The fuel of the loop over visitors, where there are two at least.
  fuel_of :
      (front back : List Visitor) (v w : Visitor)
      → suc (length (zip front (v ∷ w ∷ back))) ≡ suc (suc (length front + suc (length back)))
  fuel_of front back v w = omega (arith, length-zip front (v ∷ w ∷ back))

  pub begin_handed :
      (s : Stream) (front : List Visitor) (v v' w w' : Visitor) (back : List Visitor) (k : ℕ)
      (stack : List StackElement) (d number wire_type : ℕ)
      → visit_begin_field (length front) number wire_type v ≡ (v', suc (length front))
      → visit_begin_field (suc (length front)) number wire_type w ≡ (w', suc (length front))
      → increment_depth_and_call_begin_field lib number wire_type
          (at lib s front v (w ∷ back) k stack d)
        ≡ done tt (at lib s (v' ∷ front) w' back (d + 1) (element (length front) k ∷ stack) (d + 1))
  unfolding increment_depth_and_call_begin_field
  begin_handed s front v v' w w' back k stack d number wire_type e f =
      let method = λ (this : ℕ). visit_begin_field this number wire_type in
      ap (λ n. push_loop lib n method (at lib s front v (w ∷ back) k stack (d + 1)))
        (fuel_of front back v w)
      ∙ hands_at lib s front v v' w w' back k stack (d + 1) (length front + suc (length back))
          method e f

  pub message_handed :
      (s : Stream) (front : List Visitor) (v v' w w' : Visitor) (back : List Visitor) (k : ℕ)
      (stack : List StackElement) (d : ℕ)
      → visit_begin_message (length front) v ≡ (v', suc (length front))
      → visit_begin_message (suc (length front)) w ≡ (w', suc (length front))
      → call_begin_message lib (at lib s front v (w ∷ back) k stack d)
        ≡ done tt (at lib s (v' ∷ front) w' back d (element (length front) k ∷ stack) d)
  unfolding call_begin_message
  message_handed s front v v' w w' back k stack d e f =
      ap (λ n. push_loop lib n visit_begin_message (at lib s front v (w ∷ back) k stack d))
        (fuel_of front back v w)
      ∙ hands_at lib s front v v' w w' back k stack d (length front + suc (length back))
          visit_begin_message e f

  read_value-some :
      (read : Stream → Option (ℕ × Stream)) (write : ℕ → ℕ → ℕ) (message : Bytes)
      (field : FieldInfo) (st : Traversal Stream) (x : ℕ) (s' : Stream)
      → read st.stream ≡ some (x, s')
      → read_value lib read write message field st
        ≡ done (record field { value = write field.value x }) (record st { stream = s' })
  read_value-some read write message field st x s' e = rw (e, read_value) refl

  pub read_field :
      (number wire_type x : ℕ) (st : Traversal Stream) (s' : Stream)
      → Reads lib st.stream x s' wire_type
      → read_field_value_or_size lib
          (record { number = number; wire_type = wire_type; value = junk })
          st
        ≡ done
            (record { number = number; wire_type = wire_type; value = written wire_type junk x })
            (record st { stream = s' })
  unfolding read_field_value_or_size written
  read_field number wire_type x st s' (varint e) =
      read_value-some lib.read_varint64 set_uint64 (text "failed to read varint field")
        (record { number = number; wire_type = 0; value = junk }) st x s' e
  read_field number wire_type x st s' (fixed64 e) =
      read_value-some lib.read_little_endian64 set_uint64 (text "failed to read 64-bit field")
        (record { number = number; wire_type = 1; value = junk }) st x s' e
  read_field number wire_type x st s' (fixed32 e) =
      read_value-some lib.read_little_endian32 set_uint32 (text "failed to read 32-bit field")
        (record { number = number; wire_type = 5; value = junk }) st x s' e

  pub read_size :
      (number size : ℕ) (st : Traversal Stream) (s' : Stream)
      → lib.read_varint_size_as_int st.stream ≡ some (size, s')
      → read_field_value_or_size lib (record { number = number; wire_type = 2; value = junk }) st
        ≡ done
            (record { number = number; wire_type = 2; value = set_size junk size })
            (record st { stream = s' })
  unfolding read_field_value_or_size
  read_size number size st s' e =
      read_value-some lib.read_varint_size_as_int set_size (text "failed to read size varint") _ st
        size s' e

  -- A field up to its scan: its tag, its value or size, and its begin.
  pub scan_tag_of :
      (scan : FieldInfo → M (Traversal Stream) (Unit {0})) (tag number wire_type : ℕ)
      (field : FieldInfo) (st st₁ st₂ : Traversal Stream)
      → tag / 2 ^ 3 ≡ number
      → tag % 2 ^ 3 ≡ wire_type
      → read_field_value_or_size lib
          (record { number = number; wire_type = wire_type; value = junk })
          st
        ≡ done field st₁
      → increment_depth_and_call_begin_field lib field.number field.wire_type st₁ ≡ done tt st₂
      → scan_tag lib pb junk sub scan tag st
        ≡ and_then (λ _. decrement_depth_and_end_field_and_pop_visitors lib sub) (scan field st₂)
  unfolding scan_tag
  scan_tag_of scan tag number wire_type field st st₁ st₂ n w r b = rw (n, w) (rw (r, b) refl)
