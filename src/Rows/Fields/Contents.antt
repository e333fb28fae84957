-- ===== src/Rows/Fields/Contents.antt =====
-- The length-delimited fields whose contents are passed over or read.
use postgres_protobuf.Common.{
  ℕ, suc, ◌+◌, ◌≡◌, refl, ap, ◌∙◌, Bool, true, false, Option, List, ◌∷◌, arith, eq→==, ne→==,
  length, Bytes,
}
use postgres_protobuf.Outcome.{and_then, ◌>>◌}
use postgres_protobuf.Library.{CodedInputStream, Protobuf}
use postgres_protobuf.Field.{FieldInfo}
use postgres_protobuf.Visitor.{Visitor, visit_begin_field, visit_read_length_delimited_field}
use postgres_protobuf.Visitor.Entries.{entries_read_length_delimited_field}
use postgres_protobuf.Visitor.Treatments.{
  Treatment, skip, buffer, composite_field_treatment_for_type,
}
use postgres_protobuf.Traverser.State.{StackElement}
use postgres_protobuf.Traverser.Steps.{
  SubScan, push_visitor, decrement_depth_and_end_field_and_pop_visitors,
}
use postgres_protobuf.Traverser.{scan_field, scan_delimited, treat}
use postgres_protobuf.Rows.Spec.{
  Picker, fields, entry, QueryPath, Shown, as_primitive, as_enum, as_json, emitter_of, type_of,
  picks,
}
use postgres_protobuf.Rows.Zipper.{at, element, call-at}
use postgres_protobuf.Rows.Fields.Selector.{begin_kept, read_other, read_contents_of}
use postgres_protobuf.Rows.Fields.Round.{before, within}

-- A field of a size.
abbrev pub sized : ℕ → ℕ → FieldInfo
sized number x = record { number = number; wire_type = 2; value = x }

module _ (path : QueryPath) (pb : Protobuf) (this number : ℕ) (f : FieldInfo) (k : ℕ) where
  pub answers_other :
      (picker : Picker) (mode : Bool)
      → picks picker k number ≡ false
      → visit_read_length_delimited_field pb this f (within picker path false mode number k)
        ≡ (within picker path false mode number k, (skip, this))
  unfolding visit_read_length_delimited_field entries_read_length_delimited_field
  answers_other (fields field index) mode p =
      ap (λ a. (before (fields field index) path mode number k, a))
        (read_other pb this number field index (type_of path) mode k p)
  answers_other (entry want_keys) mode p = refl

  pub answers_contents :
      (field : ℕ) (index : Option ℕ)
      → picks (fields field index) k number ≡ true
      → visit_read_length_delimited_field pb this f (before (fields field index) path true number k)
        ≡ (
          before (fields field index) path true number k,
          (composite_field_treatment_for_type (type_of path), suc this),
        )
  unfolding visit_read_length_delimited_field
  answers_contents field index p =
      ap (λ a. (before (fields field index) path true number k, a))
        (read_contents_of this number field index (type_of path) true 0 k pb p)

-- The treatment that the emitter itself asks for.
abbrev pub treatment_of : Shown → Treatment
treatment_of (as_primitive ty) = composite_field_treatment_for_type ty
treatment_of (as_enum descriptor) = skip
treatment_of (as_json type_resolver type_url) = buffer

pub answers_shown :
    (pb : Protobuf) (this : ℕ) (f : FieldInfo) (shown : Shown) (rows : List Bytes)
    → visit_read_length_delimited_field pb this f (emitter_of shown rows)
      ≡ (emitter_of shown rows, (treatment_of shown, this))
unfolding visit_read_length_delimited_field
answers_shown pb this f (as_primitive ty) rows = refl
answers_shown pb this f (as_enum descriptor) rows = refl
answers_shown pb this f (as_json type_resolver type_url) rows = refl

module _ (lib : CodedInputStream) (pb : Protobuf) (junk : ℕ) (sub : SubScan) where
  open lib use {Stream}

  -- What `ScanField` does with a length-delimited field that the current visitor keeps.
  pub delimited_kept :
      (g number x : ℕ) (s : Stream) (front : List Visitor) (v : Visitor) (back : List Visitor)
      (k : ℕ) (stack : List StackElement) (d : ℕ) (treatment : Treatment)
      → visit_read_length_delimited_field pb (length front) (sized number x) v
        ≡ (v, (treatment, length front))
      → scan_field lib pb junk sub (suc g) (sized number x) (at lib s front v back k stack d)
        ≡ treat lib pb junk sub
            (scan_field lib pb junk sub g)
            (suc g)
            (sized number x)
            treatment
            (at lib s front v back k stack d)
  unfolding scan_field scan_delimited
  delimited_kept g number x s front v back k stack d treatment e =
      (ap
          (and_then (
            scan_delimited lib pb junk sub (scan_field lib pb junk sub g) (suc g) (sized number x)))
          (call-at lib s front v back k stack d (skip, length front)
            (λ this. visit_read_length_delimited_field pb this (sized number x)))
        ∙ ap
            (λ (p : Visitor × (Treatment × ℕ)).
              scan_delimited lib pb junk sub (scan_field lib pb junk sub g) (suc g) (sized number x)
                p.1 (at lib s front p.0 back k stack d))
            e
        ∙ rw (eq→== (length front) (length front) refl) refl)

  -- The same where the visitor hands it to the next one, `w`, for which a field begins.
  pub delimited_handed :
      (g number x : ℕ) (s : Stream) (front : List Visitor) (v w : Visitor) (back : List Visitor)
      (k : ℕ) (stack : List StackElement) (d : ℕ) (treatment : Treatment)
      → visit_read_length_delimited_field pb (length front) (sized number x) v
        ≡ (v, (treatment, suc (length front)))
      → visit_begin_field (suc (length front)) number 2 w ≡ (w, suc (length front))
      → scan_field lib pb junk sub (suc g) (sized number x) (at lib s front v (w ∷ back) k stack d)
        ≡ and_then
            (λ _. decrement_depth_and_end_field_and_pop_visitors lib sub)
            (treat lib pb junk sub
              (scan_field lib pb junk sub g)
              (suc g)
              (sized number x)
              treatment
              (at lib s (v ∷ front) w back d (element (length front) k ∷ stack) (d + 1)))
  unfolding scan_field scan_delimited push_visitor
  delimited_handed g number x s front v w back k stack d treatment e b =
      let scan = scan_field lib pb junk sub g in
      (ap (and_then (scan_delimited lib pb junk sub scan (suc g) (sized number x))) (
          call-at lib s front v (w ∷ back) k stack d (skip, length front)
            (λ this. visit_read_length_delimited_field pb this (sized number x)))
        ∙ ap
            (λ (p : Visitor × (Treatment × ℕ)).
              scan_delimited lib pb junk sub scan (suc g) (sized number x) p.1
                (at lib s front p.0 (w ∷ back) k stack d))
            e
        ∙ rw (ne→== (suc (length front)) (length front) (omega arith)) (
            ap
              (and_then (λ _.
                treat lib pb junk sub scan (suc g) (sized number x) treatment
                >> decrement_depth_and_end_field_and_pop_visitors lib sub))
              (begin_kept lib pb junk sub s (v ∷ front) w w back d
                (element (length front) k ∷ stack) d number 2 b)))
