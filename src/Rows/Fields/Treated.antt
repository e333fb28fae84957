-- ===== src/Rows/Fields/Treated.antt =====
-- How the contents of a length-delimited field are treated for an emitter.
use postgres_protobuf.Common.{
  ℕ, ◌≡◌, refl, ap, ◌∙◌, false, Option, none, some, List, [], ◌++◌, arith, length, Bytes, text,
}
use postgres_protobuf.Outcome.{Error, done, M}
use postgres_protobuf.Library.{FieldType, CodedInputStream, Protobuf, type_message}
use postgres_protobuf.Field.{FieldInfo, as_size, set_size}
use postgres_protobuf.Visitor.{Visitor, visit_read_string, visit_read_bytes, visit_buffered_value}
use postgres_protobuf.Visitor.Treatments.{
  Treatment, skip, as_string, as_bytes, is_message, composite_field_treatment_for_type,
}
use postgres_protobuf.Visitor.Emitters.{emit_str, primitive_read_bytes}
use postgres_protobuf.Traverser.State.{Traversal, StackElement}
use postgres_protobuf.Traverser.Steps.{SubScan}
use postgres_protobuf.Traverser.{treat, read_contents}
use postgres_protobuf.Traverser.Equations.{as_size-set_size, read_contents-some}
use postgres_protobuf.Rows.Spec.{
  Shown, as_primitive, as_enum, as_json, emitter_of, value, type_of, Delimited, bytes_rows,
  contents_rows,
}
use postgres_protobuf.Rows.Zipper.{at, emit-at}
use postgres_protobuf.Rows.Fields.Shown.{rows_same, buffers_shown}
use postgres_protobuf.Rows.Fields.Contents.{sized, treatment_of}

-- The treatments of contents that a primitive emitter asks for.
pub data IsContents : Treatment → Type 0 where
  passed_over : IsContents skip
  string : IsContents as_string
  bytes : IsContents as_bytes

composite-IsContents :
    (ty : FieldType) → is_message ty ≡ false → IsContents (composite_field_treatment_for_type ty)
unfolding is_message composite_field_treatment_for_type
composite-IsContents type_message m = cc
composite-IsContents FieldType.type_string m = string
composite-IsContents FieldType.type_bytes m = bytes
composite-IsContents _ m = passed_over

-- A message is not read as contents.
pub contents_rows-not_message :
    (ty : FieldType) (s : Bytes) (out : List Bytes)
    → contents_rows (composite_field_treatment_for_type ty) s ≡ some out
    → is_message ty ≡ false
unfolding is_message composite_field_treatment_for_type
contents_rows-not_message type_message s out e = cc
contents_rows-not_message ty s out e = refl

some_injective : {xs ys : List Bytes} → ◌≡◌ {A = Option (List Bytes)} (some xs) (some ys) → xs ≡ ys
some_injective e = cc

module _ (lib : CodedInputStream) (pb : Protobuf) (junk : ℕ) (sub : SubScan) where
  open lib use {Stream}

  pub size_of :
      {s s₂ : Stream} {contents : Bytes} {Next : Stream → Type 0}
      → Delimited lib s contents s₂ Next
      → as_size (set_size junk (length contents)) ≡ length contents
  size_of {contents = contents} t = as_size-set_size junk (length contents) (omega (arith, t.small))

  -- The contents are read into a string, which the current visitor is given.
  pub reads_contents :
      {s s₂ : Stream} {contents : Bytes} {Next : Stream → Type 0} (message : Bytes)
      (visit : Bytes → Visitor → Visitor × Option Error) (w w' : Visitor)
      (front back : List Visitor) (k : ℕ) (stack : List StackElement) (d : ℕ)
      (t : Delimited lib s contents s₂ Next)
      → visit contents w ≡ (w', none)
      → read_contents lib pb junk sub message visit
          (as_size (set_size junk (length contents)))
          (at lib s₂ front w back k stack d)
        ≡ done tt (at lib t.after front w' back k stack d)
  reads_contents {s₂ = s₂} {contents = contents} message visit w w' front back k stack d t v =
      ap (λ n. read_contents lib pb junk sub message visit n (at lib s₂ front w back k stack d))
        (size_of t)
      ∙ read_contents-some lib pb junk sub message visit (length contents)
          (at lib s₂ front w back k stack d) contents t.after t.string
      ∙ emit-at lib t.after front w back k stack d (visit contents) w' v

  module _ (s s₂ : Stream) (contents : Bytes) (Next : Stream → Type 0) (rows out : List Bytes)
      (front back : List Visitor) (k : ℕ) (stack : List StackElement) (d number : ℕ)
      (t : Delimited lib s contents s₂ Next) where
    -- The contents are passed over.
    pub passes :
        (v : Visitor) (scan : FieldInfo → M (Traversal Stream) (Unit {0})) (fuel : ℕ)
        → treat lib pb junk sub scan fuel
            (sized number (set_size junk (length contents)))
            skip
            (at lib s₂ front v back k stack d)
          ≡ done tt (at lib (lib.skip (length contents) s₂) front v back k stack d)
    unfolding treat
    passes v scan fuel =
        ap (λ n. done tt (at lib (lib.skip n s₂) front v back k stack d)) (size_of t)

    -- The emitter `shown` has the contents treated as it asks for, and adds their rows.
    abbrev Treats : Shown → Treatment → Type 0
    Treats shown treatment =
        (s' : Stream) × Next s'
        × ((scan : FieldInfo → M (Traversal Stream) (Unit {0})) (fuel : ℕ)
            → treat lib pb junk sub scan fuel (sized number (set_size junk (length contents)))
                treatment (at lib s₂ front (emitter_of shown rows) back k stack d)
              ≡ done tt (at lib s' front (emitter_of shown (rows ++ out)) back k stack d))

    when_skipped :
        (shown : Shown) → ◌≡◌ {A = Option (List Bytes)} (some []) (some out) → Treats shown skip
    when_skipped shown e = (
      lib.skip (length contents) s₂,
      t.skipped,
      λ scan fuel.
          passes (emitter_of shown rows) scan fuel
          ∙ ap
              (λ rs.
                done tt (
                  at lib (lib.skip (length contents) s₂) front (emitter_of shown rs) back k stack
                    d))
              (rows_same rows out e),
    )

    when_contents :
        (ty : FieldType) (treatment : Treatment)
        → IsContents treatment
        → contents_rows treatment contents ≡ some out
        → Treats (as_primitive ty) treatment
    unfolding treat visit_read_string visit_read_bytes emit_str primitive_read_bytes
    when_contents ty _ passed_over e = when_skipped (as_primitive ty) e
    when_contents ty _ string e = (
      t.after,
      t.rest,
      λ scan fuel.
          reads_contents (text "failed to fully read string field") visit_read_string
            (emitter_of (as_primitive ty) rows) _ front back k stack d t refl
          ∙ ap
              (λ o.
                done tt
                  (at lib t.after front (emitter_of (as_primitive ty) (rows ++ o)) back k stack d))
              (some_injective e),
    )
    when_contents ty _ bytes e = (
      t.after,
      t.rest,
      λ scan fuel.
          reads_contents (text "failed to fully read bytes field") visit_read_bytes
            (emitter_of (as_primitive ty) rows) _ front back k stack d t refl
          ∙ ap
              (λ o.
                done tt
                  (at lib t.after front (emitter_of (as_primitive ty) (rows ++ o)) back k stack d))
              (some_injective e),
    )

    pub when_shown :
        (shown : Shown)
        → is_message (type_of (value shown)) ≡ false
        → bytes_rows pb junk (value shown) contents ≡ some out
        → Treats shown (composite_field_treatment_for_type (type_of (value shown)))
    unfolding bytes_rows composite_field_treatment_for_type is_message
    when_shown (as_primitive ty) m e =
        when_contents ty (composite_field_treatment_for_type ty) (composite-IsContents ty m) e
    when_shown (as_enum descriptor) m e = when_skipped (as_enum descriptor) e
    when_shown (as_json r url) m e = cc

    -- The same for the treatment that the emitter asks for itself.
    pub when_kept :
        (shown : Shown)
        → bytes_rows pb junk (value shown) contents ≡ some out
        → Treats shown (treatment_of shown)
    unfolding bytes_rows treat
    when_kept (as_primitive ty) e =
        when_contents ty (composite_field_treatment_for_type ty)
          (composite-IsContents ty (contents_rows-not_message ty contents out e)) e
    when_kept (as_enum descriptor) e = when_skipped (as_enum descriptor) e
    when_kept (as_json type_resolver type_url) e = (
      t.after,
      t.rest,
      λ scan fuel.
          reads_contents (text "failed to fully read length-delimited field")
            (visit_buffered_value pb) (emitter_of (as_json type_resolver type_url) rows)
            (emitter_of (as_json type_resolver type_url) (rows ++ out)) front back k stack d t
            (buffers_shown pb type_resolver type_url contents rows out e),
    )
