-- ===== src/Rows/Fields/Shown.antt =====
-- The emitter that shows the values of a path.
use postgres_protobuf.Common.{
  ℕ, ◌%◌, ◌^◌, ◌≡◌, refl, sym, ap, ◌∙◌, inl, inr, Option, none, some, List, [], ◌∷◌, ◌++◌,
  Option-cases, Bytes,
}
use mathlib.Core.List.{append-nil}
use postgres_protobuf.Outcome.{Error}
use postgres_protobuf.Field.{FieldInfo, as_uint64}
use postgres_protobuf.Library.{Protobuf, type_enum}
use postgres_protobuf.Visitor.{
  enum_emitter, visit_begin_field, visit_read_primitive, visit_buffered_value, visit_end_field,
  visit_popped,
}
use postgres_protobuf.Visitor.Emitters.{
  Emitter, primitive_text, primitive_read_primitive, enum_read_primitive, message_buffered_value,
  emit_str,
}
use postgres_protobuf.Query.Compile.{emitted, clear_rows, without_rows}
use postgres_protobuf.Rows.Spec.{
  Shown, as_primitive, as_enum, as_json, value, emitter_of, one_row, written, enum_text, json_text,
  scalar_rows,
}

pub begins_shown :
    (shown : Shown) (rows : List Bytes) (this number wire_type : ℕ)
    → visit_begin_field this number wire_type (emitter_of shown rows)
      ≡ (emitter_of shown rows, this)
unfolding visit_begin_field
begins_shown (as_primitive ty) rows this number wire_type = refl
begins_shown (as_enum d) rows this number wire_type = refl
begins_shown (as_json r url) rows this number wire_type = refl

pub ends_shown :
    (shown : Shown) (rows : List Bytes)
    → visit_end_field (emitter_of shown rows) ≡ (emitter_of shown rows, none)
unfolding visit_end_field
ends_shown (as_primitive ty) rows = refl
ends_shown (as_enum d) rows = refl
ends_shown (as_json r url) rows = refl

pub popped_shown :
    (shown : Shown) (rows : List Bytes)
    → visit_popped (emitter_of shown rows) ≡ emitter_of shown rows
unfolding visit_popped
popped_shown (as_primitive ty) rows = refl
popped_shown (as_enum d) rows = refl
popped_shown (as_json r url) rows = refl

pub emitted_shown :
    (shown : Shown) (rows : List Bytes) → emitted (emitter_of shown rows ∷ []) ≡ rows
unfolding emitted
emitted_shown (as_primitive ty) rows = refl
emitted_shown (as_enum d) rows = refl
emitted_shown (as_json r url) rows = refl

pub cleared_shown :
    (shown : Shown) (rows : List Bytes)
    → clear_rows (emitter_of shown rows ∷ []) ≡ emitter_of shown [] ∷ []
unfolding clear_rows without_rows
cleared_shown (as_primitive ty) rows = refl
cleared_shown (as_enum d) rows = refl
cleared_shown (as_json r url) rows = refl

-- No rows are added.
pub rows_same :
    (rows out : List Bytes)
    → ◌≡◌ {A = Option (List Bytes)} (some []) (some out)
    → rows ≡ rows ++ out
rows_same rows [] e = sym (append-nil rows)
rows_same rows (row ∷ out) e = cc

one_row-some :
    (o : Option Bytes) (out : List Bytes)
    → one_row o ≡ some out
    → (s : Bytes) × (o ≡ some s) × (s ∷ [] ≡ out)
one_row-some none out e = cc
one_row-some (some s) out e = (s, refl, cc)

some_injective : {xs ys : List Bytes} → ◌≡◌ {A = Option (List Bytes)} (some xs) (some ys) → xs ≡ ys
some_injective e = cc

enum_reads :
    (pb : Protobuf) (d : ℕ) (field : FieldInfo) (e : Emitter)
    → enum_read_primitive pb d field e
      ≡ emit_str
          (enum_text
            (pb.find_value_by_number d (as_uint64 field.value % 2 ^ 32))
            (as_uint64 field.value))
          e
unfolding enum_read_primitive
enum_reads pb d field e =
    elim (Option-cases (pb.find_value_by_number d (as_uint64 field.value % 2 ^ 32))) [
      | inl f ↦ rw (f, enum_read_primitive) refl
      | inr (name, f) ↦ rw (f, enum_read_primitive) refl
    ]

-- The emitter adds the rows of a value that is not length-delimited.
pub reads_shown :
    (pb : Protobuf) (junk : ℕ) (shown : Shown) (number wire_type x : ℕ) (rows out : List Bytes)
    → scalar_rows pb junk (value shown) wire_type x ≡ some out
    → visit_read_primitive pb
        (record { number = number; wire_type = wire_type; value = written wire_type junk x })
        (emitter_of shown rows)
      ≡ (emitter_of shown (rows ++ out), none)
unfolding visit_read_primitive primitive_read_primitive enum_read_primitive emit_str scalar_rows
reads_shown pb junk (as_primitive ty) number wire_type x rows out e =
    let (s, t, q) = one_row-some (primitive_text pb ty (written wire_type junk x)) out e in
    rw t (ap (λ o. (emitter_of (as_primitive ty) (rows ++ o), none)) q)
reads_shown pb junk (as_enum d) number wire_type x rows out e =
    ap (λ (r : Emitter × Option Error). (enum_emitter d r.0, r.1))
      (enum_reads pb d
        (record { number = number; wire_type = wire_type; value = written wire_type junk x })
        (record { ty = type_enum; limit = none; rows = rows }))
    ∙ ap (λ o. (emitter_of (as_enum d) (rows ++ o), none)) (some_injective e)
reads_shown pb junk (as_json r url) number wire_type x rows out e =
    ap (λ rs. (emitter_of (as_json r url) rs, none)) (rows_same rows out e)

-- The message emitter adds the JSON of a message.
pub buffers_shown :
    (pb : Protobuf) (r : ℕ) (url s : Bytes) (rows out : List Bytes)
    → one_row (json_text pb r url s) ≡ some out
    → visit_buffered_value pb s (emitter_of (as_json r url) rows)
      ≡ (emitter_of (as_json r url) (rows ++ out), none)
unfolding visit_buffered_value message_buffered_value emit_str
buffers_shown pb r [] s rows out e = cc
buffers_shown pb r (c ∷ url) s rows out e =
    let (row, t, q) = one_row-some (pb.binary_to_json_string r (c ∷ url) s) out e in
    rw t (ap (λ o. (emitter_of (as_json r (c ∷ url)) (rows ++ o), none)) q)
