-- ===== src/Rows/Fields/Round.antt =====
-- The rounds of the loop over the fields of a message.
use postgres_protobuf.Common.{
  ℕ, zero, suc, ◌/◌, ◌%◌, ◌^◌, ◌≡◌, refl, sym, ap, ◌∙◌, Bool, true, false, Option, none, List,
  ne→==, ◌==◌, Bytes, arith,
}
use mathlib.Core.Path.{subst}
use postgres_protobuf.Outcome.{done, M, and_then, Succeeds, succeeds, out_of_fuel}
use postgres_protobuf.Library.{FieldType, CodedInputStream, Protobuf}
use postgres_protobuf.Field.{FieldInfo}
use postgres_protobuf.Visitor.Treatments.{is_message}
use postgres_protobuf.Visitor.Selectors.{FieldSelector}
use postgres_protobuf.Visitor.{
  Visitor, field_selector, all_map_entries, visit_begin_field, visit_end_field,
}
use postgres_protobuf.Traverser.State.{Traversal, StackElement}
use postgres_protobuf.Traverser.Steps.{
  SubScan, read_field_value_or_size, increment_depth_and_call_begin_field,
  decrement_depth_and_end_field_and_pop_visitors,
}
use postgres_protobuf.Traverser.{scan_tag, scan_field, scan_fields}
use postgres_protobuf.Visitor.Entries.{
  AllMapEntries, EntriesScope, in_entry, in_wanted_field, in_unwanted_other_field,
  entries_begin_field, entries_end_field, is_wanted,
}
use postgres_protobuf.Rows.Spec.{
  Picker, fields, entry, QueryPath, type_of, chain, picks, counted, Tagged,
}
use postgres_protobuf.Rows.Zipper.{at}
use postgres_protobuf.Rows.Fields.Selector.{
  selector, end_within, begin_other, begin_scalar, begin_message, begin_contents, scan_tag_of,
}

-- A visitor in the entry of a map.
abbrev pub in_scope : Bool → FieldType → EntriesScope → Visitor
in_scope want_keys ty scope =
    all_map_entries (record { want_keys = want_keys; ty = ty; scope = scope })

-- The scope in a field of an entry, which is wanted or not.
abbrev pub scope_of : Bool → EntriesScope
scope_of true = in_wanted_field
scope_of false = in_unwanted_other_field

-- A field selector, which may have read contents and has seen `c` last, or a visitor in the entry of
-- a map, between two fields.
abbrev pub before : Picker → QueryPath → Bool → ℕ → ℕ → Visitor
before (fields field index) path mode c k =
    field_selector (selector field index (type_of path) mode c k)
before (entry want_keys) path mode c k = in_scope want_keys (type_of path) in_entry

-- The same in a field of a number, which is picked or not.
abbrev pub within : Picker → QueryPath → Bool → Bool → ℕ → ℕ → Visitor
within (fields field index) path picked mode number k =
    field_selector (selector field index (type_of path) mode number k)
within (entry want_keys) path picked mode number k =
    in_scope want_keys (type_of path) (scope_of picked)

module _ (path : QueryPath) (this number k : ℕ) (mode : Bool) (c : ℕ) where
  entry_other :
      (want_keys : Bool)
      → picks (entry want_keys) k number ≡ false
      → entries_begin_field this
          (suc this)
          number
          (record { want_keys = want_keys; ty = type_of path; scope = in_entry })
        ≡ (
          record { want_keys = want_keys; ty = type_of path; scope = in_unwanted_other_field },
          this,
        )
  unfolding entries_begin_field is_wanted
  entry_other true p = ground arith
  entry_other false p = ground arith

  entry_wanted :
      (want_keys : Bool)
      → picks (entry want_keys) k number ≡ true
      → entries_begin_field this
          (suc this)
          number
          (record { want_keys = want_keys; ty = type_of path; scope = in_entry })
        ≡ (record { want_keys = want_keys; ty = type_of path; scope = in_wanted_field }, suc this)
  unfolding entries_begin_field is_wanted
  entry_wanted true p = ground arith
  entry_wanted false p = ground arith

  pub begins_other :
      (picker : Picker) (wire_type : ℕ)
      → picks picker k number ≡ false
      → visit_begin_field this number wire_type (before picker path mode c k)
        ≡ (within picker path false mode number k, this)
  unfolding visit_begin_field
  begins_other (fields field index) wire_type p =
      ap (λ (r : FieldSelector × ℕ). (field_selector r.0, r.1))
        (begin_other this number field index (type_of path) mode c k wire_type p)
  begins_other (entry want_keys) wire_type p =
      ap (λ (r : AllMapEntries × ℕ). (all_map_entries r.0, r.1)) (entry_other want_keys p)

  pub begins_scalar :
      (picker : Picker) (wire_type : ℕ)
      → (wire_type == 2) ≡ false
      → picks picker k number ≡ true
      → visit_begin_field this number wire_type (before picker path mode c k)
        ≡ (within picker path true mode number k, suc this)
  unfolding visit_begin_field
  begins_scalar (fields field index) wire_type w p =
      ap (λ (r : FieldSelector × ℕ). (field_selector r.0, r.1))
        (begin_scalar this number field index (type_of path) mode c k wire_type w p)
  begins_scalar (entry want_keys) wire_type w p =
      ap (λ (r : AllMapEntries × ℕ). (all_map_entries r.0, r.1)) (entry_wanted want_keys p)

  pub begins_message :
      (picker : Picker)
      → is_message (type_of path) ≡ true
      → picks picker k number ≡ true
      → visit_begin_field this number 2 (before picker path mode c k)
        ≡ (within picker path true mode number k, suc this)
  unfolding visit_begin_field
  begins_message (fields field index) m p =
      ap (λ (r : FieldSelector × ℕ). (field_selector r.0, r.1))
        (begin_message this number field index (type_of path) mode c k m p)
  begins_message (entry want_keys) m p =
      ap (λ (r : AllMapEntries × ℕ). (all_map_entries r.0, r.1)) (entry_wanted want_keys p)

  -- A wanted field of an entry is handed on whatever it holds.
  pub begins_wanted :
      (want_keys : Bool)
      → picks (entry want_keys) k number ≡ true
      → visit_begin_field this number 2 (before (entry want_keys) path mode c k)
        ≡ (within (entry want_keys) path true mode number k, suc this)
  unfolding visit_begin_field
  begins_wanted want_keys p =
      ap (λ (r : AllMapEntries × ℕ). (all_map_entries r.0, r.1)) (entry_wanted want_keys p)

  pub begins_contents :
      (field : ℕ) (index : Option ℕ)
      → is_message (type_of path) ≡ false
      → picks (fields field index) k number ≡ true
      → visit_begin_field this number 2 (before (fields field index) path mode c k)
        ≡ (before (fields field index) path true number k, this)
  unfolding visit_begin_field
  begins_contents field index m p =
      ap (λ (r : FieldSelector × ℕ). (field_selector r.0, r.1))
        (begin_contents this number field index (type_of path) mode c k m p)

pub ends :
    (picker : Picker) (path : QueryPath) (number k : ℕ) (picked mode : Bool)
    → visit_end_field (within picker path picked mode number k)
      ≡ (before picker path mode number (counted picker number k), none)
unfolding visit_end_field entries_end_field
ends (fields field index) path number k picked mode =
    ap (λ r. (field_selector r, none)) (end_within 0 number field index (type_of path) mode 0 k)
ends (entry want_keys) path number k true mode = refl
ends (entry want_keys) path number k false mode = refl

module _ (lib : CodedInputStream) (pb : Protobuf) (junk : ℕ) (sub : SubScan) where
  open lib use {Stream}

  -- One more round.
  pub scan_fields-round :
      (scan : FieldInfo → M (Traversal Stream) (Unit {0})) (fuel : ℕ) (s s₁ : Stream)
      (front : List Visitor) (v : Visitor) (back : List Visitor) (k : ℕ) (stack : List StackElement)
      (d number wire_type : ℕ) (t : Tagged lib s number wire_type s₁)
      → scan_fields lib pb junk sub scan (suc fuel) (at lib s front v back k stack d)
        ≡ and_then
            (λ _. scan_fields lib pb junk sub scan fuel)
            (scan_tag lib pb junk sub scan t.tag (at lib s₁ front v back k stack d))
  unfolding scan_fields
  scan_fields-round scan fuel s s₁ front v back k stack d number wire_type t =
      rw (t.read, ne→== t.tag 0 t.more) refl

  -- A state of the traverser at the selector of a path, between two fields: the last was `c`, `k`
  -- wanted ones have gone by, and the emitter holds rows. What is left of the stream is `Next`.
  abbrev pub Between :
      (Stream → Type 0)
      → List Visitor
      → Picker
      → QueryPath
      → ℕ
      → List StackElement
      → ℕ
      → ℕ
      → ℕ
      → List Bytes
      → Unit {0}
      → Traversal Stream
      → Type 0
  Between Next front picker path kk stack d c k rows _ st =
      Next st.stream
      × (mode : Bool) × (st
          ≡ at lib st.stream front (before picker path mode c k) (chain path rows) kk stack d)

  -- A round that has fuel for the scan of its field ends in a given state.
  pub round-Succeeds :
      {P : Unit {0} → Traversal Stream → Type 0} (g tag number wire_type : ℕ) (f : FieldInfo)
      (st st₁ st₂ st₃ st₄ : Traversal Stream)
      → tag / 2 ^ 3 ≡ number
      → tag % 2 ^ 3 ≡ wire_type
      → read_field_value_or_size lib
          (record { number = number; wire_type = wire_type; value = junk })
          st
        ≡ done f st₁
      → increment_depth_and_call_begin_field lib f.number f.wire_type st₁ ≡ done tt st₂
      → ((g' : ℕ) → scan_field lib pb junk sub (suc g') f st₂ ≡ done tt st₃)
      → decrement_depth_and_end_field_and_pop_visitors lib sub st₃ ≡ done tt st₄
      → P tt st₄
      → Succeeds P (scan_tag lib pb junk sub (scan_field lib pb junk sub g) tag st)
  unfolding scan_field
  round-Succeeds {P} zero tag number wire_type f st st₁ st₂ st₃ st₄ n w r b c e p =
      subst (Succeeds P)
        (sym (
          scan_tag_of lib pb junk sub (scan_field lib pb junk sub zero) tag number wire_type f st
            st₁ st₂ n w r b))
        out_of_fuel
  round-Succeeds {P} (suc g) tag number wire_type f st st₁ st₂ st₃ st₄ n w r b c e p =
      subst (Succeeds P)
        (sym (
          scan_tag_of lib pb junk sub (scan_field lib pb junk sub (suc g)) tag number wire_type f st
            st₁ st₂ n w r b
          ∙ ap (and_then (λ _. decrement_depth_and_end_field_and_pop_visitors lib sub)) (c g)
          ∙ e))
        (succeeds p)
