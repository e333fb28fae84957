-- ===== src/Rows/Fields/Scalars.antt =====
-- The fields that are not length-delimited.
use postgres_protobuf.Common.{
  ℕ, suc, ◌+◌, ◌≤◌, ◌≡◌, refl, sym, ap, ◌∙◌, inl, inr, Bool, true, false, none, some, List, [], ◌∷◌,
  ◌++◌, ◌==◌, if◌then◌else◌, Bool-cases, length, Bytes,
}
use mathlib.Core.Path.{subst}
use postgres_protobuf.Outcome.{done, Succeeds}
use postgres_protobuf.Library.{CodedInputStream, Protobuf}
use postgres_protobuf.Field.{FieldInfo}
use postgres_protobuf.Visitor.{
  Visitor, descend_into_submessage, visit_begin_field, visit_read_primitive, visit_end_field,
  visit_popped,
}
use postgres_protobuf.Visitor.Entries.{
  outermost, in_entry, new_all_map_entries, entries_begin_field, entries_end_field,
}
use postgres_protobuf.Traverser.State.{Traversal, StackElement}
use postgres_protobuf.Traverser.Steps.{SubScan}
use postgres_protobuf.Traverser.{scan_tag, scan_field}
use postgres_protobuf.Rows.Spec.{
  Picker, fields, entry, pick, QueryPath, value, emitter_of, select, type_of, chain, picks, counted,
  written, Tagged, Reads, scalar_rows,
}
use postgres_protobuf.Rows.Zipper.{at, element, emit-at}
use postgres_protobuf.Rows.Zipper.Ends.{kept_at, handed_at}
use postgres_protobuf.Rows.Fields.Selector.{read_field, begin_kept, begin_handed}
use postgres_protobuf.Rows.Fields.Shown.{
  rows_same, begins_shown, reads_shown, ends_shown, popped_shown,
}
use postgres_protobuf.Rows.Fields.Round.{
  in_scope, before, within, begins_other, begins_scalar, ends, Between, round-Succeeds,
}

-- A field that the stream reads as a number is not length-delimited.
scalar_type :
    (lib : CodedInputStream) (s : lib.Stream) (x : ℕ) (s' : lib.Stream) (wire_type : ℕ)
    → Reads lib s x s' wire_type
    → (wire_type == 2) ≡ false
scalar_type lib s x s' _ (Reads.varint e) = refl
scalar_type lib s x s' _ (Reads.fixed64 e) = refl
scalar_type lib s x s' _ (Reads.fixed32 e) = refl

-- A visitor that is passed by keeps nothing of a value.
reads_other :
    (picker : Picker) (path : QueryPath) (pb : Protobuf) (f : FieldInfo) (mode : Bool)
    (number k : ℕ)
    → visit_read_primitive pb f (within picker path false mode number k)
      ≡ (within picker path false mode number k, none)
unfolding visit_read_primitive
reads_other (fields field index) path pb f mode number k = refl
reads_other (entry want_keys) path pb f mode number k = refl

module _ (lib : CodedInputStream) (pb : Protobuf) (junk : ℕ) (sub : SubScan) where
  open lib use {Stream}

  emits :
      (g number wire_type x : ℕ) (s : Stream) (front : List Visitor) (v v' : Visitor)
      (back : List Visitor) (k : ℕ) (stack : List StackElement) (d : ℕ)
      → (wire_type == 2) ≡ false
      → visit_read_primitive pb (record { number = number; wire_type = wire_type; value = x }) v
        ≡ (v', none)
      → scan_field lib pb junk sub
          (suc g)
          (record { number = number; wire_type = wire_type; value = x })
          (at lib s front v back k stack d)
        ≡ done tt (at lib s front v' back k stack d)
  unfolding scan_field
  emits g number wire_type x s front v v' back k stack d w e =
      rw w (emit-at lib s front v back k stack d (visit_read_primitive pb _) v' e)

  module _ (front : List Visitor) (picker : Picker) (path : QueryPath) (kk : ℕ)
      (stack : List StackElement) (d number wire_type x : ℕ) (mode : Bool) (c k : ℕ)
      (s₀ s s' : Stream) (t : Tagged lib s₀ number wire_type s)
      (r : Reads lib s x s' wire_type) where
    abbrev info : FieldInfo
    info = record { number = number; wire_type = wire_type; value = written wire_type junk x }

    abbrev around : Stream → Visitor → List Visitor → Traversal Stream
    around s v back = at lib s front v back kk stack d

    scalar_other :
        (Next : Stream → Type 0) (g : ℕ) (rows : List Bytes)
        → kk ≤ d
        → picks picker k number ≡ false
        → Next s'
        → Succeeds
            (Between lib pb junk sub Next front picker path kk stack d number
              (counted picker number k)
              rows)
            (scan_tag lib pb junk sub
              (scan_field lib pb junk sub g)
              t.tag
              (around s (before picker path mode c k) (chain path rows)))
    unfolding visit_read_primitive
    scalar_other Next g rows h p next =
        let back : List Visitor = chain path rows in
        round-Succeeds lib pb junk sub g t.tag number wire_type info
          (around s (before picker path mode c k) back)
          (around s' (before picker path mode c k) back)
          (at lib s' front (within picker path false mode number k) back kk stack (d + 1))
          (at lib s' front (within picker path false mode number k) back kk stack (d + 1))
          (around s' (before picker path mode number (counted picker number k)) back) t.number_of
          t.wire_type_of
          (read_field lib pb junk sub number wire_type x
            (around s (before picker path mode c k) back) s' r)
          (begin_kept lib pb junk sub s' front _ _ back kk stack d number wire_type
            (begins_other path (length front) number k mode c picker wire_type p))
          (λ g'.
            emits g' number wire_type (written wire_type junk x) s' front _ _ back kk stack (d + 1)
              (scalar_type lib s x s' wire_type r) (reads_other picker path pb info mode number k))
          (kept_at lib sub s' front _ _ back kk stack d h (ends picker path number k false mode))
          (next, mode, refl)

    -- The value goes to the visitor after the selector.
    scalar_handed :
        (Next : Stream → Type 0) (g : ℕ) (w w₁ w' w'' : Visitor) (rest : List Visitor)
        (rows : List Bytes)
        → kk ≤ d
        → picks picker k number ≡ true
        → visit_begin_field (suc (length front)) number wire_type w ≡ (w₁, suc (length front))
        → visit_read_primitive pb info w₁ ≡ (w', none)
        → visit_end_field w' ≡ (w'', none)
        → visit_popped w'' ∷ rest ≡ chain path rows
        → Next s'
        → Succeeds
            (Between lib pb junk sub Next front picker path kk stack d number
              (counted picker number k)
              rows)
            (scan_tag lib pb junk sub
              (scan_field lib pb junk sub g)
              t.tag
              (around s (before picker path mode c k) (w ∷ rest)))
    scalar_handed Next g w w₁ w' w'' rest rows h p b e f q next =
        round-Succeeds lib pb junk sub g t.tag number wire_type info
          (around s (before picker path mode c k) (w ∷ rest))
          (around s' (before picker path mode c k) (w ∷ rest))
          (at lib s' (within picker path true mode number k ∷ front) w₁ rest (d + 1)
            (element (length front) kk ∷ stack) (d + 1))
          (at lib s' (within picker path true mode number k ∷ front) w' rest (d + 1)
            (element (length front) kk ∷ stack) (d + 1))
          (around s' (before picker path mode number (counted picker number k))
            (visit_popped w'' ∷ rest))
          t.number_of t.wire_type_of
          (read_field lib pb junk sub number wire_type x
            (around s (before picker path mode c k) (w ∷ rest)) s' r)
          (begin_handed lib pb junk sub s' front _ _ w w₁ rest kk stack d number wire_type
            (begins_scalar path (length front) number k mode c picker wire_type
              (scalar_type lib s x s' wire_type r) p)
            b)
          (λ g'.
            emits g' number wire_type (written wire_type junk x) s'
              (within picker path true mode number k ∷ front) w₁ w' rest (d + 1)
              (element (length front) kk ∷ stack) (d + 1) (scalar_type lib s x s' wire_type r) e)
          (handed_at lib sub s' front _ _ w' w'' rest kk stack d h f
            (ends picker path number k true mode))
          (next, mode, ap (around s' (before picker path mode number (counted picker number k))) q)

module _ (lib : CodedInputStream) (pb : Protobuf) (junk : ℕ) (sub : SubScan) (front : List Visitor)
    (picker : Picker) (kk : ℕ) (stack : List StackElement) (d number wire_type x : ℕ) (mode : Bool)
    (c k : ℕ) (s₀ s s' : lib.Stream) (t : Tagged lib s₀ number wire_type s)
    (r : Reads lib s x s' wire_type) (Next : lib.Stream → Type 0) (g : ℕ) (rows : List Bytes) where
  -- The field adds the rows of its value.
  abbrev Adds : QueryPath → List Bytes → Type 0
  Adds path rows' =
      Succeeds
        (Between lib pb junk sub Next front picker path kk stack d number (counted picker number k)
          rows')
        (scan_tag lib pb junk sub (scan_field lib pb junk sub g) t.tag
          (at lib s front (before picker path mode c k) (chain path rows) kk stack d))

  picked-Adds :
      (path : QueryPath) (out : List Bytes)
      → kk ≤ d
      → picks picker k number ≡ true
      → scalar_rows pb junk path wire_type x ≡ some out
      → Next s'
      → Adds path (rows ++ out)
  unfolding scalar_rows visit_begin_field visit_read_primitive visit_end_field visit_popped
      entries_begin_field entries_end_field new_all_map_entries
  picked-Adds (select field' index' path) out h p e next =
      subst (Adds (select field' index' path)) (rows_same rows out e) (
        scalar_handed lib pb junk sub front picker (select field' index' path) kk stack d number
          wire_type x mode c k s₀ s s' t r Next g descend_into_submessage descend_into_submessage
          descend_into_submessage descend_into_submessage _ rows h p refl refl refl refl next)
  picked-Adds (pick (entry want_keys) path) out h p e next =
      subst (Adds (pick (entry want_keys) path)) (rows_same rows out e) (
        scalar_handed lib pb junk sub front picker (pick (entry want_keys) path) kk stack d number
          wire_type x mode c k s₀ s s' t r Next g (in_scope want_keys (type_of path) outermost)
          (in_scope want_keys (type_of path) in_entry) (in_scope want_keys (type_of path) in_entry)
          (in_scope want_keys (type_of path) outermost) _ rows h p refl refl refl refl next)
  picked-Adds (value shown) out h p e next =
      scalar_handed lib pb junk sub front picker (value shown) kk stack d number wire_type x mode c
        k s₀ s s' t r Next g (emitter_of shown rows) (emitter_of shown rows)
        (emitter_of shown (rows ++ out)) (emitter_of shown (rows ++ out)) [] (rows ++ out) h p
        (begins_shown shown rows (suc (length front)) number wire_type)
        (reads_shown pb junk shown number wire_type x rows out e) (ends_shown shown (rows ++ out))
        (ap (λ v. v ∷ []) (popped_shown shown (rows ++ out))) next

  pub scalar-Adds :
      (path : QueryPath) (out : List Bytes)
      → kk ≤ d
      → (if picks picker k number then scalar_rows pb junk path wire_type x else some []) ≡ some out
      → Next s'
      → Adds path (rows ++ out)
  scalar-Adds path out h e next = elim (Bool-cases (picks picker k number)) [
    | inl p ↦
        picked-Adds path out h p
          (ap (λ b. if b then scalar_rows pb junk path wire_type x else some []) (sym p) ∙ e) next
    | inr p ↦
        subst (Adds path)
          (rows_same rows out
            (ap (λ b. if b then scalar_rows pb junk path wire_type x else some []) (sym p) ∙ e))
          (scalar_other lib pb junk sub front picker path kk stack d number wire_type x mode c k s₀
            s s' t r Next g rows h p next)
  ]
