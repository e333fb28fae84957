-- ===== src/Rows/Fields/Delimited.antt =====
-- The rounds of the length-delimited fields whose contents are passed over or read.
use postgres_protobuf.Common.{
  ℕ, suc, ◌+◌, ◌≤◌, ◌≡◌, refl, ap, ◌∙◌, Bool, true, false, Option, some, List, [], ◌∷◌, ◌++◌, arith,
  length, Bytes,
}
use postgres_protobuf.Outcome.{and_then, Succeeds}
use postgres_protobuf.Library.{CodedInputStream, Protobuf}
use postgres_protobuf.Field.{set_size}
use postgres_protobuf.Visitor.{Visitor, visit_begin_field, visit_popped}
use postgres_protobuf.Visitor.Treatments.{skip, is_message, composite_field_treatment_for_type}
use postgres_protobuf.Traverser.State.{StackElement}
use postgres_protobuf.Traverser.Steps.{SubScan, decrement_depth_and_end_field_and_pop_visitors}
use postgres_protobuf.Traverser.{scan_tag, scan_field}
use postgres_protobuf.Rows.Spec.{
  Shown, emitter_of, Picker, fields, QueryPath, value, type_of, chain, picks, counted, Tagged,
  Delimited, bytes_rows,
}
use postgres_protobuf.Rows.Zipper.{at, element}
use postgres_protobuf.Rows.Zipper.Ends.{kept_at, handed_at}
use postgres_protobuf.Rows.Fields.Selector.{read_size, begin_kept, begin_handed}
use postgres_protobuf.Rows.Fields.Round.{
  before, within, begins_other, begins_contents, ends, Between, round-Succeeds,
}
use postgres_protobuf.Rows.Fields.Shown.{begins_shown, ends_shown, popped_shown}
use postgres_protobuf.Rows.Fields.Contents.{
  sized, answers_other, answers_contents, delimited_kept, delimited_handed, treatment_of,
  answers_shown,
}
use postgres_protobuf.Rows.Fields.Treated.{passes, when_kept, when_shown}

module _ (lib : CodedInputStream) (pb : Protobuf) (junk : ℕ) (sub : SubScan) (front : List Visitor)
    (picker : Picker) (kk : ℕ) (stack : List StackElement) (d number : ℕ) (contents : Bytes)
    (mode : Bool) (c k : ℕ) (s₀ s s₂ : lib.Stream) (t : Tagged lib s₀ number 2 s)
    (Next : lib.Stream → Type 0) (r : Delimited lib s contents s₂ Next) (g : ℕ)
    (rows : List Bytes) where
  -- The field adds rows.
  abbrev pub Adds : QueryPath → List Bytes → Type 0
  Adds path rows' =
      Succeeds
        (Between lib pb junk sub Next front picker path kk stack d number (counted picker number k)
          rows')
        (scan_tag lib pb junk sub (scan_field lib pb junk sub g) t.tag
          (at lib s front (before picker path mode c k) (chain path rows) kk stack d))

  abbrev size : ℕ
  size = set_size junk (length contents)

  pub other-Adds : (path : QueryPath) → kk ≤ d → picks picker k number ≡ false → Adds path rows
  other-Adds path h p =
      let back : List Visitor = chain path rows in
      let rest : lib.Stream = lib.skip (length contents) s₂ in
      round-Succeeds lib pb junk sub g t.tag number 2 (sized number size)
        (at lib s front (before picker path mode c k) back kk stack d)
        (at lib s₂ front (before picker path mode c k) back kk stack d)
        (at lib s₂ front (within picker path false mode number k) back kk stack (d + 1))
        (at lib rest front (within picker path false mode number k) back kk stack (d + 1))
        (at lib rest front (before picker path mode number (counted picker number k)) back kk stack
          d)
        t.number_of t.wire_type_of
        (read_size lib pb junk sub number (length contents)
          (at lib s front (before picker path mode c k) back kk stack d) s₂ r.size)
        (begin_kept lib pb junk sub s₂ front _ _ back kk stack d number 2
          (begins_other path (length front) number k mode c picker 2 p))
        (λ g'.
          delimited_kept lib pb junk sub g' number size s₂ front _ back kk stack (d + 1) skip
            (answers_other path pb (length front) number (sized number size) k picker mode p)
          ∙ passes lib pb junk sub s s₂ contents Next rows rows front back kk stack (d + 1) number r
              _ (scan_field lib pb junk sub g') (suc g'))
        (kept_at lib sub rest front _ _ back kk stack d h (ends picker path number k false mode))
        (r.skipped, mode, refl)

  popped_back :
      (shown : Shown) (rows' : List Bytes) (rest : lib.Stream) (mode' : Bool)
      → at lib rest front
          (before picker (value shown) mode' number (counted picker number k))
          (visit_popped (emitter_of shown rows') ∷ [])
          kk
          stack
          d
        ≡ at lib rest front
            (before picker (value shown) mode' number (counted picker number k))
            (chain (value shown) rows')
            kk
            stack
            d
  popped_back shown rows' rest mode' =
      ap
        (λ v.
          at lib rest front (before picker (value shown) mode' number (counted picker number k))
            (v ∷ []) kk stack d)
        (popped_shown shown rows')

  -- The field is handed on as it begins, and the emitter has its contents treated as it asks for.
  pub kept-Adds :
      (shown : Shown) (out : List Bytes)
      → kk ≤ d
      → visit_begin_field (length front) number 2 (before picker (value shown) mode c k)
        ≡ (within picker (value shown) true mode number k, suc (length front))
      → bytes_rows pb junk (value shown) contents ≡ some out
      → Adds (value shown) (rows ++ out)
  kept-Adds shown out h b e =
      let path : QueryPath = value shown in
      let v : Visitor = within picker path true mode number k in
      let w : List Bytes → Visitor = emitter_of shown in
      let below : List StackElement = element (length front) kk ∷ stack in
      let (rest, next, reads) =
        when_kept lib pb junk sub s s₂ contents Next rows out (v ∷ front) [] (d + 1) below (d + 1)
          number r shown e in
      round-Succeeds lib pb junk sub g t.tag number 2 (sized number size)
        (at lib s front (before picker path mode c k) (w rows ∷ []) kk stack d)
        (at lib s₂ front (before picker path mode c k) (w rows ∷ []) kk stack d)
        (at lib s₂ (v ∷ front) (w rows) [] (d + 1) below (d + 1))
        (at lib rest (v ∷ front) (w (rows ++ out)) [] (d + 1) below (d + 1))
        (at lib rest front (before picker path mode number (counted picker number k))
          (visit_popped (w (rows ++ out)) ∷ []) kk stack d)
        t.number_of t.wire_type_of
        (read_size lib pb junk sub number (length contents)
          (at lib s front (before picker path mode c k) (w rows ∷ []) kk stack d) s₂ r.size)
        (begin_handed lib pb junk sub s₂ front _ v (w rows) (w rows) [] kk stack d number 2 b
          (begins_shown shown rows (suc (length front)) number 2))
        (λ g'.
          delimited_kept lib pb junk sub g' number size s₂ (v ∷ front) (w rows) [] (d + 1) below
            (d + 1) (treatment_of shown)
            (answers_shown pb (suc (length front)) (sized number size) shown rows)
          ∙ reads (scan_field lib pb junk sub g') (suc g'))
        (handed_at lib sub rest front v _ _ _ [] kk stack d h (ends_shown shown (rows ++ out))
          (ends picker path number k true mode))
        (next, mode, popped_back shown (rows ++ out) rest mode)

-- A field selector keeps contents that are no message until their size is read.
module _ (lib : CodedInputStream) (pb : Protobuf) (junk : ℕ) (sub : SubScan) (front : List Visitor)
    (field : ℕ) (index : Option ℕ) (kk : ℕ) (stack : List StackElement) (d number : ℕ)
    (contents : Bytes) (mode : Bool) (c k : ℕ) (s₀ s s₂ : lib.Stream) (t : Tagged lib s₀ number 2 s)
    (Next : lib.Stream → Type 0) (r : Delimited lib s contents s₂ Next) (g : ℕ)
    (rows : List Bytes) where
  pub value-Adds :
      (shown : Shown) (out : List Bytes)
      → kk ≤ d
      → picks (fields field index) k number ≡ true
      → is_message (type_of (value shown)) ≡ false
      → bytes_rows pb junk (value shown) contents ≡ some out
      → Adds lib pb junk sub front
          (fields field index)
          kk
          stack
          d
          number
          contents
          mode
          c
          k
          s₀
          s
          s₂
          t
          Next
          r
          g
          rows
          (value shown)
          (rows ++ out)
  value-Adds shown out h p m e =
      let path : QueryPath = value shown in
      let v : Visitor = before (fields field index) path true number k in
      let w : List Bytes → Visitor = emitter_of shown in
      let size : ℕ = set_size junk (length contents) in
      let below : List StackElement = element (length front) kk ∷ stack in
      let (rest, next, reads) =
        when_shown lib pb junk sub s s₂ contents Next rows out (v ∷ front) [] (d + 1) below
          (d + 1 + 1) number r shown m e in
      round-Succeeds lib pb junk sub g t.tag number 2 (sized number size)
        (at lib s front (before (fields field index) path mode c k) (w rows ∷ []) kk stack d)
        (at lib s₂ front (before (fields field index) path mode c k) (w rows ∷ []) kk stack d)
        (at lib s₂ front v (w rows ∷ []) kk stack (d + 1))
        (at lib rest (v ∷ front) (w (rows ++ out)) [] (d + 1) below (d + 1))
        (at lib rest front
          (before (fields field index) path true number (counted (fields field index) number k))
          (visit_popped (w (rows ++ out)) ∷ []) kk stack d)
        t.number_of t.wire_type_of
        (read_size lib pb junk sub number (length contents)
          (at lib s front (before (fields field index) path mode c k) (w rows ∷ []) kk stack d) s₂
          r.size)
        (begin_kept lib pb junk sub s₂ front _ v (w rows ∷ []) kk stack d number 2
          (begins_contents path (length front) number k mode c field index m p))
        (λ g'.
          delimited_handed lib pb junk sub g' number size s₂ front v (w rows) [] kk stack (d + 1)
            (composite_field_treatment_for_type (type_of path))
            (answers_contents path pb (length front) number (sized number size) k field index p)
            (begins_shown shown rows (suc (length front)) number 2)
          ∙ ap (and_then (λ _. decrement_depth_and_end_field_and_pop_visitors lib sub))
              (reads (scan_field lib pb junk sub g') (suc g'))
          ∙ kept_at lib sub rest (v ∷ front) _ _ [] (d + 1) below (d + 1) (omega arith)
              (ends_shown shown (rows ++ out)))
        (handed_at lib sub rest front v _ _ _ [] kk stack d h (ends_shown shown (rows ++ out))
          (ends (fields field index) path number k true true))
        (
          next,
          true,
          popped_back lib pb junk sub front (fields field index) kk stack d number contents mode c k
              s₀ s s₂ t Next r g rows shown (rows ++ out) rest true,
        )
