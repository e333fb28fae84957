-- ===== src/Rows/Submessages/Entries.antt =====
-- The round of a field whose message is an entry of a map.
use postgres_protobuf.Common.{
  ℕ, zero, suc, ◌+◌, ◌≤◌, ◌≡◌, refl, sym, ap, ◌∙◌, Bool, true, false, some, List, ◌∷◌, length,
  Bytes,
}
use mathlib.Core.Path.{subst}
use postgres_protobuf.Outcome.{and_then, Succeeds, succeeds, out_of_fuel, and_then-Succeeds}
use postgres_protobuf.Library.{CodedInputStream, Protobuf}
use postgres_protobuf.Field.{set_size}
use postgres_protobuf.Visitor.{
  Visitor, visit_begin_field, visit_end_field, visit_popped, visit_read_length_delimited_field,
}
use postgres_protobuf.Visitor.Treatments.{as_submessage, is_message}
use postgres_protobuf.Visitor.Entries.{
  outermost, in_entry, new_all_map_entries, entries_begin_field, entries_end_field,
  entries_read_length_delimited_field,
}
use postgres_protobuf.Traverser.State.{Traversal, StackElement}
use postgres_protobuf.Traverser.Steps.{SubScan, decrement_depth_and_end_field_and_pop_visitors}
use postgres_protobuf.Traverser.{scan_tag, scan_field, read_submessage, treat}
use postgres_protobuf.Rows.Spec.{
  Picker, entry, pick, QueryPath, type_of, chain, picks, counted, Tagged, Delimited,
}
use postgres_protobuf.Rows.Zipper.{at, element}
use postgres_protobuf.Rows.Zipper.Ends.{handed_at}
use postgres_protobuf.Rows.Fields.Selector.{read_size, begin_handed, scan_tag_of}
use postgres_protobuf.Rows.Fields.Round.{in_scope, before, within, begins_message, ends, Between}
use postgres_protobuf.Rows.Fields.Contents.{sized, delimited_kept}
use postgres_protobuf.Rows.Fields.Treated.{size_of}
use postgres_protobuf.Rows.Fields.Delimited.{Adds}
use postgres_protobuf.Rows.Submessages.{Scans}
use postgres_protobuf.Rows.Submessages.EntryScan.{entry-scan}

module _ (lib : CodedInputStream) (pb : Protobuf) (junk : ℕ) (sub : SubScan) (front : List Visitor)
    (picker : Picker) (want_keys : Bool) (path' : QueryPath) (kk : ℕ) (stack : List StackElement)
    (d number : ℕ) (contents : Bytes) (mode : Bool) (c k : ℕ) (s₀ s s₂ s₃ : lib.Stream)
    (limit : lib.Limit) (t : Tagged lib s₀ number 2 s) (Next : lib.Stream → Type 0)
    (r : Delimited lib s contents s₂ Next) (rows rows' : List Bytes) (h : kk ≤ d)
    (p : picks picker k number ≡ true)
    (i : lib.increment_recursion_depth_and_push_limit (length contents) s₂ ≡ some (limit, s₃)) where
  abbrev path : QueryPath
  path = pick (entry want_keys) path'

  abbrev v : Visitor
  v = within picker path true mode number k

  -- The visitor of the entries, in an entry.
  abbrev w : Visitor
  w = in_scope want_keys (type_of path') in_entry

  abbrev below : List StackElement
  below = element (length front) kk ∷ stack

  abbrev size : ℕ
  size = set_size junk (length contents)

  -- The scan of the entry itself.
  abbrev pub Inner : ℕ → Type 0
  Inner g =
      Scans lib pb junk sub (λ s₄. Next (lib.decrement_recursion_depth_and_pop_limit limit s₄)) g
        (suc g) s₃ (v ∷ front) (entry want_keys) path' false 0 0 (d + 1) below (d + 1) rows rows'

  -- The states after the entry and after the field.
  Scanned : Unit {0} → Traversal lib.Stream → Type 0
  Scanned u st' =
      Next st'.stream
      × (st' ≡ at lib st'.stream (v ∷ front) w (chain path' rows') (d + 1) below (d + 1))

  abbrev After : Unit {0} → Traversal lib.Stream → Type 0
  After =
      Between lib pb junk sub Next front picker path kk stack d number (counted picker number k)
        rows'

  scan_Scanned :
      (g : ℕ)
      → Inner g
      → Succeeds Scanned (
          scan_field lib pb junk sub
            (suc g)
            (sized number size)
            (at lib s₂ (v ∷ front) w (chain path' rows) (d + 1) below (d + 1)))
  unfolding Scanned treat visit_read_length_delimited_field entries_read_length_delimited_field
  scan_Scanned g n =
      subst (Succeeds Scanned)
        (sym (
          delimited_kept lib pb junk sub g number size s₂ (v ∷ front) w (chain path' rows) (d + 1)
            below (d + 1) as_submessage refl
          ∙ ap
              (λ x.
                read_submessage lib pb junk sub (scan_field lib pb junk sub g) (suc g) x
                  (at lib s₂ (v ∷ front) w (chain path' rows) (d + 1) below (d + 1)))
              (size_of lib pb junk sub r)))
        (entry-scan lib pb junk sub g (length contents) limit s₂ s₃ (v ∷ front) want_keys path' rows
          rows' (d + 1) below (d + 1) Next i n)

  ends_After :
      (u : Unit {0}) (st' : Traversal lib.Stream)
      → Scanned u st'
      → Succeeds After (decrement_depth_and_end_field_and_pop_visitors lib sub st')
  unfolding Scanned visit_popped visit_end_field entries_end_field new_all_map_entries
  ends_After u st' z =
      let (next, q) = z in
      subst (λ st. Succeeds After (decrement_depth_and_end_field_and_pop_visitors lib sub st))
        (sym q)
        (subst (Succeeds After)
          (sym (
            handed_at lib sub st'.stream front v _ w (in_scope want_keys (type_of path') outermost)
              (chain path' rows') kk stack d h refl (ends picker path number k true mode)))
          (succeeds (next, mode, refl)))

  -- The field up to its scan.
  scanned :
      (g : ℕ)
      → scan_tag lib pb junk sub
          (scan_field lib pb junk sub g)
          t.tag
          (at lib s front (before picker path mode c k) (chain path rows) kk stack d)
        ≡ and_then
            (λ _. decrement_depth_and_end_field_and_pop_visitors lib sub)
            (scan_field lib pb junk sub g
              (sized number size)
              (at lib s₂ (v ∷ front) w (chain path' rows) (d + 1) below (d + 1)))
  unfolding visit_begin_field is_message entries_begin_field new_all_map_entries
  scanned g =
      scan_tag_of lib pb junk sub (scan_field lib pb junk sub g) t.tag number 2 (sized number size)
        (at lib s front (before picker path mode c k) (chain path rows) kk stack d)
        (at lib s₂ front (before picker path mode c k) (chain path rows) kk stack d)
        (at lib s₂ (v ∷ front) w (chain path' rows) (d + 1) below (d + 1)) t.number_of
        t.wire_type_of
        (read_size lib pb junk sub number (length contents)
          (at lib s front (before picker path mode c k) (chain path rows) kk stack d) s₂ r.size)
        (begin_handed lib pb junk sub s₂ front _ v (in_scope want_keys (type_of path') outermost) w
          (chain path' rows) kk stack d number 2
          (begins_message path (length front) number k mode c picker refl p) refl)

  -- The field adds the rows that its entry adds.
  pub entry-Adds :
      (g : ℕ)
      → ((g' : ℕ) → Inner g')
      → Adds lib pb junk sub front picker kk stack d number contents mode c k s₀ s s₂ t Next r g
          rows path rows'
  unfolding scan_field
  entry-Adds zero n = subst (Succeeds After) (sym (scanned zero)) out_of_fuel
  entry-Adds (suc g) n =
      subst (Succeeds After) (sym (scanned (suc g)))
        (and_then-Succeeds (scan_Scanned g (n g)) ends_After)
