-- ===== src/Rows/Parts/Maps.antt =====
-- The parts of a query's path that select the keys or the values of a map.
use postgres_protobuf.Common.{
  ℕ, ◌≡◌, refl, ap, ◌∙◌, Bool, true, false, not, Option, none, some, List, [], ◌∷◌, ◌++◌,
  if◌then◌else◌, length, take, drop, Bytes, codes, text, bytes_eq, take-length, drop-length,
  Without, find-append,
}
use postgres_protobuf.Outcome.{assertion_failed, bad_query}
use postgres_protobuf.Result.{Result, ok, err, ◌>>=◌, ◌>>◌, throw_if}
use postgres_protobuf.Library.{FieldDescriptor, Protobuf, type_message}
use postgres_protobuf.Field.{Uninitialized}
use postgres_protobuf.Visitor.{Visitor, all_map_entries}
use postgres_protobuf.Visitor.Entries.{new_all_map_entries}
use postgres_protobuf.Visitor.Treatments.{is_message}
use postgres_protobuf.Query.Part.{
  DescPtrs, Selection, starts_with_digit, field_selector_end, describe, plain, is_bracketed, when,
  map_fields, select_entries, select_map, select_index, select_repeated, compile_query_part,
}
use postgres_protobuf.Rows.Spec.{ready}
use postgres_protobuf.Rows.Parts.{not_empty_append, end_of_bracketed, find_named, compile_found}

-- A part that names a map of a message, with `[*]` for its values or `|keys` for its keys; `f` is the
-- field of an entry that holds them.
pub data Entries (pb : Protobuf) (desc : ℕ) (fd : FieldDescriptor)
    : FieldDescriptor → Bool → Bytes → Type 0 where
  values :
      (name : Bytes) (key_field value_field : FieldDescriptor)
      → starts_with_digit (name ++ codes "[*]") ≡ false
      → Without b'[' name
      → Without b'|' (name ++ codes "[*]")
      → pb.find_field_by_name desc name ≡ some fd
      → fd.is_repeated ≡ true
      → fd.is_map ≡ true
      → fd.is_packed ≡ false
      → fd.type ≡ type_message
      → pb.find_field_by_number fd.message_type 1 ≡ some key_field
      → pb.find_field_by_number fd.message_type 2 ≡ some value_field
      → Entries pb desc fd value_field false (name ++ codes "[*]")
  keys :
      (name : Bytes) (key_field value_field : FieldDescriptor)
      → starts_with_digit (name ++ codes "|keys") ≡ false
      → Without b'[' (name ++ codes "|keys")
      → Without b'|' name
      → pb.find_field_by_name desc name ≡ some fd
      → fd.is_repeated ≡ true
      → fd.is_map ≡ true
      → fd.is_packed ≡ false
      → fd.type ≡ type_message
      → pb.find_field_by_number fd.message_type 1 ≡ some key_field
      → pb.find_field_by_number fd.message_type 2 ≡ some value_field
      → Entries pb desc fd key_field true (name ++ codes "|keys")

pub entries_message :
    {pb : Protobuf} {desc : ℕ} {fd f : FieldDescriptor} {want_keys : Bool} {part : Bytes}
    → Entries pb desc fd f want_keys part
    → fd.type ≡ type_message
entries_message (values name k v g b o n r m p t kf vf) = t
entries_message (keys name k v g b o n r m p t kf vf) = t

-- What the part leaves in `desc_ptrs`.
abbrev pub entry_ptrs : Bool → FieldDescriptor → FieldDescriptor → DescPtrs
entry_ptrs true fd f = record (describe fd) { ty = f.type }
entry_ptrs false fd f = record (describe fd) {
  ty = f.type;
  desc = when (is_message f.type) f.message_type;
}

abbrev pub entries_of : Bool → FieldDescriptor → Visitor
entries_of want_keys f = all_map_entries (new_all_map_entries want_keys f.type)

abbrev selection_of : Bool → FieldDescriptor → FieldDescriptor → Selection
selection_of want_keys fd f = record {
  wanted_index = none;
  added = entries_of want_keys f ∷ [];
  desc_ptrs = entry_ptrs want_keys fd f;
}

pub message_of :
    (fd : FieldDescriptor) → fd.type ≡ type_message → (describe fd).desc ≡ some fd.message_type
unfolding describe is_message
message_of fd e = ap (λ t. when (is_message t) fd.message_type) e

module _ (pb : Protobuf) (u : Uninitialized) (fd key_field value_field : FieldDescriptor)
    (m : fd.is_map ≡ true) (t : fd.type ≡ type_message)
    (k : pb.find_field_by_number fd.message_type 1 ≡ some key_field)
    (v : pb.find_field_by_number fd.message_type 2 ≡ some value_field) where
  module _ (keys_selector : Bool) (filter_str : Bytes) (ptrs : DescPtrs) where
    abbrev with_fields : Option FieldDescriptor → Option FieldDescriptor → Result Selection
    with_fields a b =
        map_fields a b >>= λ (a, b). select_entries pb u keys_selector filter_str a b ptrs

    abbrev with_entry : Option ℕ → Result Selection
    with_entry o = elim o [
      | none ↦ err assertion_failed
      | some e ↦ with_fields (pb.find_field_by_number e 1) (pb.find_field_by_number e 2)
    ]

    map_found :
        ptrs.desc ≡ some fd.message_type
        → select_map pb u keys_selector filter_str ptrs
          ≡ select_entries pb u keys_selector filter_str key_field value_field ptrs
    unfolding select_map
    map_found d =
        ap with_entry d
        ∙ ap (λ a. with_fields a (pb.find_field_by_number fd.message_type 2)) k
        ∙ ap (with_fields (some key_field)) v

  values_selected :
      select_repeated pb u fd (codes "[*]") (describe fd) ≡ ok (selection_of false fd value_field)
  unfolding select_repeated is_bracketed bytes_eq text select_entries
  values_selected =
      ap
        (λ b.
          if b
          then select_map pb u false (codes "*") (describe fd)
          else select_index (codes "*") (describe fd))
        m
      ∙ map_found false (codes "*") (describe fd) (message_of fd t)

  keys_selected :
      select_repeated pb u fd (codes "|keys") (describe fd) ≡ ok (selection_of true fd key_field)
  unfolding select_repeated is_bracketed bytes_eq text select_entries
  keys_selected =
      ap
        (λ b.
          throw_if (not b) (bad_query (text "'|keys' can only be used on maps"))
          >> (if b
              then select_map pb u true (codes "|keys") (describe fd)
              else select_index (codes "|keys") (describe fd)))
        m
      ∙ map_found true (codes "|keys") (describe fd) (message_of fd t)

end_of_keys :
    (name s : Bytes)
    → Without b'[' (name ++ b'|' ∷ s)
    → Without b'|' name
    → field_selector_end (name ++ b'|' ∷ s) ≡ length name
unfolding field_selector_end
end_of_keys name s b o = rw (b, find-append b'|' name s o) refl

module _ (pb : Protobuf) (u : Uninitialized) where
  -- A part that selects entries compiles to a selector of the map's field and a visitor of its
  -- entries.
  pub compile_query_part-Entries :
      (desc : ℕ) (fd f : FieldDescriptor) (want_keys : Bool) (part : Bytes)
      (visitors : List Visitor) (ptrs : DescPtrs)
      → Entries pb desc fd f want_keys part
      → ptrs.desc ≡ some desc
      → compile_query_part pb u part (visitors, ptrs)
        ≡ ok (
          visitors ++ ready fd.number none fd.type ∷ entries_of want_keys f ∷ [],
          entry_ptrs want_keys fd f,
        )
  compile_query_part-Entries desc fd f _ _ visitors ptrs
        (values name key_field value_field g b o n r m p t kf vf) d =
      let part : Bytes = name ++ codes "[*]" in
      let end : field_selector_end part ≡ length name =
        end_of_bracketed pb u name (codes "*]") b o in
      compile_found pb u desc fd part (length name) none (entries_of false value_field ∷ [])
        (entry_ptrs false fd value_field) visitors ptrs d (not_empty_append name b'[' _)
        (find_named pb u desc part name fd g (ap (λ k. take k part) end ∙ take-length name _) n) end
        (rw r refl)
        (ap
            (λ b.
              if b
              then select_repeated pb u fd (drop (length name) part) (describe fd)
              else ok (plain (describe fd)))
            r
          ∙ ap (λ s. select_repeated pb u fd s (describe fd)) (drop-length name (codes "[*]"))
          ∙ values_selected pb u fd key_field value_field m t kf vf)
        p
  compile_query_part-Entries desc fd f _ _ visitors ptrs
        (keys name key_field value_field g b o n r m p t kf vf) d =
      let part : Bytes = name ++ codes "|keys" in
      let end : field_selector_end part ≡ length name = end_of_keys name (codes "keys") b o in
      compile_found pb u desc fd part (length name) none (entries_of true key_field ∷ [])
        (entry_ptrs true fd key_field) visitors ptrs d (not_empty_append name b'|' _)
        (find_named pb u desc part name fd g (ap (λ k. take k part) end ∙ take-length name _) n) end
        (rw r refl)
        (ap
            (λ b.
              if b
              then select_repeated pb u fd (drop (length name) part) (describe fd)
              else ok (plain (describe fd)))
            r
          ∙ ap (λ s. select_repeated pb u fd s (describe fd)) (drop-length name (codes "|keys"))
          ∙ keys_selected pb u fd key_field value_field m t kf vf)
        p
