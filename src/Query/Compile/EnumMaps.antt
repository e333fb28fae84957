-- ===== src/Query/Compile/EnumMaps.antt =====
-- Maps whose values are of an enum type.
use postgres_protobuf.Common.{
  ℕ, ◌-◌, ◌≡◌, ap, inl, inr, true, false, not, ◌&&◌, Option, none, some, arith, ◌==◌, if◌then◌else◌,
  Option-cases, length, drop, Bytes, text, bytes_eq, substr,
}
use postgres_protobuf.Outcome.{assertion_failed}
use postgres_protobuf.Result.{
  ok, err, Ensures, returns, throws, bind-Ensures, any-Ensures, if-Ensures, throw_if-Ensures,
  Ensures-ok,
}
use postgres_protobuf.Library.{Protobuf, FieldDescriptor, type_message, type_enum}
use postgres_protobuf.Field.{Uninitialized}
use postgres_protobuf.Query.Part.{
  DescPtrs, Selection, describe, wanted_key, is_bracketed, is_empty, plain, find_field,
  field_selector_end, select_entries, select_map, select_repeated, compile_query_part,
}
use postgres_protobuf.Query.Compile.{Compiled, create_emitter}

-- The state in which `Emitter::Create` fails its assertion: an enum with no enum descriptor.
abbrev Unset : DescPtrs → Type 0
Unset p = (p.ty ≡ type_enum) × (p.enum_desc ≡ none)

create_emitter-Unset :
    (pb : Protobuf) (p : DescPtrs) (r : ℕ) (limit : Option ℕ)
    → Unset p
    → create_emitter pb p r limit ≡ err assertion_failed
unfolding create_emitter
create_emitter-Unset pb p r limit (t, e) = ground arith

module _ (pb : Protobuf) (u : Uninitialized) where
  entries-Unset :
      (s : Bytes) (k v : FieldDescriptor) (p : DescPtrs)
      → v.type ≡ type_enum
      → p.enum_desc ≡ none
      → Ensures (λ (s : Selection). Unset s.desc_ptrs) (select_entries pb u false s k v p)
  unfolding select_entries
  entries-Unset s k v p t e =
      if-Ensures (bytes_eq s (text "*")) (returns (t, e))
        (bind-Ensures (any-Ensures (wanted_key pb u k.type s)) λ key _. returns (t, e))

  map-Unset :
      (s : Bytes) (p : DescPtrs) {entry : ℕ} {v : FieldDescriptor}
      → p.desc ≡ some entry
      → pb.find_field_by_number entry 2 ≡ some v
      → v.type ≡ type_enum
      → p.enum_desc ≡ none
      → Ensures (λ (s : Selection). Unset s.desc_ptrs) (select_map pb u false s p)
  unfolding select_map
  map-Unset s p {entry} {v} d f t e =
      rw (d, select_map)
        (elim (Option-cases (pb.find_field_by_number entry 1)) [
          | inl m ↦ rw m throws
          | inr (k, m) ↦ rw (m, f) (entries-Unset s k v p t e)
        ])

  repeated-Unset :
      (fd : FieldDescriptor) (s : Bytes) (p : DescPtrs) {entry : ℕ} {v : FieldDescriptor}
      → fd.is_map ≡ true
      → bytes_eq s (text "|keys") ≡ false
      → p.desc ≡ some entry
      → pb.find_field_by_number entry 2 ≡ some v
      → v.type ≡ type_enum
      → p.enum_desc ≡ none
      → Ensures (λ (s : Selection). Unset s.desc_ptrs) (select_repeated pb u fd s p)
  unfolding select_repeated
  repeated-Unset fd s p m k d f t e =
      let bracketed = is_bracketed s in
      let inner = if bracketed then substr s 1 (length s - 2) else s in
      rw (k, m)
        (throw_if-Ensures (not bracketed && true) _
          (throw_if-Ensures (bracketed && is_empty inner) _ (map-Unset inner p d f t e)))

  selected-Unset :
      (fd : FieldDescriptor) (s : Bytes) (p : DescPtrs)
      → fd.is_repeated ≡ true
      → Ensures (λ (s : Selection). Unset s.desc_ptrs) (select_repeated pb u fd s p)
      → Ensures
          (λ (s : Selection). Unset s.desc_ptrs)
          (if fd.is_repeated then select_repeated pb u fd s p else ok (plain p))
  selected-Unset fd s p rep h = simp rep h

  -- A part of a query that selects the values of a map, where the map's values are of an enum type,
  -- leaves the compiler without the enum's descriptor: if the part ends the query, creating the
  -- emitter fails its assertion.
  pub compile_query_part-enum_map :
      (part : Bytes) (c c' : Compiled) (r : ℕ) (limit : Option ℕ) (desc entry : ℕ)
      (fd v : FieldDescriptor)
      → c.1.desc ≡ some desc
      → find_field pb desc part ≡ ok fd
      → fd.type ≡ type_message
      → fd.is_repeated ≡ true
      → fd.is_map ≡ true
      → fd.message_type ≡ entry
      → pb.find_field_by_number entry 2 ≡ some v
      → v.type ≡ type_enum
      → bytes_eq (drop (field_selector_end part) part) (text "|keys") ≡ false
      → compile_query_part pb u part c ≡ ok c'
      → create_emitter pb c'.1 r limit ≡ err assertion_failed
  unfolding compile_query_part describe
  compile_query_part-enum_map part (vs, ptrs) c' r limit desc entry fd v d ff t rep m en f vt nk e =
      create_emitter-Unset pb c'.1 r limit (Ensures-ok {P = λ (c : Compiled). Unset c.1} compiled e)
    where
      compiled : Ensures (λ (c : Compiled). Unset c.1) (compile_query_part pb u part (vs, ptrs))
      compiled =
          rw (d, ff)
            (throw_if-Ensures (is_empty part) _ (
              throw_if-Ensures (not fd.is_repeated && not (field_selector_end part == length part))
                _
                (bind-Ensures
                  (selected-Unset fd (drop (field_selector_end part) part) (describe fd) rep (
                    repeated-Unset fd (drop (field_selector_end part) part) (describe fd) m nk
                      (rw t (ap some en)) f vt (rw t)))
                  λ s h. returns h)))
