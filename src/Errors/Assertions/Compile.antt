-- ===== src/Errors/Assertions/Compile.antt =====
-- No assertion of `CompileQuery` fails.
use postgres_protobuf.Common.{
  ℕ, ◌-◌, ◌%◌, ◌^◌, ◌≡◌, refl, sym, inl, inr, Bool, true, false, not, ◌&&◌, Option, none, some, [],
  ◌∷◌, ◌++◌, ◌==◌, if◌then◌else◌, length, take, drop, Bytes, text, bytes_eq, substr,
}
use mathlib.Core.Path.{subst}
use postgres_protobuf.Common.Strto.{stoll, strtol}
use postgres_protobuf.Outcome.{Error, bad_query, assertion_failed}
use postgres_protobuf.Result.{Result, ok, err, ◌>>=◌}
use postgres_protobuf.Library.{FieldDescriptor, Protobuf}
use postgres_protobuf.Field.{Uninitialized}
use postgres_protobuf.Visitor.{Visitor}
use postgres_protobuf.Visitor.Treatments.{is_message}
use postgres_protobuf.DescriptorDb.{DescDb}
use postgres_protobuf.Query.Part.{
  DescPtrs, Selection, is_enum, field_selector_end, starts_with_digit, found, find_field, describe,
  when, is_bracketed, select_index, select_entries, map_fields, select_map, is_empty,
  select_repeated, known, compile_query_part,
}
use postgres_protobuf.Query.Compile.{
  asserted, create_emitter, Compiled, descend, compile_path, compile_last, root_visitors, root_ptrs,
  compile_visitors, compile_query,
}
use postgres_protobuf.Rows.Parts.Maps.{message_of}
use postgres_protobuf.Errors.Results.{OnlyErr, on_ok, on_err}
use postgres_protobuf.Errors.Keys.{wanted_key-OnlyErr, index_of-OnlyErr}
use postgres_protobuf.Errors.Prefix.{get_desc_set-OnlyErr, get_desc-OnlyErr}
use postgres_protobuf.Errors.Assertions.{
  IsTold, Yields, yields, tells, bind-Yields, throw_if-Yields, if-Yields, Yields-err, IsField,
  MapSchema, Pointed, is_set, describe-Pointed,
}

module _ (pb : Protobuf) where
  found-Yields :
      (o : Option FieldDescriptor) (e : Error)
      → IsTold e
      → ((fd : FieldDescriptor) → o ≡ some fd → IsField pb fd)
      → Yields (IsField pb) (found o e)
  found-Yields none e p h = tells p
  found-Yields (some fd) e p h = yields (h fd refl)

  find_field-Yields : (desc : ℕ) (part : Bytes) → Yields (IsField pb) (find_field pb desc part)
  unfolding find_field
  find_field-Yields desc part =
      if-Yields (starts_with_digit part)
        (λ _.
          if-Yields ((strtol part).1 == field_selector_end part)
            (λ _.
              found-Yields (pb.find_field_by_number desc ((strtol part).0 % 2 ^ 32)) missing tt
                (λ fd e. inl (desc, (strtol part).0 % 2 ^ 32, e)))
            (λ _. tells tt))
        (λ _.
          found-Yields (pb.find_field_by_name desc (take (field_selector_end part) part)) missing tt
            (λ fd e. inr (desc, take (field_selector_end part) part, e)))
    where
      missing : Error
      missing = bad_query (text "field not found: " ++ part ++ text " in " ++ pb.full_name desc)

OnlyErr-Yields : {A : Type 0} {m : Result A} → OnlyErr IsTold m → Yields (λ _. Unit {0}) m
OnlyErr-Yields on_ok = yields tt
OnlyErr-Yields (on_err p) = tells p

select_index-Yields :
    (s : Bytes) (ptrs : DescPtrs)
    → Pointed ptrs
    → Yields (λ (r : Selection). Pointed r.desc_ptrs) (select_index s ptrs)
unfolding select_index
select_index-Yields s ptrs p =
    if-Yields (bytes_eq s (text "*")) (λ _. yields p)
      (λ _.
        bind-Yields (OnlyErr-Yields (index_of-OnlyErr (λ message. tt) s (stoll s)))
          (λ n _. yields p))

not_both : {A : Type 0} {b : Bool} → b ≡ false → b ≡ true → A
not_both f t = cc

module _ (pb : Protobuf) (schema : MapSchema pb) (u : Uninitialized) (fd : FieldDescriptor)
    (is_field : IsField pb fd) (m : fd.is_map ≡ true) where
  select_entries-Yields :
      (keys : Bool) (s : Bytes) (k v : FieldDescriptor) (ptrs : DescPtrs)
      → pb.find_field_by_number fd.message_type 1 ≡ some k
      → pb.find_field_by_number fd.message_type 2 ≡ some v
      → Yields (λ (r : Selection). Pointed r.desc_ptrs) (select_entries pb u keys s k v ptrs)
  unfolding select_entries
  select_entries-Yields keys s k v ptrs e f =
      let (not_message, not_enum) = schema.key_type fd k is_field m e in
      let value_ptrs : Pointed
          (record ptrs { ty = v.type; desc = when (is_message v.type) v.message_type }) =
        (
          is_set (is_message v.type) v.message_type,
          not_both (schema.value_type fd v is_field m f),
        ) in
      if-Yields keys (λ _. yields (not_both not_message, not_both not_enum))
        (λ _.
          if-Yields (bytes_eq s (text "*")) (λ _. yields value_ptrs)
            (λ _.
              bind-Yields (OnlyErr-Yields (wanted_key-OnlyErr (λ message. tt) pb u k.type s))
                (λ key _. yields value_ptrs)))

  -- What follows the look-up of the key and the value field of an entry.
  fields-Yields :
      (keys : Bool) (s : Bytes) (ptrs : DescPtrs) (k v : Option FieldDescriptor)
      → pb.find_field_by_number fd.message_type 1 ≡ k
      → pb.find_field_by_number fd.message_type 2 ≡ v
      → Yields
          (λ (r : Selection). Pointed r.desc_ptrs)
          (map_fields k v >>= λ (k, v). select_entries pb u keys s k v ptrs)
  fields-Yields keys s ptrs (some k) (some v) e f = select_entries-Yields keys s k v ptrs e f
  fields-Yields keys s ptrs none v e f = tells tt
  fields-Yields keys s ptrs (some k) none e f = tells tt

  select_map-Yields :
      (keys : Bool) (s : Bytes)
      → Yields (λ (r : Selection). Pointed r.desc_ptrs) (select_map pb u keys s (describe fd))
  unfolding select_map
  select_map-Yields keys s =
      subst
        (λ o.
          Yields (λ (r : Selection). Pointed r.desc_ptrs)
            (elim o [
              | none ↦ err assertion_failed
              | some e ↦
                  (map_fields (pb.find_field_by_number e 1) (pb.find_field_by_number e 2)
                    >>= λ (k, v). select_entries pb u keys s k v (describe fd))
            ]))
        (sym (message_of fd (schema.entry_message fd is_field m)))
        (fields-Yields keys s (describe fd) _ _ refl refl)

module _ (pb : Protobuf) (schema : MapSchema pb) (u : Uninitialized) where
  select_repeated-Yields :
      (fd : FieldDescriptor) (s : Bytes)
      → IsField pb fd
      → Yields (λ (r : Selection). Pointed r.desc_ptrs) (select_repeated pb u fd s (describe fd))
  unfolding select_repeated
  select_repeated-Yields fd s f =
      throw_if-Yields (not (is_bracketed s) && not (bytes_eq s (text "|keys"))) _ tt λ _.
        throw_if-Yields (is_bracketed s && is_empty inner) _ tt λ _.
          throw_if-Yields (bytes_eq s (text "|keys") && not fd.is_map) _ tt λ _.
            if-Yields fd.is_map
              (λ m. select_map-Yields pb schema u fd f m (bytes_eq s (text "|keys")) inner)
              (λ _. select_index-Yields inner (describe fd) (describe-Pointed fd))
    where
      inner : Bytes
      inner = if is_bracketed s then substr s 1 (length s - 2) else s

  known-Yields : (o : Option ℕ) (part : Bytes) → Yields (λ _. Unit {0}) (known o part)
  known-Yields none part = tells tt
  known-Yields (some d) part = yields tt

  abbrev Aimed : Compiled → Type 0
  Aimed c = Pointed c.1

  part-Yields : (part : Bytes) (c : Compiled) → Yields Aimed (compile_query_part pb u part c)
  unfolding compile_query_part
  part-Yields part (vs, ptrs) = bind-Yields (known-Yields ptrs.desc part) λ desc _.
      throw_if-Yields (is_empty part) _ tt λ _. bind-Yields (find_field-Yields pb desc part) λ fd f.
        throw_if-Yields (not fd.is_repeated && not (field_selector_end part == length part)) _ tt
          λ _.
            bind-Yields {Q = λ (r : Selection). Pointed r.desc_ptrs}
              (if-Yields fd.is_repeated
                (λ _. select_repeated-Yields fd (drop (field_selector_end part) part) f)
                (λ _. yields (describe-Pointed fd)))
              (λ s p. yields p)

  path-Yields :
      (path buf : Bytes) (c : Compiled)
      → Aimed c
      → Yields (λ (r : Bytes × Compiled). Aimed r.1) (compile_path pb u path buf c)
  unfolding compile_path
  path-Yields [] buf c p = yields p
  path-Yields (ch ∷ path) buf c p =
      if-Yields (ch == b'.')
        (λ _. bind-Yields (part-Yields buf c) (λ c' p'. path-Yields path [] (descend c') p'))
        (λ _. path-Yields path (buf ++ ch ∷ []) c p)

  last-Yields : (r : Bytes × Compiled) → Aimed r.1 → Yields Aimed (compile_last pb u r)
  last-Yields ([], c) p = yields p
  last-Yields (b ∷ bs, c) p = part-Yields (b ∷ bs) c

asserted-Yields :
    (o : Option ℕ) (k : ℕ → Visitor) {d : ℕ}
    → o ≡ some d
    → Yields (λ _. Unit {0}) (asserted o (λ n. ok (k n)))
asserted-Yields none k e = cc
asserted-Yields (some n) k e = yields tt

create_emitter-Yields :
    (pb : Protobuf) (ptrs : DescPtrs) (r : ℕ) (limit : Option ℕ)
    → Pointed ptrs
    → Yields (λ _. Unit {0}) (create_emitter pb ptrs r limit)
unfolding create_emitter
create_emitter-Yields pb ptrs r limit (message, enum) =
    if-Yields (is_message ptrs.ty) (λ e. asserted-Yields ptrs.desc _ (message e).1)
      λ _.
        if-Yields (is_enum ptrs.ty) (λ e. asserted-Yields ptrs.enum_desc _ (enum e).1)
          (λ _. yields tt)

compile_query-Yields :
    (pb : Protobuf) (schema : MapSchema pb) (u : Uninitialized) (db : DescDb) (query : Bytes)
    (limit : Option ℕ)
    → Yields (λ _. Unit {0}) (compile_query pb u db query limit)
unfolding compile_query compile_visitors
compile_query-Yields pb schema u db query limit =
    bind-Yields (OnlyErr-Yields (get_desc_set-OnlyErr (λ message. tt) db query)) λ (di, start) _.
      bind-Yields (OnlyErr-Yields (get_desc-OnlyErr (λ message. tt) pb di query start))
        λ (desc, query_start) _.
          let path = drop query_start query in
          bind-Yields
            (path-Yields pb schema u path [] (root_visitors path, root_ptrs desc)
              (λ e. (desc, refl), λ e. cc))
            λ r p. bind-Yields (last-Yields pb schema u r p) λ (vs, ptrs) q.
              bind-Yields (create_emitter-Yields pb ptrs di.type_resolver limit q)
                λ emitter _. yields tt

-- Where the library describes maps as it documents, and the schema has no map with values of an enum,
-- no assertion of the compiler fails: every query compiles, or is refused with `BadQuery` or
-- `BadProto`.
pub compile_query-IsTold :
    (pb : Protobuf) (u : Uninitialized) (db : DescDb) (query : Bytes) (limit : Option ℕ) (e : Error)
    → MapSchema pb
    → compile_query pb u db query limit ≡ err e
    → IsTold e
compile_query-IsTold pb u db query limit e schema h =
    Yields-err (compile_query-Yields pb schema u db query limit) h
