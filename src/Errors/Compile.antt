-- ===== src/Errors/Compile.antt =====
-- The compiler of queries: `CompileQuery` and what it calls.
use postgres_protobuf.Common.{
  ℕ, ◌-◌, ◌%◌, ◌^◌, inl, inr, Bool, not, ◌&&◌, Option, none, some, [], ◌∷◌, ◌++◌, ◌==◌,
  if◌then◌else◌, Option-cases, length, take, drop, Bytes, text, bytes_eq, substr,
}
use postgres_protobuf.Common.Strto.{stoll, strtol}
use postgres_protobuf.Outcome.{Error, bad_query}
use postgres_protobuf.Result.{Result}
use postgres_protobuf.Library.{FieldDescriptor, Protobuf}
use postgres_protobuf.Field.{Uninitialized}
use postgres_protobuf.Visitor.{Visitor}
use postgres_protobuf.Visitor.Treatments.{is_message}
use postgres_protobuf.DescriptorDb.{DescDb}
use postgres_protobuf.Query.Part.{
  DescPtrs, is_enum, field_selector_end, starts_with_digit, found, find_field, describe,
  is_bracketed, select_index, select_entries, map_fields, select_map, is_empty, select_repeated,
  known, compile_query_part,
}
use postgres_protobuf.Query.Compile.{
  asserted, create_emitter, Compiled, descend, compile_path, compile_last, root_visitors, root_ptrs,
  compile_visitors, compile_query,
}
use postgres_protobuf.Errors.{IsCompileError}
use postgres_protobuf.Errors.Prefix.{get_desc_set-OnlyErr, get_desc-OnlyErr}
use postgres_protobuf.Errors.Keys.{wanted_key-OnlyErr, index_of-OnlyErr}
use postgres_protobuf.Errors.Results.{
  OnlyErr, on_ok, on_err, bind-OnlyErr, throw_if-OnlyErr, if-OnlyErr,
}

-- The function throws, if at all, an exception of the compiler.
abbrev pub Compiles : {A : Type 0} → Result A → Type 0
Compiles m = OnlyErr IsCompileError m

found-Compiles : (o : Option FieldDescriptor) (e : Error) → IsCompileError e → Compiles (found o e)
found-Compiles none e p = on_err p
found-Compiles (some fd) e p = on_ok

find_field-Compiles : (pb : Protobuf) (desc : ℕ) (part : Bytes) → Compiles (find_field pb desc part)
unfolding find_field
find_field-Compiles pb desc part =
    if-OnlyErr (starts_with_digit part)
      (if-OnlyErr ((strtol part).1 == field_selector_end part)
        (found-Compiles (pb.find_field_by_number desc ((strtol part).0 % 2 ^ 32)) (missing) tt)
        (on_err tt))
      (found-Compiles (pb.find_field_by_name desc (take (field_selector_end part) part)) missing tt)
  where
    missing : Error
    missing = bad_query (text "field not found: " ++ part ++ text " in " ++ pb.full_name desc)

select_index-Compiles : (s : Bytes) (ptrs : DescPtrs) → Compiles (select_index s ptrs)
unfolding select_index
select_index-Compiles s ptrs =
    if-OnlyErr (bytes_eq s (text "*")) on_ok
      (bind-OnlyErr (index_of-OnlyErr (λ message. tt) s (stoll s)) (λ n. on_ok))

known-Compiles : (o : Option ℕ) (part : Bytes) → Compiles (known o part)
known-Compiles none part = on_err tt
known-Compiles (some d) part = on_ok

map_fields-Compiles : (k v : Option FieldDescriptor) → Compiles (map_fields k v)
map_fields-Compiles (some k) (some v) = on_ok
map_fields-Compiles none v = on_err tt
map_fields-Compiles (some k) none = on_err tt

module _ (pb : Protobuf) (u : Uninitialized) where
  select_entries-Compiles :
      (keys : Bool) (s : Bytes) (k v : FieldDescriptor) (ptrs : DescPtrs)
      → Compiles (select_entries pb u keys s k v ptrs)
  unfolding select_entries
  select_entries-Compiles keys s k v ptrs = if-OnlyErr keys on_ok (
      if-OnlyErr (bytes_eq s (text "*")) on_ok
        (bind-OnlyErr (wanted_key-OnlyErr (λ message. tt) pb u k.type s) (λ key. on_ok)))

  select_map-Compiles :
      (keys : Bool) (s : Bytes) (ptrs : DescPtrs) → Compiles (select_map pb u keys s ptrs)
  unfolding select_map
  select_map-Compiles keys s ptrs = elim (Option-cases ptrs.desc) [
    | inl e ↦ rw (e, select_map) (on_err tt)
    | inr (entry, e) ↦
        rw (e, select_map)
          (bind-OnlyErr
            (map_fields-Compiles (pb.find_field_by_number entry 1)
              (pb.find_field_by_number entry 2))
            λ (k, v). select_entries-Compiles keys s k v ptrs)
  ]

  select_repeated-Compiles :
      (fd : FieldDescriptor) (s : Bytes) (ptrs : DescPtrs)
      → Compiles (select_repeated pb u fd s ptrs)
  unfolding select_repeated
  select_repeated-Compiles fd s ptrs =
      throw_if-OnlyErr (not (is_bracketed s) && not (bytes_eq s (text "|keys"))) _ tt (
        throw_if-OnlyErr (is_bracketed s && is_empty inner) _ tt (
          throw_if-OnlyErr (bytes_eq s (text "|keys") && not fd.is_map) _ tt (
            if-OnlyErr fd.is_map (select_map-Compiles (bytes_eq s (text "|keys")) inner ptrs)
              (select_index-Compiles inner ptrs))))
    where
      inner : Bytes
      inner = if is_bracketed s then substr s 1 (length s - 2) else s

  part-Compiles : (part : Bytes) (c : Compiled) → Compiles (compile_query_part pb u part c)
  unfolding compile_query_part
  part-Compiles part (vs, ptrs) = bind-OnlyErr (known-Compiles ptrs.desc part) λ desc.
      throw_if-OnlyErr (is_empty part) _ tt (
        bind-OnlyErr (find_field-Compiles pb desc part) λ fd.
          throw_if-OnlyErr (not fd.is_repeated && not (field_selector_end part == length part)) _ tt
            (bind-OnlyErr
              (if-OnlyErr fd.is_repeated
                (select_repeated-Compiles fd (drop (field_selector_end part) part) (describe fd))
                on_ok)
              (λ s. on_ok)))

  path-Compiles : (path buf : Bytes) (c : Compiled) → Compiles (compile_path pb u path buf c)
  unfolding compile_path
  path-Compiles [] buf c = on_ok
  path-Compiles (ch ∷ path) buf c =
      if-OnlyErr (ch == b'.')
        (bind-OnlyErr (part-Compiles buf c) (λ c'. path-Compiles path [] (descend c')))
        (path-Compiles path (buf ++ ch ∷ []) c)

  last-Compiles : (r : Bytes × Compiled) → Compiles (compile_last pb u r)
  last-Compiles ([], c) = on_ok
  last-Compiles (b ∷ bs, c) = part-Compiles (b ∷ bs) c

asserted-Compiles :
    (o : Option ℕ) (k : ℕ → Result Visitor) → ((n : ℕ) → Compiles (k n)) → Compiles (asserted o k)
asserted-Compiles none k h = on_err tt
asserted-Compiles (some n) k h = h n

create_emitter-Compiles :
    (pb : Protobuf) (ptrs : DescPtrs) (r : ℕ) (limit : Option ℕ)
    → Compiles (create_emitter pb ptrs r limit)
unfolding create_emitter
create_emitter-Compiles pb ptrs r limit =
    if-OnlyErr (is_message ptrs.ty) (asserted-Compiles ptrs.desc _ (λ n. on_ok))
      (if-OnlyErr (is_enum ptrs.ty) (asserted-Compiles ptrs.enum_desc _ (λ n. on_ok)) on_ok)

pub compile_query-Compiles :
    (pb : Protobuf) (u : Uninitialized) (db : DescDb) (query : Bytes) (limit : Option ℕ)
    → Compiles (compile_query pb u db query limit)
unfolding compile_query compile_visitors
compile_query-Compiles pb u db query limit =
    bind-OnlyErr (get_desc_set-OnlyErr (λ message. tt) db query) λ (di, start).
      bind-OnlyErr (get_desc-OnlyErr (λ message. tt) pb di query start) λ (desc, query_start).
        let path = drop query_start query in
        bind-OnlyErr (path-Compiles pb u path [] (root_visitors path, root_ptrs desc)) λ r.
          bind-OnlyErr (last-Compiles pb u r) λ (vs, ptrs).
            bind-OnlyErr (create_emitter-Compiles pb ptrs di.type_resolver limit) λ e. on_ok
