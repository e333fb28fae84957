-- ===== src/Query/Compile.antt =====
-- `CompileQuery`, `Emitter::Create` and `Run` of querying.cpp.
pub mod Limit
pub mod Chain
pub mod Prefixes
pub mod EnumMaps
pub mod Paths
use postgres_protobuf.Common.{
  ℕ, zero, suc, ◌+◌, ◌-◌, ◌*◌, ◌/◌, ◌%◌, ◌^◌, ◌≤◌, ◌<◌, ◌≡◌, refl, sym, ap, ◌∙◌, ◌≢◌, ◌⊎◌, inl, inr,
  Bool, true, false, not, ◌&&◌, ◌||◌, Option, none, some, List, [], ◌∷◌, ◌++◌, map, arith, ltb, leb,
  ◌==◌, if◌then◌else◌, Bool-cases, Option-cases, length, get_elem?, set, take, drop, All,
  length-append, length-set, get_elem?-lt, Bytes, text, bytes_eq, bytes_eq_refl, bytes_eq→eq, find,
  find_from, substr, to_string, signed_to_string, upper_hex, pad2,
}
use postgres_protobuf.Outcome.{
  Error, bad_proto, bad_query, recursion_depth_exceeded, protobuf_not_found, limit_reached,
  assertion_failed, Outcome, done, thrown, stuck,
}
use postgres_protobuf.Result.{Result, ok, err, ◌>>=◌}
use postgres_protobuf.Library.{FieldType, Protobuf, CodedInputStream}
use postgres_protobuf.Field.{FieldInfo, Uninitialized, set_size}
use postgres_protobuf.DescriptorDb.{DescSet, DescDb}
use postgres_protobuf.Visitor.{
  Visitor, descend_into_submessage, primitive_emitter, enum_emitter, message_emitter,
  field_selector, map_filter, all_map_entries,
}
use postgres_protobuf.Visitor.Emitters.{Emitter, new_emitter}
use postgres_protobuf.Visitor.Treatments.{is_message}
use postgres_protobuf.Query.Prefix.{get_desc_set, get_desc}
use postgres_protobuf.Query.Part.{DescPtrs, compile_query_part, is_enum}
use postgres_protobuf.Traverser.{run_traverser}

abbrev pub asserted : Option ℕ → (ℕ → Result Visitor) → Result Visitor
asserted none k = err assertion_failed
asserted (some a) k = k a

-- `Emitter::Create`; a null descriptor fails the function's assertion.
unfoldable pub create_emitter : Protobuf → DescPtrs → ℕ → Option ℕ → Result Visitor
unfolding is_message is_enum new_emitter
create_emitter pb desc_ptrs type_resolver limit =
    if is_message desc_ptrs.ty
    then asserted desc_ptrs.desc (λ desc. ok (
        message_emitter type_resolver (text "type.googleapis.com/" ++ pb.full_name desc)
          (new_emitter FieldType.type_message limit)))
    else if is_enum desc_ptrs.ty
    then asserted desc_ptrs.enum_desc
        (λ d. ok (enum_emitter d (new_emitter FieldType.type_enum limit)))
    else ok (primitive_emitter (new_emitter desc_ptrs.ty limit))

-- The visitors so far and `desc_ptrs`.
abbrev pub Compiled : Type 0
Compiled = List Visitor × DescPtrs

abbrev pub descend : Compiled → Compiled
descend (visitors, ptrs) = (visitors ++ descend_into_submessage ∷ [], ptrs)

-- The loop over the characters of the path; `part_buf` comes back as it is after the last one.
unfoldable pub compile_path :
    Protobuf → Uninitialized → Bytes → Bytes → Compiled → Result (Bytes × Compiled)
unfolding compile_query_part
compile_path pb u [] part_buf c = ok (part_buf, c)
compile_path pb u (ch ∷ path) part_buf c =
    let closed =
      compile_query_part pb u part_buf c >>= λ c'. compile_path pb u path [] (descend c') in
    let longer = compile_path pb u path (part_buf ++ ch ∷ []) c in
    if ch == b'.' then closed else longer

-- `if (!part_buf.empty())`
abbrev pub compile_last : Protobuf → Uninitialized → Bytes × Compiled → Result Compiled
compile_last pb u ([], c) = ok c
compile_last pb u (b ∷ bs, c) = compile_query_part pb u (b ∷ bs) c

abbrev pub root_ptrs : ℕ → DescPtrs
root_ptrs desc = record {
  ty = FieldType.type_message;
  desc = some desc;
  enum_desc = none;
  is_repeated = false;
  is_map = false;
}

-- The root message is descended into unless the path is empty.
abbrev pub root_visitors : Bytes → List Visitor
root_visitors [] = []
root_visitors (ch ∷ path) = descend_into_submessage ∷ []

-- The part of `CompileQuery` that turns the path into visitors, given the root message.
unfoldable pub compile_visitors :
    Protobuf → Uninitialized → ℕ → ℕ → Bytes → Option ℕ → Result (List Visitor)
unfolding compile_path create_emitter compile_query_part
compile_visitors pb u type_resolver desc path limit = do
  r ← compile_path pb u path [] (root_visitors path, root_ptrs desc)
  (visitors', desc_ptrs) ← compile_last pb u r
  emitter ← create_emitter pb desc_ptrs type_resolver limit
  ok (visitors' ++ emitter ∷ [])

-- `CompileQuery`. The visitors are linked by their order: the next one is `next_`.
unfoldable pub compile_query :
    Protobuf → Uninitialized → DescDb → Bytes → Option ℕ → Result (List Visitor)
unfolding get_desc_set get_desc compile_visitors
compile_query pb u desc_db query limit = do
  (desc_set, start) ← get_desc_set desc_db query
  (desc, query_start) ← get_desc pb desc_set query start
  compile_visitors pb u desc_set.type_resolver desc (drop query_start query) limit

-- `emitter_->rows`; the emitter is the last visitor.
unfoldable pub emitted : List Visitor → List Bytes
emitted [] = []
emitted (primitive_emitter e ∷ []) = e.rows
emitted (enum_emitter d e ∷ []) = e.rows
emitted (message_emitter r url e ∷ []) = e.rows
emitted (v ∷ []) = []
emitted (v ∷ w ∷ vs) = emitted (w ∷ vs)

unfoldable pub without_rows : Visitor → Visitor
without_rows (primitive_emitter e) = primitive_emitter (record e { rows = [] })
without_rows (enum_emitter d e) = enum_emitter d (record e { rows = [] })
without_rows (message_emitter r url e) = message_emitter r url (record e { rows = [] })
without_rows v = v

unfoldable pub clear_rows : List Visitor → List Visitor
unfolding without_rows
clear_rows [] = []
clear_rows (v ∷ []) = without_rows v ∷ []
clear_rows (v ∷ w ∷ vs) = v ∷ clear_rows (w ∷ vs)

-- What `Run` returns, and the visitors that it leaves behind. `none`: the fuel ran out.
abbrev pub Ran : Type 0
Ran = Option (Result (List Bytes × List Visitor))

abbrev pub caught : Error → List Visitor → Result (List Bytes × List Visitor)
caught limit_reached vs = ok (emitted vs, clear_rows vs)
caught e vs = err e

abbrev pub finished : Outcome (List Visitor) (Unit {0}) → Ran
finished (done _ vs) = some (ok (emitted vs, clear_rows vs))
finished (thrown e vs) = some (caught e vs)
finished stuck = none

-- Nested traversers start at later and later visitors, so `level` need not pass their number.
unfoldable pub run : CodedInputStream → Protobuf → Uninitialized → List Visitor → Bytes → Ran
unfolding run_traverser emitted clear_rows
run lib pb u visitors proto =
    let fake_root_field : FieldInfo = record {
      number = 0;
      wire_type = 2;
      value = set_size u.scanned_value (length proto);
    } in
    finished (
      run_traverser lib pb u.scanned_value (suc (length visitors)) 0 fake_root_field proto visitors)
