-- ===== src/Sql/Json/Whole.antt =====
-- A query for a whole message against `protobuf_to_json_text`.
use postgres_protobuf.Common.{
  ℕ, ◌^◌, ◌<◌, ◌≡◌, refl, sym, ap, ◌∙◌, inl, inr, Option, none, some, List, [], ◌∷◌, ◌++◌, arith,
  Option-cases, length, Bytes, text, take-length, drop-length_cons, Without, find-append,
}
use native.Mathlib.Numerals.{add-one}
use postgres_protobuf.Outcome.{Outcome, done, and_then}
use postgres_protobuf.Result.{ok}
use postgres_protobuf.Library.{CodedInputStream, Protobuf, type_message}
use postgres_protobuf.Field.{Uninitialized}
use postgres_protobuf.Visitor.{
  Visitor, message_emitter, visit_buffered_value, visit_read_length_delimited_field, visit_popped,
}
use postgres_protobuf.Visitor.Emitters.{Emitter}
use postgres_protobuf.Traverser.{run_traverser, scan_field, scan_delimited, treat, visitors_of}
use postgres_protobuf.Traverser.Steps.{pop_visitor, emit, call}
use postgres_protobuf.Traverser.Equations.{as_size-set_size, read_contents-some}
use postgres_protobuf.Query.Compile.{run, finished, compile_visitors}
use postgres_protobuf.DescriptorDb.{DescSet, DescDb, find_desc_set}
use postgres_protobuf.DescriptorDb.Cache.{Descriptors, Cache}
use postgres_protobuf.Query.Compile.{compile_query}
use postgres_protobuf.Query.Compile.Prefixes.{query_of, compile_query-named}
use postgres_protobuf.Postgres.{Answer, returned, Memory}
use postgres_protobuf.Sql.{
  Call, handled, lift, report_query_error, first_row, rows_of, new_query, run_query, protobuf_query,
}
use postgres_protobuf.Sql.FirstRow.{IsEnough, first_row_enough}
use postgres_protobuf.Sql.Json.{
  split_desc_spec, get_protobuf_info_or_throw, convert_text, protobuf_to_json_text,
}
use postgres_protobuf.Sql.Json.Returned.{returned_text}

module _ (lib : CodedInputStream) (pb : Protobuf) (u : Uninitialized) where
  abbrev emitter_with : List Bytes → Emitter
  emitter_with rows = record { ty = type_message; limit = none; rows = rows }

  buffered :
      (r : ℕ) (url s json : Bytes)
      → pb.binary_to_json_string r (b't' ∷ url) s ≡ some json
      → visit_buffered_value pb s (message_emitter r (b't' ∷ url) (emitter_with []))
        ≡ (message_emitter r (b't' ∷ url) (emitter_with (json ∷ [])), none)
  unfolding visit_buffered_value
  buffered r url s json j = rw (j, visit_buffered_value) refl

  run_message :
      (r : ℕ) (url proto json : Bytes) (rest : lib.Stream)
      → length proto < 2 ^ 31
      → lib.read_string (length proto) (lib.create proto) ≡ some (proto, rest)
      → pb.binary_to_json_string r (b't' ∷ url) proto ≡ some json
      → run lib pb u (message_emitter r (b't' ∷ url) (emitter_with []) ∷ []) proto
        ≡ some (ok (json ∷ [], message_emitter r (b't' ∷ url) (emitter_with []) ∷ []))
  unfolding run run_traverser scan_field scan_delimited treat emit call
      visit_read_length_delimited_field visit_popped
  run_message r url proto json rest h e j =
      rw (as_size-set_size u.scanned_value (length proto) (omega arith)) (
        ap (λ o. finished (visitors_of lib (and_then (λ _. pop_visitor lib) o)))
          (read_contents-some lib pb u.scanned_value (run_traverser lib pb u.scanned_value 1) _
            (visit_buffered_value pb) (length proto) _ proto rest e)
        ∙ rw (buffered r url proto json j) refl)

  compile_whole :
      (r desc : ℕ) (limit : Option ℕ)
      → compile_visitors pb u r desc [] limit
        ≡ ok (
            message_emitter r (text "type.googleapis.com/" ++ pb.full_name desc) (emitter_with [])
            ∷ [])
  unfolding compile_visitors
  compile_whole r desc limit = refl

  split_named :
      (set_name message : Bytes)
      → Without b':' set_name
      → split_desc_spec (set_name ++ b':' ∷ message) ≡ (set_name, message)
  unfolding split_desc_spec
  split_named set_name message h =
      rw (find-append b':' set_name message h, split_desc_spec)
        (rw (take-length set_name (b':' ∷ message), add-one, drop-length_cons set_name b':' message)
          refl)

  -- What the JSON function has found.
  info_found :
      (db : DescDb) (set_name message name : Bytes) (r : ℕ)
      → Without b':' set_name
      → get_protobuf_info_or_throw pb db (set_name ++ b':' ∷ message) ≡ ok (name, r)
      → (name ≡ message)
        × (di : DescSet) × (desc : ℕ) × (find_desc_set set_name db.desc_sets ≡ some di)
        × (pb.find_message_type_by_name di.pool message ≡ some desc)
        × (di.type_resolver ≡ r)
  unfolding get_protobuf_info_or_throw
  info_found db set_name message name r h i =
      elim (Option-cases (find_desc_set set_name db.desc_sets)) [
        | inl f ↦ ground (arith, split_named set_name message h)
        | inr (di, f) ↦ elim (Option-cases (pb.find_message_type_by_name di.pool message)) [
          | inl g ↦ ground (arith, split_named set_name message h)
          | inr (desc, g) ↦ (
            ground (arith, split_named set_name message h),
            di,
            desc,
            f,
            g,
            ground (arith, split_named set_name message h),
          )
        ]
      ]

  -- What `query_of` gives for an empty path, and how it runs.
  whole_rows :
      (db : DescDb) (set_name message proto json : Bytes) (c : Cache) (rest : lib.Stream)
      (di : DescSet) (desc : ℕ)
      → find_desc_set set_name db.desc_sets ≡ some di
      → pb.find_message_type_by_name di.pool message ≡ some desc
      → pb.full_name desc ≡ message
      → length proto < 2 ^ 31
      → lib.read_string (length proto) (lib.create proto) ≡ some (proto, rest)
      → pb.binary_to_json_string di.type_resolver (text "type.googleapis.com/" ++ message) proto
        ≡ some json
      → and_then
          (λ visitors. rows_of (run lib pb u visitors proto))
          (lift (query_of pb u db set_name message [] (some 1)) c)
        ≡ done (json ∷ []) c
  unfolding query_of text
  whole_rows db set_name message proto json c rest di desc f g n h e j =
      rw (f, query_of)
        (rw (g, query_of)
          (rw (compile_whole di.type_resolver desc (some 1), n)
            (rw (run_message di.type_resolver _ proto json rest h e j) refl)))

  -- The body of `protobuf_query`, from its visitors on.
  abbrev answered :
      Memory → Bytes → Outcome Cache (List Visitor) → Option (Answer (Option Bytes) × Cache)
  answered memory proto o =
      handled report_query_error (
        and_then (first_row memory)
          (and_then (λ visitors. rows_of (run lib pb u visitors proto)) o))

  module _ (d : Descriptors) where
    -- Where there is memory, the stream reads back all of the message, and the library's messages
    -- carry the names that they are found by: whenever `protobuf_to_json_text` gives a JSON text for
    -- a message of the type `<descriptor set>:<message>`, `protobuf_query` gives the same text for
    -- the query `<descriptor set>:<message>:`, whose path is empty, and leaves the same cache.
    pub protobuf_query-protobuf_to_json_text :
        (call : Call) (set_name message proto json : Bytes) (c c' : Cache) (rest : lib.Stream)
        → Without b':' set_name
        → Without b':' message
        → ((pool desc : ℕ)
            → pb.find_message_type_by_name pool message ≡ some desc
            → pb.full_name desc ≡ message)
        → length proto < 2 ^ 31
        → lib.read_string (length proto) (lib.create proto) ≡ some (proto, rest)
        → IsEnough call.memory
        → protobuf_to_json_text pb d call (set_name ++ b':' ∷ message) proto c
          ≡ some (returned json, c')
        → protobuf_query lib pb u d call (set_name ++ b':' ∷ (message ++ b':' ∷ [])) proto c
          ≡ some (returned (some json), c')
    unfolding protobuf_to_json_text convert_text protobuf_query run_query new_query first_row
    protobuf_query-protobuf_to_json_text call set_name message proto json c c' rest hs hm named h e
          m r =
        let spec : Bytes = set_name ++ b':' ∷ message in
        let (db, o, p, i, j) =
          returned_text pb pb.binary_to_json_string d call spec proto json c c' m r in
        let (n, di, desc, f, g, t) = info_found db set_name message p.0 p.1 hs i in
        let found : pb.binary_to_json_string di.type_resolver
              (text "type.googleapis.com/" ++ message) proto
            ≡ some json =
          ap (λ k. pb.binary_to_json_string k (text "type.googleapis.com/" ++ message) proto) t
          ∙ ap (λ k. pb.binary_to_json_string p.1 (text "type.googleapis.com/" ++ k) proto) (sym n)
          ∙ j in
        let compile = λ (db : DescDb).
          lift (compile_query pb u db (set_name ++ b':' ∷ (message ++ b':' ∷ [])) (some 1)) in
        ap (answered call.memory proto) (ap (and_then compile) o)
        ∙ ap (λ v. answered call.memory proto (lift v c'))
            (compile_query-named pb u db set_name message [] (some 1) hs hm)
        ∙ ap (λ a. handled report_query_error (and_then (first_row call.memory) a))
            (whole_rows db set_name message proto json c' rest di desc f g (named di.pool desc g) h
              e found)
        ∙ ap (handled report_query_error) (first_row_enough call.memory (json ∷ []) c' m)
