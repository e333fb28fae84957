-- ===== src/Samples/Examples.antt =====
-- The theorems on queries at concrete inputs.
use postgres_protobuf.Common.{
  ◌≡◌, refl, true, false, none, some, List, [], ◌∷◌, ◌++◌, Bytes, codes, text, bytes_eq, find,
  cons-ne-nil,
}
use postgres_protobuf.Result.{Result, ok, err, ◌>>=◌}
use postgres_protobuf.Outcome.{assertion_failed}
use postgres_protobuf.Library.{FieldDescriptor, type_int32, type_message, type_enum}
use postgres_protobuf.Visitor.{
  Visitor, descend_into_submessage, field_selector, primitive_emitter, all_map_entries,
}
use postgres_protobuf.Visitor.Entries.{EntriesScope}
use postgres_protobuf.Query.Part.{DescPtrs, compile_query_part}
use postgres_protobuf.Query.Compile.{
  Compiled, root_ptrs, descend, compile_path, compile_last, compile_visitors, compile_query,
  create_emitter, run,
}
use postgres_protobuf.Query.Compile.Limit.{compile_query_limit}
use postgres_protobuf.Query.Compile.Prefixes.{query_of, compile_query-named, compile_query-default}
use postgres_protobuf.Query.Compile.Paths.{
  compile_parts, compile_path-join, compile_path-trailing_dot,
}
use postgres_protobuf.Query.Compile.Chain.{IsChain, compile_visitors-IsChain}
use postgres_protobuf.Query.Compile.EnumMaps.{compile_query_part-enum_map}
use postgres_protobuf.Query.Totality.{run-total}
use postgres_protobuf.Samples.Visitors.{selector_a}
use postgres_protobuf.Samples.WireStream.{wire_stream}
use postgres_protobuf.Samples.WireStream.Forward.{wire_stream-Progress}
use postgres_protobuf.Samples.Library.{
  sample_protobuf, sample_uninitialized, sample_db, sample_field_by_name, sample_field_by_number,
}

-- The visitors of the query `M:a`.
abbrev pub visitors_a : List Visitor
visitors_a =
    descend_into_submessage
    ∷ field_selector selector_a
    ∷ primitive_emitter (record { ty = type_int32; limit = none; rows = [] })
    ∷ []

run-total_example :
    (r : Result (List Bytes × List Visitor)) × (run wire_stream sample_protobuf sample_uninitialized
        visitors_a
        (8 ∷ 150 ∷ 1 ∷ [])
      ≡ some r)
run-total_example =
    run-total wire_stream sample_protobuf sample_uninitialized visitors_a (8 ∷ 150 ∷ 1 ∷ [])
      wire_stream-Progress

compile_query-named_example :
    compile_query sample_protobuf sample_uninitialized sample_db
      (codes "default" ++ b':' ∷ (codes "M" ++ b':' ∷ codes "g[x:y]"))
      none
    ≡ query_of sample_protobuf sample_uninitialized sample_db
        (codes "default")
        (codes "M")
        (codes "g[x:y]")
        none
unfolding find
compile_query-named_example =
    compile_query-named sample_protobuf sample_uninitialized sample_db (codes "default") (codes "M")
      (codes "g[x:y]") none refl refl

compile_query-default_example :
    compile_query sample_protobuf sample_uninitialized sample_db
      (codes "M" ++ b':' ∷ codes "d.a")
      none
    ≡ query_of sample_protobuf sample_uninitialized sample_db
        (text "default")
        (codes "M")
        (codes "d.a")
        none
unfolding find
compile_query-default_example =
    compile_query-default sample_protobuf sample_uninitialized sample_db (codes "M") (codes "d.a")
      none refl refl

abbrev root : Compiled
root = (descend_into_submessage ∷ [], root_ptrs 1)

compile_path-join_example :
    (compile_path sample_protobuf sample_uninitialized (codes "d.a") [] root
      >>= compile_last sample_protobuf sample_uninitialized)
    ≡ compile_parts sample_protobuf sample_uninitialized (codes "d") (codes "a" ∷ []) root
unfolding find
compile_path-join_example =
    compile_path-join sample_protobuf sample_uninitialized (codes "d") (codes "a" ∷ []) root
      (cons-ne-nil _ _, refl) ((cons-ne-nil _ _, refl), tt)

compile_path-trailing_dot_example :
    (compile_path sample_protobuf sample_uninitialized (codes "d.") [] root
      >>= compile_last sample_protobuf sample_uninitialized)
    ≡ (compile_parts sample_protobuf sample_uninitialized (codes "d") [] root >>= λ c.
        ok (descend c))
unfolding find
compile_path-trailing_dot_example =
    compile_path-trailing_dot sample_protobuf sample_uninitialized (codes "d") [] root
      (cons-ne-nil _ _, refl) tt

compiled_a :
    compile_visitors sample_protobuf sample_uninitialized 0 1 (codes "a") (some 1) ≡ ok visitors_a
unfolding compile_visitors sample_field_by_name text bytes_eq find
compiled_a = refl

compile_visitors-IsChain_example : IsChain visitors_a
compile_visitors-IsChain_example =
    compile_visitors-IsChain sample_protobuf sample_uninitialized 0 1 (codes "a") (some 1)
      visitors_a compiled_a

compile_query_limit_example :
    compile_query sample_protobuf sample_uninitialized sample_db (codes "M:f[*]") (some 1)
    ≡ compile_query sample_protobuf sample_uninitialized sample_db (codes "M:f[*]") none
compile_query_limit_example =
    compile_query_limit sample_protobuf sample_uninitialized sample_db (codes "M:f[*]") (some 1)
      none

abbrev entry_fields_g : FieldDescriptor
entry_fields_g = record {
  number = 2;
  type = type_enum;
  is_repeated = false;
  is_map = false;
  is_packed = false;
  message_type = 1;
  enum_type = 0;
}

abbrev field_g : FieldDescriptor
field_g = record {
  number = 7;
  type = type_message;
  is_repeated = true;
  is_map = true;
  is_packed = false;
  message_type = 3;
  enum_type = 0;
}

abbrev ptrs_g : DescPtrs
ptrs_g = record { ty = type_enum; desc = none; enum_desc = none; is_repeated = true; is_map = true }

abbrev visitors_g : List Visitor
visitors_g =
    field_selector (record selector_a { wanted_field = 7; ty = type_message })
    ∷ all_map_entries (record { want_keys = false; ty = type_enum; scope = EntriesScope.outermost })
    ∷ []

compile_query_part-enum_map_example :
    create_emitter sample_protobuf ptrs_g 0 none ≡ err assertion_failed
unfolding compile_query_part sample_field_by_name sample_field_by_number bytes_eq find text
compile_query_part-enum_map_example =
    compile_query_part-enum_map sample_protobuf sample_uninitialized (codes "g[*]")
      ([], root_ptrs 1) (visitors_g, ptrs_g) 0 none 1 3 field_g entry_fields_g refl refl refl refl
      refl refl refl refl refl refl
