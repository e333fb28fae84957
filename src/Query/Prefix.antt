-- ===== src/Query/Prefix.antt =====
-- `GetDescSet` and `GetDesc` of querying.cpp: the part of a query before the path. `query_start` is
-- handed back with the result.
use postgres_protobuf.Common.{ℕ, ◌+◌, ◌-◌, none, some, ◌++◌, Bytes, text, find, find_from, substr}
use postgres_protobuf.Outcome.{bad_query}
use postgres_protobuf.Result.{Result, ok, err}
use postgres_protobuf.Library.{Protobuf}
use postgres_protobuf.DescriptorDb.{DescSet, DescDb, find_desc_set}

-- The name of the descriptor set and the new `query_start`: a set is named where the query has two
-- colons at least.
unfoldable pub split_desc_set : Bytes → Bytes × ℕ
split_desc_set query = elim (find b':' query) [
  | none ↦ (text "default", 0)
  | some i ↦ elim (find_from b':' (i + 1) query) [
    | none ↦ (text "default", 0)
    | some _ ↦ (substr query 0 i, i + 1)
  ]
]

unfoldable pub get_desc_set : DescDb → Bytes → Result (DescSet × ℕ)
get_desc_set desc_db query =
    let (desc_set_name, query_start) = split_desc_set query in
    elim (find_desc_set desc_set_name desc_db.desc_sets) [
      | none ↦ err (bad_query (text "descriptor set not found: " ++ desc_set_name))
      | some di ↦ ok (di, query_start)
    ]

unfoldable pub get_desc : Protobuf → DescSet → Bytes → ℕ → Result (ℕ × ℕ)
get_desc pb desc_set query query_start = elim (find_from b':' query_start query) [
  | none ↦ err (
      bad_query
        (text "invalid protobuf query - expected: [<descriptor_set>:]<message_name>:<path>"))
  | some i ↦
      elim (pb.find_message_type_by_name desc_set.pool
        (substr query query_start (i - query_start))) [
          | none ↦
              err (
                bad_query (text "unknown protobuf (did you remember to include the package name?)"))
          | some desc ↦ ok (desc, i + 1)
        ]
]
