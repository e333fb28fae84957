-- ===== src/Query/Compile/Prefixes.antt =====
-- What a whole query means: which descriptor set, which message and which path it names.
use postgres_protobuf.Common.{
  ℕ, ◌+◌, ◌-◌, ◌≡◌, refl, ap, Option, none, some, List, ◌∷◌, ◌++◌, arith, length, drop,
  length-append, Bytes, text, find, find_from, substr, take-length, drop-length_cons, Without,
  find-append, find_from-append,
}
use native.Mathlib.Numerals.{add-one}
use mathlib.Core.List.{append_assoc}
use postgres_protobuf.Outcome.{bad_query}
use postgres_protobuf.Result.{Result, err}
use postgres_protobuf.Library.{Protobuf}
use postgres_protobuf.Field.{Uninitialized}
use postgres_protobuf.DescriptorDb.{DescDb, find_desc_set}
use postgres_protobuf.Visitor.{Visitor}
use postgres_protobuf.Query.Prefix.{split_desc_set, get_desc_set, get_desc}
use postgres_protobuf.Query.Compile.{compile_visitors, compile_query}

-- The query for the path in the message of the descriptor set.
unfoldable pub query_of :
    Protobuf → Uninitialized → DescDb → Bytes → Bytes → Bytes → Option ℕ → Result (List Visitor)
query_of pb u db set_name message path limit = elim (find_desc_set set_name db.desc_sets) [
  | none ↦ err (bad_query (text "descriptor set not found: " ++ set_name))
  | some s ↦ elim (pb.find_message_type_by_name s.pool message) [
    | none ↦
        err (bad_query (text "unknown protobuf (did you remember to include the package name?)"))
    | some desc ↦ compile_visitors pb u s.type_resolver desc path limit
  ]
]

split_named :
    (set_name rest : Bytes) {k : ℕ}
    → Without b':' set_name
    → find b':' rest ≡ some k
    → split_desc_set (set_name ++ b':' ∷ rest) ≡ (set_name, length set_name + 1)
unfolding split_desc_set
split_named set_name rest h e =
    rw (find-append b':' set_name rest h, split_desc_set)
      (rw (find_from-append b':' set_name rest, split_desc_set)
        (rw (e, split_desc_set) (rw (take-length set_name (b':' ∷ rest)) refl)))

split_default :
    (message path : Bytes)
    → Without b':' message
    → Without b':' path
    → split_desc_set (message ++ b':' ∷ path) ≡ (text "default", 0)
unfolding split_desc_set
split_default message path h e =
    rw (find-append b':' message path h, split_desc_set)
      (rw (find_from-append b':' message path, split_desc_set) (rw (e, split_desc_set) refl))

-- From the three positions in the query to its meaning.
compile_query-query_of :
    (pb : Protobuf) (u : Uninitialized) (db : DescDb) (query set_name message path : Bytes)
    (limit : Option ℕ) (start i : ℕ)
    → split_desc_set query ≡ (set_name, start)
    → find_from b':' start query ≡ some i
    → substr query start (i - start) ≡ message
    → drop (i + 1) query ≡ path
    → compile_query pb u db query limit ≡ query_of pb u db set_name message path limit
unfolding compile_query query_of get_desc_set get_desc
compile_query-query_of pb u db query set_name message path limit start i e f g h = ground arith

find_from-zero :
    (c : ℕ) (xs ys : Bytes) → Without c xs → find_from c 0 (xs ++ c ∷ ys) ≡ some (length xs)
unfolding find_from
find_from-zero c xs ys h = rw (find-append c xs ys h) (ap some (omega arith))

sum_sub : (a b : ℕ) → a + b - a ≡ b
sum_sub a b = omega arith

sub_zero : (a : ℕ) → a - 0 ≡ a
sub_zero a = omega arith

drop_one-length : (xs : Bytes) (y : ℕ) (ys : Bytes) → drop (length xs + 1) (xs ++ y ∷ ys) ≡ ys
drop_one-length xs y ys = rw add-one (drop-length_cons xs y ys)

-- A query `<descriptor set>:<message>:<path>`, whose first two parts hold no colon, is the query
-- for that path in that message of that descriptor set; the path may hold colons.
pub compile_query-named :
    (pb : Protobuf) (u : Uninitialized) (db : DescDb) (set_name message path : Bytes)
    (limit : Option ℕ)
    → Without b':' set_name
    → Without b':' message
    → compile_query pb u db (set_name ++ b':' ∷ (message ++ b':' ∷ path)) limit
      ≡ query_of pb u db set_name message path limit
compile_query-named pb u db set_name message path limit hs hm =
    let rest : Bytes = message ++ b':' ∷ path in
    let start : ℕ = length set_name + 1 in
    compile_query-query_of pb u db _ set_name message path limit start (start + length message)
      (split_named set_name rest hs (find-append b':' message path hm))
      (rw (find_from-append b':' set_name rest, find-append b':' message path hm))
      (rw (drop_one-length set_name b':' rest, sum_sub start (length message))
        (take-length message (b':' ∷ path)))
      (rw (← append_assoc set_name (b':' ∷ message) (b':' ∷ path), position)
        (drop_one-length (set_name ++ b':' ∷ message) b':' path))
  where
    position : length set_name + 1 + length message ≡ length (set_name ++ b':' ∷ message)
    position = omega (arith, length-append set_name (b':' ∷ message))

-- A query `<message>:<path>` with no other colon is the query for that path in that message of the
-- descriptor set `default`.
pub compile_query-default :
    (pb : Protobuf) (u : Uninitialized) (db : DescDb) (message path : Bytes) (limit : Option ℕ)
    → Without b':' message
    → Without b':' path
    → compile_query pb u db (message ++ b':' ∷ path) limit
      ≡ query_of pb u db (text "default") message path limit
compile_query-default pb u db message path limit hm hp =
    compile_query-query_of pb u db _ (text "default") message path limit 0 (length message)
      (split_default message path hm hp) (find_from-zero b':' message path hm)
      (rw (sub_zero (length message)) (take-length message (b':' ∷ path)))
      (drop_one-length message b':' path)
