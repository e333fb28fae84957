-- ===== src/Errors/Prefix.antt =====
-- The part of a query before its path.
use postgres_protobuf.Common.{ℕ, ◌-◌, inl, inr, Option-cases, Bytes, find_from, substr}
use postgres_protobuf.Outcome.{Error, bad_query}
use postgres_protobuf.Library.{Protobuf}
use postgres_protobuf.DescriptorDb.{DescSet, DescDb, find_desc_set}
use postgres_protobuf.Query.Prefix.{split_desc_set, get_desc_set, get_desc}
use postgres_protobuf.Errors.Results.{OnlyErr, on_ok, on_err}

module _ {P : Error → Type 0} (told : (message : Bytes) → P (bad_query message)) where
  pub get_desc_set-OnlyErr : (db : DescDb) (query : Bytes) → OnlyErr P (get_desc_set db query)
  unfolding get_desc_set
  get_desc_set-OnlyErr db query =
      elim (Option-cases (find_desc_set (split_desc_set query).0 db.desc_sets)) [
        | inl e ↦ rw (e, get_desc_set) (on_err (told _))
        | inr (di, e) ↦ rw (e, get_desc_set) on_ok
      ]

  pub get_desc-OnlyErr :
      (pb : Protobuf) (di : DescSet) (query : Bytes) (start : ℕ)
      → OnlyErr P (get_desc pb di query start)
  unfolding get_desc
  get_desc-OnlyErr pb di query start = elim (Option-cases (find_from b':' start query)) [
    | inl e ↦ rw (e, get_desc) (on_err (told _))
    | inr (i, e) ↦
        elim (Option-cases
          (pb.find_message_type_by_name di.pool (substr query start (i - start)))) [
            | inl m ↦ rw (e, m, get_desc) (on_err (told _))
            | inr (d, m) ↦ rw (e, m, get_desc) on_ok
          ]
  ]
