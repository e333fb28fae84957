-- ===== src/DescriptorDb/Cache.antt =====
-- `DescDb::GetOrCreateCached` and `DescDb::ClearCache` of descriptor_db.cpp: the descriptor sets of
-- the table, kept from the first query of a transaction to the transaction's end.
pub mod Contents
pub mod Transactions
use postgres_protobuf.Common.{
  ℕ, zero, suc, ◌+◌, ◌-◌, ◌*◌, ◌/◌, ◌%◌, ◌^◌, ◌≤◌, ◌<◌, ◌≡◌, refl, sym, ap, ◌∙◌, ◌≢◌, ◌⊎◌, inl, inr,
  Bool, true, false, not, ◌&&◌, ◌||◌, Option, none, some, List, [], ◌∷◌, ◌++◌, map, arith, ltb, leb,
  eq→==, ne→==, ◌==◌, if◌then◌else◌, Bool-cases, Option-cases, length, get_elem?, set, take, drop,
  All, length-append, length-set, get_elem?-lt, Bytes, codes, text, bytes_eq, bytes_eq_refl,
  bytes_eq→eq, find, find_from, substr, to_string, signed_to_string, upper_hex, pad2,
  upper_hex_glyph, decimal_glyph, take-length, drop-length, drop-length_cons, Without, find-append,
  find_from-append, cons-ne-nil,
}
use postgres_protobuf.Outcome.{Outcome, done, thrown, M, bad_proto, bad_alloc, pg_error}
use postgres_protobuf.Result.{Result, ok, err, ◌>>=◌}
use postgres_protobuf.Postgres.{Row, Spi, Selected, rows, failed}
use postgres_protobuf.DescriptorDb.{DescSet, DescDb}

-- The parts of the protobuf library that build a descriptor set: the files of a serialized
-- `FileDescriptorSet`, and the pool and the type resolver over a `SimpleDescriptorDatabase` that
-- was given files in an order. A file is a number (its address).
pub record Descriptors : Type 0 where
  pub parse_from_array : Bytes → Option (List ℕ)
  pub pool_of : List ℕ → ℕ
  pub type_resolver_of : List ℕ → ℕ

-- `cached_`, and how many callbacks are registered on the memory context of the transaction.
pub record Cache : Type 0 where
  pub cached : Option DescDb
  pub callbacks : ℕ

-- The files of each descriptor set, while the sets are built.
abbrev pub Sets : Type 0
Sets = List (Bytes × List ℕ)

-- The rows that are kept: a null is warned about and passed over. The column is declared NOT NULL; the
-- code detoasts the value before it tests for a null, so it would not get to the warning.
unfoldable pub kept_rows : List Row → List (Bytes × Bytes)
kept_rows [] = []
kept_rows (r ∷ rs) = elim r.file_descriptor_set [
  | none ↦ kept_rows rs
  | some fds ↦ (r.name, fds) ∷ kept_rows rs
]

-- `desc_sets[name]`, made where it is missing, is given the files.
unfoldable pub add_files : Bytes → List ℕ → Sets → Sets
unfolding bytes_eq
add_files name files [] = (name, files) ∷ []
add_files name files ((n, fs) ∷ sets) =
    if bytes_eq n name then (n, fs ++ files) ∷ sets else (n, fs) ∷ add_files name files sets

-- `ReleaseLast` until no file is left: the last file is added first.
unfoldable pub release_all : List ℕ → List ℕ
release_all [] = []
release_all (f ∷ fs) = release_all fs ++ f ∷ []

module _ (d : Descriptors) where
  -- The loop over the rows.
  unfoldable pub build_sets : List (Bytes × Bytes) → Sets → Result Sets
  unfolding add_files release_all
  build_sets [] sets = ok sets
  build_sets ((name, fds) ∷ rs) sets = elim (d.parse_from_array fds) [
    | none ↦ err (bad_proto (text "failed to parse FileDescriptorSet"))
    | some files ↦ build_sets rs (add_files name (release_all files) sets)
  ]

  abbrev pub desc_set_of : List ℕ → DescSet
  desc_set_of files = record { pool = d.pool_of files; type_resolver = d.type_resolver_of files }

  abbrev pub desc_sets_of : Sets → List (Bytes × DescSet)
  desc_sets_of [] = []
  desc_sets_of ((name, files) ∷ sets) = (name, desc_set_of files) ∷ desc_sets_of sets

  abbrev pub selected_rows : Bool → Selected → Result (List (Bytes × Bytes))
  selected_rows finishes (failed code) = err (pg_error (text "SPI_execute failed: " ++ code))
  selected_rows true (rows rs) = ok (kept_rows rs)
  selected_rows false (rows rs) = err (pg_error (text "SPI_finish failed"))

  -- The reads over SPI, up to `SPI_finish`; they raise Postgres errors.
  unfoldable pub read_rows : Spi → Result (List (Bytes × Bytes))
  unfolding kept_rows
  read_rows spi =
      if spi.connects
      then selected_rows spi.finishes spi.selected
      else err (pg_error (text "SPI_connect failed"))

  -- The sets of the table's rows.
  unfoldable pub sets_of_table : Spi → Result Sets
  unfolding read_rows build_sets
  sets_of_table spi = read_rows spi >>= λ rs. build_sets rs []

  -- `callback_memory` tells whether the allocation of the callback succeeds; the cache is set
  -- before that.
  abbrev pub cache_sets : Bool → Cache → Result Sets → Outcome Cache DescDb
  cache_sets callback_memory c (err e) = thrown e c
  cache_sets true c (ok sets) =
      let db : DescDb = record { desc_sets = desc_sets_of sets } in
      done db (record { cached = some db; callbacks = c.callbacks + 1 })
  cache_sets false c (ok sets) =
      thrown bad_alloc (record c { cached = some (record { desc_sets = desc_sets_of sets }) })

  unfoldable pub rebuild : Spi → Bool → M Cache DescDb
  unfolding sets_of_table
  rebuild spi callback_memory c = cache_sets callback_memory c (sets_of_table spi)

  unfoldable pub get_or_create_cached : Spi → Bool → M Cache DescDb
  unfolding rebuild
  get_or_create_cached spi callback_memory c = elim c.cached [
    | some db ↦ done db c
    | none ↦ rebuild spi callback_memory c
  ]

unfoldable pub clear_cache : Cache → Cache
clear_cache c = record c { cached = none }

-- The reset of the transaction's memory context calls and forgets its callbacks, each of which is
-- `ClearCacheCallback`.
unfoldable pub end_transaction : Cache → Cache
unfolding clear_cache
end_transaction c = record (if c.callbacks == 0 then c else clear_cache c) { callbacks = 0 }
