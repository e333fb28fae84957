-- ===== src/Samples/Table.antt =====
-- A table of descriptor sets, and a session that reads it.
use postgres_protobuf.Common.{◌≡◌, refl, true, none, some, List, [], ◌∷◌, length, codes, bytes_eq}
use postgres_protobuf.Outcome.{done}
use postgres_protobuf.Result.{ok}
use postgres_protobuf.Postgres.{Row, Selected, Spi}
use postgres_protobuf.DescriptorDb.{DescDb}
use postgres_protobuf.DescriptorDb.Cache.{
  Descriptors, Cache, Sets, build_sets, add_files, release_all, sets_of_table, read_rows, kept_rows,
  desc_sets_of, rebuild, get_or_create_cached,
}
use postgres_protobuf.DescriptorDb.Cache.Transactions.{initial}
use postgres_protobuf.Sql.{Call}

-- Each byte of a serialized set is the address of a file, and a pool is numbered by its files.
abbrev pub sample_descriptors : Descriptors
sample_descriptors = record {
  parse_from_array = λ s. some s;
  pool_of = λ files. length files;
  type_resolver_of = λ files. length files;
}

abbrev pub spi_of : List Row → Spi
spi_of rs = record { connects = true; selected = Selected.rows rs; finishes = true }

abbrev pub sample_rows : List Row
sample_rows =
    record { name = codes "default"; file_descriptor_set = some (7 ∷ 8 ∷ []) }
    ∷ record { name = codes "x"; file_descriptor_set = none }
    ∷ record { name = codes "default"; file_descriptor_set = some (9 ∷ []) }
    ∷ []

abbrev pub sample_sets : Sets
sample_sets = (codes "default", 8 ∷ 7 ∷ 9 ∷ []) ∷ []

pub sample_sets_built : sets_of_table sample_descriptors (spi_of sample_rows) ≡ ok sample_sets
unfolding sets_of_table read_rows kept_rows build_sets add_files release_all bytes_eq
sample_sets_built = refl

abbrev pub sample_database : DescDb
sample_database = record { desc_sets = desc_sets_of sample_descriptors sample_sets }

abbrev pub asked_cache : Cache
asked_cache = record { cached = some sample_database; callbacks = 1 }

pub asked_once :
    get_or_create_cached sample_descriptors (spi_of sample_rows) true initial
    ≡ done sample_database asked_cache
unfolding get_or_create_cached rebuild sets_of_table read_rows kept_rows build_sets add_files
    release_all bytes_eq
asked_once = refl

abbrev pub sample_call : Call
sample_call = record {
  spi = spi_of sample_rows;
  callback_memory = true;
  memory = λ n. true;
  vector_memory = λ n. true;
}
