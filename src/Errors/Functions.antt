-- ===== src/Errors/Functions.antt =====
-- What the query functions report.
use postgres_protobuf.Common.{◌≡◌, none}
use postgres_protobuf.Outcome.{Error, limit_reached, protobuf_not_found, pg_error, Outcome}
use postgres_protobuf.Result.{Result, err}
use postgres_protobuf.Postgres.{Spi}
use postgres_protobuf.DescriptorDb.Cache.{Descriptors, Cache, read_rows}

-- The exceptions that Postgres raises in the middle of the code.
abbrev IsPgError : Error → Type 0
IsPgError (pg_error message) = Unit
IsPgError _ = ⊥

-- An exception of a query function. One that Postgres raises comes from reading the table, and from
-- nothing but that; the exception of the JSON functions does not come, nor does that for enough
-- rows.
abbrev pub Explained : Descriptors → Spi → Cache → Error → Type 0
Explained d spi c (pg_error message) =
    (c.cached ≡ none) × (read_rows d spi ≡ err (pg_error message))
Explained d spi c limit_reached = ⊥
Explained d spi c protobuf_not_found = ⊥
Explained d spi c _ = Unit
