-- ===== src/Postgres.antt =====
-- What the extension takes from Postgres, which is not part of the repository: memory, the table
-- of descriptor sets read over SPI, and error reports.
use postgres_protobuf.Common.{ℕ, Bool, Option, List, Bytes}

-- The error codes that the extension reports.
pub data SqlState : Type 0 where
  internal_error out_of_memory invalid_binary_representation : SqlState
  invalid_parameter_value program_limit_exceeded : SqlState

pub record Report : Type 0 where
  pub code : SqlState
  pub message : Bytes

-- How a call of an SQL function ends: with a value, with `ereport(ERROR, ...)`, or with a failed
-- assertion, which ends the server process.
pub data Answer (A : Type 0) : Type 0 where
  returned : A → Answer A
  reported : Report → Answer A
  aborted : Answer A

-- `palloc_extended`: whether an allocation of the given size succeeds.
abbrev pub Memory : Type 0
Memory = ℕ → Bool

-- A row of `protobuf_file_descriptor_sets`; the second column may be null.
pub record Row : Type 0 where
  pub name : Bytes
  pub file_descriptor_set : Option Bytes

-- What the calls of SPI answer: whether `SPI_connect` and `SPI_finish` succeed, and the rows of the
-- `SELECT`, or the text of its status code.
pub data Selected : Type 0 where
  rows : List Row → Selected
  failed : Bytes → Selected

pub record Spi : Type 0 where
  pub connects : Bool
  pub selected : Selected
  pub finishes : Bool
