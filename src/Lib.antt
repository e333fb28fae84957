-- ===== src/Lib.antt =====
-- postgres_protobuf: a Postgres extension that runs queries such as `pkg.Message:items[3].name` on
-- serialized protobuf messages. This library models querying.cpp, its core: how a query string is
-- compiled into a chain of visitors, how a traverser walks over the bytes of a message and calls
-- the visitors, and how the visitors select fields and print them as rows. Around it stand the
-- descriptor sets that queries use (descriptor_db.cpp) and the SQL functions
-- (postgres_protobuf.cpp).
--
-- The program's parts and the files that model them. Definitions keep the names of the source:
-- `ScanField` is `scan_field`, and a method `Class::Method` takes the record of its class and
-- answers the changed record.
--   * Field: `FieldInfo` and its union of values, as a 64-bit pattern of which some writes change
--     the lower half only; `ValueEquals`. What uninitialized memory holds is the parameter
--     `Uninitialized`.
--   * Outcome, Result: exceptions as values; `Outcome` also carries the state, and `stuck` for a
--     loop that runs out of fuel.
--   * Visitor and below: `ProtobufVisitor` and its subclasses. Visitor/Treatments holds
--     `LengthDelimitedFieldTreatment`, Visitor/Emitters the three emitters, Visitor/Selectors
--     `FieldSelector`, Visitor/Filters `MapFilter`, Visitor/Entries `AllMapEntries`. The visitors
--     of a query stand in one list, a pointer to a visitor is its position in the list, `next_` is
--     the position after it, and the position past the end is `ProtobufVisitor::noOp`.
--   * Traverser and below: `ProtobufTraverser`. Traverser/State is its state with the stream and
--     the visitors, Traverser/Steps its pushes, pops and reads, Traverser the scan itself.
--     A map filter starts a traverser over the value that it has buffered; the traverser takes that
--     scan as a parameter, and `run_traverser` ties the knot. Traverser/Termination holds the
--     lemmas on its loops, Traverser/Balance those on its depth and its stack of visitors.
--   * DescriptorDb: `DescDb` and `DescSet` of descriptor_db.hpp, and the lookup by name.
--     DescriptorDb/Cache: `GetOrCreateCached` and `ClearCache` of descriptor_db.cpp, where a callback
--     of the transaction's memory context clears the cache at the transaction's end.
--   * Postgres: what the extension takes from Postgres: memory, the table of descriptor sets read
--     over SPI, and error reports.
--   * Sql: the SQL functions of postgres_protobuf.cpp, from their arguments to their value or
--     report; Sql/Multi has the set-returning one, Sql/Json the two for JSON.
--   * Query/Prefix, Query/Part, Query/Keys, Query/Compile: `GetDescSet` and `GetDesc`,
--     `CompileQueryPart`, `ParseNumericMapKey`, and `CompileQuery`, `Emitter::Create` and `Run`.
--   * Rows: an independent description of what a query gives. Rows/Spec has messages as trees of
--     fields, paths of field selectors and of selectors of a map's keys or values, the rows that a
--     path selects from a message by recursion on the message, and how a stream decodes a message.
--     Rows/Zipper sees the traverser from its current visitor, Rows/Fields takes one field from its
--     tag to its end, Rows/Submessages the messages and map entries inside fields, Rows/Messages and
--     Rows/Queries the whole scan and run. Rows/Parts and Rows/Texts say which path the text of a
--     query stands for, and Rows/Functions joins them with the SQL function.
--   * Allocation: `pnew`, `pdelete` and `PostgresAllocator` of postgres_utils.hpp, over a parameter
--     `PostgresMemory` for `palloc_extended` and `pfree`; Allocation/Blocks and Allocation/Sizes are
--     about the blocks they leave and the bytes they ask for.
--   * Errors: which exceptions the visitors, the traverser and the compiler throw (Errors/Visitors,
--     Errors/Steps, Errors/Scan, Errors/Compile), what comes of them in `Run` and in the SQL
--     functions (Errors/Runs, Errors/Functions), and when the compiler's assertions hold
--     (Errors/Assertions).
--   * Common: Boolean tests, lists, texts as lists of bytes, decimal and hexadecimal numbers, and
--     what the source uses of `std::strtol`, `std::stoll` and `std::stoull` (Common/Strto).
--   * Samples: a wire-format stream and a small schema, as an example of the library that the
--     program is given, and the theorems and whole queries run on them.
--
-- The protobuf library is a parameter: `Protobuf` for descriptors, ZigZag and JSON, and
-- `CodedInputStream` for the stream (Library). What the traverser relies on of the stream is
-- `Progress` (Traverser/Progress): no call moves backward in the bytes, and reading a tag other
-- than 0, a varint or a fixed-width number moves forward.
--
-- Bounds: integers keep their wrap-around; `int` and `int64` values are bit patterns of 32 and 64
-- bits. A scan over n bytes has fuel n + 1 for the rounds of each loop and for the nesting of
-- messages: every round, and every descent, has passed a byte. A traverser that a map
-- filter starts begins at a later visitor, so v visitors need v + 1 levels. A loop that asks
-- visitors for the next one takes at most as many rounds as there are visitors, and one more.
--
-- Not modelled: the printing of floats (postgres_utils.cpp), which is a parameter, and debug
-- output, which changes no state. What Postgres and the protobuf library do when they are called is not
-- part of the repository: an allocation, a read over SPI, the parse of a `FileDescriptorSet` and
-- the building of an array are inputs or parameters. The heap of C++ itself never runs out here: strings
-- and vectors of the standard library grow without `std::bad_alloc`. What uninitialized memory holds is
-- unknown but constant: one value for the fields of all scans, one for all wanted keys, and one for each
-- buffer of the map filters. The index of `protobuf_query_multi` is a natural number; the source narrows it to an `int`, which fewer
-- than 2 ^ 31 rows do not notice. A null in the column of descriptor sets, which the schema excludes, is
-- passed over.
pub mod Common
pub mod Library
pub mod Field
pub mod Outcome
pub mod Result
pub mod Visitor
pub mod Traverser
pub mod Postgres
pub mod DescriptorDb
pub mod Query
pub mod Sql
pub mod Samples
pub mod Rows
pub mod Errors
pub mod Allocation
