-- ===== src/Query/Compile/Limit.antt =====
-- The row limit of a query.
use postgres_protobuf.Common.{ℕ, ◌≡◌, refl, Option, Bytes}
use postgres_protobuf.Library.{Protobuf}
use postgres_protobuf.Field.{Uninitialized}
use postgres_protobuf.DescriptorDb.{DescDb}
use postgres_protobuf.Query.Part.{DescPtrs}
use postgres_protobuf.Query.Compile.{create_emitter, compile_visitors, compile_query}

create_emitter_limit :
    (pb : Protobuf) (d : DescPtrs) (r : ℕ) (l m : Option ℕ)
    → create_emitter pb d r l ≡ create_emitter pb d r m
unfolding create_emitter
create_emitter_limit pb d r l m = refl

compile_visitors_limit :
    (pb : Protobuf) (u : Uninitialized) (r desc : ℕ) (path : Bytes) (l m : Option ℕ)
    → compile_visitors pb u r desc path l ≡ compile_visitors pb u r desc path m
unfolding compile_visitors
compile_visitors_limit pb u r desc path l m = refl

-- Compiling a query gives the same visitors, or the same error, whatever the limit on the rows is.
pub compile_query_limit :
    (pb : Protobuf) (u : Uninitialized) (db : DescDb) (query : Bytes) (l m : Option ℕ)
    → compile_query pb u db query l ≡ compile_query pb u db query m
unfolding compile_query
compile_query_limit pb u db query l m = refl
