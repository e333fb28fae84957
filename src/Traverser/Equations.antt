-- ===== src/Traverser/Equations.antt =====
-- What single steps of the traverser do to a state, as equations.
use postgres_protobuf.Common.{ℕ, ◌^◌, ◌<◌, ◌≡◌, refl, Option, some, arith, Bytes}
use postgres_protobuf.Outcome.{Error}
use postgres_protobuf.Library.{CodedInputStream, Protobuf}
use postgres_protobuf.Field.{as_size, set_size}
use postgres_protobuf.Visitor.{Visitor}
use postgres_protobuf.Traverser.State.{Traversal}
use postgres_protobuf.Traverser.Steps.{SubScan, emit}
use postgres_protobuf.Traverser.{read_contents}

pub as_size-set_size : (v x : ℕ) → x < 2 ^ 32 → as_size (set_size v x) ≡ x
as_size-set_size v x h = omega arith

module _ (lib : CodedInputStream) (pb : Protobuf) (junk : ℕ) (sub : SubScan) where
  pub read_contents-some :
      (message : Bytes) (visit : Bytes → Visitor → Visitor × Option Error) (size : ℕ)
      (st : Traversal lib.Stream) (s : Bytes) (rest : lib.Stream)
      → lib.read_string size st.stream ≡ some (s, rest)
      → read_contents lib pb junk sub message visit size st
        ≡ emit lib (visit s) (record st { stream = rest })
  unfolding read_contents
  read_contents-some message visit size st s rest e = rw (e, read_contents) refl
