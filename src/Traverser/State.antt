-- ===== src/Traverser/State.antt =====
-- The state of a `ProtobufTraverser`, with the stream that it reads and the visitors of the query.
use postgres_protobuf.Common.{ℕ, List, [], length}
use postgres_protobuf.Visitor.{Visitor}

pub record StackElement : Type 0 where
  pub visitor : ℕ
  pub depth_added : ℕ

-- `visitor` is `visitor_`; each decrement of `depth_` follows an increment, so it is a number.
pub record Traversal (Stream : Type 0) : Type 0 where
  pub stream : Stream
  pub visitors : List Visitor
  pub stack : List StackElement
  pub visitor : ℕ
  pub depth : ℕ

-- The constructor: no visitor on the stack, and `visitor_` is `noOp`.
unfoldable pub fresh_traversal : {Stream : Type 0} → Stream → List Visitor → Traversal Stream
fresh_traversal stream visitors = record {
  stream = stream;
  visitors = visitors;
  stack = [];
  visitor = length visitors;
  depth = 0;
}
