-- ===== src/Traverser/Steps.antt =====
-- The steps of `ProtobufTraverser` that `ScanField` and `ScanMessage` are made of.
use postgres_protobuf.Common.{
  ℕ, zero, suc, ◌+◌, ◌-◌, Option, none, some, List, [], ◌∷◌, ◌++◌, ltb, ◌==◌, if◌then◌else◌, length,
  get_elem?, set, Bytes, text, to_string,
}
use postgres_protobuf.Outcome.{
  Error, bad_proto, Outcome, done, thrown, stuck, M, ◌>>=◌, ◌>>◌, pure, throw,
}
use postgres_protobuf.Library.{CodedInputStream}
use postgres_protobuf.Field.{FieldInfo, set_uint32, set_uint64, set_size}
use postgres_protobuf.Visitor.{
  Visitor, visit_begin_field, visit_begin_message, visit_end_field, visit_popped,
}
use postgres_protobuf.Visitor.{map_filter}
use postgres_protobuf.Visitor.Filters.{MapFilter, filter_matches, filter_reset}
use postgres_protobuf.Traverser.State.{Traversal, StackElement}

-- A scan of one field by a traverser of its own: its first visitor, the field, the bytes, and the
-- visitors of the query before and after.
abbrev pub SubScan : Type 0
SubScan = ℕ → FieldInfo → Bytes → M (List Visitor) (Unit {0})

-- `Reset` is a method of the filter that `EndField` runs on.
unfoldable pub visit_reset : Visitor → Visitor
unfolding filter_reset
visit_reset (map_filter f) = map_filter (filter_reset f)
visit_reset v = v

abbrev pub top_visitor : ℕ → List StackElement → ℕ
top_visitor no_op [] = no_op
top_visitor no_op (e ∷ es) = e.visitor

abbrev pub popped_at : ℕ → List Visitor → List Visitor
popped_at i vs = elim (get_elem? vs i) [ none ↦ vs | some v ↦ set vs i (visit_popped v) ]

module _ (lib : CodedInputStream) where
  open lib use {
    Stream, read_varint64, read_little_endian64, read_little_endian32, read_varint_size_as_int,
  }

  -- A method of `visitor_` that throws nothing. The method is given its visitor's pointer;
  -- `noOp` answers `default`.
  unfoldable pub call : {A : Type 0} → A → (ℕ → Visitor → Visitor × A) → M (Traversal Stream) A
  call default method st = elim (get_elem? st.visitors st.visitor) [
    | none ↦ done default st
    | some v ↦
        let (v', a) = method st.visitor v in
        done a (record st { visitors = set st.visitors st.visitor v' })
  ]

  abbrev pub raise : Option Error → M (Traversal Stream) (Unit {0})
  raise none = pure tt
  raise (some e) = throw e

  -- A method of `visitor_` that may throw.
  unfoldable pub emit : (Visitor → Visitor × Option Error) → M (Traversal Stream) (Unit {0})
  unfolding call
  emit method = call none (λ _. method) >>= raise

  unfoldable pub push_visitor : ℕ → M (Traversal Stream) (Unit {0})
  push_visitor v st =
      done tt (record st {
        stack = record { visitor = v; depth_added = st.depth } ∷ st.stack;
        visitor = v;
      })

  abbrev pub pop_from : List StackElement → M (Traversal Stream) (Unit {0})
  pop_from [] st = done tt (record st { visitor = length st.visitors })
  pop_from (e ∷ es) st = done tt (record st {
    stack = es;
    visitors = popped_at e.visitor st.visitors;
    visitor = top_visitor (length st.visitors) es;
  })

  unfoldable pub pop_visitor : M (Traversal Stream) (Unit {0})
  unfolding visit_popped
  pop_visitor st = pop_from st.stack st

  -- The loop that calls a method until it answers the visitor itself. A visitor answers itself or
  -- the next one, so as many rounds as there are visitors, and one more, are enough.
  unfoldable pub push_loop : ℕ → (ℕ → Visitor → Visitor × ℕ) → M (Traversal Stream) (Unit {0})
  unfolding call push_visitor
  push_loop zero method st = stuck
  push_loop (suc fuel) method st =
      (call st.visitor method >>= λ new_visitor st'.
      let pushed = (push_visitor new_visitor >> push_loop fuel method) st' in
      if new_visitor == st'.visitor then done tt st' else pushed)
        st

  unfoldable pub increment_depth_and_call_begin_field : ℕ → ℕ → M (Traversal Stream) (Unit {0})
  unfolding push_loop
  increment_depth_and_call_begin_field number wire_type st =
      push_loop (suc (length st.visitors)) (λ this. visit_begin_field this number wire_type)
        (record st { depth = st.depth + 1 })

  unfoldable pub call_begin_message : M (Traversal Stream) (Unit {0})
  unfolding push_loop
  call_begin_message st = push_loop (suc (length st.visitors)) visit_begin_message st

  abbrev pub in_traversal :
      Traversal Stream → Outcome (List Visitor) (Unit {0}) → Outcome (Traversal Stream) (Unit {0})
  in_traversal st (done a vs) = done a (record st { visitors = vs })
  in_traversal st (thrown e vs) = thrown e (record st { visitors = vs })
  in_traversal st stuck = stuck

  module _ (sub : SubScan) where
    -- `MapFilter::ForwardBufferedValue`: the next visitors scan the buffered value.
    unfoldable pub forward_buffered_value : MapFilter → M (Traversal Stream) (Unit {0})
    forward_buffered_value f st =
        in_traversal st
          (sub (suc st.visitor) f.buffered_value_field f.buffered_value_contents st.visitors)

    -- The end of `MapFilter::EndField` for a finished entry.
    unfoldable pub finish_entry : MapFilter → M (Traversal Stream) (Unit {0})
    unfolding forward_buffered_value filter_matches call visit_reset
    finish_entry f st =
        let reset : M (Traversal Stream) (Unit {0}) = call tt (λ _ v. (visit_reset v, tt)) in
        if filter_matches f then (forward_buffered_value f >> reset) st else reset st

    abbrev pub finish : Option MapFilter → M (Traversal Stream) (Unit {0})
    finish none = pure tt
    finish (some f) = finish_entry f

    -- `visitor_->EndField()`.
    unfoldable pub end_field : M (Traversal Stream) (Unit {0})
    unfolding call finish_entry
    end_field = call none (λ _. visit_end_field) >>= finish

    -- The loop of `DecrementDepthAndEndFieldAndPopVisitors`, over the stack that it takes from.
    unfoldable pub pop_loop : List StackElement → M (Traversal Stream) (Unit {0})
    unfolding pop_visitor end_field
    pop_loop [] st = done tt st
    pop_loop (e ∷ es) st =
        let popped = (pop_visitor >> end_field >> pop_loop es) st in
        if ltb st.depth e.depth_added then popped else done tt st

    unfoldable pub decrement_depth_and_end_field_and_pop_visitors : M (Traversal Stream) (Unit {0})
    unfolding end_field pop_loop
    decrement_depth_and_end_field_and_pop_visitors st =
        (end_field >> λ st'. pop_loop st'.stack st') (record st { depth = st.depth - 1 })

  -- One read of `ReadFieldValueOrSize`: which bytes of the union it writes, and what it says where
  -- the stream ends.
  abbrev pub read_value :
      (Stream → Option (ℕ × Stream))
      → (ℕ → ℕ → ℕ)
      → Bytes
      → FieldInfo
      → M (Traversal Stream) FieldInfo
  read_value read write message field st = elim (read st.stream) [
    | none ↦ thrown (bad_proto message) st
    | some (x, s) ↦ done (record field { value = write field.value x }) (record st { stream = s })
  ]

  unfoldable pub read_field_value_or_size : FieldInfo → M (Traversal Stream) FieldInfo
  read_field_value_or_size field =
      if field.wire_type == 0
      then read_value read_varint64 set_uint64 (text "failed to read varint field") field
      else if field.wire_type == 1
      then read_value read_little_endian64 set_uint64 (text "failed to read 64-bit field") field
      else if field.wire_type == 2
      then read_value read_varint_size_as_int set_size (text "failed to read size varint") field
      else if field.wire_type == 5
      then read_value read_little_endian32 set_uint32 (text "failed to read 32-bit field") field
      else throw (bad_proto (text "unrecognized wire_type " ++ to_string field.wire_type))
