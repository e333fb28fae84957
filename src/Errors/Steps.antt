-- ===== src/Errors/Steps.antt =====
-- The steps of the traverser.
use postgres_protobuf.Common.{
  ℕ, zero, suc, ◌+◌, ◌-◌, inl, inr, Option, none, some, List, [], ◌∷◌, ◌++◌, ltb, ◌==◌,
  Option-cases, length, get_elem?, set, Bytes, text, to_string,
}
use postgres_protobuf.Outcome.{Error, bad_proto, Outcome}
use postgres_protobuf.Library.{CodedInputStream}
use postgres_protobuf.Field.{FieldInfo, set_uint32, set_uint64, set_size}
use postgres_protobuf.Visitor.{Visitor, visit_begin_field, visit_begin_message, visit_end_field}
use postgres_protobuf.Visitor.Filters.{MapFilter, filter_matches}
use postgres_protobuf.Traverser.State.{Traversal, StackElement}
use postgres_protobuf.Traverser.Steps.{
  SubScan, visit_reset, call, raise, emit, push_visitor, pop_visitor, pop_from, push_loop, finish,
  finish_entry, forward_buffered_value, in_traversal, end_field, pop_loop,
  increment_depth_and_call_begin_field, call_begin_message, read_value, read_field_value_or_size,
  decrement_depth_and_end_field_and_pop_visitors,
}
use postgres_protobuf.Errors.{
  IsScanError, Fine, Only, on_done, on_thrown, on_stuck, Safe, and_then-Only, bind-Safe, if-Only,
  if-Safe,
}

module _ (lib : CodedInputStream) where
  open lib use {Stream}

  pub call-Safe :
      {A : Type 0} (default : A) (method : ℕ → Visitor → Visitor × A)
      → Safe (call lib default method)
  unfolding call
  call-Safe default method st = elim (Option-cases (get_elem? st.visitors st.visitor)) [
    | inl e ↦ rw (e, call) on_done
    | inr (v, e) ↦ rw (e, call) on_done
  ]

  pub emit-Only :
      (method : Visitor → Visitor × Option Error) (h : (v : Visitor) → Fine (method v).1)
      → Safe (emit lib method)
  unfolding emit call
  emit-Only method h st = elim (Option-cases (get_elem? st.visitors st.visitor)) [
    | inl e ↦ rw (e, emit, call) on_done
    | inr (v, e) ↦
        rw (e, emit, call)
          (raised (method v).1 (record st { visitors = set st.visitors st.visitor (method v).0 })
            (h v))
  ]
    where
      raised :
          (o : Option Error) (st : Traversal Stream) → Fine o → Only IsScanError (raise lib o st)
      raised none st h = on_done
      raised (some e) st h = on_thrown h

  push_loop-Safe :
      (fuel : ℕ) (method : ℕ → Visitor → Visitor × ℕ) → Safe (push_loop lib fuel method)
  unfolding push_loop push_visitor
  push_loop-Safe zero method st = on_stuck
  push_loop-Safe (suc fuel) method st =
      and_then-Only (call-Safe st.visitor method st)
        λ new st'. if-Only (new == st'.visitor) on_done (push_loop-Safe fuel method _)

  pub increment-Safe :
      (number wire_type : ℕ) → Safe (increment_depth_and_call_begin_field lib number wire_type)
  unfolding increment_depth_and_call_begin_field
  increment-Safe number wire_type st =
      push_loop-Safe (suc (length st.visitors)) (λ this. visit_begin_field this number wire_type)
        (record st { depth = st.depth + 1 })

  pub call_begin_message-Safe : Safe (call_begin_message lib)
  unfolding call_begin_message
  call_begin_message-Safe st = push_loop-Safe (suc (length st.visitors)) visit_begin_message st

  pub push_visitor-Safe : (v : ℕ) → Safe (push_visitor lib v)
  unfolding push_visitor
  push_visitor-Safe v st = on_done

  pub pop_visitor-Safe : Safe (pop_visitor lib)
  unfolding pop_visitor
  pop_visitor-Safe st = popped st.stack st
    where
      popped : (es : List StackElement) → Safe (pop_from lib es)
      popped [] st = on_done
      popped (e ∷ es) st = on_done

  read_value-Safe :
      (read : Stream → Option (ℕ × Stream)) (write : ℕ → ℕ → ℕ) (message : Bytes)
      (field : FieldInfo)
      → Safe (read_value lib read write message field)
  read_value-Safe read write message field st = elim (Option-cases (read st.stream)) [
    | inl e ↦ rw (e, read_value) (on_thrown tt)
    | inr (x, e) ↦ rw (e, read_value) on_done
  ]

  pub read_field-Safe : (field : FieldInfo) → Safe (read_field_value_or_size lib field)
  unfolding read_field_value_or_size
  read_field-Safe field =
      if-Safe (field.wire_type == 0)
        (read_value-Safe lib.read_varint64 set_uint64 (text "failed to read varint field") field)
        (if-Safe (field.wire_type == 1)
          (read_value-Safe lib.read_little_endian64 set_uint64 (text "failed to read 64-bit field")
            field)
          (if-Safe (field.wire_type == 2)
            (read_value-Safe lib.read_varint_size_as_int set_size
              (text "failed to read size varint") field)
            (if-Safe (field.wire_type == 5)
              (read_value-Safe lib.read_little_endian32 set_uint32
                (text "failed to read 32-bit field") field)
              (λ st.
                on_thrown
                  {e = bad_proto (text "unrecognized wire_type " ++ to_string field.wire_type)}
                  {s = st} tt))))

  module _ (sub : SubScan) (h : (i : ℕ) (f : FieldInfo) (s : Bytes) → Safe (sub i f s)) where
    in_traversal-Only :
        (st : Traversal Stream) (o : Outcome (List Visitor) (Unit {0}))
        → Only IsScanError o
        → Only IsScanError (in_traversal lib st o)
    in_traversal-Only st _ on_done = on_done
    in_traversal-Only st _ (on_thrown e) = on_thrown e
    in_traversal-Only st _ on_stuck = on_stuck

    forward-Safe : (f : MapFilter) → Safe (forward_buffered_value lib sub f)
    unfolding forward_buffered_value
    forward-Safe f st =
        in_traversal-Only st
          (sub (suc st.visitor) f.buffered_value_field f.buffered_value_contents st.visitors)
          (h (suc st.visitor) f.buffered_value_field f.buffered_value_contents st.visitors)

    finish-Safe : (o : Option MapFilter) → Safe (finish lib sub o)
    unfolding finish_entry
    finish-Safe none st = on_done
    finish-Safe (some f) st =
        if-Only (filter_matches f)
          (and_then-Only (forward-Safe f st) (λ _. call-Safe tt (λ _ v. (visit_reset v, tt))))
          (call-Safe tt (λ _ v. (visit_reset v, tt)) st)

    end_field-Safe : Safe (end_field lib sub)
    unfolding end_field
    end_field-Safe = bind-Safe (call-Safe none (λ _. visit_end_field)) finish-Safe

    pop_loop-Safe : (es : List StackElement) → Safe (pop_loop lib sub es)
    unfolding pop_loop
    pop_loop-Safe [] st = on_done
    pop_loop-Safe (e ∷ es) st =
        if-Only (ltb st.depth e.depth_added)
          (and_then-Only (and_then-Only (pop_visitor-Safe st) (λ _. end_field-Safe))
            (λ _. pop_loop-Safe es))
          on_done

    pub decrement-Safe : Safe (decrement_depth_and_end_field_and_pop_visitors lib sub)
    unfolding decrement_depth_and_end_field_and_pop_visitors
    decrement-Safe st =
        and_then-Only (end_field-Safe (record st { depth = st.depth - 1 }))
          (λ _ st'. pop_loop-Safe st'.stack st')
