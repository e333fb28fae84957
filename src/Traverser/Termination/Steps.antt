-- ===== src/Traverser/Termination/Steps.antt =====
-- The ends of fields, where a map filter may start a traverser of its own, and the reads of values.
use postgres_protobuf.Common.{
  ℕ, suc, ◌-◌, ◌≤◌, ◌<◌, ◌≡◌, ◌⊎◌, inl, inr, Option, none, some, List, [], ◌∷◌, ◌++◌, arith, ltb,
  ◌==◌, Bool-cases, Option-cases, length, Bytes, text, to_string,
}
use postgres_protobuf.Outcome.{
  Outcome, Ends, completes, raises, and_then-Ends, Ends-weaken, if-Ends, throw, bad_proto,
}
use postgres_protobuf.Library.{CodedInputStream}
use postgres_protobuf.Visitor.{Visitor, visit_end_field}
use postgres_protobuf.Visitor.Filters.{MapFilter, filter_matches}
use postgres_protobuf.Field.{FieldInfo, set_uint64, set_uint32, set_size}
use postgres_protobuf.Traverser.Progress.{Progress}
use postgres_protobuf.Traverser.State.{Traversal, StackElement}
use postgres_protobuf.Traverser.Steps.{
  SubScan, call, forward_buffered_value, finish_entry, finish, end_field, pop_loop, in_traversal,
  visit_reset, decrement_depth_and_end_field_and_pop_visitors, read_value, read_field_value_or_size,
}
use postgres_protobuf.Traverser.Termination.Invariant.{Inv, Holds, call-Called, pop_visitor-Holds}

-- Every traverser that starts past `base` ends, and keeps the number of visitors.
abbrev pub SubEnds : ℕ → ℕ → SubScan → Type 0
SubEnds base n sub =
    (first : ℕ) (field : FieldInfo) (contents : Bytes) (vs : List Visitor)
    → base < first
    → first ≤ n
    → length vs ≡ n
    → Ends (λ (_ : Unit {0}) vs'. length vs' ≡ n) (sub first field contents vs)

module _ (lib : CodedInputStream) (p : Progress lib) (base n : ℕ) where
  open lib use {
    Stream, read_varint64, read_little_endian64, read_little_endian32, read_varint_size_as_int,
  }

  abbrev pub Keeps : {A : Type 0} → ℕ → Outcome (Traversal Stream) A → Type 0
  Keeps bound o = Holds lib p.remaining base n bound o

  abbrev pub Good : ℕ → Traversal Stream → Type 0
  Good bound st = Inv lib p.remaining base n bound st

  module _ (sub : SubScan) (ends : SubEnds base n sub) where
    in_traversal-Keeps :
        {bound : ℕ} (st : Traversal Stream) {o : Outcome (List Visitor) (Unit {0})}
        → Good bound st
        → Ends (λ _ vs'. length vs' ≡ n) o
        → Keeps bound (in_traversal lib st o)
    in_traversal-Keeps st i (completes {s = vs} l) =
        completes
          (record { size = l; from = i.from; here = i.here; below = i.below; left = i.left })
    in_traversal-Keeps st i raises = raises

    forward-Keeps :
        (f : MapFilter) {bound : ℕ} (st : Traversal Stream)
        → st.visitor < n
        → Good bound st
        → Keeps bound (forward_buffered_value lib sub f st)
    unfolding forward_buffered_value
    forward-Keeps f st h i = in_traversal-Keeps st i (
        ends (suc st.visitor) f.buffered_value_field f.buffered_value_contents st.visitors
          (omega (arith, i.here)) (omega arith) i.size)

    reset-Keeps :
        {bound : ℕ} (st : Traversal Stream)
        → Good bound st
        → Keeps bound (call lib tt (λ _ v. (visit_reset v, tt)) st)
    reset-Keeps st i =
        Ends-weaken (call-Called lib p.remaining base n tt (λ _ v. (visit_reset v, tt)) st i)
          λ a st' c. c.inv

    finish_entry-Keeps :
        (f : MapFilter) {bound : ℕ} (st : Traversal Stream)
        → st.visitor < n
        → Good bound st
        → Keeps bound (finish_entry lib sub f st)
    unfolding finish_entry
    finish_entry-Keeps f st h i = elim (Bool-cases (filter_matches f)) [
      | inl e ↦ rw e (and_then-Ends (forward-Keeps f st h i) λ _ st' i'. reset-Keeps st' i')
      | inr e ↦ rw e (reset-Keeps st i)
    ]

    finish-Keeps :
        (o : Option MapFilter) {bound : ℕ} (st : Traversal Stream)
        → (o ≡ none) ⊎ (st.visitor < n)
        → Good bound st
        → Keeps bound (finish lib sub o st)
    finish-Keeps none st h i = completes i
    finish-Keeps (some f) st (inl e) i = cc
    finish-Keeps (some f) st (inr h) i = finish_entry-Keeps f st h i

    end_field-Keeps :
        {bound : ℕ} (st : Traversal Stream) → Good bound st → Keeps bound (end_field lib sub st)
    unfolding end_field
    end_field-Keeps st i =
        and_then-Ends (call-Called lib p.remaining base n none (λ _. visit_end_field) st i)
          λ o st' c.
            finish-Keeps o st' (elim c.answer [ inl e ↦ inl e | inr (v, e, l) ↦ inr (rw c.same l) ])
              c.inv

    pop_loop-Keeps :
        (stack : List StackElement) {bound : ℕ} (st : Traversal Stream)
        → Good bound st
        → Keeps bound (pop_loop lib sub stack st)
    unfolding pop_loop
    pop_loop-Keeps [] st i = completes i
    pop_loop-Keeps (e ∷ es) st i = elim (Bool-cases (ltb st.depth e.depth_added)) [
      | inl t ↦ rw t (
          and_then-Ends
            (and_then-Ends (pop_visitor-Holds lib p.remaining base n st i)
              λ _ st₁ i₁. end_field-Keeps st₁ i₁)
            λ _ st₂ i₂. pop_loop-Keeps es st₂ i₂)
      | inr t ↦ rw t (completes i)
    ]

    pub decrement-Keeps :
        {bound : ℕ} (st : Traversal Stream)
        → Good bound st
        → Keeps bound (decrement_depth_and_end_field_and_pop_visitors lib sub st)
    unfolding decrement_depth_and_end_field_and_pop_visitors
    decrement-Keeps st i =
        and_then-Ends
          (end_field-Keeps (record st { depth = st.depth - 1 })
            (record {
              size = i.size;
              from = i.from;
              here = i.here;
              below = i.below;
              left = i.left;
            }))
          λ _ st' i'. pop_loop-Keeps st'.stack st' i'

  -- A read of a value takes a byte at least.
  abbrev pub Takes : ℕ → FieldInfo → Traversal Stream → Type 0
  Takes bound field st = Good (bound - 1) st × (0 < bound)

  read_value-Takes :
      (read : Stream → Option (ℕ × Stream)) (write : ℕ → ℕ → ℕ) (message : Bytes)
      (field : FieldInfo) {bound : ℕ} (st : Traversal Stream)
      → ((x : ℕ) (s' : Stream)
          → read st.stream ≡ some (x, s')
          → p.remaining s' < p.remaining st.stream)
      → Good bound st
      → Ends (Takes bound) (read_value lib read write message field st)
  read_value-Takes read write message field st takes i = elim (Option-cases (read st.stream)) [
    | inl e ↦ rw (e, read_value) raises
    | inr ((x, s'), e) ↦
        rw (e, read_value)
          (completes (
            record {
              size = i.size;
              from = i.from;
              here = i.here;
              below = i.below;
              left = omega (arith, takes x s' e, i.left);
            },
            omega (arith, takes x s' e, i.left),
          ))
  ]

  pub read_field-Takes :
      (field : FieldInfo) {bound : ℕ} (st : Traversal Stream)
      → Good bound st
      → Ends (Takes bound) (read_field_value_or_size lib field st)
  unfolding read_field_value_or_size
  read_field-Takes field st i =
      if-Ends (field.wire_type == 0) _ _ st
        (read_value-Takes read_varint64 set_uint64 (text "failed to read varint field") field st
          (λ x s' e. p.varint64_takes st.stream e) i)
        (if-Ends (field.wire_type == 1) _ _ st
          (read_value-Takes read_little_endian64 set_uint64 (text "failed to read 64-bit field")
            field st (λ x s' e. p.little_endian64_takes st.stream e) i)
          (if-Ends (field.wire_type == 2) _ _ st
            (read_value-Takes read_varint_size_as_int set_size (text "failed to read size varint")
              field st (λ x s' e. p.size_takes st.stream e) i)
            (if-Ends (field.wire_type == 5) _
              (throw (bad_proto (text "unrecognized wire_type " ++ to_string field.wire_type))) st
              (read_value-Takes read_little_endian32 set_uint32 (text "failed to read 32-bit field")
                field st (λ x s' e. p.little_endian32_takes st.stream e) i)
              raises)))
