-- ===== src/Traverser/Balance/Steps.antt =====
-- How the steps of the traverser change its depth and its stack of visitors.
use postgres_protobuf.Common.{
  ℕ, zero, suc, ◌+◌, ◌-◌, ◌≤◌, ◌≡◌, refl, sym, ap, ◌∙◌, inl, inr, true, false, Option, none, some,
  List, [], ◌∷◌, ◌++◌, arith, ltb, ◌==◌, Bool-cases, Option-cases, length, get_elem?, All,
}
use mathlib.Core.Path.{subst}
use postgres_protobuf.Outcome.{
  Error, Outcome, Whenever, on_done, on_thrown, on_stuck, and_then-Whenever, and_then,
  Whenever-weaken, if-Whenever,
}
use postgres_protobuf.Library.{CodedInputStream}
use postgres_protobuf.Visitor.{Visitor, visit_begin_field, visit_begin_message, visit_end_field}
use postgres_protobuf.Visitor.Filters.{MapFilter, filter_matches}
use postgres_protobuf.Traverser.Balance.Relations.{
  Same, Above, IsGrounded, Same-refl, Same-trans, Above-Same, Above-refl, Above-trans,
}
use postgres_protobuf.Traverser.State.{Traversal, StackElement}
use postgres_protobuf.Traverser.Steps.{
  SubScan, call, raise, emit, push_visitor, pop_visitor, top_visitor, push_loop,
  increment_depth_and_call_begin_field, call_begin_message, forward_buffered_value, finish_entry,
  finish, end_field, pop_loop, in_traversal, visit_reset,
  decrement_depth_and_end_field_and_pop_visitors,
}

module _ (lib : CodedInputStream) where
  open lib use {Stream}

  -- The step completes, if it does, with the same depth, stack and current visitor.
  abbrev pub Stays : {A : Type 0} → Traversal Stream → Outcome (Traversal Stream) A → Type 0
  Stays {A} st o = Whenever (λ (a : A) st'. Same lib st st') o

  abbrev pub Rises : {A : Type 0} → Traversal Stream → Outcome (Traversal Stream) A → Type 0
  Rises {A} st o = Whenever (λ (a : A) st'. Above lib st st') o

  pub call-Stays :
      {A : Type 0} (default : A) (method : ℕ → Visitor → Visitor × A) (st : Traversal Stream)
      → Stays st (call lib default method st)
  unfolding call
  call-Stays default method st = elim (Option-cases (get_elem? st.visitors st.visitor)) [
    | inl e ↦ rw (e, call) (on_done (Same-refl lib st))
    | inr (v, e) ↦ rw (e, call) (on_done (record { depth = refl; stack = refl; visitor = refl }))
  ]

  pub Stays-then :
      {A B : Type 0} {st : Traversal Stream} {o : Outcome (Traversal Stream) A}
      (k : A → Traversal Stream → Outcome (Traversal Stream) B)
      → Stays st o
      → ((a : A) (st' : Traversal Stream) → Same lib st st' → Stays st' (k a st'))
      → Stays st (and_then k o)
  Stays-then k h f =
      and_then-Whenever h λ a st' s. Whenever-weaken (f a st' s) λ b st'' t. Same-trans lib s t

  raise-Stays : (o : Option Error) (st : Traversal Stream) → Stays st (raise lib o st)
  raise-Stays none st = on_done (Same-refl lib st)
  raise-Stays (some e) st = on_thrown

  pub emit-Stays :
      (method : Visitor → Visitor × Option Error) (st : Traversal Stream)
      → Stays st (emit lib method st)
  unfolding emit
  emit-Stays method st =
      Stays-then (raise lib) (call-Stays none (λ _. method) st) λ o st' s. raise-Stays o st'

  module _ (sub : SubScan) where
    in_traversal-Stays :
        (st : Traversal Stream) (o : Outcome (List Visitor) (Unit {0}))
        → Stays st (in_traversal lib st o)
    in_traversal-Stays st (Outcome.done a vs) =
        on_done (record { depth = refl; stack = refl; visitor = refl })
    in_traversal-Stays st (Outcome.thrown e vs) = on_thrown
    in_traversal-Stays st Outcome.stuck = on_stuck

    reset-Stays : (st : Traversal Stream) → Stays st (call lib tt (λ _ v. (visit_reset v, tt)) st)
    reset-Stays st = call-Stays tt (λ _ v. (visit_reset v, tt)) st

    finish_entry-Stays :
        (f : MapFilter) (st : Traversal Stream) → Stays st (finish_entry lib sub f st)
    unfolding finish_entry forward_buffered_value
    finish_entry-Stays f st = elim (Bool-cases (filter_matches f)) [
      | inl e ↦ rw e (Stays-then _ (in_traversal-Stays st _) λ _ st' s. reset-Stays st')
      | inr e ↦ rw e (reset-Stays st)
    ]

    finish-Stays : (o : Option MapFilter) (st : Traversal Stream) → Stays st (finish lib sub o st)
    finish-Stays none st = on_done (Same-refl lib st)
    finish-Stays (some f) st = finish_entry-Stays f st

    pub end_field-Stays : (st : Traversal Stream) → Stays st (end_field lib sub st)
    unfolding end_field
    end_field-Stays st =
        Stays-then (finish lib sub) (call-Stays none (λ _. visit_end_field) st)
          λ o st' s. finish-Stays o st'

  pub push_visitor-Rises : (v : ℕ) (st : Traversal Stream) → Rises st (push_visitor lib v st)
  unfolding push_visitor
  push_visitor-Rises v st = on_done (record {
    extra = record { visitor = v; depth_added = st.depth } ∷ [];
    depth = refl;
    stack = refl;
    added = (refl, tt);
    visitor = refl;
  })

  pub Rises-then :
      {A B : Type 0} {st : Traversal Stream} {o : Outcome (Traversal Stream) A}
      (k : A → Traversal Stream → Outcome (Traversal Stream) B)
      → Rises st o
      → ((a : A) (st' : Traversal Stream) → Above lib st st' → Rises st' (k a st'))
      → Rises st (and_then k o)
  Rises-then k h f =
      and_then-Whenever h λ a st' s. Whenever-weaken (f a st' s) λ b st'' t. Above-trans lib s t

  pub Same-to-Above : {a b : Traversal Stream} → Same lib a b → Above lib a b
  Same-to-Above {a} s = Above-Same lib (Above-refl lib a) s

  pub Stays-Rises :
      {A : Type 0} {st : Traversal Stream} {o : Outcome (Traversal Stream) A}
      → Stays st o
      → Rises st o
  Stays-Rises h = Whenever-weaken h λ a st' s. Same-to-Above s

  push_loop-Rises :
      (fuel : ℕ) (method : ℕ → Visitor → Visitor × ℕ) (st : Traversal Stream)
      → Rises st (push_loop lib fuel method st)
  unfolding push_loop
  push_loop-Rises zero method st = on_stuck
  push_loop-Rises (suc fuel) method st =
      Rises-then _ (Stays-Rises (call-Stays st.visitor method st)) λ new st₁ s.
        if-Whenever (new == st₁.visitor) (on_done (Above-refl lib st₁))
          (Rises-then _ (push_visitor-Rises new st₁) λ _ st₂ t. push_loop-Rises fuel method st₂)

  pub call_begin_message-Rises : (st : Traversal Stream) → Rises st (call_begin_message lib st)
  unfolding call_begin_message
  call_begin_message-Rises st = push_loop-Rises (suc (length st.visitors)) visit_begin_message st

  -- The state with one more level of depth.
  abbrev pub deeper : Traversal Stream → Traversal Stream
  deeper st = record st { depth = st.depth + 1 }

  pub increment-Rises :
      (number wire_type : ℕ) (st : Traversal Stream)
      → Rises (deeper st) (increment_depth_and_call_begin_field lib number wire_type st)
  unfolding increment_depth_and_call_begin_field
  increment-Rises number wire_type st =
      push_loop-Rises (suc (length st.visitors)) (λ this. visit_begin_field this number wire_type)
        (deeper st)

  -- Back at the depth of `start`, with `extra` still on top of its stack.
  abbrev Back : Traversal Stream → List StackElement → Traversal Stream → Type 0
  Back start extra st =
      (st.depth ≡ start.depth)
      × (st.stack ≡ extra ++ start.stack)
      × (st.visitor ≡ top_visitor start.visitor extra)

  Back-Same :
      (start : Traversal Stream) (extra : List StackElement) {st st' : Traversal Stream}
      → Back start extra st
      → Same lib st st'
      → Back start extra st'
  Back-Same start extra (d, s, v) t = (t.depth ∙ d, t.stack ∙ s, t.visitor ∙ v)

  not_deeper : (a b : ℕ) → b ≤ a → ltb a b ≡ false
  not_deeper a b h = ground arith

  is_deeper : (a b : ℕ) → b ≡ a + 1 → ltb a b ≡ true
  is_deeper a b h = ground arith

  uncovered :
      (start : Traversal Stream) (no_op : ℕ) (extra : List StackElement)
      → IsGrounded lib start
      → top_visitor no_op (extra ++ start.stack) ≡ top_visitor start.visitor extra
  uncovered start no_op [] g = rw g.stack (sym g.visitor)
  uncovered start no_op (e ∷ extra) g = refl

  pop_visitor-Back :
      (start : Traversal Stream) (e : StackElement) (extra : List StackElement)
      (st : Traversal Stream)
      → IsGrounded lib start
      → Back start (e ∷ extra) st
      → Whenever (λ (_ : Unit {0}) st'. Back start extra st') (pop_visitor lib st)
  unfolding pop_visitor
  pop_visitor-Back start e extra st g (d, s, v) =
      rw s (on_done (d, refl, uncovered start (length st.visitors) extra g))

  module _ (sub : SubScan) where
    -- Popping what was pushed one level deeper leads back to the state before.
    pop_loop-Back :
        (extra : List StackElement) (start st : Traversal Stream)
        → IsGrounded lib start
        → All (λ (e : StackElement). e.depth_added ≡ start.depth + 1) extra
        → Back start extra st
        → Whenever
            (λ (_ : Unit {0}) st'. Same lib start st')
            (pop_loop lib sub (extra ++ start.stack) st)
    unfolding pop_loop
    pop_loop-Back [] start st g a (d, s, v) =
        rw (g.stack, not_deeper st.depth g.top.depth_added (rw d g.added))
          (on_done (record { depth = d; stack = s ∙ g.stack; visitor = v }))
    pop_loop-Back (e ∷ extra) start st g (a, more) b =
        rw (is_deeper st.depth e.depth_added (a ∙ ap (λ d. d + 1) (sym b.0))) (
          and_then-Whenever
            (and_then-Whenever (pop_visitor-Back start e extra st g b) λ _ st₁ b₁.
              Whenever-weaken (end_field-Stays sub st₁) λ _ st₂ t. Back-Same start extra b₁ t)
            λ _ st₂ b₂. pop_loop-Back extra start st₂ g more b₂)

    -- From one level deeper, the end of a field leads back to the state before the field.
    pub decrement-Back :
        (start st : Traversal Stream)
        → IsGrounded lib start
        → Above lib (deeper start) st
        → Whenever
            (λ (_ : Unit {0}) st'. Same lib start st')
            (decrement_depth_and_end_field_and_pop_visitors lib sub st)
    unfolding decrement_depth_and_end_field_and_pop_visitors
    decrement-Back start st g a =
        let back : Back start a.extra (record st { depth = st.depth - 1 }) =
          (ap (λ d. d - 1) a.depth ∙ omega arith, a.stack, a.visitor) in
        and_then-Whenever
          (Whenever-weaken (end_field-Stays sub (record st { depth = st.depth - 1 }))
            λ _ st' t. Back-Same start a.extra back t)
          λ _ st' (b : Back start a.extra st').
            subst
              (λ stack.
                Whenever (λ (_ : Unit {0}) st'. Same lib start st') (pop_loop lib sub stack st'))
              (sym b.1) (pop_loop-Back a.extra start st' g a.added b)
