-- ===== src/Traverser/Termination/Invariant.antt =====
-- The invariant of a run of the traverser, and the steps that keep it.
use postgres_protobuf.Common.{
  ℕ, zero, suc, ◌+◌, ◌-◌, ◌≤◌, ◌<◌, ◌≡◌, refl, sym, ap, ◌∙◌, ◌⊎◌, inl, inr, Option, none, some,
  List, [], ◌∷◌, arith, eq→==, ne→==, ◌==◌, if◌then◌else◌, Option-cases, length, get_elem?, All,
  length-set, get_elem?-lt,
}
use postgres_protobuf.Outcome.{Error, Outcome, done, Ends, completes, raises, and_then-Ends}
use postgres_protobuf.Library.{CodedInputStream}
use postgres_protobuf.Visitor.{Visitor, visit_popped, visit_begin_field, visit_begin_message}
use postgres_protobuf.Traverser.State.{Traversal, StackElement}
use postgres_protobuf.Traverser.Steps.{
  call, emit, raise, push_visitor, pop_visitor, pop_from, top_visitor, popped_at, push_loop,
  increment_depth_and_call_begin_field, call_begin_message,
}
use postgres_protobuf.Traverser.Termination.Visitors.{
  Answers, visit_begin_field-Answers, visit_begin_message-Answers,
}

-- `n` visitors, of which the run uses those from `base` on; `bound` bytes are left at most.
module _ (lib : CodedInputStream) (remaining : lib.Stream → ℕ) (base n : ℕ) where
  open lib use {Stream}

  pub record Inv (bound : ℕ) (st : Traversal Stream) : Type 0 where
    pub size : length st.visitors ≡ n
    pub from : base ≤ n
    pub here : base ≤ st.visitor
    pub below : All (λ (e : StackElement). base ≤ e.visitor) st.stack
    pub left : remaining st.stream ≤ bound

  -- The step ends, and keeps the invariant.
  abbrev pub Holds : {A : Type 0} → ℕ → Outcome (Traversal Stream) A → Type 0
  Holds {A} bound o = Ends (λ (a : A) st. Inv bound st) o

  pub Inv-weaken : {b c : ℕ} {st : Traversal Stream} → b ≤ c → Inv b st → Inv c st
  Inv-weaken h i = record {
    size = i.size;
    from = i.from;
    here = i.here;
    below = i.below;
    left = omega arith;
  }

  -- A call leaves all but the visitors as it was, and answers what the method does.
  pub record Called (A : Type 0) (default : A) (method : ℕ → Visitor → Visitor × A) (bound : ℕ)
      (st : Traversal Stream) (a : A) (st' : Traversal Stream) : Type 0 where
    pub inv : Inv bound st'
    pub same : st'.visitor ≡ st.visitor
    pub answer : (a ≡ default) ⊎ ((v : Visitor) × (a ≡ (method st.visitor v).1) × (st.visitor < n))

  pub call-Called :
      {A : Type 0} (default : A) (method : ℕ → Visitor → Visitor × A) {bound : ℕ}
      (st : Traversal Stream)
      → Inv bound st
      → Ends (Called A default method bound st) (call lib default method st)
  unfolding call
  call-Called default method st i = elim (Option-cases (get_elem? st.visitors st.visitor)) [
    | inl e ↦ rw (e, call) (completes (record { inv = i; same = refl; answer = inl refl }))
    | inr (v, e) ↦
        rw (e, call)
          (completes (record {
            inv = record {
              size = length-set st.visitors st.visitor (method st.visitor v).0 ∙ i.size;
              from = i.from;
              here = i.here;
              below = i.below;
              left = i.left;
            };
            same = refl;
            answer = inr (v, refl, rw (sym i.size) (get_elem?-lt st.visitors st.visitor v e));
          }))
  ]

  raise-Holds :
      {bound : ℕ} (o : Option Error) (st : Traversal Stream)
      → Inv bound st
      → Holds bound (raise lib o st)
  raise-Holds none st i = completes i
  raise-Holds (some e) st i = raises

  pub emit-Holds :
      (method : Visitor → Visitor × Option Error) {bound : ℕ} (st : Traversal Stream)
      → Inv bound st
      → Holds bound (emit lib method st)
  unfolding emit
  emit-Holds method st i =
      and_then-Ends (call-Called none (λ _. method) st i) λ o st' c. raise-Holds o st' c.inv

  pub push_visitor-Holds :
      (v : ℕ) {bound : ℕ} (st : Traversal Stream)
      → base ≤ v
      → Inv bound st
      → Holds bound (push_visitor lib v st)
  unfolding push_visitor
  push_visitor-Holds v st h i =
      completes
        (record { size = i.size; from = i.from; here = h; below = (h, i.below); left = i.left })

  abbrev pushed : ℕ → Traversal Stream → Traversal Stream
  pushed new st = record st {
    stack = record { visitor = new; depth_added = st.depth } ∷ st.stack;
    visitor = new;
  }

  module _ (method : ℕ → Visitor → Visitor × ℕ) (a : Answers method) {bound : ℕ} where
    -- A round answers the visitor itself, or the next one, which is at most one past the last.
    moves :
        {st : Traversal Stream} (new : ℕ) (st' : Traversal Stream)
        → Called ℕ st.visitor method bound st new st'
        → (new ≡ st'.visitor) ⊎ ((new ≡ suc st'.visitor) × (st'.visitor < n))
    moves {st} new st' c = elim c.answer [
      | inl e ↦ inl (e ∙ sym c.same)
      | inr (v, e, l) ↦ elim (a st.visitor v) [
        | inl s ↦ inl (e ∙ s ∙ sym c.same)
        | inr s ↦ inr (e ∙ s ∙ ap suc (sym c.same), rw c.same l)
      ]
    ]

    round :
        (fuel new : ℕ) (st' : Traversal Stream)
        → ((st : Traversal Stream)
            → n - st.visitor < fuel
            → Inv bound st
            → Holds bound (push_loop lib fuel method st))
        → n - st'.visitor < suc fuel
        → Inv bound st'
        → (new ≡ st'.visitor) ⊎ ((new ≡ suc st'.visitor) × (st'.visitor < n))
        → Holds bound
            (if new == st'.visitor then done tt st' else push_loop lib fuel method (pushed new st'))
    round fuel new st' again h i (inl e) = rw (eq→== new st'.visitor e) (completes i)
    round fuel new st' again h i (inr (e, l)) = rw (ne→== new st'.visitor (omega arith)) (
        again (pushed new st') (omega arith) (record {
          size = i.size;
          from = i.from;
          here = omega (arith, i.here);
          below = (omega (arith, i.here), i.below);
          left = i.left;
        }))

    -- The loops of `BeginField` and `BeginMessage` end: each round but the last goes on to the next
    -- visitor.
    push_loop-Holds :
        (fuel : ℕ) (st : Traversal Stream)
        → n - st.visitor < fuel
        → Inv bound st
        → Holds bound (push_loop lib fuel method st)
    unfolding push_loop push_visitor
    push_loop-Holds zero st h i = absurd (omega arith)
    push_loop-Holds (suc fuel) st h i =
        and_then-Ends (call-Called st.visitor method st i) λ new st' c.
          round fuel new st' (push_loop-Holds fuel) (rw c.same h) c.inv (moves new st' c)

  pub increment-Holds :
      (number wire_type : ℕ) {bound : ℕ} (st : Traversal Stream)
      → Inv bound st
      → Holds bound (increment_depth_and_call_begin_field lib number wire_type st)
  unfolding increment_depth_and_call_begin_field
  increment-Holds number wire_type st i =
      push_loop-Holds (λ this. visit_begin_field this number wire_type)
        (visit_begin_field-Answers number wire_type) (suc (length st.visitors))
        (record st { depth = st.depth + 1 }) (rw i.size (omega arith))
        (record { size = i.size; from = i.from; here = i.here; below = i.below; left = i.left })

  pub call_begin_message-Holds :
      {bound : ℕ} (st : Traversal Stream) → Inv bound st → Holds bound (call_begin_message lib st)
  unfolding call_begin_message
  call_begin_message-Holds st i =
      push_loop-Holds visit_begin_message visit_begin_message-Answers (suc (length st.visitors)) st
        (rw i.size (omega arith)) i

  length-popped_at : (k : ℕ) (vs : List Visitor) → length (popped_at k vs) ≡ length vs
  length-popped_at k vs = elim (Option-cases (get_elem? vs k)) [
    | inl e ↦ rw (e, popped_at)
    | inr (v, e) ↦ rw (e, popped_at) (length-set vs k (visit_popped v))
  ]

  top-from :
      (es : List StackElement) (m : ℕ)
      → All (λ (e : StackElement). base ≤ e.visitor) es
      → base ≤ m
      → base ≤ top_visitor m es
  top-from [] m h i = i
  top-from (e ∷ es) m h i = h.0

  pop_from-Holds :
      (stack : List StackElement) {bound : ℕ} (st : Traversal Stream)
      → All (λ (e : StackElement). base ≤ e.visitor) stack
      → Inv bound st
      → Holds bound (pop_from lib stack st)
  pop_from-Holds [] st h i = completes (record {
    size = i.size;
    from = i.from;
    here = omega (arith, i.size, i.from);
    below = i.below;
    left = i.left;
  })
  pop_from-Holds (e ∷ es) st h i = completes (record {
    size = length-popped_at e.visitor st.visitors ∙ i.size;
    from = i.from;
    here = top-from es (length st.visitors) h.1 (omega (arith, i.size, i.from));
    below = h.1;
    left = i.left;
  })

  pub pop_visitor-Holds :
      {bound : ℕ} (st : Traversal Stream) → Inv bound st → Holds bound (pop_visitor lib st)
  unfolding pop_visitor
  pop_visitor-Holds st i = pop_from-Holds st.stack st i.below i
